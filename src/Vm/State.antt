-- ===== src/Vm/State.antt =====
-- The machine of src/vm/vm.h and the helpers of src/vm/vm_ops.h. An instruction is a function on
-- machines that gives a value and the next machine, a runtime error, a fault (an access outside an
-- array or a block, a null pointer, a trapping division), a machine that yields or blocks, or leaves
-- for a part that is not modelled.
use Prim.Native.String.{String}
use arcana.Common.{
  ℕ, ◌+◌, ◌-◌, ◌*◌, Bool, ◌&&◌, Option, none, some, List, ltb, leb, ◌==◌, if◌then◌else◌, get_elem?,
}
use arcana.Bytecode.Image.{FuncRecord, Image}
use arcana.Runtime.Object.{Value, null}
use arcana.Runtime.Gc.{Heap, Gc}

abbrev pub stack_max : ℕ
stack_max = 1024

abbrev pub frames_max : ℕ
frames_max = 256

abbrev pub globals_max : ℕ
globals_max = 256

abbrev pub handler_max : ℕ
handler_max = 64

abbrev pub word32 : ℕ
word32 = 4294967296

pub record Frame : Type 0 where
  pub func_idx : ℕ
  pub return_ip : ℕ
  pub base_slot : ℕ

pub record Handler : Type 0 where
  pub catch_ip : ℕ
  pub stack_height : ℕ
  pub frame_depth : ℕ

-- The message is the format string.
pub record VmError : Type 0 where
  pub ip : ℕ
  pub func_idx : ℕ
  pub message : String

-- What the process reads and writes: the doubles that `clock() / CLOCKS_PER_SEC` gives, by the number
-- of the call; the lines that `fgets` still delivers; and the printed rows, the last one first, each
-- with the heap at that time.
pub record World : Type 0 where
  pub clock : ℕ → ℕ
  pub calls : ℕ
  pub input : List (List ℕ)
  pub output : List (Heap × List Value)

-- The arrays hold what was last written, also above the counts.
pub record Vm : Type 0 where
  pub image : Image
  pub stack : ℕ → Value
  pub sp : ℕ
  pub frames : ℕ → Frame
  pub fp : ℕ
  pub globals : ℕ → Value
  pub global_count : ℕ
  pub ip : ℕ
  pub halted : Bool
  pub handlers : ℕ → Handler
  pub handler_count : ℕ
  pub gc : Gc
  pub open_upvalues : List ℕ
  pub yielded : Value
  pub world : World

pub data Outcome {ℓ} (A : Type ℓ) : Type ℓ where
  ok : A → Vm → Outcome A
  error : VmError → Outcome A
  fault : Outcome A
  yielding blocked : Vm → Outcome A
  elsewhere : Vm → Outcome A

abbrev pub M {ℓ} : Type ℓ → Type ℓ
M A = Vm → Outcome A

infixl 5 ◌>>=◌ ◌>>◌
abbrev pub continue {ℓ κ} : {A : Type ℓ} {B : Type κ} → Outcome A → (A → M B) → Outcome B
continue (ok a vm) f = f a vm
continue (error e) f = error e
continue fault f = fault
continue (yielding vm) f = yielding vm
continue (blocked vm) f = blocked vm
continue (elsewhere vm) f = elsewhere vm

unfoldable pub ◌>>=◌ {ℓ κ} : {A : Type ℓ} {B : Type κ} → M A → (A → M B) → M B
◌>>=◌ m f vm = continue (m vm) f

abbrev pub ◌>>◌ {ℓ κ} : {A : Type ℓ} {B : Type κ} → M A → M B → M B
m >> n = m >>= λ _. n

unfoldable pub pure {ℓ} : {A : Type ℓ} → A → M A
pure a vm = ok a vm

-- `return ARC_OK`
abbrev pub done : M (Unit {0})
done = pure tt

-- An access outside a block or an array, or a trap.
unfoldable pub broken {ℓ} : {A : Type ℓ} → M A
broken vm = fault

-- The machine itself.
unfoldable pub current : M Vm
current vm = ok vm vm

-- The branches on a test that finds a value.
unfoldable pub on_some {ℓ κ} : {A : Type ℓ} {B : Type κ} → Option A → (A → M B) → M B → M B
on_some none f n = n
on_some (some a) f n = f a

abbrev pub store : (ℕ → Value) → ℕ → Value → ℕ → Value
store f i v j = if j == i then v else f j

abbrev pub store_frame : (ℕ → Frame) → ℕ → Frame → ℕ → Frame
store_frame f i v j = if j == i then v else f j

abbrev pub store_handler : (ℕ → Handler) → ℕ → Handler → ℕ → Handler
store_handler f i v j = if j == i then v else f j

-- `vm_error` and `return ARC_ERR_RUNTIME`.
unfoldable pub vm_error {ℓ} : {A : Type ℓ} → String → M A
vm_error message vm = error (record {
  ip = vm.ip;
  func_idx = if ltb 0 vm.fp then (vm.frames (vm.fp - 1)).func_idx else 0;
  message = message;
})

unfoldable pub vm_push : Value → M (Unit {0})
vm_push v vm =
    if leb stack_max vm.sp
    then vm_error "stack overflow" vm
    else ok tt (record vm { stack = store vm.stack vm.sp v; sp = vm.sp + 1 })

unfoldable pub vm_pop : M Value
vm_pop vm =
    if vm.sp == 0
    then vm_error "stack underflow" vm
    else ok (vm.stack (vm.sp - 1)) (record vm { sp = vm.sp - 1 })

-- A read behind the code is a fault.
unfoldable pub vm_read_byte : M ℕ
vm_read_byte vm = elim (get_elem? vm.image.code vm.ip) [
  | none ↦ fault
  | some b ↦ ok b (record vm { ip = vm.ip + 1 })
]

unfoldable pub vm_read_u16 : M ℕ
vm_read_u16 = do b₀ ← vm_read_byte; b₁ ← vm_read_byte; pure (b₀ + b₁ * 256)

-- The pattern of the signed offset.
unfoldable pub vm_read_i32 : M ℕ
vm_read_i32 = do lo ← vm_read_u16; hi ← vm_read_u16; pure (lo + hi * 65536)

-- `vm->stack[i]`
unfoldable pub load : ℕ → M Value
load i vm = if ltb i stack_max then ok (vm.stack i) vm else fault

unfoldable pub write : ℕ → Value → M (Unit {0})
write i v vm = if ltb i stack_max then ok tt (record vm { stack = store vm.stack i v }) else fault

-- `vm->frames[vm->fp - 1]`
unfoldable pub top_frame : M Frame
top_frame vm = if ltb 0 vm.fp && leb vm.fp frames_max then ok (vm.frames (vm.fp - 1)) vm else fault

-- `vm->image->functions.funcs[i]`, `none` out of the table.
abbrev pub func_at : Vm → ℕ → Option FuncRecord
func_at vm i = get_elem? vm.image.functions.items i

abbrev pub get_or_null : Option Value → Value
get_or_null none = null
get_or_null (some v) = v
