-- ===== src/Vm/Intrinsics.antt =====
-- The casts of src/vm/vm.c and the intrinsics of src/vm/vm_ops.c.
use Prim.Native.String.{String}
use arcana.Common.{
  ℕ, zero, suc, ◌+◌, ◌-◌, Bool, ◌&&◌, ◌||◌, Option, none, some, List, [], ◌∷◌, ◌++◌, ltb, ◌==◌,
  if◌then◌else◌, length,
}
use arcana.Runtime.Object.{Value, null, bool, i64, f64, obj, Payload, string, array}
use arcana.Vm.State.{
  ok, M, ◌>>=◌, ◌>>◌, pure, done, broken, current, on_some, vm_error, vm_push, vm_read_byte,
  vm_read_u16, load,
}
use arcana.Vm.Platform.{
  Platform, bytes_of, c_string, is_truthy, payload_of, string_of, update_object, pointer_of,
  allocate, new_object,
}
use arcana.Runtime.Objects.{new_vec, array_push, type_name}
use arcana.Vm.Values.{unary}
use arcana.Vm.Collections.{push_items, vm_exec_length, array_of, map_of, first_of}
use arcana.Vm.Op.{Op, op_cast_i64, op_cast_f64, op_cast_str}

-- `strtoll` and `strtod` on a whole string: the conversion fails where no character or not every one
-- is read.
unfoldable pub parse_all : String → (List ℕ → ℕ × ℕ) → List ℕ → M ℕ
parse_all message read s =
    let text = c_string s in
    let (r, count) = read text in
    if count == 0 || ltb count (length text) then vm_error message else pure r

abbrev pub tag_name : Value → Option (List ℕ)
tag_name null = some (bytes_of "null")
tag_name (bool _) = some (bytes_of "bool")
tag_name (i64 _) = some (bytes_of "i64")
tag_name (f64 _) = some (bytes_of "f64")
tag_name (obj _) = none

unfoldable pub print_row : List Value → M (Unit {0})
print_row vs vm =
    ok tt (record vm { world = record vm.world { output = (vm.gc.objects, vs) ∷ vm.world.output } })

unfoldable pub drop_operands : ℕ → M (Unit {0})
drop_operands n vm = ok tt (record vm { sp = vm.sp - n })

-- The `n` values from a slot upwards.
unfoldable pub load_from : ℕ → ℕ → M (List Value)
load_from i zero = pure []
load_from i (suc n) = do v ← load i; rest ← load_from (suc i) n; pure (v ∷ rest)

-- The first slot is below the stack where there are fewer values than arguments.
unfoldable pub vm_intr_print : ℕ → M (Unit {0})
vm_intr_print argc = do
  vm ← current
  if ltb vm.sp argc
      then broken
      else (do row ← load_from (vm.sp - argc) argc; print_row row; drop_operands argc)

unfoldable pub vm_intr_push : M (Unit {0})
vm_intr_push = do
  vm ← current
  if ltb vm.sp 2 then broken else (do
    val ← load (vm.sp - 1)
    arr_v ← load (vm.sp - 2)
    drop_operands 2
    p ← payload_of arr_v
    on_some (array_of p)
        (λ items.
          on_some (array_push items val) (λ items'. update_object (pointer_of arr_v) (array items'))
            broken)
        (vm_error "push: first arg must be array")
    vm_push null)

unfoldable pub assert : Value → M Value
assert v = if is_truthy v then pure null else vm_error "assertion failed"

unfoldable pub tick : M Value
tick vm =
    ok (f64 (vm.world.clock vm.world.calls))
      (record vm { world = record vm.world { calls = vm.world.calls + 1 } })

unfoldable pub read_line : M (Option (List ℕ))
read_line vm = elim vm.world.input [
  | [] ↦ ok none vm
  | line ∷ rest ↦ ok (some line) (record vm { world = record vm.world { input = rest } })
]

-- `if (len > 0 && line[len-1] == '\n') line[--len] = '\0'`
abbrev pub chop_newline : List ℕ → List ℕ
chop_newline [] = []
chop_newline (b ∷ bs) =
    let rest = chop_newline bs in if b == 10 && length bs == 0 then [] else b ∷ rest

unfoldable pub expect_argc : ℕ → ℕ → String → M (Unit {0}) → M (Unit {0})
expect_argc argc n message m = if argc == n then m else vm_error message

abbrev pub bool_text : Bool → List ℕ
bool_text b = if b then bytes_of "true" else bytes_of "false"

module _ (pf : Platform) where
  -- The conversions of the three casts.
  unfoldable pub to_i64 : Value → M Value
  to_i64 (i64 n) = pure (i64 n)
  to_i64 (f64 x) = on_some (pf.f64_to_i64 x) (λ n. pure (i64 n)) broken
  to_i64 (bool b) = pure (i64 (if b then 1 else 0))
  to_i64 null = pure (i64 0)
  to_i64 (obj o) = do
    p ← payload_of (obj o)
    on_some (string_of p)
        (λ s. do r ← parse_all "cast_i64: invalid string" pf.strtoll s; pure (i64 r))
        (vm_error "cast_i64: unsupported type")

  unfoldable pub to_f64 : Value → M Value
  to_f64 (f64 x) = pure (f64 x)
  to_f64 (i64 n) = pure (f64 (pf.f64_of_i64 n))
  to_f64 (bool b) = pure (f64 (if b then 4607182418800017408 else 0))
  to_f64 null = pure (f64 0)
  to_f64 (obj o) = do
    p ← payload_of (obj o)
    on_some (string_of p)
        (λ s. do r ← parse_all "cast_f64: invalid string" pf.strtod s; pure (f64 r))
        (vm_error "cast_f64: unsupported type")

  unfoldable pub named : Option Payload → M Value
  named p =
      on_some p
        (λ q. new_object pf (string (bytes_of "<" ++ (bytes_of (type_name q) ++ bytes_of ">"))))
        broken

  unfoldable pub to_text : Value → M Value
  to_text null = new_object pf (string (bytes_of "null"))
  to_text (bool b) = new_object pf (string (bool_text b))
  to_text (i64 n) = new_object pf (string (pf.show_i64 n))
  to_text (f64 x) = new_object pf (string (pf.show_f64 x))
  to_text (obj o) = do p ← payload_of (obj o); on_some (string_of p) (λ _. pure (obj o)) (named p)

  unfoldable pub vm_exec_cast : Op → M (Unit {0})
  vm_exec_cast op_cast_i64 = unary to_i64
  vm_exec_cast op_cast_f64 = unary to_f64
  vm_exec_cast op_cast_str = unary to_text
  vm_exec_cast _ = vm_error "bad cast op"

  unfoldable pub type_text : Value → M Value
  type_text v =
      on_some (tag_name v) (λ t. new_object pf (string t))
        (do
          p ← payload_of v
          on_some p (λ q. new_object pf (string (bytes_of (type_name q)))) broken)

  -- The keys are pushed on an array of their number.
  unfoldable pub keys_of : Value → M Value
  keys_of v = do
    p ← payload_of v
    on_some (map_of p)
        (λ entries. do
          a ← allocate pf (array (new_vec (length entries.items)))
          arr ← push_items (new_vec (length entries.items)) (first_of entries.items)
          if length entries.items == 0 then done else update_object a (array arr)
          pure (obj a))
        (vm_error "keys: not a map")

  unfoldable pub vm_intr_input : M (Unit {0})
  vm_intr_input = do
    line ← read_line
    r ← on_some line (λ bs. new_object pf (string (chop_newline (c_string bs)))) (pure null)
    vm_push r

  unfoldable pub intrinsic : ℕ → ℕ → M (Unit {0})
  intrinsic id argc =
      if id == 0
      then vm_intr_print argc
      else if id == 1
      then tick >>= vm_push
      else if id == 2
      then expect_argc argc 1 "type: expects 1 argument" (unary type_text)
      else if id == 3
      then expect_argc argc 1 "assert: expects 1 argument" (unary assert)
      else if id == 4
      then expect_argc argc 1 "tostring: expects 1 argument" (unary to_text)
      else if id == 5
      then vm_intr_input
      else if id == 6
      then expect_argc argc 1 "len: expects 1 argument"
          (unary (vm_exec_length "len: not a container"))
      else if id == 7
      then expect_argc argc 2 "push: expects 2 arguments" vm_intr_push
      else if id == 8
      then expect_argc argc 1 "keys: expects 1 argument" (unary keys_of)
      else vm_error "unknown intrinsic %u"

  unfoldable pub vm_exec_intrinsic : M (Unit {0})
  vm_exec_intrinsic = do id ← vm_read_u16; argc ← vm_read_byte; _ ← vm_read_byte; intrinsic id argc
