-- ===== src/Vm/Closures.antt =====
-- The handlers of src/vm/vm_ops.c for closures. An upvalue is known by its address, and the chain
-- `open_upvalues` is the list of the addresses.
use Prim.Native.String.{String}
use arcana.Common.{
  ℕ, ◌+◌, ◌-◌, ◌%◌, Option, none, some, List, [], ◌∷◌, leb, ◌==◌, if◌then◌else◌, length, get_elem?,
}
use arcana.Runtime.Object.{Value, null, obj, Payload, closure, upvalue}
use arcana.Vm.State.{
  stack_max, word32, ok, M, ◌>>=◌, ◌>>◌, pure, done, broken, current, on_some, vm_error, vm_push,
  vm_pop, vm_read_u16, load, write, top_frame, func_at,
}
use arcana.Vm.Platform.{Platform, payload_of, update_object, allocate}
use arcana.Common.{replicate}
use arcana.Bytecode.Image.{UpvalueDesc}
use arcana.Vm.Op.{Op, op_closure, op_get_upval, op_set_upval, op_close_upval}

abbrev pub closure_of : Option Payload → Option (ℕ × List (Option ℕ))
closure_of (some (closure idx ups)) = some (idx, ups)
closure_of _ = none

abbrev pub upvalue_of : Option Payload → Option (Option ℕ × Value)
upvalue_of (some (upvalue location closed)) = some (location, closed)
upvalue_of _ = none

-- `*uv->location`
unfoldable pub read_upvalue : ℕ → M Value
read_upvalue a = do
  p ← payload_of (obj (some a))
  on_some (upvalue_of p) (λ (location, closed). on_some location load (pure closed)) broken

unfoldable pub write_upvalue : ℕ → Value → M (Unit {0})
write_upvalue a v = do
  p ← payload_of (obj (some a))
  on_some (upvalue_of p)
      (λ (location, _).
        on_some location (λ slot. write slot v) (update_object (some a) (upvalue none v)))
      broken

-- The slot of an open upvalue.
unfoldable pub open_slot : ℕ → M ℕ
open_slot a = do
  p ← payload_of (obj (some a))
  on_some (upvalue_of p) (λ (location, _). on_some location pure broken) broken

-- The loop that closes the upvalues at `slot` and above; the others stay in the chain.
unfoldable pub close_from : ℕ → List ℕ → M (List ℕ)
close_from slot [] = pure []
close_from slot (a ∷ us) = do
  location ← open_slot a
  if leb slot location
      then (do v ← load location; update_object (some a) (upvalue none v); close_from slot us)
      else (do rest ← close_from slot us; pure (a ∷ rest))

unfoldable pub set_open_upvalues : List ℕ → M (Unit {0})
set_open_upvalues us vm = ok tt (record vm { open_upvalues = us })

unfoldable pub close_upvalues : ℕ → M (Unit {0})
close_upvalues slot = do vm ← current; us ← close_from slot vm.open_upvalues; set_open_upvalues us

unfoldable pub vm_exec_close_upval : M (Unit {0})
vm_exec_close_upval = do vm ← current; if vm.sp == 0 then done else close_upvalues (vm.sp - 1)

-- The value below the frame's base, where a closure that is called stands.
unfoldable pub callee_value : M Value
callee_value = do frame ← top_frame; load (frame.base_slot - 1)

-- The upvalue of the running closure that an instruction names, not null.
unfoldable pub upvalue_ref : String → String → ℕ → M ℕ
upvalue_ref not_closure bad_index idx = do
  callee_v ← callee_value
  p ← payload_of callee_v
  on_some (closure_of p)
      (λ (_, ups).
        on_some (get_elem? ups idx) (λ u. on_some u pure (vm_error bad_index)) (vm_error bad_index))
      (vm_error not_closure)

unfoldable pub vm_exec_get_upval : M (Unit {0})
vm_exec_get_upval = do
  idx ← vm_read_u16
  a ← upvalue_ref "get_upvalue: not in a closure" "get_upvalue: invalid index %u" idx
  v ← read_upvalue a
  vm_push v

unfoldable pub vm_exec_set_upval : M (Unit {0})
vm_exec_set_upval = do
  idx ← vm_read_u16
  val ← vm_pop
  a ← upvalue_ref "set_upvalue: not in a closure" "set_upvalue: invalid index %u" idx
  write_upvalue a val

-- The search of the chain for an upvalue of `slot`.
unfoldable pub find_open : ℕ → List ℕ → M (Option ℕ)
find_open slot [] = pure none
find_open slot (a ∷ us) = do
  location ← open_slot a
  if location == slot then pure (some a) else find_open slot us

-- The upvalue that the enclosing closure holds, null where there is none.
abbrev pub enclosing : ℕ → Option (ℕ × List (Option ℕ)) → Option ℕ
enclosing idx none = none
enclosing idx (some (_, ups)) = elim (get_elem? ups idx) [ none ↦ none | some u ↦ u ]

module _ (pf : Platform) where
  unfoldable pub new_open : ℕ → M ℕ
  new_open slot = do
    a ← allocate pf (upvalue (some slot) null)
    on_some a (λ uv. do vm ← current; set_open_upvalues (uv ∷ vm.open_upvalues); pure uv) broken

  -- One round of the loop of `closure`. A pointer past the end of the stack is a fault.
  unfoldable pub capture : UpvalueDesc → M (Option ℕ)
  capture desc =
      if desc.is_local
      then (do
        frame ← top_frame
        let slot = (frame.base_slot + desc.index) % word32
        vm ← current
        found ← find_open slot vm.open_upvalues
        a ← if leb slot stack_max then on_some found pure (new_open slot) else broken
        pure (some a))
      else (do
        callee_v ← callee_value
        p ← payload_of callee_v
        pure (enclosing desc.index (closure_of p)))

  unfoldable pub capture_all : List UpvalueDesc → M (List (Option ℕ))
  capture_all [] = pure []
  capture_all (d ∷ ds) = do u ← capture d; rest ← capture_all ds; pure (u ∷ rest)

  unfoldable pub fill_closure : Option ℕ → ℕ → List UpvalueDesc → M (Unit {0})
  fill_closure a func_idx upvalues = do
    ups ← capture_all upvalues
    if length upvalues == 0 then done else update_object a (closure func_idx ups)

  unfoldable pub vm_exec_closure_new : M (Unit {0})
  vm_exec_closure_new = do
    func_idx ← vm_read_u16
    vm ← current
    on_some (func_at vm func_idx)
        (λ fn. do
          a ← allocate pf (closure func_idx (replicate (length fn.upvalues) none))
          fill_closure a func_idx fn.upvalues
          vm_push (obj a))
        (vm_error "closure: invalid function index %u")

  unfoldable pub vm_exec_closure : Op → M (Unit {0})
  vm_exec_closure op_closure = vm_exec_closure_new
  vm_exec_closure op_get_upval = vm_exec_get_upval
  vm_exec_closure op_set_upval = vm_exec_set_upval
  vm_exec_closure op_close_upval = vm_exec_close_upval
  vm_exec_closure _ = vm_error "bad closure op"
