-- ===== src/Vm/Step/Objects.antt =====
-- The steps of the handlers for arrays, maps, records and closures.
use Prim.Native.String.{String}
use arcana.Common.{ℕ, refl, Option, List, [], ◌∷◌, leb, arith}
use arcana.Runtime.Object.{Value, obj}
use arcana.Vm.State.{func_at}
use arcana.Vm.Platform.{Platform}
use arcana.Common.Vector.{Vec}
use arcana.Bytecode.Image.{UpvalueDesc}
use arcana.Vm.Collections.{
  Container, list_of, dict_of, text_of, no_container, container_of, length_of, vm_exec_length,
  map_lookup, index_set_of, vm_exec_index_set, name_at, vm_exec_field_get, vm_exec_field_set,
  vm_exec_record_new, index_get_of, vm_exec_collections,
}
use arcana.Vm.Closures.{
  read_upvalue, write_upvalue, open_slot, close_from, set_open_upvalues, close_upvalues,
  vm_exec_close_upval, callee_value, upvalue_ref, vm_exec_get_upval, vm_exec_set_upval, find_open,
  new_open, capture, capture_all, fill_closure, vm_exec_closure_new,
}
use arcana.Vm.Step.Values.{IsStep-binary, IsStep-char_at}
use arcana.Vm.Step.{
  After, IsStep, kept, IsStep-bind, IsStep-error, IsStep-pure, IsStep-if, IsStep-on_some,
  quiet-bind, IsStep-current,
}
use arcana.Vm.Step.Parts.{
  IsStep-pop, IsStep-push, IsStep-read_u16, IsStep-load, IsStep-payload_of, IsStep-update_object,
  IsStep-allocate, IsStep-new_object, IsStep-then_push, quiet_rules,
}
use arcana.Vm.Op.{op_index_get}

IsStep-length_of : (message : String) (c : Container) → IsStep 0 0 0 (length_of message c)
unfolding length_of
IsStep-length_of message (text_of s) = search quiet_rules
IsStep-length_of message (list_of s) = search quiet_rules
IsStep-length_of message (dict_of s) = search quiet_rules
IsStep-length_of message no_container = search quiet_rules

pub IsStep-length : (message : String) (v : Value) → IsStep 0 0 0 (vm_exec_length message v)
unfolding vm_exec_length
IsStep-length message v = search (quiet_rules, IsStep-length_of)

IsStep-map_lookup : (m : Vec (Value × Value)) (key : Value) → IsStep 0 0 0 (map_lookup m key)
unfolding map_lookup
IsStep-map_lookup m key = search quiet_rules

IsStep-index_set_of :
    (c : Container) (container key val : Value) → IsStep 0 0 0 (index_set_of c container key val)
unfolding index_set_of
IsStep-index_set_of (list_of s) container key val = search quiet_rules depth 8
IsStep-index_set_of (dict_of s) container key val = search quiet_rules depth 8
IsStep-index_set_of (text_of s) container key val = search quiet_rules
IsStep-index_set_of no_container container key val = search quiet_rules

IsStep-name_at : (i : ℕ) → IsStep 0 0 0 (name_at i)
unfolding name_at
IsStep-name_at i = search quiet_rules

pub index_set-IsStep : IsStep 0 3 0 vm_exec_index_set
unfolding vm_exec_index_set
index_set-IsStep = IsStep-bind IsStep-pop λ val. IsStep-bind IsStep-pop λ key.
    IsStep-bind IsStep-pop λ container.
      IsStep-bind (IsStep-payload_of container)
        λ p. IsStep-index_set_of (container_of p) container key val

pub field_get-IsStep : IsStep 2 1 1 vm_exec_field_get
unfolding vm_exec_field_get
field_get-IsStep = IsStep-bind IsStep-read_u16 λ idx. IsStep-bind IsStep-pop λ o.
    IsStep-bind (IsStep-payload_of o)
      λ p. IsStep-then_push (search (quiet_rules, IsStep-name_at) depth 8)

pub field_set-IsStep : IsStep 2 2 1 vm_exec_field_set
unfolding vm_exec_field_set
field_set-IsStep = IsStep-bind IsStep-read_u16 λ idx. IsStep-bind IsStep-pop λ val.
    IsStep-bind IsStep-pop λ o. IsStep-bind (IsStep-payload_of o) λ p.
      IsStep-bind {n = 0} {p = 0} {q = 0} (search (quiet_rules, IsStep-name_at) depth 12)
        λ _. IsStep-push o

module _ (pf : Platform) where
  pub record_new-IsStep : IsStep 2 0 1 (vm_exec_record_new pf)
  unfolding vm_exec_record_new
  record_new-IsStep =
      IsStep-bind IsStep-read_u16
        λ idx. IsStep-bind (IsStep-name_at idx) λ name. IsStep-then_push (IsStep-new_object pf _)

  IsStep-index_get_of : (c : Container) (key : Value) → IsStep 0 0 0 (index_get_of pf c key)
  unfolding index_get_of
  IsStep-index_get_of (list_of s) key = search quiet_rules depth 8
  IsStep-index_get_of (dict_of s) key = IsStep-map_lookup s key
  IsStep-index_get_of (text_of s) key = search (quiet_rules, IsStep-char_at)
  IsStep-index_get_of no_container key = search quiet_rules

  pub index_get-IsStep : IsStep 0 2 1 (vm_exec_collections pf op_index_get)
  unfolding vm_exec_collections
  index_get-IsStep = IsStep-binary λ c key. search (quiet_rules, IsStep-index_get_of)

-- Closures.
IsStep-read_upvalue : (a : ℕ) → IsStep 0 0 0 (read_upvalue a)
unfolding read_upvalue
IsStep-read_upvalue a = search quiet_rules depth 8

IsStep-write_upvalue : (a : ℕ) (v : Value) → IsStep 0 0 0 (write_upvalue a v)
unfolding write_upvalue
IsStep-write_upvalue a v = search quiet_rules depth 8

IsStep-open_slot : (a : ℕ) → IsStep 0 0 0 (open_slot a)
unfolding open_slot
IsStep-open_slot a = search quiet_rules depth 8

IsStep-close_from : (slot : ℕ) (us : List ℕ) → IsStep 0 0 0 (close_from slot us)
unfolding close_from
IsStep-close_from slot [] = search quiet_rules
IsStep-close_from slot (a ∷ us) =
    let rest = IsStep-close_from slot us in
    quiet-bind (IsStep-open_slot a) λ location.
      IsStep-if (leb slot location)
        (λ _.
          quiet-bind (IsStep-load location) λ v. quiet-bind (IsStep-update_object _ _) λ _. rest)
        λ _. quiet-bind rest λ us'. IsStep-pure _

IsStep-set_open_upvalues : (us : List ℕ) → IsStep 0 0 0 (set_open_upvalues us)
unfolding set_open_upvalues After
IsStep-set_open_upvalues us = record {
  at = λ vm. record { fixed = kept vm (λ h. h) λ h. h; ip = omega arith; sp = refl };
}

pub IsStep-close_upvalues : (slot : ℕ) → IsStep 0 0 0 (close_upvalues slot)
unfolding close_upvalues
IsStep-close_upvalues slot = search (quiet_rules, IsStep-close_from, IsStep-set_open_upvalues)

pub close_upval-IsStep : IsStep 0 0 0 vm_exec_close_upval
unfolding vm_exec_close_upval
close_upval-IsStep = search (quiet_rules, IsStep-close_upvalues)

IsStep-callee_value : IsStep 0 0 0 callee_value
unfolding callee_value
IsStep-callee_value = search quiet_rules

IsStep-upvalue_ref : (m k : String) (idx : ℕ) → IsStep 0 0 0 (upvalue_ref m k idx)
unfolding upvalue_ref
IsStep-upvalue_ref m k idx = search (quiet_rules, IsStep-callee_value) depth 10

pub get_upval-IsStep : IsStep 2 0 1 vm_exec_get_upval
unfolding vm_exec_get_upval
get_upval-IsStep =
    IsStep-bind IsStep-read_u16
      λ idx. IsStep-bind (IsStep-upvalue_ref _ _ idx) λ a. IsStep-then_push (IsStep-read_upvalue a)

pub set_upval-IsStep : IsStep 2 1 0 vm_exec_set_upval
unfolding vm_exec_set_upval
set_upval-IsStep = IsStep-bind IsStep-read_u16 λ idx.
    IsStep-bind IsStep-pop
      λ val. IsStep-bind (IsStep-upvalue_ref _ _ idx) λ a. IsStep-write_upvalue a val

IsStep-find_open : (slot : ℕ) (us : List ℕ) → IsStep 0 0 0 (find_open slot us)
unfolding find_open
IsStep-find_open slot [] = search quiet_rules
IsStep-find_open slot (a ∷ us) =
    let rest = IsStep-find_open slot us in
    quiet-bind (IsStep-open_slot a) λ location. search (quiet_rules, rest)

module _ (pf : Platform) where
  IsStep-new_open : (slot : ℕ) → IsStep 0 0 0 (new_open pf slot)
  unfolding new_open
  IsStep-new_open slot = search (quiet_rules, IsStep-set_open_upvalues) depth 10

  IsStep-capture : (d : UpvalueDesc) → IsStep 0 0 0 (capture pf d)
  unfolding capture
  IsStep-capture d =
      search (quiet_rules, IsStep-new_open, IsStep-find_open, IsStep-callee_value) depth 14

  IsStep-capture_all : (ds : List UpvalueDesc) → IsStep 0 0 0 (capture_all pf ds)
  unfolding capture_all
  IsStep-capture_all [] = search quiet_rules
  IsStep-capture_all (d ∷ ds) =
      let rest = IsStep-capture_all ds in
      quiet-bind (IsStep-capture d) λ u. search (quiet_rules, rest)

  IsStep-fill :
      (a : Option ℕ) (i : ℕ) (us : List UpvalueDesc) → IsStep 0 0 0 (fill_closure pf a i us)
  unfolding fill_closure
  IsStep-fill a i us = search (quiet_rules, IsStep-capture_all) depth 8

  pub closure-IsStep : IsStep 2 0 1 (vm_exec_closure_new pf)
  unfolding vm_exec_closure_new
  closure-IsStep = IsStep-bind IsStep-read_u16 λ idx. IsStep-bind IsStep-current λ vm.
      IsStep-on_some (func_at vm idx)
        (λ fn.
          IsStep-bind (IsStep-allocate pf _)
            λ a. IsStep-bind (IsStep-fill a idx fn.upvalues) λ _. IsStep-push (obj a))
        (IsStep-error _)
