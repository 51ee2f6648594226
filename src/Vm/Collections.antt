-- ===== src/Vm/Collections.antt =====
-- The handlers of src/vm/vm_ops.c for arrays, maps and records.
use Prim.Native.String.{String}
use arcana.Common.{
  ℕ, zero, suc, Option, none, some, List, [], ◌∷◌, ltb, ◌==◌, if◌then◌else◌, length, get_elem?, set,
}
use arcana.Runtime.Object.{Value, i64, obj, Payload, string, array, map, fields}
use arcana.Vm.State.{
  M, ◌>>=◌, ◌>>◌, pure, done, broken, current, on_some, vm_error, vm_push, vm_pop, vm_read_u16,
  get_or_null,
}
use arcana.Vm.Platform.{
  Platform, c_string, payload_of, update_object, pointer_of, allocate, new_object,
}
use arcana.Common.Vector.{Vec}
use arcana.Bytecode.Pool
use arcana.Bytecode.Pool.{Constant}
use arcana.Runtime.Objects.{
  map_set, map_get, record_set, record_get, new_vec, new_record_fields, array_push,
}
use arcana.Vm.Values.{binary, unary, int_of, char_at}
use arcana.Vm.Op.{
  Op, op_array_new, op_index_get, op_index_set, op_length, op_map_new, op_record_new, op_field_get,
  op_field_set,
}

-- The loop that pops `n` items, the last one first.
unfoldable pub pop_items : ℕ → M (List Value)
pop_items zero = pure []
pop_items (suc n) = do item ← vm_pop; rest ← pop_items n; pure (item ∷ rest)

abbrev pub reverse_onto {ℓ} : {A : Type ℓ} → List A → List A → List A
reverse_onto [] ys = ys
reverse_onto (x ∷ xs) ys = reverse_onto xs (x ∷ ys)

abbrev pub array_of : Option Payload → Option (Vec Value)
array_of (some (array items)) = some items
array_of _ = none

abbrev pub map_of : Option Payload → Option (Vec (Value × Value))
map_of (some (map entries)) = some entries
map_of _ = none

abbrev pub first_of : List (Value × Value) → List Value
first_of [] = []
first_of ((k, _) ∷ m) = k ∷ first_of m

-- The container that `index_get`, `index_set` and `length` tell apart.
pub data Container : Type 0 where
  list_of : Vec Value → Container
  dict_of : Vec (Value × Value) → Container
  text_of : List ℕ → Container
  no_container : Container

abbrev pub container_of : Option Payload → Container
container_of (some (array items)) = list_of items
container_of (some (map entries)) = dict_of entries
container_of (some (string s)) = text_of s
container_of _ = no_container

unfoldable pub length_of : String → Container → M Value
length_of message (text_of s) = pure (i64 (length s))
length_of message (list_of items) = pure (i64 (length items.items))
length_of message (dict_of entries) = pure (i64 (length entries.items))
length_of message no_container = vm_error message

unfoldable pub vm_exec_length : String → Value → M Value
vm_exec_length message v = do p ← payload_of v; length_of message (container_of p)

-- The key is looked up in the heap as it is now.
unfoldable pub map_lookup : Vec (Value × Value) → Value → M Value
map_lookup entries key = do
  vm ← current
  on_some (map_get vm.gc.objects entries.items key) (λ found. pure (get_or_null found)) broken

unfoldable pub index_set_of : Container → Value → Value → Value → M (Unit {0})
index_set_of (list_of items) container key val =
    on_some (int_of key)
      (λ idx.
        if ltb idx (length items.items)
        then update_object (pointer_of container)
            (array (record items { items = set items.items idx val }))
        else vm_error "index_set: index out of bounds")
      (vm_error "index_set: array index must be integer")
index_set_of (dict_of entries) container key val = do
  vm ← current
  on_some (map_set vm.gc.objects entries key val)
      (λ (entries', _). update_object (pointer_of container) (map entries')) broken
index_set_of _ container key val = vm_error "index_set: not indexable"

unfoldable pub vm_exec_index_set : M (Unit {0})
vm_exec_index_set = do
  val ← vm_pop
  key ← vm_pop
  container ← vm_pop
  p ← payload_of container
  index_set_of (container_of p) container key val

-- The name in the constant pool, "" where the index names no string.
abbrev pub name_of : Option Constant → List ℕ
name_of (some (Pool.string s)) = c_string s
name_of _ = []

unfoldable pub name_at : ℕ → M (List ℕ)
name_at idx = do vm ← current; pure (name_of (get_elem? vm.image.constants.items idx))

abbrev pub fields_of : Option Payload → Option (List ℕ × Vec (List ℕ × Value))
fields_of (some (fields name fs)) = some (name, fs)
fields_of _ = none

unfoldable pub vm_exec_field_get : M (Unit {0})
vm_exec_field_get = do
  name_idx ← vm_read_u16
  o ← vm_pop
  p ← payload_of o
  r ←
      on_some (fields_of p)
        (λ (_, fs). do fname ← name_at name_idx; pure (get_or_null (record_get fs.items fname)))
        (vm_error "field_get: not a record")
  vm_push r

unfoldable pub vm_exec_field_set : M (Unit {0})
vm_exec_field_set = do
  name_idx ← vm_read_u16
  val ← vm_pop
  o ← vm_pop
  p ← payload_of o
  on_some (fields_of p)
      (λ (tname, fs). do
        fname ← name_at name_idx
        on_some (record_set fs fname val)
            (λ (fs', _). update_object (pointer_of o) (fields tname fs')) broken)
      (vm_error "field_set: not a record")
  vm_push o

-- The pairs that the loop of `map_new` sets, popped value first.
unfoldable pub set_pairs : ℕ → Vec (Value × Value) → M (Vec (Value × Value))
set_pairs zero m = pure m
set_pairs (suc n) m = do
  val ← vm_pop
  key ← vm_pop
  vm ← current
  m' ← on_some (map_set vm.gc.objects m key val) (λ (m', _). pure m') broken
  set_pairs n m'

-- The pushes of `n` items on an array.
unfoldable pub push_items : Vec Value → List Value → M (Vec Value)
push_items arr [] = pure arr
push_items arr (x ∷ xs) = on_some (array_push arr x) (λ arr'. push_items arr' xs) broken

module _ (pf : Platform) where
  -- The object is allocated first; its contents are written while no other value refers to it.
  unfoldable pub vm_exec_array_new : M (Unit {0})
  vm_exec_array_new = do
    count ← vm_read_u16
    a ← allocate pf (array (new_vec count))
    popped ← pop_items count
    arr ← push_items (new_vec count) popped
    update_object a (array (record arr { items = reverse_onto arr.items [] }))
    vm_push (obj a)

  unfoldable pub vm_exec_map_new : M (Unit {0})
  vm_exec_map_new = do
    pair_count ← vm_read_u16
    a ← allocate pf (map (new_vec pair_count))
    m ← set_pairs pair_count (new_vec pair_count)
    if pair_count == 0 then done else update_object a (map m)
    vm_push (obj a)

  unfoldable pub vm_exec_record_new : M (Unit {0})
  vm_exec_record_new = do
    name_idx ← vm_read_u16
    name ← name_at name_idx
    r ← new_object pf (fields name (new_record_fields 4))
    vm_push r

  unfoldable pub index_get_of : Container → Value → M Value
  index_get_of (list_of items) key =
      on_some (int_of key)
        (λ idx.
          on_some (get_elem? items.items idx) pure (vm_error "index_get: index out of bounds"))
        (vm_error "index_get: array index must be integer")
  index_get_of (dict_of entries) key = map_lookup entries key
  index_get_of (text_of s) key =
      on_some (int_of key) (λ idx. char_at pf "index_get: string index out of bounds" s idx)
        (vm_error "index_get: string index must be integer")
  index_get_of no_container key = vm_error "index_get: not indexable"

  unfoldable pub vm_exec_collections : Op → M (Unit {0})
  vm_exec_collections op_array_new = vm_exec_array_new
  vm_exec_collections op_index_get =
      binary λ container key. do p ← payload_of container; index_get_of (container_of p) key
  vm_exec_collections op_index_set = vm_exec_index_set
  vm_exec_collections op_length = unary (vm_exec_length "length: not a container")
  vm_exec_collections op_map_new = vm_exec_map_new
  vm_exec_collections op_record_new = vm_exec_record_new
  vm_exec_collections op_field_get = vm_exec_field_get
  vm_exec_collections op_field_set = vm_exec_field_set
  vm_exec_collections _ = vm_error "bad collection op"
