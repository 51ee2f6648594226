-- ===== src/Runtime/Objects.antt =====
-- src/runtime/object.c: what strings, arrays, maps, records and bit vectors do, and the equality of
-- values in src/vm/value_ops.c. The allocation of an object is `gc_alloc`. `none` is a fault: a null
-- or dangling pointer, or a write behind a block whose capacity wrapped.
pub mod Laws
use Prim.Native.String.{String}
use arcana.Common.{
  ℕ, zero, suc, ◌+◌, ◌/◌, ◌%◌, Bool, true, false, ◌&&◌, Option, none, some, List, [], ◌∷◌, ◌++◌,
  ltb, ◌==◌, if◌then◌else◌, length,
}
use arcana.Common.Vector.{Vec, push}
use arcana.Bytecode.Pool.{bool_eq, bytes_eq, f64_eq}
use arcana.Runtime.Object.{
  Value, null, bool, i64, f64, obj, Payload, string, bitvec, array, map, closure, upvalue, fields,
  coroutine, thread, mutex, channel,
}
use arcana.Runtime.Gc.{Heap, find_object}

-- The capacities of arrays and maps are signed; that of a record has 16 bits.
abbrev pub int_mod : ℕ
int_mod = 2147483648

unfoldable pub object_at : Heap → Option ℕ → Option Payload
unfolding find_object
object_at h none = none
object_at h (some a) = elim (find_object h a) [ none ↦ none | some o ↦ some o.payload ]

-- The sizes of strings are added in 32 bits; the bytes are copied where the sum does not wrap.
unfoldable pub string_concat : List ℕ → List ℕ → Option (List ℕ)
string_concat a b = if ltb (length a + length b) 4294967296 then some (a ++ b) else none

-- `arc_obj_array_new` and `arc_obj_map_new` on a capacity that is not negative.
unfoldable pub new_vec {ℓ} : {A : Type ℓ} → ℕ → Vec A
new_vec initial_cap = record { items = []; cap = if ltb 0 initial_cap then initial_cap else 8 }

unfoldable pub array_push : Vec Value → Value → Option (Vec Value)
unfolding push
array_push arr val = push int_mod 8 arr val

-- The types of two objects that are compared by contents.
unfoldable pub payload_equal : Payload → Payload → Bool
unfolding bytes_eq
payload_equal (string a) (string b) = bytes_eq a b
payload_equal (bitvec n a) (bitvec m b) = n == m && bytes_eq a b
payload_equal _ _ = false

abbrev pub same_object : Option ℕ → Option ℕ → Bool
same_object none none = true
same_object (some a) (some b) = a == b
same_object _ _ = false

unfoldable pub obj_equal : Heap → Option ℕ → Option ℕ → Option Bool
unfolding object_at payload_equal
obj_equal h a b = if same_object a b then some true else elim (object_at h a) [
  | none ↦ none
  | some p ↦ elim (object_at h b) [ none ↦ none | some q ↦ some (payload_equal p q) ]
]

unfoldable pub val_equal : Heap → Value → Value → Option Bool
unfolding obj_equal f64_eq bool_eq
val_equal h null null = some true
val_equal h (bool a) (bool b) = some (bool_eq a b)
val_equal h (i64 a) (i64 b) = some (a == b)
val_equal h (f64 a) (f64 b) = some (f64_eq a b)
val_equal h (obj a) (obj b) = obj_equal h a b
val_equal h _ _ = some false

-- The index in a list with one more entry in front, from the index in the rest.
abbrev pub later : Option (Option ℕ) → Option (Option ℕ)
later none = none
later (some none) = some none
later (some (some i)) = some (some (suc i))

abbrev pub found : Option Bool → Option (Option ℕ) → Option (Option ℕ)
found none rest = none
found (some true) rest = some (some 0)
found (some false) rest = later rest

-- The loop of `arc_obj_map_set` and `arc_obj_map_get`: the index of the first equal key.
unfoldable pub map_find : Heap → List (Value × Value) → Value → Option (Option ℕ)
unfolding val_equal
map_find h [] key = some none
map_find h ((k, v) ∷ m) key = found (val_equal h k key) (map_find h m key)

-- `map->values[i] = val`
unfoldable pub set_value {ℓ κ} : {A : Type ℓ} {B : Type κ} → List (A × B) → ℕ → B → List (A × B)
set_value [] i v = []
set_value ((k, w) ∷ m) zero v = (k, v) ∷ m
set_value ((k, w) ∷ m) (suc i) v = (k, w) ∷ set_value m i v

unfoldable pub value_at {ℓ κ} : {A : Type ℓ} {B : Type κ} → List (A × B) → ℕ → Option B
value_at [] i = none
value_at ((k, w) ∷ m) zero = some w
value_at ((k, w) ∷ m) (suc i) = value_at m i

abbrev pub appended {ℓ} : {A : Type ℓ} → Option (Vec A) → Option (Vec A × Bool)
appended none = none
appended (some v) = some (v, false)

-- What follows the search of `arc_obj_map_set`.
unfoldable pub stored :
    Vec (Value × Value) → Value → Value → Option (Option ℕ) → Option (Vec (Value × Value) × Bool)
unfolding set_value push
stored m key val none = none
stored m key val (some (some i)) = some (record m { items = set_value m.items i val }, true)
stored m key val (some none) = appended (push int_mod 8 m (key, val))

-- The map and whether the key was there.
unfoldable pub map_set :
    Heap → Vec (Value × Value) → Value → Value → Option (Vec (Value × Value) × Bool)
unfolding map_find stored
map_set h m key val = stored m key val (map_find h m.items key)

abbrev pub lookup : List (Value × Value) → Option (Option ℕ) → Option (Option Value)
unfolding value_at
lookup m none = none
lookup m (some none) = some none
lookup m (some (some i)) = some (value_at m i)

unfoldable pub map_get : Heap → List (Value × Value) → Value → Option (Option Value)
unfolding map_find value_at
map_get h m key = lookup m (map_find h m key)

-- `strcmp(a, b) == 0`, on names without their terminating zero.
unfoldable pub record_find : List (List ℕ × Value) → List ℕ → Option ℕ
unfolding bytes_eq
record_find [] field = none
record_find ((k, v) ∷ fs) field =
    let rest = record_find fs field in
    if bytes_eq k field then some 0 else elim rest [ none ↦ none | some i ↦ some (suc i) ]

unfoldable pub new_record_fields : ℕ → Vec (List ℕ × Value)
new_record_fields field_count = record {
  items = [];
  cap = if ltb 0 field_count then field_count else 4;
}

unfoldable pub record_set :
    Vec (List ℕ × Value) → List ℕ → Value → Option (Vec (List ℕ × Value) × Bool)
unfolding record_find set_value push
record_set r field val = elim (record_find r.items field) [
  | some i ↦ some (record r { items = set_value r.items i val }, true)
  | none ↦ elim (push 65536 4 r (field, val)) [ none ↦ none | some r' ↦ some (r', false) ]
]

unfoldable pub record_get : List (List ℕ × Value) → List ℕ → Option Value
unfolding record_find value_at
record_get fs field = elim (record_find fs field) [ none ↦ none | some i ↦ value_at fs i ]

-- The loop over the bits of a byte, which ends within eight rounds.
unfoldable pub count_bits : ℕ → ℕ → ℕ
count_bits zero b = 0
count_bits (suc n) b = let rest = count_bits n (b / 2) in if b == 0 then 0 else b % 2 + rest

unfoldable pub popcount : List ℕ → ℕ
unfolding count_bits
popcount [] = 0
popcount (b ∷ bs) = (count_bits 8 b + popcount bs) % 4294967296

unfoldable pub type_name : Payload → String
type_name (string _) = "string"
type_name (array _) = "array"
type_name (map _) = "map"
type_name (closure _ _) = "closure"
type_name (upvalue _ _) = "upvalue"
type_name (fields _ _) = "record"
type_name (bitvec _ _) = "bitvec"
type_name (coroutine _) = "coroutine"
type_name (thread _) = "thread"
type_name (mutex _) = "mutex"
type_name (channel _) = "channel"
