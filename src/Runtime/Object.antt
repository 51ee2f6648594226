-- ===== src/Runtime/Object.antt =====
-- src/vm/value.h and src/runtime/object.h: tagged values, and the objects of the heap with the
-- references that the collector follows. An object is known by its address.
use arcana.Common.{ℕ, zero, suc, ◌+◌, ◌%◌, Bool, Option, none, some, List, [], ◌∷◌, ◌++◌, get_or}
use arcana.Common.Vector.{Vec}

pub data Value : Type 0 where
  null : Value
  bool : Bool → Value
  i64 f64 : ℕ → Value
  obj : Option ℕ → Value

-- What the collector reads of the virtual machine of a coroutine or thread: the stack up to `sp`,
-- the globals up to `global_count` and the yielded value.
pub record VmRoots : Type 0 where
  pub stack : List Value
  pub globals : List Value
  pub yielded : Value

-- The ring buffer of a channel.
pub record Ring : Type 0 where
  pub buffer : List Value
  pub cap : ℕ
  pub head : ℕ
  pub tail : ℕ
  pub count : ℕ
  pub closed : Bool

-- The object types with their contents. The counts of the source are the lengths of the lists. The
-- location of an upvalue is a stack slot, or `none` for its own field `closed`.
pub data Payload : Type 0 where
  string : List ℕ → Payload
  bitvec : ℕ → List ℕ → Payload
  array : Vec Value → Payload
  map : Vec (Value × Value) → Payload
  closure : ℕ → List (Option ℕ) → Payload
  upvalue : Option ℕ → Value → Payload
  fields : List ℕ → Vec (List ℕ × Value) → Payload
  coroutine thread : Option VmRoots → Payload
  mutex : Bool → Payload
  channel : Ring → Payload

pub record Object : Type 0 where
  pub addr : ℕ
  pub marked : Bool
  pub payload : Payload

-- The reference that `arc_gc_mark_value` follows: of an object value with a non-null pointer.
unfoldable pub value_refs : Value → List ℕ
value_refs (obj (some a)) = a ∷ []
value_refs _ = []

unfoldable pub values_refs : List Value → List ℕ
unfolding value_refs
values_refs [] = []
values_refs (v ∷ vs) = value_refs v ++ values_refs vs

unfoldable pub pairs_refs : List (Value × Value) → List ℕ
unfolding value_refs
pairs_refs [] = []
pairs_refs ((k, v) ∷ m) = value_refs k ++ (value_refs v ++ pairs_refs m)

unfoldable pub upvalue_refs : List (Option ℕ) → List ℕ
upvalue_refs [] = []
upvalue_refs (none ∷ us) = upvalue_refs us
upvalue_refs (some a ∷ us) = a ∷ upvalue_refs us

unfoldable pub field_refs : List (List ℕ × Value) → List ℕ
unfolding value_refs
field_refs [] = []
field_refs ((_, v) ∷ fs) = value_refs v ++ field_refs fs

-- `n` slots of the ring from the `i`-th behind `head`.
unfoldable pub ring_refs : Ring → ℕ → ℕ → List ℕ
unfolding value_refs
ring_refs r i zero = []
ring_refs r i (suc n) =
    value_refs (get_or r.buffer ((r.head + i) % 4294967296 % r.cap) null) ++ ring_refs r (suc i) n

-- The objects that the switches of `arc_gc_mark_object` and `arc_concurrency_mark_obj` mark, in
-- their order.
unfoldable pub children : Payload → List ℕ
unfolding value_refs values_refs pairs_refs upvalue_refs field_refs ring_refs
children (array items) = values_refs items.items
children (map entries) = pairs_refs entries.items
children (closure _ upvalues) = upvalue_refs upvalues
children (upvalue _ closed) = value_refs closed
children (fields _ fs) = field_refs fs.items
children (coroutine (some vm)) =
    values_refs vm.stack ++ (values_refs vm.globals ++ value_refs vm.yielded)
children (thread (some vm)) = values_refs vm.stack ++ values_refs vm.globals
children (channel r) = ring_refs r 0 r.count
children _ = []
