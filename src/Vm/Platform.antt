-- ===== src/Vm/Platform.antt =====
-- What the machine takes from the C library and the compiler, and the access to the heap.
use Prim.Native.String.{String}
use Prim.Native.Char.{code}
use arcana.Common.{
  ℕ, Bool, true, false, not, Option, none, some, List, [], ◌∷◌, ◌==◌, if◌then◌else◌,
}
use arcana.Runtime.Object.{Value, null, bool, i64, f64, obj, Payload, string}
use arcana.Runtime.Gc.{Heap, gc_alloc}
use arcana.Runtime.Objects.{object_at}
use arcana.Vm.State.{ok, fault, M, ◌>>=◌, pure}
use arcana.Bytecode.Pool.{f64_eq}

-- Doubles are their 64-bit patterns. `f64_to_i64` is `none` where the conversion is undefined.
-- `strtoll` and `strtod` give the number and how many characters they read. `malloc` gives an address
-- or NULL for a block of a size, and `size_of` is the size of an object's block.
pub record Platform : Type 0 where
  pub f64_add : ℕ → ℕ → ℕ
  pub f64_sub : ℕ → ℕ → ℕ
  pub f64_mul : ℕ → ℕ → ℕ
  pub f64_div : ℕ → ℕ → ℕ
  pub f64_neg : ℕ → ℕ
  pub f64_lt : ℕ → ℕ → Bool
  pub f64_le : ℕ → ℕ → Bool
  pub f64_of_i64 : ℕ → ℕ
  pub f64_to_i64 : ℕ → Option ℕ
  pub strtoll : List ℕ → ℕ × ℕ
  pub strtod : List ℕ → ℕ × ℕ
  pub show_i64 : ℕ → List ℕ
  pub show_f64 : ℕ → List ℕ
  pub malloc : Heap → ℕ → Option ℕ
  pub size_of : Payload → ℕ

-- The bytes of a literal of ASCII characters.
unfoldable pub bytes_of : String → List ℕ
bytes_of String.[] = []
bytes_of (String.◌∷◌ c s) = code c ∷ bytes_of s

-- The bytes of a C string before its zero.
unfoldable pub c_string : List ℕ → List ℕ
c_string [] = []
c_string (b ∷ bs) = let rest = c_string bs in if b == 0 then [] else b ∷ rest

unfoldable pub is_truthy : Value → Bool
unfolding f64_eq
is_truthy null = false
is_truthy (bool b) = b
is_truthy (i64 n) = not (n == 0)
is_truthy (f64 x) = not (f64_eq x 0)
is_truthy (obj none) = false
is_truthy (obj (some _)) = true

-- The object that a value refers to: `none` for a value of another tag. The type of a null or
-- dangling pointer is not readable.
unfoldable pub payload_of : Value → M (Option Payload)
unfolding object_at
payload_of (obj o) vm = elim (object_at vm.gc.objects o) [ none ↦ fault | some p ↦ ok (some p) vm ]
payload_of _ vm = ok none vm

-- `ARC_IS_STRING`, with the bytes.
abbrev pub string_of : Option Payload → Option (List ℕ)
string_of (some (string s)) = some s
string_of _ = none

abbrev replace_payload : Heap → ℕ → Payload → Heap
replace_payload [] a p = []
replace_payload (o ∷ h) a p =
    let rest = replace_payload h a p in
    if o.addr == a then record o { payload = p } ∷ h else o ∷ rest

-- A write to the contents of an object.
unfoldable pub update_object : Option ℕ → Payload → M (Unit {0})
update_object none p vm = fault
update_object (some a) p vm =
    ok tt (record vm { gc = record vm.gc { objects = replace_payload vm.gc.objects a p } })

abbrev pub pointer_of : Value → Option ℕ
pointer_of (obj o) = o
pointer_of _ = none

module _ (pf : Platform) where
  -- A constructor of `object.c`: the new object's address, or NULL.
  unfoldable pub allocate : Payload → M (Option ℕ)
  unfolding gc_alloc
  allocate p vm =
      let a = pf.malloc vm.gc.objects (pf.size_of p) in
      ok a (record vm { gc = gc_alloc vm.gc (pf.size_of p) p a })

  -- A constructor whose result is a value at once, also where it is NULL.
  unfoldable pub new_object : Payload → M Value
  new_object p = do a ← allocate p; pure (obj a)
