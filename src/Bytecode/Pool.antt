-- ===== src/Bytecode/Pool.antt =====
-- The constant pool of bytecode/format.c.
pub mod Laws
use mathlib.Core.Option
use arcana.Common.{
  ℕ, zero, suc, ◌+◌, ◌%◌, ◌^◌, ◌≡◌, Bool, true, false, not, ◌&&◌, ◌||◌, Option, none, some, List,
  [], ◌∷◌, ◌++◌, ltb, ◌==◌, if◌then◌else◌, length,
}
use arcana.Common.Vector.{Vec, push, grown_cap}

-- An `i64` or `f64` is its 64-bit pattern, and a string the list of its bytes.
pub data Constant : Type 0 where
  null : Constant
  bool : Bool → Constant
  i64 f64 : ℕ → Constant
  string : List ℕ → Constant

abbrev pub Pool : Type 0
Pool = Vec Constant

unfoldable pub bool_eq : Bool → Bool → Bool
bool_eq true b = b
bool_eq false b = not b

-- Equal lengths, and `memcmp` finds no difference.
unfoldable pub bytes_eq : List ℕ → List ℕ → Bool
bytes_eq [] [] = true
bytes_eq (a ∷ as') (b ∷ bs) = a == b && bytes_eq as' bs
bytes_eq _ _ = false

-- The IEEE comparison of two doubles: a NaN equals nothing, and the two zeros are equal.
abbrev pub magnitude : ℕ → ℕ
magnitude x = x % 9223372036854775808

abbrev pub is_nan : ℕ → Bool
is_nan x = ltb 9218868437227405312 (magnitude x)

unfoldable pub f64_eq : ℕ → ℕ → Bool
f64_eq a b = not (is_nan a) && not (is_nan b) && (a == b || (magnitude a == 0 && magnitude b == 0))

-- The tests of the five search loops.
unfoldable pub same_const : Constant → Constant → Bool
unfolding bool_eq bytes_eq f64_eq
same_const null null = true
same_const (bool a) (bool b) = bool_eq a b
same_const (i64 a) (i64 b) = a == b
same_const (f64 a) (f64 b) = f64_eq a b
same_const (string s) (string t) = bytes_eq s t
same_const _ _ = false

unfoldable pub find_const : List Constant → Constant → Option ℕ
unfolding same_const
find_const [] c = none
find_const (d ∷ ds) c = if same_const d c then some 0 else Option.map suc (find_const ds c)

-- `count` and `cap` are 16-bit numbers.
unfoldable pub pool_grow : Pool → Constant → Option Pool
unfolding push
pool_grow p c = push 65536 16 p c

-- Whether the final zero of a string lies in the block of `len + 1` bytes, a 32-bit number.
unfoldable pub copy_fits : Constant → Bool
copy_fits (string s) = ltb (length s) ((length s + 1) % 4294967296)
copy_fits _ = true

-- The pool afterwards and the index of the constant; `none` is a write out of bounds.
unfoldable pub pool_add : Pool → Constant → Option (Pool × ℕ)
unfolding find_const pool_grow copy_fits
pool_add p c = elim (find_const p.items c) [
  | some i ↦ some (p, i)
  | none ↦ if copy_fits c then Option.map (λ q. (q, length p.items)) (pool_grow p c) else none
]

unfoldable pub add_null : Pool → Option (Pool × ℕ)
unfolding pool_add
add_null p = pool_add p null

unfoldable pub add_bool : Pool → Bool → Option (Pool × ℕ)
unfolding pool_add
add_bool p v = pool_add p (bool v)

unfoldable pub add_i64 : Pool → ℕ → Option (Pool × ℕ)
unfolding pool_add
add_i64 p v = pool_add p (i64 v)

unfoldable pub add_f64 : Pool → ℕ → Option (Pool × ℕ)
unfolding pool_add
add_f64 p v = pool_add p (f64 v)

unfoldable pub add_string : Pool → List ℕ → Option (Pool × ℕ)
unfolding pool_add
add_string p s = pool_add p (string s)
