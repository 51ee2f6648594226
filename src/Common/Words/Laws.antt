-- ===== src/Common/Words/Laws.antt =====
-- The machine's integers against the integers that the patterns stand for.
use arcana.Common.{
  ℕ, ◌+◌, ◌-◌, ◌*◌, ◌%◌, ◌≤◌, ◌<◌, ◌≡◌, ◌⊎◌, inl, inr, ltb, arith, tests, Bool-cases,
}
use arcana.Common.Int.{ℤ, pos_part, neg_part, ◌+ℤ◌, ◌-ℤ◌, +ℤ_parts, -ℤ_parts, eq_of_parts}
use arcana.Common.Words.{word_mod, sign_bit, signed64, add64, sub64}
use native.Mathlib.Nat.{mod-eq_of_lt, mod-eq-sub-mod, mod-lt}

-- The values of a 64-bit integer.
pub record IsI64 (z : ℤ) : Type 0 where
  pub low : neg_part z ≤ sign_bit
  pub high : pos_part z < sign_bit

wrap : (x : ℕ) → x < 2 * word_mod → (x % word_mod ≡ x) ⊎ (x % word_mod + word_mod ≡ x)
wrap x h = elim (Bool-cases (ltb x word_mod)) [
  | inl e ↦ inl (mod-eq_of_lt (omega tests))
  | inr e ↦ inr (
      omega (
        tests,
        mod-eq-sub-mod {n = x} {m = word_mod} (omega tests),
        mod-eq_of_lt {n = x - word_mod} {m = word_mod} (omega tests),
      ))
]

-- The parts of the integer of a pattern.
signed64-parts :
    (a : ℕ)
    → a < word_mod
    → ((a < sign_bit) × (pos_part (signed64 a) ≡ a) × (neg_part (signed64 a) ≡ 0))
      ⊎ ((sign_bit ≤ a) × (pos_part (signed64 a) ≡ 0) × (neg_part (signed64 a) + a ≡ word_mod))
signed64-parts a h = elim (Bool-cases (ltb a sign_bit)) [
  | inl e ↦ inl (omega tests, ground (arith, e), ground (arith, e))
  | inr e ↦ inr (omega tests, ground (arith, e), ground (arith, e, h))
]

pub add64-signed64 :
    (a b : ℕ)
    → a < word_mod
    → b < word_mod
    → IsI64 (signed64 a +ℤ signed64 b)
    → signed64 (add64 a b) ≡ signed64 a +ℤ signed64 b
unfolding add64
add64-signed64 a b ha hb range =
    let p = +ℤ_parts (signed64 a) (signed64 b) in
    let w = wrap (a + b) (omega arith) in
    eq_of_parts _ _ (
      omega (
        arith,
        p,
        w,
        signed64-parts a ha,
        signed64-parts b hb,
        signed64-parts ((a + b) % word_mod) (mod-lt (a + b) (omega arith)),
      ))

pub sub64-signed64 :
    (a b : ℕ)
    → a < word_mod
    → b < word_mod
    → IsI64 (signed64 a -ℤ signed64 b)
    → signed64 (sub64 a b) ≡ signed64 a -ℤ signed64 b
unfolding sub64
sub64-signed64 a b ha hb range =
    let p = -ℤ_parts (signed64 a) (signed64 b) in
    let w = wrap (a + word_mod - b) (omega arith) in
    eq_of_parts _ _ (
      omega (
        arith,
        p,
        w,
        signed64-parts a ha,
        signed64-parts b hb,
        signed64-parts ((a + word_mod - b) % word_mod) (mod-lt (a + word_mod - b) (omega arith)),
      ))
