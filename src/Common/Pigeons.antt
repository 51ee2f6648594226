-- ===== src/Common/Pigeons.antt =====
-- Of `n + 1` numbers below `n` two are equal.
use arcana.Common.Tests.{◌==◌, Bool-cases, if◌then◌else◌}
use Prim.Native.Nat.{ℕ, zero, suc, ◌≤◌, ◌<◌}
use mathlib.Core.Path.{◌≡◌}
use mathlib.Core.Logic.{◌≢◌, ◌⊎◌, inl, inr}
use native.Mathlib.Omega.{arith}

-- One of the first `n` values of `f` is `v`, or none is.
search_value : (f : ℕ → ℕ) (v n : ℕ) → ((i : ℕ) × (i < n) × (f i ≡ v)) ⊎ ((i : ℕ) → i < n → f i ≢ v)
search_value f v zero = inr (λ i h. absurd (omega (arith, h)))
search_value f v (suc n) = elim (search_value f v n) [
  | inl (i, h, e) ↦ inl (i, omega (arith, h), e)
  | inr miss ↦ elim (Bool-cases (f n == v)) [
    | inl e ↦ inl (n, omega arith, ground (arith, e))
    | inr e ↦ inr (λ i h same. elim (Bool-cases (i == n)) [
      | inl last ↦ absurd (let p : i ≡ n = ground (arith, last) in ground (arith, rw p at same))
      | inr other ↦ miss i (ground (arith, other)) same
    ])
  ]
]

-- `f` with the value at `n + 1` in place of the value `n`.
moved : (ℕ → ℕ) → ℕ → ℕ → ℕ
moved f n i = if f i == n then f (suc n) else f i

module _ (f : ℕ → ℕ) (n : ℕ) (miss : (i : ℕ) → i < suc n → f i ≢ f (suc n)) where
  moved-lt : ((i : ℕ) → i ≤ suc n → f i < suc n) → (i : ℕ) → i ≤ n → moved f n i < n
  unfolding moved
  moved-lt low i h =
      ground (arith, miss i (omega arith), low i (omega arith), low (suc n) (omega arith))

  moved-injective : (i j : ℕ) → i ≤ n → j ≤ n → moved f n i ≡ moved f n j → f i ≡ f j
  unfolding moved
  moved-injective i j hi hj e = ground (arith, miss i (omega arith), miss j (omega arith))

pub pigeonhole :
    (f : ℕ → ℕ) (n : ℕ)
    → ((i : ℕ) → i ≤ n → f i < n)
    → (i : ℕ) × (j : ℕ) × (i < j) × (j ≤ n) × (f i ≡ f j)
pigeonhole f zero low = absurd (omega (arith, low 0 (omega arith)))
pigeonhole f (suc n) low = elim (search_value f (f (suc n)) (suc n)) [
  | inl (i, h, e) ↦ (i, suc n, h, omega arith, e)
  | inr miss ↦
      let (i, j, h, le, e) = pigeonhole (moved f n) n (moved-lt f n miss low) in
      (i, j, h, omega arith, moved-injective f n miss i j (omega arith) le e)
]
