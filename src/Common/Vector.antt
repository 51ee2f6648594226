-- ===== src/Common/Vector.antt =====
-- The growable arrays of the program: `if (count >= cap) { cap = cap < m ? m : cap * 2; realloc }`
-- and then a write at `count`. The capacity has `limit` values (2 ^ 16 or 2 ^ 32), so it wraps.
use arcana.Common.Tests.{ltb, leb, tests, Bool-cases, if◌then◌else◌}
use arcana.Common.Lists.{length, length-append}
use Prim.Native.Nat.{ℕ, ◌-◌, ◌*◌, ◌%◌, ◌≤◌, ◌<◌}
use mathlib.Core.Path.{◌≡◌}
use mathlib.Core.Logic.{inl, inr, ◌↔◌}
use mathlib.Core.Option.{Option, none, some}
use mathlib.Core.List.{List, [], ◌∷◌, ◌++◌}
use native.Mathlib.Omega.{arith}
use native.Mathlib.Nat.{mod-eq_of_lt, mod-lt, mod-eq-sub-mod}

-- `items` are the entries up to `count`, and `cap` is the allocated number of entries.
pub record Vec {ℓ} (A : Type ℓ) : Type ℓ where
  pub items : List A
  pub cap : ℕ

abbrev pub empty {ℓ} : {A : Type ℓ} → Vec A
empty = record { items = []; cap = 0 }

-- The capacity after the growth test.
unfoldable pub grown_cap : ℕ → ℕ → ℕ → ℕ → ℕ
grown_cap limit m count size =
    if leb size count then if ltb size m then m else size * 2 % limit else size

module _ {ℓ} {A : Type ℓ} where
  -- `none` is a write behind the end of the allocated block.
  unfoldable pub push : ℕ → ℕ → Vec A → A → Option (Vec A)
  unfolding grown_cap
  push limit m v x =
      let cap' = grown_cap limit m (length v.items) v.cap in
      if ltb (length v.items) cap'
      then some (record { items = v.items ++ x ∷ []; cap = cap' })
      else none

  pub record IsFit (limit : ℕ) (v : Vec A) : Type 0 where
    pub room : length v.items ≤ v.cap
    pub bound : v.cap < limit

module _ (half m : ℕ) (small : m ≤ half) where
  grown_cap-gt :
      (count size : ℕ)
      → 0 < m
      → count ≤ size
      → count < half
      → (count < grown_cap (half * 2) m count size)
  unfolding grown_cap
  grown_cap-gt count size pos room h = ground (arith, λ (p : size * 2 < half * 2). mod-eq_of_lt p)

  grown_cap-lt :
      (count size : ℕ) → 0 < m → size < half * 2 → grown_cap (half * 2) m count size < half * 2
  unfolding grown_cap
  grown_cap-lt count size pos bound = ground (arith, λ (p : 0 < half * 2). mod-lt (size * 2) p)

  full_cap : (size : ℕ) → half ≤ size → size < half * 2 → size * 2 % (half * 2) ≤ size
  full_cap size big bound = omega (
    arith,
    mod-eq-sub-mod {n = size * 2} {m = half * 2} (omega arith),
    mod-eq_of_lt {n = size * 2 - half * 2} {m = half * 2} (omega arith),
  )

  grown_cap-le_iff :
      (count size : ℕ)
      → 0 < m
      → count ≤ size
      → size < half * 2
      → (grown_cap (half * 2) m count size ≤ count) ↔ ((count ≡ size) × (half ≤ size))
  unfolding grown_cap
  grown_cap-le_iff count size pos room bound = (
    λ h. ground (arith, λ (p : size * 2 < half * 2). mod-eq_of_lt p),
    λ (e, big). ground (arith, full_cap size big bound),
  )

module _ {ℓ} {A : Type ℓ} (half m : ℕ) (pos : 0 < m) (small : m ≤ half) where
  -- While less than half of the range of the capacity is used, a push writes inside its block.
  pub push-eq-some :
      (v : Vec A) (x : A)
      → IsFit (half * 2) v
      → length v.items < half
      → (c : ℕ) × (push (half * 2) m v x ≡ some (record { items = v.items ++ x ∷ []; cap = c }))
        × IsFit (half * 2) (record { items = v.items ++ x ∷ []; cap = c })
  unfolding push
  push-eq-some v x f h = (
    grown_cap (half * 2) m (length v.items) v.cap,
    ground (arith, grown_cap-gt half m small (length v.items) v.cap),
    record {
      room = omega (
        arith,
        length-append v.items (x ∷ []),
        grown_cap-gt half m small (length v.items) v.cap pos,
      );
      bound = grown_cap-lt half m small (length v.items) v.cap pos f.bound;
    },
  )

  -- A push is out of bounds exactly when the array is full and twice its capacity does not fit.
  pub push-eq-none_iff :
      (v : Vec A) (x : A)
      → IsFit (half * 2) v
      → (push (half * 2) m v x ≡ none) ↔ ((length v.items ≡ v.cap) × (half ≤ v.cap))
  unfolding push
  push-eq-none_iff v x f =
      let c = grown_cap (half * 2) m (length v.items) v.cap in
      let (full, over) = grown_cap-le_iff half m small (length v.items) v.cap pos f.room f.bound in
      elim (Bool-cases (ltb (length v.items) c)) [
        | inl fits ↦ (λ e. cc (rw fits at e), λ p. absurd (omega (tests, over p)))
        | inr past ↦ (λ e. full (ground arith), λ p. rw past)
      ]
