-- ===== src/Geometry/Cyclic.antt =====
-- The queries of src/geometry/cyclic_order.c.
use arcana.Common.{
  ℕ, zero, suc, ◌+◌, ◌-◌, ◌%◌, ◌≤◌, ◌<◌, ◌≡◌, refl, ap, ◌∙◌, Bool, ◌||◌, Option, none, some, List,
  [], ◌∷◌, ltb, ◌==◌, if◌then◌else◌, length, get_or, take, ◌⊎◌, inl, inr, arith, tests, Bool-cases,
  ==_refl, ==_iff,
}
use native.Mathlib.Nat.{mod-eq_of_lt, mod-eq-sub-mod, mod-lt}
use arcana.Graph.Types.{invalid_id}

abbrev pub cyclic_max_members : ℕ
cyclic_max_members = 64

-- `count` is the length of `members`.
pub record CyclicOrder : Type 0 where
  pub region : ℕ
  pub members : List ℕ

-- The index at which the loops of the queries stop.
unfoldable pub index_of : List ℕ → ℕ → Option ℕ
index_of [] node = none
index_of (m ∷ ms) node =
    let rest = index_of ms node in
    if m == node then some 0 else elim rest [ none ↦ none | some i ↦ some (suc i) ]

-- `members[i % count]`
abbrev pub member_at : CyclicOrder → ℕ → ℕ
member_at order i = get_or order.members (i % length order.members) invalid_id

unfoldable pub cyclic_next : CyclicOrder → ℕ → ℕ
unfolding index_of
cyclic_next order node = elim (index_of order.members node) [
  | none ↦ invalid_id
  | some i ↦ member_at order (i + 1)
]

unfoldable pub cyclic_prev : CyclicOrder → ℕ → ℕ
unfolding index_of
cyclic_prev order node = elim (index_of order.members node) [
  | none ↦ invalid_id
  | some i ↦ member_at order (i + length order.members - 1)
]

unfoldable pub cyclic_adjacent : CyclicOrder → ℕ → ℕ → Bool
unfolding cyclic_next cyclic_prev
cyclic_adjacent order a b = cyclic_next order a == b || cyclic_prev order a == b

-- At most the first 64 members are kept.
unfoldable pub cyclic_set : ℕ → List ℕ → CyclicOrder
cyclic_set region members = record { region = region; members = take cyclic_max_members members }

-- No member stands at two places.
pub record IsDistinct (members : List ℕ) : Type 0 where
  pub apart :
      (i j : ℕ)
      → i < length members
      → j < length members
      → get_or members i invalid_id ≡ get_or members j invalid_id
      → i ≡ j

index_of-found :
    (ms : List ℕ) (j : ℕ)
    → j < length ms
    → (i : ℕ) × (index_of ms (get_or ms j invalid_id) ≡ some i)
      × (i < length ms)
      × (get_or ms i invalid_id ≡ get_or ms j invalid_id)
unfolding index_of
index_of-found [] j h = absurd (omega (arith, h))
index_of-found (m ∷ ms) zero h = (0, rw (==_refl m) refl, omega arith, refl)
index_of-found (m ∷ ms) (suc j) h = elim (Bool-cases (m == get_or ms j invalid_id)) [
  | inl e ↦ (0, rw e refl, omega arith, (==_iff m (get_or ms j invalid_id)).0 e)
  | inr e ↦
      let (i, f, small, same) = index_of-found ms j (omega (arith, h)) in
      (suc i, rw (e, f) refl, omega arith, same)
]

-- Each member of distinct ones is found at its place.
index_of-member :
    (ms : List ℕ) (j : ℕ)
    → IsDistinct ms
    → j < length ms
    → index_of ms (get_or ms j invalid_id) ≡ some j
index_of-member ms j d h =
    let (i, f, small, same) = index_of-found ms j h in f ∙ ap some (d.apart i j small h same)

wrap : (n x : ℕ) → 0 < n → x < n + n → ((x < n) × (x % n ≡ x)) ⊎ ((n ≤ x) × (x % n + n ≡ x))
wrap n x positive h = elim (Bool-cases (ltb x n)) [
  | inl e ↦ inl (omega tests, mod-eq_of_lt (omega tests))
  | inr e ↦ inr (
    omega tests,
    omega (
      tests,
      mod-eq-sub-mod {n = x} {m = n} (omega tests),
      mod-eq_of_lt {n = x - n} {m = n} (omega tests),
    ),
  )
]

step_back : (n i : ℕ) → i < n → ((i + 1) % n + n - 1) % n ≡ i
step_back n i h =
    let a = wrap n (i + 1) (omega arith) (omega arith) in
    let b = wrap n ((i + 1) % n + n - 1) (omega arith) (omega (arith, a)) in omega (arith, a, b, h)

step_on : (n i : ℕ) → i < n → ((i + n - 1) % n + 1) % n ≡ i
step_on n i h =
    let a = wrap n (i + n - 1) (omega arith) (omega arith) in
    let b = wrap n ((i + n - 1) % n + 1) (omega arith) (omega (arith, a)) in omega (arith, a, b, h)

module _ (order : CyclicOrder) (d : IsDistinct order.members) where
  next_at :
      (i : ℕ)
      → i < length order.members
      → cyclic_next order (get_or order.members i invalid_id) ≡ member_at order (i + 1)
  unfolding cyclic_next
  next_at i h =
      ap (λ r. elim r [ none ↦ invalid_id | some k ↦ member_at order (k + 1) ])
        (index_of-member order.members i d h)

  prev_at :
      (i : ℕ)
      → i < length order.members
      → cyclic_prev order (get_or order.members i invalid_id)
        ≡ member_at order (i + length order.members - 1)
  unfolding cyclic_prev
  prev_at i h =
      ap
        (λ r. elim r [
          | none ↦ invalid_id
          | some k ↦ member_at order (k + length order.members - 1)
        ])
        (index_of-member order.members i d h)

  -- Among distinct members, the next and the previous of a member undo each other.
  pub cyclic_next-prev :
      (i : ℕ)
      → i < length order.members
      → (cyclic_prev order (cyclic_next order (get_or order.members i invalid_id))
          ≡ get_or order.members i invalid_id)
        × (cyclic_next order (cyclic_prev order (get_or order.members i invalid_id))
            ≡ get_or order.members i invalid_id)
  cyclic_next-prev i h =
      let n = length order.members in
      let at : ℕ → ℕ = λ k. get_or order.members k invalid_id in
      let j : ℕ = (i + 1) % n in
      let k : ℕ = (i + n - 1) % n in
      (
        ap (cyclic_prev order) (next_at i h)
            ∙ (prev_at j (mod-lt (i + 1) (omega arith)) ∙ ap at (step_back n i h)),
        ap (cyclic_next order) (prev_at i h)
            ∙ (next_at k (mod-lt (i + n - 1) (omega arith)) ∙ ap at (step_on n i h)),
      )
