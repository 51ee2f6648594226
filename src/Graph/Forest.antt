-- ===== src/Graph/Forest.antt =====
-- The loop over ancestors in `validate_regions`: what it sees, and that without a cycle every region
-- stands under a root.
use arcana.Common.{
  ℕ, zero, suc, ◌+◌, ◌-◌, ◌≤◌, ◌<◌, ◌≡◌, refl, sym, ap, ◌∙◌, subst, ◌⊎◌, inl, inr, true, false,
  arith, tests, leb, ◌==◌, length, get_elem?-ge, Bool-cases,
}
use arcana.Common.Pigeons.{pigeonhole}
use arcana.Graph.Types.{invalid_id, Graph}
use arcana.Graph.Validate.{parent_of, finds_cycle}

-- The ancestor `d` steps above a region; above the top is `invalid_id`.
unfoldable pub ancestor : Graph → ℕ → ℕ → ℕ
ancestor g zero i = i
ancestor g (suc d) i = ancestor g d (parent_of g i)

-- At most as many steps as there are regions lead from a region to above the top.
abbrev pub IsRooted : Graph → ℕ → Type 0
IsRooted g i = (d : ℕ) × (d ≤ length g.regions.items) × (ancestor g d i ≡ invalid_id)

ancestor-shift :
    (g : Graph) (c e n i : ℕ)
    → n ≡ c + suc e
    → ancestor g n i ≡ ancestor g e (parent_of g (ancestor g c i))
unfolding ancestor
ancestor-shift g zero e n i h = let p : n ≡ suc e = omega (arith, h) in ap (λ m. ancestor g m i) p
ancestor-shift g (suc c) e n i h =
    let p : n ≡ suc (c + suc e) = omega (arith, h) in
    ap (λ m. ancestor g m i) p ∙ ancestor-shift g c e (c + suc e) (parent_of g i) refl

-- Within `n` steps the walk from `i` passes regions only.
abbrev IsInside : Graph → ℕ → ℕ → Type 0
IsInside g n i = (d : ℕ) → d ≤ n → ancestor g d i < length g.regions.items

IsInside-step : (g : Graph) (n i : ℕ) → IsInside g (suc n) i → IsInside g n (parent_of g i)
unfolding ancestor
IsInside-step g n i h d le = h (suc d) (omega arith)

-- A region that is among its own ancestors is found, if all on the way are regions.
finds_cycle-eq-true :
    (g : Graph) (i : ℕ) (depth d cur : ℕ)
    → length g.regions.items ≤ invalid_id
    → d < depth
    → IsInside g d cur
    → ancestor g d cur ≡ i
    → finds_cycle g i depth cur ≡ true
unfolding finds_cycle ancestor
finds_cycle-eq-true g i zero d cur small h inside e = absurd (omega arith)
finds_cycle-eq-true g i (suc depth) zero cur small h inside e =
    ground (arith, inside 0 (omega arith))
finds_cycle-eq-true g i (suc depth) (suc d) cur small h inside e = ground (
  arith,
  inside 0 (omega arith),
  finds_cycle-eq-true g i depth d (parent_of g cur) small (omega arith)
      (IsInside-step g d cur inside) e,
)

ancestor-eq_step : (g : Graph) (n i : ℕ) → ancestor g (suc n) i ≡ parent_of g (ancestor g n i)
unfolding ancestor
ancestor-eq_step g zero i = refl
ancestor-eq_step g (suc n) i = ancestor-eq_step g n (parent_of g i)

-- What the two tests on the parents ask.
pub record IsAcyclic (g : Graph) : Type 0 where
  pub parents :
      (i : ℕ)
      → i < length g.regions.items
      → (parent_of g i ≡ invalid_id) ⊎ (parent_of g i < length g.regions.items)
  pub no_cycle :
      (i : ℕ)
      → i < length g.regions.items
      → finds_cycle g i (length g.regions.items) (parent_of g i) ≡ false

module _ (g : Graph) (small : length g.regions.items ≤ invalid_id) where
  pub parent_of-invalid : (i : ℕ) → length g.regions.items ≤ i → parent_of g i ≡ invalid_id
  unfolding parent_of
  parent_of-invalid i h = rw (get_elem?-ge g.regions.items i h, parent_of)

  pub ancestor-invalid : (n : ℕ) → ancestor g n invalid_id ≡ invalid_id
  unfolding ancestor
  ancestor-invalid zero = refl
  ancestor-invalid (suc n) =
      ap (ancestor g n) (parent_of-invalid invalid_id small) ∙ ancestor-invalid n

  walk :
      (i : ℕ)
      → IsAcyclic g
      → i < length g.regions.items
      → (n : ℕ) → IsInside g n i ⊎ ((d : ℕ) × (d ≤ n) × (ancestor g d i ≡ invalid_id))
  unfolding ancestor
  walk i a h zero = inl (λ d le.
      subst (λ d. ancestor g d i < length g.regions.items) (let p : 0 ≡ d = omega (arith, le) in p)
        h)
  walk i a h (suc n) = elim (walk i a h n) [
    | inr (d, le, e) ↦ inr (d, omega arith, e)
    | inl inside ↦ elim (a.parents (ancestor g n i) (inside n (omega arith))) [
      | inl top ↦ inr (suc n, omega arith, ancestor-eq_step g n i ∙ top)
      | inr low ↦ inl (λ d le. elim (Bool-cases (leb d n)) [
        | inl before ↦ inside d (omega (tests, before))
        | inr last ↦
            let p : d ≡ suc n = omega (tests, last) in
            subst (λ m. ancestor g m i < length g.regions.items) (sym p)
              (subst (λ m. m < length g.regions.items) (sym (ancestor-eq_step g n i)) low)
      ])
    ]
  ]

  again :
      (i c d : ℕ)
      → c < d
      → d ≤ length g.regions.items
      → IsInside g (length g.regions.items) i
      → ancestor g c i ≡ ancestor g d i
      → finds_cycle g (ancestor g c i) (length g.regions.items) (parent_of g (ancestor g c i))
        ≡ true
  again i c d lt le inside same =
      let e = d - suc c in
      finds_cycle-eq-true g (ancestor g c i) (length g.regions.items) e
        (parent_of g (ancestor g c i)) small (omega (arith, lt, le))
        (λ n h.
          subst (λ m. m < length g.regions.items) (ancestor-shift g c n (c + suc n) i refl)
            (inside (c + suc n) (omega (arith, lt, le, h))))
        (sym (ancestor-shift g c e d i (omega (arith, lt))) ∙ sym same)

  pub IsRooted-acyclic : (i : ℕ) → IsAcyclic g → i < length g.regions.items → IsRooted g i
  IsRooted-acyclic i a h = elim (walk i a h (length g.regions.items)) [
    | inr top ↦ top
    | inl inside ↦
        let (c, d, lt, le, e) = pigeonhole (λ n. ancestor g n i) (length g.regions.items) inside in
        absurd (
          cc (
            again i c d lt le inside e,
            a.no_cycle (ancestor g c i) (inside c (omega (arith, lt, le))),
          ))
  ]

  -- A walk that returns to its start never ends.
  finds_cycle-returns :
      (i depth cur : ℕ) → finds_cycle g i depth cur ≡ true → (d : ℕ) × (ancestor g d cur ≡ i)
  unfolding finds_cycle ancestor
  finds_cycle-returns i zero cur h = absurd (cc)
  finds_cycle-returns i (suc depth) cur h = elim (Bool-cases (cur == i)) [
    | inl e ↦ (0, ground (arith, e))
    | inr e ↦
        let (d, p) = finds_cycle-returns i depth (parent_of g cur) (ground (arith, h, e)) in
        (suc d, p)
  ]

  pub beyond : (i c d : ℕ) → ancestor g c i ≡ invalid_id → c ≤ d → ancestor g d i ≡ invalid_id
  unfolding ancestor
  beyond i zero d e le = ap (ancestor g d) e ∙ ancestor-invalid d
  beyond i (suc c) zero e le = absurd (omega (arith, le))
  beyond i (suc c) (suc d) e le = beyond (parent_of g i) c d e (omega (arith, le))

  around : (i d n : ℕ) → ancestor g (suc d) i ≡ i → (m : ℕ) × (n ≤ m) × (ancestor g m i ≡ i)
  unfolding ancestor
  around i d zero e = (0, omega arith, refl)
  around i d (suc n) e =
      let (m, le, p) = around i d n e in
      (
        m + suc d,
        omega (arith, le),
        ancestor-shift g m d (m + suc d) i refl ∙ ap (λ j. ancestor g d (parent_of g j)) p ∙ e,
      )

  pub no_cycle-rooted :
      (i : ℕ)
      → i < length g.regions.items
      → IsRooted g i
      → finds_cycle g i (length g.regions.items) (parent_of g i) ≡ false
  unfolding ancestor
  no_cycle-rooted i h (c, _, top) =
      elim (Bool-cases (finds_cycle g i (length g.regions.items) (parent_of g i))) [
        | inr e ↦ e
        | inl e ↦
            let (d, p) = finds_cycle-returns i (length g.regions.items) (parent_of g i) e in
            let (m, le, q) = around i d c p in
            absurd (omega (arith, h, small, sym q ∙ beyond i c m top le))
      ]
