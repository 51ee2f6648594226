-- ===== src/Architecture/Ancestors.antt =====
-- The walk of `find_sealed_ancestor` in src/verifier/architecture.c to the innermost sealed region.
use arcana.Common.{
  ℕ, zero, suc, ◌≤◌, ◌<◌, ◌≡◌, sym, ap, ◌∙◌, subst, inl, inr, true, false, Option, none, some, List,
  arith, tests, leb, ltb, ◌==◌, length, get_elem?, Bool-cases, Option-cases,
}
use arcana.Graph.Types.{invalid_id, Region, Graph}
use arcana.Graph.Validate.{parent_of}
use arcana.Graph.Forest.{ancestor, beyond, parent_of-invalid, ancestor-invalid}
use arcana.Graph.Accept.{IsGraph, region_at}
use arcana.Graph.Changes.{IsParent, closed}
use arcana.Architecture.Spec.{RegionSpec}
use arcana.Architecture.Boundaries.{sealed_spec, find_sealed_ancestor}

module _ (g : Graph) (specs : List RegionSpec) (fuel cur : ℕ) where
  find_top : cur ≡ invalid_id → find_sealed_ancestor g specs (suc fuel) cur ≡ some none
  unfolding find_sealed_ancestor
  find_top e =
      let top : (cur == invalid_id) ≡ true = ground (arith, e) in rw (top, find_sealed_ancestor)

  module _ (inner : cur < invalid_id) where
    not_top : (cur == invalid_id) ≡ false
    not_top = ground (arith, inner)

    find_here :
        (s : RegionSpec)
        → sealed_spec specs cur ≡ some s
        → find_sealed_ancestor g specs (suc fuel) cur ≡ some (some s)
    unfolding find_sealed_ancestor
    find_here s e = rw (not_top, e, find_sealed_ancestor)

    find_up :
        (r : Region)
        → sealed_spec specs cur ≡ none
        → get_elem? g.regions.items cur ≡ some r
        → find_sealed_ancestor g specs (suc fuel) cur ≡ find_sealed_ancestor g specs fuel r.parent
    unfolding find_sealed_ancestor
    find_up r e at_cur = rw (not_top, e, at_cur, find_sealed_ancestor)

module _ (g : Graph) (specs : List RegionSpec) where
  -- The region `s` is the innermost sealed region around `rid`, `d` steps above it.
  pub record IsInnermost (rid : ℕ) (s : RegionSpec) (d : ℕ) : Type 0 where
    pub above : ancestor g d rid ≡ s.region
    pub exists : s.region < length g.regions.items
    pub spec : sealed_spec specs s.region ≡ some s
    pub first : (c : ℕ) → c < d → sealed_spec specs (ancestor g c rid) ≡ none

module _ (g : Graph) (specs : List RegionSpec) (w : IsGraph g)
    (small : length g.regions.items ≤ invalid_id) where
  -- The walk ends if the top is `d` steps away, and there is fuel for one more.
  pub find_sealed_ancestor-total :
      (d fuel cur : ℕ)
      → d < fuel
      → IsParent g cur
      → ancestor g d cur ≡ invalid_id
      → (o : Option RegionSpec) × (find_sealed_ancestor g specs fuel cur ≡ some o)
  unfolding ancestor
  find_sealed_ancestor-total d zero cur h p e = absurd (omega (arith, h))
  find_sealed_ancestor-total d (suc fuel) cur h (inl top) e = (none, find_top g specs fuel cur top)
  find_sealed_ancestor-total zero (suc fuel) cur h (inr low) e = (none, find_top g specs fuel cur e)
  find_sealed_ancestor-total (suc d) (suc fuel) cur h (inr low) e =
      let inner : cur < invalid_id = omega (arith, low, small) in
      elim (Option-cases (sealed_spec specs cur)) [
        | inr (s, here) ↦ (some s, find_here g specs fuel cur inner s here)
        | inl up ↦
            let (r, at_cur, p) = region_at g cur low in
            let (o, q) =
              find_sealed_ancestor-total d fuel (parent_of g cur) (omega (arith, h))
                (closed g w cur low) e in
            (o, find_up g specs fuel cur inner r up at_cur ∙ (rw p at q))
      ]

  IsInnermost-parent :
      (rid : ℕ) (s : RegionSpec) (d : ℕ)
      → IsInnermost g specs rid s (suc d)
      → IsInnermost g specs (parent_of g rid) s d
  unfolding ancestor
  IsInnermost-parent rid s d i = record {
    above = i.above;
    exists = i.exists;
    spec = i.spec;
    first = λ c h. i.first (suc c) (omega (arith, h));
  }

  -- A region below the innermost sealed one exists.
  inside_of :
      (rid : ℕ) (s : RegionSpec) (d : ℕ)
      → IsInnermost g specs rid s d
      → rid < length g.regions.items
  unfolding ancestor
  inside_of rid s zero i = subst (λ x. x < length g.regions.items) (sym i.above) i.exists
  inside_of rid s (suc d) i = elim (Bool-cases (ltb rid (length g.regions.items))) [
    | inl low ↦ omega (tests, low)
    | inr high ↦
        let p = ap (ancestor g d) (parent_of-invalid g small rid (omega (tests, high))) in
        absurd (omega (arith, i.exists, small, sym i.above ∙ p ∙ ancestor-invalid g small d))
  ]

  pub find_innermost :
      (s : RegionSpec) (d fuel rid : ℕ)
      → d < fuel
      → IsInnermost g specs rid s d
      → find_sealed_ancestor g specs fuel rid ≡ some (some s)
  unfolding ancestor
  find_innermost s d zero rid h i = absurd (omega (arith, h))
  find_innermost s zero (suc fuel) rid h i =
      let low = inside_of rid s zero i in
      find_here g specs fuel rid (omega (arith, low, small)) s
        (ap (sealed_spec specs) i.above ∙ i.spec)
  find_innermost s (suc d) (suc fuel) rid h i =
      let low = inside_of rid s (suc d) i in
      let (r, at_rid, p) = region_at g rid low in
      find_up g specs fuel rid (omega (arith, low, small)) r (i.first 0 (omega arith)) at_rid
      ∙ (rw p at (
          find_innermost s d fuel (parent_of g rid) (omega (arith, h))
            (IsInnermost-parent rid s d i)))

  -- Fewer steps than there are regions lead to the innermost sealed region.
  pub steps_below :
      (rid : ℕ) (s : RegionSpec) (d : ℕ)
      → IsInnermost g specs rid s d
      → d < suc (length g.regions.items)
  steps_below rid s d i =
      let (c, le, e) = w.forest rid (inside_of rid s d i) in
      elim (Bool-cases (leb c d)) [
        | inl past ↦ absurd (
            omega (
              arith,
              i.exists,
              small,
              sym i.above ∙ beyond g small rid c d e (omega (tests, past)),
            ))
        | inr before ↦ omega (tests, before, le)
      ]
