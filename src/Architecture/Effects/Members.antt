-- ===== src/Architecture/Effects/Members.antt =====
-- The loops of `collect_region_effects` over the members and the children of a region.
use mathlib.Core.List.{foldl}
use mathlib.Core.Option.{some-injective}
use arcana.Common.{
  ℕ, zero, suc, ◌+◌, ◌≤◌, ◌≡◌, sym, ap, ◌∙◌, subst, inl, inr, some, List, [], ◌∷◌, arith, ◌==◌,
  if◌then◌else◌, length, get_elem?, Option-cases, if_elim,
}
use arcana.Graph.Types.{invalid_id, Region, Node, Graph}
use arcana.Graph.Stages.{IsListed}
use arcana.Architecture.Spec.{EffectSet}
use arcana.Architecture.Effects.{Seen, Collector, absorb, visit_node, visit_member, visit_children}
use arcana.Architecture.Effects.Steps.{IsSeen, Extends-refl}
use arcana.Architecture.Effects.Nodes.{IsVisited, IsVisited-mono, visit_node-Extends}
use arcana.Architecture.Effects.Walk.{
  IsListed-cases, IsReady, IsCollector, Goes, Goes-trans, absorb-Extends,
}

child_at :
    (P : ℕ → Type 0) (i rid : ℕ) (r : Region) (rs : List Region)
    → (r.parent ≡ rid → P i)
    → ((k : ℕ) (q : Region) → get_elem? rs k ≡ some q → q.parent ≡ rid → P (suc i + k))
    → (k : ℕ) (q : Region) → get_elem? (r ∷ rs) k ≡ some q
    → q.parent ≡ rid
    → P (i + k)
child_at P i rid r rs here later zero q e p =
    let same : i ≡ i + 0 = omega arith in
    subst P same (here (ap (λ (u : Region). u.parent) (some-injective _ _ e) ∙ p))
child_at P i rid r rs here later (suc k) q e p =
    let same : suc i + k ≡ i + suc k = omega arith in subst P same (later k q e p)

module _ (g : Graph) (small : length g.regions.items ≤ invalid_id) where
  module _ (m : ℕ) (rec : Collector) (good : IsCollector g small m rec) where
    visit_member-Extends :
        (x : EffectSet × Seen) (nid : ℕ)
        → IsReady g small m x.1
        → Goes g small m x (visit_member g rec x nid)
          × ((n : Node)
              → get_elem? g.nodes.items nid ≡ some n
              → IsVisited g small m rec good (visit_member g rec x nid) n)
    unfolding visit_member
    visit_member-Extends x nid ready = elim (Option-cases (get_elem? g.nodes.items nid)) [
      | inl missing ↦
          (rw (missing, visit_member) (Extends-refl g x, ready), λ n e. absurd (cc (missing, e)))
      | inr (n, at_nid) ↦
          let (goes, done) = visit_node-Extends g small m rec good x.0 x.1 n ready in
          let same : visit_member g rec x nid ≡ visit_node g rec x n = rw (at_nid, visit_member) in
          (
            subst (Goes g small m x) (sym same) goes,
            λ k e.
                subst (λ y. IsVisited g small m rec good y k) (sym same)
                  (subst (IsVisited g small m rec good (visit_node g rec x n))
                    (some-injective _ _ (sym at_nid ∙ e)) done),
          )
    ]

    pub members-Extends :
        (x : EffectSet × Seen) (nids : List ℕ)
        → IsReady g small m x.1
        → Goes g small m x (foldl (visit_member g rec) x nids)
          × ((nid : ℕ) (n : Node)
              → IsListed nids nid
              → get_elem? g.nodes.items nid ≡ some n
              → IsVisited g small m rec good (foldl (visit_member g rec) x nids) n)
    members-Extends x [] ready = ((Extends-refl g x, ready), λ nid n (k, e). absurd (ground arith))
    members-Extends x (i ∷ nids) ready =
        let (first, here) = visit_member-Extends x i ready in
        let (rest, later) = members-Extends (visit_member g rec x i) nids first.1 in
        (
          Goes-trans g small m x _ _ first rest,
          λ nid n t e. elim (IsListed-cases i nids nid t) [
            | inr l ↦ later nid n l e
            | inl p ↦
                IsVisited-mono g small m rec good _ _ n rest.0
                  (here n (ap (get_elem? g.nodes.items) p ∙ e))
          ],
        )

    pub children-Extends :
        (x : EffectSet × Seen) (rid i : ℕ) (rs : List Region)
        → IsReady g small m x.1
        → Goes g small m x (visit_children rec rid i rs x)
          × ((k : ℕ) (r : Region)
              → get_elem? rs k ≡ some r
              → r.parent ≡ rid
              → IsSeen g (visit_children rec rid i rs x).1 (i + k))
    unfolding visit_children
    children-Extends x rid i [] ready = ((Extends-refl g x, ready), λ k r e. absurd (ground arith))
    children-Extends (e, s) rid i (r ∷ rs) ready =
        let x : EffectSet × Seen = (e, s) in
        let y : EffectSet × Seen = if r.parent == rid then absorb rec x i else x in
        let first : Goes g small m x y × (r.parent ≡ rid → IsSeen g y.1 i) =
          if_elim (λ z. Goes g small m x z × (r.parent ≡ rid → IsSeen g z.1 i)) (r.parent == rid)
            (λ yes_child.
              let (goes, seen) =
                absorb-Extends g small m rec good e s i ready.fuel ready.len
                  (λ fid h. inl (ready.traced fid h)) in
              (goes, λ p. seen))
            (λ other. ((Extends-refl g x, ready), λ p. absurd (ground (arith, other, p)))) in
        let (rest, later) = children-Extends y rid (suc i) rs first.0.1 in
        (
          Goes-trans g small m x y _ first.0 rest,
          child_at (IsSeen g (visit_children rec rid (suc i) rs y).1) i rid r rs
              (λ p low. rest.0.seen i (first.1 p low)) later,
        )
