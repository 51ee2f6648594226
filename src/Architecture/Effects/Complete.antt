-- ===== src/Architecture/Effects/Complete.antt =====
-- `collect_region_effects` collects the effects of all regions that a region leads to.
use mathlib.Core.List.{foldl}
use mathlib.Core.Option.{some-injective}
use arcana.Common.{
  ℕ, zero, suc, ◌+◌, ◌≤◌, ◌<◌, ◌≡◌, refl, sym, ap, ◌∙◌, subst, inl, inr, Bool, true, false, ◌||◌,
  arith, leb, length, get_elem?-lt, get_or, set, length-set, length-replicate, replicate,
  lt_of_get_elem?, Bool-cases, if_elim,
}
use arcana.Graph.Types.{invalid_id, Region, Node, Graph}
use arcana.Graph.Stages.{IsListed}
use arcana.Architecture.Spec.{EffectSet, pure_set}
use arcana.Architecture.Effects.{own_effect, Seen, Collector, visit_member, visit_children}
use arcana.Architecture.Effects.Steps.{
  seen_at, unvisited, get_or-set_inv, IsMember, IsSeen, IsSettled, Extends, Extends-refl,
}
use arcana.Architecture.Effects.{visit_region, collect_region_effects, region_effects}
use arcana.Architecture.Effects.Steps.{
  Leads, unvisited-set, unvisited-positive, get_or-set_self, get_or-set_keeps,
}
use arcana.Architecture.Effects.Nodes.{IsVisited}
use arcana.Architecture.Effects.Walk.{or_right, IsTraced, IsReady, IsCollector, Goes, Goes-trans}
use arcana.Architecture.Effects.Members.{members-Extends, children-Extends}

or_false : (x y : Bool) → (x || y) ≡ false → y ≡ false
or_false x y h = ground arith

module _ (g : Graph) (small : length g.regions.items ≤ invalid_id) where
  module _ (m : ℕ) (rec : Collector) (good : IsCollector g small m rec) where
    visit_region-Extends :
        (rid : ℕ) (s : Seen)
        → rid < length g.regions.items
        → IsReady g small m s
        → Goes g small m (pure_set, s) (visit_region g rec rid s)
          × IsSettled g (visit_region g rec rid s) rid
    unfolding visit_region
    visit_region-Extends rid s low ready =
        let (region, at_rid) = get_elem?-lt g.regions.items rid low in
        let x : EffectSet × Seen = (pure_set, s) in
        let (first, members) = members-Extends g small m rec good x region.members.items ready in
        let y = foldl (visit_member g rec) x region.members.items in
        let (rest, children) =
          children-Extends g small m rec good y rid 0 g.regions.items first.1 in
        let z = visit_children rec rid 0 g.regions.items y in
        let same : visit_region g rec rid s ≡ z = rw (at_rid, visit_region) in
        let member : (n : Node) → IsMember g rid n → IsVisited g small m rec good y n =
          λ n (r, nid, at_r, listed, at_nid).
            members nid n
              (subst (λ (u : Region). IsListed u.members.items nid)
                (some-injective _ _ (sym at_r ∙ at_rid)) listed)
              at_nid in
        (
          subst (Goes g small m x) (sym same) (Goes-trans g small m x y z first rest),
          subst (λ t. IsSettled g t rid) (sym same)
              (record {
                leads = λ b l. elim l [
                  | inl (r, at_b, parent) ↦
                      let p : 0 + b ≡ b = omega arith in
                      subst (IsSeen g z.1) p (children b r at_b parent)
                  | inr (n, is_member, target) ↦
                      λ below. rest.0.seen b ((member n is_member).1 b target below)
                ];
                effects = λ n bit is_member h. rest.0.effects bit ((member n is_member).0 bit h);
              }),
        )

  -- Nothing is done for a region that is visited or does not exist.
  skipped-Collects :
      (m rid : ℕ) (s : Seen)
      → unvisited s.regions ≤ m
      → length s.regions ≡ length g.regions.items
      → IsTraced g small s rid
      → IsSeen g s rid
      → Extends g (pure_set, s) (pure_set, s) × IsReady g small m s × IsSeen g s rid
  skipped-Collects m rid s few len traced seen = (
    Extends-refl g (pure_set, s),
    record {
      fuel = few;
      len = len;
      traced = λ fid h. elim (traced fid h) [
        | inl done ↦ done
        | inr p ↦ subst (IsSeen g s) (sym p) seen
      ];
    },
    seen,
  )

  -- The region is marked and walked through.
  entered-Collects :
      (m : ℕ) (rec : Collector) (good : IsCollector g small m rec) (rid : ℕ) (s : Seen)
      → unvisited s.regions ≤ suc m
      → length s.regions ≡ length g.regions.items
      → IsTraced g small s rid
      → rid < length g.regions.items
      → seen_at s rid ≡ false
      → let y = visit_region g rec rid (record s { regions = set s.regions rid true }) in
        Extends g (pure_set, s) y × IsReady g small (suc m) y.1 × IsSeen g y.1 rid
  entered-Collects m rec good rid s few len traced low fresh =
      let s' : Seen = record s { regions = set s.regions rid true } in
      let less = unvisited-set rid s.regions fresh (omega (arith, low, len)) in
      let marked : seen_at s' rid ≡ true =
        get_or-set_self s.regions rid (omega (arith, low, len)) in
      let ready : IsReady g small m s' = record {
        fuel = omega (arith, less, few);
        len = length-set s.regions rid true ∙ len;
        traced = λ fid h. elim (traced fid h) [
          | inl done ↦ λ below. get_or-set_keeps s.regions rid _ (done below)
          | inr p ↦ subst (IsSeen g s') (sym p) (λ below. marked)
        ];
      } in
      let (goes, here) = visit_region-Extends m rec good rid s' low ready in
      let y = visit_region g rec rid s' in
      (
        record {
          effects = goes.0.effects;
          seen = λ r h. goes.0.seen r (get_or-set_keeps s.regions rid r h);
          len = goes.0.len ∙ length-set s.regions rid true;
          fewer = omega (arith, goes.0.fewer, less);
          settled = λ r h. elim (goes.0.settled r h) [
            | inr new ↦ inr new
            | inl old ↦ elim (get_or-set_inv s.regions rid r old) [
              | inl p ↦ inr (subst (IsSettled g y) (sym p) here)
              | inr before ↦ inl before
            ]
          ];
        },
        record { fuel = omega (arith, goes.1.fuel); len = goes.1.len; traced = goes.1.traced },
        λ below. goes.0.seen rid marked,
      )

  -- With fuel for the regions that are not visited the call does its part.
  collect-IsCollector : (m : ℕ) → IsCollector g small m (collect_region_effects g m)
  unfolding collect_region_effects
  collect-IsCollector zero rid s few len traced = skipped-Collects zero rid s few len traced (λ low.
      elim (Bool-cases (seen_at s rid)) [
        | inl seen ↦ seen
        | inr fresh ↦ absurd (
            let p = unvisited-positive s.regions rid (omega (arith, low, len)) fresh in
            omega (arith, p, few))
      ])
  collect-IsCollector (suc m) rid s few len traced =
      if_elim (λ y. Extends g (pure_set, s) y × IsReady g small (suc m) y.1 × IsSeen g y.1 rid)
        (leb (length g.regions.items) rid || get_or s.regions rid false)
        (λ skip. skipped-Collects (suc m) rid s few len traced (λ low.
          or_right (leb (length g.regions.items) rid) (seen_at s rid) skip (ground (arith, low))))
        (λ go.
          entered-Collects m (collect_region_effects g m) (collect-IsCollector m) rid s few len
            traced (ground (arith, go)) (or_false _ _ go))

-- The regions that a region leads to, in any number of steps over existing regions.
pub data Within (g : Graph) (a : ℕ) : ℕ → Type 0 where
  here : Within g a a
  further : (b c : ℕ) → Within g a b → b < length g.regions.items → Leads g b c → Within g a c

unvisited-replicate : (n : ℕ) → unvisited (replicate n false) ≡ n
unvisited-replicate zero = refl
unvisited-replicate (suc n) = ap suc (unvisited-replicate n)

get_or-replicate : (n i : ℕ) → get_or (replicate n false) i false ≡ false
get_or-replicate zero i = refl
get_or-replicate (suc n) zero = refl
get_or-replicate (suc n) (suc i) = get_or-replicate n i

module _ (g : Graph) (small : length g.regions.items ≤ invalid_id) (rid : ℕ) where
  abbrev nothing_seen : Seen
  nothing_seen = record {
    regions = replicate (length g.regions.items) false;
    funcs = replicate (length g.nodes.items) false;
  }

  abbrev collected : EffectSet × Seen
  collected = collect_region_effects g (suc (length g.regions.items)) rid nothing_seen

  collected-Collects : Extends g (pure_set, nothing_seen) collected × IsSeen g collected.1 rid
  collected-Collects =
      let (e, _, seen) =
        collect-IsCollector g small (suc (length g.regions.items)) rid nothing_seen
          (omega (arith, unvisited-replicate (length g.regions.items)))
          (length-replicate (length g.regions.items) false)
          (λ fid h. absurd (cc (h, get_or-replicate (length g.nodes.items) fid))) in
      (e, seen)

  IsSettled-if_seen : (r : ℕ) → seen_at collected.1 r ≡ true → IsSettled g collected r
  IsSettled-if_seen r h = elim (collected-Collects.0.settled r h) [
    | inl old ↦ absurd (cc (old, get_or-replicate (length g.regions.items) r))
    | inr new ↦ new
  ]

  -- Every region that `rid` leads to is visited.
  Within-IsSeen : (r : ℕ) → Within g rid r → IsSeen g collected.1 r
  Within-IsSeen _ here = collected-Collects.1
  Within-IsSeen _ (further b c w low l) = (IsSettled-if_seen b (Within-IsSeen b w low)).leads c l

  pub region_effects-Within :
      (r : ℕ) (n : Node) (bit : ℕ)
      → Within g rid r
      → IsMember g r n
      → own_effect n bit ≡ true
      → region_effects g rid bit ≡ true
  unfolding region_effects
  region_effects-Within r n bit w member h =
      let low = lt_of_get_elem? g.regions.items r member.0 member.2 in
      (IsSettled-if_seen r (Within-IsSeen r w low)).effects n bit member h
