-- ===== src/Architecture/Effects/Walk.antt =====
-- The recursive calls of `collect_region_effects`, for a region, a list of regions or the body of a
-- called function, over a call that does its part.
use mathlib.Core.List.{foldl}
use mathlib.Core.Option.{some-injective}
use arcana.Common.{
  ℕ, zero, suc, ◌≤◌, ◌≡◌, ◌≢◌, ap, subst, ◌⊎◌, inl, inr, Bool, true, false, ◌||◌, List, [], ◌∷◌,
  arith, ◌==◌, length, get_or, set, if_elim,
}
use arcana.Graph.Types.{invalid_id, Graph}
use arcana.Graph.Stages.{IsListed}
use arcana.Architecture.Spec.{EffectSet, pure_set}
use arcana.Architecture.Effects.{
  find_func_def, Seen, Collector, absorb, absorb_valid, body_of, trace_call,
}
use arcana.Architecture.Effects.Steps.{
  unvisited, get_or-set_inv, IsSeen, Extends, Extends-refl, Extends-trans,
}

pub IsListed-cases : (x : ℕ) (xs : List ℕ) (b : ℕ) → IsListed (x ∷ xs) b → (x ≡ b) ⊎ IsListed xs b
IsListed-cases x xs b (zero, e) = inl (some-injective _ _ e)
IsListed-cases x xs b (suc k, e) = inr (k, e)

pub or_right : (x y : Bool) → (x || y) ≡ true → x ≡ false → y ≡ true
or_right x y h e = ground arith

module _ (g : Graph) (small : length g.regions.items ≤ invalid_id) where
  -- The body of every traced function is visited, or is the region `rid`.
  abbrev pub IsTraced : Seen → ℕ → Type 0
  IsTraced s rid =
      (fid : ℕ)
      → get_or s.funcs fid false ≡ true
      → IsSeen g s (body_of g fid) ⊎ (body_of g fid ≡ rid)

  -- With no exception: `invalid_id` names no region.
  pub record IsReady (m : ℕ) (s : Seen) : Type 0 where
    pub fuel : unvisited s.regions ≤ m
    pub len : length s.regions ≡ length g.regions.items
    pub traced : (fid : ℕ) → get_or s.funcs fid false ≡ true → IsSeen g s (body_of g fid)

  -- A recursive call that does its part, for at most `m` regions to visit.
  abbrev pub IsCollector : ℕ → Collector → Type 0
  IsCollector m rec =
      (rid : ℕ) (s : Seen)
      → unvisited s.regions ≤ m
      → length s.regions ≡ length g.regions.items
      → IsTraced s rid
      → Extends g (pure_set, s) (rec rid s) × IsReady m (rec rid s).1 × IsSeen g (rec rid s).1 rid

  -- From a ready state the walk goes on to a ready state.
  abbrev pub Goes : ℕ → EffectSet × Seen → EffectSet × Seen → Type 0
  Goes m x y = Extends g x y × IsReady m y.1

  pub Goes-trans : (m : ℕ) (x y z : EffectSet × Seen) → Goes m x y → Goes m y z → Goes m x z
  Goes-trans m x y z e f = (Extends-trans g x y z e.0 f.0, f.1)

  module _ (m : ℕ) (rec : Collector) (good : IsCollector m rec) where
    pub absorb-Extends :
        (e : EffectSet) (s : Seen) (rid : ℕ)
        → unvisited s.regions ≤ m
        → length s.regions ≡ length g.regions.items
        → IsTraced s rid
        → Goes m (e, s) (absorb rec (e, s) rid) × IsSeen g (absorb rec (e, s) rid).1 rid
    absorb-Extends e s rid few len traced =
        let (x, ready, seen) = good rid s few len traced in
        (
          (
            record {
              effects = λ bit h. ground (arith, h);
              seen = x.seen;
              len = x.len;
              fewer = x.fewer;
              settled = λ r h. elim (x.settled r h) [
                | inl old ↦ inl old
                | inr new ↦ inr (record {
                  leads = new.leads;
                  effects = λ n bit q p. ground (arith, new.effects n bit q p);
                })
              ];
            },
            ready,
          ),
          seen,
        )

    absorb_valid-Extends :
        (e : EffectSet) (s : Seen) (rid : ℕ)
        → unvisited s.regions ≤ m
        → length s.regions ≡ length g.regions.items
        → IsTraced s rid
        → Goes m (e, s) (absorb_valid rec (e, s) rid) × IsSeen g (absorb_valid rec (e, s) rid).1 rid
    absorb_valid-Extends e s rid few len traced =
        if_elim (λ y. Goes m (e, s) y × IsSeen g y.1 rid) (rid == invalid_id)
          (λ top.
            let p : rid ≡ invalid_id = ground (arith, top) in
            (
              (
                Extends-refl g (e, s),
                record {
                  fuel = few;
                  len = len;
                  traced = λ fid h. elim (traced fid h) [
                    | inl seen ↦ seen
                    | inr q ↦ λ low. absurd (omega (arith, low, small, p, q))
                  ];
                },
              ),
              λ low. absurd (omega (arith, low, small, p)),
            ))
          (λ other. absorb-Extends e s rid few len traced)

    pub absorb_ready :
        (x : EffectSet × Seen) (rid : ℕ)
        → IsReady m x.1
        → Goes m x (absorb_valid rec x rid) × IsSeen g (absorb_valid rec x rid).1 rid
    absorb_ready (e, s) rid ready =
        absorb_valid-Extends e s rid ready.fuel ready.len (λ fid h. inl (ready.traced fid h))

    pub inner-Extends :
        (x : EffectSet × Seen) (rids : List ℕ)
        → IsReady m x.1
        → Goes m x (foldl (absorb_valid rec) x rids)
          × ((b : ℕ) → IsListed rids b → IsSeen g (foldl (absorb_valid rec) x rids).1 b)
    inner-Extends x [] ready = ((Extends-refl g x, ready), λ b (k, e). absurd (ground arith))
    inner-Extends x (rid ∷ rids) ready =
        let (first, seen) = absorb_ready x rid ready in
        let (rest, all) = inner-Extends (absorb_valid rec x rid) rids first.1 in
        (
          Goes-trans m x _ _ first rest,
          λ b t. elim (IsListed-cases rid rids b t) [
            | inl p ↦
                subst (IsSeen g (foldl (absorb_valid rec) (absorb_valid rec x rid) rids).1) p
                  (λ low. rest.0.seen rid (seen low))
            | inr later ↦ all b later
          ],
        )

    pub trace_call-Extends :
        (f : List ℕ) (e : EffectSet) (s : Seen)
        → IsReady m s
        → Goes m (e, s) (trace_call g rec f (e, s))
          × (find_func_def g.nodes.items f ≢ invalid_id
              → IsSeen g (trace_call g rec f (e, s)).1 (body_of g (find_func_def g.nodes.items f)))
    unfolding trace_call
    trace_call-Extends f e s ready =
        let fid = find_func_def g.nodes.items f in
        if_elim (λ y. Goes m (e, s) y × (fid ≢ invalid_id → IsSeen g y.1 (body_of g fid)))
          (fid == invalid_id || get_or s.funcs fid false)
          (λ skip. (
            (Extends-refl g (e, s), ready),
            λ exists. ready.traced fid (
                or_right (fid == invalid_id) (get_or s.funcs fid false) skip
                  (ground (arith, exists))),
          ))
          (λ go.
            let s' : Seen = record s { funcs = set s.funcs fid true } in
            let (goes, seen) =
              absorb_valid-Extends e s' (body_of g fid) ready.fuel ready.len (λ k h.
                elim (get_or-set_inv s.funcs fid k h) [
                  | inl p ↦ inr (ap (body_of g) p)
                  | inr old ↦ inl (ready.traced k old)
                ]) in
            (
              (
                record {
                  effects = goes.0.effects;
                  seen = goes.0.seen;
                  len = goes.0.len;
                  fewer = goes.0.fewer;
                  settled = goes.0.settled;
                },
                goes.1,
              ),
              λ exists. seen,
            ))
