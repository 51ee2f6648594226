-- ===== src/Architecture/Effects/Nodes.antt =====
-- The walk of `collect_region_effects` through one node.
use mathlib.Core.Option.{some-injective}
use arcana.Common.{
  ℕ, ◌≤◌, ◌≡◌, ◌≢◌, refl, subst, inl, inr, true, Option, none, some, List, arith, length,
}
use arcana.Graph.Types.{invalid_id, Node, Graph}
use arcana.Architecture.Spec.{EffectSet, union}
use arcana.Architecture.Effects.{
  inner_regions, callee, own_effect, find_func_def, Seen, Collector, body_of, trace_call,
  visit_node,
}
use arcana.Architecture.Effects.Steps.{Targets, IsSeen, Extends, Extends-refl}
use arcana.Architecture.Effects.Walk.{
  IsReady, IsCollector, Goes, Goes-trans, inner-Extends, trace_call-Extends,
}

module _ (g : Graph) (small : length g.regions.items ≤ invalid_id) where
  module _ (m : ℕ) (rec : Collector) (good : IsCollector g small m rec) where
    -- The effects of the node are collected, and its targets are visited.
    abbrev pub IsVisited : EffectSet × Seen → Node → Type 0
    IsVisited y n =
        ((bit : ℕ) → own_effect n bit ≡ true → y.0 bit ≡ true)
        × ((b : ℕ) → Targets g n b → IsSeen g y.1 b)

    pub IsVisited-mono :
        (x y : EffectSet × Seen) (n : Node) → Extends g x y → IsVisited x n → IsVisited y n
    IsVisited-mono x y n e v =
        (λ bit h. e.effects bit (v.0 bit h), λ b t low. e.seen b (v.1 b t low))

    own-Extends :
        (e : EffectSet) (s : Seen) (n : Node) → Extends g (e, s) (union e (own_effect n), s)
    own-Extends e s n = record {
      effects = λ bit h. ground (arith, h);
      seen = λ r h. h;
      len = refl;
      fewer = omega arith;
      settled = λ r h. inl h;
    }

    -- The step for the call of a node, if it calls.
    abbrev called : EffectSet × Seen → Option (List ℕ) → EffectSet × Seen
    called x none = x
    called x (some f) = trace_call g rec f x

    called-Extends :
        (x : EffectSet × Seen) (o : Option (List ℕ))
        → IsReady g small m x.1
        → Goes g small m x (called x o)
          × ((f : List ℕ)
              → o ≡ some f
              → find_func_def g.nodes.items f ≢ invalid_id
              → IsSeen g (called x o).1 (body_of g (find_func_def g.nodes.items f)))
    called-Extends x none ready = ((Extends-refl g x, ready), λ f e. absurd (cc))
    called-Extends (e, s) (some f) ready =
        let (goes, seen) = trace_call-Extends g small m rec good f e s ready in
        (
          goes,
          λ f' q.
              subst
                (λ k.
                  find_func_def g.nodes.items k ≢ invalid_id
                  → IsSeen g (trace_call g rec f (e, s)).1
                      (body_of g (find_func_def g.nodes.items k)))
                (some-injective _ _ q) seen,
        )

    pub visit_node-Extends :
        (e : EffectSet) (s : Seen) (n : Node)
        → IsReady g small m s
        → Goes g small m (e, s) (visit_node g rec (e, s) n)
          × IsVisited (visit_node g rec (e, s) n) n
    unfolding visit_node
    visit_node-Extends e s n ready =
        let own : EffectSet × Seen = (union e (own_effect n), s) in
        let first = own-Extends e s n in
        let (call, body) = called-Extends own (callee n) ready in
        let (rest, inner) =
          inner-Extends g small m rec good (called own (callee n)) (inner_regions n) call.1 in
        let after = Goes-trans g small m own _ _ call rest in
        (
          Goes-trans g small m (e, s) own _ (first, ready) after,
          (
            λ bit h. after.0.effects bit (ground (arith, h)),
            λ b t. elim t [
              | inl listed ↦ inner b listed
              | inr (f, is_call, found, same) ↦ λ low.
                  rest.0.seen b
                    (subst (IsSeen g (called own (callee n)).1) same (body f is_call found) low)
            ],
          ),
        )
