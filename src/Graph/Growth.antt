-- ===== src/Graph/Growth.antt =====
-- What is kept when an array of a graph grows or one of its entries is written.
use mathlib.Core.Option.{some-injective}
use arcana.Common.{
  ℕ, zero, suc, ◌≤◌, ◌<◌, ◌≡◌, refl, sym, ap, ◌∙◌, inl, inr, ◌⊎◌, Bool, Option, none, some, [], ◌∷◌,
  ◌++◌, arith, ltb, length, get_elem?, Bool-cases,
}
use arcana.Common.Vector.{Vec, push, grown_cap}
use arcana.Graph.Types.{invalid_id, Port, SemEdge, Region, Node, Graph}
use arcana.Graph.Build.{◌>>=◌}
use arcana.Graph.Validate.{parent_of}
use arcana.Graph.Forest.{ancestor, IsRooted}
use arcana.Graph.Stages.{IsNode}
use arcana.Graph.Accept.{IsRegion, IsPortWith, IsEdge, IsPort}

-- The successful chain has a successful first part.
pub bind-eq-some {ℓ κ} :
    {A : Type ℓ} {B : Type κ} (o : Option A) (f : A → Option B) (b : B)
    → (o >>= f) ≡ some b
    → (a : A) × (o ≡ some a) × (f a ≡ some b)
bind-eq-some none f b e = absurd (cc)
bind-eq-some (some a) f b e = (a, refl, e)

pub push-items {ℓ} :
    {A : Type ℓ} (limit m : ℕ) (v : Vec A) (x : A) (w : Vec A)
    → push limit m v x ≡ some w
    → w.items ≡ v.items ++ x ∷ []
unfolding push
push-items limit m v x w e =
    elim (Bool-cases (ltb (length v.items) (grown_cap limit m (length v.items) v.cap))) [
      | inl fits ↦ sym (ap (λ (u : Vec _). u.items) (some-injective _ _ (rw fits at e)))
      | inr past ↦ absurd (cc (rw past at e))
    ]

-- The later graph has the regions and nodes of the earlier one, perhaps more, and its ports.
pub record IsLater (g h : Graph) : Type 0 where
  pub regions : length g.regions.items ≤ length h.regions.items
  pub nodes : length g.nodes.items ≤ length h.nodes.items
  pub ports :
      (i : ℕ) (p : Port) → get_elem? g.ports.items i ≡ some p → get_elem? h.ports.items i ≡ some p

module _ (g h : Graph) (l : IsLater g h) where
  pub IsRegion-later : (i : ℕ) (r : Region) → IsRegion g i r → IsRegion h i r
  IsRegion-later i r w = record {
    id = w.id;
    parent = elim w.parent [ inl top ↦ inl top | inr low ↦ inr (omega (arith, low, l.regions)) ];
  }

  pub IsNode-later : (i : ℕ) (n : Node) → IsNode g i n → IsNode h i n
  IsNode-later i n w = record {
    id = w.id;
    region = omega (arith, w.region, l.regions);
    order = w.order;
  }

  IsPortWith-later : (test : Port → Bool) (id : ℕ) → IsPortWith g test id → IsPortWith h test id
  IsPortWith-later test id (p, e, ok) = (p, l.ports id p e, ok)

  pub IsEdge-later : (i : ℕ) (e : SemEdge) → IsEdge g i e → IsEdge h i e
  IsEdge-later i e w = record {
    id = w.id;
    from = IsPortWith-later _ _ w.from;
    to = IsPortWith-later _ _ w.to;
  }

  pub IsPort-later : (i : ℕ) (p : Port) → IsPort g i p → IsPort h i p
  IsPort-later i p w = record { id = w.id; owner = omega (arith, w.owner, l.nodes) }

  -- The walk to the top is kept if the parents of the old regions are.
  module _ (same : (i : ℕ) → i < length g.regions.items → parent_of h i ≡ parent_of g i)
      (closed : (i : ℕ)
        → i < length g.regions.items
        → (parent_of g i ≡ invalid_id) ⊎ (parent_of g i < length g.regions.items)) where
    walk-later :
        (d i : ℕ)
        → (i ≡ invalid_id) ⊎ (i < length g.regions.items)
        → ancestor g d i ≡ invalid_id
        → (c : ℕ) × (c ≤ d) × (ancestor h c i ≡ invalid_id)
    unfolding ancestor
    walk-later d i (inl top) e = (0, omega arith, top)
    walk-later zero i (inr low) e = (0, omega arith, e)
    walk-later (suc d) i (inr low) e =
        let (c, le, p) = walk-later d (parent_of g i) (closed i low) e in
        (suc c, omega (arith, le), ap (ancestor h c) (same i low) ∙ p)

    pub IsRooted-later : (i : ℕ) → i < length g.regions.items → IsRooted g i → IsRooted h i
    IsRooted-later i low (d, le, e) =
        let (c, le', p) = walk-later d i (inr low) e in (c, omega (arith, le, le', l.regions), p)

    -- A new region under the top or an old region.
    pub IsRooted-new :
        (i p : ℕ)
        → parent_of h i ≡ p
        → (p ≡ invalid_id) ⊎ (p < length g.regions.items)
        → ((j : ℕ) → j < length g.regions.items → IsRooted g j)
        → length g.regions.items < length h.regions.items
        → IsRooted h i
    unfolding ancestor
    IsRooted-new i p e (inl top) forest more = (1, omega (arith, more), e ∙ top)
    IsRooted-new i p e (inr low) forest more =
        let (c, le, q) = forest p low in
        let (c', le', q') = walk-later c p (inr low) q in
        (suc c', omega (arith, le, le', more), ap (ancestor h c') e ∙ q')
