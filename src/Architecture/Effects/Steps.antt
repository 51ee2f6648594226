-- ===== src/Architecture/Effects/Steps.antt =====
-- One step of the walk of `collect_region_effects`: what it adds to the effects and to the visited
-- regions.
use arcana.Common.{
  ℕ, zero, suc, ◌≤◌, ◌<◌, ◌≡◌, ◌≢◌, refl, ap, ◌∙◌, ◌⊎◌, inl, inr, Bool, true, false, some, List, [],
  ◌∷◌, arith, length, get_elem?, get_or, set,
}
use arcana.Graph.Types.{invalid_id, Region, Node, Graph}
use arcana.Graph.Stages.{IsListed}
use arcana.Architecture.Spec.{EffectSet}
use arcana.Architecture.Effects.{inner_regions, callee, own_effect, find_func_def, Seen, body_of}

abbrev pub seen_at : Seen → ℕ → Bool
seen_at s r = get_or s.regions r false

-- The number of regions that are not visited.
abbrev pub unvisited : List Bool → ℕ
unvisited [] = 0
unvisited (true ∷ bs) = unvisited bs
unvisited (false ∷ bs) = suc (unvisited bs)

pub unvisited-set :
    (r : ℕ) (marks : List Bool)
    → get_or marks r false ≡ false
    → r < length marks
    → unvisited (set marks r true) < unvisited marks
unvisited-set r [] fresh low = absurd (omega (arith, low))
unvisited-set zero (true ∷ marks) fresh low = absurd (cc)
unvisited-set zero (false ∷ marks) fresh low = omega arith
unvisited-set (suc r) (true ∷ marks) fresh low = unvisited-set r marks fresh (omega (arith, low))
unvisited-set (suc r) (false ∷ marks) fresh low =
    omega (arith, unvisited-set r marks fresh (omega (arith, low)))

pub unvisited-positive :
    (bs : List Bool) (i : ℕ) → i < length bs → get_or bs i false ≡ false → 0 < unvisited bs
unvisited-positive [] i h e = absurd (omega (arith, h))
unvisited-positive (true ∷ bs) zero h e = absurd (cc)
unvisited-positive (false ∷ bs) i h e = omega arith
unvisited-positive (true ∷ bs) (suc i) h e = unvisited-positive bs i (omega (arith, h)) e

pub get_or-set_self :
    (bs : List Bool) (i : ℕ) → i < length bs → get_or (set bs i true) i false ≡ true
get_or-set_self [] i h = absurd (omega (arith, h))
get_or-set_self (b ∷ bs) zero h = refl
get_or-set_self (b ∷ bs) (suc i) h = get_or-set_self bs i (omega (arith, h))

pub get_or-set_keeps :
    (bs : List Bool) (i j : ℕ) → get_or bs j false ≡ true → get_or (set bs i true) j false ≡ true
get_or-set_keeps [] i j e = e
get_or-set_keeps (b ∷ bs) zero zero e = refl
get_or-set_keeps (b ∷ bs) zero (suc j) e = e
get_or-set_keeps (b ∷ bs) (suc i) zero e = e
get_or-set_keeps (b ∷ bs) (suc i) (suc j) e = get_or-set_keeps bs i j e

pub get_or-set_inv :
    (bs : List Bool) (i j : ℕ)
    → get_or (set bs i true) j false ≡ true
    → (j ≡ i) ⊎ (get_or bs j false ≡ true)
get_or-set_inv [] i j e = inr e
get_or-set_inv (b ∷ bs) zero zero e = inl refl
get_or-set_inv (b ∷ bs) zero (suc j) e = inr e
get_or-set_inv (b ∷ bs) (suc i) zero e = inr e
get_or-set_inv (b ∷ bs) (suc i) (suc j) e = elim (get_or-set_inv bs i j e) [
  | inl p ↦ inl (ap suc p)
  | inr q ↦ inr q
]

-- A node leads to a region: it is an inner one of the node, or the body of the function that the
-- node calls or spawns.
abbrev pub Targets : Graph → Node → ℕ → Type 0
Targets g n b =
    IsListed (inner_regions n) b
    ⊎ ((f : List ℕ) × (callee n ≡ some f)
        × (find_func_def g.nodes.items f ≢ invalid_id)
        × (body_of g (find_func_def g.nodes.items f) ≡ b))

-- The node is a member of the region.
abbrev pub IsMember : Graph → ℕ → Node → Type 0
IsMember g r n =
    (region : Region) × (nid : ℕ) × (get_elem? g.regions.items r ≡ some region)
    × IsListed region.members.items nid
    × (get_elem? g.nodes.items nid ≡ some n)

-- A region leads to its children and to the targets of its members.
abbrev pub Leads : Graph → ℕ → ℕ → Type 0
Leads g a b =
    ((r : Region) × (get_elem? g.regions.items b ≡ some r) × (r.parent ≡ a))
    ⊎ ((n : Node) × IsMember g a n × Targets g n b)

abbrev pub IsSeen : Graph → Seen → ℕ → Type 0
IsSeen g s b = b < length g.regions.items → seen_at s b ≡ true

-- All that a region leads to is visited, and the effects of its members are collected.
pub record IsSettled (g : Graph) (x : EffectSet × Seen) (r : ℕ) : Type 0 where
  pub leads : (b : ℕ) → Leads g r b → IsSeen g x.1 b
  pub effects : (n : Node) (bit : ℕ) → IsMember g r n → own_effect n bit ≡ true → x.0 bit ≡ true

-- The walk went from `x` to `y`.
pub record Extends (g : Graph) (x y : EffectSet × Seen) : Type 0 where
  pub effects : (bit : ℕ) → x.0 bit ≡ true → y.0 bit ≡ true
  pub seen : (r : ℕ) → seen_at x.1 r ≡ true → seen_at y.1 r ≡ true
  pub len : length y.1.regions ≡ length x.1.regions
  pub fewer : unvisited y.1.regions ≤ unvisited x.1.regions
  pub settled : (r : ℕ) → seen_at y.1 r ≡ true → (seen_at x.1 r ≡ true) ⊎ IsSettled g y r

module _ (g : Graph) where
  pub Extends-refl : (x : EffectSet × Seen) → Extends g x x
  Extends-refl x = record {
    effects = λ bit h. h;
    seen = λ r h. h;
    len = refl;
    fewer = omega arith;
    settled = λ r h. inl h;
  }

  IsSettled-mono :
      (x y : EffectSet × Seen) (r : ℕ) → Extends g x y → IsSettled g x r → IsSettled g y r
  IsSettled-mono x y r e s = record {
    leads = λ b l low. e.seen b (s.leads b l low);
    effects = λ n bit m h. e.effects bit (s.effects n bit m h);
  }

  pub Extends-trans : (x y z : EffectSet × Seen) → Extends g x y → Extends g y z → Extends g x z
  Extends-trans x y z e f = record {
    effects = λ bit h. f.effects bit (e.effects bit h);
    seen = λ r h. f.seen r (e.seen r h);
    len = f.len ∙ e.len;
    fewer = omega (arith, e.fewer, f.fewer);
    settled = λ r h. elim (f.settled r h) [
      | inr new ↦ inr new
      | inl old ↦ elim (e.settled r old) [
        | inl before ↦ inl before
        | inr s ↦ inr (IsSettled-mono y z r f s)
      ]
    ];
  }
