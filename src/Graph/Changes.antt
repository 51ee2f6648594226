-- ===== src/Graph/Changes.antt =====
-- How the entries of a graph change: an array grows by one entry, or an entry is overwritten.
use mathlib.Core.Option.{some-injective}
use arcana.Common.{
  Bool, ℕ, zero, suc, ◌≤◌, ◌<◌, ◌≡◌, refl, sym, ap, ◌∙◌, subst, inl, inr, ◌⊎◌, some, List, [], ◌∷◌,
  ◌++◌, arith, tests, ltb, length, get_elem?, set, length-append, length-set, get_elem?-append_left,
  get_elem?-append_last, lt_of_get_elem?, Bool-cases,
}
use arcana.Common.Vector.{Vec, push}
use arcana.Graph.Types.{invalid_id, Port, SemEdge, Region, Node, Graph}
use arcana.Graph.Build.{cap_mod, graph_init, region_add_member}
use arcana.Graph.Validate.{parent_at, parent_of}
use arcana.Graph.Forest.{IsRooted}
use arcana.Graph.Indexed.{AllAt, AllAt-append_last, AllAt-set}
use arcana.Graph.Stages.{IsNode}
use arcana.Graph.Accept.{IsRegion, IsEdge, IsPort, IsGraph, region_at}
use arcana.Graph.Growth.{
  bind-eq-some, IsLater, IsRegion-later, IsNode-later, IsEdge-later, IsPort-later, IsRooted-later,
  IsRooted-new,
}

pub graph_init-IsGraph : IsGraph graph_init
unfolding graph_init
graph_init-IsGraph = record {
  regions = λ i r e. absurd (ground arith);
  forest = λ i h. absurd (omega (arith, h));
  nodes = λ i n e. absurd (ground arith);
  edges = λ i e p. absurd (ground arith);
  ports = λ i p e. absurd (ground arith);
}

-- The parent that a region may have.
abbrev pub IsParent : Graph → ℕ → Type 0
IsParent g p = (p ≡ invalid_id) ⊎ (p < length g.regions.items)

length-snoc {ℓ} :
    {A : Type ℓ} (xs ys : List A) (x : A) → ys ≡ xs ++ x ∷ [] → length ys ≡ suc (length xs)
length-snoc xs ys x e = omega (arith, ap length e, length-append xs (x ∷ []))

pub AllAt-pushed {ℓ} :
    {A : Type ℓ} (P : ℕ → A → Type 0) (xs ys : List A) (x : A)
    → ys ≡ xs ++ x ∷ []
    → AllAt P xs
    → P (length xs) x
    → AllAt P ys
AllAt-pushed P xs ys x e h hx = subst (AllAt P) (sym e) (AllAt-append_last P xs x h hx)

pub get_elem?-pushed {ℓ} :
    {A : Type ℓ} (xs ys : List A) (x : A)
    → ys ≡ xs ++ x ∷ []
    → (i : ℕ) (y : A) → get_elem? xs i ≡ some y
    → get_elem? ys i ≡ some y
get_elem?-pushed xs ys x e i y h =
    ap (λ zs. get_elem? zs i) e ∙ get_elem?-append_left xs (x ∷ []) i (lt_of_get_elem? xs i y h) ∙ h

parent-set :
    (xs : List Region) (k : ℕ) (r v : Region) (i : ℕ)
    → get_elem? xs k ≡ some r
    → v.parent ≡ r.parent
    → parent_at (get_elem? (set xs k v) i) ≡ parent_at (get_elem? xs i)
parent-set [] k r v i e p = refl
parent-set (x ∷ xs) zero r v zero e p =
    p ∙ ap (λ (s : Region). s.parent) (sym (some-injective _ _ e))
parent-set (x ∷ xs) zero r v (suc i) e p = refl
parent-set (x ∷ xs) (suc k) r v zero e p = refl
parent-set (x ∷ xs) (suc k) r v (suc i) e p = parent-set xs k r v i e p

module _ (g : Graph) (w : IsGraph g) where
  pub closed :
      (i : ℕ)
      → i < length g.regions.items
      → (parent_of g i ≡ invalid_id) ⊎ (parent_of g i < length g.regions.items)
  closed i h = let (r, e, p) = region_at g i h in rw p (w.regions i r e).parent

  module _ (r : Region) (rs : Vec Region) (e : rs.items ≡ g.regions.items ++ r ∷ []) where
    abbrev grown : Graph
    grown = record g { regions = rs }

    grown-IsLater : IsLater g grown
    grown-IsLater = record {
      regions = omega (arith, length-snoc g.regions.items rs.items r e);
      nodes = omega arith;
      ports = λ i p q. q;
    }

    grown_old : (i : ℕ) → i < length g.regions.items → parent_of grown i ≡ parent_of g i
    unfolding parent_of
    grown_old i h =
        ap parent_at
          (ap (λ xs. get_elem? xs i) e ∙ get_elem?-append_left g.regions.items (r ∷ []) i h)

    grown_new : parent_of grown (length g.regions.items) ≡ r.parent
    unfolding parent_of
    grown_new = ap parent_at (
        ap (λ xs. get_elem? xs (length g.regions.items)) e
        ∙ get_elem?-append_last g.regions.items r)

    pub grown-IsGraph : r.id ≡ length g.regions.items → IsParent g r.parent → IsGraph grown
    grown-IsGraph named parent = record {
      regions =
          AllAt-pushed _ _ _ r e
            (λ i s q. IsRegion-later g grown grown-IsLater i s (w.regions i s q))
            (record {
              id = named;
              parent = elim parent [
                | inl top ↦ inl top
                | inr low ↦ inr (omega (arith, low, grown-IsLater.regions))
              ];
            });
      forest = λ i h. elim (Bool-cases (ltb i (length g.regions.items))) [
        | inl old ↦
            IsRooted-later g grown grown-IsLater grown_old closed i (omega (tests, old))
              (w.forest i (omega (tests, old)))
        | inr new ↦
            let p : length g.regions.items ≡ i =
              omega (tests, new, h, length-snoc g.regions.items rs.items r e) in
            subst (IsRooted grown) p (
              IsRooted-new g grown grown-IsLater grown_old closed (length g.regions.items) r.parent
                grown_new parent w.forest (omega (arith, length-snoc g.regions.items rs.items r e)))
      ];
      nodes = λ i n q. IsNode-later g grown grown-IsLater i n (w.nodes i n q);
      edges = λ i n q. IsEdge-later g grown grown-IsLater i n (w.edges i n q);
      ports = λ i n q. IsPort-later g grown grown-IsLater i n (w.ports i n q);
    }

module _ (g : Graph) (w : IsGraph g) where
  -- The forest of a graph with the same number of regions and the same parents.
  forest_kept :
      (h : Graph)
      → IsLater g h
      → length h.regions.items ≡ length g.regions.items
      → ((i : ℕ) → parent_of h i ≡ parent_of g i)
      → (i : ℕ) → i < length h.regions.items
      → IsRooted h i
  forest_kept h l e same i lt =
      IsRooted-later g h l (λ j q. same j) (closed g w) i (omega (arith, lt, e))
        (w.forest i (omega (arith, lt, e)))

  pub region_add_member-IsGraph :
      (region node : ℕ) (h : Graph) → region_add_member g region node ≡ some h → IsGraph h
  unfolding region_add_member parent_of
  region_add_member-IsGraph region node h e =
      let (r, at_region, e₁) = bind-eq-some _ _ _ e in
      let (ms, _, e₂) = bind-eq-some (push cap_mod 8 r.members node) _ _ e₁ in
      let same = some-injective _ _ e₂ in
      let v : Region = record r { members = ms } in
      let h' : Graph = record g {
        regions = record (g.regions) { items = set g.regions.items region v };
      } in
      let count = length-set g.regions.items region v in
      let l : IsLater g h' = record {
        regions = omega (arith, count);
        nodes = omega arith;
        ports = λ i p q. q;
      } in
      let old = w.regions region r at_region in
      subst IsGraph same (record {
        regions =
            AllAt-set (IsRegion h') g.regions.items region v
              (λ i s q. IsRegion-later g h' l i s (w.regions i s q))
              (IsRegion-later g h' l region v (record { id = old.id; parent = old.parent }));
        forest =
            forest_kept h' l count (λ i. parent-set g.regions.items region r v i at_region refl);
        nodes = λ i n q. IsNode-later g h' l i n (w.nodes i n q);
        edges = λ i n q. IsEdge-later g h' l i n (w.edges i n q);
        ports = λ i n q. IsPort-later g h' l i n (w.ports i n q);
      })

  pub nodes_grown :
      (n : Node) (ns : Vec Node)
      → ns.items ≡ g.nodes.items ++ n ∷ []
      → IsNode g (length g.nodes.items) n
      → IsGraph (record g { nodes = ns })
  unfolding parent_of
  nodes_grown n ns e wn =
      let h : Graph = record g { nodes = ns } in
      let l : IsLater g h = record {
        regions = omega arith;
        nodes = omega (arith, length-snoc g.nodes.items ns.items n e);
        ports = λ i p q. q;
      } in
      record {
        regions = λ i r q. IsRegion-later g h l i r (w.regions i r q);
        forest = forest_kept h l refl (λ i. refl);
        nodes =
            AllAt-pushed (IsNode h) _ _ n e (λ i m q. IsNode-later g h l i m (w.nodes i m q))
              (IsNode-later g h l _ n wn);
        edges = λ i m q. IsEdge-later g h l i m (w.edges i m q);
        ports = λ i m q. IsPort-later g h l i m (w.ports i m q);
      }

  -- The entry of a node is overwritten, and ports are appended or kept.
  pub node_set :
      (ps : Vec Port) (owner : ℕ) (n v : Node)
      → ((i : ℕ) (p : Port) → get_elem? g.ports.items i ≡ some p → get_elem? ps.items i ≡ some p)
      → ((h : Graph) → length g.nodes.items ≤ length h.nodes.items → AllAt (IsPort h) ps.items)
      → IsNode g owner v
      → IsGraph
          (record g { ports = ps; nodes = record (g.nodes) { items = set g.nodes.items owner v } })
  unfolding parent_of
  node_set ps owner n v more ports wv =
      let h : Graph = record g {
        ports = ps;
        nodes = record (g.nodes) { items = set g.nodes.items owner v };
      } in
      let count = length-set g.nodes.items owner v in
      let l : IsLater g h = record {
        regions = omega arith;
        nodes = omega (arith, count);
        ports = more;
      } in
      record {
        regions = λ i r q. IsRegion-later g h l i r (w.regions i r q);
        forest = forest_kept h l refl (λ i. refl);
        nodes =
            AllAt-set (IsNode h) g.nodes.items owner v
              (λ i m q. IsNode-later g h l i m (w.nodes i m q)) (IsNode-later g h l owner v wv);
        edges = λ i m q. IsEdge-later g h l i m (w.edges i m q);
        ports = ports h (omega (arith, count));
      }

  pub edges_grown :
      (e : SemEdge) (es : Vec SemEdge)
      → es.items ≡ g.edges.items ++ e ∷ []
      → IsEdge g (length g.edges.items) e
      → IsGraph (record g { edges = es })
  unfolding parent_of
  edges_grown e es q we =
      let h : Graph = record g { edges = es } in
      let l : IsLater g h = record {
        regions = omega arith;
        nodes = omega arith;
        ports = λ i p q. q;
      } in
      record {
        regions = λ i r q. IsRegion-later g h l i r (w.regions i r q);
        forest = forest_kept h l refl (λ i. refl);
        nodes = λ i m q. IsNode-later g h l i m (w.nodes i m q);
        edges =
            AllAt-pushed (IsEdge h) _ _ e q (λ i m q. IsEdge-later g h l i m (w.edges i m q))
              (IsEdge-later g h l _ e we);
        ports = λ i m q. IsPort-later g h l i m (w.ports i m q);
      }

  pub header_set :
      (root out : ℕ) (owns : Bool)
      → IsGraph (record g { root_region = root; output_node = out; owns_strings = owns })
  unfolding parent_of
  header_set root out owns =
      let h : Graph = record g { root_region = root; output_node = out; owns_strings = owns } in
      let l : IsLater g h = record {
        regions = omega arith;
        nodes = omega arith;
        ports = λ i p q. q;
      } in
      record {
        regions = λ i r q. IsRegion-later g h l i r (w.regions i r q);
        forest = forest_kept h l refl (λ i. refl);
        nodes = λ i m q. IsNode-later g h l i m (w.nodes i m q);
        edges = λ i m q. IsEdge-later g h l i m (w.edges i m q);
        ports = λ i m q. IsPort-later g h l i m (w.ports i m q);
      }
