-- ===== src/Graph/Steps.antt =====
-- Each building operation, called with what exists, keeps a graph well formed.
use mathlib.Core.Option.{some-injective}
use arcana.Common.{
  ℕ, ◌<◌, ◌≡◌, refl, sym, ap, ◌∙◌, subst, inl, Option, some, List, [], arith, length, get_elem?,
  lt_of_get_elem?,
}
use arcana.Common.Vector.{push}
use arcana.Graph.Types.{NodeKind, PortDir, RegionKind, Node, Graph}
use arcana.Graph.Build.{
  cap_mod, add_region, region_add_member, add_node, add_port, add_edge, set_cyclic_order,
}
use arcana.Graph.Validate.{is_output, is_input}
use arcana.Graph.Stages.{IsOrder}
use arcana.Graph.Accept.{IsPortWith, IsPort, IsGraph}
use arcana.Graph.Growth.{bind-eq-some, push-items}
use arcana.Graph.Changes.{
  IsParent, AllAt-pushed, get_elem?-pushed, grown-IsGraph, nodes_grown, node_set, edges_grown,
  region_add_member-IsGraph,
}

-- A region under the top or an existing region.
pub add_region-IsGraph :
    (g : Graph) (kind : RegionKind) (parent : ℕ) (h : Graph) (id : ℕ)
    → IsGraph g
    → IsParent g parent
    → add_region g kind parent ≡ some (h, id)
    → IsGraph h
unfolding add_region
add_region-IsGraph g kind parent h id w p e =
    let (rs, pushed, done) = bind-eq-some _ _ _ e in
    let same = some-injective _ _ done in
    subst IsGraph (ap (λ (t : Graph × ℕ). t.0) same)
      (grown-IsGraph g w _ rs (push-items _ _ _ _ _ pushed) refl p)

region_add_member-lt :
    (g : Graph) (region node : ℕ) (h : Graph)
    → region_add_member g region node ≡ some h
    → region < length g.regions.items
unfolding region_add_member
region_add_member-lt g region node h e =
    let (r, at_region, _) = bind-eq-some _ _ _ e in
    lt_of_get_elem? g.regions.items region r at_region

-- A node in an existing region.
pub add_node-IsGraph :
    (g : Graph) (kind : NodeKind) (region src : ℕ) (h : Graph) (id : ℕ)
    → IsGraph g
    → add_node g kind region src ≡ some (h, id)
    → IsGraph h
unfolding add_node
add_node-IsGraph g kind region src h id w e =
    let (ns, pushed, e₁) = bind-eq-some _ _ _ e in
    let (g', added, e₂) = bind-eq-some _ _ _ e₁ in
    let same = some-injective _ _ e₂ in
    subst IsGraph (ap (λ (t : Graph × ℕ). t.0) same) (
      region_add_member-IsGraph (record g { nodes = ns })
        (nodes_grown g w _ ns (push-items _ _ _ _ _ pushed) (record {
          id = refl;
          region = region_add_member-lt _ region _ g' added;
          order = inl refl;
        }))
        region _ g' added)

-- A port of an existing node without a cyclic order.
pub add_port-IsGraph :
    (g : Graph) (owner : ℕ) (n : Node) (dir : PortDir) (role : Option (List ℕ)) (h : Graph) (id : ℕ)
    → IsGraph g
    → get_elem? g.nodes.items owner ≡ some n
    → n.cyclic_order ≡ []
    → add_port g owner dir role ≡ some (h, id)
    → IsGraph h
unfolding add_port
add_port-IsGraph g owner n dir role h id w at_owner unordered e =
    let (ps, pushed, e₁) = bind-eq-some _ _ _ e in
    let (m, found, e₂) = bind-eq-some _ _ _ e₁ in
    let (own, _, e₃) = bind-eq-some (push cap_mod 4 m.ports (length g.ports.items)) _ _ e₂ in
    let same = some-injective _ _ e₃ in
    let old = w.nodes owner m found in
    let items = push-items _ _ _ _ _ pushed in
    let empty_order : m.cyclic_order ≡ [] =
      ap (λ (k : Node). k.cyclic_order) (some-injective _ _ (sym found ∙ at_owner)) ∙ unordered in
    subst IsGraph (ap (λ (t : Graph × ℕ). t.0) same) (
      node_set g w ps owner m (record m { ports = own })
        (get_elem?-pushed g.ports.items ps.items _ items)
        (λ k le.
          AllAt-pushed (IsPort k) _ _ _ items
            (λ i p q.
              let v = w.ports i p q in record { id = v.id; owner = omega (arith, v.owner, le) })
            (record {
              id = refl;
              owner = omega (arith, le, lt_of_get_elem? g.nodes.items owner m found);
            }))
        (record { id = old.id; region = old.region; order = inl empty_order }))

-- An edge from an output to an input.
pub add_edge-IsGraph :
    (g : Graph) (from to : ℕ) (h : Graph) (id : ℕ)
    → IsGraph g
    → IsPortWith g is_output from
    → IsPortWith g is_input to
    → add_edge g from to ≡ some (h, id)
    → IsGraph h
unfolding add_edge
add_edge-IsGraph g from to h id w source target e =
    let (es, pushed, e₁) = bind-eq-some _ _ _ e in
    let same = some-injective _ _ e₁ in
    subst IsGraph (ap (λ (t : Graph × ℕ). t.0) same) (
      edges_grown g w _ es (push-items _ _ _ _ _ pushed)
        (record { id = refl; from = source; to = target }))

-- An order of the ports of an existing node.
pub set_cyclic_order-IsGraph :
    (g : Graph) (node : ℕ) (n : Node) (order : List ℕ) (h : Graph)
    → IsGraph g
    → get_elem? g.nodes.items node ≡ some n
    → IsOrder n.ports.items order
    → set_cyclic_order g node order ≡ some h
    → IsGraph h
unfolding set_cyclic_order
set_cyclic_order-IsGraph g node n order h w at_node o e =
    let (m, found, e₁) = bind-eq-some _ _ _ e in
    let same = some-injective _ _ e₁ in
    let old = w.nodes node m found in
    let p = some-injective _ _ (sym at_node ∙ found) in
    subst IsGraph same (
      node_set g w g.ports node m (record m { cyclic_order = order }) (λ i p q. q)
        (λ k le i p q.
          let v = w.ports i p q in record { id = v.id; owner = omega (arith, v.owner, le) })
        (record {
          id = old.id;
          region = old.region;
          order = subst (λ (k : Node). IsOrder k.ports.items order) p o;
        }))
