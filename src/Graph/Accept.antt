-- ===== src/Graph/Accept.antt =====
-- What `arc_graph_validate` accepts.
use arcana.Common.{
  ℕ, suc, ◌≤◌, ◌<◌, ◌≡◌, ◌≢◌, ◌↔◌, refl, ◌⊎◌, Bool, true, false, not, some, List, [], ◌∷◌, arith,
  leb, ◌==◌, length, get_elem?, get_elem?-lt, lt_of_get_elem?,
}
use arcana.Graph.Types.{invalid_id, Port, SemEdge, Region, Graph}
use arcana.Graph.Validate.{
  Validation, vadd_if, parent_of, finds_cycle, validate_regions, validate_nodes, is_output,
  is_input, port_fails, validate_edge, validate_edges, validate_port, validate_ports, validate,
  edge_id, edge_from, edge_to, edge_not_output, edge_not_input, port_id, port_owner, no_root,
}
use arcana.Graph.Forest.{IsRooted, IsAcyclic, IsRooted-acyclic, no_cycle-rooted}
use arcana.Graph.Indexed.{AllFrom, AllAt, AllFrom-iff}
use arcana.Graph.Stages.{
  Stage, Stage-then, Stage-iff, vadd_if-Stage, same_iff, past_iff, not-eq-false_iff,
  IsCheckedRegion, validate_regions-Stage, IsNode, validate_nodes-Stage,
}

-- A port with the number exists and passes the test.
abbrev pub IsPortWith : Graph → (Port → Bool) → ℕ → Type 0
IsPortWith g test id = (p : Port) × (get_elem? g.ports.items id ≡ some p) × (test p ≡ true)

-- An edge names its index and leads from an output to an input.
pub record IsEdge (g : Graph) (i : ℕ) (e : SemEdge) : Type 0 where
  pub id : e.id ≡ i
  pub from : IsPortWith g is_output e.from
  pub to : IsPortWith g is_input e.to

port_iff :
    (g : Graph) (test : Port → Bool) (id : ℕ)
    → ((leb (length g.ports.items) id ≡ false) × (port_fails g test id ≡ false))
      ↔ IsPortWith g test id
unfolding port_fails
port_iff g test id = (
  λ (a, b).
      let (p, e) = get_elem?-lt g.ports.items id ((past_iff _ _).0 a) in
      (p, e, (not-eq-false_iff (test p)).0 (rw (e, port_fails) at b)),
  λ (p, e, ok). (
    (past_iff _ _).1 (lt_of_get_elem? g.ports.items id p e),
    rw (e, port_fails) ((not-eq-false_iff (test p)).1 ok),
  ),
)

validate_edge-Stage :
    (g : Graph) (i : ℕ) (e : SemEdge) (v : Validation)
    → Stage v (validate_edge g i e v) (IsEdge g i e)
unfolding validate_edge
validate_edge-Stage g i e v =
    let count = length g.ports.items in
    let wrong = not (e.id == i) in
    let v₁ = vadd_if wrong v (edge_id i) in
    let v₂ = vadd_if (leb count e.from) v₁ (edge_from i) in
    let v₃ = vadd_if (leb count e.to) v₂ (edge_to i) in
    let v₄ = vadd_if (port_fails g is_output e.from) v₃ (edge_not_output i) in
    let last = validate_edge g i e v in
    Stage-iff v last
      (Stage-then v v₁ last (vadd_if-Stage wrong v (edge_id i)) (
        Stage-then v₁ v₂ last (vadd_if-Stage (leb count e.from) v₁ (edge_from i)) (
          Stage-then v₂ v₃ last (vadd_if-Stage (leb count e.to) v₂ (edge_to i)) (
            Stage-then v₃ v₄ last
              (vadd_if-Stage (port_fails g is_output e.from) v₃ (edge_not_output i))
              (vadd_if-Stage (port_fails g is_input e.to) v₄ (edge_not_input i))))))
      (
        λ (a, (b, (c, (d, f)))). record {
          id = (same_iff _ _).0 a;
          from = (port_iff g is_output e.from).0 (b, d);
          to = (port_iff g is_input e.to).0 (c, f);
        },
        λ h.
            let (b, d) = (port_iff g is_output e.from).1 h.from in
            let (c, f) = (port_iff g is_input e.to).1 h.to in
            ((same_iff _ _).1 h.id, (b, (c, (d, f)))),
      )

validate_edges-Stage :
    (g : Graph) (i : ℕ) (es : List SemEdge) (v : Validation)
    → Stage v (validate_edges g i es v) (AllFrom (IsEdge g) i es)
unfolding validate_edges
validate_edges-Stage g i [] v = (λ h. (h, tt), λ h. h.0)
validate_edges-Stage g i (e ∷ es) v =
    let v₁ = validate_edge g i e v in
    Stage-then v v₁ (validate_edges g (suc i) es v₁) (validate_edge-Stage g i e v)
      (validate_edges-Stage g (suc i) es v₁)

-- A port names its index and belongs to a node.
pub record IsPort (g : Graph) (i : ℕ) (p : Port) : Type 0 where
  pub id : p.id ≡ i
  pub owner : p.owner < length g.nodes.items

validate_port-Stage :
    (g : Graph) (i : ℕ) (p : Port) (v : Validation) → Stage v (validate_port g i p v) (IsPort g i p)
unfolding validate_port
validate_port-Stage g i p v =
    let v₁ = vadd_if (not (p.id == i)) v (port_id i) in
    Stage-iff v (validate_port g i p v)
      (Stage-then v v₁ (validate_port g i p v) (vadd_if-Stage (not (p.id == i)) v (port_id i))
        (vadd_if-Stage (leb (length g.nodes.items) p.owner) v₁ (port_owner i)))
      (
        λ (a, b). record { id = (same_iff _ _).0 a; owner = (past_iff _ _).0 b },
        λ h. ((same_iff _ _).1 h.id, (past_iff _ _).1 h.owner),
      )

validate_ports-Stage :
    (g : Graph) (i : ℕ) (ps : List Port) (v : Validation)
    → Stage v (validate_ports g i ps v) (AllFrom (IsPort g) i ps)
unfolding validate_ports
validate_ports-Stage g i [] v = (λ h. (h, tt), λ h. h.0)
validate_ports-Stage g i (p ∷ ps) v =
    let v₁ = validate_port g i p v in
    Stage-then v v₁ (validate_ports g (suc i) ps v₁) (validate_port-Stage g i p v)
      (validate_ports-Stage g (suc i) ps v₁)

-- What the four loops check.
record IsChecked (g : Graph) : Type 0 where
  pub root : g.root_region ≢ invalid_id
  pub regions : AllFrom (IsCheckedRegion g) 0 g.regions.items
  pub nodes : AllFrom (IsNode g) 0 g.nodes.items
  pub edges : AllFrom (IsEdge g) 0 g.edges.items
  pub ports : AllFrom (IsPort g) 0 g.ports.items

not_same_iff : (a b : ℕ) → (a == b ≡ false) ↔ (a ≢ b)
not_same_iff a b = (λ h e. absurd (ground arith), λ h. ground (arith, h))

validate-IsChecked_iff : (g : Graph) → ((validate g).valid ≡ true) ↔ IsChecked g
unfolding validate
validate-IsChecked_iff g =
    let v : Validation = record { errors = []; valid = true } in
    let v₁ = vadd_if (g.root_region == invalid_id) v no_root in
    let v₂ = validate_regions g 0 g.regions.items v₁ in
    let v₃ = validate_nodes g 0 g.nodes.items v₂ in
    let v₄ = validate_edges g 0 g.edges.items v₃ in
    let last = validate_ports g 0 g.ports.items v₄ in
    let (f, b) = Stage-then v v₁ last (vadd_if-Stage (g.root_region == invalid_id) v no_root) (
      Stage-then v₁ v₂ last (validate_regions-Stage g 0 g.regions.items v₁) (
        Stage-then v₂ v₃ last (validate_nodes-Stage g 0 g.nodes.items v₂) (
          Stage-then v₃ v₄ last (validate_edges-Stage g 0 g.edges.items v₃)
            (validate_ports-Stage g 0 g.ports.items v₄)))) in
    (
      λ h.
          let (_, (r, (a, (c, (d, e))))) = f h in
          record { root = (not_same_iff _ _).0 r; regions = a; nodes = c; edges = d; ports = e },
      λ w. b (refl, ((not_same_iff _ _).1 w.root, (w.regions, (w.nodes, (w.edges, w.ports))))),
    )

-- A region names its index, and a parent that exists or none.
pub record IsRegion (g : Graph) (i : ℕ) (r : Region) : Type 0 where
  pub id : r.id ≡ i
  pub parent : (r.parent ≡ invalid_id) ⊎ (r.parent < length g.regions.items)

-- The regions, nodes, edges and ports of a graph are well formed, and from each region the parents
-- lead to the top.
pub record IsGraph (g : Graph) : Type 0 where
  pub regions : AllAt (IsRegion g) g.regions.items
  pub forest : (i : ℕ) → i < length g.regions.items → IsRooted g i
  pub nodes : AllAt (IsNode g) g.nodes.items
  pub edges : AllAt (IsEdge g) g.edges.items
  pub ports : AllAt (IsPort g) g.ports.items

pub region_at :
    (g : Graph) (i : ℕ)
    → i < length g.regions.items
    → (r : Region) × (get_elem? g.regions.items i ≡ some r) × (parent_of g i ≡ r.parent)
unfolding parent_of
region_at g i h = let (r, e) = get_elem?-lt g.regions.items i h in (r, e, rw (e, parent_of))

IsAcyclic-of_checked : (g : Graph) → AllAt (IsCheckedRegion g) g.regions.items → IsAcyclic g
IsAcyclic-of_checked g h = record {
  parents = λ i lt. let (r, e, p) = region_at g i lt in rw p (h i r e).parent;
  no_cycle = λ i lt. let (r, e, p) = region_at g i lt in rw p (h i r e).no_cycle;
}

module _ (g : Graph) (small : length g.regions.items ≤ invalid_id) where
  no_cycle_at :
      (k : ℕ) (r : Region)
      → ((i : ℕ) → i < length g.regions.items → IsRooted g i)
      → get_elem? g.regions.items k ≡ some r
      → finds_cycle g k (length g.regions.items) r.parent ≡ false
  unfolding parent_of
  no_cycle_at k r forest e =
      let h = lt_of_get_elem? g.regions.items k r e in
      let q : parent_of g k ≡ r.parent = rw (e, parent_of) in
      rw q at (no_cycle-rooted g small k h (forest k h))

-- With at most 2 ^ 32 - 1 regions the verdict of the validation is positive exactly if the root is
-- set, every region, node, edge and port is named by its index, the parents of regions, the regions
-- of nodes and the owners of ports exist, from each region the parents lead to the top, a cyclic
-- order that is not empty has as many entries as the node has ports and each entry is one of its
-- ports, and each edge leads from an existing output to an existing input. Nothing more is checked:
-- a cyclic order may repeat a port and leave another out, and an input may have no edge, against
-- rules 6 and 7 of spec/semantic-graph/graph-model.md.
pub validate_iff :
    (g : Graph)
    → length g.regions.items ≤ invalid_id
    → ((validate g).valid ≡ true) ↔ ((g.root_region ≢ invalid_id) × IsGraph g)
validate_iff g small = (
  λ v.
      let c = (validate-IsChecked_iff g).0 v in
      let regions = (AllFrom-iff _ _).0 c.regions in
      (
        c.root,
        record {
          regions = λ k r e. let w = regions k r e in record { id = w.id; parent = w.parent };
          forest = λ i h. IsRooted-acyclic g small i (IsAcyclic-of_checked g regions) h;
          nodes = (AllFrom-iff _ _).0 c.nodes;
          edges = (AllFrom-iff _ _).0 c.edges;
          ports = (AllFrom-iff _ _).0 c.ports;
        },
      ),
  λ (root, w). (validate-IsChecked_iff g).1 (record {
    root = root;
    regions = (AllFrom-iff _ _).1 (λ k r e.
        let v = w.regions k r e in
        record { id = v.id; parent = v.parent; no_cycle = no_cycle_at g small k r w.forest e });
    nodes = (AllFrom-iff _ _).1 w.nodes;
    edges = (AllFrom-iff _ _).1 w.edges;
    ports = (AllFrom-iff _ _).1 w.ports;
  }),
)
