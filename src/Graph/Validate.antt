-- ===== src/Graph/Validate.antt =====
-- `arc_graph_validate` of src/semantic_graph/semantic_graph.c. An error is its kind and the index
-- that it names; the array of errors grows without bound.
use arcana.Common.{
  Option, ℕ, zero, suc, Bool, true, false, not, ◌&&◌, ◌||◌, none, some, List, [], ◌∷◌, ◌++◌, ltb,
  leb, ◌==◌, if◌then◌else◌, length, get_elem?,
}
use arcana.Graph.Types.{invalid_id, port_input, port_output, Port, SemEdge, Region, Node, Graph}

pub data GraphError : Type 0 where
  no_root : GraphError
  region_id region_parent region_cycle node_id node_region cyclic_count cyclic_port : ℕ → GraphError
  edge_id edge_from edge_to edge_not_output edge_not_input port_id port_owner : ℕ → GraphError

pub record Validation : Type 0 where
  pub errors : List GraphError
  pub valid : Bool

unfoldable pub vadd : Validation → GraphError → Validation
vadd v e = record { errors = v.errors ++ e ∷ []; valid = false }

abbrev pub vadd_if : Bool → Validation → GraphError → Validation
vadd_if b v e = if b then vadd v e else v

abbrev pub parent_at : Option Region → ℕ
parent_at none = invalid_id
parent_at (some r) = r.parent

-- The parent of a region; where it is called the region exists.
unfoldable pub parent_of : Graph → ℕ → ℕ
parent_of g i = parent_at (get_elem? g.regions.items i)

-- The loop over the ancestors of region `i`, from `cur`, for `depth` rounds.
unfoldable pub finds_cycle : Graph → ℕ → ℕ → ℕ → Bool
unfolding parent_of
finds_cycle g i zero cur = false
finds_cycle g i (suc depth) cur =
    let above = finds_cycle g i depth (parent_of g cur) in
    if cur == invalid_id
    then false
    else if cur == i
    then true
    else if leb (length g.regions.items) cur
    then false
    else above

unfoldable pub validate_region : Graph → ℕ → Region → Validation → Validation
unfolding finds_cycle
validate_region g i r v =
    let count = length g.regions.items in
    let v₁ = vadd_if (not (r.id == i)) v (region_id i) in
    let v₂ = vadd_if (not (r.parent == invalid_id) && leb count r.parent) v₁ (region_parent i) in
    vadd_if (finds_cycle g i count r.parent) v₂ (region_cycle i)

unfoldable pub validate_regions : Graph → ℕ → List Region → Validation → Validation
validate_regions g i [] v = v
validate_regions g i (r ∷ rs) v = validate_regions g (suc i) rs (validate_region g i r v)

unfoldable pub has_port : List ℕ → ℕ → Bool
has_port [] p = false
has_port (q ∷ qs) p = p == q || has_port qs p

unfoldable pub validate_order : ℕ → List ℕ → List ℕ → Validation → Validation
unfolding has_port
validate_order i ports [] v = v
validate_order i ports (p ∷ ps) v =
    validate_order i ports ps (vadd_if (not (has_port ports p)) v (cyclic_port i))

unfoldable pub validate_node : Graph → ℕ → Node → Validation → Validation
unfolding validate_order
validate_node g i n v =
    let v₁ = vadd_if (not (n.id == i)) v (node_id i) in
    let v₂ = vadd_if (leb (length g.regions.items) n.region) v₁ (node_region i) in
    if ltb 0 (length n.cyclic_order)
    then validate_order i n.ports.items n.cyclic_order
        (vadd_if (not (length n.cyclic_order == length n.ports.items)) v₂ (cyclic_count i))
    else v₂

unfoldable pub validate_nodes : Graph → ℕ → List Node → Validation → Validation
validate_nodes g i [] v = v
validate_nodes g i (n ∷ ns) v = validate_nodes g (suc i) ns (validate_node g i n v)

abbrev pub is_output : Port → Bool
is_output p = elim p.dir [ port_output ↦ true | _ ↦ false ]

abbrev pub is_input : Port → Bool
is_input p = elim p.dir [ port_input ↦ true | _ ↦ false ]

-- The port exists and fails the test.
unfoldable pub port_fails : Graph → (Port → Bool) → ℕ → Bool
port_fails g test id = elim (get_elem? g.ports.items id) [ none ↦ false | some p ↦ not (test p) ]

unfoldable pub validate_edge : Graph → ℕ → SemEdge → Validation → Validation
unfolding port_fails
validate_edge g i e v =
    let count = length g.ports.items in
    let v₁ = vadd_if (not (e.id == i)) v (edge_id i) in
    let v₂ = vadd_if (leb count e.from) v₁ (edge_from i) in
    let v₃ = vadd_if (leb count e.to) v₂ (edge_to i) in
    let v₄ = vadd_if (port_fails g is_output e.from) v₃ (edge_not_output i) in
    vadd_if (port_fails g is_input e.to) v₄ (edge_not_input i)

unfoldable pub validate_edges : Graph → ℕ → List SemEdge → Validation → Validation
validate_edges g i [] v = v
validate_edges g i (e ∷ es) v = validate_edges g (suc i) es (validate_edge g i e v)

unfoldable pub validate_port : Graph → ℕ → Port → Validation → Validation
validate_port g i p v =
    vadd_if (leb (length g.nodes.items) p.owner) (vadd_if (not (p.id == i)) v (port_id i))
      (port_owner i)

unfoldable pub validate_ports : Graph → ℕ → List Port → Validation → Validation
validate_ports g i [] v = v
validate_ports g i (p ∷ ps) v = validate_ports g (suc i) ps (validate_port g i p v)

unfoldable pub validate : Graph → Validation
validate g =
    let v₁ = vadd_if (g.root_region == invalid_id) (record { errors = []; valid = true }) no_root in
    let v₂ = validate_regions g 0 g.regions.items v₁ in
    let v₃ = validate_nodes g 0 g.nodes.items v₂ in
    let v₄ = validate_edges g 0 g.edges.items v₃ in validate_ports g 0 g.ports.items v₄
