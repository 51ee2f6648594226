-- ===== src/Graph/History.antt =====
-- The graphs that programs build with the operations of src/semantic_graph/semantic_graph.c, and the
-- verdict on them.
use arcana.Common.{
  ℕ, ◌≤◌, ◌≡◌, ◌≢◌, Bool, true, Option, some, List, [], length, get_elem?, set, arith,
}
use arcana.Graph.Types.{invalid_id, NodeKind, PortDir, RegionKind, Attr, Node, Graph}
use arcana.Graph.Build.{graph_init, add_region, add_node, add_port, add_edge, set_cyclic_order}
use arcana.Graph.Validate.{is_output, is_input, validate}
use arcana.Graph.Stages.{IsOrder}
use arcana.Graph.Accept.{IsPortWith, IsGraph, validate_iff}
use arcana.Graph.Changes.{IsParent, graph_init-IsGraph, node_set, header_set}
use arcana.Graph.Steps.{
  add_region-IsGraph, add_node-IsGraph, add_port-IsGraph, add_edge-IsGraph,
  set_cyclic_order-IsGraph,
}

-- The graphs built by calls whose arguments exist. `with_header` and `with_attribute` are the assignments that
-- the callers make to the fields of the graph and of a node.
pub data Built : Graph → Type 0 where
  initial : Built graph_init
  with_region :
      (g h : Graph) (kind : RegionKind) (parent id : ℕ)
      → Built g
      → IsParent g parent
      → add_region g kind parent ≡ some (h, id)
      → Built h
  with_node :
      (g h : Graph) (kind : NodeKind) (region src id : ℕ)
      → Built g
      → add_node g kind region src ≡ some (h, id)
      → Built h
  with_port :
      (g h : Graph) (owner : ℕ) (n : Node) (dir : PortDir) (role : Option (List ℕ)) (id : ℕ)
      → Built g
      → get_elem? g.nodes.items owner ≡ some n
      → n.cyclic_order ≡ []
      → add_port g owner dir role ≡ some (h, id)
      → Built h
  with_edge :
      (g h : Graph) (from to id : ℕ)
      → Built g
      → IsPortWith g is_output from
      → IsPortWith g is_input to
      → add_edge g from to ≡ some (h, id)
      → Built h
  with_order :
      (g h : Graph) (node : ℕ) (n : Node) (ports : List ℕ)
      → Built g
      → get_elem? g.nodes.items node ≡ some n
      → IsOrder n.ports.items ports
      → set_cyclic_order g node ports ≡ some h
      → Built h
  with_header :
      (g : Graph) (root out : ℕ) (owns : Bool)
      → Built g
      → Built (record g { root_region = root; output_node = out; owns_strings = owns })
  with_attribute :
      (g : Graph) (node : ℕ) (n : Node) (a : Attr)
      → Built g
      → get_elem? g.nodes.items node ≡ some n
      → Built (record g {
        nodes = record (g.nodes) { items = set g.nodes.items node (record n { attr = a }) };
      })

Built-IsGraph : (g : Graph) → Built g → IsGraph g
Built-IsGraph _ initial = graph_init-IsGraph
Built-IsGraph _ (with_region g h kind parent id b p e) =
    add_region-IsGraph g kind parent h id (Built-IsGraph g b) p e
Built-IsGraph _ (with_node g h kind region src id b e) =
    add_node-IsGraph g kind region src h id (Built-IsGraph g b) e
Built-IsGraph _ (with_port g h owner n dir role id b e u p) =
    add_port-IsGraph g owner n dir role h id (Built-IsGraph g b) e u p
Built-IsGraph _ (with_edge g h from to id b s t e) =
    add_edge-IsGraph g from to h id (Built-IsGraph g b) s t e
Built-IsGraph _ (with_order g h node n ports b e o p) =
    set_cyclic_order-IsGraph g node n ports h (Built-IsGraph g b) e o p
Built-IsGraph _ (with_header g root out owns b) = header_set g (Built-IsGraph g b) root out owns
Built-IsGraph _ (with_attribute g node n a b e) =
    let w = Built-IsGraph g b in
    let old = w.nodes node n e in
    node_set g w g.ports node n (record n { attr = a }) (λ i p q. q)
      (λ k le i p q.
        let v = w.ports i p q in record { id = v.id; owner = omega (arith, v.owner, le) })
      (record { id = old.id; region = old.region; order = old.order })

-- A graph built from the empty one is accepted once its root is set, if it has at most 2 ^ 32 - 1
-- regions: each new region is under the top or an existing region, ports are added to nodes without
-- a cyclic order, edges lead from outputs to inputs, and a cyclic order is set to as many entries as
-- its node has ports, each one of these ports. The order may repeat a port and inputs may stay
-- unconnected, and the graph is accepted all the same.
pub Built-validates :
    (g : Graph)
    → Built g
    → length g.regions.items ≤ invalid_id
    → g.root_region ≢ invalid_id
    → (validate g).valid ≡ true
Built-validates g b small root = (validate_iff g small).1 (root, Built-IsGraph g b)
