-- ===== src/Graph/Build.antt =====
-- The construction of graphs in src/semantic_graph/semantic_graph.c. `none` is an access outside an
-- allocated block: a region or owner that does not exist, or a capacity that wrapped.
use arcana.Common.{
  ℕ, false, Option, none, some, List, [], ltb, if◌then◌else◌, length, get_elem?, set,
}
use arcana.Common.Vector.{empty, push}
use arcana.Graph.Types.{invalid_id, NodeKind, PortDir, Port, RegionKind, Region, blank, Node, Graph}

infixl 5 ◌>>=◌
abbrev pub ◌>>=◌ {ℓ κ} : {A : Type ℓ} {B : Type κ} → Option A → (A → Option B) → Option B
none >>= f = none
some a >>= f = f a

-- The arrays have 32-bit counts and capacities.
abbrev pub cap_mod : ℕ
cap_mod = 4294967296

unfoldable pub graph_init : Graph
graph_init = record {
  nodes = empty;
  ports = empty;
  edges = empty;
  regions = empty;
  root_region = invalid_id;
  output_node = invalid_id;
  owns_strings = false;
}

unfoldable pub add_region : Graph → RegionKind → ℕ → Option (Graph × ℕ)
add_region g kind parent = do
  let id = length g.regions.items
  regions ←
      push cap_mod 8 g.regions (record { id = id; parent = parent; kind = kind; members = empty })
  some (record g { regions = regions }, id)

unfoldable pub region_add_member : Graph → ℕ → ℕ → Option Graph
region_add_member g region node = do
  r ← get_elem? g.regions.items region
  members ← push cap_mod 8 r.members node
  some (record g {
    regions = record (g.regions) {
      items = set g.regions.items region (record r { members = members });
    };
  })

unfoldable pub add_node : Graph → NodeKind → ℕ → ℕ → Option (Graph × ℕ)
unfolding region_add_member
add_node g kind region src = do
  let id = length g.nodes.items
  nodes ← push cap_mod 16 g.nodes (record {
    id = id;
    kind = kind;
    region = region;
    source_id = src;
    ports = empty;
    cyclic_order = [];
    attr = blank;
  })
  g' ← region_add_member (record g { nodes = nodes }) region id
  some (g', id)

unfoldable pub add_port : Graph → ℕ → PortDir → Option (List ℕ) → Option (Graph × ℕ)
add_port g owner dir role = do
  let id = length g.ports.items
  ports ← push cap_mod 32 g.ports (record { id = id; owner = owner; dir = dir; role = role })
  n ← get_elem? g.nodes.items owner
  own ← push cap_mod 4 n.ports id
  some (
    record g {
      ports = ports;
      nodes = record (g.nodes) { items = set g.nodes.items owner (record n { ports = own }) };
    },
    id,
  )

unfoldable pub add_edge : Graph → ℕ → ℕ → Option (Graph × ℕ)
add_edge g from to = do
  let id = length g.edges.items
  edges ← push cap_mod 16 g.edges (record { id = id; from = from; to = to })
  some (record g { edges = edges }, id)

-- The order is copied whole.
unfoldable pub set_cyclic_order : Graph → ℕ → List ℕ → Option Graph
set_cyclic_order g node order = do
  n ← get_elem? g.nodes.items node
  some (record g {
    nodes = record (g.nodes) { items = set g.nodes.items node (record n { cyclic_order = order }) };
  })

-- The lookups, `none` for NULL.
unfoldable pub graph_node : Graph → ℕ → Option Node
graph_node g id = if ltb id (length g.nodes.items) then get_elem? g.nodes.items id else none

unfoldable pub graph_port : Graph → ℕ → Option Port
graph_port g id = if ltb id (length g.ports.items) then get_elem? g.ports.items id else none

unfoldable pub graph_region : Graph → ℕ → Option Region
graph_region g id = if ltb id (length g.regions.items) then get_elem? g.regions.items id else none
