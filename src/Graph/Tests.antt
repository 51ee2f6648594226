-- ===== src/Graph/Tests.antt =====
-- A program that prints a constant, built and validated, and instances of the results of the other
-- modules.
use arcana.Common.{ℕ, ◌≡◌, ◌≢◌, ◌↔◌, refl, inl, true, false, Option, none, some, [], ◌∷◌, arith}
use arcana.Common.Vector.{push, grown_cap}
use arcana.Graph.Types.{
  invalid_id, node_const_int, node_print, port_input, port_output, region_module, Graph,
}
use arcana.Graph.Build.{
  graph_init, add_region, region_add_member, add_node, add_port, add_edge, set_cyclic_order,
}
use arcana.Graph.Validate.{
  parent_of, finds_cycle, validate_region, validate_regions, has_port, validate_order,
  validate_node, validate_nodes, port_fails, validate_edge, validate_edges, validate_port,
  validate_ports, vadd, validate,
}
use arcana.Graph.Accept.{IsGraph, validate_iff}
use arcana.Graph.History.{
  Built, initial, with_region, with_node, with_port, with_edge, with_header, Built-validates,
}

abbrev built : Option (Graph × ℕ) → Graph
built none = graph_init
built (some (g, id)) = g

abbrev rooted : Graph
rooted = built (add_region graph_init region_module invalid_id)

abbrev constant : Graph
constant = built (add_node rooted node_const_int 0 7)

abbrev printing : Graph
printing = built (add_node constant node_print 0 8)

abbrev source : Graph
source = built (add_port printing 0 port_output none)

abbrev target : Graph
target = built (add_port source 1 port_input none)

abbrev linked : Graph
linked = built (add_edge target 0 1)

abbrev printer : Graph
printer = record linked { root_region = 0; output_node = 1; owns_strings = false }

printer-Built : Built printer
unfolding graph_init add_region region_add_member add_node add_port add_edge push grown_cap
printer-Built = with_header linked 0 1 false (
    with_edge target linked 0 1 0
      (with_port source target 1 _ port_input none 1
        (with_port printing source 0 _ port_output none 0
          (with_node constant printing node_print 0 8 1
            (with_node rooted constant node_const_int 0 7 0
              (with_region graph_init rooted region_module invalid_id 0 initial (inl refl) refl)
              refl)
            refl)
          refl refl refl)
        refl refl refl)
      (_, refl, refl) (_, refl, refl) refl)

Built-validates_example : (validate printer).valid ≡ true
unfolding graph_init add_region region_add_member add_node add_port add_edge push grown_cap
Built-validates_example =
    Built-validates printer printer-Built (omega arith) (λ e. absurd (omega (arith, e)))

validate_iff_example :
    ((validate printer).valid ≡ true) ↔ ((printer.root_region ≢ invalid_id) × IsGraph printer)
unfolding graph_init add_region region_add_member add_node add_port add_edge push grown_cap
validate_iff_example = validate_iff printer (omega arith)

-- A node with two ports whose cyclic order names the first of them twice.
abbrev twice : Graph
twice = elim (set_cyclic_order (built (add_port printer 0 port_output none)) 0 (0 ∷ 0 ∷ [])) [
  | none ↦ graph_init
  | some g ↦ g
]

validate-twice : (validate twice).valid ≡ true
unfolding graph_init add_region region_add_member add_node add_port add_edge push grown_cap validate
    validate_regions validate_region finds_cycle parent_of validate_nodes validate_node
    validate_order has_port validate_edges validate_edge port_fails validate_ports validate_port
    vadd set_cyclic_order
validate-twice = refl

-- The input of the print node has no edge.
validate-unconnected : (validate (record target { root_region = 0 })).valid ≡ true
unfolding graph_init add_region region_add_member add_node add_port add_edge push grown_cap validate
    validate_regions validate_region finds_cycle parent_of validate_nodes validate_node
    validate_order has_port validate_edges validate_edge port_fails validate_ports validate_port
    vadd
validate-unconnected = refl

validate-printer : validate printer ≡ record { errors = []; valid = true }
unfolding graph_init add_region region_add_member add_node add_port add_edge push grown_cap validate
    validate_regions validate_region finds_cycle parent_of validate_nodes validate_node
    validate_order has_port validate_edges validate_edge port_fails validate_ports validate_port
    vadd
validate-printer = refl
