-- ===== src/Architecture/Tests.antt =====
-- Two sealed regions joined by a channel, and instances of the results of the other modules.
use arcana.Common.{◌==◌, ℕ, ◌≡◌, refl, true, false, none, some, List, [], ◌∷◌, arith}
use arcana.Graph.Types.{
  Node, invalid_id, node_const_int, node_print, port_input, port_output, region_block, int_value,
  blank, Graph, Region,
}
use arcana.Graph.Validate.{
  parent_of, finds_cycle, validate_region, validate_regions, has_port, validate_order,
  validate_node, validate_nodes, port_fails, validate_edge, validate_edges, validate_port,
  validate_ports, vadd, validate,
}
use arcana.Graph.Forest.{ancestor}
use arcana.Graph.Accept.{IsGraph, validate_iff}
use arcana.Architecture.Spec.{
  effect_bit, single, pure_set, RegionSpec, ArchSpec, ArchResult, add_error, node_effect,
  intrinsic_effect,
}
use arcana.Architecture.Effects.{
  inner_regions, callee, own_effect, find_func_def, trace_call, visit_node, visit_member,
  visit_children, visit_region, collect_region_effects, report_bits, region_effects, verify_effects,
}
use arcana.Architecture.Boundaries.{
  sealed_spec, find_sealed_ancestor, has_channel, port_region, crossing, sealed_ancestor,
  check_regions, verify_edge, verify_boundaries, arch_verify,
}
use arcana.Architecture.Effects.Complete.{here}
use arcana.Architecture.Ancestors.{IsInnermost}
use arcana.Architecture.Crossing.{IsDeclared}
use arcana.Architecture.Verdict.{arch_verify-capabilities, arch_verify-IsDeclared}

abbrev region_of : ℕ → ℕ → List ℕ → Region
region_of id parent members = record {
  id = id;
  parent = parent;
  kind = region_block;
  members = record { items = members; cap = 8 };
}

abbrev printer : Node
printer = record {
  id = 1;
  kind = node_print;
  region = 2;
  source_id = 0;
  ports = record { items = 1 ∷ []; cap = 4 };
  cyclic_order = [];
  attr = blank;
}

abbrev first_sealed : RegionSpec
first_sealed = record { region = 1; is_sealed = true; capabilities = pure_set }

-- The second bit is that of the logger.
abbrev second_sealed : RegionSpec
second_sealed = record { region = 2; is_sealed = true; capabilities = λ b. b == 1 }

abbrev two_regions : Graph
two_regions = record {
  nodes = record {
    items =
        record {
          id = 0;
          kind = node_const_int;
          region = 1;
          source_id = 0;
          ports = record { items = 0 ∷ []; cap = 4 };
          cyclic_order = [];
          attr = int_value 5;
        }
        ∷ printer
        ∷ [];
    cap = 16;
  };
  ports = record {
    items =
        record { id = 0; owner = 0; dir = port_output; role = none }
        ∷ record { id = 1; owner = 1; dir = port_input; role = none }
        ∷ [];
    cap = 32;
  };
  edges = record { items = record { id = 0; from = 0; to = 1 } ∷ []; cap = 16 };
  regions = record {
    items = region_of 0 invalid_id [] ∷ region_of 1 0 (0 ∷ []) ∷ region_of 2 0 (1 ∷ []) ∷ [];
    cap = 8;
  };
  root_region = 0;
  output_node = 1;
  owns_strings = false;
}

abbrev two_sealed : ArchSpec
two_sealed = record {
  regions = first_sealed ∷ second_sealed ∷ [];
  channels = record { from_region = 2; to_region = 1 } ∷ [];
}

two_regions-IsGraph : IsGraph two_regions
unfolding validate validate_regions validate_region finds_cycle parent_of validate_nodes
    validate_node validate_order has_port validate_edges validate_edge port_fails validate_ports
    validate_port vadd
two_regions-IsGraph = ((validate_iff two_regions (omega arith)).0 refl).1

accepted : ArchResult
accepted = record { errors = []; valid = true }

arch_verify-two_regions : arch_verify two_regions two_sealed ≡ some accepted
unfolding accepted effect_bit single node_effect intrinsic_effect add_error inner_regions callee
    own_effect find_func_def trace_call visit_node visit_member visit_children visit_region
    collect_region_effects report_bits region_effects verify_effects sealed_spec
    find_sealed_ancestor has_channel port_region crossing sealed_ancestor check_regions verify_edge
    verify_boundaries arch_verify
arch_verify-two_regions = refl

arch_verify-capabilities_example : second_sealed.capabilities 1 ≡ true
unfolding accepted effect_bit single node_effect intrinsic_effect own_effect
arch_verify-capabilities_example =
    arch_verify-capabilities two_regions two_sealed two_regions-IsGraph (omega arith) accepted 1
      second_sealed 2 printer 1 arch_verify-two_regions refl refl refl (omega arith) here
      (_, 1, refl, (0, refl), refl) (omega arith) refl

sealed_at_one : IsInnermost two_regions two_sealed.regions 1 first_sealed 0
unfolding ancestor sealed_spec
sealed_at_one = record {
  above = refl;
  exists = omega arith;
  spec = refl;
  first = λ c h. absurd (omega (arith, h));
}

sealed_at_two : IsInnermost two_regions two_sealed.regions 2 second_sealed 0
unfolding ancestor sealed_spec
sealed_at_two = record {
  above = refl;
  exists = omega arith;
  spec = refl;
  first = λ c h. absurd (omega (arith, h));
}

arch_verify-IsDeclared_example : IsDeclared two_sealed.channels 1 2
unfolding accepted port_region
arch_verify-IsDeclared_example =
    arch_verify-IsDeclared two_regions two_sealed two_regions-IsGraph (omega arith) accepted 0
      (record { id = 0; from = 0; to = 1 }) 1 2 first_sealed second_sealed 0 0
      arch_verify-two_regions refl refl refl refl sealed_at_one sealed_at_two
      (λ e. absurd (omega (arith, e)))
