-- ===== src/Graph/Types.antt =====
-- The data of src/semantic_graph/semantic_graph.h. Identifiers are indices; a name is its bytes,
-- `none` for NULL. The counts of the source are the lengths of the lists.
use arcana.Common.{ℕ, Bool, Option, List}
use arcana.Common.Vector.{Vec}

-- `ARC_INVALID_ID`, UINT32_MAX.
abbrev pub invalid_id : ℕ
invalid_id = 4294967295

pub data NodeKind : Type 0 where
  node_const_int node_const_float node_const_bool node_const_null : NodeKind
  node_add node_sub node_mul node_div node_mod node_neg : NodeKind
  node_eq node_neq node_lt node_le node_gt node_ge node_not : NodeKind
  node_if node_while node_let node_var_ref node_assign : NodeKind
  node_func_def node_func_call node_param node_return : NodeKind
  node_print node_root_output node_sequence node_const_string node_and node_or : NodeKind
  node_bit_and node_bit_or node_bit_xor node_bit_not node_shl node_shr : NodeKind
  node_cast_i64 node_cast_f64 node_cast_str : NodeKind
  node_array_literal node_map_literal node_index_get node_index_set : NodeKind
  node_str_len node_str_slice node_str_index node_length : NodeKind
  node_try node_throw node_closure node_intrinsic_call node_break_if node_cycle : NodeKind
  node_record_new node_field_get node_field_set : NodeKind
  node_thread_spawn node_thread_join node_mutex_new node_mutex_lock node_mutex_unlock : NodeKind
  node_chan_new node_chan_send node_chan_recv : NodeKind

pub data PortDir : Type 0 where
  port_input port_output port_bidirectional : PortDir

pub record Port : Type 0 where
  pub id : ℕ
  pub owner : ℕ
  pub dir : PortDir
  pub role : Option (List ℕ)

pub record SemEdge : Type 0 where
  pub id : ℕ
  pub from : ℕ
  pub to : ℕ

pub data RegionKind : Type 0 where
  region_module region_function region_block region_then region_else : RegionKind
  region_loop_body region_try_body region_catch_body region_cycle : RegionKind

pub record Region : Type 0 where
  pub id : ℕ
  pub parent : ℕ
  pub kind : RegionKind
  pub members : Vec ℕ

-- The union `attr`, with a case for each of its members; `blank` is the zeroed union.
pub data Attr : Type 0 where
  blank : Attr
  int_value float_value : ℕ → Attr
  bool_value : Bool → Attr
  name : Option (List ℕ) → Attr
  func : Option (List ℕ) → ℕ → ℕ → Attr
  branch_regions : ℕ → ℕ → Attr
  loop_region : ℕ → Attr
  string_value : List ℕ → Attr
  try_regions : ℕ → ℕ → Attr
  collection : ℕ → Attr
  intrinsic : ℕ → Attr
  cycle_region : ℕ → Attr

pub record Node : Type 0 where
  pub id : ℕ
  pub kind : NodeKind
  pub region : ℕ
  pub source_id : ℕ
  pub ports : Vec ℕ
  pub cyclic_order : List ℕ
  pub attr : Attr

pub record Graph : Type 0 where
  pub nodes : Vec Node
  pub ports : Vec Port
  pub edges : Vec SemEdge
  pub regions : Vec Region
  pub root_region : ℕ
  pub output_node : ℕ
  pub owns_strings : Bool
