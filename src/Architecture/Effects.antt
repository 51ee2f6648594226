-- ===== src/Architecture/Effects.antt =====
-- `collect_region_effects` and `verify_effects` of src/verifier/architecture.c. Where they are called
-- the graph is validated, so the `id` of a node is its index.
pub mod Steps
pub mod Walk
pub mod Nodes
pub mod Members
pub mod Complete
use mathlib.Core.List.{foldl}
use arcana.Common.{
  ℕ, zero, suc, Bool, true, false, not, ◌&&◌, ◌||◌, Option, none, some, List, [], ◌∷◌, ◌++◌, leb,
  ltb, ◌==◌, if◌then◌else◌, length, get_elem?, get_or, set, replicate,
}
use arcana.Common.Vector.{Vec}
use arcana.Graph.Types.{
  invalid_id, NodeKind, node_if, node_while, node_cycle, node_try, node_func_def, node_func_call,
  node_thread_spawn, node_intrinsic_call, Attr, name, func, branch_regions, loop_region,
  try_regions, intrinsic, cycle_region, Region, Node, Graph,
}
use arcana.Architecture.Spec.{
  EffectSet, pure_set, union, RegionSpec, ArchSpec, undeclared_capability, ArchResult, add_error,
  node_effect, intrinsic_effect, same_name,
}

-- Reading a member of the union; a node whose union is zeroed reads 0 or NULL.
unfoldable pub attr_name : Attr → Option (List ℕ)
attr_name a = elim a [ name n ↦ n | _ ↦ none ]

unfoldable pub func_name : Attr → Option (List ℕ)
func_name a = elim a [ func n body arity ↦ n | _ ↦ none ]

unfoldable pub func_body : Attr → ℕ
func_body a = elim a [ func n body arity ↦ body | _ ↦ 0 ]

unfoldable pub intrinsic_of : Attr → ℕ
intrinsic_of a = elim a [ intrinsic id ↦ id | _ ↦ 0 ]

-- The regions of an if, while, cycle or try, in the order in which they are walked. An attribute of
-- another kind, whose bytes the source would read as regions, gives the region 0.
unfoldable pub inner_regions : Node → List ℕ
inner_regions n = elim n.kind [
  | node_if ↦ elim n.attr [ branch_regions a b ↦ a ∷ b ∷ [] | _ ↦ 0 ∷ 0 ∷ [] ]
  | node_while ↦ elim n.attr [ loop_region a ↦ a ∷ [] | _ ↦ 0 ∷ [] ]
  | node_cycle ↦ elim n.attr [ cycle_region a ↦ a ∷ [] | _ ↦ 0 ∷ [] ]
  | node_try ↦ elim n.attr [ try_regions a b ↦ a ∷ b ∷ [] | _ ↦ 0 ∷ 0 ∷ [] ]
  | _ ↦ []
]

-- The name of the function that a call or a spawned thread runs.
unfoldable pub callee : Node → Option (List ℕ)
unfolding attr_name
callee n = elim n.kind [
  | node_func_call ↦ attr_name n.attr
  | node_thread_spawn ↦ attr_name n.attr
  | _ ↦ none
]

unfoldable pub own_effect : Node → EffectSet
unfolding node_effect intrinsic_effect intrinsic_of
own_effect n =
    union (node_effect n.kind)
      (elim n.kind [ node_intrinsic_call ↦ intrinsic_effect (intrinsic_of n.attr) | _ ↦ pure_set ])

unfoldable pub is_func_named : List ℕ → Node → Bool
unfolding func_name same_name
is_func_named wanted n = elim n.kind [
  | node_func_def ↦ elim (func_name n.attr) [ none ↦ false | some f ↦ same_name f wanted ]
  | _ ↦ false
]

unfoldable pub find_func_def : List Node → List ℕ → ℕ
unfolding is_func_named
find_func_def [] wanted = invalid_id
find_func_def (n ∷ ns) wanted = if is_func_named wanted n then n.id else find_func_def ns wanted

-- `visited_regions` and `visited_funcs`.
pub record Seen : Type 0 where
  pub regions : List Bool
  pub funcs : List Bool

-- A recursive call, `effects |= collect_region_effects(...)`.
abbrev pub Collector : Type 0
Collector = ℕ → Seen → EffectSet × Seen

abbrev pub absorb : Collector → EffectSet × Seen → ℕ → EffectSet × Seen
absorb rec (e, s) rid = let (e', s') = rec rid s in (union e e', s')

-- The recursive call for a region id that may be `invalid_id`.
abbrev pub absorb_valid : Collector → EffectSet × Seen → ℕ → EffectSet × Seen
absorb_valid rec es rid = if rid == invalid_id then es else absorb rec es rid

unfoldable pub body_of : Graph → ℕ → ℕ
unfolding func_body
body_of g fid = elim (get_elem? g.nodes.items fid) [ none ↦ 0 | some f ↦ func_body f.attr ]

unfoldable pub trace_call : Graph → Collector → List ℕ → EffectSet × Seen → EffectSet × Seen
unfolding find_func_def body_of
trace_call g rec wanted (e, s) =
    let fid = find_func_def g.nodes.items wanted in
    if fid == invalid_id || get_or s.funcs fid false
    then (e, s)
    else absorb_valid rec (e, record s { funcs = set s.funcs fid true }) (body_of g fid)

unfoldable pub visit_node : Graph → Collector → EffectSet × Seen → Node → EffectSet × Seen
unfolding own_effect callee inner_regions trace_call
visit_node g rec (e, s) n =
    let own : EffectSet × Seen = (union e (own_effect n), s) in
    let called : EffectSet × Seen = elim (callee n) [
      | none ↦ own
      | some f ↦ trace_call g rec f own
    ] in
    foldl (absorb_valid rec) called (inner_regions n)

unfoldable pub visit_member : Graph → Collector → EffectSet × Seen → ℕ → EffectSet × Seen
unfolding visit_node
visit_member g rec es nid = elim (get_elem? g.nodes.items nid) [
  | none ↦ es
  | some n ↦ visit_node g rec es n
]

-- The loop over the regions from index `i` whose parent is `rid`.
unfoldable pub visit_children :
    Collector → ℕ → ℕ → List Region → EffectSet × Seen → EffectSet × Seen
visit_children rec rid i [] es = es
visit_children rec rid i (r ∷ rs) es =
    visit_children rec rid (suc i) rs (if r.parent == rid then absorb rec es i else es)

unfoldable pub visit_region : Graph → Collector → ℕ → Seen → EffectSet × Seen
unfolding visit_member visit_children
visit_region g rec rid s = elim (get_elem? g.regions.items rid) [
  | none ↦ (pure_set, s)
  | some region ↦
      visit_children rec rid 0 g.regions.items
        (foldl (visit_member g rec) (pure_set, s) region.members.items)
]

unfoldable pub collect_region_effects : Graph → ℕ → Collector
unfolding visit_region
collect_region_effects g zero rid s = (pure_set, s)
collect_region_effects g (suc fuel) rid s =
    if leb (length g.regions.items) rid || get_or s.regions rid false
    then (pure_set, s)
    else visit_region g (collect_region_effects g fuel) rid
        (record s { regions = set s.regions rid true })

-- `effects & ~capabilities`, and the loop over the first eight bits.
unfoldable pub report_bits : ℕ → ℕ → ℕ → EffectSet → ArchResult → ArchResult
unfolding add_error
report_bits rid bit zero undeclared r = r
report_bits rid bit (suc n) undeclared r =
    report_bits rid (suc bit) n undeclared
      (if undeclared bit then add_error r rid (undeclared_capability bit) else r)

-- The effects of a region, from nothing visited; each call in a chain visits a region.
unfoldable pub region_effects : Graph → ℕ → EffectSet
unfolding collect_region_effects
region_effects g rid =
    (collect_region_effects g (suc (length g.regions.items)) rid (record {
      regions = replicate (length g.regions.items) false;
      funcs = replicate (length g.nodes.items) false;
    })).0

unfoldable pub verify_effects : Graph → List RegionSpec → ArchResult → ArchResult
unfolding region_effects report_bits
verify_effects g [] r = r
verify_effects g (spec ∷ specs) r = verify_effects g specs (
    if not spec.is_sealed || leb (length g.regions.items) spec.region
    then r
    else report_bits spec.region 0 8
        (λ b. region_effects g spec.region b && not (spec.capabilities b)) r)
