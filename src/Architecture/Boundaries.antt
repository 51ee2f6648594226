-- ===== src/Architecture/Boundaries.antt =====
-- `verify_boundaries` and `arc_arch_verify` of src/verifier/architecture.c. `none` is a walk that does
-- not end, or an access outside the arrays of the graph.
use arcana.Common.{
  ℕ, zero, suc, Bool, true, false, ◌&&◌, ◌||◌, Option, none, some, List, [], ◌∷◌, ◌==◌,
  if◌then◌else◌, length, get_elem?,
}
use arcana.Graph.Types.{invalid_id, SemEdge, Graph}
use arcana.Graph.Build.{◌>>=◌}
use arcana.Architecture.Spec.{
  RegionSpec, ArchChannel, ArchSpec, crosses_boundary, ArchResult, add_error,
}
use arcana.Architecture.Effects.{verify_effects}

unfoldable pub sealed_spec : List RegionSpec → ℕ → Option RegionSpec
sealed_spec [] cur = none
sealed_spec (s ∷ specs) cur =
    if s.region == cur && s.is_sealed then some s else sealed_spec specs cur

-- The loop from `cur`, with fuel.
unfoldable pub find_sealed_ancestor : Graph → List RegionSpec → ℕ → ℕ → Option (Option RegionSpec)
unfolding sealed_spec
find_sealed_ancestor g specs zero cur = none
find_sealed_ancestor g specs (suc fuel) cur =
    if cur == invalid_id then some none else elim (sealed_spec specs cur) [
      | some s ↦ some (some s)
      | none ↦ elim (get_elem? g.regions.items cur) [
        | none ↦ none
        | some r ↦ find_sealed_ancestor g specs fuel r.parent
      ]
    ]

unfoldable pub has_channel : List ArchChannel → ℕ → ℕ → Bool
has_channel [] a b = false
has_channel (c ∷ cs) a b =
    c.from_region == a && c.to_region == b
    || c.from_region == b && c.to_region == a
    || has_channel cs a b

-- The region of the node that owns a port.
unfoldable pub port_region : Graph → ℕ → Option ℕ
port_region g id = do
  p ← get_elem? g.ports.items id
  n ← get_elem? g.nodes.items p.owner
  some n.region

-- The edge leads between two different sealed regions; the result of looking for a channel.
unfoldable pub crossing : ArchSpec → Option RegionSpec → Option RegionSpec → ArchResult → ArchResult
unfolding has_channel add_error
crossing spec none to r = r
crossing spec (some f) none r = r
crossing spec (some f) (some t) r =
    if f.region == t.region || has_channel spec.channels f.region t.region
    then r
    else add_error r f.region (crosses_boundary t.region)

-- A walk needs a step for each region and one to stop.
unfoldable pub sealed_ancestor : Graph → ArchSpec → ℕ → Option (Option RegionSpec)
unfolding find_sealed_ancestor
sealed_ancestor g spec rid = find_sealed_ancestor g spec.regions (suc (length g.regions.items)) rid

unfoldable pub check_regions : Graph → ArchSpec → ℕ → ℕ → ArchResult → Option ArchResult
unfolding sealed_ancestor crossing
check_regions g spec from_rid to_rid r = do
  fs ← sealed_ancestor g spec from_rid
  ts ← sealed_ancestor g spec to_rid
  some (crossing spec fs ts r)

unfoldable pub verify_edge : Graph → ArchSpec → SemEdge → ArchResult → Option ArchResult
unfolding port_region check_regions
verify_edge g spec e r = do
  from_rid ← port_region g e.from
  to_rid ← port_region g e.to
  (if from_rid == to_rid then some r else check_regions g spec from_rid to_rid r)

unfoldable pub verify_boundaries : Graph → ArchSpec → List SemEdge → ArchResult → Option ArchResult
unfolding verify_edge
verify_boundaries g spec [] r = some r
verify_boundaries g spec (e ∷ es) r = do r' ← verify_edge g spec e r; verify_boundaries g spec es r'

unfoldable pub arch_verify : Graph → ArchSpec → Option ArchResult
unfolding verify_effects verify_boundaries
arch_verify g spec =
    verify_boundaries g spec g.edges.items
      (verify_effects g spec.regions (record { errors = []; valid = true }))
