-- ===== src/Architecture/Verdict.antt =====
-- What the verdict of `arc_arch_verify` in src/verifier/architecture.c says of a well-formed graph.
use mathlib.Core.Option.{some-injective}
use arcana.Common.{
  ℕ, ◌≤◌, ◌<◌, ◌≡◌, ◌≢◌, sym, ◌∙◌, subst, true, some, length, get_elem?, All, All-get_elem?,
}
use arcana.Graph.Types.{invalid_id, Node, SemEdge, Graph}
use arcana.Graph.Accept.{IsGraph}
use arcana.Architecture.Spec.{RegionSpec, ArchSpec, ArchResult}
use arcana.Architecture.Effects.{own_effect}
use arcana.Architecture.Effects.Steps.{IsMember}
use arcana.Architecture.Effects.Complete.{Within, region_effects-Within}
use arcana.Architecture.Boundaries.{port_region, arch_verify}
use arcana.Architecture.Reports.{IsCapable}
use arcana.Architecture.Ancestors.{IsInnermost}
use arcana.Architecture.Crossing.{IsDeclared, IsJoined, arch_verify-verdict}

module _ (g : Graph) (spec : ArchSpec) (w : IsGraph g)
    (small : length g.regions.items ≤ invalid_id) where
  verdict_of :
      (r : ArchResult)
      → arch_verify g spec ≡ some r
      → r.valid ≡ true
      → All (IsCapable g) spec.regions × All (IsJoined g spec) g.edges.items
  verdict_of r e v =
      let (s, done, verdict) = arch_verify-verdict g spec w small in
      verdict (subst (λ (t : ArchResult). t.valid ≡ true) (some-injective _ _ (sym e ∙ done)) v)

  -- If the verdict is positive, then a sealed region has every capability, of the eight bits that are
  -- tested, that a node needs in the region or in one that it leads to: over child regions, the
  -- branches and bodies of its nodes, and the functions that they call or spawn.
  pub arch_verify-capabilities :
      (r : ArchResult) (k : ℕ) (rs : RegionSpec) (reached : ℕ) (n : Node) (bit : ℕ)
      → arch_verify g spec ≡ some r
      → r.valid ≡ true
      → get_elem? spec.regions k ≡ some rs
      → rs.is_sealed ≡ true
      → rs.region < length g.regions.items
      → Within g rs.region reached
      → IsMember g reached n
      → bit < 8
      → own_effect n bit ≡ true
      → rs.capabilities bit ≡ true
  arch_verify-capabilities r k rs reached n bit e v at_k s low inside m h own =
      All-get_elem? (IsCapable g) spec.regions k rs (verdict_of r e v).0 at_k s low bit h
        (region_effects-Within g small rs.region reached n bit inside m own)

  -- If the verdict is positive and an edge leads from one sealed region to another, the innermost ones
  -- around its two ends, then a channel between them is declared, in one direction or the other.
  pub arch_verify-IsDeclared :
      (r : ArchResult) (k : ℕ) (edge : SemEdge) (a b : ℕ) (f t : RegionSpec) (c d : ℕ)
      → arch_verify g spec ≡ some r
      → r.valid ≡ true
      → get_elem? g.edges.items k ≡ some edge
      → port_region g edge.from ≡ some a
      → port_region g edge.to ≡ some b
      → IsInnermost g spec.regions a f c
      → IsInnermost g spec.regions b t d
      → f.region ≢ t.region
      → IsDeclared spec.channels f.region t.region
  arch_verify-IsDeclared r k edge a b f t c d e v at_k from to =
      All-get_elem? (IsJoined g spec) g.edges.items k edge (verdict_of r e v).1 at_k a b f t c d
        from to
