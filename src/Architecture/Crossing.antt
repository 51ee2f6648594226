-- ===== src/Architecture/Crossing.antt =====
-- What `verify_boundaries` and `arc_arch_verify` of src/verifier/architecture.c establish: they return
-- for well-formed graphs, and a positive verdict finds a channel for each crossing.
use mathlib.Core.Option.{some-injective}
use arcana.Common.{
  ℕ, suc, ◌≤◌, ◌<◌, ◌≡◌, ◌≢◌, refl, sym, ap, ◌∙◌, ◌⊎◌, inl, inr, Bool, true, false, ◌&&◌, ◌||◌,
  Option, none, some, List, [], ◌∷◌, arith, ◌==◌, length, get_elem?, get_elem?-lt, Bool-cases,
  if_elim, All, All-intro,
}
use arcana.Graph.Types.{invalid_id, Port, SemEdge, Graph}
use arcana.Graph.Build.{◌>>=◌}
use arcana.Graph.Validate.{is_output, is_input}
use arcana.Graph.Accept.{IsPortWith, IsEdge, IsGraph}
use arcana.Architecture.Spec.{RegionSpec, ArchChannel, ArchSpec, crosses_boundary, ArchResult}
use arcana.Architecture.Boundaries.{
  has_channel, port_region, crossing, sealed_ancestor, check_regions, verify_edge,
  verify_boundaries, arch_verify,
}
use arcana.Architecture.Reports.{
  IsClean, IsWorse, IsWorse-refl, IsWorse-trans, IsWorse-add_error, add_error-valid, IsCapable,
  verify_effects-IsWorse,
}
use arcana.Architecture.Ancestors.{
  IsInnermost, find_sealed_ancestor-total, find_innermost, steps_below,
}

-- A channel joins two regions, in one direction or the other.
abbrev pub IsDeclared : List ArchChannel → ℕ → ℕ → Type 0
IsDeclared cs a b =
    (k : ℕ) × (c : ArchChannel) × (get_elem? cs k ≡ some c)
    × (((c.from_region ≡ a) × (c.to_region ≡ b)) ⊎ ((c.from_region ≡ b) × (c.to_region ≡ a)))

or3 : (x y z : Bool) → (x || y || z) ≡ true → z ≡ false → (x || y) ≡ true
or3 x y z h e = ground arith

or_right : (x y : Bool) → (x || y) ≡ true → x ≡ false → y ≡ true
or_right x y h e = ground arith

joins :
    (c : ArchChannel) (a b : ℕ)
    → (c.from_region == a && c.to_region == b || c.from_region == b && c.to_region == a) ≡ true
    → ((c.from_region ≡ a) × (c.to_region ≡ b)) ⊎ ((c.from_region ≡ b) × (c.to_region ≡ a))
joins c a b h = elim (Bool-cases (c.from_region == a && c.to_region == b)) [
  | inl e ↦ inl (ground (arith, e))
  | inr e ↦ inr (ground (arith, e, h))
]

has_channel-IsDeclared :
    (cs : List ArchChannel) (a b : ℕ) → has_channel cs a b ≡ true → IsDeclared cs a b
unfolding has_channel
has_channel-IsDeclared [] a b h = absurd (cc)
has_channel-IsDeclared (c ∷ cs) a b h = elim (Bool-cases (has_channel cs a b)) [
  | inl later ↦ let (k, c', e, j) = has_channel-IsDeclared cs a b later in (suc k, c', e, j)
  | inr unjoined ↦ (
    0,
    c,
    refl,
    joins c a b (
        or3 (c.from_region == a && c.to_region == b) (c.from_region == b && c.to_region == a)
          (has_channel cs a b) h unjoined),
  )
]

module _ (spec : ArchSpec) (r : ArchResult) (clean : IsClean r) where
  crossing-IsWorse : (o p : Option RegionSpec) → IsWorse r (crossing spec o p r)
  unfolding crossing
  crossing-IsWorse none p = IsWorse-refl r clean
  crossing-IsWorse (some f) none = IsWorse-refl r clean
  crossing-IsWorse (some f) (some t) =
      if_elim (IsWorse r) (f.region == t.region || has_channel spec.channels f.region t.region)
        (λ e. IsWorse-refl r clean)
        (λ e. IsWorse-add_error r f.region (crosses_boundary t.region) clean)

  crossing-IsDeclared :
      (f t : RegionSpec)
      → (crossing spec (some f) (some t) r).valid ≡ true
      → f.region ≢ t.region
      → IsDeclared spec.channels f.region t.region
  unfolding crossing
  crossing-IsDeclared f t v other =
      elim (Bool-cases (f.region == t.region || has_channel spec.channels f.region t.region)) [
        | inr unjoined ↦
            absurd
              (cc (rw unjoined at v, add_error-valid r f.region (crosses_boundary t.region) clean))
        | inl fine ↦ has_channel-IsDeclared spec.channels f.region t.region (
            or_right (f.region == t.region) (has_channel spec.channels f.region t.region) fine
              (ground (arith, other)))
      ]

-- If an edge leads from one sealed region to another, by the innermost ones around its ends, a channel
-- joins them.
abbrev pub IsJoined : Graph → ArchSpec → SemEdge → Type 0
IsJoined g spec e =
    (a b : ℕ) (f t : RegionSpec) (c d : ℕ)
    → port_region g e.from ≡ some a
    → port_region g e.to ≡ some b
    → IsInnermost g spec.regions a f c
    → IsInnermost g spec.regions b t d
    → f.region ≢ t.region
    → IsDeclared spec.channels f.region t.region

module _ (g : Graph) (spec : ArchSpec) (w : IsGraph g)
    (small : length g.regions.items ≤ invalid_id) where
  sealed_ancestor-total :
      (rid : ℕ)
      → rid < length g.regions.items
      → (o : Option RegionSpec) × (sealed_ancestor g spec rid ≡ some o)
  unfolding sealed_ancestor
  sealed_ancestor-total rid low =
      let (d, le, e) = w.forest rid low in
      find_sealed_ancestor-total g spec.regions w small d (suc (length g.regions.items)) rid
        (omega (arith, le)) (inr low) e

  sealed_ancestor-innermost :
      (rid : ℕ) (s : RegionSpec) (d : ℕ)
      → IsInnermost g spec.regions rid s d
      → sealed_ancestor g spec rid ≡ some (some s)
  unfolding sealed_ancestor
  sealed_ancestor-innermost rid s d i =
      find_innermost g spec.regions w small s d (suc (length g.regions.items)) rid
        (steps_below g spec.regions w small rid s d i) i

  port_region-total :
      (test : Port → Bool) (id : ℕ)
      → IsPortWith g test id
      → (a : ℕ) × (port_region g id ≡ some a) × (a < length g.regions.items)
  unfolding port_region
  port_region-total test id (p, e, _) =
      let (n, e') = get_elem?-lt g.nodes.items p.owner (w.ports id p e).owner in
      (n.region, rw (e, e', port_region), (w.nodes p.owner n e').region)

  check_regions-IsWorse :
      (a b : ℕ) (r : ArchResult)
      → a < length g.regions.items
      → b < length g.regions.items
      → IsClean r
      → (s : ArchResult) × (check_regions g spec a b r ≡ some s)
        × IsWorse r s
        × ((f t : RegionSpec)
            → sealed_ancestor g spec a ≡ some (some f)
            → sealed_ancestor g spec b ≡ some (some t)
            → s.valid ≡ true
            → f.region ≢ t.region
            → IsDeclared spec.channels f.region t.region)
  unfolding check_regions
  check_regions-IsWorse a b r low low' clean =
      let (o, e) = sealed_ancestor-total a low in
      let (p, e') = sealed_ancestor-total b low' in
      (
        crossing spec o p r,
        rw (e, e', check_regions),
        crossing-IsWorse spec r clean o p,
        λ f t q q' v other.
            let same = some-injective _ _ (sym e ∙ q) in
            let same' = some-injective _ _ (sym e' ∙ q') in
            crossing-IsDeclared spec r clean f t (rw (same, same') at v) other,
      )

  verify_edge-IsWorse :
      (e : SemEdge) (r : ArchResult)
      → IsPortWith g is_output e.from
      → IsPortWith g is_input e.to
      → IsClean r
      → (s : ArchResult) × (verify_edge g spec e r ≡ some s)
        × IsWorse r s
        × (s.valid ≡ true → IsJoined g spec e)
  unfolding verify_edge
  verify_edge-IsWorse e r from to clean =
      let (a, at_from, low) = port_region-total is_output e.from from in
      let (b, at_to, low') = port_region-total is_input e.to to in
      let (s, done, worse, joined) = check_regions-IsWorse a b r low low' clean in
      let found : (x y : ℕ) (id : ℕ) (s : RegionSpec) (d : ℕ)
          → port_region g id ≡ some x
          → port_region g id ≡ some y
          → IsInnermost g spec.regions x s d
          → sealed_ancestor g spec y ≡ some (some s) =
        λ x y id s d q q' i.
          ap (sealed_ancestor g spec) (some-injective _ _ (sym q' ∙ q))
          ∙ sealed_ancestor-innermost x s d i in
      elim (Bool-cases (a == b)) [
        | inl same ↦ (
          r,
          rw (at_from, at_to, same, verify_edge),
          IsWorse-refl r clean,
          λ v a' b' f t c d q q' i j other.
              let p : a ≡ b = ground (arith, same) in
              let both =
                sym (found a' a e.from f c q at_from i)
                ∙ ap (sealed_ancestor g spec) p
                ∙ found b' b e.to t d q' at_to j in
              absurd (
                other (
                  ap (λ (u : RegionSpec). u.region)
                    (some-injective _ _ (some-injective _ _ both)))),
        )
        | inr differ ↦ (
          s,
          rw (at_from, at_to, differ, verify_edge) done,
          worse,
          λ v a' b' f t c d q q' i j other.
              joined f t (found a' a e.from f c q at_from i) (found b' b e.to t d q' at_to j) v
                other,
        )
      ]

  verify_boundaries-IsWorse :
      (es : List SemEdge) (r : ArchResult)
      → All (λ (e : SemEdge). IsPortWith g is_output e.from × IsPortWith g is_input e.to) es
      → IsClean r
      → (s : ArchResult) × (verify_boundaries g spec es r ≡ some s)
        × IsWorse r s
        × (s.valid ≡ true → All (IsJoined g spec) es)
  unfolding verify_boundaries
  verify_boundaries-IsWorse [] r w clean = (r, refl, IsWorse-refl r clean, λ v. tt)
  verify_boundaries-IsWorse (e ∷ es) r ((from, to), ws) clean =
      let (s, done, worse, joined) = verify_edge-IsWorse e r from to clean in
      let (t, done', worse', rest) = verify_boundaries-IsWorse es s ws worse.clean in
      (
        t,
        ap (λ o. o >>= verify_boundaries g spec es) done ∙ done',
        IsWorse-trans r s t worse worse',
        λ v. (joined (worse'.valid v), rest v),
      )

  edges-IsPortWith :
      (es : List SemEdge)
      → ((i : ℕ) (e : SemEdge) → get_elem? es i ≡ some e → IsEdge g i e)
      → All (λ (e : SemEdge). IsPortWith g is_output e.from × IsPortWith g is_input e.to) es
  edges-IsPortWith es h = All-intro _ es (λ i e q. let v = h i e q in (v.from, v.to))

  no_arch_errors : ArchResult
  no_arch_errors = record { errors = []; valid = true }

  pub arch_verify-verdict :
      (s : ArchResult) × (arch_verify g spec ≡ some s)
      × (s.valid ≡ true → All (IsCapable g) spec.regions × All (IsJoined g spec) g.edges.items)
  unfolding arch_verify no_arch_errors
  arch_verify-verdict =
      let (worse, capable) = verify_effects-IsWorse g spec.regions no_arch_errors (λ v. refl) in
      let (s, done, worse', joined) =
        verify_boundaries-IsWorse g.edges.items _ (edges-IsPortWith g.edges.items w.edges)
          worse.clean in
      (s, done, λ v. (capable (worse'.valid v), joined v))
