-- ===== src/Graph/Stages.antt =====
-- What a stage of `arc_graph_validate` adds to the verdict, and the stages for regions and nodes.
use arcana.Common.{
  ℕ, zero, suc, ◌<◌, ◌≡◌, ◌↔◌, refl, ap, ◌⊎◌, inl, inr, Bool, true, false, not, ◌&&◌, some, List,
  [], ◌∷◌, arith, ltb, lt→ltb, leb, ◌==◌, if◌then◌else◌, length, get_elem?, All, Bool-cases,
}
use arcana.Graph.Indexed.{AllFrom}
use arcana.Graph.Types.{invalid_id, Region, Node, Graph}
use arcana.Graph.Validate.{
  GraphError, Validation, vadd, vadd_if, finds_cycle, validate_region, validate_regions, has_port,
  validate_order, validate_node, validate_nodes, region_id, region_parent, region_cycle,
  cyclic_port, cyclic_count, node_id, node_region,
}

-- A verdict is kept, and a condition holds.
abbrev pub Stage : Validation → Validation → Type 0 → Type 0
Stage before after P = (after.valid ≡ true) ↔ ((before.valid ≡ true) × P)

pub vadd_if-Stage :
    (b : Bool) (v : Validation) (e : GraphError) → Stage v (vadd_if b v e) (b ≡ false)
unfolding vadd
vadd_if-Stage b v e = ground arith

pub Stage-then : (u v w : Validation) {P Q : Type 0} → Stage u v P → Stage v w Q → Stage u w (P × Q)
Stage-then u v w f g = (
  λ h. let (hv, q) = g.0 h in let (hu, p) = f.0 hv in (hu, (p, q)),
  λ (hu, (p, q)). g.1 (f.1 (hu, p), q),
)

pub Stage-iff : (u v : Validation) {P Q : Type 0} → Stage u v P → P ↔ Q → Stage u v Q
Stage-iff u v f e = (λ h. let (hu, p) = f.0 h in (hu, e.0 p), λ (hu, q). f.1 (hu, e.1 q))

pub same_iff : (a b : ℕ) → (not (a == b) ≡ false) ↔ (a ≡ b)
same_iff a b = ground arith

pub past_iff : (n i : ℕ) → (leb n i ≡ false) ↔ (i < n)
past_iff n i = ground arith

parent_iff : (p n : ℕ) → (not (p == invalid_id) && leb n p ≡ false) ↔ ((p ≡ invalid_id) ⊎ (p < n))
parent_iff p n = elim (Bool-cases (p == invalid_id)) [
  | inl e ↦ (λ h. inl (ground (arith, e)), λ h. rw e)
  | inr e ↦ (λ h. inr (ground (arith, e, h)), λ h. ground (arith, e, h))
]

-- A region names its index, a parent that exists or none, and the loop does not find it above itself.
pub record IsCheckedRegion (g : Graph) (i : ℕ) (r : Region) : Type 0 where
  pub id : r.id ≡ i
  pub parent : (r.parent ≡ invalid_id) ⊎ (r.parent < length g.regions.items)
  pub no_cycle : finds_cycle g i (length g.regions.items) r.parent ≡ false

validate_region-Stage :
    (g : Graph) (i : ℕ) (r : Region) (v : Validation)
    → Stage v (validate_region g i r v) (IsCheckedRegion g i r)
unfolding validate_region
validate_region-Stage g i r v =
    let count = length g.regions.items in
    let wrong = not (r.id == i) in
    let past = not (r.parent == invalid_id) && leb count r.parent in
    let v₁ = vadd_if wrong v (region_id i) in
    let v₂ = vadd_if past v₁ (region_parent i) in
    let cycle = finds_cycle g i count r.parent in
    Stage-iff v (validate_region g i r v)
      (Stage-then v v₁ (validate_region g i r v) (vadd_if-Stage wrong v (region_id i)) (
        Stage-then v₁ v₂ (validate_region g i r v) (vadd_if-Stage past v₁ (region_parent i))
          (vadd_if-Stage cycle v₂ (region_cycle i))))
      (
        λ (a, (b, c)). record {
          id = (same_iff _ _).0 a;
          parent = (parent_iff _ _).0 b;
          no_cycle = c;
        },
        λ h. ((same_iff _ _).1 h.id, ((parent_iff _ _).1 h.parent, h.no_cycle)),
      )

pub validate_regions-Stage :
    (g : Graph) (i : ℕ) (rs : List Region) (v : Validation)
    → Stage v (validate_regions g i rs v) (AllFrom (IsCheckedRegion g) i rs)
unfolding validate_regions
validate_regions-Stage g i [] v = (λ h. (h, tt), λ h. h.0)
validate_regions-Stage g i (r ∷ rs) v =
    let v₁ = validate_region g i r v in
    Stage-then v v₁ (validate_regions g (suc i) rs v₁) (validate_region-Stage g i r v)
      (validate_regions-Stage g (suc i) rs v₁)

-- A port number stands in a list of port numbers.
abbrev pub IsListed : List ℕ → ℕ → Type 0
IsListed ports p = (k : ℕ) × (get_elem? ports k ≡ some p)

IsListed-tail :
    (q : ℕ) (qs : List ℕ) (p : ℕ) → (p == q) ≡ false → IsListed (q ∷ qs) p → IsListed qs p
IsListed-tail q qs p e (zero, h) = absurd (ground arith)
IsListed-tail q qs p e (suc k, h) = (k, h)

has_port_iff : (ports : List ℕ) (p : ℕ) → (has_port ports p ≡ true) ↔ IsListed ports p
unfolding has_port
has_port_iff [] p = (λ h. absurd (cc), λ (k, e). absurd (ground arith))
has_port_iff (q ∷ qs) p = elim (Bool-cases (p == q)) [
  | inl e ↦ (λ h. (0, ap some (ground (arith, e))), λ t. rw e)
  | inr e ↦ (
    λ h. let (k, at_k) = (has_port_iff qs p).0 (rw e at h) in (suc k, at_k),
    λ t. rw e ((has_port_iff qs p).1 (IsListed-tail q qs p e t)),
  )
]

pub not-eq-false_iff : (b : Bool) → (not b ≡ false) ↔ (b ≡ true)
not-eq-false_iff b = ground arith

validate_order-Stage :
    (i : ℕ) (ports order : List ℕ) (v : Validation)
    → Stage v (validate_order i ports order v) (All (IsListed ports) order)
unfolding validate_order
validate_order-Stage i ports [] v = (λ h. (h, tt), λ h. h.0)
validate_order-Stage i ports (p ∷ ps) v =
    let unlisted = not (has_port ports p) in
    let v₁ = vadd_if unlisted v (cyclic_port i) in
    Stage-then v v₁ (validate_order i ports ps v₁)
      (Stage-iff v v₁ (vadd_if-Stage unlisted v (cyclic_port i)) (
        λ h. (has_port_iff ports p).0 ((not-eq-false_iff _).0 h),
        λ h. (not-eq-false_iff _).1 ((has_port_iff ports p).1 h),
      ))
      (validate_order-Stage i ports ps v₁)

-- The cyclic order of a node is empty, or has as many entries as the node has ports, all of them
-- ports of the node.
abbrev pub IsOrder : List ℕ → List ℕ → Type 0
IsOrder ports order = (order ≡ []) ⊎ ((length order ≡ length ports) × All (IsListed ports) order)

-- A node names its index, stands in a region and has a cyclic order of its ports.
pub record IsNode (g : Graph) (i : ℕ) (n : Node) : Type 0 where
  pub id : n.id ≡ i
  pub region : n.region < length g.regions.items
  pub order : IsOrder n.ports.items n.cyclic_order

validate_order_stage :
    (i : ℕ) (ports order : List ℕ) (v : Validation)
    → Stage v
        (if ltb 0 (length order)
          then validate_order i ports order
              (vadd_if (not (length order == length ports)) v (cyclic_count i))
          else v)
        (IsOrder ports order)
validate_order_stage i ports [] v = (λ h. (h, inl refl), λ h. h.0)
validate_order_stage i ports (p ∷ ps) v =
    let order = p ∷ ps in
    let other = not (length order == length ports) in
    let v₁ = vadd_if other v (cyclic_count i) in
    let last = validate_order i ports order v₁ in
    rw (lt→ltb 0 (suc (length ps)) (omega arith)) (
      Stage-iff v last
        (Stage-then v v₁ last (vadd_if-Stage other v (cyclic_count i))
          (validate_order-Stage i ports order v₁))
        (
          λ (a, b). inr ((same_iff _ _).0 a, b),
          λ h. elim h [ inl e ↦ absurd (cc) | inr (a, b) ↦ ((same_iff _ _).1 a, b) ],
        ))

validate_node-Stage :
    (g : Graph) (i : ℕ) (n : Node) (v : Validation) → Stage v (validate_node g i n v) (IsNode g i n)
unfolding validate_node
validate_node-Stage g i n v =
    let wrong = not (n.id == i) in
    let past = leb (length g.regions.items) n.region in
    let v₁ = vadd_if wrong v (node_id i) in
    let v₂ = vadd_if past v₁ (node_region i) in
    Stage-iff v (validate_node g i n v)
      (Stage-then v v₁ (validate_node g i n v) (vadd_if-Stage wrong v (node_id i)) (
        Stage-then v₁ v₂ (validate_node g i n v) (vadd_if-Stage past v₁ (node_region i))
          (validate_order_stage i n.ports.items n.cyclic_order v₂)))
      (
        λ (a, (b, c)). record { id = (same_iff _ _).0 a; region = (past_iff _ _).0 b; order = c },
        λ h. ((same_iff _ _).1 h.id, ((past_iff _ _).1 h.region, h.order)),
      )

pub validate_nodes-Stage :
    (g : Graph) (i : ℕ) (ns : List Node) (v : Validation)
    → Stage v (validate_nodes g i ns v) (AllFrom (IsNode g) i ns)
unfolding validate_nodes
validate_nodes-Stage g i [] v = (λ h. (h, tt), λ h. h.0)
validate_nodes-Stage g i (n ∷ ns) v =
    let v₁ = validate_node g i n v in
    Stage-then v v₁ (validate_nodes g (suc i) ns v₁) (validate_node-Stage g i n v)
      (validate_nodes-Stage g (suc i) ns v₁)
