-- ===== src/Architecture/Reports.antt =====
-- A positive verdict of src/verifier/architecture.c has no error behind it: what that says of the
-- capabilities.
use arcana.Common.{
  ℕ, zero, suc, ◌+◌, ◌≤◌, ◌<◌, ◌≡◌, refl, ap, subst, inl, inr, Bool, true, false, not, ◌&&◌, ◌||◌,
  List, [], ◌∷◌, arith, leb, ◌==◌, if◌then◌else◌, length, Bool-cases, if_elim, All,
}
use arcana.Graph.Types.{Graph}
use arcana.Architecture.Spec.{
  EffectSet, RegionSpec, ArchMessage, undeclared_capability, ArchResult, add_error, max_arch_errors,
}
use arcana.Architecture.Effects.{report_bits, region_effects, verify_effects}

-- A positive verdict has no errors.
abbrev pub IsClean : ArchResult → Type 0
IsClean r = r.valid ≡ true → r.errors ≡ []

pub add_error-valid :
    (r : ArchResult) (id : ℕ) (m : ArchMessage) → IsClean r → (add_error r id m).valid ≡ false
unfolding add_error
add_error-valid r id m c = elim (Bool-cases (leb max_arch_errors (length r.errors))) [
  | inr room ↦ rw (room, add_error)
  | inl full ↦ elim (Bool-cases r.valid) [
    | inr e ↦ rw (full, add_error) e
    | inl e ↦ absurd (ground (arith, full, ap length (c e)))
  ]
]

-- The second verdict is not better than the first.
pub record IsWorse (r s : ArchResult) : Type 0 where
  pub clean : IsClean s
  pub valid : s.valid ≡ true → r.valid ≡ true

pub IsWorse-refl : (r : ArchResult) → IsClean r → IsWorse r r
IsWorse-refl r c = record { clean = c; valid = λ v. v }

pub IsWorse-trans : (r s t : ArchResult) → IsWorse r s → IsWorse s t → IsWorse r t
IsWorse-trans r s t f g = record { clean = g.clean; valid = λ v. f.valid (g.valid v) }

pub IsWorse-add_error :
    (r : ArchResult) (id : ℕ) (m : ArchMessage) → IsClean r → IsWorse r (add_error r id m)
IsWorse-add_error r id m c = record {
  clean = λ v. absurd (cc (v, add_error-valid r id m c));
  valid = λ v. absurd (cc (v, add_error-valid r id m c));
}

-- An error that is added under a test.
pub add_error_if :
    (b : Bool) (r : ArchResult) (id : ℕ) (m : ArchMessage)
    → IsClean r
    → IsWorse r (if b then add_error r id m else r)
      × ((if b then add_error r id m else r).valid ≡ true → b ≡ false)
add_error_if true r id m c =
    (IsWorse-add_error r id m c, λ v. absurd (cc (v, add_error-valid r id m c)))
add_error_if false r id m c = (IsWorse-refl r c, λ v. refl)

report_bits-IsWorse :
    (rid bit n : ℕ) (u : EffectSet) (r : ArchResult)
    → IsClean r
    → IsWorse r (report_bits rid bit n u r)
      × ((report_bits rid bit n u r).valid ≡ true → (b : ℕ) → bit ≤ b → b < bit + n → u b ≡ false)
unfolding report_bits
report_bits-IsWorse rid bit zero u r c =
    (IsWorse-refl r c, λ v b low high. absurd (omega (arith, low, high)))
report_bits-IsWorse rid bit (suc n) u r c =
    let (w, here) = add_error_if (u bit) r rid (undeclared_capability bit) c in
    let r' = if u bit then add_error r rid (undeclared_capability bit) else r in
    let (w', rest) = report_bits-IsWorse rid (suc bit) n u r' w.clean in
    (
      IsWorse-trans r r' _ w w',
      λ v b low high. elim (Bool-cases (b == bit)) [
        | inl e ↦
            let p : bit ≡ b = ground (arith, e) in subst (λ k. u k ≡ false) p (here (w'.valid v))
        | inr e ↦ rest v b (ground (arith, e, low)) (omega (arith, high))
      ],
    )

-- The effects of a sealed region of the graph, up to bit 7, are among its capabilities.
abbrev pub IsCapable : Graph → RegionSpec → Type 0
IsCapable g spec =
    spec.is_sealed ≡ true
    → spec.region < length g.regions.items
    → (b : ℕ) → b < 8
    → region_effects g spec.region b ≡ true
    → spec.capabilities b ≡ true

and_not : (x y : Bool) → (x && not y) ≡ false → x ≡ true → y ≡ true
and_not x y h e = ground arith

module _ (g : Graph) (spec : RegionSpec) where
  abbrev skips : Bool
  skips = not spec.is_sealed || leb (length g.regions.items) spec.region

  abbrev undeclared : EffectSet
  undeclared b = region_effects g spec.region b && not (spec.capabilities b)

  declared :
      (b : ℕ)
      → undeclared b ≡ false
      → region_effects g spec.region b ≡ true
      → spec.capabilities b ≡ true
  declared b q e = and_not _ _ q e

  check_spec :
      (r : ArchResult)
      → IsClean r
      → IsWorse r (if skips then r else report_bits spec.region 0 8 undeclared r)
        × ((if skips then r else report_bits spec.region 0 8 undeclared r).valid ≡ true
            → IsCapable g spec)
  check_spec r c =
      if_elim (λ t. IsWorse r t × (t.valid ≡ true → IsCapable g spec)) skips
        (λ skipped. (IsWorse-refl r c, λ v s low b h e. absurd (ground (arith, skipped, s, low))))
        (λ checked.
          let (w, none_set) = report_bits-IsWorse spec.region 0 8 undeclared r c in
          (w, λ v s low b h e. declared b (none_set v b (omega arith) (omega (arith, h))) e))

pub verify_effects-IsWorse :
    (g : Graph) (specs : List RegionSpec) (r : ArchResult)
    → IsClean r
    → IsWorse r (verify_effects g specs r)
      × ((verify_effects g specs r).valid ≡ true → All (IsCapable g) specs)
unfolding verify_effects
verify_effects-IsWorse g [] r c = (IsWorse-refl r c, λ v. tt)
verify_effects-IsWorse g (spec ∷ specs) r c =
    let (w, here) = check_spec g spec r c in
    let (w', rest) = verify_effects-IsWorse g specs _ w.clean in
    (IsWorse-trans r _ _ w w', λ v. (here (w'.valid v), rest v))
