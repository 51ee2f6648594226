-- ===== src/Graph/Indexed.antt =====
-- Predicates on the entries of an array and their indices.
use mathlib.Core.Option.{some-injective}
use arcana.Common.{
  ℕ, zero, suc, ◌+◌, ◌≡◌, refl, sym, ◌∙◌, subst, inl, inr, ◌↔◌, some, List, [], ◌∷◌, ◌++◌, arith,
  tests, ltb, length, get_elem?, set, lt_of_get_elem?, length-append, get_elem?-append_left,
  get_elem?-append_last, Bool-cases,
}

module _ {ℓ κ} {A : Type ℓ} where
  -- The entries of a list from index `i` satisfy `P` with their index.
  abbrev pub AllFrom : (ℕ → A → Type κ) → ℕ → List A → Type κ
  AllFrom P i [] = Unit
  AllFrom P i (x ∷ xs) = P i x × AllFrom P (suc i) xs

  -- Every entry satisfies `P` with its index.
  abbrev pub AllAt : (ℕ → A → Type κ) → List A → Type (ℓ ⊔ κ)
  AllAt P xs = (i : ℕ) (x : A) → get_elem? xs i ≡ some x → P i x

  AllFrom-get_elem? :
      (P : ℕ → A → Type κ) (i : ℕ) (xs : List A)
      → AllFrom P i xs
      → (k : ℕ) (x : A) → get_elem? xs k ≡ some x
      → P (i + k) x
  AllFrom-get_elem? P i [] h k x e = absurd (ground arith)
  AllFrom-get_elem? P i (y ∷ xs) h zero x e =
      let p : i ≡ i + 0 = omega arith in
      subst (λ j. P j x) p (subst (P i) (some-injective _ _ e) h.0)
  AllFrom-get_elem? P i (y ∷ xs) h (suc k) x e =
      let p : suc i + k ≡ i + suc k = omega arith in
      subst (λ j. P j x) p (AllFrom-get_elem? P (suc i) xs h.1 k x e)

  AllFrom-intro :
      (P : ℕ → A → Type κ) (i : ℕ) (xs : List A)
      → ((k : ℕ) (x : A) → get_elem? xs k ≡ some x → P (i + k) x)
      → AllFrom P i xs
  AllFrom-intro P i [] f = tt
  AllFrom-intro P i (x ∷ xs) f = (
    let p : i + 0 ≡ i = omega arith in subst (λ j. P j x) p (f 0 x refl),
    AllFrom-intro P (suc i) xs (λ k y e.
        let p : i + suc k ≡ suc i + k = omega arith in subst (λ j. P j y) p (f (suc k) y e)),
  )

  pub AllFrom-iff : (P : ℕ → A → Type κ) (xs : List A) → AllFrom P 0 xs ↔ AllAt P xs
  AllFrom-iff P xs = (
    λ h k x e.
        let p : 0 + k ≡ k = omega arith in subst (λ j. P j x) p (AllFrom-get_elem? P 0 xs h k x e),
    λ h.
        AllFrom-intro P 0 xs
          (λ k x e. let p : k ≡ 0 + k = omega arith in subst (λ j. P j x) p (h k x e)),
  )

  pub AllAt-append_last :
      (P : ℕ → A → Type κ) (xs : List A) (x : A)
      → AllAt P xs
      → P (length xs) x
      → AllAt P (xs ++ x ∷ [])
  AllAt-append_last P xs x h hx i y e = elim (Bool-cases (ltb i (length xs))) [
    | inl old ↦ h i y (sym (get_elem?-append_left xs (x ∷ []) i (omega (tests, old))) ∙ e)
    | inr new ↦
        let p : length xs ≡ i =
          omega (tests, new, lt_of_get_elem? (xs ++ x ∷ []) i y e, length-append xs (x ∷ [])) in
        let q = rw (← p, get_elem?-append_last xs x) at e in
        subst (λ j. P j y) p (subst (P (length xs)) (some-injective _ _ q) hx)
  ]

  pub AllAt-set :
      (P : ℕ → A → Type κ) (xs : List A) (i : ℕ) (v : A) → AllAt P xs → P i v → AllAt P (set xs i v)
  AllAt-set P [] i v h hv k y e = absurd (ground arith)
  AllAt-set P (x ∷ xs) zero v h hv zero y e = subst (P 0) (some-injective _ _ e) hv
  AllAt-set P (x ∷ xs) zero v h hv (suc k) y e = h (suc k) y e
  AllAt-set P (x ∷ xs) (suc i) v h hv zero y e = h 0 y e
  AllAt-set P (x ∷ xs) (suc i) v h hv (suc k) y e =
      AllAt-set (λ j. P (suc j)) xs i v (λ j z. h (suc j) z) hv k y e
