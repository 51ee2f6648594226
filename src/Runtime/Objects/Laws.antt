-- ===== src/Runtime/Objects/Laws.antt =====
-- The maps of src/runtime/object.c as maps.
use arcana.Common.{
  ℕ, zero, suc, ◌≡◌, refl, sym, ap, ◌∙◌, subst, Bool, true, false, Option, none, some, List, [],
  ◌∷◌, ◌++◌, inl, inr, ◌⊎◌, length, ltb, Bool-cases, arith,
}
use mathlib.Core.Option.{some-injective}
use arcana.Common.Vector.{Vec, push, grown_cap}
use arcana.Runtime.Object.{Value}
use arcana.Runtime.Gc.{Heap}
use arcana.Runtime.Objects.{
  val_equal, later, found, map_find, set_value, value_at, appended, stored, map_set, lookup,
  map_get,
}

Search-cases :
    (r : Option (Option ℕ)) → (r ≡ none) ⊎ ((r ≡ some none) ⊎ ((i : ℕ) × (r ≡ some (some i))))
Search-cases none = inl refl
Search-cases (some none) = inr (inl refl)
Search-cases (some (some i)) = inr (inr (i, refl))

-- Two lists with the same value at the index that a search found.
lookup-kept :
    (xs ys : List (Value × Value)) (r : Option (Option ℕ))
    → ((j : ℕ) → r ≡ some (some j) → value_at xs j ≡ value_at ys j)
    → lookup xs r ≡ lookup ys r
unfolding lookup
lookup-kept xs ys none e = refl
lookup-kept xs ys (some none) e = refl
lookup-kept xs ys (some (some j)) e = ap some (e j refl)

suc-injective : {a b : ℕ} → suc a ≡ suc b → a ≡ b
suc-injective e = omega (arith, e)

later-some :
    (r : Option (Option ℕ)) (i : ℕ)
    → later r ≡ some (some i)
    → (j : ℕ) × (i ≡ suc j) × (r ≡ some (some j))
later-some none i e = cc
later-some (some none) i e = cc
later-some (some (some j)) i e = (j, sym (some-injective _ _ (some-injective _ _ e)), refl)

found-some :
    (t : Option Bool) (r : Option (Option ℕ)) (i : ℕ)
    → found t r ≡ some (some i)
    → ((i ≡ 0) × (t ≡ some true)) ⊎ ((j : ℕ) × (i ≡ suc j) × (t ≡ some false) × (r ≡ some (some j)))
found-some none r i e = cc
found-some (some true) r i e = inl (sym (some-injective _ _ (some-injective _ _ e)), refl)
found-some (some false) r i e = let (j, p, q) = later-some r i e in inr (j, p, refl, q)

found-none :
    (t : Option Bool) (r : Option (Option ℕ))
    → found t r ≡ some none
    → (t ≡ some false) × (r ≡ some none)
found-none none r e = cc
found-none (some true) r e = cc
found-none (some false) none e = cc
found-none (some false) (some none) e = (refl, refl)
found-none (some false) (some (some j)) e = cc

module _ (h : Heap) where
  -- A write to a value leaves the keys, so each search finds what it found.
  map_find-set_value :
      (m : List (Value × Value)) (i : ℕ) (v k : Value)
      → map_find h (set_value m i v) k ≡ map_find h m k
  unfolding map_find set_value
  map_find-set_value [] i v k = refl
  map_find-set_value ((k', w) ∷ m) zero v k = refl
  map_find-set_value ((k', w) ∷ m) (suc i) v k =
      ap (found (val_equal h k' k)) (map_find-set_value m i v k)

  value_at-set_value :
      (m : List (Value × Value)) (i : ℕ) (v k : Value)
      → map_find h m k ≡ some (some i)
      → value_at (set_value m i v) i ≡ some v
  unfolding map_find set_value value_at
  value_at-set_value [] i v k e = cc
  value_at-set_value ((k', w) ∷ m) zero v k e = refl
  value_at-set_value ((k', w) ∷ m) (suc i) v k e = elim (found-some _ _ _ e) [
    | inl (z, _) ↦ absurd (omega (arith, z))
    | inr (j, p, _, q) ↦ value_at-set_value m i v k (rw (sym (suc-injective p)) at q)
  ]

  -- Another key is found elsewhere, so its value stays.
  value_at-other :
      (m : List (Value × Value)) (i j : ℕ) (v k k₂ : Value)
      → ((x : Value) → val_equal h x k ≡ some true → val_equal h x k₂ ≡ some false)
      → map_find h m k ≡ some (some i)
      → map_find h m k₂ ≡ some (some j)
      → value_at (set_value m i v) j ≡ value_at m j
  unfolding map_find set_value value_at
  value_at-other [] i j v k k₂ apart e f = cc
  value_at-other ((k', w) ∷ m) zero zero v k k₂ apart e f = elim (found-some _ _ _ e) [
    | inl (_, t) ↦ elim (found-some _ _ _ f) [
      | inl (_, u) ↦ cc (apart k' t, u)
      | inr (_, p, _, _) ↦ absurd (omega (arith, p))
    ]
    | inr (_, p, _, _) ↦ absurd (omega (arith, p))
  ]
  value_at-other ((k', w) ∷ m) zero (suc j) v k k₂ apart e f = refl
  value_at-other ((k', w) ∷ m) (suc i) zero v k k₂ apart e f = refl
  value_at-other ((k', w) ∷ m) (suc i) (suc j) v k k₂ apart e f = elim (found-some _ _ _ e) [
    | inl (z, _) ↦ absurd (omega (arith, z))
    | inr (i', p, _, q) ↦ elim (found-some _ _ _ f) [
      | inl (z, _) ↦ absurd (omega (arith, z))
      | inr (j', p', _, q') ↦
          value_at-other m i j v k k₂ apart (rw (sym (suc-injective p)) at q)
            (rw (sym (suc-injective p')) at q')
    ]
  ]

  map_find-append_last :
      (m : List (Value × Value)) (k v : Value)
      → map_find h m k ≡ some none
      → val_equal h k k ≡ some true
      → map_find h (m ++ (k, v) ∷ []) k ≡ some (some (length m))
  unfolding map_find
  map_find-append_last [] k v e same = ap (λ t. found t (some none)) same
  map_find-append_last ((k', w) ∷ m) k v e same =
      let (t, r) = found-none _ _ e in
      ap (λ u. found u (map_find h (m ++ (k, v) ∷ []) k)) t
      ∙ ap later (map_find-append_last m k v r same)

  map_find-append_other :
      (m : List (Value × Value)) (k v k₂ : Value)
      → val_equal h k k₂ ≡ some false
      → map_find h (m ++ (k, v) ∷ []) k₂ ≡ map_find h m k₂
  unfolding map_find
  map_find-append_other [] k v k₂ other = ap (λ t. found t (some none)) other
  map_find-append_other ((k', w) ∷ m) k v k₂ other =
      ap (found (val_equal h k' k₂)) (map_find-append_other m k v k₂ other)

  value_at-append_last :
      (m : List (Value × Value)) (k v : Value) → value_at (m ++ (k, v) ∷ []) (length m) ≡ some v
  unfolding value_at
  value_at-append_last [] k v = refl
  value_at-append_last (_ ∷ m) k v = value_at-append_last m k v

  value_at-append_left :
      (m : List (Value × Value)) (k v k₂ : Value) (j : ℕ)
      → map_find h m k₂ ≡ some (some j)
      → value_at (m ++ (k, v) ∷ []) j ≡ value_at m j
  unfolding value_at map_find
  value_at-append_left [] k v k₂ j e = cc
  value_at-append_left (_ ∷ m) k v k₂ zero e = refl
  value_at-append_left ((k', w) ∷ m) k v k₂ (suc j) e = elim (found-some _ _ _ e) [
    | inl (z, _) ↦ absurd (omega (arith, z))
    | inr (j', p, _, q) ↦ value_at-append_left m k v k₂ j (rw (sym (suc-injective p)) at q)
  ]

appended-items :
    (limit low : ℕ) (m m' : Vec (Value × Value)) (x : Value × Value) (b : Bool)
    → appended (push limit low m x) ≡ some (m', b)
    → m'.items ≡ m.items ++ x ∷ []
unfolding push
appended-items limit low m m' x b e =
    elim (Bool-cases (ltb (length m.items) (grown_cap limit low (length m.items) m.cap))) [
      | inl fits ↦ sym (ap (λ p. p.0.items) (some-injective _ _ (rw fits at e)))
      | inr full ↦ cc (rw full at e)
    ]

module _ (h : Heap) (m m' : Vec (Value × Value)) (k v : Value) where
  -- What a successful `map_set` leaves in the list of entries.
  map_set-items :
      (present : Bool)
      → map_set h m k v ≡ some (m', present)
      → ((i : ℕ) × (map_find h m.items k ≡ some (some i)) × (m'.items ≡ set_value m.items i v))
        ⊎ ((map_find h m.items k ≡ some none) × (m'.items ≡ m.items ++ (k, v) ∷ []))
  unfolding map_set stored
  map_set-items present e = elim (Search-cases (map_find h m.items k)) [
    | inl f ↦ cc (subst (λ r. stored m k v r ≡ some (m', present)) f e)
    | inr (inl f) ↦ inr (
      f,
      appended-items 2147483648 8 m m' (k, v) present
          (subst (λ r. stored m k v r ≡ some (m', present)) f e),
    )
    | inr (inr (i, f)) ↦
        let stored_at = subst (λ r. stored m k v r ≡ some (m', present)) f e in
        inl (i, f, sym (ap (λ p. p.0.items) (some-injective _ _ stored_at)))
  ]

  -- After a store under a key that equals itself, the key has the stored value, and each key that
  -- differs from it, and from every key equal to it, has the value that it had.
  pub map_get-map_set :
      (present : Bool)
      → val_equal h k k ≡ some true
      → map_set h m k v ≡ some (m', present)
      → (map_get h m'.items k ≡ some (some v))
        × ((k₂ : Value)
            → val_equal h k k₂ ≡ some false
            → ((x : Value) → val_equal h x k ≡ some true → val_equal h x k₂ ≡ some false)
            → map_get h m'.items k₂ ≡ map_get h m.items k₂)
  unfolding map_get
  map_get-map_set present same e = elim (map_set-items present e) [
    | inl (i, f, items) ↦ (
      ap (λ es. lookup es (map_find h es k)) items
          ∙ (ap (lookup (set_value m.items i v)) (map_find-set_value h m.items i v k ∙ f)
              ∙ ap some (value_at-set_value h m.items i v k f)),
      λ k₂ other apart.
          ap (λ es. lookup es (map_find h es k₂)) items
          ∙ (ap (lookup (set_value m.items i v)) (map_find-set_value h m.items i v k₂)
              ∙ lookup-kept (set_value m.items i v) m.items (map_find h m.items k₂)
                  λ j g. value_at-other h m.items i j v k k₂ apart f g),
    )
    | inr (f, items) ↦ (
      ap (λ es. lookup es (map_find h es k)) items
          ∙ (ap (lookup (m.items ++ (k, v) ∷ [])) (map_find-append_last h m.items k v f same)
              ∙ ap some (value_at-append_last h m.items k v)),
      λ k₂ other apart.
          ap (λ es. lookup es (map_find h es k₂)) items
          ∙ (ap (lookup (m.items ++ (k, v) ∷ [])) (map_find-append_other h m.items k v k₂ other)
              ∙ lookup-kept (m.items ++ (k, v) ∷ []) m.items (map_find h m.items k₂)
                  λ j g. value_at-append_left h m.items k v k₂ j g),
    )
  ]
