-- ===== src/Bytecode/Pool/Laws.antt =====
-- What the constant pool guarantees to the compiler that fills it and to the reader of a file.
use mathlib.Core.Option
use mathlib.Core.Option.{some-injective}
use native.Mathlib.Omega.{arith}
use arcana.Common.{
  ℕ, zero, suc, ◌≤◌, ◌<◌, ◌≡◌, refl, sym, ap, ◌⊎◌, inl, inr, ◌↔◌, true, false, Option, none, some,
  List, [], ◌∷◌, ◌++◌, ◌==◌, length, get_elem?, Bool-cases, Option-cases, get_elem?-append_last,
  append_assoc, append-nil, and-eq-true,
}
use arcana.Common.Vector.{IsFit, push-eq-some, push-eq-none_iff}
use arcana.Bytecode.Pool.{
  Constant, null, bool, i64, f64, string, Pool, bytes_eq, same_const, find_const, copy_fits,
  pool_grow, pool_add, add_f64,
}

-- Nothing in `cs` is found among the entries before it, which begin with `es`.
abbrev pub AllFresh : List Constant → List Constant → Type 0
AllFresh es [] = Unit
AllFresh es (c ∷ cs) = (find_const es c ≡ none) × AllFresh (es ++ c ∷ []) cs

-- No entry equals an earlier one, and the array lies inside its block.
pub record IsPool (p : Pool) : Type 0 where
  pub distinct : AllFresh [] p.items
  pub fit : IsFit 65536 p

AllFresh-append :
    (es cs : List Constant) (c : Constant)
    → AllFresh es cs
    → find_const (es ++ cs) c ≡ none
    → AllFresh es (cs ++ c ∷ [])
AllFresh-append es [] c h n = (rw append-nil at n, tt)
AllFresh-append es (d ∷ cs) c h n =
    (h.0, AllFresh-append (es ++ d ∷ []) cs c h.1 (rw (append_assoc es (d ∷ []) cs) n))

bytes_eq_sound : (s t : List ℕ) → bytes_eq s t ≡ true → s ≡ t
unfolding bytes_eq
bytes_eq_sound [] [] h = refl
bytes_eq_sound [] (b ∷ t) h = cc
bytes_eq_sound (a ∷ s) [] h = cc
bytes_eq_sound (a ∷ s) (b ∷ t) h =
    ground (arith, bytes_eq_sound s t, and-eq-true (a == b) (bytes_eq s t) h)

-- Constants that hold no double are compared exactly.
abbrev pub IsFloat : Constant → Type 0
IsFloat (f64 v) = Unit
IsFloat _ = ⊥

same_const_sound : (d c : Constant) → ¬ IsFloat c → same_const d c ≡ true → d ≡ c
unfolding same_const
same_const_sound null null n h = refl
same_const_sound (bool true) (bool true) n h = refl
same_const_sound (bool false) (bool false) n h = refl
same_const_sound (i64 a) (i64 b) n h = ground arith
same_const_sound (string s) (string t) n h = ap string (bytes_eq_sound s t h)
same_const_sound d (f64 v) n h = absurd (n tt)
same_const_sound d c n h = cc

-- The entry found is equal by the test.
find_const-same :
    (ds : List Constant) (c : Constant) (i : ℕ)
    → find_const ds c ≡ some i
    → (d : Constant) × (get_elem? ds i ≡ some d) × (same_const d c ≡ true)
unfolding find_const
find_const-same [] c i h = absurd (cc)
find_const-same (d ∷ ds) c zero h = elim (Bool-cases (same_const d c)) [
  | inl same ↦ (d, refl, same)
  | inr other ↦ absurd (ground (arith, find_const-same ds c))
]
find_const-same (d ∷ ds) c (suc i) h = elim (Option-cases (find_const ds c)) [
  | inl e ↦ absurd (ground arith)
  | inr (j, e) ↦ find_const-same ds c i (ground arith)
]

find_const-absent :
    (es : List Constant) (c : Constant) (i : ℕ) (d : Constant)
    → find_const es c ≡ none
    → get_elem? es i ≡ some d
    → same_const d c ≡ false
unfolding find_const
find_const-absent [] c i d h e = absurd (cc)
find_const-absent (x ∷ es) c zero d h e = ground arith
find_const-absent (x ∷ es) c (suc i) d h e = find_const-absent es c i d (ground arith) e

-- A string is shorter than 2 ^ 32 - 1 bytes.
abbrev pub IsStorable : Constant → Type 0
IsStorable (string s) = length s < 4294967295
IsStorable _ = Unit

copy_fits-IsStorable : (c : Constant) → IsStorable c → copy_fits c ≡ true
unfolding copy_fits
copy_fits-IsStorable (string s) h = ground arith
copy_fits-IsStorable null h = refl
copy_fits-IsStorable (bool b) h = refl
copy_fits-IsStorable (i64 v) h = refl
copy_fits-IsStorable (f64 v) h = refl

copy_fits-too_long : (c : Constant) → ¬ IsStorable c → copy_fits c ≡ false
unfolding copy_fits
copy_fits-too_long (string s) h = ground arith
copy_fits-too_long null h = absurd (h tt)
copy_fits-too_long (bool b) h = absurd (h tt)
copy_fits-too_long (i64 v) h = absurd (h tt)
copy_fits-too_long (f64 v) h = absurd (h tt)

module _ (p : Pool) (c : Constant) where
  pool_add-old : (i : ℕ) → find_const p.items c ≡ some i → pool_add p c ≡ some (p, i)
  unfolding pool_add
  pool_add-old i e = rw (e, pool_add)

  pool_add-fresh :
      (q : Pool)
      → find_const p.items c ≡ none
      → copy_fits c ≡ true
      → pool_grow p c ≡ some q
      → pool_add p c ≡ some (q, length p.items)
  unfolding pool_add
  pool_add-fresh q e fits g = rw (e, pool_add, fits, g)

  -- A constant that the pool lacks is appended, while the pool has fewer than 32768 entries and
  -- a string is not of 2 ^ 32 - 1 bytes.
  pub pool_add-append :
      find_const p.items c ≡ none
      → IsFit 65536 p
      → length p.items < 32768
      → IsStorable c
      → (q : Pool) × (pool_add p c ≡ some (q, length p.items))
        × (q.items ≡ p.items ++ c ∷ [])
        × IsFit 65536 q
  unfolding pool_grow
  pool_add-append absent fit room storable =
      let (size, e, fit') = push-eq-some 32768 16 (omega arith) (omega arith) p c fit room in
      (
        record { items = p.items ++ c ∷ []; cap = size },
        pool_add-fresh (record { items = p.items ++ c ∷ []; cap = size }) absent
            (copy_fits-IsStorable c storable) e,
        refl,
        fit',
      )

-- Below 32768 entries every addition, of a string one of less than 2 ^ 32 - 1 bytes, succeeds and
-- keeps the pool well formed; the index it returns
-- holds a constant equal to the given one by the pool's test, or the given constant itself, and it
-- is the given constant unless that is a double. Earlier entries stay where they were.
pub pool_add-IsPool :
    (p : Pool) (c : Constant)
    → IsPool p
    → length p.items < 32768
    → IsStorable c
    → (q : Pool) × (i : ℕ) × (added : List Constant) × (pool_add p c ≡ some (q, i))
      × IsPool q
      × (q.items ≡ p.items ++ added)
      × ((d : Constant) × (get_elem? q.items i ≡ some d)
          × ((same_const d c ≡ true) ⊎ (d ≡ c))
          × (¬ IsFloat c → d ≡ c))
pool_add-IsPool p c h room storable = elim (Option-cases (find_const p.items c)) [
  | inl absent ↦
      let (q, e, items, fit) = pool_add-append p c absent h.fit room storable in
      (
        q,
        length p.items,
        c ∷ [],
        e,
        record { distinct = rw items (AllFresh-append [] p.items c h.distinct absent); fit = fit },
        items,
        (c, rw items (get_elem?-append_last p.items c), inr refl, λ _. refl),
      )
  | inr (i, found) ↦
      let (d, at_i, same) = find_const-same p.items c i found in
      (
        p,
        i,
        [],
        pool_add-old p c i found,
        h,
        sym (append-nil p.items),
        (d, at_i, inl same, λ exact. same_const_sound d c exact same),
      )
]

map-eq-none {ℓ κ} :
    {A : Type ℓ} {B : Type κ} (f : A → B) (o : Option A) → Option.map f o ≡ none → o ≡ none
map-eq-none f none h = refl
map-eq-none f (some a) h = absurd (cc)

-- An addition to a well-formed pool writes out of bounds exactly if the constant is new and it is a
-- string of 2 ^ 32 - 1 bytes or more, whose 32-bit block size wraps, or the pool is full at a
-- capacity that has reached 32768, where the 16-bit capacity wraps to 0.
pub pool_add-eq-none_iff :
    (p : Pool) (c : Constant)
    → IsPool p
    → (pool_add p c ≡ none) ↔ (
        (find_const p.items c ≡ none)
        × ((¬ IsStorable c) ⊎ ((length p.items ≡ p.cap) × (32768 ≤ p.cap))))
unfolding pool_add pool_grow
pool_add-eq-none_iff p c h =
    let (full, over) = push-eq-none_iff 32768 16 (omega arith) (omega arith) p c h.fit in
    elim (Option-cases (find_const p.items c)) [
      | inl absent ↦ elim (Bool-cases (copy_fits c)) [
        | inl fits ↦ (
          λ e. (absent, inr (full (map-eq-none _ _ (rw (absent, pool_add, fits) at e)))),
          λ (_, why). elim why [
            | inl long ↦ absurd (cc (copy_fits-too_long c long))
            | inr wrap ↦ rw (absent, pool_add, fits, over wrap)
          ],
        )
        | inr wraps ↦ (
          λ _. (absent, inl λ short. cc (copy_fits-IsStorable c short)),
          λ _. rw (absent, pool_add, wraps),
        )
      ]
      | inr (i, found) ↦ (λ e. absurd (cc (rw (found, pool_add) at e)), λ (a, _). absurd (cc))
    ]

same_const-zeros : (d : Constant) → same_const d (f64 0) ≡ same_const d (f64 9223372036854775808)
unfolding same_const
same_const-zeros (f64 v) = ground arith
same_const-zeros d = refl

find_const-zeros :
    (ds : List Constant) → find_const ds (f64 0) ≡ find_const ds (f64 9223372036854775808)
unfolding find_const
find_const-zeros [] = refl
find_const-zeros (d ∷ ds) = rw (same_const-zeros d, find_const-zeros ds)

-- A pool that holds 0.0 as its first double equal to zero gives the index of 0.0 to -0.0.
pub add_f64-negative_zero :
    (p : Pool) (i : ℕ)
    → find_const p.items (f64 0) ≡ some i
    → add_f64 p 9223372036854775808 ≡ some (p, i)
unfolding add_f64
add_f64-negative_zero p i h = pool_add-old p (f64 9223372036854775808) i (rw find_const-zeros at h)
