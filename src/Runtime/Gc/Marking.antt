-- ===== src/Runtime/Gc/Marking.antt =====
-- One call of `arc_gc_mark_object`, and a loop of such calls, against reachability.
use mathlib.Core.List.{Memᴰ, foldl}
use mathlib.Core.List.Memᴰ
use mathlib.Core.Option
use mathlib.Core.Option.{some-injective}
use arcana.Common.{
  ℕ, zero, suc, ◌≤◌, ◌<◌, ◌≡◌, refl, sym, ap, ◌∙◌, subst, ◌⊎◌, inl, inr, true, false, some, List,
  [], ◌∷◌, ◌++◌, ◌==◌, arith, Bool-cases, Option-cases, ==_iff,
}
use arcana.Runtime.Object.{Payload, Object, children}
use arcana.Runtime.Gc.{Heap, find_object, set_mark, visit, mark_object}
use arcana.Runtime.Gc.Reach.{
  shape, content, Reach, root, step, Reach-mono, Reach-trans, marked_at, marked_at-find,
  content-shape, shape-set_mark, marked_at-set_mark_self, marked_at-set_mark_ne, unmarked,
  unmarked-set_mark_le, unmarked-set_mark,
}

-- Marking from `starts` took the heap `h` to `k`.
pub record Marks (h k : Heap) (starts : List ℕ) : Type 0 where
  pub same : shape k ≡ shape h
  pub grows : (a : ℕ) → marked_at h a ≡ true → marked_at k a ≡ true
  pub reached :
      (a : ℕ) (p : Payload) → Memᴰ a starts → content (shape h) a ≡ some p → marked_at k a ≡ true
  pub closed :
      (a b : ℕ) (p q : Payload)
      → marked_at k a ≡ true
      → marked_at h a ≡ false
      → content (shape h) a ≡ some p
      → Memᴰ b (children p)
      → content (shape h) b ≡ some q
      → marked_at k b ≡ true
  pub sound : (a : ℕ) → marked_at k a ≡ true → (marked_at h a ≡ true) ⊎ Reach (shape h) starts a
  pub fewer : unmarked k ≤ unmarked h

pub Marks-nil : (h : Heap) → Marks h h []
Marks-nil h = record {
  same = refl;
  grows = λ a m. m;
  reached = λ a p n e. absurd (Memᴰ.not-nil n);
  closed = λ a b p q m n. absurd (cc);
  sound = λ a m. inl m;
  fewer = omega arith;
}

-- Marking from nothing marked before, for an object that needs no mark.
Marks-skip :
    (h : Heap) (a : ℕ)
    → ((p : Payload) → content (shape h) a ≡ some p → marked_at h a ≡ true)
    → Marks h h (a ∷ [])
Marks-skip h a f = record {
  same = refl;
  grows = λ b m. m;
  reached = λ b p n e. let q = Memᴰ.eq_of_singleton n in rw q (f p (rw q at e));
  closed = λ b c p q m n. absurd (cc);
  sound = λ b m. inl m;
  fewer = omega arith;
}

module _ (h k l : Heap) (xs ys : List ℕ) (f : Marks h k xs) (g : Marks k l ys) where
  Marks-closed :
      (a b : ℕ) (p q : Payload)
      → marked_at l a ≡ true
      → marked_at h a ≡ false
      → content (shape h) a ≡ some p
      → Memᴰ b (children p)
      → content (shape h) b ≡ some q
      → marked_at l b ≡ true
  Marks-closed a b p q m n e i e' = elim (Bool-cases (marked_at k a)) [
    | inl early ↦ g.grows b (f.closed a b p q early n e i e')
    | inr late ↦ g.closed a b p q m late (rw f.same e) i (rw f.same e')
  ]

  Marks-sound :
      (a : ℕ) → marked_at l a ≡ true → (marked_at h a ≡ true) ⊎ Reach (shape h) (xs ++ ys) a
  Marks-sound a m = elim (g.sound a m) [
    | inr r ↦
        inr (Reach-mono (shape h) ys (xs ++ ys) (λ b i. Memᴰ.append_right xs i) (rw f.same at r))
    | inl early ↦ elim (f.sound a early) [
      | inl before ↦ inl before
      | inr r ↦ inr (Reach-mono (shape h) xs (xs ++ ys) (λ b i. Memᴰ.append_left ys i) r)
    ]
  ]

  pub Marks-append : Marks h l (xs ++ ys)
  Marks-append = record {
    same = g.same ∙ f.same;
    grows = λ a m. g.grows a (f.grows a m);
    reached = λ a p i e. elim (Memᴰ.append_cases xs i) [
      | inl x ↦ g.grows a (f.reached a p x e)
      | inr y ↦ g.reached a p y (rw f.same e)
    ];
    closed = Marks-closed;
    sound = Marks-sound;
    fewer = omega (arith, f.fewer, g.fewer);
  }

-- A loop of calls that mark from one object each marks from all of them.
pub foldl-Marks :
    (mark_next : Heap → ℕ → Heap) (n : ℕ)
    → ((h : Heap) (a : ℕ) → unmarked h < n → Marks h (mark_next h a) (a ∷ []))
    → (xs : List ℕ) (h : Heap) → unmarked h < n
    → Marks h (foldl mark_next h xs) xs
foldl-Marks mark_next n f [] h few = Marks-nil h
foldl-Marks mark_next n f (a ∷ xs) h few =
    let first = f h a few in
    Marks-append h (mark_next h a) (foldl mark_next (mark_next h a) xs) (a ∷ []) xs first
      (foldl-Marks mark_next n f xs (mark_next h a) (omega (arith, first.fewer)))

module _ (h k : Heap) (a : ℕ) (o : Object) (found : find_object h a ≡ some o)
    (new : o.marked ≡ false) (f : Marks (set_mark a h) k (children o.payload)) where
  same-h : shape (set_mark a h) ≡ shape h
  same-h = shape-set_mark a h

  content-a : content (shape h) a ≡ some o.payload
  content-a = content-shape h a ∙ ap (Option.map (λ (x : Object). x.payload)) found

  marked-a : marked_at k a ≡ true
  marked-a = f.grows a (marked_at-set_mark_self a h o found)

  enter-grows : (b : ℕ) → marked_at h b ≡ true → marked_at k b ≡ true
  enter-grows b m = elim (Bool-cases (a == b)) [
    | inl e ↦ subst (λ x. marked_at k x ≡ true) ((==_iff a b).0 e) marked-a
    | inr e ↦ f.grows b (marked_at-set_mark_ne a b h e ∙ m)
  ]

  enter-closed :
      (b c : ℕ) (p q : Payload)
      → marked_at k b ≡ true
      → marked_at h b ≡ false
      → content (shape h) b ≡ some p
      → Memᴰ c (children p)
      → content (shape h) c ≡ some q
      → marked_at k c ≡ true
  enter-closed b c p q m n e i e' = elim (Bool-cases (a == b)) [
    | inl s ↦
        let same_p = some-injective _ _ (
          sym e ∙ subst (λ x. content (shape h) x ≡ some o.payload) ((==_iff a b).0 s) content-a) in
        f.reached c q (subst (λ x. Memᴰ c (children x)) same_p i) (rw same-h e')
    | inr s ↦ f.closed b c p q m (marked_at-set_mark_ne a b h s ∙ n) (rw same-h e) i (rw same-h e')
  ]

  enter_sound : (b : ℕ) → marked_at k b ≡ true → (marked_at h b ≡ true) ⊎ Reach (shape h) (a ∷ []) b
  enter_sound b m = elim (f.sound b m) [
    | inr r ↦ inr (from_child b (rw same-h at r))
    | inl early ↦ elim (Bool-cases (a == b)) [
      | inl e ↦ inr (root (Memᴰ.head (sym ((==_iff a b).0 e))))
      | inr e ↦ inl (sym (marked_at-set_mark_ne a b h e) ∙ early)
    ]
  ]
    where
      from_child : (b : ℕ) → Reach (shape h) (children o.payload) b → Reach (shape h) (a ∷ []) b
      from_child b r =
          Reach-trans (shape h) (children o.payload) (a ∷ [])
            (λ c i. step o.payload (root (Memᴰ.head refl)) content-a i) r

  -- The call on an unmarked object, whose references have been marked from.
  enter-Marks : Marks h k (a ∷ [])
  enter-Marks = record {
    same = f.same ∙ same-h;
    grows = enter-grows;
    reached = λ b p i e. subst (λ x. marked_at k x ≡ true) (sym (Memᴰ.eq_of_singleton i)) marked-a;
    closed = enter-closed;
    sound = enter_sound;
    fewer = omega (arith, f.fewer, unmarked-set_mark_le a h);
  }

-- A call with enough fuel marks the object and all that is reachable from it over objects that were
-- not marked before.
pub mark_object-Marks :
    (fuel : ℕ) (h : Heap) (a : ℕ) → unmarked h < fuel → Marks h (mark_object fuel h a) (a ∷ [])
unfolding mark_object
mark_object-Marks zero h a few = elim few [ ]
mark_object-Marks (suc fuel) h a few = elim (Option-cases (find_object h a)) [
  | inl e ↦ rw (e, visit) (Marks-skip h a (λ p c. absurd (cc (content-shape h a, e))))
  | inr (o, e) ↦ elim (Bool-cases o.marked) [
    | inl m ↦ rw (e, visit, m) (Marks-skip h a (λ p c. marked_at-find h a o e ∙ m))
    | inr m ↦
        rw (e, visit, m)
          (enter-Marks h (foldl (mark_object fuel) (set_mark a h) (children o.payload)) a o e m (
            foldl-Marks (mark_object fuel) fuel (mark_object-Marks fuel) (children o.payload)
              (set_mark a h) (omega (arith, unmarked-set_mark a h o e m))))
  ]
]
