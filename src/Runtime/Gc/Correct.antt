-- ===== src/Runtime/Gc/Correct.antt =====
-- A whole collection: exactly the reachable objects survive.
use mathlib.Core.List.{Memᴰ, foldl}
use arcana.Common.{
  ℕ, suc, ◌≤◌, ◌≡◌, ◌↔◌, refl, inl, inr, true, false, none, some, List, [], ◌∷◌, ◌++◌, ◌==◌,
  if◌then◌else◌, arith, length, Bool-cases,
}
use arcana.Runtime.Object.{Value, Payload, values_refs, children}
use arcana.Runtime.Gc.{Heap, Gc, mark_object, mark_roots, sweep, gc_alloc, gc_collect}
use arcana.Runtime.Gc.Reach.{Shape, shape, content, Reach, root, step, marked_at, unmarked}
use arcana.Runtime.Gc.Marking.{Marks, Marks-append, foldl-Marks, mark_object-Marks}

-- No address stands twice in the chain.
abbrev pub Unique : Shape → Type 0
Unique [] = Unit
Unique ((a, p) ∷ s) = (content s a ≡ none) × Unique s

-- Between collections: no object is marked, and no address stands twice.
pub record IsHeap (h : Heap) : Type 0 where
  pub clear : (a : ℕ) → marked_at h a ≡ false
  pub unique : Unique (shape h)

unmarked-le : (h : Heap) → unmarked h ≤ length h
unfolding unmarked
unmarked-le [] = omega arith
unmarked-le (o ∷ h) = ground (arith, unmarked-le h)

abbrev pub all_roots : List Value → List Value → List ℕ → List ℕ
all_roots stack globals open_upvalues = (values_refs stack ++ values_refs globals) ++ open_upvalues

mark_roots-Marks :
    (h : Heap) (stack globals : List Value) (open_upvalues : List ℕ)
    → Marks h (mark_roots h stack globals open_upvalues) (all_roots stack globals open_upvalues)
unfolding mark_roots
mark_roots-Marks h stack globals open_upvalues =
    let n = suc (length h) in
    let mark = mark_object n in
    let loop = foldl-Marks mark n (mark_object-Marks n) in
    let h₁ = foldl mark h (values_refs stack) in
    let h₂ = foldl mark h₁ (values_refs globals) in
    let h₃ = foldl mark h₂ open_upvalues in
    let f₁ = loop (values_refs stack) h (omega (arith, unmarked-le h)) in
    let f₂ = loop (values_refs globals) h₁ (omega (arith, unmarked-le h, f₁.fewer)) in
    let f₃ = loop open_upvalues h₂ (omega (arith, unmarked-le h, f₁.fewer, f₂.fewer)) in
    Marks-append h h₂ h₃ (values_refs stack ++ values_refs globals) open_upvalues
      (Marks-append h h₁ h₂ (values_refs stack) (values_refs globals) f₁ f₂) f₃

sweep-absent : (h : Heap) (a : ℕ) → content (shape h) a ≡ none → content (shape (sweep h)) a ≡ none
unfolding sweep content
sweep-absent [] a e = refl
sweep-absent (o ∷ h) a e = elim (Bool-cases o.marked) [
  | inl m ↦ rw m (ground (arith, sweep-absent h a))
  | inr m ↦ rw m (ground (arith, sweep-absent h a))
]

-- The sweep keeps the marked objects.
content-sweep :
    (h : Heap) (a : ℕ) (p : Payload)
    → Unique (shape h)
    → (content (shape (sweep h)) a ≡ some p)
      ↔ ((content (shape h) a ≡ some p) × (marked_at h a ≡ true))
unfolding sweep content marked_at
content-sweep [] a p u = (λ e. absurd (cc), λ (e, _). e)
content-sweep (o ∷ h) a p u = elim (Bool-cases o.marked) [
  | inl m ↦ rw m (ground (arith, content-sweep h a p u.1))
  | inr m ↦ rw m (ground (arith, content-sweep h a p u.1, sweep-absent h a))
]

Unique-sweep : (h : Heap) → Unique (shape h) → Unique (shape (sweep h))
unfolding sweep
Unique-sweep [] u = tt
Unique-sweep (o ∷ h) u = elim (Bool-cases o.marked) [
  | inl m ↦ rw m (sweep-absent h o.addr u.0, Unique-sweep h u.1)
  | inr m ↦ rw m (Unique-sweep h u.1)
]

clear-sweep : (h : Heap) (a : ℕ) → marked_at (sweep h) a ≡ false
unfolding sweep marked_at
clear-sweep [] a = refl
clear-sweep (o ∷ h) a = elim (Bool-cases o.marked) [
  | inl m ↦ rw m (ground (arith, clear-sweep h a))
  | inr m ↦ rw m (clear-sweep h a)
]

module _ (h : Heap) (stack globals : List Value) (open_upvalues : List ℕ) (i : IsHeap h) where
  -- After marking, the marked objects are the reachable ones.
  complete :
      (k : Heap) (roots : List ℕ)
      → Marks h k roots
      → {a : ℕ} (p : Payload) → content (shape h) a ≡ some p
      → Reach (shape h) roots a
      → marked_at k a ≡ true
  complete k roots f {a} p e (root m) = f.reached a p m e
  complete k roots f {a} p e (step {a = b} q r e' m) =
      f.closed b a q p (complete k roots f q e' r) (i.clear b) e' m e

  exact :
      (k : Heap) (roots : List ℕ)
      → Marks h k roots
      → (a : ℕ) (p : Payload)
      → (content (shape (sweep k)) a ≡ some p)
        ↔ ((content (shape h) a ≡ some p) × Reach (shape h) roots a)
  exact k roots f a p =
      let (out, back) = content-sweep k a p (rw f.same i.unique) in
      (
        λ e.
            let (e', m) = out e in
            (
              rw f.same at e',
              elim (f.sound a m) [ inl early ↦ absurd (cc (i.clear a)) | inr r ↦ r ],
            ),
        λ (e, r). back (rw f.same e, complete k roots f p e r),
      )

-- After a collection an address holds an object exactly if it held that object before and was
-- reachable from the stack, the globals or the open upvalues.
pub gc_collect-Reach :
    (gc : Gc) (stack globals : List Value) (open_upvalues : List ℕ) (a : ℕ) (p : Payload)
    → IsHeap gc.objects
    → (content (shape (gc_collect gc stack globals open_upvalues).objects) a ≡ some p) ↔ (
        (content (shape gc.objects) a ≡ some p)
        × Reach (shape gc.objects) (all_roots stack globals open_upvalues) a)
unfolding gc_collect
gc_collect-Reach gc stack globals open_upvalues a p i =
    exact gc.objects stack globals open_upvalues i _ _
      (mark_roots-Marks gc.objects stack globals open_upvalues) a p

-- A collection leaves no mark behind and no address twice, so that the next one may run.
pub gc_collect-IsHeap :
    (gc : Gc) (stack globals : List Value) (open_upvalues : List ℕ)
    → IsHeap gc.objects
    → IsHeap (gc_collect gc stack globals open_upvalues).objects
unfolding gc_collect
gc_collect-IsHeap gc stack globals open_upvalues i =
    let f = mark_roots-Marks gc.objects stack globals open_upvalues in
    record {
      clear = clear-sweep (mark_roots gc.objects stack globals open_upvalues);
      unique =
          Unique-sweep (mark_roots gc.objects stack globals open_upvalues) (rw f.same i.unique);
    }

-- Every reference of an object of the chain leads to an object of the chain.
abbrev pub IsClosed : Heap → Type 0
IsClosed h =
    (a b : ℕ) (p : Payload)
    → content (shape h) a ≡ some p
    → Memᴰ b (children p)
    → (q : Payload) × (content (shape h) b ≡ some q)

-- An allocation at a fresh address keeps the chain well formed, and adds just that object.
pub gc_alloc-IsHeap :
    (gc : Gc) (size a : ℕ) (p : Payload)
    → IsHeap gc.objects
    → content (shape gc.objects) a ≡ none
    → IsHeap (gc_alloc gc size p (some a)).objects
      × ((b : ℕ)
          → content (shape (gc_alloc gc size p (some a)).objects) b
            ≡ (if a == b then some p else content (shape gc.objects) b))
unfolding gc_alloc content marked_at
gc_alloc-IsHeap gc size a p i fresh =
    (record { clear = λ b. ground (arith, i.clear b); unique = (fresh, i.unique) }, λ b. refl)
