-- ===== src/Runtime/Gc/Reach.antt =====
-- Reachability, the specification of the collector, and the heap without its marks.
use mathlib.Core.List.{Memᴰ}
use mathlib.Core.Option
use arcana.Common.{
  ℕ, suc, ◌≤◌, ◌<◌, ◌≡◌, refl, Bool, true, false, Option, none, some, List, [], ◌∷◌, ◌==◌,
  if◌then◌else◌, arith,
}
use arcana.Runtime.Object.{Payload, Object, children}
use arcana.Runtime.Gc.{Heap, find_object, set_mark}

-- What the collector must not change: addresses and contents, in order.
abbrev pub Shape : Type 0
Shape = List (ℕ × Payload)

abbrev pub shape : Heap → Shape
shape [] = []
shape (o ∷ h) = (o.addr, o.payload) ∷ shape h

unfoldable pub content : Shape → ℕ → Option Payload
content [] a = none
content ((b, p) ∷ s) a = if b == a then some p else content s a

-- From the roots, following the references of objects that exist.
pub data Reach (s : Shape) (roots : List ℕ) : ℕ → Type 0 where
  root : {a : ℕ} → Memᴰ a roots → Reach s roots a
  step :
      {a b : ℕ} (p : Payload)
      → Reach s roots a
      → content s a ≡ some p
      → Memᴰ b (children p)
      → Reach s roots b

pub Reach-mono :
    (s : Shape) (xs ys : List ℕ) {a : ℕ}
    → ((b : ℕ) → Memᴰ b xs → Memᴰ b ys)
    → Reach s xs a
    → Reach s ys a
Reach-mono s xs ys f (root m) = root (f _ m)
Reach-mono s xs ys f (step p r e m) = step p (Reach-mono s xs ys f r) e m

-- What is reachable from `xs` is reachable from where all of `xs` is reachable.
pub Reach-trans :
    (s : Shape) (xs ys : List ℕ) {a : ℕ}
    → ((b : ℕ) → Memᴰ b xs → Reach s ys b)
    → Reach s xs a
    → Reach s ys a
Reach-trans s xs ys f (root m) = f _ m
Reach-trans s xs ys f (step p r e m) = step p (Reach-trans s xs ys f r) e m

unfoldable pub marked_at : Heap → ℕ → Bool
marked_at [] a = false
marked_at (o ∷ h) a = if o.addr == a then o.marked else marked_at h a

pub marked_at-find :
    (h : Heap) (a : ℕ) (o : Object) → find_object h a ≡ some o → marked_at h a ≡ o.marked
unfolding marked_at find_object
marked_at-find [] a o e = absurd (cc)
marked_at-find (x ∷ h) a o e = ground (arith, marked_at-find h a o)

pub content-shape :
    (h : Heap) (a : ℕ)
    → content (shape h) a ≡ Option.map (λ (o : Object). o.payload) (find_object h a)
unfolding content find_object
content-shape [] a = refl
content-shape (o ∷ h) a = ground (arith, content-shape h a)

pub shape-set_mark : (a : ℕ) (h : Heap) → shape (set_mark a h) ≡ shape h
unfolding set_mark
shape-set_mark a [] = refl
shape-set_mark a (o ∷ h) = ground (arith, shape-set_mark a h)

pub marked_at-set_mark_self :
    (a : ℕ) (h : Heap) (o : Object) → find_object h a ≡ some o → marked_at (set_mark a h) a ≡ true
unfolding marked_at set_mark find_object
marked_at-set_mark_self a [] o e = absurd (cc)
marked_at-set_mark_self a (x ∷ h) o e = ground (arith, marked_at-set_mark_self a h o)

pub marked_at-set_mark_ne :
    (a b : ℕ) (h : Heap) → (a == b) ≡ false → marked_at (set_mark a h) b ≡ marked_at h b
unfolding marked_at set_mark
marked_at-set_mark_ne a b [] e = refl
marked_at-set_mark_ne a b (x ∷ h) e = ground (arith, marked_at-set_mark_ne a b h)

-- The objects that are not yet marked.
unfoldable pub unmarked : Heap → ℕ
unmarked [] = 0
unmarked (o ∷ h) = if o.marked then unmarked h else suc (unmarked h)

pub unmarked-set_mark_le : (a : ℕ) (h : Heap) → unmarked (set_mark a h) ≤ unmarked h
unfolding unmarked set_mark
unmarked-set_mark_le a [] = omega arith
unmarked-set_mark_le a (o ∷ h) = ground (arith, unmarked-set_mark_le a h)

pub unmarked-set_mark :
    (a : ℕ) (h : Heap) (o : Object)
    → find_object h a ≡ some o
    → o.marked ≡ false
    → unmarked (set_mark a h) < unmarked h
unfolding unmarked set_mark find_object
unmarked-set_mark a [] o e m = absurd (cc)
unmarked-set_mark a (x ∷ h) o e m =
    ground (arith, unmarked-set_mark_le a h, unmarked-set_mark a h o)
