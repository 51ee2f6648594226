-- ===== src/Semantic/Blocks.antt =====
-- What a block of the source leaves of the scopes.
use mathlib.Core.Option.{some-injective}
use arcana.Common.{
  ℕ, zero, suc, ◌+◌, ◌-◌, ◌≤◌, ◌<◌, ◌≡◌, refl, sym, ap, ◌∙◌, subst, Bool, true, false, none, some,
  List, [], ◌∷◌, ltb, ◌==◌, if◌then◌else◌, inl, inr, arith, Bool-cases, ==_refl, ==_iff,
}
use arcana.Bytecode.Pool.{bytes_eq}
use arcana.Semantic.Scope.{
  scope_max_depth, scope_max_locals, Local, Scope, scope_push, scope_pop, find_below, scope_find,
  scope_add,
}

-- A run of declarations and of nested blocks, each opened and closed.
pub data Block : Scope → Scope → Type 0 where
  empty : {s : Scope} → Block s s
  local :
      {s s' s'' : Scope} (name : List ℕ) (slot : ℕ)
      → scope_add s name ≡ some (s', slot)
      → Block s' s''
      → Block s s''
  nested :
      {s opened inner closed s'' : Scope}
      → scope_push s ≡ some opened
      → Block opened inner
      → scope_pop inner ≡ some closed
      → Block closed s''
      → Block s s''

-- The locals and the starts that were there stay.
record Extends (s s' : Scope) : Type 0 where
  depth : s'.scope_depth ≡ s.scope_depth
  starts : (i : ℕ) → i < s.scope_depth → s'.scope_starts i ≡ s.scope_starts i
  more : s.local_count ≤ s'.local_count
  locals : (i : ℕ) → i < s.local_count → s'.locals i ≡ s.locals i

Extends-trans : {a b c : Scope} → Extends a b → Extends b c → Extends a c
Extends-trans x y = record {
  depth = y.depth ∙ x.depth;
  starts = λ i h. y.starts i (omega (arith, x.depth)) ∙ x.starts i h;
  more = omega (arith, x.more, y.more);
  locals = λ i h. y.locals i (omega (arith, x.more)) ∙ x.locals i h;
}

find_below-same :
    (f g : ℕ → Local) (n : ℕ) (name : List ℕ)
    → ((i : ℕ) → i < n → f i ≡ g i)
    → find_below f n name ≡ find_below g n name
unfolding find_below
find_below-same f g zero name h = refl
find_below-same f g (suc n) name h =
    let rest = find_below-same f g n name (λ i p. h i (omega arith)) in
    ap (λ l. if bytes_eq l.name name then some l.slot else find_below f n name) (h n (omega arith))
    ∙ ap (λ r. if bytes_eq (g n).name name then some (g n).slot else r) rest

guard-some {ℓ} :
    {A : Type ℓ} (b : Bool) (x y : A) → (if b then some x else none) ≡ some y → (b ≡ true) × (x ≡ y)
guard-some true x y e = (refl, some-injective _ _ e)
guard-some false x y e = cc

-- A write at the count is not seen below it.
if-below {ℓ} : {A : Type ℓ} (i n : ℕ) (x y : A) → i < n → (if i == n then x else y) ≡ y
if-below i n x y h = elim (Bool-cases (i == n)) [
  | inl e ↦ absurd (omega (arith, (==_iff i n).0 e))
  | inr e ↦ ap (λ b. if b then x else y) e
]

scope_add-Extends :
    (s s' : Scope) (name : List ℕ) (slot : ℕ) → scope_add s name ≡ some (s', slot) → Extends s s'
unfolding scope_add
scope_add-Extends s s' name slot e =
    let (_, p) = guard-some (ltb s.local_count scope_max_locals) _ _ e in
    subst (Extends s) (ap (λ r. r.0) p) (record {
      depth = refl;
      starts = λ i h. refl;
      more = omega arith;
      locals = λ i h. if-below i s.local_count _ _ h;
    })

abbrev opened_of : Scope → Scope
opened_of s = record s {
  scope_starts = λ j. if j == s.scope_depth then s.local_count else s.scope_starts j;
  scope_depth = s.scope_depth + 1;
}

abbrev closed_of : Scope → Scope
closed_of s = record s {
  local_count = s.scope_starts (s.scope_depth - 1);
  scope_depth = s.scope_depth - 1;
}

-- The start of a scope that was opened is the count at that time.
start-of_opened :
    (s inner : Scope)
    → Extends (opened_of s) inner
    → inner.scope_starts (inner.scope_depth - 1) ≡ s.local_count
start-of_opened s inner x =
    let depth : inner.scope_depth - 1 ≡ s.scope_depth = omega (arith, x.depth) in
    ap inner.scope_starts depth
    ∙ (x.starts s.scope_depth (omega arith) ∙ rw (==_refl s.scope_depth) refl)

opened-Extends : (s inner : Scope) → Extends (opened_of s) inner → Extends s (closed_of inner)
opened-Extends s inner x = record {
  depth = omega (arith, x.depth);
  starts = λ i h. x.starts i (omega arith) ∙ if-below i s.scope_depth _ _ h;
  more = omega (arith, start-of_opened s inner x);
  locals = x.locals;
}

-- A block that is opened, run and closed leaves the scope as it was.
closed-Extends :
    (s opened inner closed : Scope)
    → scope_push s ≡ some opened
    → Extends opened inner
    → scope_pop inner ≡ some closed
    → (Extends s closed) × (closed.local_count ≡ s.local_count)
unfolding scope_push scope_pop
closed-Extends s opened inner closed push x pop =
    let (_, o) = guard-some (ltb s.scope_depth scope_max_depth) _ _ push in
    let (_, c) = guard-some (ltb 0 inner.scope_depth) _ _ pop in
    let x' = subst (λ v. Extends v inner) (sym o) x in
    (
      subst (Extends s) c (opened-Extends s inner x'),
      subst (λ v. v.local_count ≡ s.local_count) c (start-of_opened s inner x'),
    )

Block-Extends : (s s' : Scope) → Block s s' → Extends s s'
Block-Extends s s' empty = record {
  depth = refl;
  starts = λ i h. refl;
  more = omega arith;
  locals = λ i h. refl;
}
Block-Extends s s'' (local {s' = s'} name slot e rest) =
    Extends-trans (scope_add-Extends s s' name slot e) (Block-Extends s' s'' rest)
Block-Extends s s'' (nested {opened = o} {inner = i} {closed = c} push body pop rest) =
    let (x, _) = closed-Extends s o i c push (Block-Extends o i body) pop in
    Extends-trans x (Block-Extends c s'' rest)

-- After a block with any declarations and nested blocks is closed, each name has the slot that it had
-- before the block was opened, and the next declaration gets the slot that it would have got.
pub Block-find :
    (s opened inner closed : Scope)
    → scope_push s ≡ some opened
    → Block opened inner
    → scope_pop inner ≡ some closed
    → ((name : List ℕ) → scope_find closed name ≡ scope_find s name)
      × (closed.local_count ≡ s.local_count)
      × (closed.scope_depth ≡ s.scope_depth)
unfolding scope_find
Block-find s opened inner closed push body pop =
    let (x, count) =
      closed-Extends s opened inner closed push (Block-Extends opened inner body) pop in
    (
      λ name.
          ap (λ n. find_below closed.locals n name) count
          ∙ find_below-same closed.locals s.locals s.local_count name x.locals,
      count,
      x.depth,
    )

bytes_eq_refl : (s : List ℕ) → bytes_eq s s ≡ true
unfolding bytes_eq
bytes_eq_refl [] = refl
bytes_eq_refl (b ∷ bs) = rw (==_refl b) (bytes_eq_refl bs)

abbrev added_locals : Scope → List ℕ → ℕ → Local
added_locals s name j =
    if j == s.local_count then record { name = name; slot = s.local_count } else s.locals j

-- A declared name has the slot that was next, whatever it had before, and no other name changes.
pub scope_find-scope_add :
    (s s' : Scope) (name : List ℕ) (slot : ℕ)
    → scope_add s name ≡ some (s', slot)
    → (scope_find s' name ≡ some slot)
      × (slot ≡ s.local_count)
      × ((other : List ℕ) → bytes_eq name other ≡ false → scope_find s' other ≡ scope_find s other)
unfolding scope_find scope_add find_below
scope_find-scope_add s s' name slot e =
    let (_, p) = guard-some (ltb s.local_count scope_max_locals) _ _ e in
    let same : s.local_count ≡ slot = ap (λ r. r.1) p in
    let one_more : suc s.local_count ≡ s.local_count + 1 = omega arith in
    let f = added_locals s name in
    let top : f s.local_count ≡ record { name = name; slot = s.local_count } =
      rw (==_refl s.local_count) refl in
    (
      subst (λ v. find_below v.locals v.local_count name ≡ some slot) (ap (λ r. r.0) p)
          (subst (λ n. find_below f n name ≡ some slot) one_more
            (ap (λ l. if bytes_eq l.name name then some l.slot else find_below f s.local_count name)
                top
              ∙ (ap (λ b. if b then some s.local_count else find_below f s.local_count name)
                    (bytes_eq_refl name)
                  ∙ ap some same))),
      sym same,
      λ other differs.
          subst
            (λ v. find_below v.locals v.local_count other ≡ find_below s.locals s.local_count other)
            (ap (λ r. r.0) p)
            (subst (λ n. find_below f n other ≡ find_below s.locals s.local_count other) one_more
              (ap
                  (λ l.
                    if bytes_eq l.name other then some l.slot else find_below f s.local_count other)
                  top
                ∙ (ap (λ b. if b then some s.local_count else find_below f s.local_count other)
                      differs
                    ∙ find_below-same f s.locals s.local_count other
                        λ i h. if-below i s.local_count _ _ h))),
    )
