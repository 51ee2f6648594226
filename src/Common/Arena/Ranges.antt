-- ===== src/Common/Arena/Ranges.antt =====
-- The ranges that an arena gives out never overlap, and are as large as asked for.
use native.Mathlib.Nat.{mod-eq_of_lt, mod-eq-sub-mod, mod-lt, div-mul-le_self}
use arcana.Common.{
  ℕ, ◌+◌, ◌-◌, ◌*◌, ◌%◌, ◌≤◌, ◌<◌, ◌≡◌, ◌≢◌, ◌⊎◌, inl, inr, refl, sym, ap, ◌∙◌, subst, Bool, true,
  false, List, [], ◌∷◌, ltb, leb, ◌==◌, if◌then◌else◌, length, arith, tests, Bool-cases, ==_refl,
  ==_iff, All,
}
use arcana.Common.Arena.{
  arena_block_size, size_mod, block_header, Block, Arena, Range, allocated, overrun, align8, room,
  block_cap, alloc_block, alloc_aligned, arena_alloc,
}

record IsBlock (b : Block) : Type 0 where
  used : b.used ≤ b.cap
  cap : b.cap + block_header < size_mod
  aligned : b.used % 8 ≡ 0

-- How far block `n` is used; 0 where there is none yet.
unfoldable pub used_at : List Block → ℕ → ℕ
used_at [] n = 0
used_at (b ∷ bs) n = if n == length bs then b.used else used_at bs n

abbrev pub Disjoint : Range → Range → Type 0
Disjoint r s = (r.block ≢ s.block) ⊎ ((r.start + r.size ≤ s.start) ⊎ (s.start + s.size ≤ r.start))

-- Allocations one after the other, with the sizes asked for and the ranges that they gave, the last
-- one first.
pub data Allocations : Arena → List ℕ → List Range → Type 0 where
  begin : Allocations (record { blocks = []; total = 0 }) [] []
  more :
      {a a' : Arena} {sizes : List ℕ} {rs : List Range} (enough : Bool) (size : ℕ) (r : Range)
      → Allocations a sizes rs
      → arena_alloc enough a size ≡ allocated r a'
      → Allocations a' (size ∷ sizes) (r ∷ rs)

abbrev pub Apart : List Range → Type 0
Apart [] = Unit
Apart (r ∷ rs) = All (Disjoint r) rs × Apart rs

-- The range begins at a multiple of 8 and is as large as asked for, unless the size that was asked
-- for is so near to 2 ^ 64 that rounding it up wraps.
abbrev pub Covers : ℕ → Range → Type 0
Covers size r = (r.start % 8 ≡ 0) × ((size ≤ r.size) ⊎ (size_mod ≤ size + 7))

abbrev pub AllCovered : List ℕ → List Range → Type 0
AllCovered [] [] = Unit
AllCovered (n ∷ ns) (r ∷ rs) = Covers n r × AllCovered ns rs
AllCovered _ _ = ⊥

-- The range of an allocation lies above what its block had used, and is used afterwards; the other
-- blocks are as they were.
record IsFresh (blocks blocks' : List Block) (size : ℕ) (r : Range) : Type 0 where
  above : used_at blocks r.block ≤ r.start
  taken : used_at blocks' r.block ≡ r.start + r.size
  others : (n : ℕ) → n ≢ r.block → used_at blocks' n ≡ used_at blocks n
  blocks_ok : All IsBlock blocks'
  aligned : r.start % 8 ≡ 0
  size_eq : r.size ≡ size

used_at-past : (bs : List Block) (n : ℕ) → length bs ≤ n → used_at bs n ≡ 0
unfolding used_at
used_at-past [] n h = refl
used_at-past (b ∷ bs) n h = elim (Bool-cases (n == length bs)) [
  | inl e ↦ absurd (omega (arith, (==_iff n (length bs)).0 e))
  | inr e ↦ ap (λ t. if t then b.used else used_at bs n) e ∙ used_at-past bs n (omega arith)
]

if-other {ℓ} : {A : Type ℓ} (n k : ℕ) (x y : A) → n ≢ k → (if n == k then x else y) ≡ y
if-other n k x y h = elim (Bool-cases (n == k)) [
  | inl e ↦ absurd (h ((==_iff n k).0 e))
  | inr e ↦ ap (λ t. if t then x else y) e
]

guard-allocated :
    (b : Bool) (r r' : Range) (a a' : Arena)
    → (if b then overrun else allocated r a) ≡ allocated r' a'
    → (b ≡ false) × (r ≡ r') × (a ≡ a')
guard-allocated true r r' a a' e = cc
guard-allocated false r r' a a' e = (refl, cc, cc)

mod-cases : (x : ℕ) → x < 2 * size_mod → (x % size_mod ≡ x) ⊎ (x % size_mod + size_mod ≡ x)
mod-cases x h = elim (Bool-cases (ltb x size_mod)) [
  | inl e ↦ inl (mod-eq_of_lt (omega tests))
  | inr e ↦ inr (
      omega (
        tests,
        mod-eq-sub-mod {n = x} {m = size_mod} (omega tests),
        mod-eq_of_lt {n = x - size_mod} {m = size_mod} (omega tests),
      ))
]

-- A block that has room for its size did not wrap.
block_cap-fits :
    (size : ℕ)
    → size < size_mod
    → size ≤ room (block_cap size)
    → (block_cap size + block_header < size_mod) × (size ≤ block_cap size)
unfolding block_cap
block_cap-fits size small fits = elim (Bool-cases (ltb arena_block_size size)) [
  | inl e ↦
      let w = mod-cases (block_header + size) (omega arith) in
      let f = subst (λ t. size ≤ room (if t then size else arena_block_size)) e fits in
      subst
        (λ t.
          ((if t then size else arena_block_size) + block_header < size_mod)
          × (size ≤ (if t then size else arena_block_size)))
        (sym e) (omega (tests, w, f), omega arith)
  | inr e ↦
      subst
        (λ t.
          ((if t then size else arena_block_size) + block_header < size_mod)
          × (size ≤ (if t then size else arena_block_size)))
        (sym e) (omega arith, omega tests)
]

new_block-IsFresh :
    (bs : List Block) (total size : ℕ)
    → All IsBlock bs
    → IsBlock (record { used = size; cap = block_cap size })
    → IsFresh bs
        (record { used = size; cap = block_cap size } ∷ bs)
        size
        (record { block = length bs; start = 0; size = size })
unfolding used_at
new_block-IsFresh bs total size ok fits = record {
  above = omega (arith, used_at-past bs (length bs) (omega arith));
  taken = rw (==_refl (length bs)) (omega arith);
  others = λ n h. if-other n (length bs) size (used_at bs n) h;
  blocks_ok = (fits, ok);
  aligned = refl;
  size_eq = refl;
}

alloc_block-IsFresh :
    (enough : Bool) (bs : List Block) (total size : ℕ) (r : Range) (a : Arena)
    → All IsBlock bs
    → size < size_mod
    → size % 8 ≡ 0
    → alloc_block enough bs total size ≡ allocated r a
    → IsFresh bs a.blocks size r
unfolding alloc_block
alloc_block-IsFresh false bs total size r a ok small eight e = cc
alloc_block-IsFresh true bs total size r a ok small eight e =
    let (fits, p, q) = guard-allocated (ltb (room (block_cap size)) size) _ r _ a e in
    let (cap, used) = block_cap-fits size small (omega tests) in
    subst (λ v. IsFresh bs v.blocks size r) q
      (subst (IsFresh bs (record { used = size; cap = block_cap size } ∷ bs) size) p
        (new_block-IsFresh bs total size ok (record { used = used; cap = cap; aligned = eight })))

-- The sum does not wrap where the block has room for it.
sum-fits :
    (used size cap : ℕ)
    → used + size ≤ room cap
    → cap + block_header < size_mod
    → ((used + size) % size_mod ≡ used + size) × (used + size ≤ cap)
sum-fits used size cap fits small =
    let w : (block_header + cap) % size_mod ≡ block_header + cap = mod-eq_of_lt (omega arith) in
    let below : used + size ≤ cap = omega (arith, w) in (mod-eq_of_lt (omega arith), below)

used_block-IsFresh :
    (b : Block) (bs : List Block) (size k : ℕ)
    → k ≡ b.used + size
    → k ≤ b.cap
    → size % 8 ≡ 0
    → All IsBlock (b ∷ bs)
    → IsFresh
        (b ∷ bs)
        (record b { used = k } ∷ bs)
        size
        (record { block = length bs; start = b.used; size = size })
unfolding used_at
used_block-IsFresh b bs size k sum fits eight (bok, ok) = record {
  above =
      subst (λ t. (if t then b.used else used_at bs (length bs)) ≤ b.used)
        (sym (==_refl (length bs))) (omega arith);
  taken =
      subst (λ t. (if t then k else used_at bs (length bs)) ≡ b.used + size)
        (sym (==_refl (length bs))) sum;
  others = λ n h.
      if-other n (length bs) k (used_at bs n) h
      ∙ sym (if-other n (length bs) b.used (used_at bs n) h);
  blocks_ok =
      (record { used = fits; cap = bok.cap; aligned = omega (arith, bok.aligned, eight, sum) }, ok);
  aligned = bok.aligned;
  size_eq = refl;
}

alloc_aligned-IsFresh :
    (enough : Bool) (bs : List Block) (total size : ℕ) (r : Range) (a : Arena)
    → All IsBlock bs
    → size < size_mod
    → size % 8 ≡ 0
    → alloc_aligned enough bs total size ≡ allocated r a
    → IsFresh bs a.blocks size r
unfolding alloc_aligned
alloc_aligned-IsFresh enough [] total size r a ok small eight e =
    alloc_block-IsFresh enough [] total size r a ok small eight e
alloc_aligned-IsFresh enough (b ∷ bs) total size r a (bok, ok) small eight e =
    elim (Bool-cases (leb ((b.used + size) % size_mod) b.cap)) [
      | inl h ↦
          let (fits, p, q) =
            guard-allocated (ltb (room b.cap) (b.used + size)) _ r _ a (rw h at e) in
          let (sum, inside) = sum-fits b.used size b.cap (omega tests) bok.cap in
          subst (λ v. IsFresh (b ∷ bs) v.blocks size r) q
            (subst (IsFresh (b ∷ bs) _ size) p
              (used_block-IsFresh b bs size _ sum (omega (arith, sum, inside)) eight (bok, ok)))
      | inr h ↦ alloc_block-IsFresh enough (b ∷ bs) total size r a (bok, ok) small eight (rw h at e)
    ]

align8-lt : (size : ℕ) → align8 size < size_mod
unfolding align8
align8-lt size =
    let m : (size + 7) % size_mod < size_mod = mod-lt (size + 7) (omega arith) in
    omega (arith, m, div-mul-le_self ((size + 7) % size_mod) 8)

align8-mod : (size : ℕ) → align8 size % 8 ≡ 0
unfolding align8
align8-mod size = omega arith

align8-le : (size : ℕ) → (size ≤ align8 size) ⊎ (size_mod ≤ size + 7)
unfolding align8
align8-le size = elim (Bool-cases (ltb (size + 7) size_mod)) [
  | inl fits ↦
      let w : (size + 7) % size_mod ≡ size + 7 = mod-eq_of_lt (omega tests) in
      inl (omega (arith, w))
  | inr wraps ↦ inr (omega tests)
]

-- The ranges given so far end below what their blocks have used.
abbrev Used : List Block → Range → Type 0
Used bs r = r.start + r.size ≤ used_at bs r.block

module _ (bs bs' : List Block) (size : ℕ) (r : Range) (f : IsFresh bs bs' size r) where
  Used-kept : (s : Range) → Used bs s → (Disjoint r s) × Used bs' s
  Used-kept s u = elim (Bool-cases (s.block == r.block)) [
    | inl e ↦
        let same = (==_iff s.block r.block).0 e in
        let u' = subst (λ n. s.start + s.size ≤ used_at bs n) same u in
        (
          inr (inr (omega (arith, u', f.above))),
          subst (λ n. s.start + s.size ≤ used_at bs' n) (sym same)
              (omega (arith, u', f.above, f.taken)),
        )
    | inr e ↦
        let apart : s.block ≢ r.block = λ same. cc (e, (==_iff s.block r.block).1 same) in
        (
          inl λ same. apart (sym same),
          subst (λ k. s.start + s.size ≤ k) (sym (f.others s.block apart)) u,
        )
  ]

  earlier_ranges : (rs : List Range) → All (Used bs) rs → All (Disjoint r) rs × All (Used bs') rs
  earlier_ranges [] tt = (tt, tt)
  earlier_ranges (s ∷ rs) (u, us) =
      let (d, u') = Used-kept s u in let (ds, us') = earlier_ranges rs us in ((d, ds), (u', us'))

allocations :
    (a : Arena) (sizes : List ℕ) (rs : List Range)
    → Allocations a sizes rs
    → All IsBlock a.blocks × (Apart rs × (All (Used a.blocks) rs × AllCovered sizes rs))
unfolding arena_alloc
allocations a sizes₁ rs₁ begin = (tt, (tt, (tt, tt)))
allocations a' sizes₁ rs₁ (more {a = a} {sizes = sizes} {rs = rs} enough size r steps e) =
    let (ok, (apart, (used, covered))) = allocations a sizes rs steps in
    let f =
      alloc_aligned-IsFresh enough a.blocks a.total (align8 size) r a' ok (align8-lt size)
        (align8-mod size) e in
    let (ds, us) = earlier_ranges a.blocks a'.blocks (align8 size) r f rs used in
    let enough_room =
      subst (λ k. (size ≤ k) ⊎ (size_mod ≤ size + 7)) (sym f.size_eq) (align8-le size) in
    (
      f.blocks_ok,
      ((ds, apart), ((omega (arith, f.taken), us), ((f.aligned, enough_room), covered))),
    )

-- However an arena is used from its start, and whatever `calloc` answers, no two of the ranges that
-- it has given out overlap, each begins at a multiple of 8, and each is at least as large as the size
-- that was asked for, unless that size plus 7 reaches 2 ^ 64.
pub Allocations-Apart :
    (a : Arena) (sizes : List ℕ) (rs : List Range)
    → Allocations a sizes rs
    → Apart rs × AllCovered sizes rs
Allocations-Apart a sizes rs steps =
    let (_, (apart, (_, covered))) = allocations a sizes rs steps in (apart, covered)
