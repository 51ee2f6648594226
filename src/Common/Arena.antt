-- ===== src/Common/Arena.antt =====
-- src/common/arena.c: bump allocation in a chain of blocks.
pub mod Ranges
pub mod Tests
use arcana.Common.{
  ℕ, zero, suc, ◌+◌, ◌-◌, ◌*◌, ◌/◌, ◌%◌, Bool, true, false, Option, none, some, List, [], ◌∷◌, ltb,
  leb, ◌==◌, if◌then◌else◌, length,
}

abbrev pub arena_block_size : ℕ
arena_block_size = 65536

abbrev pub size_mod : ℕ
size_mod = 18446744073709551616

-- `sizeof(ArcArenaBlock)`: a pointer and two sizes.
abbrev pub block_header : ℕ
block_header = 24

pub record Block : Type 0 where
  pub used : ℕ
  pub cap : ℕ

-- The chain from `head`. A block is known by the number of blocks behind it.
pub record Arena : Type 0 where
  pub blocks : List Block
  pub total : ℕ

pub record Range : Type 0 where
  pub block : ℕ
  pub start : ℕ
  pub size : ℕ

-- The zeroed range with the arena, NULL, or a write behind the block.
pub data Alloc : Type 0 where
  allocated : Range → Arena → Alloc
  failed : Alloc
  overrun : Alloc

abbrev pub arena_init : Arena
arena_init = record { blocks = []; total = 0 }

-- `(size + 7) & ~7`
unfoldable pub align8 : ℕ → ℕ
align8 size = (size + 7) % size_mod / 8 * 8

-- The bytes behind the header of a block, where the size of the block wraps.
abbrev pub room : ℕ → ℕ
room cap = (block_header + cap) % size_mod - block_header

unfoldable pub block_cap : ℕ → ℕ
block_cap size = if ltb arena_block_size size then size else arena_block_size

-- The allocation in a new block; the flag says whether `calloc` gives one.
unfoldable pub alloc_block : Bool → List Block → ℕ → ℕ → Alloc
unfolding block_cap
alloc_block false blocks total size = failed
alloc_block true blocks total size =
    if ltb (room (block_cap size)) size
    then overrun
    else allocated (record { block = length blocks; start = 0; size = size })
        (record {
          blocks = record { used = size; cap = block_cap size } ∷ blocks;
          total = (total + size) % size_mod;
        })

-- The allocation of a size that is a multiple of 8.
unfoldable pub alloc_aligned : Bool → List Block → ℕ → ℕ → Alloc
unfolding alloc_block
alloc_aligned enough [] total size = alloc_block enough [] total size
alloc_aligned enough (b ∷ bs) total size =
    if leb ((b.used + size) % size_mod) b.cap
    then if ltb (room b.cap) (b.used + size)
      then overrun
      else allocated (record { block = length bs; start = b.used; size = size })
          (record {
            blocks = record b { used = (b.used + size) % size_mod } ∷ bs;
            total = (total + size) % size_mod;
          })
    else alloc_block enough (b ∷ bs) total size

unfoldable pub arena_alloc : Bool → Arena → ℕ → Alloc
unfolding align8 alloc_aligned
arena_alloc enough a size = alloc_aligned enough a.blocks a.total (align8 size)

unfoldable pub arena_free : Arena → Arena
arena_free a = record { blocks = []; total = 0 }
