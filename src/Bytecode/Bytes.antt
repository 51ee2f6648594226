-- ===== src/Bytecode/Bytes.antt =====
-- The byte buffer of src/common/arcana_common.h and the readers and writers of bytecode/format.c.
-- A buffer is the list of its bytes, and a writer is the bytes that it appends. A `Reader` is the
-- list of the bytes from `p` up to `end`. Signed and floating values are their bit patterns.
use arcana.Common.{
  ℕ, zero, suc, ◌+◌, ◌*◌, ◌/◌, ◌%◌, ◌<◌, ◌≡◌, Option, none, some, List, [], ◌∷◌, ◌++◌, arith, ltb,
  if◌then◌else◌, length, take, drop,
}

-- ARC_OK with its results, ARC_ERR_FORMAT, and a write behind an allocated block.
pub data Read {ℓ} (A : Type ℓ) : Type ℓ where
  ok : A → Read A
  format_error fault : Read A

infixl 5 ◌>>=◌
abbrev pub ◌>>=◌ {ℓ κ} : {A : Type ℓ} {B : Type κ} → Read A → (A → Read B) → Read B
ok a >>= f = f a
format_error >>= f = format_error
fault >>= f = fault

abbrev pub or_fault {ℓ} : {A : Type ℓ} → Option A → Read A
or_fault none = fault
or_fault (some a) = ok a

abbrev pub Reader : Type 0
Reader = List ℕ

unfoldable pub write_u8 : ℕ → List ℕ
write_u8 v = (v % 256) ∷ []

unfoldable pub write_u16 : ℕ → List ℕ
write_u16 v = (v % 256) ∷ (v / 256 % 256) ∷ []

unfoldable pub write_u32 : ℕ → List ℕ
write_u32 v = (v % 256) ∷ (v / 256 % 256) ∷ (v / 65536 % 256) ∷ (v / 16777216 % 256) ∷ []

-- The loop `push(u & 0xFF); u >>= 8`, for `k` rounds.
write_le : ℕ → ℕ → List ℕ
write_le zero v = []
write_le (suc k) v = (v % 256) ∷ write_le k (v / 256)

unfoldable pub write_i64 : ℕ → List ℕ
unfolding write_le
write_i64 v = write_le 8 v

unfoldable pub read_u8 : Reader → Read (ℕ × Reader)
read_u8 [] = format_error
read_u8 (b ∷ r) = ok (b, r)

-- The or of shifted bytes is their sum, as they do not overlap.
unfoldable pub read_u16 : Reader → Read (ℕ × Reader)
read_u16 (a ∷ b ∷ r) = ok (a + b * 256, r)
read_u16 _ = format_error

unfoldable pub read_u32 : Reader → Read (ℕ × Reader)
read_u32 (a ∷ b ∷ c ∷ d ∷ r) = ok (a + b * 256 + c * 65536 + d * 16777216, r)
read_u32 _ = format_error

-- The loop `u |= p[i] << (i * 8)`.
read_le : List ℕ → ℕ
read_le [] = 0
read_le (b ∷ bs) = b + 256 * read_le bs

unfoldable pub read_i64 : Reader → Read (ℕ × Reader)
unfolding read_le
read_i64 r = if ltb (length r) 8 then format_error else ok (read_le (take 8 r), drop 8 r)

pub read_u8-write : (v : ℕ) (r : Reader) → v < 256 → read_u8 (write_u8 v ++ r) ≡ ok (v, r)
unfolding read_u8 write_u8
read_u8-write v r h = ground arith

pub read_u16-write : (v : ℕ) (r : Reader) → v < 65536 → read_u16 (write_u16 v ++ r) ≡ ok (v, r)
unfolding read_u16 write_u16
read_u16-write v r h = ground arith

pub read_u32-write : (v : ℕ) (r : Reader) → v < 4294967296 → read_u32 (write_u32 v ++ r) ≡ ok (v, r)
unfolding read_u32 write_u32
read_u32-write v r h = ground arith

pub read_i64-write :
    (v : ℕ) (r : Reader) → v < 18446744073709551616 → read_i64 (write_i64 v ++ r) ≡ ok (v, r)
unfolding read_i64 write_i64
read_i64-write v r h = ground arith
