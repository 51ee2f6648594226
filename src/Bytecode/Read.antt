-- ===== src/Bytecode/Read.antt =====
-- `arc_image_read` of src/bytecode/format.c and the section readers below it.
use arcana.Common.{
  ℕ, zero, suc, not, ◌&&◌, List, [], ◌∷◌, ltb, ◌==◌, if◌then◌else◌, length, take, drop,
}
use arcana.Common.Vector.{empty}
use arcana.Bytecode.Bytes.{
  Read, ok, format_error, or_fault, Reader, ◌>>=◌, read_u8, read_u16, read_u32, read_i64,
}
use arcana.Bytecode.Pool.{Constant, null, bool, i64, f64, string, Pool, pool_add}
use arcana.Bytecode.Image.{
  UpvalueDesc, FuncRecord, DebugEntry, FuncTable, DebugTable, Image, func_table_add,
  debug_table_add,
}

-- `if (r->p + n > r->end) return ARC_ERR_FORMAT`, then the next `n` bytes.
unfoldable pub read_bytes : ℕ → Reader → Read (List ℕ × Reader)
read_bytes n r = if ltb (length r) n then format_error else ok (take n r, drop n r)

-- The payload that the tag announces.
unfoldable pub read_payload : ℕ → Reader → Read (Constant × Reader)
read_payload tag r =
    if tag == 0
    then ok (null, r)
    else if tag == 1
    then (do (v, r') ← read_u8 r; ok (bool (not (v == 0)), r'))
    else if tag == 2
    then (do (v, r') ← read_i64 r; ok (i64 v, r'))
    else if tag == 3
    then (do (v, r') ← read_i64 r; ok (f64 v, r'))
    else if tag == 4
    then (do (slen, r₁) ← read_u32 r; (s, r₂) ← read_bytes slen r₁; ok (string s, r₂))
    else format_error

unfoldable pub read_constant : Pool → Reader → Read (Pool × Reader)
read_constant p r = do
  (tag, r₁) ← read_u8 r
  (c, r₂) ← read_payload tag r₁
  (q, _) ← or_fault (pool_add p c)
  ok (q, r₂)

unfoldable pub read_constants : ℕ → Pool → Reader → Read (Pool × Reader)
read_constants zero p r = ok (p, r)
read_constants (suc n) p r = do (q, r') ← read_constant p r; read_constants n q r'

unfoldable pub read_upvalues : ℕ → Reader → Read (List UpvalueDesc × Reader)
read_upvalues zero r = ok ([], r)
read_upvalues (suc n) r = do
  (is_local, r₁) ← read_u8 r
  (index, r₂) ← read_u16 r₁
  (us, r₃) ← read_upvalues n r₂
  ok (record { is_local = not (is_local == 0); index = index } ∷ us, r₃)

unfoldable pub read_function : Reader → Read (FuncRecord × Reader)
read_function r = do
  (name, r₁) ← read_u16 r
  (arity, r₂) ← read_u8 r₁
  (locals, r₃) ← read_u16 r₂
  (stack, r₄) ← read_u16 r₃
  (offset, r₅) ← read_u32 r₄
  (len, r₆) ← read_u32 r₅
  (count, r₇) ← read_u8 r₆
  (us, r₈) ← read_upvalues count r₇
  ok (
    record {
      name_const_idx = name;
      arity = arity;
      local_count = locals;
      max_stack = stack;
      code_offset = offset;
      code_length = len;
      upvalues = us;
    },
    r₈,
  )

unfoldable pub read_functions : ℕ → FuncTable → Reader → Read (FuncTable × Reader)
read_functions zero t r = ok (t, r)
read_functions (suc n) t r = do
  (f, r') ← read_function r
  t' ← or_fault (func_table_add t f)
  read_functions n t' r'

unfoldable pub read_debug_entry : Reader → Read (DebugEntry × Reader)
read_debug_entry r = do
  (func_idx, r₁) ← read_u16 r
  (bc_start, r₂) ← read_u32 r₁
  (bc_end, r₃) ← read_u32 r₂
  (element, r₄) ← read_i64 r₃
  ok (
    record { func_idx = func_idx; bc_start = bc_start; bc_end = bc_end; element_id = element },
    r₄,
  )

unfoldable pub read_debug : ℕ → DebugTable → Reader → Read (DebugTable × Reader)
read_debug zero t r = ok (t, r)
read_debug (suc n) t r = do
  (d, r') ← read_debug_entry r
  t' ← or_fault (debug_table_add t d)
  read_debug n t' r'

-- The optional last section.
unfoldable pub read_debug_section : Reader → Read DebugTable
read_debug_section [] = ok empty
read_debug_section (b ∷ r) = do
  (dcount, r₁) ← read_u32 (b ∷ r)
  (t, _) ← read_debug dcount empty r₁
  ok t

-- The version and the flags are read and not looked at.
unfoldable pub read_counts : Reader → Read (ℕ × ℕ × Reader)
read_counts r = do
  (vmaj, r₁) ← read_u8 r
  (vmin, r₂) ← read_u8 r₁
  (flags, r₃) ← read_u16 r₂
  (const_count, r₄) ← read_u16 r₃
  (func_count, r₅) ← read_u16 r₄
  ok (const_count, func_count, r₅)

-- Magic, version and flags; the counts of constants and functions.
unfoldable pub read_header : Reader → Read (ℕ × ℕ × Reader)
read_header r = do
  (m₀, r₁) ← read_u8 r
  (m₁, r₂) ← read_u8 r₁
  (m₂, r₃) ← read_u8 r₂
  (m₃, r₄) ← read_u8 r₃
  if m₀ == b'A' && m₁ == b'R' && m₂ == b'C' && m₃ == b'A' then read_counts r₄ else format_error

unfoldable pub image_read : Reader → Read Image
image_read bytes = do
  (const_count, func_count, r₁) ← read_header bytes
  (constants, r₂) ← read_constants const_count empty r₁
  (functions, r₃) ← read_functions func_count empty r₂
  (clen, r₄) ← read_u32 r₃
  (code, r₅) ← read_bytes clen r₄
  debug ← read_debug_section r₅
  ok (record { constants = constants; functions = functions; code = code; debug = debug })
