-- ===== src/Bytecode/RoundTrip.antt =====
-- Reading back what `arc_image_write` wrote.
use arcana.Common.{
  ℕ, ◌+◌, ◌%◌, ◌≤◌, ◌<◌, ◌≡◌, refl, sym, ap, ◌∙◌, Bool, true, false, not, none, some, List, [], ◌∷◌,
  ◌++◌, arith, ltb, ◌==◌, if◌then◌else◌, length, All, append_assoc, append-nil, length-append,
  take-append, drop-append, inl, inr, Bool-cases, tests,
}
use arcana.Common.Vector.{empty, IsFit, push-eq-some}
use arcana.Bytecode.Bytes.{
  ok, Reader, ◌>>=◌, read_u8, read_u32, write_u8, write_u32, read_u8-write, read_u16-write,
  read_u32-write, read_i64-write,
}
use arcana.Bytecode.Pool.{Constant, null, bool, i64, f64, string, Pool, find_const, pool_add}
use arcana.Bytecode.Pool.Laws.{IsStorable, AllFresh, IsPool, pool_add-append}
use arcana.Bytecode.Image.{
  UpvalueDesc, FuncRecord, DebugEntry, FuncTable, DebugTable, Image, func_table_add,
  debug_table_add,
}
use arcana.Bytecode.Write.{
  write_constant, write_constants, write_upvalues, write_function, write_functions,
  write_debug_entry, write_debug, write_header, image_write,
}
use arcana.Bytecode.Read.{
  read_bytes, read_payload, read_constant, read_constants, read_upvalues, read_function,
  read_functions, read_debug_entry, read_debug, read_debug_section, read_counts, read_header,
  image_read,
}

-- The C types of the fields; a string and its final zero have a 32-bit size.
abbrev pub IsU8 : ℕ → Type 0
IsU8 n = n < 256

abbrev pub IsU16 : ℕ → Type 0
IsU16 n = n < 65536

abbrev pub IsU32 : ℕ → Type 0
IsU32 n = n < 4294967296

abbrev pub IsU64 : ℕ → Type 0
IsU64 n = n < 18446744073709551616

abbrev pub Fits : Constant → Type 0
Fits (i64 v) = IsU64 v
Fits (f64 v) = IsU64 v
Fits (string s) = IsU32 (length s + 1)
Fits _ = Unit

pub record FuncFits (f : FuncRecord) : Type 0 where
  pub name : IsU16 f.name_const_idx
  pub arity : IsU8 f.arity
  pub locals : IsU16 f.local_count
  pub stack : IsU16 f.max_stack
  pub offset : IsU32 f.code_offset
  pub len : IsU32 f.code_length
  pub count : IsU8 (length f.upvalues)
  pub indices : All (λ (u : UpvalueDesc). IsU16 u.index) f.upvalues

pub record DebugFits (d : DebugEntry) : Type 0 where
  pub func : IsU16 d.func_idx
  pub start : IsU32 d.bc_start
  pub stop : IsU32 d.bc_end
  pub element : IsU64 d.element_id

read_bytes-append : (s r : List ℕ) → read_bytes (length s) (s ++ r) ≡ ok (s, r)
unfolding read_bytes
read_bytes-append s r = elim (Bool-cases (ltb (length (s ++ r)) (length s))) [
  | inl short ↦ absurd (omega (tests, length-append s r, short))
  | inr long ↦ rw (long, take-append, drop-append)
]

read_constant-bytes :
    (c : Constant) (p q : Pool) (i : ℕ) (r : Reader)
    → Fits c
    → pool_add p c ≡ some (q, i)
    → read_constant p (write_constant c ++ r) ≡ ok (q, r)
unfolding read_constant write_constant read_payload write_u8 read_u8
read_constant-bytes null p q i r h e = rw e
read_constant-bytes (bool true) p q i r h e = rw e
read_constant-bytes (bool false) p q i r h e = rw e
read_constant-bytes (i64 v) p q i r h e = rw (read_i64-write v r h, e)
read_constant-bytes (f64 v) p q i r h e = rw (read_i64-write v r h, e)
read_constant-bytes (string s) p q i r h e =
    rw (append_assoc, read_u32-write (length s) _ (omega (arith, h)), read_bytes-append, e)

Fits-IsStorable : (c : Constant) → Fits c → IsStorable c
Fits-IsStorable (string s) h = omega (arith, h)
Fits-IsStorable null h = tt
Fits-IsStorable (bool b) h = tt
Fits-IsStorable (i64 v) h = tt
Fits-IsStorable (f64 v) h = tt

read_constant-write :
    (c : Constant) (p : Pool) (r : Reader)
    → Fits c
    → find_const p.items c ≡ none
    → IsFit 65536 p
    → length p.items < 32768
    → (q : Pool) × (read_constant p (write_constant c ++ r) ≡ ok (q, r))
      × (q.items ≡ p.items ++ c ∷ [])
      × IsFit 65536 q
read_constant-write c p r h absent fit room =
    let (q, e, items, fit') = pool_add-append p c absent fit room (Fits-IsStorable c h) in
    (q, read_constant-bytes c p q _ r h e, items, fit')

flag : (b : Bool) → not ((if b then 1 else 0) % 256 == 0) ≡ b
flag true = refl
flag false = refl

read_upvalues-write :
    (us : List UpvalueDesc) (r : Reader)
    → All (λ (u : UpvalueDesc). IsU16 u.index) us
    → read_upvalues (length us) (write_upvalues us ++ r) ≡ ok (us, r)
unfolding read_upvalues write_upvalues read_u8 write_u8
read_upvalues-write [] r h = refl
read_upvalues-write (u ∷ us) r h =
    rw (flag u.is_local, append_assoc, read_u16-write _ _ h.0, read_upvalues-write us r h.1)

read_function-write :
    (f : FuncRecord) (r : Reader) → FuncFits f → read_function (write_function f ++ r) ≡ ok (f, r)
unfolding read_function write_function
read_function-write f r h = rw (
  append_assoc,
  read_u16-write _ _ h.name,
  append_assoc,
  read_u8-write _ _ h.arity,
  append_assoc,
  read_u16-write _ _ h.locals,
  append_assoc,
  read_u16-write _ _ h.stack,
  append_assoc,
  read_u32-write _ _ h.offset,
  append_assoc,
  read_u32-write _ _ h.len,
  append_assoc,
  read_u8-write _ _ h.count,
  read_upvalues-write _ _ h.indices,
)

read_debug_entry-write :
    (d : DebugEntry) (r : Reader)
    → DebugFits d
    → read_debug_entry (write_debug_entry d ++ r) ≡ ok (d, r)
unfolding read_debug_entry write_debug_entry
read_debug_entry-write d r h = rw (
  append_assoc,
  read_u16-write _ _ h.func,
  append_assoc,
  read_u32-write _ _ h.start,
  append_assoc,
  read_u32-write _ _ h.stop,
  read_i64-write _ _ h.element,
)

read_header-write :
    (m n : ℕ) (r : Reader) → IsU16 m → IsU16 n → read_header (write_header m n ++ r) ≡ ok (m, n, r)
unfolding read_header read_counts write_header write_u8 read_u8
read_header-write m n r hm hn = rw (
  append_assoc,
  read_u16-write 0 _ (omega arith),
  append_assoc,
  read_u16-write m _ hm,
  read_u16-write n r hn,
)

read_constants-write :
    (cs : List Constant) (p : Pool) (r : Reader)
    → All Fits cs
    → AllFresh p.items cs
    → IsFit 65536 p
    → length p.items + length cs ≤ 32768
    → (q : Pool) × (read_constants (length cs) p (write_constants cs ++ r) ≡ ok (q, r))
      × (q.items ≡ p.items ++ cs)
unfolding read_constants write_constants
read_constants-write [] p r h fresh fit room = (p, refl, sym (append-nil p.items))
read_constants-write (c ∷ cs) p r h fresh fit room =
    let (q, e, items, fit') =
      read_constant-write c p (write_constants cs ++ r) h.0 fresh.0 fit (omega arith) in
    let (t, e', items') =
      read_constants-write cs q r h.1 (rw items fresh.1) fit'
        (omega (arith, ap length items, length-append p.items (c ∷ []))) in
    (t, rw (append_assoc, e, e'), items' ∙ rw (items, append_assoc))

read_functions-write :
    (fs : List FuncRecord) (t : FuncTable) (r : Reader)
    → All FuncFits fs
    → IsFit 65536 t
    → length t.items + length fs ≤ 32768
    → (u : FuncTable) × (read_functions (length fs) t (write_functions fs ++ r) ≡ ok (u, r))
      × (u.items ≡ t.items ++ fs)
unfolding read_functions write_functions func_table_add
read_functions-write [] t r h fit room = (t, refl, sym (append-nil t.items))
read_functions-write (f ∷ fs) t r h fit room =
    let (size, e, fit') = push-eq-some 32768 8 (omega arith) (omega arith) t f fit (omega arith) in
    let (u, e', items) =
      read_functions-write fs (record { items = t.items ++ f ∷ []; cap = size }) r h.1 fit'
        (omega (arith, length-append t.items (f ∷ []))) in
    (u, rw (append_assoc, read_function-write f _ h.0, e, e'), items ∙ rw append_assoc)

read_debug-write :
    (ds : List DebugEntry) (t : DebugTable) (r : Reader)
    → All DebugFits ds
    → IsFit 4294967296 t
    → length t.items + length ds ≤ 2147483648
    → (u : DebugTable) × (read_debug (length ds) t (write_debug ds ++ r) ≡ ok (u, r))
      × (u.items ≡ t.items ++ ds)
unfolding read_debug write_debug debug_table_add
read_debug-write [] t r h fit room = (t, refl, sym (append-nil t.items))
read_debug-write (d ∷ ds) t r h fit room =
    let (size, e, fit') =
      push-eq-some 2147483648 16 (omega arith) (omega arith) t d fit (omega arith) in
    let (u, e', items) =
      read_debug-write ds (record { items = t.items ++ d ∷ []; cap = size }) r h.1 fit'
        (omega (arith, length-append t.items (d ∷ []))) in
    (u, rw (append_assoc, read_debug_entry-write d _ h.0, e, e'), items ∙ rw append_assoc)

-- What the writer relies on: the C types of the fields, tables that the pool's 16-bit capacities
-- can hold, and a pool with no entry equal to an earlier one.
pub record IsWritable (img : Image) : Type 0 where
  pub pool : IsPool img.constants
  pub constants : All Fits img.constants.items
  pub const_count : length img.constants.items ≤ 32768
  pub functions : All FuncFits img.functions.items
  pub func_count : length img.functions.items ≤ 32768
  pub code : IsU32 (length img.code)
  pub debug : All DebugFits img.debug.items
  pub debug_count : length img.debug.items ≤ 2147483648

read_debug_section-cons :
    (n : ℕ) (r : Reader)
    → read_debug_section (write_u32 n ++ r)
      ≡ (read_u32 (write_u32 n ++ r) >>= λ x. read_debug x.0 empty x.1 >>= λ y. ok y.0)
unfolding read_debug_section write_u32
read_debug_section-cons n r = refl

read_debug_section-write :
    (ds : List DebugEntry)
    → All DebugFits ds
    → length ds ≤ 2147483648
    → (u : DebugTable) × (read_debug_section (write_u32 (length ds) ++ write_debug ds) ≡ ok u)
      × (u.items ≡ ds)
read_debug_section-write ds h few =
    let (u, e, items) =
      read_debug-write ds empty [] h (record { room = omega arith; bound = omega arith })
        (omega arith) in
    (
      u,
      rw (
        read_debug_section-cons,
        read_u32-write (length ds) _ (omega arith),
        ← append-nil (write_debug ds),
        e,
      ),
      items,
    )

-- Reading the bytes of a writable image, whose strings have fewer than 2 ^ 32 - 1 bytes, succeeds, and gives an image with the same constants,
-- functions, code and debug entries, in the same order.
pub image_read-write :
    (img : Image)
    → IsWritable img
    → (out : Image) × (image_read (image_write img) ≡ ok out)
      × (out.constants.items ≡ img.constants.items)
      × (out.functions.items ≡ img.functions.items)
      × (out.code ≡ img.code)
      × (out.debug.items ≡ img.debug.items)
unfolding image_read image_write
image_read-write img h =
    let tail = write_u32 (length img.debug.items) ++ write_debug img.debug.items in
    let body = write_u32 (length img.code) ++ (img.code ++ tail) in
    let (p, e, consts) =
      read_constants-write img.constants.items empty (write_functions img.functions.items ++ body)
        h.constants h.pool.distinct (record { room = omega arith; bound = omega arith })
        (omega (arith, h.const_count)) in
    let (t, e', funcs) =
      read_functions-write img.functions.items empty body h.functions
        (record { room = omega arith; bound = omega arith }) (omega (arith, h.func_count)) in
    let (u, e'', entries) = read_debug_section-write img.debug.items h.debug h.debug_count in
    (
      record { constants = p; functions = t; code = img.code; debug = u },
      rw (
        read_header-write (length img.constants.items) (length img.functions.items) _
            (omega (arith, h.const_count)) (omega (arith, h.func_count)),
        e,
        e',
        read_u32-write _ _ h.code,
        read_bytes-append,
        e'',
      ),
      consts,
      funcs,
      refl,
      entries,
    )
