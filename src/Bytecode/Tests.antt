-- ===== src/Bytecode/Tests.antt =====
-- The bytecode theorems at concrete inputs, and the container of a small program.
use arcana.Common.{
  ℕ, ◌≤◌, ◌≡◌, ◌⊎◌, ◌↔◌, refl, true, none, some, List, [], ◌∷◌, ◌++◌, arith, length, get_elem?,
}
use arcana.Bytecode.Bytes.{ok}
use arcana.Bytecode.Pool.{
  Constant, i64, f64, string, Pool, find_const, same_const, pool_add, add_f64,
}
use arcana.Bytecode.Pool.Laws.{
  IsPool, IsStorable, IsFloat, pool_add-IsPool, pool_add-eq-none_iff, add_f64-negative_zero,
}
use arcana.Bytecode.Image.{Image}
use arcana.Bytecode.Write.{image_write}
use arcana.Bytecode.Read.{image_read}
use arcana.Bytecode.RoundTrip.{IsWritable, image_read-write}

abbrev pub two_constants : Pool
two_constants = record { items = i64 42 ∷ string (b'f' ∷ b'n' ∷ []) ∷ f64 0 ∷ []; cap = 16 }

two_constants-IsPool : IsPool two_constants
unfolding find_const
two_constants-IsPool = record {
  distinct = (refl, (refl, (refl, tt)));
  fit = record { room = omega arith; bound = omega arith };
}

pool_add-IsPool_example :
    (q : Pool) × (i : ℕ) × (added : List Constant) × (pool_add two_constants (i64 7) ≡ some (q, i))
    × IsPool q
    × (q.items ≡ two_constants.items ++ added)
    × ((d : Constant) × (get_elem? q.items i ≡ some d)
        × ((same_const d (i64 7) ≡ true) ⊎ (d ≡ i64 7))
        × (¬ IsFloat (i64 7) → d ≡ i64 7))
pool_add-IsPool_example =
    pool_add-IsPool two_constants (i64 7) two_constants-IsPool (omega arith) tt

pool_add-eq-none_iff_example : (pool_add two_constants (i64 7) ≡ none) ↔ (
    (find_const two_constants.items (i64 7) ≡ none)
    × ((¬ IsStorable (i64 7))
        ⊎ ((length two_constants.items ≡ two_constants.cap) × (32768 ≤ two_constants.cap))))
pool_add-eq-none_iff_example = pool_add-eq-none_iff two_constants (i64 7) two_constants-IsPool

add_f64-negative_zero_example : add_f64 two_constants 9223372036854775808 ≡ some (two_constants, 2)
unfolding find_const
add_f64-negative_zero_example = add_f64-negative_zero two_constants 2 refl

-- const 0; halt
abbrev pub tiny : Image
tiny = record {
  constants = two_constants;
  functions = record {
    items =
        record {
          name_const_idx = 1;
          arity = 0;
          local_count = 2;
          max_stack = 4;
          code_offset = 0;
          code_length = 4;
          upvalues = record { is_local = true; index = 300 } ∷ [];
        }
        ∷ [];
    cap = 8;
  };
  code = 1 ∷ 0 ∷ 0 ∷ 255 ∷ [];
  debug = record {
    items = record { func_idx = 0; bc_start = 0; bc_end = 3; element_id = 77 } ∷ [];
    cap = 16;
  };
}

tiny-IsWritable : IsWritable tiny
tiny-IsWritable = record {
  pool = two_constants-IsPool;
  constants = omega arith;
  const_count = omega arith;
  functions = (
    record {
      name = omega arith;
      arity = omega arith;
      locals = omega arith;
      stack = omega arith;
      offset = omega arith;
      len = omega arith;
      count = omega arith;
      indices = omega arith;
    },
    tt,
  );
  func_count = omega arith;
  code = omega arith;
  debug = (
    record { func = omega arith; start = omega arith; stop = omega arith; element = omega arith },
    tt,
  );
  debug_count = omega arith;
}

image_read-write_example :
    (out : Image) × (image_read (image_write tiny) ≡ ok out)
    × (out.constants.items ≡ tiny.constants.items)
    × (out.functions.items ≡ tiny.functions.items)
    × (out.code ≡ tiny.code)
    × (out.debug.items ≡ tiny.debug.items)
image_read-write_example = image_read-write tiny tiny-IsWritable
