-- ===== src/Bytecode/Write.antt =====
-- `arc_image_write` of src/bytecode/format.c: the bytes of the `.mgc` container, section by section.
use arcana.Common.{ℕ, List, [], ◌∷◌, ◌++◌, if◌then◌else◌, length}
use arcana.Bytecode.Bytes.{write_u8, write_u16, write_u32, write_i64}
use arcana.Bytecode.Pool.{Constant, null, bool, i64, f64, string}
use arcana.Bytecode.Image.{UpvalueDesc, FuncRecord, DebugEntry, Image}

unfoldable pub write_constant : Constant → List ℕ
write_constant null = write_u8 0
write_constant (bool b) = write_u8 1 ++ write_u8 (if b then 1 else 0)
write_constant (i64 v) = write_u8 2 ++ write_i64 v
write_constant (f64 v) = write_u8 3 ++ write_i64 v
write_constant (string s) = write_u8 4 ++ (write_u32 (length s) ++ s)

unfoldable pub write_constants : List Constant → List ℕ
write_constants [] = []
write_constants (c ∷ cs) = write_constant c ++ write_constants cs

unfoldable pub write_upvalues : List UpvalueDesc → List ℕ
write_upvalues [] = []
write_upvalues (u ∷ us) =
    write_u8 (if u.is_local then 1 else 0) ++ (write_u16 u.index ++ write_upvalues us)

unfoldable pub write_function : FuncRecord → List ℕ
write_function f =
    write_u16 f.name_const_idx
    ++ (write_u8 f.arity
        ++ (write_u16 f.local_count
            ++ (write_u16 f.max_stack
                ++ (write_u32 f.code_offset
                    ++ (write_u32 f.code_length
                        ++ (write_u8 (length f.upvalues) ++ write_upvalues f.upvalues))))))

unfoldable pub write_functions : List FuncRecord → List ℕ
write_functions [] = []
write_functions (f ∷ fs) = write_function f ++ write_functions fs

unfoldable pub write_debug_entry : DebugEntry → List ℕ
write_debug_entry d =
    write_u16 d.func_idx ++ (write_u32 d.bc_start ++ (write_u32 d.bc_end ++ write_i64 d.element_id))

unfoldable pub write_debug : List DebugEntry → List ℕ
write_debug [] = []
write_debug (d ∷ ds) = write_debug_entry d ++ write_debug ds

-- The magic "ARCA", the version 0.1, the flags and the two counts.
unfoldable pub write_header : ℕ → ℕ → List ℕ
write_header const_count func_count =
    write_u8 b'A'
    ++ (write_u8 b'R'
        ++ (write_u8 b'C'
            ++ (write_u8 b'A'
                ++ (write_u8 0
                    ++ (write_u8 1
                        ++ (write_u16 0 ++ (write_u16 const_count ++ write_u16 func_count)))))))

unfoldable pub image_write : Image → List ℕ
image_write img =
    write_header (length img.constants.items) (length img.functions.items)
    ++ (write_constants img.constants.items
        ++ (write_functions img.functions.items
            ++ (write_u32 (length img.code)
                ++ (img.code
                    ++ (write_u32 (length img.debug.items) ++ write_debug img.debug.items)))))
