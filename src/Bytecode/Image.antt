-- ===== src/Bytecode/Image.antt =====
-- The bytecode image of src/bytecode/format.h and its tables.
use arcana.Common.{ℕ, Bool, Option, List, []}
use arcana.Common.Vector.{Vec, empty, push}
use arcana.Bytecode.Pool.{Pool}

pub record UpvalueDesc : Type 0 where
  pub is_local : Bool
  pub index : ℕ

-- `upvalue_count` is the length of `upvalues`.
pub record FuncRecord : Type 0 where
  pub name_const_idx : ℕ
  pub arity : ℕ
  pub local_count : ℕ
  pub max_stack : ℕ
  pub code_offset : ℕ
  pub code_length : ℕ
  pub upvalues : List UpvalueDesc

pub record DebugEntry : Type 0 where
  pub func_idx : ℕ
  pub bc_start : ℕ
  pub bc_end : ℕ
  pub element_id : ℕ

abbrev pub FuncTable : Type 0
FuncTable = Vec FuncRecord

abbrev pub DebugTable : Type 0
DebugTable = Vec DebugEntry

-- `code_len` is the length of `code`.
pub record Image : Type 0 where
  pub constants : Pool
  pub functions : FuncTable
  pub code : List ℕ
  pub debug : DebugTable

unfoldable pub func_table_add : FuncTable → FuncRecord → Option FuncTable
unfolding push
func_table_add t rec = push 65536 8 t rec

unfoldable pub debug_table_add : DebugTable → DebugEntry → Option DebugTable
unfolding push
debug_table_add t e = push 4294967296 16 t e

abbrev pub image_init : Image
image_init = record { constants = empty; functions = empty; code = []; debug = empty }
