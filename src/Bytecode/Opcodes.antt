-- ===== src/Bytecode/Opcodes.antt =====
-- src/bytecode/opcodes.h: the opcode table and the functions that it generates.
use Prim.Native.String.{String}
use arcana.Common.{ℕ, Option, none, some, List, [], ◌∷◌, ◌==◌, if◌then◌else◌}

-- A row of the table. `pops` is `none` where the table says -1: the count is in an operand.
pub record OpInfo : Type 0 where
  pub byte : ℕ
  pub operands : ℕ
  pub pops : Option ℕ
  pub pushes : ℕ
  pub mnemonic : String

abbrev pub op_row : ℕ → ℕ → Option ℕ → ℕ → String → OpInfo
op_row b n p q m = record { byte = b; operands = n; pops = p; pushes = q; mnemonic = m }

abbrev pub opcodes : List OpInfo
opcodes =
    op_row 0x01 2 (some 0) 1 "const"
    ∷ op_row 0x02 0 (some 1) 0 "pop"
    ∷ op_row 0x03 0 (some 1) 2 "dup"
    ∷ op_row 0x10 2 (some 0) 1 "load_local"
    ∷ op_row 0x11 2 (some 1) 0 "store_local"
    ∷ op_row 0x12 2 (some 0) 1 "load_global"
    ∷ op_row 0x13 2 (some 1) 0 "store_global"
    ∷ op_row 0x14 0 (some 1) 1 "cast_i64"
    ∷ op_row 0x15 0 (some 1) 1 "cast_f64"
    ∷ op_row 0x16 0 (some 1) 1 "cast_str"
    ∷ op_row 0x20 0 (some 2) 1 "add"
    ∷ op_row 0x21 0 (some 2) 1 "sub"
    ∷ op_row 0x22 0 (some 2) 1 "mul"
    ∷ op_row 0x23 0 (some 2) 1 "div"
    ∷ op_row 0x24 0 (some 2) 1 "mod"
    ∷ op_row 0x25 0 (some 1) 1 "neg"
    ∷ op_row 0x26 0 (some 1) 1 "str_len"
    ∷ op_row 0x27 0 (some 3) 1 "str_slice"
    ∷ op_row 0x28 0 (some 2) 1 "str_index"
    ∷ op_row 0x29 0 (some 2) 1 "bit_and"
    ∷ op_row 0x2a 0 (some 2) 1 "bit_or"
    ∷ op_row 0x2b 0 (some 2) 1 "bit_xor"
    ∷ op_row 0x2c 0 (some 1) 1 "bit_not"
    ∷ op_row 0x2d 0 (some 2) 1 "shl"
    ∷ op_row 0x2e 0 (some 2) 1 "shr"
    ∷ op_row 0x30 0 (some 2) 1 "eq"
    ∷ op_row 0x31 0 (some 2) 1 "neq"
    ∷ op_row 0x32 0 (some 2) 1 "lt"
    ∷ op_row 0x33 0 (some 2) 1 "le"
    ∷ op_row 0x34 0 (some 2) 1 "gt"
    ∷ op_row 0x35 0 (some 2) 1 "ge"
    ∷ op_row 0x36 0 (some 1) 1 "not"
    ∷ op_row 0x40 4 (some 0) 0 "jump"
    ∷ op_row 0x41 4 (some 1) 0 "jump_if_false"
    ∷ op_row 0x42 4 (some 1) 0 "jump_if_true"
    ∷ op_row 0x43 4 (some 0) 0 "try_begin"
    ∷ op_row 0x44 0 (some 0) 0 "try_end"
    ∷ op_row 0x45 0 (some 1) 0 "throw"
    ∷ op_row 0x50 4 none 1 "call"
    ∷ op_row 0x51 0 (some 1) 0 "return"
    ∷ op_row 0x52 2 (some 0) 1 "closure"
    ∷ op_row 0x53 2 (some 0) 1 "get_upvalue"
    ∷ op_row 0x54 2 (some 1) 0 "set_upvalue"
    ∷ op_row 0x55 0 (some 0) 0 "close_upvalue"
    ∷ op_row 0x60 2 none 1 "array_new"
    ∷ op_row 0x61 0 (some 2) 1 "index_get"
    ∷ op_row 0x62 0 (some 3) 0 "index_set"
    ∷ op_row 0x63 0 (some 1) 1 "length"
    ∷ op_row 0x64 2 none 1 "map_new"
    ∷ op_row 0x65 2 (some 0) 1 "record_new"
    ∷ op_row 0x66 2 (some 1) 1 "field_get"
    ∷ op_row 0x67 2 (some 2) 1 "field_set"
    ∷ op_row 0x70 2 (some 0) 1 "coro_new"
    ∷ op_row 0x71 0 (some 2) 1 "coro_resume"
    ∷ op_row 0x72 0 (some 1) 1 "coro_yield"
    ∷ op_row 0x73 0 (some 1) 1 "coro_status"
    ∷ op_row 0x74 4 none 1 "thread_spawn"
    ∷ op_row 0x75 0 (some 1) 1 "thread_join"
    ∷ op_row 0x76 0 (some 0) 1 "mutex_new"
    ∷ op_row 0x77 0 (some 1) 0 "mutex_lock"
    ∷ op_row 0x78 0 (some 1) 0 "mutex_unlock"
    ∷ op_row 0x79 2 (some 0) 1 "chan_new"
    ∷ op_row 0x7a 0 (some 2) 0 "chan_send"
    ∷ op_row 0x7b 0 (some 1) 1 "chan_recv"
    ∷ op_row 0xf0 4 none 0 "intrinsic"
    ∷ op_row 0xff 0 (some 0) 0 "halt"
    ∷ []

unfoldable pub find_op : List OpInfo → ℕ → Option OpInfo
find_op [] op = none
find_op (r ∷ rs) op = if r.byte == op then some r else find_op rs op

-- The four switches, where `none` is the -1 (or "???") of their `default`.
unfoldable pub op_operand_bytes : ℕ → Option ℕ
unfolding find_op
op_operand_bytes op = elim (find_op opcodes op) [ none ↦ none | some r ↦ some r.operands ]

unfoldable pub op_mnemonic : ℕ → String
unfolding find_op
op_mnemonic op = elim (find_op opcodes op) [ none ↦ "???" | some r ↦ r.mnemonic ]

unfoldable pub op_pops : ℕ → Option ℕ
unfolding find_op
op_pops op = elim (find_op opcodes op) [ none ↦ none | some r ↦ r.pops ]

unfoldable pub op_pushes : ℕ → Option ℕ
unfolding find_op
op_pushes op = elim (find_op opcodes op) [ none ↦ none | some r ↦ some r.pushes ]

abbrev pub op_const : ℕ
op_const = 0x01

abbrev pub op_load_local : ℕ
op_load_local = 0x10

abbrev pub op_store_local : ℕ
op_store_local = 0x11

abbrev pub op_jump : ℕ
op_jump = 0x40

abbrev pub op_jump_if_false : ℕ
op_jump_if_false = 0x41

abbrev pub op_jump_if_true : ℕ
op_jump_if_true = 0x42

abbrev pub op_call : ℕ
op_call = 0x50

abbrev pub op_return : ℕ
op_return = 0x51

abbrev pub op_thread_spawn : ℕ
op_thread_spawn = 0x74

abbrev pub op_intrinsic : ℕ
op_intrinsic = 0xf0

abbrev pub op_halt : ℕ
op_halt = 0xff

abbrev pub intrinsic_count : ℕ
intrinsic_count = 9
