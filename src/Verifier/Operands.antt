-- ===== src/Verifier/Operands.antt =====
-- `verify_operands` of src/verifier/verifier.c.
use arcana.Common.{
  ℕ, ◌+◌, ◌-◌, ◌*◌, ◌%◌, Bool, ◌||◌, List, leb, ltb, ◌==◌, if◌then◌else◌, length, get_or,
}
use arcana.Bytecode.Image.{FuncRecord, Image}
use arcana.Bytecode.Opcodes.{
  op_const, op_load_local, op_store_local, op_jump, op_jump_if_false, op_jump_if_true, op_call,
  op_thread_spawn, op_intrinsic, intrinsic_count,
}
use arcana.Verifier.Report.{
  VerifyResult, verr_if, bad_constant, bad_local, bad_function, bad_intrinsic, bad_jump,
}

abbrev pub u32_mod : ℕ
u32_mod = 4294967296

-- `arc_read_u16(code + ip)` and the pattern that `arc_read_i32(code + ip)` reads.
unfoldable pub code_u16 : List ℕ → ℕ → ℕ
code_u16 code ip = get_or code ip 0 + get_or code (ip + 1) 0 * 256

unfoldable pub code_u32 : List ℕ → ℕ → ℕ
code_u32 code ip =
    get_or code ip 0
    + get_or code (ip + 1) 0 * 256
    + get_or code (ip + 2) 0 * 65536
    + get_or code (ip + 3) 0 * 16777216

-- `(uint32_t)((int32_t)(ip + 4) + offset)`, two's complement.
unfoldable pub jump_target : List ℕ → ℕ → ℕ
jump_target code ip = (ip + 4 + code_u32 code ip) % u32_mod

unfoldable pub func_end : FuncRecord → ℕ
func_end fn = (fn.code_offset + fn.code_length) % u32_mod

-- `ip - fn->code_offset` in 32 bits.
abbrev pub relative : FuncRecord → ℕ → ℕ
relative fn ip = (ip + u32_mod - fn.code_offset) % u32_mod

abbrev pub is_jump : ℕ → Bool
is_jump op = op == op_jump || op == op_jump_if_false || op == op_jump_if_true

unfoldable pub verify_operands : VerifyResult → Image → FuncRecord → ℕ → ℕ → ℕ → ℕ → VerifyResult
verify_operands r img fn fi start op ip =
    let idx = code_u16 img.code ip in
    let target = jump_target img.code ip in
    if op == op_const
    then verr_if (leb (length img.constants.items) idx) r fi start bad_constant
    else if op == op_load_local || op == op_store_local
    then verr_if (leb fn.local_count idx) r fi start bad_local
    else if op == op_call || op == op_thread_spawn
    then verr_if (leb (length img.functions.items) idx) r fi start bad_function
    else if op == op_intrinsic
    then verr_if (leb intrinsic_count idx) r fi start bad_intrinsic
    else if is_jump op
    then verr_if (ltb target fn.code_offset || ltb (func_end fn) target) r fi start bad_jump
    else r
