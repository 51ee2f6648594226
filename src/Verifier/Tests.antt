-- ===== src/Verifier/Tests.antt =====
-- The verifier at concrete images.
use arcana.Common.{◌≤◌, ◌≡◌, true, Option, some, [], arith, length}
use arcana.Bytecode.Image.{Image}
use arcana.Bytecode.Opcodes.{op_operand_bytes, op_pops, op_pushes}
use arcana.Bytecode.Tests.{tiny}
use arcana.Verifier.Report.{VerifyResult, max_errors}
use arcana.Verifier.Operands.{code_u16, code_u32, jump_target, func_end}
use arcana.Verifier.Heights.{heights_init, to_int16, check_join, record_jump_heights}
use arcana.Verifier.Scan.{
  stack_effect, verify_instruction, round, scan, verify_function, verify_functions, verify,
}
use arcana.Verifier.Verdict.{verify-total}

run_verify : Image → Option VerifyResult
unfolding op_operand_bytes op_pops op_pushes code_u16 code_u32 jump_target func_end heights_init
    to_int16 check_join record_jump_heights stack_effect verify_instruction round scan
    verify_function verify_functions verify
run_verify img = verify img

verify-total_example :
    (r : VerifyResult) × (verify tiny ≡ some r)
    × (length r.errors ≤ max_errors)
    × (r.valid ≡ true → r.errors ≡ [])
verify-total_example = verify-total tiny (omega arith)
