-- ===== src/Vm/Tests/Handlers.antt =====
-- The theorems on verified code, exceptions, calls and arithmetic at concrete machines.
use arcana.Common.{◌-◌, get_or, arith}
use arcana.Common.Int.{◌+ℤ◌, ◌-ℤ◌}
use arcana.Common.Words.{signed64}
use arcana.Common.Words.Laws.{IsI64}
use arcana.Verifier.Report.{VerifyResult, no_errors}
use arcana.Verifier.Operands.{code_u16, code_u32, jump_target, func_end, verify_operands}
use arcana.Verifier.Heights.{heights_init, to_int16, check_join, record_jump_heights}
use arcana.Verifier.Scan.{
  stack_effect, verify_instruction, round, scan, verify_function, verify_functions, verify,
}
use arcana.Verifier.Soundness.{Layout}
use arcana.Verifier.Verdict.{verify-IsSafe}
use arcana.Vm.Op.{Op, op_sub, op_throw}
use arcana.Vm.Control.{target, push_handler, pop_handler, unwind, vm_exec_exception}
use arcana.Vm.Verified.{IsFallThrough, IsJump, vm_step-Layout}
use arcana.Vm.Branches.{is_branch, is_neutral}
use arcana.Vm.Handlers.{throw-try_begin}
use arcana.Vm.Handlers.Return.{enter-return}
use arcana.Vm.Handlers.Arithmetic.{vm_exec_arithmetic-exact, result_vm}
use arcana.Common.{ℕ, ◌+◌, ◌-◌, ◌≡◌, ◌⊎◌, refl, true, Option, some}
use arcana.Vm.State.{Vm, ok, ◌>>=◌, pure, current, vm_push, vm_pop, top_frame}
use arcana.Bytecode.Opcodes.{op_operand_bytes, op_pops, op_pushes}
use arcana.Bytecode.Image.{Image}
use arcana.Vm.Op.{op_add, decode}
use arcana.Vm.Values.{vm_exec_arithmetic}
use arcana.Vm.Closures.{close_upvalues, close_from, set_open_upvalues}
use arcana.Vm.Control.{enter, push_frame, push_nulls, set_ip, vm_exec_return, leave_frame}
use arcana.Vm.Run.{vm_init}
use arcana.Vm.Step.Table.{is_straight}
use arcana.Vm.Tests.{platform, function, image, operands, start, second, machine_of, steps}

-- The loop that the verifier runs on the image of the tests.
run_verify : Image → Option VerifyResult
unfolding op_operand_bytes op_pops op_pushes code_u16 code_u32 jump_target func_end heights_init
    to_int16 check_join record_jump_heights stack_effect verify_instruction round scan
    verify_function verify_functions verify
run_verify img = verify img

accepted : run_verify image ≡ some no_errors
unfolding run_verify ◌-ℤ◌ ◌+ℤ◌ verify_operands
accepted = refl

main_layout : Layout image (function 0 0 0 12) 0
unfolding run_verify
main_layout =
    let (_, safe) =
      verify-IsSafe image no_errors (omega arith)
        (
          record { offset = omega arith; len = omega arith },
          (record { offset = omega arith; len = omega arith }, tt),
        )
        accepted refl in
    safe.0.layout

vm_step-Layout_example :
    (o : Op) × (decode (get_or start.image.code start.ip 0) ≡ some o)
    × ((is_straight o ≡ true) ⊎ (is_neutral o ≡ true)
        → IsFallThrough o (function 0 0 0 12) start second)
    × (is_branch o ≡ true → IsJump o (function 0 0 0 12) start second)
unfolding start func_end
vm_step-Layout_example =
    vm_step-Layout platform (function 0 0 0 12) start second (omega arith) (omega arith) main_layout
      steps

-- A machine of one frame with a try block, and one of the call of function 1.
unfoldable handled : Vm
unfolding machine_of push_handler
handled = machine_of (push_handler 40 operands)

unfoldable caught : Vm
unfolding handled machine_of vm_exec_exception vm_pop pop_handler unwind vm_push ◌>>=◌
caught = machine_of (vm_exec_exception op_throw handled)

try_runs : push_handler 40 operands ≡ ok tt handled
unfolding handled vm_init
try_runs = refl

throw_runs : vm_exec_exception op_throw handled ≡ ok tt caught
unfolding caught vm_init
throw_runs = refl

throw-try_begin_example :
    (caught.ip ≡ target operands.ip 40)
    × (caught.fp ≡ operands.fp)
    × (caught.sp ≡ operands.sp + 1)
    × (caught.stack operands.sp ≡ handled.stack (handled.sp - 1))
    × (caught.handler_count ≡ operands.handler_count)
throw-try_begin_example =
    throw-try_begin operands handled handled caught 40 try_runs refl refl throw_runs

abbrev caller : Vm
caller = record operands { fp = 1; ip = 11 }

unfoldable called : Vm
unfolding machine_of enter push_frame push_nulls set_ip current ◌>>=◌ pure
called = machine_of (enter 1 2 (function 2 2 12 8) caller)

unfoldable returned : Vm
unfolding called machine_of vm_exec_return vm_pop top_frame close_upvalues close_from
    set_open_upvalues leave_frame vm_push current pure ◌>>=◌
returned = machine_of (vm_exec_return called)

enter_runs : enter 1 2 (function 2 2 12 8) caller ≡ ok tt called
unfolding called
enter_runs = refl

return_runs : vm_exec_return called ≡ ok tt returned
unfolding returned vm_init
return_runs = refl

enter-return_example :
    (returned.ip ≡ caller.ip)
    × (returned.fp ≡ caller.fp)
    × (returned.sp + 2 ≡ caller.sp + 1)
    × (returned.stack (caller.sp - 2) ≡ called.stack (called.sp - 1))
    × (returned.halted ≡ called.halted)
enter-return_example =
    enter-return 1 2 (function 2 2 12 8) caller called called returned (omega arith) (omega arith)
      (omega arith) enter_runs refl refl return_runs

vm_exec_arithmetic-exact_example :
    (IsI64 (signed64 6 +ℤ signed64 7)
      → (c : ℕ) × (signed64 c ≡ signed64 6 +ℤ signed64 7)
        × (vm_exec_arithmetic platform op_add operands ≡ ok tt (result_vm operands c)))
    × (IsI64 (signed64 6 -ℤ signed64 7)
        → (c : ℕ) × (signed64 c ≡ signed64 6 -ℤ signed64 7)
          × (vm_exec_arithmetic platform op_sub operands ≡ ok tt (result_vm operands c)))
vm_exec_arithmetic-exact_example =
    vm_exec_arithmetic-exact platform 6 7 operands (omega arith) (omega arith) (omega arith)
      (omega arith) refl refl
