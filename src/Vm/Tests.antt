-- ===== src/Vm/Tests.antt =====
-- Runs of the machine on small images, and the theorems applied to them.
pub mod Handlers
use arcana.Common.{◌-◌, get_or, arith}
use arcana.Common.Int.{◌+ℤ◌, ◌-ℤ◌}
use arcana.Common.Words.{signed64}
use arcana.Common.Words.Laws.{IsI64}
use arcana.Verifier.Report.{VerifyResult, no_errors}
use arcana.Verifier.Operands.{code_u16, code_u32, jump_target, func_end, verify_operands}
use arcana.Verifier.Heights.{heights_init, to_int16, check_join, record_jump_heights}
use arcana.Verifier.Scan.{
  stack_effect, verify_instruction, round, scan, verify_function, verify_functions, verify,
}
use arcana.Verifier.Soundness.{Layout}
use arcana.Verifier.Verdict.{IsSafe, verify-IsSafe}
use arcana.Vm.Op.{Op, op_sub, op_throw}
use arcana.Vm.Control.{target, push_handler, pop_handler, unwind, vm_exec_exception}
use arcana.Vm.Verified.{vm_step-Layout}
use arcana.Vm.Handlers.{throw-try_begin}
use arcana.Vm.Handlers.Return.{enter-return}
use arcana.Vm.Handlers.Arithmetic.{vm_exec_arithmetic-exact, result_vm}
use arcana.Common.{
  ℕ, ◌+◌, ◌-◌, ◌*◌, ◌/◌, ◌≡◌, refl, true, false, Option, none, some, List, [], ◌∷◌, ltb, leb, ◌==◌,
  if◌then◌else◌, length, ◌↔◌,
}
use arcana.Runtime.Object.{Value, i64}
use arcana.Vm.State.{
  World, Vm, Outcome, ok, ◌>>=◌, pure, broken, current, on_some, vm_push, vm_pop, vm_read_byte,
  vm_read_u16, load, write, top_frame,
}
use arcana.Vm.Platform.{Platform}
use arcana.Common.Vector.{Vec}
use arcana.Common.Words.{mul64, add64}
use arcana.Bytecode.Opcodes.{op_operand_bytes, op_pops, op_pushes}
use arcana.Bytecode.Pool
use arcana.Bytecode.Image.{Image, FuncRecord}
use arcana.Vm.Op.{op_add, op_byte, decode}
use arcana.Vm.Values.{binary, numeric, vm_exec_arithmetic}
use arcana.Vm.Closures.{close_upvalues, close_from, set_open_upvalues}
use arcana.Vm.Control.{
  vm_exec_stack_local_global, vm_exec_const, vm_const_to_val, vm_exec_call, callee_index, enter,
  push_frame, push_nulls, set_ip, vm_exec_load_local, vm_exec_return, leave_frame, halt_with,
}
use arcana.Vm.Run.{
  vm_init, start_main, vm_setup_main, vm_result, exec, vm_dispatch, vm_step, vm_loop, vm_run,
}
use arcana.Vm.Step.Table.{exec-op_pops, is_straight}
use arcana.Vm.Reach.{Reaches, stop, next, Reaches-IsBounded}
use arcana.Vm.Step.{After}
use arcana.Vm.Bounded.{IsBounded}

-- A library whose doubles are compared as numbers; blocks are at the addresses 1, 2, ...
abbrev pub platform : Platform
platform = record {
  f64_add = λ a b. a + b;
  f64_sub = λ a b. a - b;
  f64_mul = λ a b. a * b;
  f64_div = λ a b. a / b;
  f64_neg = λ a. a;
  f64_lt = ltb;
  f64_le = leb;
  f64_of_i64 = λ n. n;
  f64_to_i64 = some;
  strtoll = λ s. (0, 0);
  strtod = λ s. (0, 0);
  show_i64 = λ n. n ∷ [];
  show_f64 = λ x. x ∷ [];
  malloc = λ h size. some (length h + 1);
  size_of = λ p. 48;
}

abbrev pub world : World
world = record { clock = λ i. i; calls = 0; input = []; output = [] }

abbrev pub vec_of {ℓ} : {A : Type ℓ} → List A → Vec A
vec_of xs = record { items = xs; cap = 8 }

-- main: const 0; const 1; call 1 2; return. Function 1: load_local 0; load_local 1; mul; return.
abbrev code : List ℕ
code =
    0x01 ∷ 0 ∷ 0 ∷ 0x01 ∷ 1 ∷ 0 ∷ 0x50 ∷ 1 ∷ 0 ∷ 2 ∷ 0 ∷ 0x51 ∷ 0x10 ∷ 0 ∷ 0 ∷ 0x10 ∷ 1 ∷ 0 ∷ 0x22
    ∷ 0x51 ∷ []

abbrev pub function : ℕ → ℕ → ℕ → ℕ → FuncRecord
function arity locals offset size = record {
  name_const_idx = 0;
  arity = arity;
  local_count = locals;
  max_stack = 8;
  code_offset = offset;
  code_length = size;
  upvalues = [];
}

abbrev pub image : Image
image = record {
  constants = vec_of (Pool.i64 6 ∷ Pool.i64 7 ∷ []);
  functions = vec_of (function 0 0 0 12 ∷ function 2 2 12 8 ∷ []);
  code = code;
  debug = vec_of [];
}

result_of : Option (Outcome (Unit {0})) → Option Value
result_of (some (ok _ vm)) = some (vm_result vm)
result_of _ = none

six_by_seven : result_of (vm_run platform 20 (vm_init image world)) ≡ some (i64 42)
unfolding result_of vm_result vm_run vm_loop vm_step vm_setup_main vm_init start_main current
    vm_read_byte vm_dispatch decode exec vm_exec_stack_local_global vm_exec_const vm_const_to_val
    vm_exec_call callee_index enter push_frame push_nulls set_ip vm_exec_load_local
    vm_exec_arithmetic binary numeric mul64 vm_exec_return close_upvalues close_from
    set_open_upvalues leave_frame halt_with ◌>>=◌ pure on_some vm_push vm_pop vm_read_u16 load write
    top_frame broken
six_by_seven = refl

unfoldable pub machine_of : Outcome (Unit {0}) → Vm
machine_of (ok _ vm) = vm
machine_of _ = vm_init image world

unfoldable pub start : Vm
unfolding machine_of vm_setup_main vm_init start_main current ◌>>=◌ on_some
start = machine_of (vm_setup_main (vm_init image world))

unfoldable pub second : Vm
unfolding start vm_step current vm_read_byte vm_dispatch decode exec vm_exec_stack_local_global
    vm_exec_const vm_const_to_val ◌>>=◌ pure on_some vm_push vm_read_u16
second = machine_of (vm_step platform start)

starts : vm_setup_main (vm_init image world) ≡ ok tt start
unfolding start
starts = refl

pub steps : vm_step platform start ≡ ok tt second
unfolding second
steps = refl

runs : start.halted ≡ false
unfolding start
runs = refl

Reaches-IsBounded_example : IsBounded second × After IsBounded IsBounded (vm_step platform second)
Reaches-IsBounded_example =
    Reaches-IsBounded platform image world start second starts (next runs steps stop)

abbrev pub operands : Vm
operands = record (vm_init image world) { stack = λ j. if j == 0 then i64 6 else i64 7; sp = 2 }

unfoldable added : Vm
unfolding machine_of exec vm_exec_arithmetic binary numeric add64 ◌>>=◌ pure on_some vm_push vm_pop
added = machine_of (exec platform op_add operands)

adds : exec platform op_add operands ≡ ok tt added
unfolding added
adds = refl

exec-op_pops_example :
    (n : ℕ) × (p : ℕ) × (q : ℕ) × (op_operand_bytes (op_byte op_add) ≡ some n)
    × (op_pops (op_byte op_add) ≡ some p)
    × (op_pushes (op_byte op_add) ≡ some q)
    × (added.ip ≡ operands.ip + n)
    × (added.sp + p ≡ operands.sp + q)
    × (added.fp ≡ operands.fp)
    × (added.frames ≡ operands.frames)
    × (added.handlers ≡ operands.handlers)
    × (added.handler_count ≡ operands.handler_count)
    × (added.image ≡ operands.image)
unfolding is_straight
exec-op_pops_example = exec-op_pops platform op_add operands added refl adds
