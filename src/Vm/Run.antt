-- ===== src/Vm/Run.antt =====
-- The dispatch and the loops of src/vm/vm.c.
use arcana.Common.{
  ℕ, zero, suc, ◌-◌, false, Option, none, some, [], ltb, leb, if◌then◌else◌, length,
}
use arcana.Runtime.Object.{Value, null}
use arcana.Vm.State.{
  stack_max, World, Vm, Outcome, ok, error, fault, yielding, blocked, elsewhere, M, ◌>>=◌, current,
  on_some, store_frame, vm_error, vm_read_byte, func_at,
}
use arcana.Vm.Platform.{Platform}
use arcana.Bytecode.Image.{Image, FuncRecord}
use arcana.Runtime.Gc.{gc_init}
use arcana.Vm.Values.{vm_exec_arithmetic, vm_exec_comparison, vm_exec_string_ops, vm_exec_bitwise}
use arcana.Vm.Collections.{vm_exec_collections}
use arcana.Vm.Closures.{vm_exec_closure}
use arcana.Vm.Intrinsics.{vm_exec_cast, vm_exec_intrinsic}
use arcana.Vm.Concurrency.{vm_exec_concurrency}
use arcana.Vm.Control.{
  vm_exec_stack_local_global, vm_exec_branch, vm_exec_exception, vm_exec_call, vm_exec_return,
  halt_with,
}
use arcana.Vm.Op.{
  Op, op_const, op_pop, op_dup, op_load_local, op_store_local, op_load_global, op_store_global,
  op_cast_i64, op_cast_f64, op_cast_str, op_add, op_sub, op_mul, op_div, op_mod, op_neg, op_str_len,
  op_str_slice, op_str_index, op_bit_and, op_bit_or, op_bit_xor, op_bit_not, op_shl, op_shr, op_eq,
  op_neq, op_lt, op_le, op_gt, op_ge, op_not, op_jump, op_jump_if_false, op_jump_if_true,
  op_try_begin, op_try_end, op_throw, op_call, op_return, op_closure, op_get_upval, op_set_upval,
  op_close_upval, op_array_new, op_index_get, op_index_set, op_length, op_map_new, op_record_new,
  op_field_get, op_field_set, op_coro_new, op_coro_resume, op_coro_yield, op_coro_status,
  op_thread_spawn, op_thread_join, op_mutex_new, op_mutex_lock, op_mutex_unlock, op_chan_new,
  op_chan_send, op_chan_recv, op_intrinsic, op_halt, decode,
}

-- `vm->image = image` on a machine of zeros.
unfoldable pub vm_init : Image → World → Vm
unfolding gc_init
vm_init image world = record {
  image = image;
  stack = λ _. null;
  sp = 0;
  frames = λ _. record { func_idx = 0; return_ip = 0; base_slot = 0 };
  fp = 0;
  globals = λ _. null;
  global_count = 0;
  ip = 0;
  halted = false;
  handlers = λ _. record { catch_ip = 0; stack_height = 0; frame_depth = 0 };
  handler_count = 0;
  gc = gc_init;
  open_upvalues = [];
  yielded = null;
  world = world;
}

-- The locals of `main` are written without a test, so more than the stack holds are a fault.
unfoldable pub start_main : FuncRecord → M (Unit {0})
start_main main_fn vm =
    if ltb stack_max main_fn.local_count
    then fault
    else ok tt (record vm {
      frames = store_frame vm.frames 0 (record { func_idx = 0; return_ip = 0; base_slot = 0 });
      fp = 1;
      ip = main_fn.code_offset;
      sp = main_fn.local_count;
      stack = λ j. if ltb j main_fn.local_count then null else vm.stack j;
    })

unfoldable pub vm_setup_main : M (Unit {0})
vm_setup_main = do vm ← current; on_some (func_at vm 0) start_main (vm_error "no functions")

-- `arc_vm_result`
unfoldable pub vm_result : Vm → Value
vm_result vm = if ltb 0 vm.sp then vm.stack (vm.sp - 1) else null

-- What follows a call that may stop: `if (st != ARC_OK) return st`.
abbrev pub resume :
    (Vm → Option (Outcome (Unit {0}))) → Outcome (Unit {0}) → Option (Outcome (Unit {0}))
resume f (ok _ vm) = f vm
resume f (error e) = some (error e)
resume f fault = some fault
resume f (yielding vm) = some (yielding vm)
resume f (blocked vm) = some (blocked vm)
resume f (elsewhere vm) = some (elsewhere vm)

module _ (pf : Platform) where
  -- The switch on an opcode.
  unfoldable pub exec : Op → M (Unit {0})
  exec op_const = vm_exec_stack_local_global pf op_const
  exec op_pop = vm_exec_stack_local_global pf op_pop
  exec op_dup = vm_exec_stack_local_global pf op_dup
  exec op_load_local = vm_exec_stack_local_global pf op_load_local
  exec op_store_local = vm_exec_stack_local_global pf op_store_local
  exec op_load_global = vm_exec_stack_local_global pf op_load_global
  exec op_store_global = vm_exec_stack_local_global pf op_store_global
  exec op_add = vm_exec_arithmetic pf op_add
  exec op_sub = vm_exec_arithmetic pf op_sub
  exec op_mul = vm_exec_arithmetic pf op_mul
  exec op_div = vm_exec_arithmetic pf op_div
  exec op_mod = vm_exec_arithmetic pf op_mod
  exec op_neg = vm_exec_arithmetic pf op_neg
  exec op_str_len = vm_exec_string_ops pf op_str_len
  exec op_str_slice = vm_exec_string_ops pf op_str_slice
  exec op_str_index = vm_exec_string_ops pf op_str_index
  exec op_bit_and = vm_exec_bitwise pf op_bit_and
  exec op_bit_or = vm_exec_bitwise pf op_bit_or
  exec op_bit_xor = vm_exec_bitwise pf op_bit_xor
  exec op_bit_not = vm_exec_bitwise pf op_bit_not
  exec op_shl = vm_exec_bitwise pf op_shl
  exec op_shr = vm_exec_bitwise pf op_shr
  exec op_cast_i64 = vm_exec_cast pf op_cast_i64
  exec op_cast_f64 = vm_exec_cast pf op_cast_f64
  exec op_cast_str = vm_exec_cast pf op_cast_str
  exec op_eq = vm_exec_comparison pf op_eq
  exec op_neq = vm_exec_comparison pf op_neq
  exec op_lt = vm_exec_comparison pf op_lt
  exec op_le = vm_exec_comparison pf op_le
  exec op_gt = vm_exec_comparison pf op_gt
  exec op_ge = vm_exec_comparison pf op_ge
  exec op_not = vm_exec_comparison pf op_not
  exec op_jump = vm_exec_branch op_jump
  exec op_jump_if_false = vm_exec_branch op_jump_if_false
  exec op_jump_if_true = vm_exec_branch op_jump_if_true
  exec op_try_begin = vm_exec_exception op_try_begin
  exec op_try_end = vm_exec_exception op_try_end
  exec op_throw = vm_exec_exception op_throw
  exec op_closure = vm_exec_closure pf op_closure
  exec op_get_upval = vm_exec_closure pf op_get_upval
  exec op_set_upval = vm_exec_closure pf op_set_upval
  exec op_close_upval = vm_exec_closure pf op_close_upval
  exec op_array_new = vm_exec_collections pf op_array_new
  exec op_index_get = vm_exec_collections pf op_index_get
  exec op_index_set = vm_exec_collections pf op_index_set
  exec op_length = vm_exec_collections pf op_length
  exec op_map_new = vm_exec_collections pf op_map_new
  exec op_record_new = vm_exec_collections pf op_record_new
  exec op_field_get = vm_exec_collections pf op_field_get
  exec op_field_set = vm_exec_collections pf op_field_set
  exec op_coro_new = vm_exec_concurrency pf op_coro_new
  exec op_coro_resume = vm_exec_concurrency pf op_coro_resume
  exec op_coro_yield = vm_exec_concurrency pf op_coro_yield
  exec op_coro_status = vm_exec_concurrency pf op_coro_status
  exec op_thread_spawn = vm_exec_concurrency pf op_thread_spawn
  exec op_thread_join = vm_exec_concurrency pf op_thread_join
  exec op_mutex_new = vm_exec_concurrency pf op_mutex_new
  exec op_mutex_lock = vm_exec_concurrency pf op_mutex_lock
  exec op_mutex_unlock = vm_exec_concurrency pf op_mutex_unlock
  exec op_chan_new = vm_exec_concurrency pf op_chan_new
  exec op_chan_send = vm_exec_concurrency pf op_chan_send
  exec op_chan_recv = vm_exec_concurrency pf op_chan_recv
  exec op_call = vm_exec_call
  exec op_return = vm_exec_return
  exec op_intrinsic = vm_exec_intrinsic pf
  exec op_halt = halt_with

  unfoldable pub vm_dispatch : ℕ → M (Unit {0})
  vm_dispatch op = on_some (decode op) exec (vm_error "unknown opcode 0x%02X at %u")

  -- One round of the loops of `arc_vm_run` and `arc_vm_continue`.
  unfoldable pub vm_step : M (Unit {0})
  vm_step = do
    vm ← current
    if leb (length vm.image.code) vm.ip
        then vm_error "ip out of bounds"
        else vm_read_byte >>= vm_dispatch

  -- The loop for at most `fuel` rounds: the outcome, or `none` where it still runs.
  unfoldable pub vm_loop : ℕ → Vm → Option (Outcome (Unit {0}))
  vm_loop zero vm = if vm.halted then some (ok tt vm) else none
  vm_loop (suc fuel) vm = if vm.halted then some (ok tt vm) else resume (vm_loop fuel) (vm_step vm)

  unfoldable pub vm_run : ℕ → Vm → Option (Outcome (Unit {0}))
  vm_run fuel vm = resume (vm_loop fuel) (vm_setup_main vm)

  unfoldable pub vm_continue : ℕ → Vm → Option (Outcome (Unit {0}))
  vm_continue fuel vm = vm_loop fuel (record vm { halted = false })
