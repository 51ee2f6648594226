-- ===== src/Vm/Step/Table.antt =====
-- The handlers of src/vm against the table of src/bytecode/opcodes.h.
use arcana.Common.{ℕ, ◌+◌, ◌≡◌, refl, subst, Bool, true, false, some}
use arcana.Vm.State.{Vm, ok}
use arcana.Vm.Platform.{Platform}
use mathlib.Core.Bool.{false≢true}
use arcana.Bytecode.Opcodes.{op_operand_bytes, op_pops, op_pushes}
use arcana.Vm.Collections.{vm_exec_collections}
use arcana.Vm.Closures.{vm_exec_closure}
use arcana.Vm.Concurrency.{vm_exec_concurrency}
use arcana.Vm.Control.{vm_exec_stack_local_global}
use arcana.Vm.Run.{exec}
use arcana.Vm.Step.Values.{
  IsStep-unary, add-IsStep, sub-IsStep, mul-IsStep, div-IsStep, mod-IsStep, neg-IsStep, eq-IsStep,
  neq-IsStep, lt-IsStep, le-IsStep, gt-IsStep, ge-IsStep, not-IsStep, str_len-IsStep,
  str_index-IsStep, bit_and-IsStep, bit_or-IsStep, bit_xor-IsStep, bit_not-IsStep, shl-IsStep,
  shr-IsStep, str_slice-IsStep,
}
use arcana.Vm.Step.Objects.{
  IsStep-length, index_set-IsStep, field_get-IsStep, field_set-IsStep, record_new-IsStep,
  index_get-IsStep, close_upval-IsStep, get_upval-IsStep, set_upval-IsStep, closure-IsStep,
}
use arcana.Vm.Step.Control.{
  cast_i64-IsStep, cast_f64-IsStep, cast_str-IsStep, mutex_lock-IsStep, mutex_unlock-IsStep,
  chan_send-IsStep, chan_recv-IsStep, mutex_new-IsStep, chan_new-IsStep, pop-IsStep, dup-IsStep,
  load_local-IsStep, store_local-IsStep, load_global-IsStep, store_global-IsStep, const-IsStep,
}
use arcana.Vm.Step.{Fixed, StepTo, After, IsStep}
use arcana.Vm.Step.Parts.{IsStep-pad}
use arcana.Vm.Op.{
  Op, op_const, op_pop, op_dup, op_load_local, op_store_local, op_load_global, op_store_global,
  op_cast_i64, op_cast_f64, op_cast_str, op_add, op_sub, op_mul, op_div, op_mod, op_neg, op_str_len,
  op_str_slice, op_str_index, op_bit_and, op_bit_or, op_bit_xor, op_bit_not, op_shl, op_shr, op_eq,
  op_neq, op_lt, op_le, op_gt, op_ge, op_not, op_jump, op_jump_if_false, op_jump_if_true,
  op_try_begin, op_try_end, op_throw, op_call, op_return, op_closure, op_get_upval, op_set_upval,
  op_close_upval, op_array_new, op_index_get, op_index_set, op_length, op_map_new, op_record_new,
  op_field_get, op_field_set, op_coro_new, op_coro_resume, op_coro_yield, op_coro_status,
  op_thread_spawn, op_thread_join, op_mutex_new, op_mutex_lock, op_mutex_unlock, op_chan_new,
  op_chan_send, op_chan_recv, op_intrinsic, op_halt, op_byte,
}

-- All instructions but the jumps, those on handlers (try_begin, try_end, throw), those on frames
-- (call, return), halt, those whose number of operands is in the code (array_new, map_new,
-- intrinsic), and those on coroutines and threads.
unfoldable pub is_straight : Op → Bool
is_straight op_jump = false
is_straight op_jump_if_false = false
is_straight op_jump_if_true = false
is_straight op_try_begin = false
is_straight op_try_end = false
is_straight op_throw = false
is_straight op_call = false
is_straight op_return = false
is_straight op_array_new = false
is_straight op_map_new = false
is_straight op_coro_new = false
is_straight op_coro_resume = false
is_straight op_coro_yield = false
is_straight op_coro_status = false
is_straight op_thread_spawn = false
is_straight op_thread_join = false
is_straight op_intrinsic = false
is_straight op_halt = false
is_straight _ = true

pub record IsTabled (pf : Platform) (o : Op) : Type 0 where
  pub n : ℕ
  pub p : ℕ
  pub q : ℕ
  pub operands : op_operand_bytes (op_byte o) ≡ some n
  pub pops : op_pops (op_byte o) ≡ some p
  pub pushes : op_pushes (op_byte o) ≡ some q
  pub step : IsStep n p q (exec pf o)

tabled :
    {pf : Platform} {o : Op} (n p q : ℕ)
    → op_operand_bytes (op_byte o) ≡ some n
    → op_pops (op_byte o) ≡ some p
    → op_pushes (op_byte o) ≡ some q
    → IsStep n p q (exec pf o)
    → IsTabled pf o
tabled n p q a b c step = record {
  n = n;
  p = p;
  q = q;
  operands = a;
  pops = b;
  pushes = c;
  step = step;
}

module _ (pf : Platform) where
  pub straight-IsTabled : (o : Op) → is_straight o ≡ true → IsTabled pf o
  unfolding is_straight op_operand_bytes op_pops op_pushes op_byte exec vm_exec_stack_local_global
      vm_exec_collections vm_exec_closure vm_exec_concurrency
  straight-IsTabled op_const h = tabled 2 0 1 refl refl refl (const-IsStep pf)
  straight-IsTabled op_pop h = tabled 0 1 0 refl refl refl pop-IsStep
  straight-IsTabled op_dup h = tabled 0 1 2 refl refl refl (IsStep-pad dup-IsStep)
  straight-IsTabled op_load_local h = tabled 2 0 1 refl refl refl load_local-IsStep
  straight-IsTabled op_store_local h = tabled 2 1 0 refl refl refl store_local-IsStep
  straight-IsTabled op_load_global h = tabled 2 0 1 refl refl refl load_global-IsStep
  straight-IsTabled op_store_global h = tabled 2 1 0 refl refl refl store_global-IsStep
  straight-IsTabled op_cast_i64 h = tabled 0 1 1 refl refl refl (cast_i64-IsStep pf)
  straight-IsTabled op_cast_f64 h = tabled 0 1 1 refl refl refl (cast_f64-IsStep pf)
  straight-IsTabled op_cast_str h = tabled 0 1 1 refl refl refl (cast_str-IsStep pf)
  straight-IsTabled op_add h = tabled 0 2 1 refl refl refl (add-IsStep pf)
  straight-IsTabled op_sub h = tabled 0 2 1 refl refl refl (sub-IsStep pf)
  straight-IsTabled op_mul h = tabled 0 2 1 refl refl refl (mul-IsStep pf)
  straight-IsTabled op_div h = tabled 0 2 1 refl refl refl (div-IsStep pf)
  straight-IsTabled op_mod h = tabled 0 2 1 refl refl refl (mod-IsStep pf)
  straight-IsTabled op_neg h = tabled 0 1 1 refl refl refl (neg-IsStep pf)
  straight-IsTabled op_str_len h = tabled 0 1 1 refl refl refl (str_len-IsStep pf)
  straight-IsTabled op_str_slice h = tabled 0 3 1 refl refl refl (str_slice-IsStep pf)
  straight-IsTabled op_str_index h = tabled 0 2 1 refl refl refl (str_index-IsStep pf)
  straight-IsTabled op_bit_and h = tabled 0 2 1 refl refl refl (bit_and-IsStep pf)
  straight-IsTabled op_bit_or h = tabled 0 2 1 refl refl refl (bit_or-IsStep pf)
  straight-IsTabled op_bit_xor h = tabled 0 2 1 refl refl refl (bit_xor-IsStep pf)
  straight-IsTabled op_bit_not h = tabled 0 1 1 refl refl refl (bit_not-IsStep pf)
  straight-IsTabled op_shl h = tabled 0 2 1 refl refl refl (shl-IsStep pf)
  straight-IsTabled op_shr h = tabled 0 2 1 refl refl refl (shr-IsStep pf)
  straight-IsTabled op_eq h = tabled 0 2 1 refl refl refl (eq-IsStep pf)
  straight-IsTabled op_neq h = tabled 0 2 1 refl refl refl (neq-IsStep pf)
  straight-IsTabled op_lt h = tabled 0 2 1 refl refl refl (lt-IsStep pf)
  straight-IsTabled op_le h = tabled 0 2 1 refl refl refl (le-IsStep pf)
  straight-IsTabled op_gt h = tabled 0 2 1 refl refl refl (gt-IsStep pf)
  straight-IsTabled op_ge h = tabled 0 2 1 refl refl refl (ge-IsStep pf)
  straight-IsTabled op_not h = tabled 0 1 1 refl refl refl (not-IsStep pf)
  straight-IsTabled op_jump h = absurd (false≢true h)
  straight-IsTabled op_jump_if_false h = absurd (false≢true h)
  straight-IsTabled op_jump_if_true h = absurd (false≢true h)
  straight-IsTabled op_try_begin h = absurd (false≢true h)
  straight-IsTabled op_try_end h = absurd (false≢true h)
  straight-IsTabled op_throw h = absurd (false≢true h)
  straight-IsTabled op_call h = absurd (false≢true h)
  straight-IsTabled op_return h = absurd (false≢true h)
  straight-IsTabled op_closure h = tabled 2 0 1 refl refl refl (closure-IsStep pf)
  straight-IsTabled op_get_upval h = tabled 2 0 1 refl refl refl get_upval-IsStep
  straight-IsTabled op_set_upval h = tabled 2 1 0 refl refl refl set_upval-IsStep
  straight-IsTabled op_close_upval h = tabled 0 0 0 refl refl refl close_upval-IsStep
  straight-IsTabled op_array_new h = absurd (false≢true h)
  straight-IsTabled op_index_get h = tabled 0 2 1 refl refl refl (index_get-IsStep pf)
  straight-IsTabled op_index_set h = tabled 0 3 0 refl refl refl index_set-IsStep
  straight-IsTabled op_length h = tabled 0 1 1 refl refl refl (IsStep-unary (IsStep-length _))
  straight-IsTabled op_map_new h = absurd (false≢true h)
  straight-IsTabled op_record_new h = tabled 2 0 1 refl refl refl (record_new-IsStep pf)
  straight-IsTabled op_field_get h = tabled 2 1 1 refl refl refl field_get-IsStep
  straight-IsTabled op_field_set h = tabled 2 2 1 refl refl refl field_set-IsStep
  straight-IsTabled op_coro_new h = absurd (false≢true h)
  straight-IsTabled op_coro_resume h = absurd (false≢true h)
  straight-IsTabled op_coro_yield h = absurd (false≢true h)
  straight-IsTabled op_coro_status h = absurd (false≢true h)
  straight-IsTabled op_thread_spawn h = absurd (false≢true h)
  straight-IsTabled op_thread_join h = absurd (false≢true h)
  straight-IsTabled op_mutex_new h = tabled 0 0 1 refl refl refl (mutex_new-IsStep pf)
  straight-IsTabled op_mutex_lock h = tabled 0 1 0 refl refl refl mutex_lock-IsStep
  straight-IsTabled op_mutex_unlock h = tabled 0 1 0 refl refl refl mutex_unlock-IsStep
  straight-IsTabled op_chan_new h = tabled 2 0 1 refl refl refl (chan_new-IsStep pf)
  straight-IsTabled op_chan_send h = tabled 0 2 0 refl refl refl chan_send-IsStep
  straight-IsTabled op_chan_recv h = tabled 0 1 1 refl refl refl chan_recv-IsStep
  straight-IsTabled op_intrinsic h = absurd (false≢true h)
  straight-IsTabled op_halt h = absurd (false≢true h)

  -- Any instruction but a jump, try_begin, try_end, throw, call, return, halt, array_new, map_new,
  -- intrinsic and those on coroutines and threads, where it continues, reads the operand bytes that
  -- the table of opcodes gives, and pops and pushes as many values as the table gives, counted
  -- together; the frames, the handlers and the code stay as they are.
  pub exec-op_pops :
      (o : Op) (vm vm' : Vm)
      → is_straight o ≡ true
      → exec pf o vm ≡ ok tt vm'
      → (n : ℕ) × (p : ℕ) × (q : ℕ) × (op_operand_bytes (op_byte o) ≡ some n)
        × (op_pops (op_byte o) ≡ some p)
        × (op_pushes (op_byte o) ≡ some q)
        × (vm'.ip ≡ vm.ip + n)
        × (vm'.sp + p ≡ vm.sp + q)
        × (vm'.fp ≡ vm.fp)
        × (vm'.frames ≡ vm.frames)
        × (vm'.handlers ≡ vm.handlers)
        × (vm'.handler_count ≡ vm.handler_count)
        × (vm'.image ≡ vm.image)
  unfolding After
  exec-op_pops o vm vm' h e =
      let t = straight-IsTabled o h in
      let st = subst (After (StepTo t.n t.p t.q vm) (Fixed vm)) e (t.step.at vm) in
      (
        t.n, t.p, t.q, t.operands, t.pops, t.pushes, st.ip, st.sp, st.fixed.fp, st.fixed.frames,
        st.fixed.handlers, st.fixed.handler_count, st.fixed.image,
      )
