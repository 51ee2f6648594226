-- ===== src/Vm/Bounded/Loop.antt =====
-- The invariant under the intrinsics and under every instruction.
use Prim.Native.String.{String}
use arcana.Common.{ℕ, zero, suc, ◌≡◌, refl, true, none, some, List, [], ◌∷◌, ◌==◌, arith}
use arcana.Runtime.Object.{Value}
use arcana.Vm.State.{ok, M}
use arcana.Vm.Platform.{Platform}
use arcana.Vm.Intrinsics.{
  print_row, drop_operands, load_from, vm_intr_print, vm_intr_push, assert, tick, read_line,
  expect_argc, type_text, keys_of, vm_intr_input, intrinsic, vm_exec_intrinsic,
}
use arcana.Vm.Values.{unary}
use arcana.Vm.Collections.{vm_exec_collections}
use arcana.Vm.Concurrency.{leave, set_yielded, vm_exec_coro_yield, vm_exec_concurrency}
use arcana.Vm.Run.{exec, vm_dispatch, vm_step}
use arcana.Vm.Step.Values.{IsStep-unary}
use arcana.Vm.Step.Objects.{IsStep-length}
use arcana.Vm.Step.Control.{IsStep-to_text}
use arcana.Vm.Step.Table.{is_straight, straight-IsTabled}
use arcana.Vm.Bounded.Handlers.{
  branch-IsKept, exception-IsKept, call-IsKept, Kept-halt, return-IsKept,
}
use arcana.Vm.Step.{
  Fixed, StepTo, After, IsStep, quiet, kept, IsStep-error, IsStep-pure, quiet-bind,
}
use arcana.Vm.Step.Parts.{IsStep-load, quiet_rules}
use arcana.Vm.Bounded.{
  IsKept, Kept-bind, Kept-on_some, same-IsWeak, IsStep-IsKept, Kept-quiet, Kept-if, Kept-pop,
  Kept-push, kept_rules, IsStep-push_items, array_new-IsKept, map_new-IsKept,
}
use arcana.Vm.Op.{
  Op, op_const, op_pop, op_dup, op_load_local, op_store_local, op_load_global, op_store_global,
  op_cast_i64, op_cast_f64, op_cast_str, op_add, op_sub, op_mul, op_div, op_mod, op_neg, op_str_len,
  op_str_slice, op_str_index, op_bit_and, op_bit_or, op_bit_xor, op_bit_not, op_shl, op_shr, op_eq,
  op_neq, op_lt, op_le, op_gt, op_ge, op_not, op_jump, op_jump_if_false, op_jump_if_true,
  op_try_begin, op_try_end, op_throw, op_call, op_return, op_closure, op_get_upval, op_set_upval,
  op_close_upval, op_array_new, op_index_get, op_index_set, op_length, op_map_new, op_record_new,
  op_field_get, op_field_set, op_coro_new, op_coro_resume, op_coro_yield, op_coro_status,
  op_thread_spawn, op_thread_join, op_mutex_new, op_mutex_lock, op_mutex_unlock, op_chan_new,
  op_chan_send, op_chan_recv, op_intrinsic, op_halt, decode,
}

Kept-load_from : (i n : ℕ) → IsStep 0 0 0 (load_from i n)
unfolding load_from
Kept-load_from i zero = IsStep-pure []
Kept-load_from i (suc n) =
    quiet-bind (IsStep-load i) λ v. quiet-bind (Kept-load_from (suc i) n) λ vs. IsStep-pure _

IsStep-print_row : (vs : List Value) → IsStep 0 0 0 (print_row vs)
unfolding print_row After
IsStep-print_row vs = record {
  at = λ vm. record { fixed = kept vm (λ h. h) λ h. h; ip = omega arith; sp = refl };
}

IsStep-tick : IsStep 0 0 0 tick
unfolding tick After
IsStep-tick = record {
  at = λ vm. record { fixed = kept vm (λ h. h) λ h. h; ip = omega arith; sp = refl };
}

Kept-drop_operands : (n : ℕ) → IsKept (drop_operands n)
unfolding drop_operands After
Kept-drop_operands n = record {
  at = λ vm b. record { weak = same-IsWeak b.weak; sp = omega (arith, b.sp) };
}

Kept-print : (argc : ℕ) → IsKept (vm_intr_print argc)
unfolding vm_intr_print
Kept-print argc = search (kept_rules, Kept-load_from, IsStep-print_row, Kept-drop_operands) depth 12

Kept-intr_push : IsKept vm_intr_push
unfolding vm_intr_push
Kept-intr_push = search (kept_rules, Kept-drop_operands) depth 20

Kept-assert : (v : Value) → IsStep 0 0 0 (assert v)
unfolding assert
Kept-assert v = search quiet_rules

Kept-read_line : IsStep 0 0 0 read_line
unfolding read_line After
Kept-read_line = record {
  at = λ vm.
      elim vm.world.input
        as (λ ls. After (StepTo 0 0 0 vm) (Fixed vm) (elim ls [
          | [] ↦ ok none vm
          | line ∷ rest ↦ ok (some line) (record vm { world = record vm.world { input = rest } })
        ])) [
          | [] ↦ quiet vm
          | line ∷ rest ↦ record { fixed = kept vm (λ h. h) λ h. h; ip = omega arith; sp = refl }
        ];
}

Kept-expect_argc :
    (argc n : ℕ) (message : String) {m : M (Unit {0})}
    → IsKept m
    → IsKept (expect_argc argc n message m)
unfolding expect_argc
Kept-expect_argc argc n message h = Kept-if (argc == n) h (Kept-quiet (IsStep-error message))

Kept-unary : {f : Value → M Value} → ((v : Value) → IsStep 0 0 0 (f v)) → IsKept (unary f)
Kept-unary h = IsStep-IsKept (IsStep-unary h)

module _ (pf : Platform) where
  Kept-type_text : (v : Value) → IsStep 0 0 0 (type_text pf v)
  unfolding type_text
  Kept-type_text v = search quiet_rules depth 8

  Kept-keys_of : (v : Value) → IsStep 0 0 0 (keys_of pf v)
  unfolding keys_of
  Kept-keys_of v = search (quiet_rules, IsStep-push_items) depth 14

  Kept-input : IsKept (vm_intr_input pf)
  unfolding vm_intr_input
  Kept-input = search (kept_rules, Kept-read_line) depth 10

  intrinsic-IsKept : (id argc : ℕ) → IsKept (intrinsic pf id argc)
  unfolding intrinsic
  intrinsic-IsKept id argc =
      search
        (
          Kept-if, Kept-bind, Kept-push, Kept-print, IsStep-tick, Kept-quiet, Kept-expect_argc,
          Kept-unary, Kept-type_text, Kept-assert, IsStep-to_text, Kept-input, IsStep-length,
          Kept-intr_push, Kept-keys_of, IsStep-error,
        )
        depth 20

  Kept-exec_intrinsic : IsKept (vm_exec_intrinsic pf)
  unfolding vm_exec_intrinsic
  Kept-exec_intrinsic = search (kept_rules, intrinsic-IsKept)

Kept-coro_yield : IsKept vm_exec_coro_yield
unfolding vm_exec_coro_yield set_yielded After
Kept-coro_yield = Kept-bind Kept-pop λ v. record {
  at = λ vm b. record {
    weak = record {
      fp = b.weak.fp;
      globals = b.weak.globals;
      handlers = b.weak.handlers;
      depth = b.weak.depth;
    };
    sp = b.sp;
  };
}

Kept-leave : IsKept leave
unfolding leave After
Kept-leave = record { at = λ vm b. b }

module _ (pf : Platform) where
  straight-IsKept : (o : Op) → is_straight o ≡ true → IsKept (exec pf o)
  straight-IsKept o h = IsStep-IsKept (straight-IsTabled pf o h).step

  exec-IsKept : (o : Op) → IsKept (exec pf o)
  unfolding exec vm_exec_collections vm_exec_concurrency is_straight
  exec-IsKept op_const = straight-IsKept op_const refl
  exec-IsKept op_pop = straight-IsKept op_pop refl
  exec-IsKept op_dup = straight-IsKept op_dup refl
  exec-IsKept op_load_local = straight-IsKept op_load_local refl
  exec-IsKept op_store_local = straight-IsKept op_store_local refl
  exec-IsKept op_load_global = straight-IsKept op_load_global refl
  exec-IsKept op_store_global = straight-IsKept op_store_global refl
  exec-IsKept op_cast_i64 = straight-IsKept op_cast_i64 refl
  exec-IsKept op_cast_f64 = straight-IsKept op_cast_f64 refl
  exec-IsKept op_cast_str = straight-IsKept op_cast_str refl
  exec-IsKept op_add = straight-IsKept op_add refl
  exec-IsKept op_sub = straight-IsKept op_sub refl
  exec-IsKept op_mul = straight-IsKept op_mul refl
  exec-IsKept op_div = straight-IsKept op_div refl
  exec-IsKept op_mod = straight-IsKept op_mod refl
  exec-IsKept op_neg = straight-IsKept op_neg refl
  exec-IsKept op_str_len = straight-IsKept op_str_len refl
  exec-IsKept op_str_slice = straight-IsKept op_str_slice refl
  exec-IsKept op_str_index = straight-IsKept op_str_index refl
  exec-IsKept op_bit_and = straight-IsKept op_bit_and refl
  exec-IsKept op_bit_or = straight-IsKept op_bit_or refl
  exec-IsKept op_bit_xor = straight-IsKept op_bit_xor refl
  exec-IsKept op_bit_not = straight-IsKept op_bit_not refl
  exec-IsKept op_shl = straight-IsKept op_shl refl
  exec-IsKept op_shr = straight-IsKept op_shr refl
  exec-IsKept op_eq = straight-IsKept op_eq refl
  exec-IsKept op_neq = straight-IsKept op_neq refl
  exec-IsKept op_lt = straight-IsKept op_lt refl
  exec-IsKept op_le = straight-IsKept op_le refl
  exec-IsKept op_gt = straight-IsKept op_gt refl
  exec-IsKept op_ge = straight-IsKept op_ge refl
  exec-IsKept op_not = straight-IsKept op_not refl
  exec-IsKept op_jump = branch-IsKept op_jump
  exec-IsKept op_jump_if_false = branch-IsKept op_jump_if_false
  exec-IsKept op_jump_if_true = branch-IsKept op_jump_if_true
  exec-IsKept op_try_begin = exception-IsKept op_try_begin
  exec-IsKept op_try_end = exception-IsKept op_try_end
  exec-IsKept op_throw = exception-IsKept op_throw
  exec-IsKept op_call = call-IsKept
  exec-IsKept op_return = return-IsKept
  exec-IsKept op_closure = straight-IsKept op_closure refl
  exec-IsKept op_get_upval = straight-IsKept op_get_upval refl
  exec-IsKept op_set_upval = straight-IsKept op_set_upval refl
  exec-IsKept op_close_upval = straight-IsKept op_close_upval refl
  exec-IsKept op_array_new = array_new-IsKept pf
  exec-IsKept op_index_get = straight-IsKept op_index_get refl
  exec-IsKept op_index_set = straight-IsKept op_index_set refl
  exec-IsKept op_length = straight-IsKept op_length refl
  exec-IsKept op_map_new = map_new-IsKept pf
  exec-IsKept op_record_new = straight-IsKept op_record_new refl
  exec-IsKept op_field_get = straight-IsKept op_field_get refl
  exec-IsKept op_field_set = straight-IsKept op_field_set refl
  exec-IsKept op_coro_new = Kept-leave
  exec-IsKept op_coro_resume = Kept-leave
  exec-IsKept op_coro_yield = Kept-coro_yield
  exec-IsKept op_coro_status = Kept-leave
  exec-IsKept op_thread_spawn = Kept-leave
  exec-IsKept op_thread_join = Kept-leave
  exec-IsKept op_mutex_new = straight-IsKept op_mutex_new refl
  exec-IsKept op_mutex_lock = straight-IsKept op_mutex_lock refl
  exec-IsKept op_mutex_unlock = straight-IsKept op_mutex_unlock refl
  exec-IsKept op_chan_new = straight-IsKept op_chan_new refl
  exec-IsKept op_chan_send = straight-IsKept op_chan_send refl
  exec-IsKept op_chan_recv = straight-IsKept op_chan_recv refl
  exec-IsKept op_intrinsic = Kept-exec_intrinsic pf
  exec-IsKept op_halt = Kept-halt

  dispatch-IsKept : (op : ℕ) → IsKept (vm_dispatch pf op)
  unfolding vm_dispatch
  dispatch-IsKept op = Kept-on_some (decode op) exec-IsKept (Kept-quiet (IsStep-error _))

  pub step-IsKept : IsKept (vm_step pf)
  unfolding vm_step
  step-IsKept = search (kept_rules, dispatch-IsKept) depth 8
