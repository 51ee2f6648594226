-- ===== src/Vm/Handlers.antt =====
-- What exceptions and returns of src/vm/vm.c restore.
pub mod Return
pub mod Arithmetic
use Prim.Native.String.{String}
use arcana.Common.{
  ℕ, zero, suc, min, ◌+◌, ◌-◌, ◌*◌, ◌/◌, ◌%◌, ◌^◌, ◌≤◌, ◌<◌, ◌≡◌, refl, sym, ap, ◌∙◌, subst, Bool,
  true, false, not, ◌&&◌, ◌||◌, Option, none, some, List, [], ◌∷◌, ◌++◌, ltb, leb, ◌==◌,
  if◌then◌else◌, length, get_elem?, set, take, drop, inl, inr, ◌⊎◌, arith, tests, Bool-cases,
}
use arcana.Runtime.Object.{
  Value, null, bool, i64, f64, obj, Payload, string, bitvec, array, map, closure, upvalue, fields,
  coroutine, thread, mutex, channel, Object,
}
use arcana.Vm.State.{
  stack_max, frames_max, globals_max, handler_max, word32, Frame, Handler, VmError, World, Vm,
  Outcome, ok, error, fault, yielding, blocked, elsewhere, M, continue, ◌>>=◌, ◌>>◌, pure, done,
  broken, current, on_some, store, store_frame, store_handler, vm_error, vm_push, vm_pop,
  vm_read_byte, vm_read_u16, vm_read_i32, load, write, top_frame, func_at, get_or_null,
}
use arcana.Common.{==_refl}
use arcana.Vm.Step.{After, After-if, After-guard}
use arcana.Vm.Platform.{
  Platform, bytes_of, c_string, is_truthy, payload_of, string_of, update_object, pointer_of,
  allocate, new_object,
}
use arcana.Vm.Control.{
  target, push_handler, pop_handler, unwind, vm_exec_exception, leave_frame, vm_exec_return,
  halt_with,
}
use arcana.Vm.Op.{
  Op, op_const, op_pop, op_dup, op_load_local, op_store_local, op_load_global, op_store_global,
  op_cast_i64, op_cast_f64, op_cast_str, op_add, op_sub, op_mul, op_div, op_mod, op_neg, op_str_len,
  op_str_slice, op_str_index, op_bit_and, op_bit_or, op_bit_xor, op_bit_not, op_shl, op_shr, op_eq,
  op_neq, op_lt, op_le, op_gt, op_ge, op_not, op_jump, op_jump_if_false, op_jump_if_true,
  op_try_begin, op_try_end, op_throw, op_call, op_return, op_closure, op_get_upval, op_set_upval,
  op_close_upval, op_array_new, op_index_get, op_index_set, op_length, op_map_new, op_record_new,
  op_field_get, op_field_set, op_coro_new, op_coro_resume, op_coro_yield, op_coro_status,
  op_thread_spawn, op_thread_join, op_mutex_new, op_mutex_lock, op_mutex_unlock, op_chan_new,
  op_chan_send, op_chan_recv, op_intrinsic, op_halt, op_byte, decode,
}

-- A run that continues satisfies what holds after it.
pub After-ok :
    (P : Vm → Type 0) (o : Outcome (Unit {0})) (vm : Vm)
    → After P (λ _. Unit {0}) o
    → o ≡ ok tt vm
    → P vm
unfolding After
After-ok P o vm h e = subst (After P (λ _. Unit {0})) e h

-- The handler that `try_begin` stores.
abbrev handler_of : Vm → ℕ → Handler
handler_of vm offset = record {
  catch_ip = target vm.ip offset;
  stack_height = vm.sp;
  frame_depth = vm.fp;
}

record IsPushed (h : Handler) (vm vm' : Vm) : Type 0 where
  handlers : vm'.handlers ≡ store_handler vm.handlers vm.handler_count h
  count : vm'.handler_count ≡ vm.handler_count + 1

record IsThrown (h : Handler) (vm vm' : Vm) : Type 0 where
  ip : vm'.ip ≡ h.catch_ip
  fp : vm'.fp ≡ h.frame_depth
  sp : vm'.sp ≡ h.stack_height + 1
  top : vm'.stack h.stack_height ≡ vm.stack (vm.sp - 1)
  count : vm'.handler_count + 1 ≡ vm.handler_count

push_handler-IsPushed :
    (vm : Vm) (offset : ℕ)
    → After (IsPushed (handler_of vm offset) vm) (λ _. Unit {0}) (push_handler offset vm)
unfolding push_handler vm_error After
push_handler-IsPushed vm offset =
    After-if (IsPushed (handler_of vm offset) vm) (λ _. Unit {0}) (leb handler_max vm.handler_count)
      _ _ (λ _. tt) λ _. record { handlers = refl; count = refl }

throw-IsThrown :
    (vm : Vm)
    → After
        (IsThrown (vm.handlers (vm.handler_count - 1)) vm)
        (λ _. Unit {0})
        (vm_exec_exception op_throw vm)
unfolding vm_exec_exception vm_pop pop_handler unwind vm_push ◌>>=◌ vm_error After
throw-IsThrown vm =
    let h = vm.handlers (vm.handler_count - 1) in
    let P = IsThrown h vm in
    After-guard P (λ _. Unit {0}) (vm.sp == 0) _ _ _ _
      λ _.
        After-guard P (λ _. Unit {0}) (vm.handler_count == 0) _ _ _ _
          λ some_handler.
            After-if P (λ _. Unit {0}) (leb stack_max h.stack_height) _ _ (λ _. tt)
              λ _. record {
                ip = refl;
                fp = refl;
                sp = refl;
                top = rw (==_refl h.stack_height) refl;
                count = ground arith;
              }

top_handler :
    (vm vm₁ vm₂ : Vm) (h : Handler)
    → IsPushed h vm vm₁
    → vm₂.handlers ≡ vm₁.handlers
    → vm₂.handler_count ≡ vm₁.handler_count
    → vm₂.handlers (vm₂.handler_count - 1) ≡ h
top_handler vm vm₁ vm₂ h p same count =
    let n = vm.handler_count in
    let at_top : vm₂.handler_count - 1 ≡ n = omega (arith, count, p.count) in
    ap (λ hs. hs (vm₂.handler_count - 1)) (same ∙ p.handlers)
    ∙ (ap (store_handler vm.handlers n h) at_top ∙ rw (==_refl n) refl)

-- A throw that goes on, while the handlers are as a `try_begin` left them, goes to its handler: the
-- address, the count of frames and the height of the stack that it stored are restored, the thrown
-- value is on top, and the handler is gone.
pub throw-try_begin :
    (vm vm₁ vm₂ vm₃ : Vm) (offset : ℕ)
    → push_handler offset vm ≡ ok tt vm₁
    → vm₂.handlers ≡ vm₁.handlers
    → vm₂.handler_count ≡ vm₁.handler_count
    → vm_exec_exception op_throw vm₂ ≡ ok tt vm₃
    → (vm₃.ip ≡ target vm.ip offset)
      × (vm₃.fp ≡ vm.fp)
      × (vm₃.sp ≡ vm.sp + 1)
      × (vm₃.stack vm.sp ≡ vm₂.stack (vm₂.sp - 1))
      × (vm₃.handler_count ≡ vm.handler_count)
throw-try_begin vm vm₁ vm₂ vm₃ offset try same count throw =
    let h = handler_of vm offset in
    let p = After-ok (IsPushed h vm) _ vm₁ (push_handler-IsPushed vm offset) try in
    let top = top_handler vm vm₁ vm₂ h p same count in
    let t =
      subst (λ h'. IsThrown h' vm₂ vm₃) top
        (After-ok (IsThrown (vm₂.handlers (vm₂.handler_count - 1)) vm₂) _ vm₃ (throw-IsThrown vm₂)
          throw) in
    (t.ip, t.fp, t.sp, t.top, omega (arith, t.count, count, p.count))
