-- ===== src/Vm/Step/Control.antt =====
-- The steps of the casts, of mutexes and channels, and of the handlers for stack, locals and globals.
use Prim.Native.String.{String}
use arcana.Common.{ℕ, zero, suc, ◌<◌, refl, Option, List, ltb, leb, ◌==◌, arith, tests}
use arcana.Runtime.Object.{Value, null, bool, i64, f64, obj, Payload}
use arcana.Vm.State.{globals_max, ◌>>◌, done, vm_pop}
use arcana.Vm.Platform.{Platform}
use arcana.Bytecode.Pool
use arcana.Bytecode.Pool.{Constant}
use arcana.Runtime.Channel.{
  SendResult, send_waits, send_closed, sent, RecvResult, recv_waits, recv_closed, received,
}
use arcana.Vm.Intrinsics.{parse_all, to_i64, to_f64, named, to_text, vm_exec_cast}
use arcana.Vm.Concurrency.{
  wait, after_send, after_recv, vm_exec_mutex_lock, vm_exec_mutex_unlock, vm_exec_chan_send,
  vm_exec_chan_recv, vm_exec_mutex_new, vm_exec_chan_new,
}
use arcana.Vm.Control.{
  vm_exec_dup, vm_exec_load_local, vm_exec_store_local, write_global, read_global, append_globals,
  vm_exec_load_global, vm_exec_store_global, vm_const_to_val, vm_exec_const,
}
use arcana.Vm.Step.Values.{IsStep-unary}
use arcana.Vm.Step.{
  Fixed, StepTo, After, IsStep, Fixed-refl, quiet, kept, After-if, IsStep-bind, IsStep-error,
  IsStep-pure, IsStep-if, quiet-bind, IsStep-current,
}
use arcana.Vm.Step.Parts.{
  IsStep-pop, IsStep-read_u16, IsStep-load, IsStep-write, IsStep-top_frame, IsStep-update_object,
  IsStep-allocate, IsStep-new_object, IsStep-then_push, quiet_rules,
}
use arcana.Vm.Op.{op_cast_i64, op_cast_f64, op_cast_str}

-- Intrinsics and casts.
IsStep-parse_all :
    (message : String) (f : List ℕ → ℕ × ℕ) (s : List ℕ) → IsStep 0 0 0 (parse_all message f s)
unfolding parse_all
IsStep-parse_all message f s = search quiet_rules

module _ (pf : Platform) where
  IsStep-to_i64 : (v : Value) → IsStep 0 0 0 (to_i64 pf v)
  unfolding to_i64
  IsStep-to_i64 null = search quiet_rules
  IsStep-to_i64 (bool _) = search quiet_rules
  IsStep-to_i64 (i64 _) = search quiet_rules
  IsStep-to_i64 (f64 _) = search quiet_rules
  IsStep-to_i64 (obj _) = search (quiet_rules, IsStep-parse_all) depth 8

  IsStep-to_f64 : (v : Value) → IsStep 0 0 0 (to_f64 pf v)
  unfolding to_f64
  IsStep-to_f64 null = search quiet_rules
  IsStep-to_f64 (bool _) = search quiet_rules
  IsStep-to_f64 (i64 _) = search quiet_rules
  IsStep-to_f64 (f64 _) = search quiet_rules
  IsStep-to_f64 (obj _) = search (quiet_rules, IsStep-parse_all) depth 8

  IsStep-named : (p : Option Payload) → IsStep 0 0 0 (named pf p)
  unfolding named
  IsStep-named p = search quiet_rules

  pub IsStep-to_text : (v : Value) → IsStep 0 0 0 (to_text pf v)
  unfolding to_text
  IsStep-to_text null = search quiet_rules
  IsStep-to_text (bool _) = search quiet_rules
  IsStep-to_text (i64 _) = search quiet_rules
  IsStep-to_text (f64 _) = search quiet_rules
  IsStep-to_text (obj _) = search (quiet_rules, IsStep-named) depth 8

  pub cast_i64-IsStep : IsStep 0 1 1 (vm_exec_cast pf op_cast_i64)
  unfolding vm_exec_cast
  cast_i64-IsStep = IsStep-unary IsStep-to_i64

  pub cast_f64-IsStep : IsStep 0 1 1 (vm_exec_cast pf op_cast_f64)
  unfolding vm_exec_cast
  cast_f64-IsStep = IsStep-unary IsStep-to_f64

  pub cast_str-IsStep : IsStep 0 1 1 (vm_exec_cast pf op_cast_str)
  unfolding vm_exec_cast
  cast_str-IsStep = IsStep-unary IsStep-to_text

-- Mutexes and channels.
IsStep-wait : IsStep 0 0 0 wait
unfolding wait After
IsStep-wait = record { at = Fixed-refl }

IsStep-after_send : (o : Option ℕ) (r : SendResult) → IsStep 0 0 0 (after_send o r)
unfolding after_send
IsStep-after_send o send_waits = IsStep-wait
IsStep-after_send o send_closed = IsStep-error _
IsStep-after_send o (sent ch) = IsStep-update_object o _

IsStep-after_recv : (o : Option ℕ) (r : RecvResult) → IsStep 0 0 0 (after_recv o r)
unfolding after_recv
IsStep-after_recv o recv_waits = quiet-bind IsStep-wait λ _. IsStep-pure _
IsStep-after_recv o recv_closed = IsStep-pure _
IsStep-after_recv o (received v ch) = quiet-bind (IsStep-update_object o _) λ _. IsStep-pure v

pub mutex_lock-IsStep : IsStep 0 1 0 vm_exec_mutex_lock
unfolding vm_exec_mutex_lock
mutex_lock-IsStep =
    IsStep-bind {k = 0} {r = 0} {s = 0} IsStep-pop λ v. search (quiet_rules, IsStep-wait) depth 8

pub mutex_unlock-IsStep : IsStep 0 1 0 vm_exec_mutex_unlock
unfolding vm_exec_mutex_unlock
mutex_unlock-IsStep = IsStep-bind {k = 0} {r = 0} {s = 0} IsStep-pop λ v. search quiet_rules depth 8

pub chan_send-IsStep : IsStep 0 2 0 vm_exec_chan_send
unfolding vm_exec_chan_send
chan_send-IsStep = IsStep-bind IsStep-pop λ v.
    IsStep-bind {k = 0} {r = 0} {s = 0} IsStep-pop
      λ c. search (quiet_rules, IsStep-after_send) depth 8

pub chan_recv-IsStep : IsStep 0 1 1 vm_exec_chan_recv
unfolding vm_exec_chan_recv
chan_recv-IsStep = IsStep-unary λ v. search (quiet_rules, IsStep-after_recv) depth 8

module _ (pf : Platform) where
  pub mutex_new-IsStep : IsStep 0 0 1 (vm_exec_mutex_new pf)
  unfolding vm_exec_mutex_new
  mutex_new-IsStep = IsStep-bind (IsStep-allocate pf _) λ a. IsStep-then_push (search quiet_rules)

  pub chan_new-IsStep : IsStep 2 0 1 (vm_exec_chan_new pf)
  unfolding vm_exec_chan_new
  chan_new-IsStep =
      IsStep-bind IsStep-read_u16
        λ cap. IsStep-bind (IsStep-allocate pf _) λ a. IsStep-then_push (search quiet_rules)

-- Stack, locals and globals.
pub pop-IsStep : IsStep 0 1 0 (vm_pop >> done)
pop-IsStep = IsStep-bind IsStep-pop λ _. IsStep-pure tt

pub dup-IsStep : IsStep 0 0 1 vm_exec_dup
unfolding vm_exec_dup
dup-IsStep =
    IsStep-bind IsStep-current
      λ vm. IsStep-if (vm.sp == 0) (λ _. IsStep-error _) λ _. IsStep-then_push (IsStep-load _)

pub load_local-IsStep : IsStep 2 0 1 vm_exec_load_local
unfolding vm_exec_load_local
load_local-IsStep =
    IsStep-bind IsStep-read_u16
      λ slot. IsStep-bind IsStep-top_frame λ frame. IsStep-then_push (IsStep-load _)

pub store_local-IsStep : IsStep 2 1 0 vm_exec_store_local
unfolding vm_exec_store_local
store_local-IsStep =
    IsStep-bind IsStep-read_u16
      λ slot. IsStep-bind IsStep-pop λ v. IsStep-bind IsStep-top_frame λ frame. IsStep-write _ v

IsStep-write_global : (i : ℕ) (v : Value) → i < globals_max → IsStep 0 0 0 (write_global i v)
unfolding write_global After
IsStep-write_global i v h = record {
  at = λ vm. record { fixed = kept vm (λ b. b) λ b. ground arith; ip = omega arith; sp = refl };
}

IsStep-read_global : (i : ℕ) → IsStep 0 0 0 (read_global i)
unfolding read_global After
IsStep-read_global i = record {
  at = λ vm. After-if (StepTo 0 0 0 vm) (Fixed vm) (ltb i globals_max) _ _ (λ _. quiet vm) λ _. tt;
}

IsStep-append_globals : (n : ℕ) → IsStep 0 0 0 (append_globals n)
unfolding append_globals
IsStep-append_globals zero = IsStep-pure tt
IsStep-append_globals (suc n) = quiet-bind IsStep-current λ vm.
    quiet-bind
      (IsStep-if (ltb vm.global_count globals_max) (λ h. IsStep-write_global _ null (omega tests))
        λ _. IsStep-pure tt)
      λ _. IsStep-append_globals n

pub load_global-IsStep : IsStep 2 0 1 vm_exec_load_global
unfolding vm_exec_load_global
load_global-IsStep = IsStep-bind IsStep-read_u16 λ idx. IsStep-bind IsStep-current λ vm.
    IsStep-bind (IsStep-append_globals _) λ _.
      IsStep-if (leb globals_max idx) (λ _. IsStep-error _)
        λ _. IsStep-then_push (IsStep-read_global idx)

pub store_global-IsStep : IsStep 2 1 0 vm_exec_store_global
unfolding vm_exec_store_global
store_global-IsStep = IsStep-bind IsStep-read_u16 λ idx. IsStep-bind IsStep-pop λ v.
    IsStep-if (leb globals_max idx) (λ _. IsStep-error _)
      λ h. IsStep-write_global idx v (omega tests)

module _ (pf : Platform) where
  IsStep-const_to_val : (c : Constant) → IsStep 0 0 0 (vm_const_to_val pf c)
  unfolding vm_const_to_val
  IsStep-const_to_val Pool.null = IsStep-pure _
  IsStep-const_to_val (Pool.bool _) = IsStep-pure _
  IsStep-const_to_val (Pool.i64 _) = IsStep-pure _
  IsStep-const_to_val (Pool.f64 _) = IsStep-pure _
  IsStep-const_to_val (Pool.string s) = IsStep-new_object pf _

  pub const-IsStep : IsStep 2 0 1 (vm_exec_const pf)
  unfolding vm_exec_const
  const-IsStep = IsStep-bind IsStep-read_u16 λ idx.
      IsStep-bind IsStep-current λ vm. IsStep-then_push (search (quiet_rules, IsStep-const_to_val))
