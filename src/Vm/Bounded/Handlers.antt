-- ===== src/Vm/Bounded/Handlers.antt =====
-- The invariant under branches, exceptions, calls, returns and intrinsics.
use Prim.Native.String.{String}
use arcana.Common.{
  ℕ, zero, suc, ◌+◌, ◌-◌, ◌≤◌, ◌<◌, ◌≡◌, refl, sym, subst, Bool, true, false, not, leb, ◌==◌,
  if◌then◌else◌, inl, inr, arith, tests, Bool-cases,
}
use arcana.Runtime.Object.{Value, null}
use arcana.Vm.State.{
  frames_max, handler_max, Frame, Handler, Vm, M, ◌>>=◌, ◌>>◌, current, store_handler, vm_error,
  vm_push,
}
use arcana.Bytecode.Image.{FuncRecord}
use arcana.Vm.Step.Objects.{IsStep-close_upvalues}
use arcana.Vm.Control.{
  set_ip, branch_if, jump_by, vm_exec_branch, push_handler, pop_handler, unwind, vm_exec_exception,
  push_frame, push_nulls, callee_index, enter, vm_exec_call, halt_with, leave_frame, vm_exec_return,
}
use arcana.Vm.Step.{After-guard, After, IsStep, After-if, IsStep-pure}
use arcana.Vm.Step.Parts.{IsStep-top_frame, quiet_rules}
use arcana.Vm.Bounded.{
  IsWeak, IsBounded, Keeps, IsKept, Keeps-bind, Kept-bind, with_fp-IsWeak, same-IsWeak, Kept-quiet,
  Kept-if, Kept-pop, Kept-push, push-IsBounded, kept_rules,
}
use arcana.Vm.Op.{
  Op, op_jump, op_jump_if_false, op_jump_if_true, op_try_begin, op_try_end, op_throw,
}

Kept-set_ip : (ip : ℕ) → IsKept (set_ip ip)
unfolding set_ip After
Kept-set_ip ip = record { at = λ vm b. record { weak = same-IsWeak b.weak; sp = b.sp } }

Kept-jump_by : (offset : ℕ) → IsKept (jump_by offset)
unfolding jump_by
Kept-jump_by offset = search (kept_rules, Kept-set_ip)

Kept-branch_if : (taken : Bool → Bool) (offset : ℕ) → IsKept (branch_if taken offset)
unfolding branch_if
Kept-branch_if taken offset = search (kept_rules, Kept-set_ip) depth 8

pub branch-IsKept : (o : Op) → IsKept (vm_exec_branch o)
unfolding vm_exec_branch
branch-IsKept op_jump = search (kept_rules, Kept-jump_by)
branch-IsKept op_jump_if_false = search (kept_rules, Kept-branch_if)
branch-IsKept op_jump_if_true = search (kept_rules, Kept-branch_if)
branch-IsKept _ = search kept_rules

store_handler-depth :
    (hs : ℕ → Handler) (n : ℕ) (h : Handler)
    → ((i : ℕ) → i < n → (hs i).frame_depth ≤ frames_max)
    → h.frame_depth ≤ frames_max
    → (i : ℕ) → i < n + 1
    → (store_handler hs n h i).frame_depth ≤ frames_max
store_handler-depth hs n h old new i p = elim (Bool-cases (i == n)) [
  | inl e ↦ subst (λ t. (if t then h else hs i).frame_depth ≤ frames_max) (sym e) new
  | inr e ↦
      subst (λ t. (if t then h else hs i).frame_depth ≤ frames_max) (sym e)
        (old i (ground (arith, e, p)))
]

try_begin-IsKept : (offset : ℕ) → IsKept (push_handler offset)
unfolding push_handler vm_error After
try_begin-IsKept offset = record {
  at = λ vm b.
      After-if IsBounded IsBounded (leb handler_max vm.handler_count) _ _ (λ _. tt)
        λ room. record {
          weak = record {
            fp = b.weak.fp;
            globals = b.weak.globals;
            handlers = omega tests;
            depth = store_handler-depth vm.handlers vm.handler_count _ b.weak.depth b.weak.fp;
          };
          sp = b.sp;
        };
}

-- A handler that is taken off restores a count of frames that is in range.
drop_handler : (vm : Vm) → IsWeak vm → IsWeak (record vm { handler_count = vm.handler_count - 1 })
drop_handler vm w = record {
  fp = w.fp;
  globals = w.globals;
  handlers = omega (arith, w.handlers);
  depth = λ i p. w.depth i (omega (arith, p));
}

try_end-IsKept : (message : String) → IsKept (pop_handler message)
unfolding pop_handler vm_error After
try_end-IsKept message = record {
  at = λ vm b.
      After-if IsBounded IsBounded (vm.handler_count == 0) _ _ (λ _. tt)
        λ _. record { weak = drop_handler vm b.weak; sp = b.sp };
}

abbrev restore : String → Value → M (Unit {0})
restore message v = do h ← pop_handler message; unwind h; vm_push v

throw-IsKept : (message : String) (v : Value) → IsKept (restore message v)
unfolding pop_handler vm_error After unwind ◌>>=◌
throw-IsKept message v = record {
  at = λ vm b. After-guard IsBounded IsBounded (vm.handler_count == 0) _ _ _ _ λ some_handler.
      (push-IsBounded v).at _ (record {
        fp = b.weak.depth (vm.handler_count - 1) (ground arith);
        globals = b.weak.globals;
        handlers = omega (arith, b.weak.handlers);
        depth = λ i p. b.weak.depth i (omega (arith, p));
      });
}

pub exception-IsKept : (o : Op) → IsKept (vm_exec_exception o)
unfolding vm_exec_exception
exception-IsKept op_try_begin = search (kept_rules, try_begin-IsKept)
exception-IsKept op_try_end = search (kept_rules, try_end-IsKept)
exception-IsKept op_throw = Kept-bind Kept-pop λ v. throw-IsKept _ v
exception-IsKept _ = search kept_rules

-- Calls and returns.
Kept-push_nulls : (n : ℕ) → IsKept (push_nulls n)
unfolding push_nulls
Kept-push_nulls zero = Kept-quiet (IsStep-pure tt)
Kept-push_nulls (suc n) = Kept-bind (Kept-push null) λ _. Kept-push_nulls n

After-if_at :
    (b : Bool) (m k : M (Unit {0})) (vm : Vm)
    → (b ≡ true → After IsBounded IsBounded (m vm))
    → (b ≡ false → After IsBounded IsBounded (k vm))
    → After IsBounded IsBounded ((if b then m else k) vm)
After-if_at true m k vm h g = h refl
After-if_at false m k vm h g = g refl

enter-IsKept : (func_idx argc : ℕ) (callee : FuncRecord) → IsKept (enter func_idx argc callee)
unfolding enter ◌>>=◌ current push_frame vm_error After
enter-IsKept func_idx argc callee = record {
  at = λ vm b.
      After-if_at (leb frames_max vm.fp) _ _ vm (λ _. tt)
        λ room.
          After-if_at (not (argc == callee.arity)) _ _ vm (λ _. tt)
            λ _.
              (Kept-bind (Kept-push_nulls (callee.local_count - argc))
                  λ _. Kept-set_ip callee.code_offset).at
                _
                (record {
                  weak = record {
                    fp = omega tests;
                    globals = b.weak.globals;
                    handlers = b.weak.handlers;
                    depth = b.weak.depth;
                  };
                  sp = b.sp;
                });
}

IsStep-callee_index : (func_idx argc : ℕ) → IsStep 0 0 0 (callee_index func_idx argc)
unfolding callee_index
IsStep-callee_index func_idx argc = search quiet_rules depth 10

pub call-IsKept : IsKept vm_exec_call
unfolding vm_exec_call
call-IsKept = search (kept_rules, IsStep-callee_index, enter-IsKept) depth 12

pub Kept-halt : IsKept halt_with
unfolding halt_with After
Kept-halt = record { at = λ vm b. record { weak = same-IsWeak b.weak; sp = b.sp } }

leave_frame-IsWeak : (frame : Frame) → Keeps IsBounded IsWeak (leave_frame frame)
unfolding leave_frame After
leave_frame-IsWeak frame = record {
  at = λ vm b.
      After-if IsWeak IsBounded (vm.fp == 1) _ _ (λ _. with_fp-IsWeak b.weak (omega arith))
        λ _. with_fp-IsWeak b.weak (omega (arith, b.weak.fp));
}

pub return-IsKept : IsKept vm_exec_return
unfolding vm_exec_return
return-IsKept = Kept-bind Kept-pop λ result. Kept-bind (Kept-quiet IsStep-top_frame) λ frame.
    Kept-bind (Kept-quiet (IsStep-close_upvalues frame.base_slot)) λ _.
      Keeps-bind (leave_frame-IsWeak frame) λ last.
        Keeps-bind (push-IsBounded result) λ _. Kept-if last Kept-halt (Kept-quiet (IsStep-pure tt))
