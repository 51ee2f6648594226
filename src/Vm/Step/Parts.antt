-- ===== src/Vm/Step/Parts.antt =====
-- The steps of the helpers of src/vm/vm_ops.h and of the accesses to the heap.
use arcana.Common.{
  ℕ, ◌+◌, ◌*◌, ◌&&◌, refl, Option, none, some, ltb, leb, ◌==◌, get_elem?, arith, tests,
}
use arcana.Runtime.Object.{Value, null, bool, i64, f64, obj, Payload}
use arcana.Runtime.Objects.{object_at}
use arcana.Runtime.Gc.{Gc}
use arcana.Vm.Platform.{Platform, payload_of, update_object, allocate, new_object}
use arcana.Vm.State.{
  frames_max, stack_max, Vm, Outcome, ok, error, fault, yielding, blocked, elsewhere, M, ◌>>=◌,
  vm_error, vm_push, vm_pop, vm_read_byte, vm_read_u16, vm_read_i32, load, write, top_frame,
}
use arcana.Vm.Step.{
  Fixed, StepTo, After, IsStep, Fixed-refl, quiet, kept, After-if, After-elim, IsStep-bind,
  IsStep-error, IsStep-broken, IsStep-pure, IsStep-if, IsStep-on_some, quiet-bind, IsStep-current,
}

pub IsStep-pop : IsStep 0 1 0 vm_pop
unfolding vm_pop vm_error After
IsStep-pop = record {
  at = λ vm.
      After-if (StepTo 0 1 0 vm) (Fixed vm) (vm.sp == 0) _ _ (λ _. tt)
        λ full. record {
          fixed = kept vm (λ h. omega arith) λ h. h;
          ip = omega arith;
          sp = ground arith;
        };
}

pub IsStep-push : (v : Value) → IsStep 0 0 1 (vm_push v)
unfolding vm_push vm_error After
IsStep-push v = record {
  at = λ vm.
      After-if (StepTo 0 0 1 vm) (Fixed vm) (leb stack_max vm.sp) _ _ (λ _. tt)
        λ room. record {
          fixed = kept vm (λ h. omega tests) λ h. h;
          ip = omega arith;
          sp = omega arith;
        };
}

pub IsStep-read_byte : IsStep 1 0 0 vm_read_byte
unfolding vm_read_byte After
IsStep-read_byte = record {
  at = λ vm.
      After-elim (StepTo 1 0 0 vm) (Fixed vm) (get_elem? vm.image.code vm.ip) _ _ tt
        λ b. record { fixed = kept vm (λ h. h) λ h. h; ip = refl; sp = refl };
}

pub IsStep-read_u16 : IsStep 2 0 0 vm_read_u16
unfolding vm_read_u16
IsStep-read_u16 =
    IsStep-bind IsStep-read_byte
      λ lo. IsStep-bind IsStep-read_byte λ hi. IsStep-pure (lo + hi * 256)

pub IsStep-read_i32 : IsStep 4 0 0 vm_read_i32
unfolding vm_read_i32
IsStep-read_i32 =
    IsStep-bind IsStep-read_u16
      λ lo. IsStep-bind IsStep-read_u16 λ hi. IsStep-pure (lo + hi * 65536)

pub IsStep-load : (i : ℕ) → IsStep 0 0 0 (load i)
unfolding load After
IsStep-load i = record {
  at = λ vm. After-if (StepTo 0 0 0 vm) (Fixed vm) (ltb i stack_max) _ _ (λ _. quiet vm) (λ _. tt);
}

pub IsStep-write : (i : ℕ) (v : Value) → IsStep 0 0 0 (write i v)
unfolding write After
IsStep-write i v = record {
  at = λ vm.
      After-if (StepTo 0 0 0 vm) (Fixed vm) (ltb i stack_max) _ _
        (λ _. record { fixed = kept vm (λ h. h) λ h. h; ip = omega arith; sp = refl }) (λ _. tt);
}

pub IsStep-top_frame : IsStep 0 0 0 top_frame
unfolding top_frame After
IsStep-top_frame = record {
  at = λ vm.
      After-if (StepTo 0 0 0 vm) (Fixed vm) (ltb 0 vm.fp && leb vm.fp frames_max) _ _
        (λ _. quiet vm) (λ _. tt);
}

pub IsStep-payload_of : (v : Value) → IsStep 0 0 0 (payload_of v)
unfolding payload_of After
IsStep-payload_of null = record { at = quiet }
IsStep-payload_of (bool _) = record { at = quiet }
IsStep-payload_of (i64 _) = record { at = quiet }
IsStep-payload_of (f64 _) = record { at = quiet }
IsStep-payload_of (obj o) = record {
  at = λ vm.
      After-elim (StepTo 0 0 0 vm) (Fixed vm) (object_at vm.gc.objects o) _ _ tt λ p. quiet vm;
}

-- A change of the heap alone.
heap_only : (vm : Vm) (gc : Gc) → StepTo 0 0 0 vm (record vm { gc = gc })
heap_only vm gc = record { fixed = kept vm (λ h. h) λ h. h; ip = omega arith; sp = refl }

pub IsStep-update_object : (o : Option ℕ) (p : Payload) → IsStep 0 0 0 (update_object o p)
unfolding update_object After
IsStep-update_object none p = record { at = λ vm. tt }
IsStep-update_object (some a) p = record { at = λ vm. heap_only vm _ }

module _ (pf : Platform) where
  pub IsStep-allocate : (p : Payload) → IsStep 0 0 0 (allocate pf p)
  unfolding allocate After
  IsStep-allocate p = record { at = λ vm. heap_only vm _ }

  pub IsStep-new_object : (p : Payload) → IsStep 0 0 0 (new_object pf p)
  unfolding new_object
  IsStep-new_object p = IsStep-bind (IsStep-allocate p) λ a. IsStep-pure (obj a)

-- The result of a part that moves neither pointer is pushed.
pub IsStep-then_push : {m : M Value} → IsStep 0 0 0 m → IsStep 0 0 1 (m >>= vm_push)
IsStep-then_push h = IsStep-bind h IsStep-push

pad :
    {A : Type 0} (n p q : ℕ) (vm : Vm) (o : Outcome A)
    → After (StepTo n p q vm) (Fixed vm) o
    → After (StepTo n (p + 1) (q + 1) vm) (Fixed vm) o
unfolding After
pad n p q vm (ok x vm') h = record { fixed = h.fixed; ip = h.ip; sp = omega (arith, h.sp) }
pad n p q vm (error e) h = tt
pad n p q vm fault h = tt
pad n p q vm (yielding vm') h = h
pad n p q vm (blocked vm') h = h
pad n p q vm (elsewhere vm') h = h

-- A value that is read where it stands counts as popped and pushed.
pub IsStep-pad : {A : Type 0} {n p q : ℕ} {m : M A} → IsStep n p q m → IsStep n (p + 1) (q + 1) m
unfolding After
IsStep-pad {A} {n} {p} {q} {m} h = record { at = λ vm. pad n p q vm (m vm) (h.at vm) }

pub ruleset quiet_rules = (
  quiet-bind, IsStep-if, IsStep-on_some, IsStep-pure, IsStep-error, IsStep-broken, IsStep-current,
  IsStep-load, IsStep-write, IsStep-top_frame, IsStep-payload_of, IsStep-update_object,
  IsStep-allocate, IsStep-new_object,
)
