-- ===== src/Vm/Handlers/Return.antt =====
-- Calls and returns of src/vm/vm.c.
use arcana.Common.{
  ℕ, zero, suc, ◌+◌, ◌-◌, ◌%◌, ◌≤◌, ◌<◌, ◌≡◌, refl, sym, ap, ◌∙◌, subst, Bool, true, false, not,
  ◌&&◌, Option, none, some, List, [], ◌∷◌, ltb, leb, ◌==◌, if◌then◌else◌, arith,
}
use arcana.Runtime.Object.{null, obj, Payload}
use arcana.Vm.State.{
  stack_max, frames_max, word32, Frame, Vm, Outcome, ok, error, fault, yielding, blocked, elsewhere,
  M, continue, ◌>>=◌, pure, broken, current, on_some, store_frame, vm_error, vm_push, vm_pop, load,
  top_frame,
}
use arcana.Vm.Platform.{payload_of, update_object}
use arcana.Common.{==_refl}
use arcana.Runtime.Gc.{Gc}
use arcana.Runtime.Objects.{object_at}
use arcana.Bytecode.Image.{FuncRecord}
use arcana.Vm.Closures.{upvalue_of, open_slot, close_from, close_upvalues, set_open_upvalues}
use native.Mathlib.Nat.{mod-eq_of_lt, mod-eq-sub-mod}
use arcana.Vm.Step.Parts.{IsStep-push}
use arcana.Vm.Step.{
  IsStep, IsStep-bind, IsStep-pure, StepTo, Fixed, After, After-if, After-elim, After-guard,
}
use arcana.Vm.Handlers.{After-ok}
use arcana.Vm.Control.{enter, push_frame, push_nulls, set_ip, leave_frame, vm_exec_return}

-- Only the heap and the chain of open upvalues change.
record IsLocal {ℓ} {A : Type ℓ} (m : M A) : Type 0 where
  at :
      (vm : Vm)
      → After
          (λ v. v ≡ record vm { gc = v.gc; open_upvalues = v.open_upvalues })
          (λ _. Unit {0})
          (m vm)

module _ {ℓ κ} {A : Type ℓ} {B : Type κ} where
  After-local :
      (P : Vm → Type 0) (vm : Vm) (o : Outcome A) (f : A → M B)
      → After (λ v. v ≡ record vm { gc = v.gc; open_upvalues = v.open_upvalues }) (λ _. Unit {0}) o
      → ((a : A) (gc : Gc) (us : List ℕ)
          → After P (λ _. Unit {0}) (f a (record vm { gc = gc; open_upvalues = us })))
      → After P (λ _. Unit {0}) (continue o f)
  unfolding After
  After-local P vm (ok a v) f h g =
      subst (λ u. After P (λ _. Unit {0}) (f a u)) (sym h) (g a v.gc v.open_upvalues)
  After-local P vm (error e) f h g = tt
  After-local P vm fault f h g = tt
  After-local P vm (yielding v) f h g = tt
  After-local P vm (blocked v) f h g = tt
  After-local P vm (elsewhere v) f h g = tt

  IsLocal-bind : (m : M A) (f : A → M B) → IsLocal m → ((a : A) → IsLocal (f a)) → IsLocal (m >>= f)
  unfolding ◌>>=◌
  IsLocal-bind m f h g = record {
    at = λ vm.
        After-local (λ v. v ≡ record vm { gc = v.gc; open_upvalues = v.open_upvalues }) vm (m vm) f
          (h.at vm) λ a gc us. (g a).at (record vm { gc = gc; open_upvalues = us });
  }

  IsLocal-on_some :
      (o : Option A) (f : A → M B) (k : M B)
      → ((a : A) → IsLocal (f a))
      → IsLocal k
      → IsLocal (on_some o f k)
  unfolding on_some
  IsLocal-on_some none f k h g = g
  IsLocal-on_some (some a) f k h g = h a

module _ {ℓ} {A : Type ℓ} where
  IsLocal-pure : (a : A) → IsLocal (pure a)
  unfolding pure After
  IsLocal-pure a = record { at = λ vm. refl }

  IsLocal-broken : IsLocal (broken {A = A})
  unfolding broken After
  IsLocal-broken = record { at = λ vm. tt }

  IsLocal-if : (b : Bool) (m k : M A) → IsLocal m → IsLocal k → IsLocal (if b then m else k)
  IsLocal-if true m k h g = h
  IsLocal-if false m k h g = g

IsLocal-load : (i : ℕ) → IsLocal (load i)
unfolding load After
IsLocal-load i = record {
  at = λ vm.
      After-if (λ v. v ≡ record vm { gc = v.gc; open_upvalues = v.open_upvalues }) (λ _. Unit {0})
        (ltb i stack_max) _ _ (λ _. refl) (λ _. tt);
}

IsLocal-payload_of : (a : ℕ) → IsLocal (payload_of (obj (some a)))
unfolding payload_of After
IsLocal-payload_of a = record {
  at = λ vm.
      After-elim (λ v. v ≡ record vm { gc = v.gc; open_upvalues = v.open_upvalues }) (λ _. Unit {0})
        (object_at vm.gc.objects (some a)) _ _ tt λ p. refl;
}

IsLocal-update_object : (a : ℕ) (p : Payload) → IsLocal (update_object (some a) p)
unfolding update_object After
IsLocal-update_object a p = record { at = λ vm. refl }

IsLocal-open_slot : (a : ℕ) → IsLocal (open_slot a)
unfolding open_slot
IsLocal-open_slot a = IsLocal-bind _ _ (IsLocal-payload_of a) λ p.
    IsLocal-on_some (upvalue_of p) _ _
      (λ (location, _). IsLocal-on_some location _ _ IsLocal-pure IsLocal-broken) IsLocal-broken

IsLocal-close_from : (slot : ℕ) (us : List ℕ) → IsLocal (close_from slot us)
unfolding close_from
IsLocal-close_from slot [] = IsLocal-pure []
IsLocal-close_from slot (a ∷ us) =
    let rest = IsLocal-close_from slot us in
    IsLocal-bind _ _ (IsLocal-open_slot a) λ location.
      IsLocal-if (leb slot location) _ _
        (IsLocal-bind _ _ (IsLocal-load location)
          λ v. IsLocal-bind _ _ (IsLocal-update_object a _) λ _. rest)
        (IsLocal-bind _ _ rest λ us'. IsLocal-pure (a ∷ us'))

IsLocal-close_upvalues : (slot : ℕ) → IsLocal (close_upvalues slot)
unfolding close_upvalues current set_open_upvalues ◌>>=◌ After
IsLocal-close_upvalues slot = record {
  at = λ vm.
      After-local (λ v. v ≡ record vm { gc = v.gc; open_upvalues = v.open_upvalues }) vm
        (close_from slot vm.open_upvalues vm) _ ((IsLocal-close_from slot vm.open_upvalues).at vm)
        λ us gc chain. refl;
}

-- What a return to a caller leaves.
record IsReturned (frame : Frame) (vm vm' : Vm) : Type 0 where
  ip : vm'.ip ≡ frame.return_ip
  fp : vm'.fp + 1 ≡ vm.fp
  sp : vm'.sp ≡ frame.base_slot + 1
  result : vm'.stack frame.base_slot ≡ vm.stack (vm.sp - 1)
  running : vm'.halted ≡ vm.halted

After-check {ℓ κ} :
    {A : Type ℓ} {B : Type κ} (P : Vm → Type 0) (b : Bool) (a : A) (vm : Vm) (f : A → M B)
    → After P (λ _. Unit {0}) (f a vm)
    → After P (λ _. Unit {0}) (continue (if b then ok a vm else fault) f)
unfolding After
After-check P true a vm f h = h
After-check P false a vm f h = tt

After-else {ℓ κ} :
    {A : Type ℓ} {B : Type κ} (P : Vm → Type 0) (b : Bool) (o : Outcome A) (a : A) (vm : Vm)
    (f : A → M B)
    → b ≡ false
    → After P (λ _. Unit {0}) (f a vm)
    → After P (λ _. Unit {0}) (continue (if b then o else ok a vm) f)
unfolding After
After-else P true o a vm f e h = cc
After-else P false o a vm f e h = h

return-IsReturned :
    (vm : Vm)
    → 1 < vm.fp
    → After (IsReturned (vm.frames (vm.fp - 1)) vm) (λ _. Unit {0}) (vm_exec_return vm)
unfolding vm_exec_return vm_pop top_frame leave_frame vm_push pure ◌>>=◌ vm_error After
return-IsReturned vm deep =
    let frame = vm.frames (vm.fp - 1) in
    let P = IsReturned frame vm in
    After-guard P (λ _. Unit {0}) (vm.sp == 0) _ _ _ _
      λ _. After-check P (ltb 0 vm.fp && leb vm.fp frames_max) _ _ _ (
        After-local P (record vm { sp = vm.sp - 1 })
          (close_upvalues frame.base_slot (record vm { sp = vm.sp - 1 })) _
          ((IsLocal-close_upvalues frame.base_slot).at (record vm { sp = vm.sp - 1 }))
          λ _ gc us. After-else P (vm.fp == 1) _ _ _ _ (ground arith) (
            After-guard P (λ _. Unit {0}) (leb stack_max frame.base_slot) _ _ _ _
              λ _. record {
                ip = refl;
                fp = omega arith;
                sp = refl;
                result = rw (==_refl frame.base_slot) refl;
                running = refl;
              }))

-- What the start of a call leaves.
record IsEntered (frame : Frame) (callee : FuncRecord) (argc : ℕ) (vm vm' : Vm) : Type 0 where
  ip : vm'.ip ≡ callee.code_offset
  fp : vm'.fp ≡ vm.fp + 1
  frames : vm'.frames ≡ store_frame vm.frames vm.fp frame
  sp : vm'.sp ≡ vm.sp + (callee.local_count - argc)

IsStep-push_nulls : (n : ℕ) → IsStep 0 0 n (push_nulls n)
unfolding push_nulls
IsStep-push_nulls zero = IsStep-pure tt
IsStep-push_nulls (suc n) =
    let one_more : 1 + n ≡ suc n = omega arith in
    subst (λ q. IsStep 0 0 q (push_nulls (suc n))) one_more
      (IsStep-bind (IsStep-push null) λ _. IsStep-push_nulls n)

After-step :
    (n p q : ℕ) (P : Vm → Type 0) (vm : Vm) (o : Outcome (Unit {0})) (f : Unit {0} → M (Unit {0}))
    → After (StepTo n p q vm) (Fixed vm) o
    → ((v : Vm) → StepTo n p q vm v → After P (λ _. Unit {0}) (f tt v))
    → After P (λ _. Unit {0}) (continue o f)
unfolding After
After-step n p q P vm (ok a v) f h g = g v h
After-step n p q P vm (error e) f h g = tt
After-step n p q P vm fault f h g = tt
After-step n p q P vm (yielding v) f h g = tt
After-step n p q P vm (blocked v) f h g = tt
After-step n p q P vm (elsewhere v) f h g = tt

abbrev frame_of : ℕ → ℕ → Vm → Frame
frame_of func_idx argc vm = record {
  func_idx = func_idx;
  return_ip = vm.ip;
  base_slot = (vm.sp + word32 - argc) % word32;
}

base_of_args : (sp argc : ℕ) → argc ≤ sp → sp < word32 → (sp + word32 - argc) % word32 ≡ sp - argc
base_of_args sp argc args small = omega (
  arith,
  mod-eq-sub-mod {n = sp + word32 - argc} {m = word32} (omega arith),
  mod-eq_of_lt {n = sp + word32 - argc - word32} {m = word32} (omega arith),
)

After-if_at :
    (P : Vm → Type 0) (b : Bool) (m k : M (Unit {0})) (vm : Vm)
    → After P (λ _. Unit {0}) (m vm)
    → After P (λ _. Unit {0}) (k vm)
    → After P (λ _. Unit {0}) ((if b then m else k) vm)
After-if_at P true m k vm h g = h
After-if_at P false m k vm h g = g

enter-IsEntered :
    (func_idx argc : ℕ) (callee : FuncRecord) (vm : Vm)
    → After
        (IsEntered (frame_of func_idx argc vm) callee argc vm)
        (λ _. Unit {0})
        (enter func_idx argc callee vm)
unfolding enter current push_frame set_ip ◌>>=◌ vm_error After
enter-IsEntered func_idx argc callee vm =
    let frame = frame_of func_idx argc vm in
    let P = IsEntered frame callee argc vm in
    let called = record vm { frames = store_frame vm.frames vm.fp frame; fp = vm.fp + 1 } in
    let n = callee.local_count - argc in
    After-if_at P (leb frames_max vm.fp) _ _ vm tt (
      After-if_at P (not (argc == callee.arity)) _ _ vm tt (
        After-step 0 0 n P called (push_nulls n called) _ ((IsStep-push_nulls n).at called) λ v st.
          record {
            ip = refl;
            fp = st.fixed.fp;
            frames = st.fixed.frames;
            sp = omega (arith, st.sp);
          }))

-- A call from a frame with its arguments on a stack below 2 ^ 32, and a return at any later time with
-- the frames that the call left, where both go on, leave the caller where it was: behind the call, in
-- its frame, with the result in place of the arguments.
pub enter-return :
    (func_idx argc : ℕ) (callee : FuncRecord) (vm vm₁ vm₂ vm₃ : Vm)
    → 0 < vm.fp
    → argc ≤ vm.sp
    → vm.sp < word32
    → enter func_idx argc callee vm ≡ ok tt vm₁
    → vm₂.fp ≡ vm₁.fp
    → vm₂.frames ≡ vm₁.frames
    → vm_exec_return vm₂ ≡ ok tt vm₃
    → (vm₃.ip ≡ vm.ip)
      × (vm₃.fp ≡ vm.fp)
      × (vm₃.sp + argc ≡ vm.sp + 1)
      × (vm₃.stack (vm.sp - argc) ≡ vm₂.stack (vm₂.sp - 1))
      × (vm₃.halted ≡ vm₂.halted)
enter-return func_idx argc callee vm vm₁ vm₂ vm₃ some_frame args small call depth same back =
    let frame = frame_of func_idx argc vm in
    let c =
      After-ok (IsEntered frame callee argc vm) _ vm₁ (enter-IsEntered func_idx argc callee vm)
        call in
    let at_top : vm₂.fp - 1 ≡ vm.fp = omega (arith, depth, c.fp) in
    let top : vm₂.frames (vm₂.fp - 1) ≡ frame =
      ap (λ fs. fs (vm₂.fp - 1)) (same ∙ c.frames)
      ∙ (ap (store_frame vm.frames vm.fp frame) at_top ∙ rw (==_refl vm.fp) refl) in
    let r =
      subst (λ fr. IsReturned fr vm₂ vm₃) top
        (After-ok (IsReturned (vm₂.frames (vm₂.fp - 1)) vm₂) _ vm₃
          (return-IsReturned vm₂ (omega (arith, depth, c.fp))) back) in
    let base : frame.base_slot ≡ vm.sp - argc = base_of_args vm.sp argc args small in
    (
      r.ip,
      omega (arith, r.fp, depth, c.fp),
      omega (arith, r.sp, base),
      subst (λ i. vm₃.stack i ≡ vm₂.stack (vm₂.sp - 1)) base r.result,
      r.running,
    )
