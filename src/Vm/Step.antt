-- ===== src/Vm/Step.antt =====
-- What an instruction leaves as it is, and how far it moves the two pointers: rules for each way to
-- build a handler.
pub mod Parts
pub mod Values
pub mod Objects
pub mod Control
pub mod Table
use Prim.Native.String.{String}
use arcana.Common.{
  ℕ, zero, suc, ◌+◌, ◌-◌, ◌*◌, ◌&&◌, ◌≤◌, ◌<◌, ◌≡◌, refl, ◌∙◌, Bool, true, false, Option, none,
  some, List, ltb, leb, ◌==◌, if◌then◌else◌, get_elem?, arith, tests,
}
use arcana.Runtime.Object.{Value, null, bool, i64, f64, obj, Payload}
use arcana.Runtime.Objects.{object_at}
use arcana.Runtime.Gc.{Gc}
use arcana.Vm.Platform.{Platform, payload_of, update_object, allocate, new_object}
use arcana.Vm.State.{
  frames_max, stack_max, globals_max, World, VmError, Vm, Outcome, ok, error, fault, yielding,
  blocked, elsewhere, M, continue, ◌>>=◌, ◌>>◌, pure, broken, current, on_some, vm_error, vm_push,
  vm_pop, vm_read_byte, vm_read_u16, vm_read_i32, load, write, top_frame,
}

-- The frames, the handlers and the code stay, and no array outgrows its bound.
pub record Fixed (vm vm' : Vm) : Type 0 where
  pub image : vm'.image ≡ vm.image
  pub frames : vm'.frames ≡ vm.frames
  pub fp : vm'.fp ≡ vm.fp
  pub handlers : vm'.handlers ≡ vm.handlers
  pub handler_count : vm'.handler_count ≡ vm.handler_count
  pub halted : vm'.halted ≡ vm.halted
  pub stack_bound : vm.sp ≤ stack_max → vm'.sp ≤ stack_max
  pub globals_bound : vm.global_count ≤ globals_max → vm'.global_count ≤ globals_max

-- `n` bytes are read, `p` values popped and `q` pushed, counted with what cancels.
pub record StepTo (n p q : ℕ) (vm vm' : Vm) : Type 0 where
  pub fixed : Fixed vm vm'
  pub ip : vm'.ip ≡ vm.ip + n
  pub sp : vm'.sp + p ≡ vm.sp + q

-- `P` of the machine that goes on, and `Q` of one that stops in the instruction.
unfoldable pub After {ℓ} : {A : Type ℓ} → (Vm → Type 0) → (Vm → Type 0) → Outcome A → Type 0
After P Q (ok a vm) = P vm
After P Q (error e) = Unit {0}
After P Q fault = Unit {0}
After P Q (yielding vm) = Q vm
After P Q (blocked vm) = Q vm
After P Q (elsewhere vm) = Q vm

pub record IsStep {ℓ} {A : Type ℓ} (n p q : ℕ) (m : M A) : Type 0 where
  pub at : (vm : Vm) → After (StepTo n p q vm) (Fixed vm) (m vm)

pub Fixed-refl : (vm : Vm) → Fixed vm vm
Fixed-refl vm = record {
  image = refl;
  frames = refl;
  fp = refl;
  handlers = refl;
  handler_count = refl;
  halted = refl;
  stack_bound = λ h. h;
  globals_bound = λ h. h;
}

pub Fixed-trans : {a b c : Vm} → Fixed a b → Fixed b c → Fixed a c
Fixed-trans s t = record {
  image = t.image ∙ s.image;
  frames = t.frames ∙ s.frames;
  fp = t.fp ∙ s.fp;
  handlers = t.handlers ∙ s.handlers;
  handler_count = t.handler_count ∙ s.handler_count;
  halted = t.halted ∙ s.halted;
  stack_bound = λ h. t.stack_bound (s.stack_bound h);
  globals_bound = λ h. t.globals_bound (s.globals_bound h);
}

module _ {n p q k r s : ℕ} {a : Vm} where
  StepTo-trans :
      {b c : Vm} → StepTo n p q a b → StepTo k r s b c → StepTo (n + k) (p + r) (q + s) a c
  StepTo-trans x y = record {
    fixed = Fixed-trans x.fixed y.fixed;
    ip = omega (arith, x.ip, y.ip);
    sp = omega (arith, x.sp, y.sp);
  }

module _ {ℓ} {A : Type ℓ} {n p q : ℕ} (k r s : ℕ) where
  After-trans :
      {a b : Vm} (o : Outcome A)
      → StepTo n p q a b
      → After (StepTo k r s b) (Fixed b) o
      → After (StepTo (n + k) (p + r) (q + s) a) (Fixed a) o
  unfolding After
  After-trans (ok x vm) st h = StepTo-trans st h
  After-trans (error e) st h = tt
  After-trans fault st h = tt
  After-trans (yielding vm) st h = Fixed-trans st.fixed h
  After-trans (blocked vm) st h = Fixed-trans st.fixed h
  After-trans (elsewhere vm) st h = Fixed-trans st.fixed h

module _ {ℓ κ} {A : Type ℓ} {B : Type κ} (n p q k r s : ℕ) where
  After-continue :
      (a : Vm) (o : Outcome A) (f : A → M B)
      → After (StepTo n p q a) (Fixed a) o
      → ((x : A) → IsStep k r s (f x))
      → After (StepTo (n + k) (p + r) (q + s) a) (Fixed a) (continue o f)
  unfolding After
  After-continue a (ok x vm) f h g = After-trans k r s (f x vm) h ((g x).at vm)
  After-continue a (error e) f h g = tt
  After-continue a fault f h g = tt
  After-continue a (yielding vm) f h g = h
  After-continue a (blocked vm) f h g = h
  After-continue a (elsewhere vm) f h g = h

module _ {ℓ κ} {A : Type ℓ} {B : Type κ} {n p q k r s : ℕ} where
  pub IsStep-bind :
      {m : M A} {f : A → M B}
      → IsStep n p q m
      → ((x : A) → IsStep k r s (f x))
      → IsStep (n + k) (p + r) (q + s) (m >>= f)
  unfolding ◌>>=◌
  IsStep-bind {m} {f} h g = record { at = λ vm. After-continue n p q k r s vm (m vm) f (h.at vm) g }

pub quiet : (vm : Vm) → StepTo 0 0 0 vm vm
quiet vm = record { fixed = Fixed-refl vm; ip = omega arith; sp = refl }

-- The parts of the machine that a step may change.
pub kept :
    (vm : Vm) {stack : ℕ → Value} {sp : ℕ} {globals : ℕ → Value} {global_count ip : ℕ} {gc : Gc}
    {open_upvalues : List ℕ} {yielded : Value} {world : World}
    → (vm.sp ≤ stack_max → sp ≤ stack_max)
    → (vm.global_count ≤ globals_max → global_count ≤ globals_max)
    → Fixed vm (record vm {
      stack = stack;
      sp = sp;
      globals = globals;
      global_count = global_count;
      ip = ip;
      gc = gc;
      open_upvalues = open_upvalues;
      yielded = yielded;
      world = world;
    })
kept vm h g = record {
  image = refl;
  frames = refl;
  fp = refl;
  handlers = refl;
  handler_count = refl;
  halted = refl;
  stack_bound = h;
  globals_bound = g;
}

module _ {ℓ} {A : Type ℓ} (P Q : Vm → Type 0) where
  pub After-elim {κ} :
      {B : Type κ} (o : Option B) (x : Outcome A) (f : B → Outcome A)
      → After P Q x
      → ((b : B) → After P Q (f b))
      → After P Q (elim o [ none ↦ x | some b ↦ f b ])
  After-elim none x f h g = h
  After-elim (some b) x f h g = g b

  pub After-if :
      (b : Bool) (o o' : Outcome A)
      → (b ≡ true → After P Q o)
      → (b ≡ false → After P Q o')
      → After P Q (if b then o else o')
  After-if true o o' h g = h refl
  After-if false o o' h g = g refl

module _ {ℓ} {A : Type ℓ} where
  pub IsStep-error : {n p q : ℕ} (message : String) → IsStep n p q (vm_error {A = A} message)
  unfolding vm_error After
  IsStep-error message = record { at = λ vm. tt }

  pub IsStep-broken : {n p q : ℕ} → IsStep n p q (broken {A = A})
  unfolding broken After
  IsStep-broken = record { at = λ vm. tt }

  pub IsStep-pure : (a : A) → IsStep 0 0 0 (pure a)
  unfolding pure After
  IsStep-pure a = record { at = quiet }

  pub IsStep-if :
      {n p q : ℕ} (b : Bool) {m k : M A}
      → (b ≡ true → IsStep n p q m)
      → (b ≡ false → IsStep n p q k)
      → IsStep n p q (if b then m else k)
  IsStep-if true h g = h refl
  IsStep-if false h g = g refl

module _ {ℓ κ} {A : Type ℓ} {B : Type κ} {n p q : ℕ} where
  pub IsStep-on_some :
      (o : Option A) {f : A → M B} {k : M B}
      → ((a : A) → IsStep n p q (f a))
      → IsStep n p q k
      → IsStep n p q (on_some o f k)
  unfolding on_some
  IsStep-on_some none h g = g
  IsStep-on_some (some a) h g = h a

module _ {ℓ κ} {A : Type ℓ} {B : Type κ} where
  pub quiet-bind :
      {m : M A} {f : A → M B}
      → IsStep 0 0 0 m
      → ((x : A) → IsStep 0 0 0 (f x))
      → IsStep 0 0 0 (m >>= f)
  quiet-bind h g = IsStep-bind h g

pub IsStep-current : IsStep 0 0 0 current
unfolding current After
IsStep-current = record { at = quiet }

-- What follows a test that stops the instruction.
pub After-guard {ℓ κ} :
    {A : Type ℓ} {B : Type κ} (P Q : Vm → Type 0) (b : Bool) (e : VmError) (a : A) (vm : Vm)
    (f : A → M B)
    → (b ≡ false → After P Q (f a vm))
    → After P Q (continue (if b then error e else ok a vm) f)
unfolding After
After-guard P Q true e a vm f h = tt
After-guard P Q false e a vm f h = h refl
