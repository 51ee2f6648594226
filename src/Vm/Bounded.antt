-- ===== src/Vm/Bounded.antt =====
-- The invariant of the machine of src/vm: no count outgrows its array.
pub mod Handlers
pub mod Loop
use Prim.Native.String.{String}
use arcana.Common.{
  ℕ, zero, suc, min, ◌+◌, ◌-◌, ◌*◌, ◌/◌, ◌%◌, ◌^◌, ◌≤◌, ◌<◌, ◌≡◌, refl, sym, ap, ◌∙◌, subst, Bool,
  true, false, not, ◌&&◌, ◌||◌, Option, none, some, List, [], ◌∷◌, ◌++◌, ltb, leb, ◌==◌,
  if◌then◌else◌, length, get_elem?, set, take, drop, inl, inr, ◌⊎◌, arith, tests, Bool-cases,
}
use arcana.Runtime.Object.{
  Value, null, bool, i64, f64, obj, Payload, string, bitvec, array, map, closure, upvalue, fields,
  coroutine, thread, mutex, channel, Object,
}
use arcana.Vm.State.{
  stack_max, frames_max, globals_max, handler_max, word32, Frame, Handler, VmError, World, Vm,
  Outcome, ok, error, fault, yielding, blocked, elsewhere, M, continue, ◌>>=◌, ◌>>◌, pure, done,
  broken, current, on_some, store, store_frame, store_handler, vm_error, vm_push, vm_pop,
  vm_read_byte, vm_read_u16, vm_read_i32, load, write, top_frame, func_at, get_or_null,
}
use arcana.Vm.Platform.{
  Platform, bytes_of, c_string, is_truthy, payload_of, string_of, update_object, pointer_of,
  allocate, new_object,
}
use arcana.Common.Vector.{Vec}
use arcana.Runtime.Objects.{array_push}
use arcana.Vm.Collections.{pop_items, set_pairs, push_items, vm_exec_array_new, vm_exec_map_new}
use arcana.Vm.Step.{
  Fixed, StepTo, After, IsStep, Fixed-refl, Fixed-trans, quiet, kept, After-if, After-elim,
  IsStep-bind, IsStep-error, IsStep-broken, IsStep-pure, IsStep-if, IsStep-on_some, quiet-bind,
  IsStep-current,
}
use arcana.Vm.Step.Parts.{
  IsStep-pop, IsStep-push, IsStep-read_byte, IsStep-read_u16, IsStep-read_i32, IsStep-load,
  IsStep-write, IsStep-top_frame, IsStep-payload_of, IsStep-update_object, IsStep-allocate,
  IsStep-new_object, IsStep-then_push, quiet_rules,
}

-- The counts of frames, globals and handlers are in range, and every handler on the stack of handlers
-- restores a count of frames that is in range.
pub record IsWeak (vm : Vm) : Type 0 where
  pub fp : vm.fp ≤ frames_max
  pub globals : vm.global_count ≤ globals_max
  pub handlers : vm.handler_count ≤ handler_max
  pub depth : (i : ℕ) → i < vm.handler_count → (vm.handlers i).frame_depth ≤ frames_max

-- No index of the machine leaves its array.
pub record IsBounded (vm : Vm) : Type 0 where
  pub weak : IsWeak vm
  pub sp : vm.sp ≤ stack_max

pub record Keeps {ℓ} {A : Type ℓ} (P Q : Vm → Type 0) (m : M A) : Type 0 where
  pub at : (vm : Vm) → P vm → After Q IsBounded (m vm)

abbrev pub IsKept {ℓ} : {A : Type ℓ} → M A → Type 0
IsKept m = Keeps IsBounded IsBounded m

module _ {ℓ κ} {A : Type ℓ} {B : Type κ} where
  Keeps-continue :
      (P Q : Vm → Type 0) (o : Outcome A) (f : A → M B)
      → After P IsBounded o
      → ((a : A) → Keeps P Q (f a))
      → After Q IsBounded (continue o f)
  unfolding After
  Keeps-continue P Q (ok a vm) f h g = (g a).at vm h
  Keeps-continue P Q (error e) f h g = tt
  Keeps-continue P Q fault f h g = tt
  Keeps-continue P Q (yielding vm) f h g = h
  Keeps-continue P Q (blocked vm) f h g = h
  Keeps-continue P Q (elsewhere vm) f h g = h

  pub Keeps-bind :
      {P Q R : Vm → Type 0} {m : M A} {f : A → M B}
      → Keeps P Q m
      → ((a : A) → Keeps Q R (f a))
      → Keeps P R (m >>= f)
  unfolding ◌>>=◌
  Keeps-bind {P} {Q} {R} {m} {f} h g = record {
    at = λ vm b. Keeps-continue Q R (m vm) f (h.at vm b) g;
  }

  pub Kept-bind : {m : M A} {f : A → M B} → IsKept m → ((a : A) → IsKept (f a)) → IsKept (m >>= f)
  Kept-bind h g = Keeps-bind h g

  pub Kept-on_some :
      (o : Option A) {f : A → M B} {k : M B}
      → ((a : A) → IsKept (f a))
      → IsKept k
      → IsKept (on_some o f k)
  unfolding on_some
  Kept-on_some none h g = g
  Kept-on_some (some a) h g = h a

-- The parts that the invariant does not read, and the count of frames.
pub with_fp-IsWeak :
    {vm : Vm} {stack : ℕ → Value} {sp fp ip : ℕ} {halted : Bool}
    → IsWeak vm
    → fp ≤ frames_max
    → IsWeak (record vm { stack = stack; sp = sp; fp = fp; ip = ip; halted = halted })
with_fp-IsWeak w h = record { fp = h; globals = w.globals; handlers = w.handlers; depth = w.depth }

pub same-IsWeak :
    {vm : Vm} {stack : ℕ → Value} {sp ip : ℕ} {halted : Bool}
    → IsWeak vm
    → IsWeak (record vm { stack = stack; sp = sp; ip = ip; halted = halted })
same-IsWeak w = with_fp-IsWeak w w.fp

pub Fixed-IsWeak : {a b : Vm} → Fixed a b → IsWeak a → IsWeak b
Fixed-IsWeak {a} {b} s h = record {
  fp = omega (arith, s.fp, h.fp);
  globals = s.globals_bound h.globals;
  handlers = omega (arith, s.handler_count, h.handlers);
  depth = λ i p.
      subst (λ hs. (hs i).frame_depth ≤ frames_max) (sym s.handlers)
        (h.depth i (omega (arith, s.handler_count, p)));
}

Fixed-IsBounded : {a b : Vm} → Fixed a b → IsBounded a → IsBounded b
Fixed-IsBounded s h = record { weak = Fixed-IsWeak s h.weak; sp = s.stack_bound h.sp }

module _ {ℓ} {A : Type ℓ} where
  After-Fixed :
      (n p q : ℕ) (vm : Vm) (o : Outcome A)
      → IsBounded vm
      → After (StepTo n p q vm) (Fixed vm) o
      → After IsBounded IsBounded o
  unfolding After
  After-Fixed n p q vm (ok a vm') b h = Fixed-IsBounded h.fixed b
  After-Fixed n p q vm (error e) b h = tt
  After-Fixed n p q vm fault b h = tt
  After-Fixed n p q vm (yielding vm') b h = Fixed-IsBounded h b
  After-Fixed n p q vm (blocked vm') b h = Fixed-IsBounded h b
  After-Fixed n p q vm (elsewhere vm') b h = Fixed-IsBounded h b

  pub IsStep-IsKept : {n p q : ℕ} {m : M A} → IsStep n p q m → IsKept m
  IsStep-IsKept {n} {p} {q} {m} s = record { at = λ vm b. After-Fixed n p q vm (m vm) b (s.at vm) }

  pub Kept-quiet : {m : M A} → IsStep 0 0 0 m → IsKept m
  Kept-quiet s = IsStep-IsKept s

  pub Kept-if : (b : Bool) {m k : M A} → IsKept m → IsKept k → IsKept (if b then m else k)
  Kept-if true h g = h
  Kept-if false h g = g

pub Kept-pop : IsKept vm_pop
Kept-pop = IsStep-IsKept IsStep-pop

pub Kept-push : (v : Value) → IsKept (vm_push v)
Kept-push v = IsStep-IsKept (IsStep-push v)

pub Kept-read_byte : IsKept vm_read_byte
Kept-read_byte = IsStep-IsKept IsStep-read_byte

pub Kept-read_u16 : IsKept vm_read_u16
Kept-read_u16 = IsStep-IsKept IsStep-read_u16

pub Kept-read_i32 : IsKept vm_read_i32
Kept-read_i32 = IsStep-IsKept IsStep-read_i32

-- A push that succeeds leaves the stack in range, whatever `sp` was.
pub push-IsBounded : (v : Value) → Keeps IsWeak IsBounded (vm_push v)
unfolding vm_push vm_error After
push-IsBounded v = record {
  at = λ vm w.
      After-if IsBounded IsBounded (leb stack_max vm.sp) _ _ (λ _. tt)
        λ room. record {
          weak = record { fp = w.fp; globals = w.globals; handlers = w.handlers; depth = w.depth };
          sp = omega tests;
        };
}

pub ruleset kept_rules = (
  Kept-bind, Kept-if, Kept-on_some, Kept-pop, Kept-push, Kept-read_byte, Kept-read_u16,
  Kept-read_i32, Kept-quiet, IsStep-error, IsStep-broken, IsStep-pure, IsStep-current, IsStep-load,
  IsStep-write, IsStep-top_frame, IsStep-payload_of, IsStep-update_object, IsStep-allocate,
  IsStep-new_object,
)

-- The loops of `array_new` and `map_new`.
Kept-pop_items : (n : ℕ) → IsKept (pop_items n)
unfolding pop_items
Kept-pop_items zero = Kept-quiet (IsStep-pure _)
Kept-pop_items (suc n) =
    Kept-bind Kept-pop λ v. Kept-bind (Kept-pop_items n) λ vs. Kept-quiet (IsStep-pure _)

Kept-set_pairs : (n : ℕ) (m : Vec (Value × Value)) → IsKept (set_pairs n m)
unfolding set_pairs
Kept-set_pairs zero m = Kept-quiet (IsStep-pure m)
Kept-set_pairs (suc n) m = Kept-bind Kept-pop λ v. Kept-bind Kept-pop λ k.
    Kept-bind (Kept-quiet IsStep-current)
      λ vm. Kept-bind (search kept_rules) λ m'. Kept-set_pairs n m'

pub IsStep-push_items : (arr : Vec Value) (vs : List Value) → IsStep 0 0 0 (push_items arr vs)
unfolding push_items
IsStep-push_items arr [] = IsStep-pure arr
IsStep-push_items arr (v ∷ vs) =
    IsStep-on_some (array_push arr v) (λ arr'. IsStep-push_items arr' vs) IsStep-broken

module _ (pf : Platform) where
  pub array_new-IsKept : IsKept (vm_exec_array_new pf)
  unfolding vm_exec_array_new
  array_new-IsKept = search (kept_rules, Kept-pop_items, IsStep-push_items) depth 20

  pub map_new-IsKept : IsKept (vm_exec_map_new pf)
  unfolding vm_exec_map_new
  map_new-IsKept = search (kept_rules, Kept-set_pairs) depth 20
