-- ===== src/Vm/Handlers/Arithmetic.antt =====
-- The arithmetic of src/vm/vm_ops.c on integers.
use arcana.Common.{
  ℕ, ◌+◌, ◌-◌, ◌≤◌, ◌<◌, ◌≡◌, refl, ap, ◌∙◌, Bool, true, false, leb, ◌==◌, if◌then◌else◌, arith,
}
use arcana.Runtime.Object.{Value, i64}
use arcana.Vm.State.{stack_max, Vm, ok, M, continue, ◌>>=◌, pure, on_some, store, vm_push, vm_pop}
use arcana.Vm.Platform.{Platform}
use arcana.Common.Int.{◌+ℤ◌, ◌-ℤ◌}
use arcana.Common.Words.{word_mod, signed64, add64, sub64}
use arcana.Common.Words.Laws.{IsI64, add64-signed64, sub64-signed64}
use arcana.Vm.Op.{op_add, op_sub}
use arcana.Vm.Values.{numeric, binary, vm_exec_arithmetic}

-- `if` on a test that fails.
if-else : {A : Type 0} (b : Bool) (x y : A) → b ≡ false → (if b then x else y) ≡ y
if-else true x y h = cc
if-else false x y h = refl

vm_pop-eq-ok :
    (vm : Vm) → 0 < vm.sp → vm_pop vm ≡ ok (vm.stack (vm.sp - 1)) (record vm { sp = vm.sp - 1 })
unfolding vm_pop
vm_pop-eq-ok vm h = if-else (vm.sp == 0) _ _ (ground arith)

vm_push-eq-ok :
    (vm : Vm) (v : Value)
    → vm.sp < stack_max
    → vm_push v vm ≡ ok tt (record vm { stack = store vm.stack vm.sp v; sp = vm.sp + 1 })
unfolding vm_push
vm_push-eq-ok vm v h = if-else (leb stack_max vm.sp) _ _ (ground arith)

-- Two operands on a stack in range, and an operation that gives a value on them.
binary-eq-ok :
    (f : Value → Value → M Value) (vm : Vm) (r : Value)
    → 2 ≤ vm.sp
    → vm.sp ≤ stack_max
    → f (vm.stack (vm.sp - 1 - 1)) (vm.stack (vm.sp - 1)) (record vm { sp = vm.sp - 1 - 1 })
      ≡ ok r (record vm { sp = vm.sp - 1 - 1 })
    → binary f vm
      ≡ ok tt (record vm { stack = store vm.stack (vm.sp - 1 - 1) r; sp = vm.sp - 1 - 1 + 1 })
unfolding binary ◌>>=◌
binary-eq-ok f vm r two room e =
    let vm₁ = record vm { sp = vm.sp - 1 } in
    let vm₂ = record vm { sp = vm.sp - 1 - 1 } in
    let top = vm.stack (vm.sp - 1) in
    let below = vm.stack (vm.sp - 1 - 1) in
    ap (λ o. continue o (λ b vm'. continue (vm_pop vm') (λ a v. continue (f a b v) vm_push)))
      (vm_pop-eq-ok vm (omega arith))
    ∙ (ap (λ o. continue o (λ a v. continue (f a top v) vm_push)) (vm_pop-eq-ok vm₁ (omega arith))
        ∙ (ap (λ o. continue o vm_push) e ∙ vm_push-eq-ok vm₂ r (omega arith)))

-- The machine with an integer in place of the two operands.
abbrev pub result_vm : Vm → ℕ → Vm
result_vm vm c = record vm {
  stack = store vm.stack (vm.sp - 1 - 1) (i64 c);
  sp = vm.sp - 1 - 1 + 1;
}

module _ (pf : Platform) (a b : ℕ) (vm : Vm) where
  -- With two 64-bit integers on top of a stack in range, `add` and `sub` always go on, with the
  -- integer sum and the integer difference in place of the two, where these fit in 64 bits.
  pub vm_exec_arithmetic-exact :
      2 ≤ vm.sp
      → vm.sp ≤ stack_max
      → a < word_mod
      → b < word_mod
      → vm.stack (vm.sp - 1 - 1) ≡ i64 a
      → vm.stack (vm.sp - 1) ≡ i64 b
      → (IsI64 (signed64 a +ℤ signed64 b)
          → (c : ℕ) × (signed64 c ≡ signed64 a +ℤ signed64 b)
            × (vm_exec_arithmetic pf op_add vm ≡ ok tt (result_vm vm c)))
        × (IsI64 (signed64 a -ℤ signed64 b)
            → (c : ℕ) × (signed64 c ≡ signed64 a -ℤ signed64 b)
              × (vm_exec_arithmetic pf op_sub vm ≡ ok tt (result_vm vm c)))
  unfolding vm_exec_arithmetic numeric on_some pure
  vm_exec_arithmetic-exact two room ha hb below top = (
    λ range. (
      add64 a b,
      add64-signed64 a b ha hb range,
      binary-eq-ok _ vm (i64 (add64 a b)) two room (rw (below, top) refl),
    ),
    λ range. (
      sub64 a b,
      sub64-signed64 a b ha hb range,
      binary-eq-ok _ vm (i64 (sub64 a b)) two room (rw (below, top) refl),
    ),
  )
