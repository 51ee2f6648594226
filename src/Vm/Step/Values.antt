-- ===== src/Vm/Step/Values.antt =====
-- The steps of the handlers for arithmetic, comparison, strings and bits.
use Prim.Native.String.{String}
use arcana.Common.{ℕ, Bool, Option, List}
use arcana.Runtime.Object.{Value, null, bool, i64, f64, obj}
use arcana.Vm.State.{M}
use arcana.Vm.Platform.{Platform}
use arcana.Vm.Values.{
  both_i64, both_f64, numeric, binary, unary, divide, integers, compare, equal, concat, negate,
  slice, char_at, vm_exec_arithmetic, vm_exec_comparison, vm_exec_string_ops, vm_exec_bitwise,
}
use arcana.Vm.Step.{IsStep, IsStep-bind, IsStep-on_some}
use arcana.Vm.Step.Parts.{IsStep-pop, IsStep-push, IsStep-payload_of, IsStep-then_push, quiet_rules}
use arcana.Vm.Op.{
  op_add, op_sub, op_mul, op_div, op_mod, op_neg, op_str_len, op_str_slice, op_str_index,
  op_bit_and, op_bit_or, op_bit_xor, op_bit_not, op_shl, op_shr, op_eq, op_neq, op_lt, op_le, op_gt,
  op_ge, op_not,
}

IsStep-numeric :
    {f g : ℕ → ℕ → M Value} {m : M Value}
    → ((x y : ℕ) → IsStep 0 0 0 (f x y))
    → ((x y : ℕ) → IsStep 0 0 0 (g x y))
    → IsStep 0 0 0 m
    → (a b : Value) → IsStep 0 0 0 (numeric f g m a b)
unfolding numeric
IsStep-numeric hf hg hm a b =
    IsStep-on_some (both_i64 a b) (λ (x, y). hf x y)
      (IsStep-on_some (both_f64 a b) (λ (x, y). hg x y) hm)

IsStep-divide :
    (message : String) (f : ℕ → ℕ → Option ℕ) (a b : ℕ) → IsStep 0 0 0 (divide message f a b)
unfolding divide
IsStep-divide message f a b = search quiet_rules

IsStep-integers :
    (message : String) (f : ℕ → ℕ → ℕ) (a b : Value) → IsStep 0 0 0 (integers message f a b)
unfolding integers
IsStep-integers message f a b = search quiet_rules

IsStep-compare :
    (message : String) (f g : ℕ → ℕ → Bool) (a b : Value) → IsStep 0 0 0 (compare message f g a b)
unfolding compare
IsStep-compare message f g a b = search (quiet_rules, IsStep-numeric)

IsStep-equal : (a b : Value) → IsStep 0 0 0 (equal a b)
unfolding equal
IsStep-equal a b = search quiet_rules

pub IsStep-binary :
    {f : Value → Value → M Value} → ((a b : Value) → IsStep 0 0 0 (f a b)) → IsStep 0 2 1 (binary f)
unfolding binary
IsStep-binary h =
    IsStep-bind IsStep-pop λ b. IsStep-bind IsStep-pop λ a. IsStep-bind (h a b) IsStep-push

pub IsStep-unary :
    {f : Value → M Value} → ((a : Value) → IsStep 0 0 0 (f a)) → IsStep 0 1 1 (unary f)
unfolding unary
IsStep-unary h = IsStep-bind IsStep-pop λ a. IsStep-bind (h a) IsStep-push

module _ (pf : Platform) where
  IsStep-concat : (a b : Value) → IsStep 0 0 0 (concat pf a b)
  unfolding concat
  IsStep-concat a b = search quiet_rules depth 12

  IsStep-negate : (v : Value) → IsStep 0 0 0 (negate pf v)
  unfolding negate
  IsStep-negate null = search quiet_rules
  IsStep-negate (bool _) = search quiet_rules
  IsStep-negate (i64 _) = search quiet_rules
  IsStep-negate (f64 _) = search quiet_rules
  IsStep-negate (obj _) = search quiet_rules

  IsStep-slice : (s : List ℕ) (x y : ℕ) → IsStep 0 0 0 (slice pf s x y)
  unfolding slice
  IsStep-slice s x y = search quiet_rules

  pub IsStep-char_at : (m : String) (s : List ℕ) (i : ℕ) → IsStep 0 0 0 (char_at pf m s i)
  unfolding char_at
  IsStep-char_at m s i = search quiet_rules

  ruleset value_rules = (
    quiet_rules, IsStep-numeric, IsStep-divide, IsStep-integers, IsStep-compare, IsStep-equal,
    IsStep-concat, IsStep-negate, IsStep-slice, IsStep-char_at,
  )

  pub add-IsStep : IsStep 0 2 1 (vm_exec_arithmetic pf op_add)
  unfolding vm_exec_arithmetic
  add-IsStep = IsStep-binary λ a b. search value_rules depth 8

  pub sub-IsStep : IsStep 0 2 1 (vm_exec_arithmetic pf op_sub)
  unfolding vm_exec_arithmetic
  sub-IsStep = IsStep-binary λ a b. search value_rules depth 8

  pub mul-IsStep : IsStep 0 2 1 (vm_exec_arithmetic pf op_mul)
  unfolding vm_exec_arithmetic
  mul-IsStep = IsStep-binary λ a b. search value_rules depth 8

  pub div-IsStep : IsStep 0 2 1 (vm_exec_arithmetic pf op_div)
  unfolding vm_exec_arithmetic
  div-IsStep = IsStep-binary λ a b. search value_rules depth 8

  pub mod-IsStep : IsStep 0 2 1 (vm_exec_arithmetic pf op_mod)
  unfolding vm_exec_arithmetic
  mod-IsStep = IsStep-binary λ a b. search value_rules depth 8

  pub neg-IsStep : IsStep 0 1 1 (vm_exec_arithmetic pf op_neg)
  unfolding vm_exec_arithmetic
  neg-IsStep = IsStep-unary λ v. search value_rules depth 8

  pub eq-IsStep : IsStep 0 2 1 (vm_exec_comparison pf op_eq)
  unfolding vm_exec_comparison
  eq-IsStep = IsStep-binary λ a b. search value_rules depth 8

  pub neq-IsStep : IsStep 0 2 1 (vm_exec_comparison pf op_neq)
  unfolding vm_exec_comparison
  neq-IsStep = IsStep-binary λ a b. search value_rules depth 8

  pub lt-IsStep : IsStep 0 2 1 (vm_exec_comparison pf op_lt)
  unfolding vm_exec_comparison
  lt-IsStep = IsStep-binary λ a b. search value_rules depth 8

  pub le-IsStep : IsStep 0 2 1 (vm_exec_comparison pf op_le)
  unfolding vm_exec_comparison
  le-IsStep = IsStep-binary λ a b. search value_rules depth 8

  pub gt-IsStep : IsStep 0 2 1 (vm_exec_comparison pf op_gt)
  unfolding vm_exec_comparison
  gt-IsStep = IsStep-binary λ a b. search value_rules depth 8

  pub ge-IsStep : IsStep 0 2 1 (vm_exec_comparison pf op_ge)
  unfolding vm_exec_comparison
  ge-IsStep = IsStep-binary λ a b. search value_rules depth 8

  pub not-IsStep : IsStep 0 1 1 (vm_exec_comparison pf op_not)
  unfolding vm_exec_comparison
  not-IsStep = IsStep-unary λ v. search value_rules depth 8

  pub str_len-IsStep : IsStep 0 1 1 (vm_exec_string_ops pf op_str_len)
  unfolding vm_exec_string_ops
  str_len-IsStep = IsStep-unary λ v. search value_rules depth 8

  pub str_index-IsStep : IsStep 0 2 1 (vm_exec_string_ops pf op_str_index)
  unfolding vm_exec_string_ops
  str_index-IsStep = IsStep-binary λ a b. search value_rules depth 8

  pub bit_and-IsStep : IsStep 0 2 1 (vm_exec_bitwise pf op_bit_and)
  unfolding vm_exec_bitwise
  bit_and-IsStep = IsStep-binary λ a b. search value_rules depth 8

  pub bit_or-IsStep : IsStep 0 2 1 (vm_exec_bitwise pf op_bit_or)
  unfolding vm_exec_bitwise
  bit_or-IsStep = IsStep-binary λ a b. search value_rules depth 8

  pub bit_xor-IsStep : IsStep 0 2 1 (vm_exec_bitwise pf op_bit_xor)
  unfolding vm_exec_bitwise
  bit_xor-IsStep = IsStep-binary λ a b. search value_rules depth 8

  pub bit_not-IsStep : IsStep 0 1 1 (vm_exec_bitwise pf op_bit_not)
  unfolding vm_exec_bitwise
  bit_not-IsStep = IsStep-unary λ v. search value_rules depth 8

  pub shl-IsStep : IsStep 0 2 1 (vm_exec_bitwise pf op_shl)
  unfolding vm_exec_bitwise
  shl-IsStep = IsStep-binary λ a b. search value_rules depth 8

  pub shr-IsStep : IsStep 0 2 1 (vm_exec_bitwise pf op_shr)
  unfolding vm_exec_bitwise
  shr-IsStep = IsStep-binary λ a b. search value_rules depth 8

  pub str_slice-IsStep : IsStep 0 3 1 (vm_exec_string_ops pf op_str_slice)
  unfolding vm_exec_string_ops
  str_slice-IsStep = IsStep-bind IsStep-pop λ e. IsStep-bind IsStep-pop λ s.
      IsStep-bind IsStep-pop
        λ v. IsStep-bind (IsStep-payload_of v) λ p. IsStep-then_push (search value_rules)
