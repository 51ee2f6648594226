-- ===== src/Vm/Values.antt =====
-- The handlers of src/vm/vm_ops.c for arithmetic, comparison, strings and bits.
use Prim.Native.String.{String}
use arcana.Common.{
  ℕ, ◌-◌, Bool, not, Option, none, some, List, [], ltb, ◌==◌, if◌then◌else◌, length, take, drop,
}
use arcana.Runtime.Object.{Value, bool, i64, f64, string}
use arcana.Vm.State.{M, ◌>>=◌, pure, broken, current, on_some, vm_error, vm_push, vm_pop}
use arcana.Vm.Platform.{Platform, is_truthy, payload_of, string_of, new_object}
use arcana.Common.Words.{
  add64, sub64, mul64, neg64, div64, mod64, lt64, not64, shl64, shr64, signed64,
}
use arcana.Common.Int.{pos, pos_part, ltb_ℤ}
use Prim.Native.Nat.{bit_and, bit_or, bit_xor}
use arcana.Runtime.Objects.{val_equal, string_concat}
use arcana.Vm.Op.{
  Op, op_add, op_sub, op_mul, op_div, op_mod, op_neg, op_str_len, op_str_slice, op_str_index,
  op_bit_and, op_bit_or, op_bit_xor, op_bit_not, op_shl, op_shr, op_eq, op_neq, op_lt, op_le, op_gt,
  op_ge, op_not,
}

-- The operands when both are integers, or both doubles.
abbrev pub both_i64 : Value → Value → Option (ℕ × ℕ)
both_i64 (i64 a) (i64 b) = some (a, b)
both_i64 _ _ = none

abbrev pub both_f64 : Value → Value → Option (ℕ × ℕ)
both_f64 (f64 a) (f64 b) = some (a, b)
both_f64 _ _ = none

-- The integers and doubles that an operation is defined on; `otherwise` is its last branch.
unfoldable pub numeric : (ℕ → ℕ → M Value) → (ℕ → ℕ → M Value) → M Value → Value → Value → M Value
numeric on_i64 on_f64 otherwise a b =
    on_some (both_i64 a b) (λ (x, y). on_i64 x y)
      (on_some (both_f64 a b) (λ (x, y). on_f64 x y) otherwise)

-- Two operands, the right one on top, and the result.
unfoldable pub binary : (Value → Value → M Value) → M (Unit {0})
binary f = do b ← vm_pop; a ← vm_pop; r ← f a b; vm_push r

unfoldable pub unary : (Value → M Value) → M (Unit {0})
unary f = do v ← vm_pop; r ← f v; vm_push r

-- A division whose operands trap has no result.
unfoldable pub divide : String → (ℕ → ℕ → Option ℕ) → ℕ → ℕ → M Value
divide message f a b =
    if b == 0 then vm_error message else on_some (f a b) (λ q. pure (i64 q)) broken

unfoldable pub integers : String → (ℕ → ℕ → ℕ) → Value → Value → M Value
integers message f a b = on_some (both_i64 a b) (λ (x, y). pure (i64 (f x y))) (vm_error message)

unfoldable pub compare : String → (ℕ → ℕ → Bool) → (ℕ → ℕ → Bool) → Value → Value → M Value
compare message f g =
    numeric (λ x y. pure (bool (f x y))) (λ x y. pure (bool (g x y))) (vm_error message)

unfoldable pub equal : Value → Value → M Bool
equal a b = do vm ← current; on_some (val_equal vm.gc.objects a b) pure broken

unfoldable pub int_of : Value → Option ℕ
int_of (i64 n) = some n
int_of _ = none

module _ (pf : Platform) where
  -- The branch of `+` on two strings.
  unfoldable pub concat : Value → Value → M Value
  concat a b = do
    p ← payload_of a
    on_some (string_of p)
        (λ s. do
          q ← payload_of b
          on_some (string_of q)
              (λ t. on_some (string_concat s t) (λ st. new_object pf (string st)) broken)
              (vm_error "add: type mismatch"))
        (vm_error "add: type mismatch")

  unfoldable pub negate : Value → M Value
  negate (i64 n) = pure (i64 (neg64 n))
  negate (f64 x) = pure (f64 (pf.f64_neg x))
  negate _ = vm_error "neg: type mismatch"

  unfoldable pub vm_exec_arithmetic : Op → M (Unit {0})
  vm_exec_arithmetic op_add = binary λ a b.
      numeric (λ x y. pure (i64 (add64 x y))) (λ x y. pure (f64 (pf.f64_add x y))) (concat a b) a b
  vm_exec_arithmetic op_sub = binary (
      numeric (λ x y. pure (i64 (sub64 x y))) (λ x y. pure (f64 (pf.f64_sub x y)))
        (vm_error "sub: type mismatch"))
  vm_exec_arithmetic op_mul = binary (
      numeric (λ x y. pure (i64 (mul64 x y))) (λ x y. pure (f64 (pf.f64_mul x y)))
        (vm_error "mul: type mismatch"))
  vm_exec_arithmetic op_div = binary (
      numeric (divide "division by zero" div64) (λ x y. pure (f64 (pf.f64_div x y)))
        (vm_error "div: type mismatch"))
  vm_exec_arithmetic op_mod = binary λ a b.
      on_some (both_i64 a b) (λ (x, y). divide "modulo by zero" mod64 x y)
        (vm_error "mod: requires integers")
  vm_exec_arithmetic op_neg = unary negate
  vm_exec_arithmetic _ = vm_error "bad arith op"

  unfoldable pub vm_exec_comparison : Op → M (Unit {0})
  vm_exec_comparison op_eq = binary λ a b. do e ← equal a b; pure (bool e)
  vm_exec_comparison op_neq = binary λ a b. do e ← equal a b; pure (bool (not e))
  vm_exec_comparison op_lt = binary (compare "lt: type mismatch" lt64 pf.f64_lt)
  vm_exec_comparison op_le = binary (compare "le: type mismatch" (λ x y. not (lt64 y x)) pf.f64_le)
  vm_exec_comparison op_gt =
      binary (compare "gt: type mismatch" (λ x y. lt64 y x) (λ x y. pf.f64_lt y x))
  vm_exec_comparison op_ge =
      binary (compare "ge: type mismatch" (λ x y. not (lt64 x y)) (λ x y. pf.f64_le y x))
  vm_exec_comparison op_not = unary λ v. pure (bool (not (is_truthy v)))
  vm_exec_comparison _ = vm_error "bad cmp op"

  -- `data` is the string's bytes; the bounds are signed.
  unfoldable pub slice : List ℕ → ℕ → ℕ → M Value
  slice s start end_ =
      let from = pos_part (signed64 start) in
      let len = length s in
      let to = if ltb_ℤ (pos len) (signed64 end_) then pos len else signed64 end_ in
      if ltb_ℤ (pos from) to
      then new_object pf (string (take (pos_part to - from) (drop from s)))
      else new_object pf (string [])

  unfoldable pub char_at : String → List ℕ → ℕ → M Value
  char_at message s idx =
      if ltb idx (length s) then new_object pf (string (take 1 (drop idx s))) else vm_error message

  unfoldable pub vm_exec_string_ops : Op → M (Unit {0})
  vm_exec_string_ops op_str_len = unary λ v. do
    p ← payload_of v
    on_some (string_of p) (λ s. pure (i64 (length s))) (vm_error "str_len: not a string")
  vm_exec_string_ops op_str_slice = do
    vend ← vm_pop
    vstart ← vm_pop
    vstr ← vm_pop
    p ← payload_of vstr
    r ←
        on_some (string_of p)
          (λ s.
            on_some (both_i64 vstart vend) (λ (x, y). slice s x y)
              (vm_error "str_slice: type mismatch"))
          (vm_error "str_slice: type mismatch")
    vm_push r
  vm_exec_string_ops op_str_index = binary λ vstr vidx. do
    p ← payload_of vstr
    on_some (string_of p)
        (λ s.
          on_some (int_of vidx)
            (λ idx. char_at "str_index: index %lld out of bounds (len=%u)" s idx)
            (vm_error "str_index: type mismatch"))
        (vm_error "str_index: type mismatch")
  vm_exec_string_ops _ = vm_error "bad string op"

  unfoldable pub vm_exec_bitwise : Op → M (Unit {0})
  vm_exec_bitwise op_bit_and = binary (integers "bit_and: requires integers" bit_and)
  vm_exec_bitwise op_bit_or = binary (integers "bit_or: requires integers" bit_or)
  vm_exec_bitwise op_bit_xor = binary (integers "bit_xor: requires integers" bit_xor)
  vm_exec_bitwise op_bit_not =
      unary
        λ v. on_some (int_of v) (λ n. pure (i64 (not64 n))) (vm_error "bit_not: requires integer")
  vm_exec_bitwise op_shl = binary (integers "shl: requires integers" shl64)
  vm_exec_bitwise op_shr = binary (integers "shr: requires integers" shr64)
  vm_exec_bitwise _ = vm_error "bad bit op"
