-- ===== src/Common/Words.antt =====
-- 64-bit integers as bit patterns, with the two's complement operations of the machine.
pub mod Laws
use arcana.Common.Int.{ℤ, pos, negsuc, ltb_ℤ}
use Prim.Native.Nat.{ℕ, ◌+◌, ◌-◌, ◌*◌, ◌/◌, ◌%◌, ◌^◌}
use arcana.Common.Tests.{ltb, leb, if◌then◌else◌}
use mathlib.Core.Bool.{Bool, not}
use mathlib.Core.Option.{Option, none, some}

abbrev pub word_mod : ℕ
word_mod = 18446744073709551616

abbrev pub sign_bit : ℕ
sign_bit = 9223372036854775808

-- The integer that a pattern stands for.
abbrev pub signed64 : ℕ → ℤ
signed64 a = if ltb a sign_bit then pos a else negsuc (word_mod - a - 1)

unfoldable pub add64 : ℕ → ℕ → ℕ
add64 a b = (a + b) % word_mod

unfoldable pub sub64 : ℕ → ℕ → ℕ
sub64 a b = (a + word_mod - b) % word_mod

unfoldable pub mul64 : ℕ → ℕ → ℕ
mul64 a b = a * b % word_mod

unfoldable pub neg64 : ℕ → ℕ
neg64 a = (word_mod - a) % word_mod

unfoldable pub abs64 : ℕ → ℕ
abs64 a = if ltb a sign_bit then a else word_mod - a

-- Whether the signs of two patterns differ.
abbrev pub differ64 : ℕ → ℕ → Bool
differ64 a b = if ltb a sign_bit then not (ltb b sign_bit) else ltb b sign_bit

-- Division towards zero, for a divisor that is not zero; `none` is the quotient of the least integer
-- by -1, which does not fit and traps.
unfoldable pub div64 : ℕ → ℕ → Option ℕ
unfolding abs64 neg64
div64 a b =
    let q = abs64 a / abs64 b in
    if differ64 a b then some (neg64 q) else if leb sign_bit q then none else some q

-- The remainder has the sign of the dividend; the same operands trap.
unfoldable pub mod64 : ℕ → ℕ → Option ℕ
unfolding abs64 neg64 div64
mod64 a b =
    let r = abs64 a % abs64 b in
    elim (div64 a b) [ none ↦ none | some q ↦ some (if ltb a sign_bit then r else neg64 r) ]

unfoldable pub lt64 : ℕ → ℕ → Bool
lt64 a b = ltb_ℤ (signed64 a) (signed64 b)

unfoldable pub not64 : ℕ → ℕ
not64 a = word_mod - 1 - a

unfoldable pub shl64 : ℕ → ℕ → ℕ
shl64 a b = a * 2 ^ (b % 64) % word_mod

-- The shift of the unsigned pattern.
unfoldable pub shr64 : ℕ → ℕ → ℕ
shr64 a b = a / 2 ^ (b % 64)
