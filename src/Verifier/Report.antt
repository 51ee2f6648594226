-- ===== src/Verifier/Report.antt =====
-- `ArcVerifyResult` and `verr`. A message is the kind of the error, without its formatted numbers.
use arcana.Common.{
  ℕ, ◌≤◌, ◌≡◌, refl, ap, inl, inr, Bool-cases, tests, Bool, true, false, List, [], ◌∷◌, ◌++◌, arith,
  leb, if◌then◌else◌, length, length-append,
}

pub data Problem : Type 0 where
  bad_constant bad_local bad_function bad_intrinsic bad_jump : Problem
  jump_mismatch join_mismatch outside_code unknown_opcode truncated : Problem
  underflow no_exit no_functions : Problem

pub record VerifyError : Type 0 where
  pub func_idx : ℕ
  pub offset : ℕ
  pub problem : Problem

-- `error_count` is the length of `errors`.
pub record VerifyResult : Type 0 where
  pub errors : List VerifyError
  pub valid : Bool

abbrev pub max_errors : ℕ
max_errors = 32

abbrev pub no_errors : VerifyResult
no_errors = record { errors = []; valid = true }

unfoldable pub verr : VerifyResult → ℕ → ℕ → Problem → VerifyResult
verr r fi off p = if leb max_errors (length r.errors) then r else record {
  errors = r.errors ++ record { func_idx = fi; offset = off; problem = p } ∷ [];
  valid = false;
}

-- `verr` under a test.
abbrev pub verr_if : Bool → VerifyResult → ℕ → ℕ → Problem → VerifyResult
verr_if b r fi off p = if b then verr r fi off p else r

-- The verdict is negative once an error was stored, and the array of errors is not overrun.
pub record IsReport (r : VerifyResult) : Type 0 where
  pub clean : r.valid ≡ true → r.errors ≡ []
  pub bounded : length r.errors ≤ max_errors

module _ (r : VerifyResult) (fi off : ℕ) (p : Problem) (h : IsReport r) where
  pub verr-IsReport : IsReport (verr r fi off p)
  unfolding verr
  verr-IsReport = elim (Bool-cases (leb max_errors (length r.errors))) [
    | inl full ↦ rw full h
    | inr room ↦ rw room (record {
      clean = λ e. absurd (cc);
      bounded = ground (
        arith,
        length-append r.errors (record { func_idx = fi; offset = off; problem = p } ∷ []),
      );
    })
  ]

  pub verr-valid : (verr r fi off p).valid ≡ false
  unfolding verr
  verr-valid = elim (Bool-cases (leb max_errors (length r.errors))) [
    | inl full ↦ elim (Bool-cases r.valid) [
      | inl ok ↦ absurd (omega (tests, full, ap length (h.clean ok)))
      | inr bad ↦ rw (full, bad)
    ]
    | inr room ↦ rw room
  ]

-- The report under a test: it stays a report, and is still valid only where it was and the test
-- fails.
pub verr_if-IsReport :
    (b : Bool) (r : VerifyResult) (fi off : ℕ) (p : Problem)
    → IsReport r
    → IsReport (verr_if b r fi off p)
verr_if-IsReport true r fi off p h = verr-IsReport r fi off p h
verr_if-IsReport false r fi off p h = h

pub verr_if-valid :
    (b : Bool) (r : VerifyResult) (fi off : ℕ) (p : Problem)
    → IsReport r
    → (verr_if b r fi off p).valid ≡ true
    → (b ≡ false) × (r.valid ≡ true)
verr_if-valid true r fi off p h e = absurd (cc (verr-valid r fi off p h))
verr_if-valid false r fi off p h e = (refl, e)
