-- ===== src/Verifier/Verdict.antt =====
-- The verdicts of `verify_function` and `arc_verify`.
use mathlib.Core.Option.{some-injective}
use arcana.Common.{
  ℕ, ◌+◌, ◌≤◌, ◌<◌, ◌≡◌, ◌≢◌, refl, ap, sym, ◌∙◌, subst, inl, inr, Bool, true, false, not, some,
  List, [], ◌∷◌, arith, tests, ltb, ◌==◌, length, All, Bool-cases,
}
use arcana.Bytecode.Image.{FuncRecord, Image}
use arcana.Verifier.Report.{
  VerifyResult, verr, verr_if, max_errors, no_errors, IsReport, verr-valid, verr_if-valid,
  outside_code, no_exit, no_functions,
}
use arcana.Verifier.Operands.{u32_mod, func_end}
use arcana.Verifier.Scan.{State, scan, start_state, verify_function, verify_functions, verify}
use arcana.Verifier.Soundness.{
  Layout, HasExit, Keeps, Keeps-refl, Keeps-trans, Keeps-verr, Keeps-verr_if,
}
use arcana.Verifier.Acceptance.{verdict, scan-Scanned, scan-total, scan-idle}

-- The function's code lies in the code section, is made of whole known instructions with operands
-- in range, and holds a halt or a return.
pub record IsSafe (img : Image) (fn : FuncRecord) : Type 0 where
  pub inside : fn.code_offset + fn.code_length ≤ length img.code
  pub layout : Layout img fn fn.code_offset
  pub exits : HasExit img fn.code_offset

-- `code_offset` and `code_length` are 32-bit numbers.
pub record IsU32Func (fn : FuncRecord) : Type 0 where
  pub offset : fn.code_offset < u32_mod
  pub len : fn.code_length < u32_mod

no_errors-IsReport : IsReport no_errors
no_errors-IsReport = record { clean = λ _. refl; bounded = omega arith }

func_end-le : (fn : FuncRecord) → func_end fn ≤ fn.code_offset + fn.code_length
unfolding func_end
func_end-le fn = omega arith

-- The code section has so few bytes that no offset in the scan wraps.
abbrev pub IsShort : Image → Type 0
IsShort img = length img.code + 4 < u32_mod

module _ (r : VerifyResult) (img : Image) (fi : ℕ) (fn : FuncRecord) (h : IsReport r)
    (short : IsShort img) where
  short_end : ltb (length img.code) (func_end fn) ≡ false → func_end fn + 4 < u32_mod
  short_end within = omega (tests, within, short)

  -- The result where the code lies inside the code section and the loop ends in `t`.
  abbrev finish : State → VerifyResult
  finish t = verr_if (not t.has_exit) t.track.result fi fn.code_offset no_exit

  -- The bounds test fails, or the loop runs to an end.
  runs :
      (ltb (length img.code) (func_end fn) ≡ false)
      → (t : State) × (scan fn.code_length img fn fi (start_state r fn) ≡ some t)
        × (verify_function r img fi fn ≡ some (finish t))
  unfolding verify_function
  runs within =
      let (t, e) =
        scan-total img fn fi fn.code_length (start_state r fn) h (func_end-le fn)
          (short_end within) in
      (t, e, rw (within, e))

  verify_function-total : (s : VerifyResult) × (verify_function r img fi fn ≡ some s)
  unfolding verify_function
  verify_function-total = elim (Bool-cases (ltb (length img.code) (func_end fn))) [
    | inl out ↦ (verr r fi 0 outside_code, rw out)
    | inr within ↦ let (t, _, e) = runs within in (finish t, e)
  ]

  -- An offset behind the end leaves no round, so no halt or return is seen.
  idle :
      (t : State)
      → ltb fn.code_offset (func_end fn) ≡ false
      → scan fn.code_length img fn fi (start_state r fn) ≡ some t
      → (start_state r fn) ≡ t
  idle t e run =
      some-injective _ _ (sym (scan-idle img fn fi fn.code_length (start_state r fn) e) ∙ run)

  scanned-Keeps :
      (t : State)
      → ltb (length img.code) (func_end fn) ≡ false
      → scan fn.code_length img fn fi (start_state r fn) ≡ some t
      → Keeps r t.track.result
  scanned-Keeps t within run = elim (Bool-cases (ltb fn.code_offset (func_end fn))) [
    | inr e ↦ subst (λ u. Keeps r u.track.result) (idle t e run) (Keeps-refl r h)
    | inl e ↦
        (scan-Scanned img fn fi fn.code_length (start_state r fn) t h (omega (tests, e))
          (short_end within) run).keeps
  ]

  verify_function-Keeps : (s : VerifyResult) → verify_function r img fi fn ≡ some s → Keeps r s
  unfolding verify_function
  verify_function-Keeps s e = elim (Bool-cases (ltb (length img.code) (func_end fn))) [
    | inl out ↦
        subst (Keeps r) (some-injective _ _ (rw out at e)) (Keeps-verr r fi 0 outside_code h)
    | inr within ↦
        let (t, run, e') = runs within in
        let k = scanned-Keeps t within run in
        subst (Keeps r) (some-injective _ _ (sym e' ∙ e)) (
          Keeps-trans _ _ _ k (Keeps-verr_if (not t.has_exit) _ fi fn.code_offset no_exit k.report))
  ]

  has_exit_of_not : (b : Bool) → not b ≡ false → b ≡ true
  has_exit_of_not b e = ground arith

  accepted :
      (t : State)
      → IsU32Func fn
      → ltb (length img.code) (func_end fn) ≡ false
      → scan fn.code_length img fn fi (start_state r fn) ≡ some t
      → not t.has_exit ≡ false
      → verdict t ≡ true
      → IsSafe img fn
  unfolding func_end
  accepted t w within run x ok = elim (Bool-cases (ltb fn.code_offset (func_end fn))) [
    | inr e ↦
        absurd (cc (has_exit_of_not t.has_exit x, ap (λ (u : State). u.has_exit) (idle t e run)))
    | inl e ↦
        let done =
          scan-Scanned img fn fi fn.code_length (start_state r fn) t h (omega (tests, e))
            (short_end within) run in
        record {
          inside = omega (tests, within, e, w.offset, w.len);
          layout = done.layout ok;
          exits = elim (done.exits ok (has_exit_of_not t.has_exit x)) [
            | inl early ↦ absurd (cc)
            | inr exit ↦ exit
          ];
        }
  ]

  verify_function-IsSafe :
      (s : VerifyResult)
      → IsU32Func fn
      → verify_function r img fi fn ≡ some s
      → s.valid ≡ true
      → IsSafe img fn
  unfolding verify_function
  verify_function-IsSafe s w e v = elim (Bool-cases (ltb (length img.code) (func_end fn))) [
    | inl out ↦
        absurd (cc (rw (← some-injective _ _ (rw out at e), verr-valid r fi 0 outside_code h) at v))
    | inr within ↦
        let (t, run, e') = runs within in
        let k = scanned-Keeps t within run in
        let (x, ok) =
          verr_if-valid (not t.has_exit) t.track.result fi fn.code_offset no_exit k.report
            (rw (some-injective _ _ (sym e' ∙ e)) v) in
        accepted t w within run x ok
  ]

verify_functions-total :
    (r : VerifyResult) (img : Image) (fi : ℕ) (fns : List FuncRecord)
    → IsReport r
    → IsShort img
    → (s : VerifyResult) × (verify_functions r img fi fns ≡ some s) × Keeps r s
unfolding verify_functions
verify_functions-total r img fi [] h short = (r, refl, Keeps-refl r h)
verify_functions-total r img fi (fn ∷ fns) h short =
    let (s, e) = verify_function-total r img fi fn h short in
    let k = verify_function-Keeps r img fi fn h short s e in
    let (t, e', k') = verify_functions-total s img (fi + 1) fns k.report short in
    (t, rw (e, verify_functions) e', Keeps-trans r s t k k')

verify_functions-IsSafe :
    (r : VerifyResult) (img : Image) (fi : ℕ) (fns : List FuncRecord) (t : VerifyResult)
    → IsReport r
    → IsShort img
    → All IsU32Func fns
    → verify_functions r img fi fns ≡ some t
    → t.valid ≡ true
    → All (IsSafe img) fns
unfolding verify_functions
verify_functions-IsSafe r img fi [] t h short w e v = tt
verify_functions-IsSafe r img fi (fn ∷ fns) t h short w e v =
    let (s, e₁) = verify_function-total r img fi fn h short in
    let k = verify_function-Keeps r img fi fn h short s e₁ in
    let (t', e₂, k₂) = verify_functions-total s img (fi + 1) fns k.report short in
    let rest = rw (e₁, verify_functions) at e in
    let same = some-injective _ _ (sym rest ∙ e₂) in
    (
      verify_function-IsSafe r img fi fn h short s w.0 e₁ (k₂.valid (rw same at v)),
      verify_functions-IsSafe s img (fi + 1) fns t k.report short w.1 rest v,
    )

-- On an image whose code has fewer than 2 ^ 32 - 4 bytes, so that no 32-bit offset of the scan
-- wraps, the verifier returns. Its report holds at most 32 errors, and none if the verdict is
-- positive.
pub verify-total :
    (img : Image)
    → IsShort img
    → (r : VerifyResult) × (verify img ≡ some r)
      × (length r.errors ≤ max_errors)
      × (r.valid ≡ true → r.errors ≡ [])
unfolding verify
verify-total img short = elim (Bool-cases (length img.functions.items == 0)) [
  | inl none_there ↦
      let k = Keeps-verr no_errors 0 0 no_functions no_errors-IsReport in
      (verr no_errors 0 0 no_functions, rw none_there, k.report.bounded, k.report.clean)
  | inr some_there ↦
      let (r, e, k) =
        verify_functions-total no_errors img 0 img.functions.items no_errors-IsReport short in
      (r, rw some_there e, k.report.bounded, k.report.clean)
]

pub verify-IsSafe :
    (img : Image) (r : VerifyResult)
    → IsShort img
    → All IsU32Func img.functions.items
    → verify img ≡ some r
    → r.valid ≡ true
    → (img.functions.items ≢ []) × All (IsSafe img) img.functions.items
unfolding verify
verify-IsSafe img r short w e v = elim (Bool-cases (length img.functions.items == 0)) [
  | inl none_there ↦ absurd (
      cc (
        some-injective _ _ (rw none_there at e),
        verr-valid no_errors 0 0 no_functions no_errors-IsReport,
      ))
  | inr some_there ↦ (
    λ nil. absurd (cc (rw nil at some_there)),
    verify_functions-IsSafe no_errors img 0 img.functions.items r no_errors-IsReport short w
        (rw some_there at e) v,
  )
]
