-- ===== src/Verifier/Soundness.antt =====
-- What a positive verdict guarantees about the structure of the code.
use arcana.Common.{
  ℕ, ◌+◌, ◌-◌, ◌≤◌, ◌<◌, ◌≡◌, refl, ◌⊎◌, inl, inr, Bool, true, false, ◌&&◌, ◌||◌, some, List, arith,
  tests, ltb, leb, ◌==◌, length, get_or, if_elim, Option-cases,
}
use arcana.Common.Int.{ℤ}
use arcana.Bytecode.Image.{FuncRecord, Image}
use arcana.Bytecode.Opcodes.{
  op_const, op_load_local, op_store_local, op_call, op_thread_spawn, op_intrinsic, intrinsic_count,
  op_halt, op_return, op_operand_bytes, op_jump, op_jump_if_false, op_jump_if_true,
}
use arcana.Verifier.Report.{
  VerifyResult, Problem, verr, verr_if, IsReport, verr-IsReport, verr-valid, verr_if-valid,
}
use arcana.Verifier.Operands.{is_jump, code_u16, jump_target, func_end, verify_operands}
use arcana.Verifier.Heights.{
  Track, check_join, record_jump_heights, record_target, resume_height, eq_ℤ, unvisited,
}
use arcana.Verifier.Scan.{stack_effect}

-- The operands of an instruction lie in range; `ip` is behind the opcode.
pub record OperandsFit (img : Image) (fn : FuncRecord) (op ip : ℕ) : Type 0 where
  pub constant : op ≡ op_const → code_u16 img.code ip < length img.constants.items
  pub local : (op ≡ op_load_local) ⊎ (op ≡ op_store_local) → code_u16 img.code ip < fn.local_count
  pub function :
      (op ≡ op_call) ⊎ (op ≡ op_thread_spawn) → code_u16 img.code ip < length img.functions.items
  pub intrinsic : op ≡ op_intrinsic → code_u16 img.code ip < intrinsic_count
  pub jump :
      is_jump op ≡ true
      → (fn.code_offset ≤ jump_target img.code ip) × (jump_target img.code ip ≤ func_end fn)

-- From `ip` the code is a sequence of whole instructions with known opcodes and operands in range,
-- which ends exactly at the end of the function.
pub data Layout (img : Image) (fn : FuncRecord) : ℕ → Type 0 where
  done : {ip : ℕ} → ip ≡ func_end fn → Layout img fn ip
  instr :
      {ip : ℕ} (n : ℕ)
      → ip < func_end fn
      → op_operand_bytes (get_or img.code ip 0) ≡ some n
      → ip + 1 + n ≤ func_end fn
      → OperandsFit img fn (get_or img.code ip 0) (ip + 1)
      → Layout img fn (ip + 1 + n)
      → Layout img fn ip

-- Some instruction from `ip` on is a halt or a return.
pub data HasExit (img : Image) : ℕ → Type 0 where
  here :
      {ip : ℕ}
      → (get_or img.code ip 0 ≡ op_halt) ⊎ (get_or img.code ip 0 ≡ op_return)
      → HasExit img ip
  later :
      {ip : ℕ} (n : ℕ)
      → op_operand_bytes (get_or img.code ip 0) ≡ some n
      → HasExit img (ip + 1 + n)
      → HasExit img ip

-- A step of the verifier keeps the report well formed and repairs no verdict.
pub record Keeps (r s : VerifyResult) : Type 0 where
  pub report : IsReport s
  pub valid : s.valid ≡ true → r.valid ≡ true

pub Keeps-refl : (r : VerifyResult) → IsReport r → Keeps r r
Keeps-refl r h = record { report = h; valid = λ e. e }

pub Keeps-trans : (r s t : VerifyResult) → Keeps r s → Keeps s t → Keeps r t
Keeps-trans r s t h k = record { report = k.report; valid = λ e. h.valid (k.valid e) }

pub Keeps-verr :
    (r : VerifyResult) (fi off : ℕ) (p : Problem) → IsReport r → Keeps r (verr r fi off p)
Keeps-verr r fi off p h = record {
  report = verr-IsReport r fi off p h;
  valid = λ e. absurd (cc (verr-valid r fi off p h));
}

pub Keeps-verr_if :
    (b : Bool) (r : VerifyResult) (fi off : ℕ) (p : Problem)
    → IsReport r
    → Keeps r (verr_if b r fi off p)
Keeps-verr_if true r fi off p h = Keeps-verr r fi off p h
Keeps-verr_if false r fi off p h = Keeps-refl r h

pub Keeps-join :
    (fi start rel : ℕ) (t : Track)
    → IsReport t.result
    → Keeps t.result (check_join fi start rel t).result
unfolding check_join
Keeps-join fi start rel t h = elim (Option-cases t.heights) [
  | inl none_yet ↦ rw (none_yet, check_join) (Keeps-refl t.result h)
  | inr (hs, e) ↦
      rw (e, check_join)
        (if_elim (λ (u : Track). Keeps t.result u.result) (eq_ℤ (get_or hs rel unvisited) unvisited)
          (λ _. Keeps-refl t.result h)
          λ _.
            if_elim (λ (u : Track). Keeps t.result u.result)
              (eq_ℤ (get_or hs rel unvisited) t.height) (λ _. Keeps-refl t.result h)
              λ _. Keeps-verr t.result fi start _ h)
]

Keeps-target :
    (fi start rel : ℕ) (hs : List ℤ) (t : Track)
    → IsReport t.result
    → Keeps t.result (record_target fi start rel hs t).result
unfolding record_target
Keeps-target fi start rel hs t h =
    if_elim (λ (u : Track). Keeps t.result u.result) (eq_ℤ (get_or hs rel unvisited) unvisited)
      (λ _. Keeps-refl t.result h)
      λ _.
        if_elim (λ (u : Track). Keeps t.result u.result) (eq_ℤ (get_or hs rel unvisited) t.height)
          (λ _. Keeps-refl t.result h) λ _. Keeps-verr t.result fi start _ h

resume_height-result :
    (fn : FuncRecord) (op rel : ℕ) (t : Track) → (resume_height fn op rel t).result ≡ t.result
unfolding resume_height
resume_height-result fn op rel t = elim (Option-cases t.heights) [
  | inl e ↦ rw (e, resume_height)
  | inr (hs, e) ↦
      rw (e, resume_height)
        (if_elim (λ (u : Track). u.result ≡ t.result)
          (op == op_jump || op == op_halt || op == op_return) (λ _. refl) (λ _. refl))
]

pub Keeps-jump :
    (fn : FuncRecord) (img : Image) (fi op ip n start : ℕ) (t : Track)
    → IsReport t.result
    → Keeps t.result (record_jump_heights fn img fi op ip n start t).result
unfolding record_jump_heights
Keeps-jump fn img fi op ip n start t h = elim (Option-cases t.heights) [
  | inl e ↦ rw (e, record_jump_heights) (Keeps-refl t.result h)
  | inr (hs, e) ↦
      let target = jump_target img.code ip in
      rw (e, record_jump_heights, resume_height-result)
        (if_elim (λ (u : Track). Keeps t.result u.result)
          (is_jump op && leb fn.code_offset target && ltb target (func_end fn))
          (λ _. Keeps-target fi start (target - fn.code_offset) hs t h)
          (λ _. Keeps-refl t.result h))
]

pub Keeps-effect :
    (fi start op : ℕ) (t : Track)
    → IsReport t.result
    → Keeps t.result (stack_effect fi start op t).result
unfolding stack_effect
Keeps-effect fi start op t h = Keeps-verr_if _ t.result fi start _ h

pub Keeps-operands :
    (r : VerifyResult) (img : Image) (fn : FuncRecord) (fi start op ip : ℕ)
    → IsReport r
    → Keeps r (verify_operands r img fn fi start op ip)
unfolding verify_operands
Keeps-operands r img fn fi start op ip h =
    let P = Keeps r in
    if_elim P (op == op_const) (λ _. Keeps-verr_if _ r fi start _ h)
      λ _.
        if_elim P (op == op_load_local || op == op_store_local)
          (λ _. Keeps-verr_if _ r fi start _ h)
          λ _.
            if_elim P (op == op_call || op == op_thread_spawn) (λ _. Keeps-verr_if _ r fi start _ h)
              λ _.
                if_elim P (op == op_intrinsic) (λ _. Keeps-verr_if _ r fi start _ h)
                  λ _.
                    if_elim P (is_jump op) (λ _. Keeps-verr_if _ r fi start _ h) λ _. Keeps-refl r h

module _ (r : VerifyResult) (img : Image) (fn : FuncRecord) (fi start ip : ℕ) (h : IsReport r) where
  -- The verdict after the operand check of the opcode `op`.
  abbrev pub Passes : ℕ → Type 0
  Passes op = (verify_operands r img fn fi start op ip).valid ≡ true

  fits-local :
      (op : ℕ)
      → Passes op
      → (op ≡ op_load_local) ⊎ (op ≡ op_store_local)
      → code_u16 img.code ip < fn.local_count
  unfolding verify_operands
  fits-local op e (inl o) = omega (tests, (verr_if-valid _ r fi start _ h (rw o at e)).0)
  fits-local op e (inr o) = omega (tests, (verr_if-valid _ r fi start _ h (rw o at e)).0)

  fits-function :
      (op : ℕ)
      → Passes op
      → (op ≡ op_call) ⊎ (op ≡ op_thread_spawn)
      → code_u16 img.code ip < length img.functions.items
  unfolding verify_operands
  fits-function op e (inl o) = omega (tests, (verr_if-valid _ r fi start _ h (rw o at e)).0)
  fits-function op e (inr o) = omega (tests, (verr_if-valid _ r fi start _ h (rw o at e)).0)

  abbrev pub InFunction : ℕ → Type 0
  InFunction target = (fn.code_offset ≤ target) × (target ≤ func_end fn)

  in_function :
      (target : ℕ)
      → (ltb target fn.code_offset || ltb (func_end fn) target) ≡ false
      → InFunction target
  in_function target e = ground arith

  jump-cases :
      (op : ℕ)
      → is_jump op ≡ true
      → (op ≡ op_jump) ⊎ ((op ≡ op_jump_if_false) ⊎ (op ≡ op_jump_if_true))
  jump-cases op e = ground arith

  fits-jump : (op : ℕ) → Passes op → is_jump op ≡ true → InFunction (jump_target img.code ip)
  unfolding verify_operands
  fits-jump op e j = elim (jump-cases op j) [
    | inl o ↦ in_function _ (verr_if-valid _ r fi start _ h (rw o at e)).0
    | inr (inl o) ↦ in_function _ (verr_if-valid _ r fi start _ h (rw o at e)).0
    | inr (inr o) ↦ in_function _ (verr_if-valid _ r fi start _ h (rw o at e)).0
  ]

  pub verify_operands-fit : (op : ℕ) → Passes op → OperandsFit img fn op ip
  unfolding verify_operands
  verify_operands-fit op e = record {
    constant = λ o. omega (tests, (verr_if-valid _ r fi start _ h (rw o at e)).0);
    local = fits-local op e;
    function = fits-function op e;
    intrinsic = λ o. omega (tests, (verr_if-valid _ r fi start _ h (rw o at e)).0);
    jump = fits-jump op e;
  }
