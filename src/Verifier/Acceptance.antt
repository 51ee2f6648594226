-- ===== src/Verifier/Acceptance.antt =====
-- The loop of `verify_function` and the verdict of `arc_verify`.
use arcana.Common.{
  ℕ, zero, suc, ◌+◌, ◌%◌, ◌≤◌, ◌<◌, ◌≡◌, refl, subst, ◌⊎◌, inl, inr, Bool, true, false, ◌||◌, some,
  List, [], ◌∷◌, ◌&&◌, leb, and-eq-true, arith, tests, ltb, ◌==◌, get_or, Bool-cases, Option-cases,
}
use mathlib.Core.Option.{some-injective}
use arcana.Bytecode.Image.{FuncRecord, Image}
use native.Mathlib.Nat.{mod-eq_of_lt}
use arcana.Bytecode.Opcodes.{OpInfo, opcodes, find_op, op_halt, op_return, op_operand_bytes}
use arcana.Verifier.Report.{IsReport, verr-IsReport, verr-valid}
use arcana.Verifier.Operands.{u32_mod, relative, func_end, verify_operands}
use arcana.Verifier.Heights.{Track, check_join}
use arcana.Verifier.Scan.{State, Round, next, stop, stack_effect, verify_instruction, round, scan}
use arcana.Verifier.Soundness.{
  OperandsFit, Layout, done, instr, HasExit, here, later, Keeps, Keeps-refl, Keeps-trans,
  Keeps-join, Keeps-jump, Keeps-effect, Keeps-operands, verify_operands-fit,
}

abbrev pub verdict : State → Bool
verdict s = s.track.result.valid

-- What a round that goes on has checked, if the verdict after it is positive.
record Checked (img : Image) (fn : FuncRecord) (s t : State) (n : ℕ) : Type 0 where
  bytes : op_operand_bytes (get_or img.code s.ip 0) ≡ some n
  fits : s.ip + 1 + n ≤ func_end fn
  moves : t.ip ≡ s.ip + 1 + n
  keeps : Keeps s.track.result t.track.result
  operands : verdict t ≡ true → OperandsFit img fn (get_or img.code s.ip 0) (s.ip + 1)
  exits :
      t.has_exit ≡ true
      → (s.has_exit ≡ true)
        ⊎ ((get_or img.code s.ip 0 ≡ op_halt) ⊎ (get_or img.code s.ip 0 ≡ op_return))

-- No opcode has more than four operand bytes.
abbrev all_short : List OpInfo → Bool
all_short [] = true
all_short (r ∷ rs) = leb r.operands 4 && all_short rs

find_op-short :
    (rs : List OpInfo) (op : ℕ) (r : OpInfo)
    → all_short rs ≡ true
    → find_op rs op ≡ some r
    → r.operands ≤ 4
unfolding find_op
find_op-short [] op r h e = cc
find_op-short (x ∷ rs) op r h e =
    let (this, rest) = and-eq-true (leb x.operands 4) (all_short rs) h in
    elim (Bool-cases (x.byte == op)) [
      | inl same ↦
          subst (λ (y : OpInfo). y.operands ≤ 4) (some-injective _ _ (rw (same, find_op) at e))
            (omega (tests, this))
      | inr other ↦ find_op-short rs op r rest (rw (other, find_op) at e)
    ]

op_operand_bytes-le : (op n : ℕ) → op_operand_bytes op ≡ some n → n ≤ 4
unfolding op_operand_bytes
op_operand_bytes-le op n h = elim (Option-cases (find_op opcodes op)) [
  | inl e ↦ cc (rw (e, op_operand_bytes) at h)
  | inr (r, e) ↦
      subst (λ k. k ≤ 4) (some-injective _ _ (rw (e, op_operand_bytes) at h))
        (find_op-short opcodes op r refl e)
]

module _ (img : Image) (fn : FuncRecord) (fi : ℕ) where
  exit-cases :
      (b : Bool) (op : ℕ)
      → (b || op == op_halt || op == op_return) ≡ true
      → (b ≡ true) ⊎ ((op ≡ op_halt) ⊎ (op ≡ op_return))
  exit-cases b op h = ground arith

  instruction-Checked :
      (s : State) (t : Track) (n : ℕ)
      → IsReport t.result
      → Keeps s.track.result t.result
      → op_operand_bytes (get_or img.code s.ip 0) ≡ some n
      → s.ip + 1 + n ≤ func_end fn
      → func_end fn < u32_mod
      → Checked img fn s
          (verify_instruction img fn fi s.ip
            (get_or img.code s.ip 0)
            n
            (s.ip + 1)
            (record s { track = t }))
          n
  unfolding verify_instruction
  instruction-Checked s t n h k bytes fits small =
      let op = get_or img.code s.ip 0 in
      let ip = s.ip + 1 in
      let operands = Keeps-operands t.result img fn fi s.ip op ip h in
      let checked = verify_operands t.result img fn fi s.ip op ip in
      let effect = Keeps-effect fi s.ip op (record t { result = checked }) operands.report in
      let jump =
        Keeps-jump fn img fi op ip n s.ip (stack_effect fi s.ip op (record t { result = checked }))
          effect.report in
      record {
        bytes = bytes;
        fits = fits;
        moves = mod-eq_of_lt (omega arith);
        keeps = Keeps-trans _ _ _ k (Keeps-trans _ _ _ operands (Keeps-trans _ _ _ effect jump));
        operands =
            λ v. verify_operands-fit t.result img fn fi s.ip ip h op (effect.valid (jump.valid v));
        exits = exit-cases s.has_exit op;
      }

  -- A round that goes on has checked its instruction; one that stops has made the verdict negative.
  abbrev Outcome : State → Round → Type 0
  Outcome s (next t) = (n : ℕ) × Checked img fn s t n
  Outcome s (stop t) = IsReport t.track.result × (verdict t ≡ false)

  round-Outcome :
      (s : State)
      → IsReport s.track.result
      → func_end fn + 4 < u32_mod
      → ltb s.ip (func_end fn) ≡ true
      → Outcome s (round img fn fi s)
  unfolding round
  round-Outcome s h small more =
      let j = Keeps-join fi s.ip (relative fn s.ip) s.track h in
      let t = check_join fi s.ip (relative fn s.ip) s.track in
      elim (Option-cases (op_operand_bytes (get_or img.code s.ip 0))) [
        | inl e ↦
            rw (e, round)
              (verr-IsReport t.result fi s.ip _ j.report, verr-valid t.result fi s.ip _ j.report)
        | inr (n, e) ↦
            let whole : (s.ip + 1 + n) % u32_mod ≡ s.ip + 1 + n =
              mod-eq_of_lt (omega (tests, more, small, op_operand_bytes-le _ n e)) in
            elim (Bool-cases (ltb (func_end fn) ((s.ip + 1 + n) % u32_mod))) [
              | inl long ↦
                  rw (e, round, long)
                    (
                      verr-IsReport t.result fi s.ip _ j.report,
                      verr-valid t.result fi s.ip _ j.report,
                    )
              | inr fits ↦
                  rw (e, round, fits)
                    (
                      n,
                      instruction-Checked s t n j.report j e (omega (tests, fits, whole))
                          (omega (arith, small)),
                    )
            ]
      ]

Round-cases : (r : Round) → ((t : State) × (r ≡ next t)) ⊎ ((t : State) × (r ≡ stop t))
Round-cases (next t) = inl (t, refl)
Round-cases (stop t) = inr (t, refl)

-- What the loop from `s` to `t` has established, if the verdict at its end is positive.
pub record Scanned (img : Image) (fn : FuncRecord) (s t : State) : Type 0 where
  pub keeps : Keeps s.track.result t.track.result
  pub layout : verdict t ≡ true → Layout img fn s.ip
  pub exits : verdict t ≡ true → t.has_exit ≡ true → (s.has_exit ≡ true) ⊎ HasExit img s.ip

module _ (img : Image) (fn : FuncRecord) (fi : ℕ) where
  Scanned-stop :
      (s t : State) → Keeps s.track.result t.track.result → verdict t ≡ false → Scanned img fn s t
  Scanned-stop s t k e = record { keeps = k; layout = λ v. absurd (cc); exits = λ v. absurd (cc) }

  Scanned-done : (s : State) → IsReport s.track.result → s.ip ≡ func_end fn → Scanned img fn s s
  Scanned-done s h e = record { keeps = Keeps-refl _ h; layout = λ v. done e; exits = λ v x. inl x }

  Scanned-next :
      (s t u : State) (n : ℕ) → Checked img fn s t n → Scanned img fn t u → Scanned img fn s u
  Scanned-next s t u n c r = record {
    keeps = Keeps-trans _ _ _ c.keeps r.keeps;
    layout = λ v.
        instr n (omega (arith, c.fits)) c.bytes c.fits (c.operands (r.keeps.valid v))
          (rw c.moves at (r.layout v));
    exits = λ v x. elim (r.exits v x) [
      | inl before ↦ elim (c.exits before) [ inl x' ↦ inl x' | inr op ↦ inr (here op) ]
      | inr after ↦ inr (later n c.bytes (rw c.moves at after))
    ];
  }

  pub scan-Scanned :
      (fuel : ℕ) (s t : State)
      → IsReport s.track.result
      → s.ip ≤ func_end fn
      → func_end fn + 4 < u32_mod
      → scan fuel img fn fi s ≡ some t
      → Scanned img fn s t
  unfolding scan
  scan-Scanned zero s t h le small e = elim (Bool-cases (ltb s.ip (func_end fn))) [
    | inl more ↦ absurd (cc (rw (more, scan) at e))
    | inr over ↦
        subst (Scanned img fn s) (some-injective _ _ (rw (over, scan) at e))
          (Scanned-done s h (omega (tests, over)))
  ]
  scan-Scanned (suc fuel) s t h le small e = elim (Bool-cases (ltb s.ip (func_end fn))) [
    | inr over ↦
        subst (Scanned img fn s) (some-injective _ _ (rw (over, scan) at e))
          (Scanned-done s h (omega (tests, over)))
    | inl more ↦ elim (Round-cases (round img fn fi s)) [
      | inl (u, r) ↦
          let (n, c) = rw r at (round-Outcome img fn fi s h small more) in
          Scanned-next s u t n c (
            scan-Scanned fuel u t c.keeps.report (omega (arith, c.fits, c.moves)) small
              (rw (more, scan, r) at e))
      | inr (u, r) ↦
          let (report, bad) = rw r at (round-Outcome img fn fi s h small more) in
          subst (Scanned img fn s) (some-injective _ _ (rw (more, scan, r) at e))
            (Scanned-stop s u (record { report = report; valid = λ v. absurd (cc) }) bad)
    ]
  ]

  -- With as much fuel as there are bytes ahead the loop ends.
  pub scan-total :
      (fuel : ℕ) (s : State)
      → IsReport s.track.result
      → func_end fn ≤ s.ip + fuel
      → func_end fn + 4 < u32_mod
      → (t : State) × (scan fuel img fn fi s ≡ some t)
  unfolding scan
  scan-total zero s h enough small = (s, ground arith)
  scan-total (suc fuel) s h enough small = elim (Bool-cases (ltb s.ip (func_end fn))) [
    | inr over ↦ (s, rw (over, scan))
    | inl more ↦ elim (Round-cases (round img fn fi s)) [
      | inl (u, r) ↦
          let (n, c) = rw r at (round-Outcome img fn fi s h small more) in
          let (t, e) = scan-total fuel u c.keeps.report (omega (arith, c.moves)) small in
          (t, rw (more, scan, r) e)
      | inr (u, r) ↦ (u, rw (more, scan, r))
    ]
  ]

  pub scan-idle :
      (fuel : ℕ) (s : State) → ltb s.ip (func_end fn) ≡ false → scan fuel img fn fi s ≡ some s
  unfolding scan
  scan-idle zero s e = rw e
  scan-idle (suc fuel) s e = rw (e, scan)
