-- ===== src/Verifier/Heights.antt =====
-- The stack heights of src/verifier/verifier.c: what the scan expects at each offset.
use arcana.Common.{
  ℕ, ◌+◌, ◌-◌, ◌%◌, Bool, false, ◌&&◌, ◌||◌, Option, none, some, List, ltb, leb, ◌==◌,
  if◌then◌else◌, get_or, set, replicate,
}
use arcana.Common.Int.{ℤ, pos, negsuc}
use arcana.Bytecode.Image.{FuncRecord, Image}
use arcana.Bytecode.Opcodes.{op_jump, op_halt, op_return}
use arcana.Verifier.Report.{VerifyResult, verr, jump_mismatch, join_mismatch}
use arcana.Verifier.Operands.{is_jump, jump_target, relative, func_end}

-- `height_at` is absent where the code is empty or longer than MAX_CODE_LEN.
abbrev pub Heights : Type 0
Heights = Option (List ℤ)

-- -2 marks an offset that no path has reached.
abbrev pub unvisited : ℤ
unvisited = negsuc 1

abbrev pub max_code_len : ℕ
max_code_len = 65536

unfoldable pub heights_init : ℕ → Heights
heights_init len =
    if ltb 0 len && leb len max_code_len then some (replicate len unvisited) else none

abbrev pub eq_ℤ : ℤ → ℤ → Bool
eq_ℤ (pos a) (pos b) = a == b
eq_ℤ (negsuc a) (negsuc b) = a == b
eq_ℤ _ _ = false

-- The conversion to `int16_t`.
unfoldable pub to_int16 : ℤ → ℤ
to_int16 (pos n) = if ltb (n % 65536) 32768 then pos (n % 65536) else negsuc (65535 - n % 65536)
to_int16 (negsuc n) = if ltb (n % 65536) 32768 then negsuc (n % 65536) else pos (65535 - n % 65536)

-- The result, the heights and the current height.
pub record Track : Type 0 where
  pub result : VerifyResult
  pub heights : Heights
  pub height : ℤ

-- The test at a join point, at the offset `rel` of the function.
unfoldable pub join_at : ℕ → ℕ → ℕ → List ℤ → Track → Track
join_at fi start rel hs t =
    let h = get_or hs rel unvisited in
    if eq_ℤ h unvisited
    then record t { heights = some (set hs rel (to_int16 t.height)) }
    else if eq_ℤ h t.height
    then t
    else record t { result = verr t.result fi start join_mismatch; height = h }

unfoldable pub check_join : ℕ → ℕ → ℕ → Track → Track
unfolding join_at
check_join fi start rel t = elim t.heights [ none ↦ t | some hs ↦ join_at fi start rel hs t ]

-- The height that a jump brings to its target.
unfoldable pub record_target : ℕ → ℕ → ℕ → List ℤ → Track → Track
record_target fi start rel hs t =
    let h = get_or hs rel unvisited in
    if eq_ℤ h unvisited
    then record t { heights = some (set hs rel (to_int16 t.height)) }
    else if eq_ℤ h t.height
    then t
    else record t { result = verr t.result fi start jump_mismatch }

-- The height with which the scan goes on behind a jump, halt or return.
unfoldable pub after_exit : FuncRecord → List ℤ → ℕ → ℤ → ℤ
after_exit fn hs next h =
    let known = get_or hs next unvisited in
    if ltb next fn.code_length then (if eq_ℤ known unvisited then pos 0 else known) else h

unfoldable pub resume_height : FuncRecord → ℕ → ℕ → Track → Track
unfolding after_exit
resume_height fn op next t = elim t.heights [
  | none ↦ t
  | some hs ↦
      if op == op_jump || op == op_halt || op == op_return
      then record t { height = after_exit fn hs next t.height }
      else t
]

-- `ip` is behind the opcode, and `n` is the number of operand bytes.
unfoldable pub record_jump_heights : FuncRecord → Image → ℕ → ℕ → ℕ → ℕ → ℕ → Track → Track
unfolding record_target resume_height
record_jump_heights fn img fi op ip n start t =
    let target = jump_target img.code ip in
    elim t.heights [
      | none ↦ t
      | some hs ↦ resume_height fn op (relative fn (ip + n)) (
          if is_jump op && leb fn.code_offset target && ltb target (func_end fn)
          then record_target fi start (target - fn.code_offset) hs t
          else t)
    ]
