-- ===== src/Verifier/Scan.antt =====
-- `verify_function` and `arc_verify` of src/verifier/verifier.c.
use arcana.Common.{
  ℕ, zero, suc, ◌+◌, ◌%◌, Bool, true, false, not, ◌||◌, Option, none, some, List, [], ◌∷◌, ltb,
  ◌==◌, if◌then◌else◌, length, get_or,
}
use arcana.Common.Int.{ℤ, pos, ltb_ℤ, ◌+ℤ◌, ◌-ℤ◌}
use arcana.Bytecode.Image.{FuncRecord, Image}
use arcana.Bytecode.Opcodes.{op_halt, op_return, op_operand_bytes, op_pops, op_pushes}
use arcana.Verifier.Report.{
  VerifyResult, verr, verr_if, no_errors, outside_code, unknown_opcode, truncated, underflow,
  no_exit, no_functions,
}
use arcana.Verifier.Operands.{u32_mod, relative, func_end, verify_operands}
use arcana.Verifier.Heights.{Track, heights_init, check_join, record_jump_heights}

-- The variables of the `while` loop.
pub record State : Type 0 where
  pub ip : ℕ
  pub track : Track
  pub has_exit : Bool

-- One round either goes on or breaks out of the loop.
pub data Round : Type 0 where
  next stop : State → Round

-- `stack_height -= pops`, clamped at 0 with an error, then `stack_height += pushes`. The source's
-- branch for variable pops lies under `pops >= 0`, so those instructions pop nothing here.
unfoldable pub stack_effect : ℕ → ℕ → ℕ → Track → Track
stack_effect fi start op t =
    let popped : ℤ = elim (op_pops op) [ none ↦ t.height | some n ↦ t.height -ℤ pos n ] in
    let low = ltb_ℤ popped (pos 0) in
    let base : ℤ = if low then pos 0 else popped in
    let pushed : ℤ = elim (op_pushes op) [ none ↦ base | some n ↦ base +ℤ pos n ] in
    record t { result = verr_if low t.result fi start underflow; height = pushed }

-- An instruction whose opcode has `n` operand bytes; `ip` is behind the opcode, and wraps.
unfoldable pub verify_instruction : Image → FuncRecord → ℕ → ℕ → ℕ → ℕ → ℕ → State → State
unfolding stack_effect record_jump_heights
verify_instruction img fn fi start op n ip s =
    let checked = verify_operands s.track.result img fn fi start op ip in
    let t = stack_effect fi start op (record (s.track) { result = checked }) in
    record {
      ip = (ip + n) % u32_mod;
      track = record_jump_heights fn img fi op ip n start t;
      has_exit = s.has_exit || op == op_halt || op == op_return;
    }

unfoldable pub round : Image → FuncRecord → ℕ → State → Round
round img fn fi s =
    let start = s.ip in
    let t = check_join fi start (relative fn start) s.track in
    let op = get_or img.code start 0 in
    elim (op_operand_bytes op) [
      | none ↦ stop (record s {
        ip = start + 1;
        track = record t { result = verr t.result fi start unknown_opcode };
      })
      | some n ↦
          if ltb (func_end fn) ((start + 1 + n) % u32_mod)
          then stop (record s {
            ip = start + 1;
            track = record t { result = verr t.result fi start truncated };
          })
          else next (verify_instruction img fn fi start op n (start + 1) (record s { track = t }))
    ]

-- `none` is a loop that used up its fuel.
unfoldable pub scan : ℕ → Image → FuncRecord → ℕ → State → Option State
scan zero img fn fi s = if ltb s.ip (func_end fn) then none else some s
scan (suc fuel) img fn fi s = elim (ltb s.ip (func_end fn)) [
  | false ↦ some s
  | true ↦ elim (round img fn fi s) [ stop s' ↦ some s' | next s' ↦ scan fuel img fn fi s' ]
]

abbrev pub start_state : VerifyResult → FuncRecord → State
start_state r fn = record {
  ip = fn.code_offset;
  track = record { result = r; heights = heights_init fn.code_length; height = pos 0 };
  has_exit = false;
}

unfoldable pub verify_function : VerifyResult → Image → ℕ → FuncRecord → Option VerifyResult
verify_function r img fi fn =
    if ltb (length img.code) (func_end fn)
    then some (verr r fi 0 outside_code)
    else elim (scan fn.code_length img fn fi (start_state r fn)) [
      | none ↦ none
      | some s ↦ some (verr_if (not s.has_exit) s.track.result fi fn.code_offset no_exit)
    ]

-- The loop over the function table.
unfoldable pub verify_functions : VerifyResult → Image → ℕ → List FuncRecord → Option VerifyResult
verify_functions r img fi [] = some r
verify_functions r img fi (fn ∷ fns) = elim (verify_function r img fi fn) [
  | none ↦ none
  | some r' ↦ verify_functions r' img (fi + 1) fns
]

unfoldable pub verify : Image → Option VerifyResult
verify img =
    if length img.functions.items == 0
    then some (verr no_errors 0 0 no_functions)
    else verify_functions no_errors img 0 img.functions.items
