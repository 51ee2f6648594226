-- ===== src/Vm/Verified.antt =====
-- The machine on code that src/verifier/verifier.c accepts.
use arcana.Common.{
  ℕ, ◌+◌, ◌≤◌, ◌<◌, ◌≡◌, refl, sym, ap, ◌∙◌, subst, Bool, true, false, ◌&&◌, none, some, List, [],
  ◌∷◌, leb, ◌==◌, if◌then◌else◌, length, ◌⊎◌, inl, inr, arith, Bool-cases,
}
use arcana.Vm.State.{Vm, ok, fault, continue, ◌>>=◌, current, on_some, vm_error, vm_read_byte}
use arcana.Vm.Platform.{Platform}
use mathlib.Core.Option.{some-injective}
use arcana.Common.{Option-cases, get_or, and-eq-true, ==_iff}
use arcana.Bytecode.Opcodes.{OpInfo, opcodes, find_op, op_operand_bytes}
use arcana.Bytecode.Image.{FuncRecord}
use arcana.Verifier.Operands.{jump_target, func_end}
use arcana.Verifier.Soundness.{OperandsFit, Layout, done as at_end, instr}
use arcana.Vm.Op.{Op, op_byte, decode}
use arcana.Vm.Run.{exec, vm_dispatch, vm_step}
use arcana.Vm.Branches.{
  get_elem?-eq-get_or, is_branch, is_neutral, IsAsTabled, IsAsTabled-ip, is_branch-eq,
  branch-IsAsTabled, neutral-IsAsTabled,
}
use arcana.Vm.Step.Table.{is_straight, exec-op_pops}

-- The table of opcodes and the labels of the switch agree on what is an opcode.
abbrev all_decode : List OpInfo → Bool
all_decode [] = true
all_decode (r ∷ rs) = elim (decode r.byte) [
  | none ↦ false
  | some o ↦ r.byte == op_byte o && all_decode rs
]

opcodes-decode : all_decode opcodes ≡ true
unfolding decode op_byte
opcodes-decode = refl

find_op-decode :
    (rs : List OpInfo) (b : ℕ) (r : OpInfo)
    → find_op rs b ≡ some r
    → all_decode rs ≡ true
    → (o : Op) × (decode b ≡ some o) × (op_byte o ≡ b)
unfolding find_op
find_op-decode [] b r' h all = cc
find_op-decode (r ∷ rs) b r' h all = elim (Option-cases (decode r.byte)) [
  | inl e ↦ cc (rw (e, all_decode) at all)
  | inr (o, e) ↦
      let (same, rest) =
        and-eq-true (r.byte == op_byte o) (all_decode rs) (rw (e, all_decode) at all) in
      elim (Bool-cases (r.byte == b)) [
        | inl t ↦
            let at_b = (==_iff r.byte b).0 t in
            (
              o,
              subst (λ c. decode c ≡ some o) at_b e,
              sym ((==_iff r.byte (op_byte o)).0 same) ∙ at_b,
            )
        | inr f ↦ find_op-decode rs b r' (rw (f, find_op) at h) rest
      ]
]

op_operand_bytes-decode :
    (b n : ℕ) → op_operand_bytes b ≡ some n → (o : Op) × (decode b ≡ some o) × (op_byte o ≡ b)
unfolding op_operand_bytes
op_operand_bytes-decode b n h = elim (Option-cases (find_op opcodes b)) [
  | inl e ↦ cc (rw (e, op_operand_bytes) at h)
  | inr (r, e) ↦ find_op-decode opcodes b r e opcodes-decode
]

leb-eq-false : (a b : ℕ) → b < a → leb a b ≡ false
leb-eq-false a b h = ground arith

module _ (pf : Platform) (vm : Vm) (o : Op) where
  vm_step-eq-exec :
      vm.ip < length vm.image.code
      → decode (get_or vm.image.code vm.ip 0) ≡ some o
      → vm_step pf vm ≡ exec pf o (record vm { ip = vm.ip + 1 })
  unfolding vm_step ◌>>=◌ current vm_read_byte vm_dispatch on_some
  vm_step-eq-exec h e =
      let vm₁ = record vm { ip = vm.ip + 1 } in
      ap (λ b. (if b then vm_error "ip out of bounds" else vm_read_byte >>= vm_dispatch pf) vm)
        (leb-eq-false _ _ h)
      ∙ (ap (λ r. continue (elim r [ none ↦ fault | some b ↦ ok b vm₁ ]) (vm_dispatch pf))
            (get_elem?-eq-get_or vm.image.code vm.ip h)
          ∙ ap (λ d. on_some d (exec pf) (vm_error "unknown opcode 0x%02X at %u") vm₁) e)

-- A step moves the machine behind its operands, to the next boundary, with the counts of the table.
pub record IsFallThrough (o : Op) (fn : FuncRecord) (vm vm' : Vm) : Type 0 where
  pub counts : IsAsTabled o vm vm'
  pub n : ℕ
  pub operands : op_operand_bytes (op_byte o) ≡ some n
  pub ip : vm'.ip ≡ vm.ip + 1 + n
  pub layout : Layout vm'.image fn vm'.ip

-- A branch moves it there or to the target that the verifier computes, an offset of the function.
pub record IsJump (o : Op) (fn : FuncRecord) (vm vm' : Vm) : Type 0 where
  pub counts : IsAsTabled o vm vm'
  pub lands :
      ((vm'.ip ≡ vm.ip + 5) × Layout vm'.image fn vm'.ip)
      ⊎ ((vm'.ip ≡ jump_target vm.image.code (vm.ip + 1))
          × (fn.code_offset ≤ vm'.ip)
          × (vm'.ip ≤ func_end fn))

module _ (fn : FuncRecord) (o : Op) (vm vm' : Vm) (n : ℕ)
    (rest : Layout vm.image fn (vm.ip + 1 + n)) where
  Layout-next : vm'.ip ≡ vm.ip + 1 + n → vm'.image ≡ vm.image → Layout vm'.image fn vm'.ip
  Layout-next ip image =
      subst (λ img. Layout img fn vm'.ip) (sym image) (subst (Layout vm.image fn) (sym ip) rest)

module _ (pf : Platform) (fn : FuncRecord) (o : Op) (vm vm' : Vm) (n : ℕ) where
  straight-IsFallThrough :
      is_straight o ≡ true
      → op_operand_bytes (op_byte o) ≡ some n
      → Layout vm.image fn (vm.ip + 1 + n)
      → exec pf o (record vm { ip = vm.ip + 1 }) ≡ ok tt vm'
      → IsFallThrough o fn vm vm'
  straight-IsFallThrough straight operands rest run =
      let (n', p, q, table, pops, pushes, ip, sp, fp, _, _, _, image) =
        exec-op_pops pf o (record vm { ip = vm.ip + 1 }) vm' straight run in
      let size = some-injective _ _ (sym table ∙ operands) in
      record {
        counts = record {
          p = p;
          q = q;
          pops = pops;
          pushes = pushes;
          sp = sp;
          image = image;
          fp = fp;
        };
        n = n;
        operands = operands;
        ip = ip ∙ ap (λ k. vm.ip + 1 + k) size;
        layout = Layout-next fn o vm vm' n rest (ip ∙ ap (λ k. vm.ip + 1 + k) size) image;
      }

  neutral-IsFallThrough :
      is_neutral o ≡ true
      → op_operand_bytes (op_byte o) ≡ some n
      → vm.ip + 1 + n ≤ length vm.image.code
      → Layout vm.image fn (vm.ip + 1 + n)
      → exec pf o (record vm { ip = vm.ip + 1 }) ≡ ok tt vm'
      → IsFallThrough o fn vm vm'
  neutral-IsFallThrough neutral operands inside rest run =
      let (t, ip) =
        neutral-IsAsTabled pf (record vm { ip = vm.ip + 1 }) vm' o n neutral operands inside run in
      record {
        counts = IsAsTabled-ip o vm vm' (vm.ip + 1) t;
        n = n;
        operands = operands;
        ip = ip;
        layout = Layout-next fn o vm vm' n rest ip t.image;
      }

  branch-IsJump :
      is_branch o ≡ true
      → op_operand_bytes (op_byte o) ≡ some n
      → vm.ip + 1 + n ≤ length vm.image.code
      → OperandsFit vm.image fn (op_byte o) (vm.ip + 1)
      → Layout vm.image fn (vm.ip + 1 + n)
      → exec pf o (record vm { ip = vm.ip + 1 }) ≡ ok tt vm'
      → IsJump o fn vm vm'
  branch-IsJump branch operands inside fits rest run =
      let (jumps, table) = is_branch-eq o branch in
      let four : 4 ≡ n = some-injective _ _ (sym table ∙ operands) in
      let (t, landing) =
        branch-IsAsTabled pf (record vm { ip = vm.ip + 1 }) vm' o branch
          (omega (arith, four, inside)) run in
      record {
        counts = IsAsTabled-ip o vm vm' (vm.ip + 1) t;
        lands = elim landing [
          | inl ip ↦ inl (
            omega (arith, ip),
            Layout-next fn o vm vm' n rest (ip ∙ ap (λ k. vm.ip + 1 + k) four) t.image,
          )
          | inr ip ↦
              let (low, high) =
                subst (λ k. (fn.code_offset ≤ k) × (k ≤ func_end fn)) (sym ip) (fits.jump jumps) in
              inr (ip, low, high)
        ];
      }

module _ (pf : Platform) (fn : FuncRecord) where
  -- In a function that ends inside the code and has the layout that the verifier establishes, where a
  -- step at a boundary before the end goes on, the opcode there is one that the machine knows, and:
  -- after any instruction but a jump, throw, call, return, array_new, map_new, intrinsic and those on
  -- coroutines and threads, the machine stands behind the operands, at the next boundary; after a
  -- jump it stands there or at the target that the verifier computes, between the start and the end
  -- of the function. In both cases the stack has moved by the pops and pushes of the table, counted
  -- together, in the same frame and with the same code.
  pub vm_step-Layout :
      (vm vm' : Vm)
      → func_end fn ≤ length vm.image.code
      → vm.ip < func_end fn
      → Layout vm.image fn vm.ip
      → vm_step pf vm ≡ ok tt vm'
      → (o : Op) × (decode (get_or vm.image.code vm.ip 0) ≡ some o)
        × ((is_straight o ≡ true) ⊎ (is_neutral o ≡ true) → IsFallThrough o fn vm vm')
        × (is_branch o ≡ true → IsJump o fn vm vm')
  vm_step-Layout vm vm' inside before (at_end stop) e = absurd (omega (arith, stop))
  vm_step-Layout vm vm' inside before (instr n _ operands fits whole rest) e =
      let (o, d, same) = op_operand_bytes-decode (get_or vm.image.code vm.ip 0) n operands in
      let run = sym (vm_step-eq-exec pf vm o (omega arith) d) ∙ e in
      let table = ap op_operand_bytes same ∙ operands in
      (
        o,
        d,
        λ kind. elim kind [
          | inl straight ↦ straight-IsFallThrough pf fn o vm vm' n straight table rest run
          | inr neutral ↦
              neutral-IsFallThrough pf fn o vm vm' n neutral table (omega arith) rest run
        ],
        λ branch.
            branch-IsJump pf fn o vm vm' n branch table (omega arith)
              (subst (λ b. OperandsFit vm.image fn b (vm.ip + 1)) (sym same) whole) rest run,
      )
