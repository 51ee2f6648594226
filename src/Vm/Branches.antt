-- ===== src/Vm/Branches.antt =====
-- The jumps of src/vm/vm.c and the instructions on handlers, where their operand lies in the code.
use arcana.Common.{
  ℕ, zero, suc, ◌+◌, ◌-◌, ◌*◌, ◌≤◌, ◌<◌, ◌≡◌, refl, ap, ◌∙◌, subst, ◌⊎◌, inl, inr, Bool, true,
  false, not, some, List, [], ◌∷◌, leb, ◌==◌, if◌then◌else◌, length, get_elem?, get_or, arith,
  Bool-cases,
}
use arcana.Vm.State.{
  VmError, Vm, Outcome, ok, error, M, ◌>>=◌, pure, done, current, handler_max, vm_error,
  vm_read_byte, vm_read_u16, vm_read_i32, vm_pop,
}
use arcana.Verifier.Operands.{is_jump, code_u32, jump_target}
use arcana.Vm.Control.{
  target, set_ip, branch_if, jump_by, vm_exec_branch, push_handler, pop_handler, vm_exec_exception,
  halt_with,
}
use arcana.Vm.Op.{
  Op, op_jump, op_jump_if_false, op_jump_if_true, op_try_begin, op_try_end, op_halt, op_byte,
}
use mathlib.Core.Option.{some-injective}
use mathlib.Core.Bool.{false≢true}
use arcana.Bytecode.Opcodes.{op_operand_bytes, op_pops, op_pushes}
use arcana.Vm.Platform.{Platform, is_truthy}
use arcana.Vm.Run.{exec}

pub get_elem?-eq-get_or :
    (bs : List ℕ) (i : ℕ) → i < length bs → get_elem? bs i ≡ some (get_or bs i 0)
get_elem?-eq-get_or [] i h = absurd (omega (arith, h))
get_elem?-eq-get_or (b ∷ bs) zero h = refl
get_elem?-eq-get_or (b ∷ bs) (suc i) h = get_elem?-eq-get_or bs i (omega (arith, h))

read_byte-eq :
    (vm : Vm)
    → vm.ip < length vm.image.code
    → vm_read_byte vm ≡ ok (get_or vm.image.code vm.ip 0) (record vm { ip = vm.ip + 1 })
unfolding vm_read_byte
read_byte-eq vm h = rw (get_elem?-eq-get_or vm.image.code vm.ip h, vm_read_byte)

read-eq :
    (vm : Vm) (a b m n : ℕ)
    → a ≡ b
    → m ≡ n
    → ok a (record vm { ip = m }) ≡ ok b (record vm { ip = n })
read-eq vm a b m n p q =
    ap (λ x. ok x (record vm { ip = m })) p ∙ ap (λ i. ok b (record vm { ip = i })) q

read_u16-eq :
    (vm : Vm)
    → vm.ip + 1 < length vm.image.code
    → vm_read_u16 vm
      ≡ ok
          (get_or vm.image.code vm.ip 0 + get_or vm.image.code (vm.ip + 1) 0 * 256)
          (record vm { ip = vm.ip + 2 })
unfolding vm_read_u16 ◌>>=◌ pure
read_u16-eq vm h = rw (
  read_byte-eq vm (omega (arith, h)),
  read_byte-eq (record vm { ip = vm.ip + 1 }) h,
  read-eq vm _ _ (vm.ip + 1 + 1) (vm.ip + 2) refl (omega arith),
)

next_offset : (i : ℕ) → i + 2 + 1 ≡ i + 3
next_offset i = omega arith

read_i32-eq :
    (vm : Vm)
    → vm.ip + 3 < length vm.image.code
    → vm_read_i32 vm ≡ ok (code_u32 vm.image.code vm.ip) (record vm { ip = vm.ip + 4 })
unfolding vm_read_i32 ◌>>=◌ pure code_u32
read_i32-eq vm h =
    rw
      (
        read_u16-eq vm (omega (arith, h)),
        read_u16-eq (record vm { ip = vm.ip + 2 }) (omega (arith, h)),
      )
      (read-eq vm _ _ (vm.ip + 2 + 2) (vm.ip + 4)
        (omega (arith, ap (λ k. get_or vm.image.code k 0) (next_offset vm.ip))) (omega arith))

-- What a step leaves as it is.
pub record IsSame (vm vm' : Vm) : Type 0 where
  pub image : vm'.image ≡ vm.image
  pub fp : vm'.fp ≡ vm.fp
  pub frames : vm'.frames ≡ vm.frames

-- A branch from behind its opcode pops `p` values, and goes on behind its operand or at the target
-- that the verifier computes.
pub record IsBranch (p : ℕ) (vm vm' : Vm) : Type 0 where
  pub same : IsSame vm vm'
  pub sp : vm'.sp + p ≡ vm.sp
  pub ip : (vm'.ip ≡ vm.ip + 4) ⊎ (vm'.ip ≡ jump_target vm.image.code vm.ip)

ok-vm : (a b : Vm) → Path (Outcome (Unit {0})) (ok tt a) (ok tt b) → a ≡ b
ok-vm a b e = cc

if-ok :
    (b : Bool) (m k : M (Unit {0})) (x vm' : Vm) (P : Vm → Type 0)
    → ((v : Vm) → m x ≡ ok tt v → P v)
    → ((v : Vm) → k x ≡ ok tt v → P v)
    → (if b then m else k) x ≡ ok tt vm'
    → P vm'
if-ok true m k x vm' P h h' e = h vm' e
if-ok false m k x vm' P h h' e = h' vm' e

if-error :
    (b : Bool) (e : VmError) (a vm' : Vm)
    → Path (Outcome (Unit {0})) (if b then error e else ok tt a) (ok tt vm')
    → (b ≡ false) × (a ≡ vm')
if-error true e a vm' h = cc
if-error false e a vm' h = (refl, ok-vm a vm' h)

module _ (vm vm' : Vm) (inside : vm.ip + 3 < length vm.image.code) where
  jump-IsBranch : vm_exec_branch op_jump vm ≡ ok tt vm' → IsBranch 0 vm vm'
  unfolding vm_exec_branch jump_by set_ip current ◌>>=◌ pure jump_target
  jump-IsBranch e = subst (IsBranch 0 vm) (ok-vm _ vm' (rw (read_i32-eq vm inside) at e)) (record {
    same = record { image = refl; fp = refl; frames = refl };
    sp = omega arith;
    ip = inr refl;
  })

  branch_if-IsBranch :
      (taken : Bool → Bool) → (vm_read_i32 >>= branch_if taken) vm ≡ ok tt vm' → IsBranch 1 vm vm'
  unfolding branch_if set_ip current ◌>>=◌ pure jump_target vm_pop vm_error
  branch_if-IsBranch taken e =
      let r = rw (read_i32-eq vm inside) at e in
      elim (Bool-cases (vm.sp == 0)) [
        | inl empty ↦ cc (rw empty at r)
        | inr full ↦
            let sp : vm.sp - 1 + 1 ≡ vm.sp = ground (arith, full) in
            if-ok (taken (is_truthy (vm.stack (vm.sp - 1))))
              (set_ip (target (vm.ip + 4) (code_u32 vm.image.code vm.ip))) done
              (record vm { sp = vm.sp - 1; ip = vm.ip + 4 }) vm' (IsBranch 1 vm)
              (λ v p. subst (IsBranch 1 vm) (ok-vm _ v p) (record {
                same = record { image = refl; fp = refl; frames = refl };
                sp = sp;
                ip = inr refl;
              }))
              (λ v p. subst (IsBranch 1 vm) (ok-vm _ v p) (record {
                same = record { image = refl; fp = refl; frames = refl };
                sp = sp;
                ip = inl refl;
              }))
              (rw full at r)
      ]

  try_begin-IsSame :
      vm_exec_exception op_try_begin vm ≡ ok tt vm'
      → IsSame vm vm' × (vm'.sp ≡ vm.sp) × (vm'.ip ≡ vm.ip + 4)
  unfolding vm_exec_exception push_handler ◌>>=◌ vm_error
  try_begin-IsSame e =
      let (_, p) =
        if-error (leb handler_max vm.handler_count) _ _ vm' (rw (read_i32-eq vm inside) at e) in
      subst (λ v. IsSame vm v × (v.sp ≡ vm.sp) × (v.ip ≡ vm.ip + 4)) p
        (record { image = refl; fp = refl; frames = refl }, refl, refl)

module _ (vm vm' : Vm) where
  try_end-IsSame :
      vm_exec_exception op_try_end vm ≡ ok tt vm'
      → IsSame vm vm' × (vm'.sp ≡ vm.sp) × (vm'.ip ≡ vm.ip)
  unfolding vm_exec_exception pop_handler ◌>>=◌ vm_error pure
  try_end-IsSame e = elim (Bool-cases (vm.handler_count == 0)) [
    | inl empty ↦ cc (rw empty at e)
    | inr some_there ↦
        subst (λ v. IsSame vm v × (v.sp ≡ vm.sp) × (v.ip ≡ vm.ip))
          (ok-vm _ vm' (rw some_there at e))
          (record { image = refl; fp = refl; frames = refl }, refl, refl)
  ]

  halt-IsSame : halt_with vm ≡ ok tt vm' → IsSame vm vm' × (vm'.sp ≡ vm.sp) × (vm'.ip ≡ vm.ip)
  unfolding halt_with
  halt-IsSame e =
      subst (λ v. IsSame vm v × (v.sp ≡ vm.sp) × (v.ip ≡ vm.ip)) (ok-vm _ vm' e)
        (record { image = refl; fp = refl; frames = refl }, refl, refl)

unfoldable pub is_branch : Op → Bool
is_branch op_jump = true
is_branch op_jump_if_false = true
is_branch op_jump_if_true = true
is_branch _ = false

-- The instructions on handlers but throw, and halt.
unfoldable pub is_neutral : Op → Bool
is_neutral op_try_begin = true
is_neutral op_try_end = true
is_neutral op_halt = true
is_neutral _ = false

-- The counts of the table hold: `n` operand bytes, and the values popped and pushed.
pub record IsAsTabled (o : Op) (vm vm' : Vm) : Type 0 where
  pub p : ℕ
  pub q : ℕ
  pub pops : op_pops (op_byte o) ≡ some p
  pub pushes : op_pushes (op_byte o) ≡ some q
  pub sp : vm'.sp + p ≡ vm.sp + q
  pub image : vm'.image ≡ vm.image
  pub fp : vm'.fp ≡ vm.fp

pub is_branch-eq :
    (o : Op)
    → is_branch o ≡ true
    → (is_jump (op_byte o) ≡ true) × (op_operand_bytes (op_byte o) ≡ some 4)
unfolding is_branch op_byte op_operand_bytes
is_branch-eq op_jump h = (refl, refl)
is_branch-eq op_jump_if_false h = (refl, refl)
is_branch-eq op_jump_if_true h = (refl, refl)
is_branch-eq o h = absurd (false≢true h)

pub IsAsTabled-ip :
    (o : Op) (vm vm' : Vm) (i : ℕ) → IsAsTabled o (record vm { ip = i }) vm' → IsAsTabled o vm vm'
IsAsTabled-ip o vm vm' i t = record {
  p = t.p;
  q = t.q;
  pops = t.pops;
  pushes = t.pushes;
  sp = t.sp;
  image = t.image;
  fp = t.fp;
}

module _ (pf : Platform) (vm vm' : Vm) where
  pub branch-IsAsTabled :
      (o : Op)
      → is_branch o ≡ true
      → vm.ip + 3 < length vm.image.code
      → exec pf o vm ≡ ok tt vm'
      → IsAsTabled o vm vm' × ((vm'.ip ≡ vm.ip + 4) ⊎ (vm'.ip ≡ jump_target vm.image.code vm.ip))
  unfolding is_branch exec op_byte op_pops op_pushes vm_exec_branch
  branch-IsAsTabled op_jump h inside e =
      let b = jump-IsBranch vm vm' inside e in
      (
        record {
          p = 0;
          q = 0;
          pops = refl;
          pushes = refl;
          sp = omega (arith, b.sp);
          image = b.same.image;
          fp = b.same.fp;
        },
        b.ip,
      )
  branch-IsAsTabled op_jump_if_false h inside e =
      let b = branch_if-IsBranch vm vm' inside not e in
      (
        record {
          p = 1;
          q = 0;
          pops = refl;
          pushes = refl;
          sp = omega (arith, b.sp);
          image = b.same.image;
          fp = b.same.fp;
        },
        b.ip,
      )
  branch-IsAsTabled op_jump_if_true h inside e =
      let b = branch_if-IsBranch vm vm' inside (λ t. t) e in
      (
        record {
          p = 1;
          q = 0;
          pops = refl;
          pushes = refl;
          sp = omega (arith, b.sp);
          image = b.same.image;
          fp = b.same.fp;
        },
        b.ip,
      )
  branch-IsAsTabled o h inside e = absurd (false≢true h)

  pub neutral-IsAsTabled :
      (o : Op) (n : ℕ)
      → is_neutral o ≡ true
      → op_operand_bytes (op_byte o) ≡ some n
      → vm.ip + n ≤ length vm.image.code
      → exec pf o vm ≡ ok tt vm'
      → IsAsTabled o vm vm' × (vm'.ip ≡ vm.ip + n)
  unfolding is_neutral exec op_byte op_operand_bytes op_pops op_pushes
  neutral-IsAsTabled op_try_begin n h k inside e =
      let four : 4 ≡ n = some-injective _ _ k in
      let (s, sp, ip) = try_begin-IsSame vm vm' (omega arith) e in
      (
        record {
          p = 0;
          q = 0;
          pops = refl;
          pushes = refl;
          sp = omega (arith, sp);
          image = s.image;
          fp = s.fp;
        },
        omega (arith, ip, four),
      )
  neutral-IsAsTabled op_try_end n h k inside e =
      let none_read : 0 ≡ n = some-injective _ _ k in
      let (s, sp, ip) = try_end-IsSame vm vm' e in
      (
        record {
          p = 0;
          q = 0;
          pops = refl;
          pushes = refl;
          sp = omega (arith, sp);
          image = s.image;
          fp = s.fp;
        },
        omega (arith, ip, none_read),
      )
  neutral-IsAsTabled op_halt n h k inside e =
      let none_read : 0 ≡ n = some-injective _ _ k in
      let (s, sp, ip) = halt-IsSame vm vm' e in
      (
        record {
          p = 0;
          q = 0;
          pops = refl;
          pushes = refl;
          sp = omega (arith, sp);
          image = s.image;
          fp = s.fp;
        },
        omega (arith, ip, none_read),
      )
  neutral-IsAsTabled o n h k inside e = absurd (false≢true h)
