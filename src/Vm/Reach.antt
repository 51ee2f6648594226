-- ===== src/Vm/Reach.antt =====
-- The loop of src/vm/vm.c as a relation, and the invariant along it.
use arcana.Common.{◌≡◌, subst, false, ltb, arith, tests}
use arcana.Vm.State.{stack_max, World, Vm, ok, M}
use arcana.Vm.Platform.{Platform}
use arcana.Bytecode.Image.{Image, FuncRecord}
use arcana.Vm.Run.{vm_init, start_main, vm_setup_main, vm_step}
use arcana.Vm.Bounded.Loop.{step-IsKept}
use arcana.Vm.Step.{After, After-if}
use arcana.Vm.Bounded.{IsBounded, IsKept, kept_rules}

-- The machines that the loop of `arc_vm_run` and `arc_vm_continue` goes through.
pub data Reaches (pf : Platform) : Vm → Vm → Type 0 where
  stop : {vm : Vm} → Reaches pf vm vm
  next :
      {vm vm' vm'' : Vm}
      → vm.halted ≡ false
      → vm_step pf vm ≡ ok tt vm'
      → Reaches pf vm' vm''
      → Reaches pf vm vm''

init-IsBounded : (image : Image) (world : World) → IsBounded (vm_init image world)
unfolding vm_init
init-IsBounded image world = record {
  weak = record {
    fp = omega arith;
    globals = omega arith;
    handlers = omega arith;
    depth = λ i p. absurd (omega (arith, p));
  };
  sp = omega arith;
}

start_main-IsKept : (fn : FuncRecord) → IsKept (start_main fn)
unfolding start_main After
start_main-IsKept fn = record {
  at = λ vm b.
      After-if IsBounded IsBounded (ltb stack_max fn.local_count) _ _ (λ _. tt)
        λ room. record {
          weak = record {
            fp = omega arith;
            globals = b.weak.globals;
            handlers = b.weak.handlers;
            depth = b.weak.depth;
          };
          sp = omega tests;
        };
}

setup-IsKept : IsKept vm_setup_main
unfolding vm_setup_main
setup-IsKept = search (kept_rules, start_main-IsKept)

module _ {ℓ} {A : Type ℓ} where
  Kept-ok :
      {m : M A} {vm vm' : Vm} {a : A} → IsKept m → IsBounded vm → m vm ≡ ok a vm' → IsBounded vm'
  unfolding After
  Kept-ok {m} {vm} k b e = subst (After IsBounded IsBounded) e (k.at vm b)

module _ (pf : Platform) where
  along-IsBounded : (vm vm' : Vm) → IsBounded vm → Reaches pf vm vm' → IsBounded vm'
  along-IsBounded vm vm' b stop = b
  along-IsBounded vm vm' b (next {vm' = mid} h e r) =
      along-IsBounded mid vm' (Kept-ok (step-IsKept pf) b e) r

  -- On every image, where `main` starts, each machine that the loop goes through before an instruction
  -- fails, yields, waits for another thread or hands over to another machine keeps the stack, the
  -- frames, the globals and the handlers within their arrays, as well as the count of frames that each
  -- handler restores; and so does the machine that the instruction after it leaves, also one that
  -- yields, waits or is about to hand over.
  pub Reaches-IsBounded :
      (image : Image) (world : World) (start vm : Vm)
      → vm_setup_main (vm_init image world) ≡ ok tt start
      → Reaches pf start vm
      → IsBounded vm × After IsBounded IsBounded (vm_step pf vm)
  Reaches-IsBounded image world start vm e r =
      let b = along-IsBounded start vm (Kept-ok setup-IsKept (init-IsBounded image world) e) r in
      (b, (step-IsKept pf).at vm b)
