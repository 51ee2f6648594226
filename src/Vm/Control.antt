-- ===== src/Vm/Control.antt =====
-- The handlers of src/vm/vm.c: stack, locals, globals, branches, exceptions, calls and returns.
use Prim.Native.String.{String}
use arcana.Common.{
  ℕ, zero, suc, min, ◌+◌, ◌-◌, ◌%◌, Bool, true, false, not, ◌&&◌, List, ltb, leb, ◌==◌,
  if◌then◌else◌, get_elem?, inl, inr, ◌⊎◌,
}
use arcana.Runtime.Object.{Value, null, bool, i64, f64, string}
use arcana.Vm.State.{
  frames_max, globals_max, handler_max, word32, Frame, Handler, ok, fault, M, ◌>>=◌, ◌>>◌, pure,
  done, current, on_some, store, store_frame, store_handler, vm_error, vm_push, vm_pop,
  vm_read_byte, vm_read_u16, vm_read_i32, load, write, top_frame, func_at,
}
use arcana.Vm.Platform.{Platform, is_truthy, payload_of, new_object}
use arcana.Bytecode.Image.{FuncRecord}
use arcana.Bytecode.Pool
use arcana.Bytecode.Pool.{Constant}
use arcana.Vm.Closures.{closure_of, close_upvalues}
use arcana.Vm.Op.{
  Op, op_const, op_pop, op_dup, op_load_local, op_store_local, op_load_global, op_store_global,
  op_jump, op_jump_if_false, op_jump_if_true, op_try_begin, op_try_end, op_throw,
}

-- `(uint32_t)((int32_t)ip + offset)`, where `offset` is the pattern of the signed offset.
abbrev pub target : ℕ → ℕ → ℕ
target ip offset = (ip + offset) % word32

unfoldable pub set_ip : ℕ → M (Unit {0})
set_ip ip vm = ok tt (record vm { ip = ip })

unfoldable pub branch_if : (Bool → Bool) → ℕ → M (Unit {0})
branch_if taken offset = do
  cond ← vm_pop
  vm ← current
  if taken (is_truthy cond) then set_ip (target vm.ip offset) else done

unfoldable pub jump_by : ℕ → M (Unit {0})
jump_by offset = do vm ← current; set_ip (target vm.ip offset)

unfoldable pub vm_exec_branch : Op → M (Unit {0})
vm_exec_branch op_jump = vm_read_i32 >>= jump_by
vm_exec_branch op_jump_if_false = vm_read_i32 >>= branch_if not
vm_exec_branch op_jump_if_true = vm_read_i32 >>= branch_if (λ b. b)
vm_exec_branch _ = vm_read_i32 >> vm_error "bad branch op"

unfoldable pub push_handler : ℕ → M (Unit {0})
push_handler offset vm =
    if leb handler_max vm.handler_count
    then vm_error "handler stack overflow" vm
    else ok tt (record vm {
      handlers =
          store_handler vm.handlers vm.handler_count
            (record { catch_ip = target vm.ip offset; stack_height = vm.sp; frame_depth = vm.fp });
      handler_count = vm.handler_count + 1;
    })

unfoldable pub pop_handler : String → M Handler
pop_handler message vm =
    if vm.handler_count == 0
    then vm_error message vm
    else ok (vm.handlers (vm.handler_count - 1))
        (record vm { handler_count = vm.handler_count - 1 })

unfoldable pub unwind : Handler → M (Unit {0})
unwind h vm = ok tt (record vm { fp = h.frame_depth; sp = h.stack_height; ip = h.catch_ip })

unfoldable pub vm_exec_exception : Op → M (Unit {0})
vm_exec_exception op_try_begin = vm_read_i32 >>= push_handler
vm_exec_exception op_try_end = pop_handler "try_end: no handler to pop" >> done
vm_exec_exception op_throw = do
  thrown ← vm_pop
  h ← pop_handler "unhandled exception"
  unwind h
  vm_push thrown
vm_exec_exception _ = vm_error "bad exception op"

unfoldable pub push_frame : Frame → M (Unit {0})
push_frame frame vm =
    ok tt (record vm { frames = store_frame vm.frames vm.fp frame; fp = vm.fp + 1 })

unfoldable pub push_nulls : ℕ → M (Unit {0})
push_nulls zero = done
push_nulls (suc n) = vm_push null >> push_nulls n

-- The index 0xFFFF calls the closure below the arguments.
unfoldable pub callee_index : ℕ → ℕ → M ℕ
callee_index func_idx argc = do
  vm ← current
  if func_idx == 65535 && ltb argc vm.sp
      then (do
        callee_v ← load (vm.sp - argc - 1)
        p ← payload_of callee_v
        on_some (closure_of p) (λ (idx, _). pure idx) (pure func_idx))
      else pure func_idx

unfoldable pub enter : ℕ → ℕ → FuncRecord → M (Unit {0})
enter func_idx argc callee = do
  vm ← current
  if leb frames_max vm.fp
      then vm_error "call stack overflow"
      else if not (argc == callee.arity)
      then vm_error "arity mismatch: expected %u, got %u"
      else (do
        push_frame (record {
          func_idx = func_idx;
          return_ip = vm.ip;
          base_slot = (vm.sp + word32 - argc) % word32;
        })
        push_nulls (callee.local_count - argc)
        set_ip callee.code_offset)

unfoldable pub vm_exec_call : M (Unit {0})
vm_exec_call = do
  named ← vm_read_u16
  argc ← vm_read_byte
  _ ← vm_read_byte
  func_idx ← callee_index named argc
  vm ← current
  on_some (func_at vm func_idx) (enter func_idx argc) (vm_error "invalid function index %u")

unfoldable pub halt_with : M (Unit {0})
halt_with vm = ok tt (record vm { halted = true })

-- What follows the drop of the frame: the last one halts the machine.
unfoldable pub leave_frame : Frame → M Bool
leave_frame frame vm =
    if vm.fp == 1
    then ok true (record vm { fp = 0; sp = 0 })
    else ok false (record vm { fp = vm.fp - 1; sp = frame.base_slot; ip = frame.return_ip })

unfoldable pub vm_exec_return : M (Unit {0})
vm_exec_return = do
  result ← vm_pop
  frame ← top_frame
  close_upvalues frame.base_slot
  last ← leave_frame frame
  vm_push result
  if last then halt_with else done

abbrev pub value_of_constant : Constant → Value ⊎ List ℕ
value_of_constant Pool.null = inl null
value_of_constant (Pool.bool b) = inl (bool b)
value_of_constant (Pool.i64 n) = inl (i64 n)
value_of_constant (Pool.f64 x) = inl (f64 x)
value_of_constant (Pool.string s) = inr s

unfoldable pub vm_exec_dup : M (Unit {0})
vm_exec_dup = do
  vm ← current
  if vm.sp == 0 then vm_error "dup: empty stack" else load (vm.sp - 1) >>= vm_push

unfoldable pub vm_exec_load_local : M (Unit {0})
vm_exec_load_local = do
  slot ← vm_read_u16
  frame ← top_frame
  v ← load ((frame.base_slot + slot) % word32)
  vm_push v

unfoldable pub vm_exec_store_local : M (Unit {0})
vm_exec_store_local = do
  slot ← vm_read_u16
  v ← vm_pop
  frame ← top_frame
  write ((frame.base_slot + slot) % word32) v

-- `globals[i] = v`, and the count where it is at most `i`.
unfoldable pub write_global : ℕ → Value → M (Unit {0})
write_global i v vm = ok tt (record vm {
  globals = store vm.globals i v;
  global_count = if leb vm.global_count i then i + 1 else vm.global_count;
})

unfoldable pub read_global : ℕ → M Value
read_global i vm = if ltb i globals_max then ok (vm.globals i) vm else fault

-- The rounds of the loop that appends null globals.
unfoldable pub append_globals : ℕ → M (Unit {0})
append_globals zero = done
append_globals (suc n) = do
  vm ← current
  if ltb vm.global_count globals_max then write_global vm.global_count null else done
  append_globals n

unfoldable pub vm_exec_load_global : M (Unit {0})
vm_exec_load_global = do
  idx ← vm_read_u16
  vm ← current
  append_globals (min (idx + 1) globals_max - vm.global_count)
  if leb globals_max idx
      then vm_error "global index %u out of bounds"
      else read_global idx >>= vm_push

unfoldable pub vm_exec_store_global : M (Unit {0})
vm_exec_store_global = do
  idx ← vm_read_u16
  v ← vm_pop
  if leb globals_max idx then vm_error "global index %u out of bounds" else write_global idx v

module _ (pf : Platform) where
  unfoldable pub vm_const_to_val : Constant → M Value
  vm_const_to_val c = elim (value_of_constant c) [
    | inl v ↦ pure v
    | inr s ↦ new_object pf (string s)
  ]

  unfoldable pub vm_exec_const : M (Unit {0})
  vm_exec_const = do
    idx ← vm_read_u16
    vm ← current
    v ←
        on_some (get_elem? vm.image.constants.items idx) vm_const_to_val
          (vm_error "invalid constant index %u")
    vm_push v

  unfoldable pub vm_exec_stack_local_global : Op → M (Unit {0})
  vm_exec_stack_local_global op_const = vm_exec_const
  vm_exec_stack_local_global op_pop = vm_pop >> done
  vm_exec_stack_local_global op_dup = vm_exec_dup
  vm_exec_stack_local_global op_load_local = vm_exec_load_local
  vm_exec_stack_local_global op_store_local = vm_exec_store_local
  vm_exec_stack_local_global op_load_global = vm_exec_load_global
  vm_exec_stack_local_global op_store_global = vm_exec_store_global
  vm_exec_stack_local_global _ = vm_error "bad stack/local/global op"
