-- ===== src/Vm/Op.antt =====
-- The opcodes of src/bytecode/opcodes.h as a type, with their bytes.
use arcana.Common.{ℕ, ◌≡◌, refl, Option, none, some, List, [], ◌∷◌, ◌==◌, if◌then◌else◌}

-- The enumeration that the table generates.
pub data Op : Type 0 where
  op_const op_pop op_dup op_load_local op_store_local op_load_global : Op
  op_store_global op_cast_i64 op_cast_f64 op_cast_str op_add op_sub : Op
  op_mul op_div op_mod op_neg op_str_len op_str_slice : Op
  op_str_index op_bit_and op_bit_or op_bit_xor op_bit_not op_shl : Op
  op_shr op_eq op_neq op_lt op_le op_gt : Op
  op_ge op_not op_jump op_jump_if_false op_jump_if_true op_try_begin : Op
  op_try_end op_throw op_call op_return op_closure op_get_upval : Op
  op_set_upval op_close_upval op_array_new op_index_get op_index_set op_length : Op
  op_map_new op_record_new op_field_get op_field_set op_coro_new op_coro_resume : Op
  op_coro_yield op_coro_status op_thread_spawn op_thread_join op_mutex_new op_mutex_lock : Op
  op_mutex_unlock op_chan_new op_chan_send op_chan_recv op_intrinsic op_halt : Op

unfoldable pub op_byte : Op → ℕ
op_byte op_const = 0x01
op_byte op_pop = 0x02
op_byte op_dup = 0x03
op_byte op_load_local = 0x10
op_byte op_store_local = 0x11
op_byte op_load_global = 0x12
op_byte op_store_global = 0x13
op_byte op_cast_i64 = 0x14
op_byte op_cast_f64 = 0x15
op_byte op_cast_str = 0x16
op_byte op_add = 0x20
op_byte op_sub = 0x21
op_byte op_mul = 0x22
op_byte op_div = 0x23
op_byte op_mod = 0x24
op_byte op_neg = 0x25
op_byte op_str_len = 0x26
op_byte op_str_slice = 0x27
op_byte op_str_index = 0x28
op_byte op_bit_and = 0x29
op_byte op_bit_or = 0x2a
op_byte op_bit_xor = 0x2b
op_byte op_bit_not = 0x2c
op_byte op_shl = 0x2d
op_byte op_shr = 0x2e
op_byte op_eq = 0x30
op_byte op_neq = 0x31
op_byte op_lt = 0x32
op_byte op_le = 0x33
op_byte op_gt = 0x34
op_byte op_ge = 0x35
op_byte op_not = 0x36
op_byte op_jump = 0x40
op_byte op_jump_if_false = 0x41
op_byte op_jump_if_true = 0x42
op_byte op_try_begin = 0x43
op_byte op_try_end = 0x44
op_byte op_throw = 0x45
op_byte op_call = 0x50
op_byte op_return = 0x51
op_byte op_closure = 0x52
op_byte op_get_upval = 0x53
op_byte op_set_upval = 0x54
op_byte op_close_upval = 0x55
op_byte op_array_new = 0x60
op_byte op_index_get = 0x61
op_byte op_index_set = 0x62
op_byte op_length = 0x63
op_byte op_map_new = 0x64
op_byte op_record_new = 0x65
op_byte op_field_get = 0x66
op_byte op_field_set = 0x67
op_byte op_coro_new = 0x70
op_byte op_coro_resume = 0x71
op_byte op_coro_yield = 0x72
op_byte op_coro_status = 0x73
op_byte op_thread_spawn = 0x74
op_byte op_thread_join = 0x75
op_byte op_mutex_new = 0x76
op_byte op_mutex_lock = 0x77
op_byte op_mutex_unlock = 0x78
op_byte op_chan_new = 0x79
op_byte op_chan_send = 0x7a
op_byte op_chan_recv = 0x7b
op_byte op_intrinsic = 0xf0
op_byte op_halt = 0xff

abbrev all_ops : List Op
all_ops =
    op_const ∷ op_pop ∷ op_dup ∷ op_load_local ∷ op_store_local ∷ op_load_global ∷ op_store_global
    ∷ op_cast_i64 ∷ op_cast_f64 ∷ op_cast_str ∷ op_add ∷ op_sub ∷ op_mul ∷ op_div ∷ op_mod ∷ op_neg
    ∷ op_str_len ∷ op_str_slice ∷ op_str_index ∷ op_bit_and ∷ op_bit_or ∷ op_bit_xor ∷ op_bit_not
    ∷ op_shl ∷ op_shr ∷ op_eq ∷ op_neq ∷ op_lt ∷ op_le ∷ op_gt ∷ op_ge ∷ op_not ∷ op_jump
    ∷ op_jump_if_false ∷ op_jump_if_true ∷ op_try_begin ∷ op_try_end ∷ op_throw ∷ op_call
    ∷ op_return ∷ op_closure ∷ op_get_upval ∷ op_set_upval ∷ op_close_upval ∷ op_array_new
    ∷ op_index_get ∷ op_index_set ∷ op_length ∷ op_map_new ∷ op_record_new ∷ op_field_get
    ∷ op_field_set ∷ op_coro_new ∷ op_coro_resume ∷ op_coro_yield ∷ op_coro_status ∷ op_thread_spawn
    ∷ op_thread_join ∷ op_mutex_new ∷ op_mutex_lock ∷ op_mutex_unlock ∷ op_chan_new ∷ op_chan_send
    ∷ op_chan_recv ∷ op_intrinsic ∷ op_halt ∷ []

abbrev find_byte : List Op → ℕ → Option Op
unfolding op_byte
find_byte [] b = none
find_byte (o ∷ os) b = let rest = find_byte os b in if op_byte o == b then some o else rest

-- The labels of the switch of `vm_dispatch`: the opcode of a byte, `none` for its `default`.
unfoldable pub decode : ℕ → Option Op
unfolding op_byte
decode b = find_byte all_ops b

pub decode-op_byte : (o : Op) → decode (op_byte o) ≡ some o
unfolding decode op_byte
decode-op_byte op_const = refl
decode-op_byte op_pop = refl
decode-op_byte op_dup = refl
decode-op_byte op_load_local = refl
decode-op_byte op_store_local = refl
decode-op_byte op_load_global = refl
decode-op_byte op_store_global = refl
decode-op_byte op_cast_i64 = refl
decode-op_byte op_cast_f64 = refl
decode-op_byte op_cast_str = refl
decode-op_byte op_add = refl
decode-op_byte op_sub = refl
decode-op_byte op_mul = refl
decode-op_byte op_div = refl
decode-op_byte op_mod = refl
decode-op_byte op_neg = refl
decode-op_byte op_str_len = refl
decode-op_byte op_str_slice = refl
decode-op_byte op_str_index = refl
decode-op_byte op_bit_and = refl
decode-op_byte op_bit_or = refl
decode-op_byte op_bit_xor = refl
decode-op_byte op_bit_not = refl
decode-op_byte op_shl = refl
decode-op_byte op_shr = refl
decode-op_byte op_eq = refl
decode-op_byte op_neq = refl
decode-op_byte op_lt = refl
decode-op_byte op_le = refl
decode-op_byte op_gt = refl
decode-op_byte op_ge = refl
decode-op_byte op_not = refl
decode-op_byte op_jump = refl
decode-op_byte op_jump_if_false = refl
decode-op_byte op_jump_if_true = refl
decode-op_byte op_try_begin = refl
decode-op_byte op_try_end = refl
decode-op_byte op_throw = refl
decode-op_byte op_call = refl
decode-op_byte op_return = refl
decode-op_byte op_closure = refl
decode-op_byte op_get_upval = refl
decode-op_byte op_set_upval = refl
decode-op_byte op_close_upval = refl
decode-op_byte op_array_new = refl
decode-op_byte op_index_get = refl
decode-op_byte op_index_set = refl
decode-op_byte op_length = refl
decode-op_byte op_map_new = refl
decode-op_byte op_record_new = refl
decode-op_byte op_field_get = refl
decode-op_byte op_field_set = refl
decode-op_byte op_coro_new = refl
decode-op_byte op_coro_resume = refl
decode-op_byte op_coro_yield = refl
decode-op_byte op_coro_status = refl
decode-op_byte op_thread_spawn = refl
decode-op_byte op_thread_join = refl
decode-op_byte op_mutex_new = refl
decode-op_byte op_mutex_lock = refl
decode-op_byte op_mutex_unlock = refl
decode-op_byte op_chan_new = refl
decode-op_byte op_chan_send = refl
decode-op_byte op_chan_recv = refl
decode-op_byte op_intrinsic = refl
decode-op_byte op_halt = refl
