-- ===== src/Vm/Concurrency.antt =====
-- The mutexes and channels of src/vm/vm_concurrency.c, and the yield of a coroutine. A waiting call
-- leaves the machine `blocked` in its instruction.
use arcana.Common.{ℕ, Bool, true, false, Option, none, some, ltb, if◌then◌else◌}
use arcana.Runtime.Object.{Value, null, obj, Payload, mutex, channel}
use arcana.Vm.State.{
  yielding, blocked, elsewhere, M, ◌>>=◌, ◌>>◌, pure, broken, on_some, vm_error, vm_push, vm_pop,
  vm_read_u16,
}
use arcana.Vm.Platform.{Platform, payload_of, update_object, pointer_of, allocate}
use arcana.Runtime.Object.{Ring}
use arcana.Runtime.Channel.{
  channel_new, SendResult, send_waits, send_closed, sent, channel_send, RecvResult, recv_waits,
  recv_closed, received, channel_recv,
}
use arcana.Vm.Values.{unary}
use arcana.Vm.Op.{
  Op, op_coro_new, op_coro_resume, op_coro_yield, op_coro_status, op_thread_spawn, op_thread_join,
  op_mutex_new, op_mutex_lock, op_mutex_unlock, op_chan_new, op_chan_send, op_chan_recv,
}

unfoldable pub leave : M (Unit {0})
leave vm = elsewhere vm

unfoldable pub wait : M (Unit {0})
wait vm = blocked vm

abbrev pub mutex_of : Option Payload → Option Bool
mutex_of (some (mutex locked)) = some locked
mutex_of _ = none

abbrev pub channel_of : Option Payload → Option Ring
channel_of (some (channel ch)) = some ch
channel_of _ = none

unfoldable pub set_yielded : Value → M (Unit {0})
set_yielded v vm = yielding (record vm { yielded = v })

unfoldable pub vm_exec_coro_yield : M (Unit {0})
vm_exec_coro_yield = do val ← vm_pop; set_yielded val

unfoldable pub vm_exec_mutex_lock : M (Unit {0})
vm_exec_mutex_lock = do
  m_val ← vm_pop
  p ← payload_of m_val
  on_some (mutex_of p)
      (λ locked. if locked then wait else update_object (pointer_of m_val) (mutex true))
      (vm_error "mutex_lock: not a mutex")

-- The unlock of a mutex that is not locked is undefined.
unfoldable pub vm_exec_mutex_unlock : M (Unit {0})
vm_exec_mutex_unlock = do
  m_val ← vm_pop
  p ← payload_of m_val
  on_some (mutex_of p)
      (λ locked. if locked then update_object (pointer_of m_val) (mutex false) else broken)
      (vm_error "mutex_unlock: not a mutex")

unfoldable pub after_send : Option ℕ → SendResult → M (Unit {0})
after_send o send_waits = wait
after_send o send_closed = vm_error "chan_send: channel closed"
after_send o (sent ch) = update_object o (channel ch)

unfoldable pub vm_exec_chan_send : M (Unit {0})
vm_exec_chan_send = do
  val ← vm_pop
  ch_val ← vm_pop
  p ← payload_of ch_val
  on_some (channel_of p) (λ ch. after_send (pointer_of ch_val) (channel_send ch val))
      (vm_error "chan_send: not a channel")

unfoldable pub after_recv : Option ℕ → RecvResult → M Value
after_recv o recv_waits = wait >> pure null
after_recv o recv_closed = pure null
after_recv o (received v ch) = update_object o (channel ch) >> pure v

unfoldable pub vm_exec_chan_recv : M (Unit {0})
vm_exec_chan_recv = unary λ ch_val. do
  p ← payload_of ch_val
  on_some (channel_of p) (λ ch. after_recv (pointer_of ch_val) (channel_recv ch))
      (vm_error "chan_recv: not a channel")

module _ (pf : Platform) where
  -- The constructors of a mutex and a channel, with the test for NULL.
  unfoldable pub vm_exec_mutex_new : M (Unit {0})
  vm_exec_mutex_new = do
    a ← allocate pf (mutex false)
    m ← on_some a (λ p. pure (obj (some p))) (vm_error "mutex_new: allocation failed")
    vm_push m

  unfoldable pub vm_exec_chan_new : M (Unit {0})
  vm_exec_chan_new = do
    cap ← vm_read_u16
    a ← allocate pf (channel (channel_new (if ltb 0 cap then cap else 1)))
    ch ← on_some a (λ p. pure (obj (some p))) (vm_error "chan_new: allocation failed")
    vm_push ch

  -- Five instructions run another machine or read its state.
  unfoldable pub vm_exec_concurrency : Op → M (Unit {0})
  vm_exec_concurrency op_coro_new = leave
  vm_exec_concurrency op_coro_resume = leave
  vm_exec_concurrency op_coro_yield = vm_exec_coro_yield
  vm_exec_concurrency op_coro_status = leave
  vm_exec_concurrency op_thread_spawn = leave
  vm_exec_concurrency op_thread_join = leave
  vm_exec_concurrency op_mutex_new = vm_exec_mutex_new
  vm_exec_concurrency op_mutex_lock = vm_exec_mutex_lock
  vm_exec_concurrency op_mutex_unlock = vm_exec_mutex_unlock
  vm_exec_concurrency op_chan_new = vm_exec_chan_new
  vm_exec_concurrency op_chan_send = vm_exec_chan_send
  vm_exec_concurrency op_chan_recv = vm_exec_chan_recv
  vm_exec_concurrency _ = vm_error "bad concurrency op 0x%02X"
