-- ===== src/Runtime/Channel.antt =====
-- The channels of src/runtime/concurrency.c. Each operation holds the channel's mutex from its
-- entry to its return but for the waits, so a call is one step on the ring, or it waits.
pub mod Fifo
pub mod Runs
use arcana.Common.{
  ℕ, zero, suc, ◌+◌, ◌-◌, ◌%◌, Bool, true, false, not, ◌&&◌, List, ltb, leb, ◌==◌, if◌then◌else◌,
  get_or, set, replicate,
}
use arcana.Runtime.Object.{Value, null, Ring}

-- The buffer comes from `calloc`: slots of tag 0, VAL_NULL.
unfoldable pub channel_new : ℕ → Ring
channel_new capacity =
    let size = if ltb 0 capacity then capacity else 1 in
    record {
      buffer = replicate size null;
      cap = size;
      head = 0;
      tail = 0;
      count = 0;
      closed = false;
    }

-- The test of the `while` loop keeps the sender waiting; the channel is closed (false); or the value
-- is stored (true).
pub data SendResult : Type 0 where
  send_waits send_closed : SendResult
  sent : Ring → SendResult

unfoldable pub channel_send : Ring → Value → SendResult
channel_send ch v =
    if leb ch.cap ch.count && not ch.closed
    then send_waits
    else if ch.closed
    then send_closed
    else sent (record ch {
      buffer = set ch.buffer ch.tail v;
      tail = (ch.tail + 1) % ch.cap;
      count = ch.count + 1;
    })

pub data RecvResult : Type 0 where
  recv_waits recv_closed : RecvResult
  received : Value → Ring → RecvResult

unfoldable pub channel_recv : Ring → RecvResult
channel_recv ch =
    if ch.count == 0 && not ch.closed
    then recv_waits
    else if ch.count == 0
    then recv_closed
    else received (get_or ch.buffer ch.head null)
        (record ch { head = (ch.head + 1) % ch.cap; count = ch.count - 1 })
