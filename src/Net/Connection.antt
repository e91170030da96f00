-- ===== src/Net/Connection.antt =====
-- `tcp_connection` of network/net/tcp_connect.hpp: the state that its handlers share on one
-- io_service, and each handler as a function to the new state and the effects in their order.
-- Results of the socket are arguments; the coroutine of a call is the number of its handler; a
-- message is a value, so a message that is written by two connections at once is not covered.
pub mod Lifecycle
pub mod Calls
pub mod Timeout
pub mod Writing
pub mod Draining
mod Tests
use network_core.Common.{
  ℕ, ◌+◌, ◌*◌, ◌%◌, ◌^◌, Bool, true, false, not, ◌&&◌, ◌||◌, Option, none, some, List, [], ◌∷◌,
  ◌++◌, map, ltb, leb, ◌==◌, if◌then◌else◌, length, drop,
}
use network_core.Net.Batch
use network_core.Net.Batch.{Batch}
use network_core.Net.Errors.{ErrorCode, timeout, recv_error, send_error}
use network_core.Net.Reader
use network_core.Net.Reader.{Msg, Reader}
use network_core.Net.Wire.{HeaderType}

pub record Connection (H : Type 0) : Type 0 where
  pub received_msg : Bool
  pub is_running : Bool
  pub force_close_error : Bool
  -- connection_options
  pub disconnect_interval : ℕ
  pub batch_send_msg : Bool
  pub write_msg_queue : List (Msg H)
  pub batch_msg : Option (Batch (Msg H))
  pub reader : Reader H
  pub cur_call_id : ℕ
  pub calls : List (ℕ × ℕ)

pub data Effect (H : Type 0) : Type 0 where
  -- `ios_.post` of a member function
  post_close : Effect H
  post_write : Msg H → Effect H
  post_await_write : Msg H → ℕ → Effect H
  -- `async_write`, to be followed by handle_write or by handle_write_batch
  write : List (Msg H) → Effect H
  write_batch : List (Msg H) → Effect H
  -- `async_read` into the buffer: the place and the size
  read : ℕ → ℕ → Effect H
  -- the router's callbacks and a handler that is resumed
  on_connect : Bool → Effect H
  on_disconnect : ErrorCode → Effect H
  on_receive_msgs : List (Msg H) → Effect H
  resume : ℕ → Msg H → Effect H
  set_timer : ℕ → Effect H
  stop_timers shutdown_socket close_socket connect_socket : Effect H

-- the field `call_id` of a header
pub record CallIds (H : Type 0) : Type 0 where
  pub call_id : H → ℕ
  pub with_call_id : H → ℕ → H

-- `calls_`, a std::map: `emplace` leaves an entry that is there
unfoldable pub find_call : ℕ → List (ℕ × ℕ) → Option ℕ
find_call id [] = none
find_call id ((k, h) ∷ calls) = if k == id then some h else find_call id calls

unfoldable pub erase_call : ℕ → List (ℕ × ℕ) → List (ℕ × ℕ)
erase_call id [] = []
erase_call id ((k, h) ∷ calls) = if k == id then calls else (k, h) ∷ erase_call id calls

unfoldable pub emplace_call : ℕ → ℕ → List (ℕ × ℕ) → List (ℕ × ℕ)
unfolding find_call
emplace_call id h calls = elim (find_call id calls) [ some _ ↦ calls | none ↦ (id, h) ∷ calls ]

module _ {H : Type 0} (ops : HeaderType H) where
  unfoldable pub hton : Msg H → Msg H
  hton m = record m { header = ops.hton m.header }

  unfoldable pub total_length : Msg H → ℕ
  total_length m = (ops.size + ops.length_of m.header) % 2 ^ 32

  unfoldable pub on_error : ErrorCode → Connection H → Connection H × List (Effect H)
  on_error e c =
      if not c.is_running
      then (c, [])
      else (record c { is_running = false }, stop_timers ∷ on_disconnect e ∷ [])

  -- the batch of `async_write_msg`, which has no limit
  pub write_as_batch : List (Msg H) → Connection H → Connection H × List (Effect H)
  unfolding on_error hton total_length
  write_as_batch queue c =
      let (b, rest) = Batch.fill total_length (Batch.new_batch 0 0) queue in
      let c' = record c { batch_msg = some b; write_msg_queue = rest } in
      let sent = Batch.convert hton b in
      if Batch.empty b
      then on_error send_error c'
      else (record c' { batch_msg = some sent }, write_batch sent.msgs ∷ [])

  pub write_queue : List (Msg H) → Connection H → Connection H × List (Effect H)
  unfolding write_as_batch
  write_queue [] c = (c, [])
  write_queue (m ∷ queue) c =
      if not c.batch_send_msg || length (m ∷ queue) == 1
      then (record c { write_msg_queue = hton m ∷ queue }, write (hton m ∷ []) ∷ [])
      else write_as_batch (m ∷ queue) c

  unfoldable pub async_write_msg : Connection H → Connection H × List (Effect H)
  unfolding write_queue
  async_write_msg c = write_queue c.write_msg_queue c

  -- `!(write_msg_queue_.empty() && batch_msg_ptr_ == nullptr)`
  abbrev pub write_in_progress : List (Msg H) → Option (Batch (Msg H)) → Bool
  write_in_progress [] none = false
  write_in_progress _ _ = true

  unfoldable pub do_write : Msg H → Connection H → Connection H × List (Effect H)
  do_write m c =
      let queued = record c { write_msg_queue = c.write_msg_queue ++ m ∷ [] } in
      if not c.is_running
      then (c, [])
      else if write_in_progress c.write_msg_queue c.batch_msg
      then (queued, [])
      else async_write_msg queued

  -- the message is taken off the queue; its header is back in host order
  unfoldable pub handle_write : Bool → Connection H → Connection H × List (Effect H)
  unfolding on_error
  handle_write err c =
      if not c.is_running
      then (c, [])
      else if err
      then on_error send_error c
      else async_write_msg (record c { write_msg_queue = drop 1 c.write_msg_queue })

  unfoldable pub handle_write_batch : Bool → Connection H → Connection H × List (Effect H)
  unfolding on_error
  handle_write_batch err c =
      if not c.is_running
      then (c, [])
      else if err
      then on_error send_error c
      else async_write_msg (record c { batch_msg = none })

  unfoldable pub handle_timer : Connection H → Connection H × List (Effect H)
  unfolding on_error
  handle_timer c = if not c.received_msg then on_error timeout c else (c, [])

  unfoldable pub async_sequence_read : Connection H → Connection H × List (Effect H)
  async_sequence_read c =
      let ((place, size), r) = Reader.prepare_next_recv ops c.reader in
      if not c.is_running
      then (c, [])
      else if ltb 0 size
      then (record c { reader = r; received_msg = true }, read place size ∷ [])
      else (record c { reader = r }, [])
