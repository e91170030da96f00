-- ===== src/Net/Connection/Lifecycle.antt =====
-- `tcp_connection`: opening, reading, calls that wait for a reply, and closing.
use network_core.Common.{
  ℕ, ◌+◌, ◌*◌, ◌%◌, ◌^◌, Bool, true, false, not, ◌||◌, Option, none, some, List, [], ◌∷◌, ◌++◌, ltb,
  ◌==◌, if◌then◌else◌,
}
use network_core.Net.Connection.{
  Connection, Effect, CallIds, find_call, erase_call, emplace_call, on_error, do_write,
  async_sequence_read, post_close, post_write, post_await_write, on_connect, on_receive_msgs,
  resume, set_timer, stop_timers, shutdown_socket, close_socket, connect_socket,
}
use network_core.Net.Errors.{recv_error}
use network_core.Net.Reader
use network_core.Net.Reader.{Msg, Reader}
use network_core.Net.Wire.{HeaderType}

module _ {H : Type 0} (ops : HeaderType H) where
  unfoldable pub reset_state : Connection H → Connection H
  reset_state c = record c {
    received_msg = false;
    is_running = true;
    force_close_error = false;
    write_msg_queue = [];
    reader = Reader.reset ops c.reader;
    batch_msg = none;
  }

  start_timer : Connection H → List (Effect H)
  start_timer c =
      if ltb 0 c.disconnect_interval then set_timer (c.disconnect_interval * 1000) ∷ [] else []

  -- `unconnected` is the error of `remote_endpoint`
  unfoldable pub start : Bool → Connection H → (Bool × Connection H) × List (Effect H)
  unfolding reset_state start_timer
  start unconnected c =
      let (c', read) = async_sequence_read ops (reset_state c) in
      if unconnected then ((false, c), []) else ((true, c'), read ++ start_timer c')

  -- the arguments: is the socket open, and does `connect` fail
  unfoldable pub connect : Bool → Bool → Connection H → Connection H × List (Effect H)
  unfolding start
  connect is_open failed c =
      let opening = (if is_open then close_socket ∷ [] else []) ++ connect_socket ∷ [] in
      let ((_, c'), started) = start false c in
      if failed then (c, opening) else (c', opening ++ started)

  unfoldable pub async_connect : Bool → Connection H → List (Effect H)
  async_connect is_open c =
      if c.is_running
      then []
      else (if is_open then close_socket ∷ [] else []) ++ connect_socket ∷ []

  -- `start()` runs whatever the result of the connect was
  unfoldable pub handle_connect : Bool → Bool → Connection H → Connection H × List (Effect H)
  unfolding start
  handle_connect err unconnected c =
      let ((_, c'), started) = start unconnected c in (c', started ++ on_connect err ∷ [])

  unfoldable pub close : Connection H → List (Effect H)
  close c = if not c.force_close_error then post_close ∷ [] else []

  unfoldable pub do_close : Connection H → Connection H × List (Effect H)
  do_close c = if c.force_close_error then (c, []) else (
    record c { write_msg_queue = []; force_close_error = true; is_running = false },
    stop_timers ∷ shutdown_socket ∷ close_socket ∷ [],
  )

  unfoldable pub write : Msg H → Connection H → List (Effect H)
  write m c = if not c.is_running then [] else post_write m ∷ []

  -- false: nullptr is returned at once
  unfoldable pub await_write : Msg H → ℕ → Connection H → Bool × List (Effect H)
  await_write m handler c =
      if not c.is_running then (false, []) else (true, post_await_write m handler ∷ [])

  module _ (ids : CallIds H) where
    -- the call id that the message gets, and the counter afterwards
    unfoldable pub assign_call_id : Msg H → ℕ → ℕ × ℕ
    assign_call_id m counter =
        let next = (counter + 1) % 2 ^ 32 in
        if ids.call_id m.header == 0 then (next, next) else (ids.call_id m.header, counter)

    unfoldable pub do_await_write : Msg H → ℕ → Connection H → Connection H × List (Effect H)
    unfolding assign_call_id
    do_await_write m handler c =
        let (id, counter) = assign_call_id m c.cur_call_id in
        if not c.is_running
        then (c, [])
        else do_write ops (record m { header = ids.with_call_id m.header id })
            (record c { cur_call_id = counter; calls = emplace_call id handler c.calls })

    -- one message of the loop: a handler that waits for its call id gets it, else it is forwarded
    unfoldable pub dispatch : Msg H → List (ℕ × ℕ) → List (ℕ × ℕ) × List (Effect H) × List (Msg H)
    dispatch m calls =
        let id = ids.call_id m.header in
        elim (if ltb 0 id then find_call id calls else none) [
          | none ↦ (calls, [], m ∷ [])
          | some handler ↦ (erase_call id calls, resume handler m ∷ [], [])
        ]

    unfoldable pub dispatch_all :
        List (Msg H) → List (ℕ × ℕ) → List (ℕ × ℕ) × List (Effect H) × List (Msg H)
    unfolding dispatch
    dispatch_all [] calls = (calls, [], [])
    dispatch_all (m ∷ ms) calls =
        let (calls₁, out₁, new₁) = dispatch m calls in
        let (calls₂, out₂, new₂) = dispatch_all ms calls₁ in (calls₂, out₁ ++ out₂, new₁ ++ new₂)

    forward : List (Msg H) → List (Effect H)
    forward [] = []
    forward (m ∷ ms) = on_receive_msgs (m ∷ ms) ∷ []

    any_msg : List (Msg H) → Bool
    any_msg [] = false
    any_msg (m ∷ ms) = true

    -- for headers that have a call id
    unfoldable pub receive_msgs : List (Msg H) → Connection H → Connection H × List (Effect H)
    unfolding dispatch_all forward any_msg
    receive_msgs ms c =
        let (calls, out, new_msgs) = dispatch_all ms c.calls in
        (
          record c { calls = calls; received_msg = c.received_msg || any_msg ms },
          out ++ forward new_msgs,
        )

    unfoldable pub handle_sequence_read :
        Bool → ℕ → Connection H → Option (Connection H × List (Effect H))
    unfolding receive_msgs
    handle_sequence_read err bytes_transfered c =
        if err || bytes_transfered == 0 || not (Reader.valid ops c.reader)
        then some (on_error ops recv_error c)
        else elim (Reader.parse ops bytes_transfered c.reader) [
          | none ↦ none
          | some (has_msg, r) ↦
              let (c₁, out₁) = receive_msgs r.msg_list (record c { reader = r }) in
              let (c₂, out₂) = async_sequence_read ops c₁ in
              let reset = record c { reader = Reader.reset ops r } in
              some (if has_msg then (c₂, out₁ ++ out₂) else async_sequence_read ops reset)
        ]
