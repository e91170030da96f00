-- ===== src/Net/Connection/Timeout.antt =====
-- The handlers as steps of one connection, and its idle timer.
use network_core.Common.{
  ℕ, ◌≡◌, refl, Bool, true, false, ◌||◌, not, none, some, List, [], ◌∷◌, ◌++◌, arith, drop,
  Option-cases, Bool-cases, inl, inr, ◌==◌,
}
use network_core.Net.Connection.{
  Connection, Effect, CallIds, emplace_call, on_error, write_as_batch, write_queue, async_write_msg,
  do_write, handle_write, handle_write_batch, handle_timer, async_sequence_read,
}
use network_core.Net.Connection.Lifecycle.{
  reset_state, start, connect, handle_connect, do_close, assign_call_id, do_await_write,
  receive_msgs, handle_sequence_read,
}
use network_core.Net.Errors.{ErrorCode, timeout, recv_error, send_error}
use network_core.Net.Reader
use network_core.Net.Reader.{Msg, Reader}
use network_core.Net.Wire.{HeaderType}

module _ {H : Type 0} (ops : HeaderType H) (ids : CallIds H) where
  -- what the io_service may run next, with the results that the socket may give
  pub data Step (c : Connection H) : Connection H → Type 0 where
    started : (unconnected : Bool) → Step c (start ops unconnected c).0.1
    connected : (is_open failed : Bool) → Step c (connect ops is_open failed c).0
    connect_done : (err unconnected : Bool) → Step c (handle_connect ops err unconnected c).0
    closed : Step c (do_close ops c).0
    queued : (m : Msg H) → Step c (do_write ops m c).0
    called : (m : Msg H) (handler : ℕ) → Step c (do_await_write ops ids m handler c).0
    written : (err : Bool) → Step c (handle_write ops err c).0
    batch_written : (err : Bool) → Step c (handle_write_batch ops err c).0
    ticked : Step c (handle_timer ops c).0
    -- the buffer and the header change while a read is under way
    filled : (r : Reader H) → Step c (record c { reader = r })
    received :
        (err : Bool) (n : ℕ) {c' : Connection H} {out : List (Effect H)}
        → handle_sequence_read ops ids err n c ≡ some (c', out)
        → Step c c'

  pub data Reach (c : Connection H) : Connection H → Type 0 where
    here : Reach c c
    next : {d e : Connection H} → Reach c d → Step d e → Reach c e

  -- a running connection has `received_msg_` set
  abbrev pub Heard : Connection H → Type 0
  Heard c = c.is_running ≡ true → c.received_msg ≡ true

  on_error-Heard : (e : ErrorCode) (c : Connection H) → Heard c → Heard (on_error ops e c).0
  unfolding on_error
  on_error-Heard e c h = ground arith

  write_queue-Heard :
      (queue : List (Msg H)) (c : Connection H) → Heard c → Heard (write_queue ops queue c).0
  unfolding write_queue write_as_batch
  write_queue-Heard [] c h = h
  write_queue-Heard (m ∷ queue) c h = ground arith

  async_write_msg-Heard : (c : Connection H) → Heard c → Heard (async_write_msg ops c).0
  unfolding async_write_msg
  async_write_msg-Heard c h = write_queue-Heard c.write_msg_queue c h

  do_write-Heard : (m : Msg H) (c : Connection H) → Heard c → Heard (do_write ops m c).0
  unfolding do_write
  do_write-Heard m c h =
      ground
        (arith, async_write_msg-Heard (record c { write_msg_queue = c.write_msg_queue ++ m ∷ [] }))

  async_sequence_read-Heard : (c : Connection H) → Heard c → Heard (async_sequence_read ops c).0
  unfolding async_sequence_read
  async_sequence_read-Heard c h = ground arith

  start-Heard :
      (unconnected : Bool) (c : Connection H) → Heard c → Heard (start ops unconnected c).0.1
  unfolding start reset_state async_sequence_read Reader.reset Reader.prepare_next_recv
  start-Heard true c h = h
  start-Heard false c h = λ _. refl

  handle_sequence_read-Heard :
      (err : Bool) (n : ℕ) (c : Connection H) {c' : Connection H} {out : List (Effect H)}
      → handle_sequence_read ops ids err n c ≡ some (c', out)
      → Heard c
      → Heard c'
  unfolding handle_sequence_read receive_msgs
  handle_sequence_read-Heard err n c e h =
      elim (Bool-cases (err || n == 0 || not (Reader.valid ops c.reader))) [
        | inl bad ↦ ground (arith, on_error-Heard recv_error c h)
        | inr good ↦ elim (Option-cases (Reader.parse ops n c.reader)) [
          | inl none_ ↦ ground arith
          | inr ((has_msg, r), parsed) ↦ ground (
            arith,
            async_sequence_read-Heard (record c { reader = Reader.reset ops r }) h,
            async_sequence_read-Heard (receive_msgs ops ids r.msg_list (record c { reader = r })).0,
          )
        ]
      ]

  Step-Heard : {c d : Connection H} → Step c d → Heard c → Heard d
  unfolding connect handle_connect do_close do_await_write handle_write handle_write_batch
      handle_timer
  Step-Heard {c} (started u) h = start-Heard u c h
  Step-Heard {c} (connected is_open failed) h = ground (arith, start-Heard false c h)
  Step-Heard {c} (connect_done err u) h = start-Heard u c h
  Step-Heard closed h = ground arith
  Step-Heard {c} (queued m) h = do_write-Heard m c h
  Step-Heard {c} (called m handler) h =
      let a = assign_call_id ops ids m c.cur_call_id in
      ground (
        arith,
        do_write-Heard (record m { header = ids.with_call_id m.header a.0 })
            (record c { cur_call_id = a.1; calls = emplace_call a.0 handler c.calls }) h,
      )
  Step-Heard {c} (written err) h = ground (
    arith,
    on_error-Heard send_error c h,
    async_write_msg-Heard (record c { write_msg_queue = drop 1 c.write_msg_queue }),
  )
  Step-Heard {c} (batch_written err) h =
      ground (
        arith,
        on_error-Heard send_error c h,
        async_write_msg-Heard (record c { batch_msg = none }),
      )
  Step-Heard {c} ticked h = ground (arith, on_error-Heard timeout c h)
  Step-Heard (filled r) h = h
  Step-Heard {c} (received err n e) h = handle_sequence_read-Heard err n c e h

  Reach-Heard : {c d : Connection H} → Reach c d → Heard c → Heard d
  Reach-Heard here h = h
  Reach-Heard (next r s) h = Step-Heard s (Reach-Heard r h)

  -- The idle timer never does anything: from a connection that is not running, whatever its
  -- handlers do and in whatever order, `handle_timer` has no effect and changes nothing, also when
  -- no message has arrived since the connection was opened.
  pub handle_timer_idle :
      (c d : Connection H) → c.is_running ≡ false → Reach c d → handle_timer ops d ≡ (d, [])
  unfolding handle_timer on_error
  handle_timer_idle c d off r = ground (arith, Reach-Heard r (λ on. cc))
