-- ===== src/Net/Connection/Calls.antt =====
-- Calls that wait for a reply: `do_await_write` registers a handler, `on_receive_msgs` resumes it.
use network_core.Common.{
  ℕ, ◌+◌, ◌≤◌, ◌<◌, ◌≡◌, refl, ap, ◌∙◌, inl, inr, true, Option, none, some, List, [], ◌∷◌, ◌++◌,
  arith, length, length-append, ltb, ◌==◌, if◌then◌else◌, Option-cases,
}
use network_core.Net.Connection.{
  Connection, Effect, CallIds, find_call, erase_call, emplace_call, do_write, async_write_msg,
  write_queue, write_as_batch, resume, on_error,
}
use network_core.Net.Connection.Lifecycle.{assign_call_id, do_await_write, dispatch, dispatch_all}
use network_core.Net.Reader.{Msg}
use network_core.Net.Wire.{HeaderType}

-- how often a handler is waiting
abbrev pub waiting : ℕ → List (ℕ × ℕ) → ℕ
waiting h [] = 0
waiting h ((k, j) ∷ calls) = (if j == h then 1 else 0) + waiting h calls

module _ {H : Type 0} where
  -- how often a handler is resumed
  abbrev pub resumed : ℕ → List (Effect H) → ℕ
  resumed h [] = 0
  resumed h (resume j m ∷ out) = (if j == h then 1 else 0) + resumed h out
  resumed h (_ ∷ out) = resumed h out

  resumed-append :
      (h : ℕ) (xs ys : List (Effect H)) → resumed h (xs ++ ys) ≡ resumed h xs + resumed h ys
  resumed-append h [] ys = omega arith
  resumed-append h (resume j m ∷ xs) ys = omega (arith, resumed-append h xs ys)
  resumed-append h (_ ∷ xs) ys = resumed-append h xs ys

waiting-erase_call :
    (id h g : ℕ) (calls : List (ℕ × ℕ))
    → find_call id calls ≡ some h
    → waiting g (erase_call id calls) + (if h == g then 1 else 0) ≡ waiting g calls
unfolding find_call erase_call
waiting-erase_call id h g [] e = cc
waiting-erase_call id h g ((k, j) ∷ calls) e = ground (arith, waiting-erase_call id h g calls)

emplace_free :
    (id h : ℕ) (calls : List (ℕ × ℕ))
    → find_call id calls ≡ none
    → emplace_call id h calls ≡ (id, h) ∷ calls
unfolding emplace_call
emplace_free id h calls e = rw (e, emplace_call)

emplace_taken :
    (id h other : ℕ) (calls : List (ℕ × ℕ))
    → find_call id calls ≡ some other
    → emplace_call id h calls ≡ calls
unfolding emplace_call
emplace_taken id h other calls e = rw (e, emplace_call)

module _ {H : Type 0} (ops : HeaderType H) (ids : CallIds H) where
  -- the handler that a message finds
  abbrev pub finds : Msg H → List (ℕ × ℕ) → Option ℕ
  finds m calls =
      if ltb 0 (ids.call_id m.header) then find_call (ids.call_id m.header) calls else none

  dispatch_hit :
      (m : Msg H) (calls : List (ℕ × ℕ)) (h : ℕ)
      → finds m calls ≡ some h
      → dispatch ops ids m calls ≡ (erase_call (ids.call_id m.header) calls, resume h m ∷ [], [])
  unfolding dispatch
  dispatch_hit m calls h e = rw (e, dispatch)

  dispatch_miss :
      (m : Msg H) (calls : List (ℕ × ℕ))
      → finds m calls ≡ none
      → dispatch ops ids m calls ≡ (calls, [], m ∷ [])
  unfolding dispatch
  dispatch_miss m calls e = rw (e, dispatch)

  dispatch-waiting :
      (g : ℕ) (m : Msg H) (calls : List (ℕ × ℕ))
      → let (rest, out, new) = dispatch ops ids m calls in
        (waiting g rest + resumed g out ≡ waiting g calls) × (length out + length new ≡ 1)
  dispatch-waiting g m calls = elim (Option-cases (finds m calls)) [
    | inl e ↦ rw (dispatch_miss m calls e) (omega arith, omega arith)
    | inr (h, e) ↦
        rw (dispatch_hit m calls h e)
          (ground (arith, waiting-erase_call (ids.call_id m.header) h g calls), omega arith)
  ]

  -- However the messages of a read look, no handler is resumed more often than it was waiting, what
  -- is still waiting is the rest, and each message either resumes one handler or is forwarded.
  pub dispatch_all-waiting :
      (g : ℕ) (ms : List (Msg H)) (calls : List (ℕ × ℕ))
      → let (rest, out, new) = dispatch_all ops ids ms calls in
        (waiting g rest + resumed g out ≡ waiting g calls) × (length out + length new ≡ length ms)
  unfolding dispatch_all
  dispatch_all-waiting g [] calls = (omega arith, refl)
  dispatch_all-waiting g (m ∷ ms) calls =
      let (rest₁, out₁, new₁) = dispatch ops ids m calls in
      let (rest₂, out₂, new₂) = dispatch_all ops ids ms rest₁ in
      ground (
        arith,
        dispatch-waiting g m calls,
        dispatch_all-waiting g ms rest₁,
        resumed-append g out₁ out₂,
        length-append out₁ out₂,
        length-append new₁ new₂,
      )

  calls-write_queue :
      (queue : List (Msg H)) (c : Connection H) → (write_queue ops queue c).0.calls ≡ c.calls
  unfolding write_queue write_as_batch on_error
  calls-write_queue [] c = refl
  calls-write_queue (m ∷ queue) c = ground arith

  calls-do_write : (m : Msg H) (c : Connection H) → (do_write ops m c).0.calls ≡ c.calls
  unfolding do_write async_write_msg
  calls-do_write m c =
      let queue = c.write_msg_queue ++ m ∷ [] in
      ground (arith, calls-write_queue queue (record c { write_msg_queue = queue }))

  calls-do_await_write :
      (m : Msg H) (handler : ℕ) (c : Connection H)
      → c.is_running ≡ true
      → (do_await_write ops ids m handler c).0.calls
        ≡ emplace_call (assign_call_id ops ids m c.cur_call_id).0 handler c.calls
  unfolding do_await_write
  calls-do_await_write m handler c on =
      let a = assign_call_id ops ids m c.cur_call_id in
      ground (
        arith,
        calls-do_write (record m { header = ids.with_call_id m.header a.0 })
            (record c { cur_call_id = a.1; calls = emplace_call a.0 handler c.calls }),
      )

  dispatch_reply :
      (reply : Msg H) (id handler : ℕ) (calls : List (ℕ × ℕ))
      → ids.call_id reply.header ≡ id
      → 0 < id
      → dispatch_all ops ids (reply ∷ []) ((id, handler) ∷ calls)
        ≡ (calls, resume handler reply ∷ [], [])
  unfolding dispatch_all dispatch find_call erase_call
  dispatch_reply reply id handler calls same pos = ground arith

  -- A reply reaches the call that waits for it: after `do_await_write` on a running connection, with
  -- a call id that is not 0 and not in use, a message with that id resumes exactly the new handler,
  -- nothing is forwarded to the router, and the calls that waited before still wait.
  pub do_await_write-reply :
      (m reply : Msg H) (handler : ℕ) (c : Connection H)
      → c.is_running ≡ true
      → let id = (assign_call_id ops ids m c.cur_call_id).0 in
        ids.call_id reply.header ≡ id
        → 0 < id
        → find_call id c.calls ≡ none
        → let c' = (do_await_write ops ids m handler c).0 in
          dispatch_all ops ids (reply ∷ []) c'.calls ≡ (c.calls, resume handler reply ∷ [], [])
  do_await_write-reply m reply handler c on same pos free =
      let id = (assign_call_id ops ids m c.cur_call_id).0 in
      ap (dispatch_all ops ids (reply ∷ []))
        (calls-do_await_write m handler c on ∙ emplace_free id handler c.calls free)
      ∙ dispatch_reply reply id handler c.calls same pos

  -- A call whose id is in use is lost: the message is queued, but its handler is not registered, so
  -- that whatever arrives later resumes the new handler no more often than it was waiting before.
  pub do_await_write_taken :
      (m : Msg H) (handler other : ℕ) (c : Connection H) (replies : List (Msg H))
      → c.is_running ≡ true
      → find_call (assign_call_id ops ids m c.cur_call_id).0 c.calls ≡ some other
      → let c' = (do_await_write ops ids m handler c).0 in
        resumed handler (dispatch_all ops ids replies c'.calls).1 ≤ waiting handler c.calls
  do_await_write_taken m handler other c replies on taken =
      let id = (assign_call_id ops ids m c.cur_call_id).0 in
      rw (calls-do_await_write m handler c on ∙ emplace_taken id handler other c.calls taken)
        (omega (arith, (dispatch_all-waiting handler replies c.calls).0))
