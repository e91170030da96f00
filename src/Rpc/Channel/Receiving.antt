-- ===== src/Rpc/Channel/Receiving.antt =====
-- Replies in async_rpc_channel.hpp: what a reply makes of the call that it belongs to.
pub mod Lost
use network_core.Common.{
  ℕ, ◌+◌, ◌%◌, ◌^◌, ◌<◌, ◌≡◌, refl, sym, ap, subst, ◌∙◌, Bool, true, false, not, ◌&&◌, ◌||◌, Option,
  none, some, List, [], ◌∷◌, ◌++◌, ◌==◌, ltb, if◌then◌else◌, arith, ==_refl, Bool-cases, inl, inr,
  Bytes,
}
use network_core.Net.Connection.{find_call, erase_call}
use network_core.Net.Errors
use network_core.Rpc.Calls.{get_call}
use network_core.Rpc.Context.{
  NetResult, Context, Callback, app_error, post_error, ran_on_error, NetResult, complete_ok,
  complete_error, has_handler, get_recv_message, when, ran_on_ok, notified,
}
use network_core.Rpc.Channel.{
  Channel, Effect, read_head, read_reply, callback, callbacks, max_body, set_ctx, finish_call,
  fail_call, fail_calls, fail_channel, stop_rpc_service,
}
use network_core.Rpc.Channel.Recv.{
  remote_failure, recv_request, call_complete, recv_found, recv_call_reply, recv_body, route_reply,
  handle_recv_reply,
}
use network_core.Rpc.Channel.Failing.{set_ctx_same}
use network_core.Rpc.Channel.Stopping.{waits}
use network_core.Rpc.Wire.{RpcHeader}

module _ {H : Type 0} (ops : RpcHeader H) where
  -- the header that arrived replies to the call `id`
  pub record RepliesTo (id : ℕ) (s : Channel H) : Type 0 where
    pub is_reply_eq : ops.is_reply s.head ≡ true
    pub found_eq : find_call (ops.call_id s.head) s.calls.call_map ≡ some id
    pub handler_eq : has_handler (s.ctxs id) ≡ true

  -- the state in which the call has left the map
  abbrev pub taken : Channel H → Channel H
  taken s = record s {
    calls = record s.calls { call_map = erase_call (ops.call_id s.head) s.calls.call_map };
  }

  pub recv_body-found :
      (id : ℕ) (s : Channel H) → RepliesTo id s → recv_body ops s ≡ recv_found ops id (taken s)
  unfolding recv_body recv_call_reply get_call route_reply
  recv_body-found id s r =
      ap (λ b. if b then recv_call_reply ops s else recv_request ops s) r.is_reply_eq
      ∙ (ap (λ f. route_reply ops f (taken s)) r.found_eq
          ∙ ap (λ b. if b then recv_found ops id (taken s) else recv_request ops (taken s))
              r.handler_eq)

  -- the call when the length and the result of its reply are in its header
  abbrev pub answered : ℕ → Channel H → Context H
  answered id s = record (s.ctxs id) {
    head =
        ops.set_result (ops.result s.head) (ops.set_length (ops.length_of s.head) (s.ctxs id).head);
  }

  abbrev pub store : ℕ → Context H → Channel H → Channel H
  store id ctx s = record s { ctxs = set_ctx id ctx s.ctxs }

  recv_found-empty :
      (id : ℕ) (s : Channel H)
      → (ops.length_of s.head == 0) ≡ true
      → recv_found ops id s ≡ call_complete ops id (store id (answered id s) s)
  unfolding recv_found
  recv_found-empty id s z =
      let s' = store id (answered id s) s in
      ap
        (λ b.
          if b
          then call_complete ops id s'
          else if ltb max_body (ops.length_of s.head)
          then fail_channel (app_error Errors.invalid_header) s'
          else (
            store id (get_recv_message (ops.length_of s.head) (answered id s)) s,
            read_reply id (ops.length_of s.head) ∷ [],
          ))
        z

  pub recv_found-body :
      (id : ℕ) (s : Channel H)
      → (ops.length_of s.head == 0) ≡ false
      → ltb max_body (ops.length_of s.head) ≡ false
      → recv_found ops id s ≡ (
        store id (get_recv_message (ops.length_of s.head) (answered id s)) s,
        read_reply id (ops.length_of s.head) ∷ [],
      )
  unfolding recv_found
  recv_found-body id s z small =
      let s' = store id (answered id s) s in
      let waiting : Channel H × List (Effect H) = (
        store id (get_recv_message (ops.length_of s.head) (answered id s)) s,
        read_reply id (ops.length_of s.head) ∷ [],
      ) in
      let rest : Bool → Channel H × List (Effect H) =
        λ b. if b then fail_channel (app_error Errors.invalid_header) s' else waiting in
      ap (λ b. if b then call_complete ops id s' else rest (ltb max_body (ops.length_of s.head))) z
      ∙ ap rest small

  -- what an outcome makes of the call
  abbrev settle : Bool → NetResult → Context H → Context H × List Callback
  settle good e ctx = if good then complete_ok ctx else complete_error e ctx

  settled : ℕ → Channel H → Context H × List Callback → Channel H × List (Effect H)
  settled id s (ctx, cs) = (store id ctx s, read_head ∷ callbacks id cs)

  settled-pull :
      (good : Bool) (e : NetResult) (id : ℕ) (ctx : Context H) (s : Channel H)
      → (if good then settled id s (complete_ok ctx) else settled id s (complete_error e ctx))
        ≡ settled id s (settle good e ctx)
  settled-pull true e id ctx s = refl
  settled-pull false e id ctx s = refl

  call_complete-settle :
      (id : ℕ) (ctx : Context H) (s : Channel H)
      → call_complete ops id (store id ctx s)
        ≡ settled id
            (store id ctx s)
            (settle (ltb (ops.result ctx.head) 100) (remote_failure (ops.result ctx.head)) ctx)
  unfolding call_complete finish_call fail_call settled
  call_complete-settle id ctx s =
      ap
        (λ (c : Context H).
          if ltb (ops.result c.head) 100
          then settled id (store id ctx s) (complete_ok c)
          else settled id (store id ctx s) (complete_error (remote_failure (ops.result c.head)) c))
        (set_ctx_same id ctx s.ctxs)
      ∙ settled-pull (ltb (ops.result ctx.head) 100) (remote_failure (ops.result ctx.head)) id ctx
          (store id ctx s)

  settle-fresh :
      (good : Bool) (e : NetResult) (ctx : Context H)
      → ctx.is_over ≡ false
      → ((settle good e ctx).0.is_over ≡ true)
        × ((settle good e ctx).1
            ≡ (if good
                then when ctx.has_on_ok (ran_on_ok ctx.recv_msg)
                else when ctx.has_on_error (ran_on_error e))
              ++ when ctx.has_barrier notified)
  unfolding complete_ok complete_error post_error
  settle-fresh true e ctx o = ground arith
  settle-fresh false e ctx o = ground arith

  -- A reply without a body, to a call that waits and has a handler: the call leaves the map and is
  -- over; what runs is its handler for success when the result is below 100, else its handler for
  -- errors, with `remote_error` and the result, and then its barrier; and the next header is read. The header keeps
  -- a result that is stored in it.
  pub recv_body-settles :
      (id : ℕ) (s : Channel H)
      → RepliesTo id s
      → (ops.length_of s.head == 0) ≡ true
      → (s.ctxs id).is_over ≡ false
      → ops.result (answered id s).head ≡ ops.result s.head
      → let (s', effects) = recv_body ops s in
        let ctx = s.ctxs id in
        ((s'.ctxs id).is_over ≡ true)
        × (s'.calls.call_map ≡ erase_call (ops.call_id s.head) s.calls.call_map)
        × (effects
            ≡ read_head
              ∷ callbacks id (
                  (if ltb (ops.result s.head) 100
                    then when ctx.has_on_ok (ran_on_ok ctx.recv_msg)
                    else when ctx.has_on_error (ran_on_error (remote_failure (ops.result s.head))))
                  ++ when ctx.has_barrier notified))
  unfolding settled
  recv_body-settles id s r z o kept =
      let ctx = answered id s in
      let good = ltb (ops.result s.head) 100 in
      let e = remote_failure (ops.result s.head) in
      let eq =
        recv_body-found id s r
        ∙ (recv_found-empty id (taken s) z
            ∙ (call_complete-settle id ctx (taken s)
                ∙ ap
                    (λ n.
                      settled id (store id ctx (taken s))
                        (settle (ltb n 100) (remote_failure n) ctx))
                    kept)) in
      let fresh = settle-fresh good e ctx o in
      (
        ap (λ p. (p.0.ctxs id).is_over) eq
            ∙ (ap (λ c. c.is_over)
                  (set_ctx_same id (settle good e ctx).0 (store id ctx (taken s)).ctxs)
                ∙ fresh.0),
        ap (λ p. p.0.calls.call_map) eq,
        ap (λ p. p.1) eq ∙ ap (λ cs. read_head ∷ callbacks id cs) fresh.1,
      )
