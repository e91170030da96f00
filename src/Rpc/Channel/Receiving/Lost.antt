-- ===== src/Rpc/Channel/Receiving/Lost.antt =====
-- A reply of async_rpc_channel.hpp whose body does not arrive: its call has left the map, and the
-- end of the connection does not reach it.
use network_core.Common.{
  ℕ, ◌≡◌, refl, ap, ◌∙◌, Bool, true, false, not, List, [], ◌∷◌, ◌++◌, ◌==◌, ltb, if◌then◌else◌,
  arith, Bool-cases, inl, inr, Bytes,
}
use network_core.Net.Connection.{erase_call}
use network_core.Net.Errors
use network_core.Rpc.Calls.{task_map}
use network_core.Rpc.Context.{Callback, NetResult, complete_error, get_recv_message}
use network_core.Rpc.Channel.{
  Channel, Effect, read_reply, callback, callbacks, max_body, fail_call, fail_calls, close_effects,
  stop_rpc_calls, stop_rpc_service, fail_channel, disconnecting, on_error, on_disconnect,
}
use network_core.Rpc.Channel.Recv.{recv_body, call_complete, handle_recv_reply}
use network_core.Rpc.Channel.Failing.{set_ctx_same}
use network_core.Rpc.Channel.Stopping.{waits}
use network_core.Rpc.Channel.Receiving.{
  RepliesTo, recv_body-found, recv_found-body, taken, answered, store,
}
use network_core.Rpc.Wire.{RpcHeader}

-- the callbacks of one call among effects
unfoldable pub callbacks_of : {H : Type 0} → ℕ → List (Effect H) → List Callback
callbacks_of id [] = []
callbacks_of id (callback k c ∷ es) =
    let rest = callbacks_of id es in if k == id then c ∷ rest else rest
callbacks_of id (_ ∷ es) = callbacks_of id es

callbacks_of-append :
    {H : Type 0} (id : ℕ) (es fs : List (Effect H))
    → callbacks_of id (es ++ fs) ≡ callbacks_of id es ++ callbacks_of id fs
unfolding callbacks_of
callbacks_of-append id [] fs = refl
callbacks_of-append id (callback k c ∷ es) fs =
    let ih = callbacks_of-append id es fs in
    elim (Bool-cases (k == id)) [ inl h ↦ ground arith | inr h ↦ ground arith ]
callbacks_of-append id (_ ∷ es) fs = callbacks_of-append id es fs

callbacks_of-both :
    {H : Type 0} (id : ℕ) (es fs : List (Effect H))
    → callbacks_of id es ≡ []
    → callbacks_of id fs ≡ []
    → callbacks_of id (es ++ fs) ≡ []
callbacks_of-both id es fs p q =
    callbacks_of-append id es fs ∙ (ap (λ cs. cs ++ callbacks_of id fs) p ∙ q)

callbacks_of-other :
    (H : Type 0) (id k : ℕ) (cs : List Callback)
    → k == id ≡ false
    → callbacks_of {H = H} id (callbacks k cs) ≡ []
unfolding callbacks_of
callbacks_of-other H id k [] h = refl
callbacks_of-other H id k (c ∷ cs) h =
    let rest = callbacks_of {H = H} id (callbacks k cs) in
    ap (λ b. if b then c ∷ rest else rest) h ∙ callbacks_of-other H id k cs h

callbacks_of-close :
    (H : Type 0) (id : ℕ) (b : Bool) → callbacks_of {H = H} id (close_effects b) ≡ []
unfolding callbacks_of close_effects
callbacks_of-close H id true = refl
callbacks_of-close H id false = refl

callbacks_of-ends :
    (H : Type 0) (id : ℕ) (e : NetResult) (b c : Bool)
    → callbacks_of {H = H} id
        ((if b then on_error e ∷ [] else []) ++ (if c then on_disconnect e ∷ [] else []))
      ≡ []
unfolding callbacks_of
callbacks_of-ends H id e true true = refl
callbacks_of-ends H id e true false = refl
callbacks_of-ends H id e false true = refl
callbacks_of-ends H id e false false = refl

module _ {H : Type 0} where
  -- the calls that fail do not touch one that does not wait
  fail_calls-other :
      (m : List (ℕ × ℕ)) (id : ℕ) (e : NetResult) (s : Channel H)
      → waits id m ≡ false
      → ((fail_calls m e s).0.ctxs id ≡ s.ctxs id) × (callbacks_of id (fail_calls m e s).1 ≡ [])
  unfolding fail_calls waits callbacks_of fail_call
  fail_calls-other [] id e s h = (refl, refl)
  fail_calls-other ((call_id, k) ∷ m) id e s h =
      let other : k == id ≡ false = ground arith in
      let turned : id == k ≡ false = ground arith in
      let rest = fail_calls-other m id e (fail_call k e s).0 (ground arith) in
      (
        rest.0 ∙ ap (λ b. if b then (complete_error e (s.ctxs k)).0 else s.ctxs id) turned,
        callbacks_of-both id (fail_call k e s).1 (fail_calls m e (fail_call k e s).0).1
            (callbacks_of-other H id k (complete_error e (s.ctxs k)).1 other) rest.1,
      )

  fail_channel-other :
      (id : ℕ) (e : NetResult) (s : Channel H)
      → waits id s.calls.call_map ≡ false
      → ((fail_channel e s).0.ctxs id ≡ s.ctxs id) × (callbacks_of id (fail_channel e s).1 ≡ [])
  unfolding fail_channel stop_rpc_service stop_rpc_calls task_map callbacks_of
  fail_channel-other id e s h =
      let cleared = record s {
        status = disconnecting;
        is_open = false;
        to_calls = [];
        calls = record s.calls { call_map = [] };
      } in
      let failed = fail_calls-other s.calls.call_map id e cleared h in
      let closing = close_effects (e.sys_value == 0) in
      let calls = (fail_calls s.calls.call_map e cleared).1 in
      (
        failed.0,
        callbacks_of-both id (closing ++ (calls ++ []))
            ((if not s.is_client then on_error e ∷ [] else [])
              ++ (if s.has_irouter then on_disconnect e ∷ [] else []))
            (callbacks_of-both id closing (calls ++ []) (callbacks_of-close H id (e.sys_value == 0))
              (callbacks_of-both id calls [] failed.1 refl))
            (callbacks_of-ends H id e (not s.is_client) s.has_irouter),
      )

  module _ (ops : RpcHeader H) where
    -- the state in which the body of a reply is awaited
    waiting_body :
        (id : ℕ) (s : Channel H)
        → RepliesTo ops id s
        → (ops.length_of s.head == 0) ≡ false
        → ltb max_body (ops.length_of s.head) ≡ false
        → recv_body ops s ≡ (
          store ops id (get_recv_message (ops.length_of s.head) (answered ops id s)) (taken ops s),
          read_reply id (ops.length_of s.head) ∷ [],
        )
    waiting_body id s r z small =
        recv_body-found ops id s r ∙ recv_found-body ops id (taken ops s) z small

    -- the body of the reply does not arrive
    failed_body :
        (id error : ℕ) (body : Bytes) (s : Channel H)
        → s.is_open ≡ true
        → error == 0 ≡ false
        → (s.ctxs id).is_over ≡ false
        → waits id s.calls.call_map ≡ false
        → let (s', effects) = handle_recv_reply ops error id body s in
          ((s'.ctxs id).is_over ≡ false) × (callbacks_of id effects ≡ [])
    unfolding handle_recv_reply
    failed_body id error body s opened bad o free =
        let e : NetResult = record { code = Errors.badconnect; sys_value = error } in
        let ctx = record (s.ctxs id) { recv_msg = body } in
        let s' = store ops id ctx s in
        let eq : handle_recv_reply ops error id body s ≡ fail_channel e s' =
          ap
            (λ b.
              if not b
              then (s', [])
              else if error == 0
              then call_complete ops id s'
              else fail_channel e s')
            opened
          ∙ ap (λ b. if b then call_complete ops id s' else fail_channel e s') bad in
        let other = fail_channel-other id e s' free in
        (
          ap (λ p. (p.0.ctxs id).is_over) eq
              ∙ (ap (λ c. c.is_over) (other.0 ∙ set_ctx_same id ctx s.ctxs) ∙ o),
          ap (λ p. callbacks_of id p.1) eq ∙ other.1,
        )

    -- A call that waits in the map with a handler or a barrier, on an open channel, when the header of
    -- its reply has arrived and the body does not: the body is asked for, and its failure leaves the
    -- call not over and calls none of its handlers, nor its barrier. The conditions are that the
    -- reply has a body, of a length that is allowed, and that the call was not over and does not
    -- wait under a second id.
    pub handle_recv_reply-lost :
        (id error : ℕ) (body : Bytes) (s : Channel H)
        → RepliesTo ops id s
        → (ops.length_of s.head == 0) ≡ false
        → ltb max_body (ops.length_of s.head) ≡ false
        → s.is_open ≡ true
        → error == 0 ≡ false
        → (s.ctxs id).is_over ≡ false
        → waits id (erase_call (ops.call_id s.head) s.calls.call_map) ≡ false
        → let (s', effects) = handle_recv_reply ops error id body (recv_body ops s).0 in
          ((recv_body ops s).1 ≡ read_reply id (ops.length_of s.head) ∷ [])
          × ((s'.ctxs id).is_over ≡ false)
          × (callbacks_of id effects ≡ [])
    unfolding get_recv_message
    handle_recv_reply-lost id error body s r z small opened bad o free =
        let eq = waiting_body id s r z small in
        let ctx = get_recv_message (ops.length_of s.head) (answered ops id s) in
        let lost =
          failed_body id error body (store ops id ctx (taken ops s)) opened bad
            (ap (λ c. c.is_over) (set_ctx_same id ctx s.ctxs) ∙ o) free in
        (
          ap (λ p. p.1) eq,
          ap (λ p. ((handle_recv_reply ops error id body p.0).0.ctxs id).is_over) eq ∙ lost.0,
          ap (λ p. callbacks_of id (handle_recv_reply ops error id body p.0).1) eq ∙ lost.1,
        )
