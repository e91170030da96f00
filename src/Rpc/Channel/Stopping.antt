-- ===== src/Rpc/Channel/Stopping.antt =====
-- The end of a connection in async_rpc_channel.hpp: every call that waits for a reply fails.
use network_core.Common.{
  ℕ, ◌≡◌, refl, sym, ap, subst, Bool, true, false, ◌||◌, List, [], ◌∷◌, ◌==◌, if◌then◌else◌, arith,
  Bool-cases, inl, inr,
}
use network_core.Rpc.Calls.{task_map}
use network_core.Rpc.Context.{Context, NetResult, complete_error, post_error}
use network_core.Rpc.Channel.{
  disconnected, disconnecting, Channel, fail_call, fail_calls, stop_rpc_calls, stop_rpc_service,
}

-- a call that waits for a reply
unfoldable pub waits : ℕ → List (ℕ × ℕ) → Bool
waits id [] = false
waits id ((call_id, k) ∷ m) = (k == id) || waits id m

-- a call that has failed with `e`
pub record Failed {H : Type 0} (e : NetResult) (ctx : Context H) : Type 0 where
  pub over_eq : ctx.is_over ≡ true
  pub err_eq : ctx.err ≡ e

module _ {H : Type 0} where
  complete_error-Failed : (e : NetResult) (ctx : Context H) → Failed e (complete_error e ctx).0
  unfolding complete_error post_error
  complete_error-Failed e ctx = ground arith

  fail_call-ctx :
      (id k : ℕ) (e : NetResult) (s : Channel H) (b : Bool)
      → k == id ≡ b
      → (fail_call id e s).0.ctxs k ≡ (if b then (complete_error e (s.ctxs id)).0 else s.ctxs k)
  unfolding fail_call
  fail_call-ctx id k e s b h = ap (λ b. if b then (complete_error e (s.ctxs id)).0 else s.ctxs k) h

  fail_call-Failed :
      (id k : ℕ) (e : NetResult) (s : Channel H)
      → k == id ≡ true
      → Failed e ((fail_call id e s).0.ctxs k)
  fail_call-Failed id k e s h =
      subst (Failed e) (sym (fail_call-ctx id k e s true h)) (complete_error-Failed e (s.ctxs id))

  fail_call-keeps :
      (id k : ℕ) (e : NetResult) (s : Channel H)
      → Failed e (s.ctxs k)
      → Failed e ((fail_call id e s).0.ctxs k)
  fail_call-keeps id k e s f = elim (Bool-cases (k == id)) [
    | inl h ↦ fail_call-Failed id k e s h
    | inr h ↦ subst (Failed e) (sym (fail_call-ctx id k e s false h)) f
  ]

  -- a failed call stays failed while others fail
  fail_calls-keeps :
      (m : List (ℕ × ℕ)) (k : ℕ) (e : NetResult) (s : Channel H)
      → Failed e (s.ctxs k)
      → Failed e ((fail_calls m e s).0.ctxs k)
  unfolding fail_calls
  fail_calls-keeps [] k e s f = f
  fail_calls-keeps ((call_id, id) ∷ m) k e s f =
      fail_calls-keeps m k e (fail_call id e s).0 (fail_call-keeps id k e s f)

  fail_calls-waits :
      (m : List (ℕ × ℕ)) (k : ℕ) (e : NetResult) (s : Channel H)
      → waits k m ≡ true
      → Failed e ((fail_calls m e s).0.ctxs k)
  unfolding fail_calls waits
  fail_calls-waits [] k e s h = absurd (ground arith)
  fail_calls-waits ((call_id, id) ∷ m) k e s h = elim (Bool-cases (k == id)) [
    | inl same ↦ fail_calls-keeps m k e (fail_call id e s).0 (fail_call-Failed id k e s same)
    | inr other ↦ fail_calls-waits m k e (fail_call id e s).0 (ground arith)
  ]

  fail_calls-calls :
      (m : List (ℕ × ℕ)) (e : NetResult) (s : Channel H)
      → ((fail_calls m e s).0.calls ≡ s.calls) × ((fail_calls m e s).0.to_calls ≡ s.to_calls)
  unfolding fail_calls fail_call
  fail_calls-calls [] e s = (refl, refl)
  fail_calls-calls ((call_id, id) ∷ m) e s = fail_calls-calls m e (fail_call id e s).0

  -- When the connection ends, every call that waits for a reply is over with the error, none waits
  -- any more and none is on its way; the calls that were accepted and not yet taken to the socket
  -- stay in `call_list_`, for the next connection.
  pub stop_rpc_service-Failed :
      (e : NetResult) (has_on_error : Bool) (s : Channel H) (id : ℕ)
      → waits id s.calls.call_map ≡ true
      → let s' = (stop_rpc_service e has_on_error s).0 in
        Failed e (s'.ctxs id)
        × (s'.status ≡ disconnected)
        × (s'.calls.call_map ≡ [])
        × (s'.to_calls ≡ [])
        × (s'.calls.call_list ≡ s.calls.call_list)
  unfolding stop_rpc_service stop_rpc_calls task_map
  stop_rpc_service-Failed e has_on_error s id h =
      let cleared = record s {
        status = disconnecting;
        is_open = false;
        to_calls = [];
        calls = record s.calls { call_map = [] };
      } in
      let kept = fail_calls-calls s.calls.call_map e cleared in
      (
        fail_calls-waits s.calls.call_map id e cleared h,
        refl,
        ap (λ c. c.call_map) kept.0,
        kept.1,
        ap (λ c. c.call_list) kept.0,
      )
