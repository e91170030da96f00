-- ===== src/Rpc/Channel/Sending.antt =====
-- The order of sending in async_rpc_channel.hpp: every call and answer that is accepted is written
-- once and in the order of acceptance, one write at a time; and a call that is refused stays.
pub mod Pulled
pub mod Order
use network_core.Common.{
  ℕ, zero, suc, ◌+◌, ◌-◌, ◌<◌, ◌≡◌, refl, sym, ap, subst, ◌∙◌, Bool, true, false, not, ◌&&◌, Option,
  none, some, List, [], ◌∷◌, ◌++◌, if◌then◌else◌, arith, Bool-cases, inl, inr, append_assoc,
  append-nil, drop, ltb, ◌==◌, ==_refl,
}
use network_core.Net.Errors
use network_core.Rpc.Context.{
  Context, Callback, ran_on_error, notified, app_error, complete_error, post_error, has_handler,
}
use network_core.Rpc.Channel.{
  Channel, Effect, callback, callbacks, async_write, post_retry, is_empty, set_ctx, fail_call,
  set_timeout, send_front, call_impl1, call_impl, send_next,
}
use network_core.Rpc.Channel.Failing.{
  writes, writes-append, writes-fail_call, fail_call-head, fail_call-to_calls,
}
use network_core.Rpc.Wire.{RpcHeader}

module _ {H : Type 0} (ops : RpcHeader H) (before_send : H → Bool) where
  -- the function that a refused call posts, run as often as it is posted
  unfoldable pub retry : ℕ → Channel H → Channel H × List (Effect H)
  unfolding send_next
  retry zero s = (s, [])
  retry (suc n) s =
      let (s', effects) = send_next ops before_send s in
      let (last, more) = retry n s' in (last, effects ++ more)

  pub send_next_front :
      (id : ℕ) (ids : List ℕ) (s : Channel H)
      → s.to_calls ≡ id ∷ ids
      → send_next ops before_send s ≡ send_front ops before_send (id ∷ ids) s
  unfolding send_next call_impl1
  send_next_front id ids s e =
      ap (λ l. if is_empty l then call_impl ops before_send s else send_front ops before_send l s) e

  send_front_refused :
      (id : ℕ) (ids : List ℕ) (s : Channel H)
      → before_send (s.ctxs id).head ≡ false
      → send_front ops before_send (id ∷ ids) s ≡ (
        (fail_call id (app_error Errors.cancel) s).0,
        (fail_call id (app_error Errors.cancel) s).1 ++ (post_retry ∷ []),
      )
  unfolding send_front
  send_front_refused id ids s f = rw f refl

  -- a call that `before_send_func_` refuses, at the front
  record Refused (id : ℕ) (ids : List ℕ) (s : Channel H) : Type 0 where
    pub front_eq : s.to_calls ≡ id ∷ ids
    pub refused : before_send (s.ctxs id).head ≡ false

  stuck_step :
      (id : ℕ) (ids : List ℕ) (s : Channel H)
      → Refused id ids s
      → Refused id ids (send_next ops before_send s).0
        × (writes (send_next ops before_send s).1 ≡ [])
  unfolding writes
  stuck_step id ids s r =
      let failed = fail_call id (app_error Errors.cancel) s in
      subst (λ (x : Channel H × List (Effect H)). Refused id ids x.0 × (writes x.1 ≡ []))
        (sym (send_next_front id ids s r.front_eq ∙ send_front_refused id ids s r.refused))
        (
          record {
            front_eq = fail_call-to_calls id (app_error Errors.cancel) s ∙ r.front_eq;
            refused = ap before_send (fail_call-head id (app_error Errors.cancel) s) ∙ r.refused;
          },
          writes-append failed.1 (post_retry ∷ [])
              ∙ ap (λ l. l ++ []) (writes-fail_call id (app_error Errors.cancel) s),
        )

  retry-Refused :
      (id : ℕ) (ids : List ℕ) (n : ℕ) (s : Channel H)
      → Refused id ids s
      → ((retry n s).0.to_calls ≡ id ∷ ids) × (writes (retry n s).1 ≡ [])
  unfolding retry writes
  retry-Refused id ids zero s r = (r.front_eq, refl)
  retry-Refused id ids (suc n) s r =
      let (r', none_written) = stuck_step id ids s r in
      let s' = (send_next ops before_send s).0 in
      let (e, w) = retry-Refused id ids n s' r' in
      (
        e,
        writes-append (send_next ops before_send s).1 (retry n s').1
            ∙ ap (λ l. l ++ writes (retry n s').1) none_written
            ∙ w,
      )

  -- A call that `before_send_func_` refuses is never taken off the front: however often the posted
  -- function runs, it and the calls behind it stay where they are, and nothing is written.
  pub retry-refused :
      (id : ℕ) (ids : List ℕ) (s : Channel H) (n : ℕ)
      → s.to_calls ≡ id ∷ ids
      → before_send (s.ctxs id).head ≡ false
      → ((retry n s).0.to_calls ≡ id ∷ ids) × (writes (retry n s).1 ≡ [])
  retry-refused id ids s n e f = retry-Refused id ids n s (record { front_eq = e; refused = f })
