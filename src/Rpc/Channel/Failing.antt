-- ===== src/Rpc/Channel/Failing.antt =====
-- What a failed call of async_rpc_channel.hpp leaves as it is.
use network_core.Common.{
  ℕ, ◌≡◌, refl, ap, ◌∙◌, true, List, [], ◌∷◌, ◌++◌, if◌then◌else◌, arith, ==_refl,
}
use network_core.Rpc.Context.{Context, Callback, NetResult, complete_error, post_error}
use network_core.Rpc.Channel.{Channel, Effect, callbacks, async_write, set_ctx, fail_call}

-- the numbers of the calls that effects write
unfoldable pub writes : {H : Type 0} → List (Effect H) → List ℕ
writes [] = []
writes (async_write id head msg ∷ es) = id ∷ writes es
writes (_ ∷ es) = writes es

pub writes-append :
    {H : Type 0} (es fs : List (Effect H)) → writes (es ++ fs) ≡ writes es ++ writes fs
unfolding writes
writes-append [] fs = refl
writes-append (async_write id head msg ∷ es) fs = ap (◌∷◌ id) (writes-append es fs)
writes-append (_ ∷ es) fs = writes-append es fs

pub writes-callbacks :
    (H : Type 0) (id : ℕ) (cs : List Callback) → writes {H = H} (callbacks id cs) ≡ []
unfolding writes
writes-callbacks H id [] = refl
writes-callbacks H id (c ∷ cs) = writes-callbacks H id cs

module _ {H : Type 0} where
  pub writes-fail_call : (id : ℕ) (e : NetResult) (s : Channel H) → writes (fail_call id e s).1 ≡ []
  unfolding fail_call
  writes-fail_call id e s = writes-callbacks H id (complete_error e (s.ctxs id)).1

  pub set_ctx_same :
      (id : ℕ) (ctx : Context H) (ctxs : ℕ → Context H) → set_ctx id ctx ctxs id ≡ ctx
  set_ctx_same id ctx ctxs = ap (λ b. if b then ctx else ctxs id) (==_refl id)

  pub complete_error-head :
      (e : NetResult) (ctx : Context H) → (complete_error e ctx).0.head ≡ ctx.head
  unfolding complete_error post_error
  complete_error-head e ctx = ground arith

  pub complete_error-is_over :
      (e : NetResult) (ctx : Context H) → (complete_error e ctx).0.is_over ≡ true
  unfolding complete_error post_error
  complete_error-is_over e ctx = ground arith

  pub fail_call-head :
      (id : ℕ) (e : NetResult) (s : Channel H)
      → ((fail_call id e s).0.ctxs id).head ≡ (s.ctxs id).head
  unfolding fail_call
  fail_call-head id e s =
      ap (λ ctx. ctx.head) (set_ctx_same id (complete_error e (s.ctxs id)).0 s.ctxs)
      ∙ complete_error-head e (s.ctxs id)

  pub fail_call-to_calls :
      (id : ℕ) (e : NetResult) (s : Channel H) → (fail_call id e s).0.to_calls ≡ s.to_calls
  unfolding fail_call
  fail_call-to_calls id e s = refl
