-- ===== src/Rpc/Context/Outcome.antt =====
-- The outcome of a call, over any sequence of completions: replies, timeouts, cancellations and
-- lost connections reach the same context of async_rpc_context.hpp in any order.
use network_core.Common.{
  ◌≡◌, refl, ap, ◌∙◌, true, List, [], ◌∷◌, ◌++◌, append-nil, arith, none, some, if◌then◌else◌,
}
use network_core.Rpc.Context.{
  Context, NetResult, Callback, complete_ok, complete_error, post_error, wait_throws, is_success,
}

pub data Completion : Type 0 where
  completes : Completion
  fails : NetResult → Completion

unfoldable pub complete : {H : Type 0} → Completion → Context H → Context H × List Callback
unfolding complete_ok complete_error post_error
complete completes ctx = complete_ok ctx
complete (fails e) ctx = complete_error e ctx

unfoldable pub complete_all : {H : Type 0} → List Completion → Context H → Context H × List Callback
unfolding complete
complete_all [] ctx = (ctx, [])
complete_all (c ∷ cs) ctx =
    let (ctx', calls) = complete c ctx in
    let (last, more) = complete_all cs ctx' in (last, calls ++ more)

-- the error that the last failure leaves, or the one that was there
unfoldable pub last_error : List Completion → NetResult → NetResult
last_error [] err = err
last_error (completes ∷ cs) err = last_error cs err
last_error (fails e ∷ cs) err = last_error cs e

complete_over :
    {H : Type 0} (c : Completion) (ctx : Context H)
    → ctx.is_over ≡ true
    → ((complete c ctx).1 ≡ []) × ((complete c ctx).0.is_over ≡ true)
unfolding complete complete_ok complete_error post_error
complete_over completes ctx h = ground arith
complete_over (fails e) ctx h = ground arith

complete_is_over :
    {H : Type 0} (c : Completion) (ctx : Context H) → (complete c ctx).0.is_over ≡ true
unfolding complete complete_ok complete_error post_error
complete_is_over completes ctx = ground arith
complete_is_over (fails e) ctx = ground arith

complete_err :
    {H : Type 0} (c : Completion) (ctx : Context H)
    → (complete c ctx).0.err ≡ last_error (c ∷ []) ctx.err
unfolding complete complete_ok complete_error post_error last_error
complete_err completes ctx = ground arith
complete_err (fails e) ctx = ground arith

last_error-cons :
    (c : Completion) (cs : List Completion) (err : NetResult)
    → last_error cs (last_error (c ∷ []) err) ≡ last_error (c ∷ cs) err
unfolding last_error
last_error-cons completes cs err = refl
last_error-cons (fails e) cs err = refl

complete_all_over :
    {H : Type 0} (cs : List Completion) (ctx : Context H)
    → ctx.is_over ≡ true
    → (complete_all cs ctx).1 ≡ []
unfolding complete_all
complete_all_over [] ctx h = refl
complete_all_over (c ∷ cs) ctx h =
    ap (λ calls. calls ++ (complete_all cs (complete c ctx).0).1) ((complete_over c ctx h).0)
    ∙ complete_all_over cs (complete c ctx).0 ((complete_over c ctx h).1)

complete_all_err :
    {H : Type 0} (cs : List Completion) (ctx : Context H)
    → (complete_all cs ctx).0.err ≡ last_error cs ctx.err
unfolding complete_all last_error
complete_all_err [] ctx = refl
complete_all_err (c ∷ cs) ctx =
    complete_all_err cs (complete c ctx).0
    ∙ ap (last_error cs) (complete_err c ctx)
    ∙ last_error-cons c cs ctx.err

-- However often a call is completed, by replies, timeouts, cancellations or lost connections, only
-- the first completion calls anything. The error that is left, and that `wait` then throws unless
-- it is a success, is the one of the last failure among all the completions, also when that failure
-- comes after a reply; without a failure it is the one that was there before.
pub complete_all-first :
    {H : Type 0} (c : Completion) (cs : List Completion) (ctx : Context H)
    → let left = last_error (c ∷ cs) ctx.err in
      ((complete_all (c ∷ cs) ctx).1 ≡ (complete c ctx).1)
      × ((complete_all (c ∷ cs) ctx).0.err ≡ left)
      × (wait_throws (complete_all (c ∷ cs) ctx).0 ≡ (if is_success left then none else some left))
unfolding complete_all wait_throws
complete_all-first c cs ctx = (
  ap (λ calls. (complete c ctx).1 ++ calls)
        (complete_all_over cs (complete c ctx).0 (complete_is_over c ctx))
      ∙ append-nil (complete c ctx).1,
  complete_all_err (c ∷ cs) ctx,
  ap (λ e. if is_success e then none else some e) (complete_all_err (c ∷ cs) ctx),
)
