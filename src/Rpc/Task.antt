-- ===== src/Rpc/Task.antt =====
-- `rpc_task` and `typed_rpc_task` of network/rpc/net/rpc_task.hpp: a call that is made when its task
-- goes away, or that is waited for. A call is the number of its context, durations are in
-- milliseconds with 0 for what is not positive, and what a task does is a list of effects.
pub mod Calling
mod Tests
use network_core.Common.{
  ℕ, zero, suc, ◌+◌, Bool, true, false, not, ◌&&◌, ◌||◌, Option, none, some, List, [], ◌∷◌, ◌++◌,
  ◌==◌, if◌then◌else◌,
}

pub record RpcTask : Type 0 where
  -- `client_` and `ctx_` are set
  pub holds : Bool
  pub ctx : ℕ
  pub dismiss : Bool
  pub has_timer : Bool
  pub duration : ℕ
  pub has_result : Bool

pub data TaskEffect : Type 0 where
  -- connect, after the delay, and then call; without a connection the error goes to the context
  connects_then_calls : ℕ → ℕ → TaskEffect
  calls : ℕ → TaskEffect
  calls_after : ℕ → ℕ → TaskEffect
  -- connect and wait for it
  connects_and_waits : ℕ → TaskEffect
  creates_barrier : ℕ → TaskEffect
  calls_waited : ℕ → TaskEffect
  waits : ℕ → TaskEffect
  throws : ℕ → ℕ → TaskEffect
  -- on the context
  sets_reply : ℕ → ℕ → TaskEffect
  sets_on_ok : ℕ → TaskEffect
  sets_on_error : ℕ → TaskEffect
  clears_on_error : ℕ → TaskEffect
  sets_timeout : ℕ → ℕ → TaskEffect
  cancels : ℕ → TaskEffect
  -- a null pointer is used
  uses_null : TaskEffect

unfoldable pub new_task : ℕ → RpcTask
new_task ctx = record {
  holds = true;
  ctx = ctx;
  dismiss = false;
  has_timer = false;
  duration = 0;
  has_result = false;
}

-- the move constructor: the new task and what is left of the old one
unfoldable pub move_task : RpcTask → RpcTask × RpcTask
move_task t = (t, record t { holds = false; dismiss = true; has_timer = false; has_result = false })

-- the copy constructor
unfoldable pub copy_task : RpcTask → RpcTask
copy_task t = t

-- the test of `dismiss_` around a call
unfoldable pub unless_dismissed : RpcTask → RpcTask × List TaskEffect → RpcTask × List TaskEffect
unless_dismissed t r = if t.dismiss then (t, []) else r

-- the call at the end of a task: whether the client is one that is not connected, and whether there
-- is no delay
unfoldable pub call_managed : Bool → Bool → RpcTask → RpcTask × List TaskEffect
call_managed true at_once t =
    (record t { dismiss = true }, connects_then_calls t.ctx t.duration ∷ [])
call_managed false true t = (record t { dismiss = true }, calls t.ctx ∷ [])
call_managed false false t =
    (record t { holds = false; dismiss = true }, calls_after t.ctx t.duration ∷ [])

unfoldable pub do_call_managed : Bool → RpcTask → RpcTask × List TaskEffect
unfolding unless_dismissed call_managed
do_call_managed disconnected t =
    unless_dismissed t (call_managed disconnected (not t.has_timer || (t.duration == 0)) t)

unfoldable pub call_and_wait : ℕ → List TaskEffect
call_and_wait ctx = creates_barrier ctx ∷ (calls_waited ctx ∷ (waits ctx ∷ []))

-- the call that is waited for, with the error of the connection if it fails
unfoldable pub call_waited : Bool → Option ℕ → RpcTask → RpcTask × List TaskEffect
unfolding call_and_wait
call_waited false ec t = (record t { dismiss = true }, call_and_wait t.ctx)
call_waited true none t =
    (record t { dismiss = true }, connects_and_waits t.ctx ∷ call_and_wait t.ctx)
call_waited true (some ec) t =
    (record t { dismiss = true }, connects_and_waits t.ctx ∷ (throws t.ctx ec ∷ []))

unfoldable pub do_call_and_wait : Bool → Option ℕ → RpcTask → RpcTask × List TaskEffect
unfolding unless_dismissed call_waited
do_call_and_wait disconnected ec t = unless_dismissed t (call_waited disconnected ec t)

-- an operation that reads `client_` or `ctx_`
unfoldable pub holding : RpcTask → RpcTask × List TaskEffect → RpcTask × List TaskEffect
holding t r = if t.holds then r else (t, uses_null ∷ [])

unfoldable pub cancel_task : RpcTask → RpcTask × List TaskEffect
unfolding holding
cancel_task t = holding t (t, cancels t.ctx ∷ [])

unfoldable pub reply_task : ℕ → RpcTask → RpcTask × List TaskEffect
unfolding holding
reply_task reply_id t = holding t (t, sets_reply t.ctx reply_id ∷ [])

unfoldable pub on_ok_task : RpcTask → RpcTask × List TaskEffect
unfolding holding
on_ok_task t = holding t (record t { has_result = true }, sets_on_ok t.ctx ∷ [])

unfoldable pub on_error_task : RpcTask → RpcTask × List TaskEffect
unfolding holding
on_error_task t = holding t (t, sets_on_error t.ctx ∷ [])

unfoldable pub delay_task : ℕ → RpcTask → RpcTask × List TaskEffect
unfolding holding
delay_task duration t =
    if duration == 0
    then (t, [])
    else if t.has_timer
    then (record t { duration = duration }, [])
    else holding t (record t { has_timer = true; duration = duration }, [])

unfoldable pub timeout_task : ℕ → RpcTask → RpcTask × List TaskEffect
unfolding holding
timeout_task duration t = holding t (t, sets_timeout t.ctx duration ∷ [])

-- `wait` of a task with a result, up to the call
unfoldable pub prepare_wait : ℕ → RpcTask → RpcTask × List TaskEffect
unfolding unless_dismissed
prepare_wait duration t = unless_dismissed t (
  record t { has_result = true },
  sets_timeout t.ctx duration ∷ (sets_on_ok t.ctx ∷ (clears_on_error t.ctx ∷ [])),
)

unfoldable pub wait_task : Bool → Option ℕ → ℕ → RpcTask → RpcTask × List TaskEffect
unfolding do_call_and_wait prepare_wait
wait_task disconnected ec duration t =
    let (prepared, before) = prepare_wait duration t in
    let (after, effects) = do_call_and_wait disconnected ec prepared in (after, before ++ effects)

-- What a program does with its tasks, which stand in a list in the order of their construction.
-- `typed_rpc_task` declares its copy constructor and so has no move constructor: where a program
-- moves a task of this type, the move here is `copy_from`; `move_from` is the one of `rpc_task`.
pub data TaskMove : Type 0 where
  construct : ℕ → TaskMove
  move_from : ℕ → TaskMove
  copy_from : ℕ → TaskMove
  destroy : Bool → ℕ → TaskMove
  cancel_at : ℕ → TaskMove
  reply_at : ℕ → ℕ → TaskMove
  on_ok_at : ℕ → TaskMove
  on_error_at : ℕ → TaskMove
  delay_at : ℕ → ℕ → TaskMove
  timeout_at : ℕ → ℕ → TaskMove
  wait_at : Bool → Option ℕ → ℕ → ℕ → TaskMove

-- an operation on the task at an index; there is none behind the end
unfoldable pub at_task :
    (RpcTask → RpcTask × List TaskEffect) → ℕ → List RpcTask → List RpcTask × List TaskEffect
at_task f i [] = ([], [])
at_task f zero (t ∷ ts) = let (after, effects) = f t in (after ∷ ts, effects)
at_task f (suc i) (t ∷ ts) = let (after, effects) = at_task f i ts in (t ∷ after, effects)

unfoldable pub task_at : ℕ → List RpcTask → List RpcTask
task_at i [] = []
task_at zero (t ∷ ts) = t ∷ []
task_at (suc i) (t ∷ ts) = task_at i ts

-- the old task as the move constructor leaves it
unfoldable pub moved_from : RpcTask → RpcTask × List TaskEffect
unfolding move_task
moved_from t = ((move_task t).1, [])

unfoldable pub task_step : TaskMove → List RpcTask → List RpcTask × List TaskEffect
unfolding at_task task_at moved_from new_task copy_task do_call_managed cancel_task reply_task
    on_ok_task on_error_task delay_task timeout_task wait_task
task_step (construct ctx) ts = (ts ++ (new_task ctx ∷ []), [])
task_step (move_from i) ts = ((at_task moved_from i ts).0 ++ task_at i ts, [])
task_step (copy_from i) ts = (ts ++ task_at i ts, [])
task_step (destroy disconnected i) ts = at_task (do_call_managed disconnected) i ts
task_step (cancel_at i) ts = at_task cancel_task i ts
task_step (reply_at reply_id i) ts = at_task (reply_task reply_id) i ts
task_step (on_ok_at i) ts = at_task on_ok_task i ts
task_step (on_error_at i) ts = at_task on_error_task i ts
task_step (delay_at duration i) ts = at_task (delay_task duration) i ts
task_step (timeout_at duration i) ts = at_task (timeout_task duration) i ts
task_step (wait_at disconnected ec duration i) ts =
    at_task (wait_task disconnected ec duration) i ts

unfoldable pub run_tasks : List TaskMove → List RpcTask → List RpcTask × List TaskEffect
unfolding task_step
run_tasks [] ts = (ts, [])
run_tasks (m ∷ ms) ts =
    let (after, effects) = task_step m ts in
    let (last, later) = run_tasks ms after in (last, effects ++ later)
