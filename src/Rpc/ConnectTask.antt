-- ===== src/Rpc/ConnectTask.antt =====
-- `connect_task` of network/rpc/net/rpc_task.hpp: a connection that is opened when its task goes
-- away, or that is waited for. Durations are in milliseconds, with 0 for what is not positive.
use network_core.Common.{
  ℕ, ◌≡◌, refl, ap, ◌∙◌, Bool, true, false, not, ◌||◌, Option, none, some, List, [], ◌∷◌, ◌++◌,
  ◌==◌, if◌then◌else◌,
}
use network_core.Rpc.Context.{NetResult, app_error}
use network_core.Net.Errors

-- what stands in `on_ok_` and `on_error_`: nothing, the user's function, or that of `wait`
pub data TaskHandler : Type 0 where
  no_function : TaskHandler
  user_function : TaskHandler
  wait_function : TaskHandler

pub record ConnectTask : Type 0 where
  pub has_client : Bool
  pub dismiss : Bool
  pub ok_handler : TaskHandler
  pub error_handler : TaskHandler
  pub has_barrier : Bool
  pub has_result : Bool
  pub has_delay_timer : Bool
  pub duration : ℕ
  pub has_timeout_timer : Bool
  pub timeout_duration : ℕ

pub data ConnectEffect : Type 0 where
  starts : TaskHandler → TaskHandler → ConnectEffect
  starts_after : ℕ → TaskHandler → TaskHandler → ConnectEffect
  times_out_after : ℕ → ConnectEffect
  waits_for_barrier : ConnectEffect
  reads_result : ConnectEffect
  uses_nullptr : ConnectEffect

unfoldable pub new_connect_task : ConnectTask
new_connect_task = record {
  has_client = true;
  dismiss = false;
  ok_handler = no_function;
  error_handler = no_function;
  has_barrier = false;
  has_result = false;
  has_delay_timer = true;
  duration = 0;
  has_timeout_timer = true;
  timeout_duration = 0;
}

-- the move constructor: the new task, whose timeout is what was in its memory, and the old one
unfoldable pub move_connect_task : ℕ → ConnectTask → ConnectTask × ConnectTask
move_connect_task memory t = (
  record t { has_timeout_timer = false; timeout_duration = memory },
  record t {
    has_client = false;
    dismiss = true;
    ok_handler = no_function;
    error_handler = no_function;
    has_barrier = false;
    has_result = false;
    has_delay_timer = false;
  },
)

unfoldable pub connect_on_ok : ConnectTask → ConnectTask
connect_on_ok t = record t { ok_handler = user_function }

unfoldable pub connect_on_error : ConnectTask → ConnectTask
connect_on_error t = record t { error_handler = user_function }

unfoldable pub connect_delay : ℕ → ConnectTask → ConnectTask
connect_delay duration t = if duration == 0 then t else record t { duration = duration }

-- `timeout` with a duration, and with a number of milliseconds
unfoldable pub connect_timeout : ℕ → ConnectTask → ConnectTask
connect_timeout duration t = if duration == 0 then t else record t { timeout_duration = duration }

unfoldable pub connect_timeout_ms : ℕ → ConnectTask → ConnectTask
unfolding connect_delay
connect_timeout_ms milliseconds t = connect_delay milliseconds t

unfoldable pub connect_call_managed : ConnectTask → ConnectTask × List ConnectEffect
connect_call_managed t =
    let gone = record t { dismiss = true; ok_handler = no_function; error_handler = no_function } in
    if t.dismiss
    then (t, [])
    else if not t.has_delay_timer || (t.duration == 0)
    then (gone, starts t.ok_handler t.error_handler ∷ [])
    else (
      record gone { has_client = false },
      starts_after t.duration t.ok_handler t.error_handler ∷ [],
    )

unfoldable pub timeout_effects : ConnectTask → List ConnectEffect
timeout_effects t =
    if t.timeout_duration == 0
    then []
    else if t.has_timeout_timer
    then times_out_after t.timeout_duration ∷ []
    else uses_nullptr ∷ []

unfoldable pub connect_call_and_wait : ConnectTask → ConnectTask × List ConnectEffect
unfolding timeout_effects
connect_call_and_wait t = if t.dismiss then (t, []) else (
  record t { dismiss = true; ok_handler = no_function; error_handler = no_function },
  timeout_effects t ++ (starts t.ok_handler t.error_handler ∷ (waits_for_barrier ∷ [])),
)

unfoldable pub given_timeout : Option ℕ → ℕ → ℕ
given_timeout none old = old
given_timeout (some duration) old = duration

unfoldable pub prepare_connect_wait : Option ℕ → ConnectTask → ConnectTask
unfolding given_timeout
prepare_connect_wait duration t = if t.dismiss then t else record t {
  timeout_duration = given_timeout duration t.timeout_duration;
  has_result = true;
  has_barrier = true;
  ok_handler = wait_function;
  error_handler = wait_function;
}

-- `wait`, with no duration for the default; the result is behind a pointer
unfoldable pub connect_wait : Option ℕ → ConnectTask → ConnectTask × List ConnectEffect
unfolding prepare_connect_wait connect_call_and_wait
connect_wait duration t =
    let (after, effects) = connect_call_and_wait (prepare_connect_wait duration t) in
    (after, effects ++ ((if after.has_result then reads_result else uses_nullptr) ∷ []))

-- What can end the wait, in the order in which it comes.
pub data WaitEvent : Type 0 where
  connected : WaitEvent
  connect_refused : NetResult → WaitEvent
  timer_expired : WaitEvent
  timer_failed : NetResult → WaitEvent

-- the barrier, and the result that the task shares with its handlers
pub record Waiting : Type 0 where
  pub over : Bool
  pub result : NetResult

unfoldable pub outcome : NetResult → WaitEvent → NetResult
outcome r connected = r
outcome r (connect_refused ec) = ec
outcome r timer_expired = app_error Errors.timeout
outcome r (timer_failed ec) = ec

unfoldable pub wait_event : WaitEvent → Waiting → Waiting
unfolding outcome
wait_event e w = if w.over then w else record { over = true; result = outcome w.result e }

unfoldable pub wait_events : List WaitEvent → Waiting → Waiting
unfolding wait_event
wait_events [] w = w
wait_events (e ∷ es) w = wait_events es (wait_event e w)

wait_events-over :
    (es : List WaitEvent) (r : NetResult)
    → wait_events es (record { over = true; result = r }) ≡ record { over = true; result = r }
unfolding wait_events
wait_events-over [] r = refl
wait_events-over (e ∷ es) r = wait_events-over es r

-- The first event ends a wait and decides its result, and those behind it change nothing.
wait_events-first :
    (e : WaitEvent) (es : List WaitEvent) (r : NetResult)
    → wait_events (e ∷ es) (record { over = false; result = r })
      ≡ record { over = true; result = outcome r e }
unfolding wait_events
wait_events-first e es r = wait_events-over es (outcome r e)

-- A task that was moved, and whose memory for the timeout was not 0, uses a null pointer when it is
-- waited for without a duration, whatever timeout was set before the move.
moved_wait :
    (memory : ℕ) (t : ConnectTask)
    → t.dismiss ≡ false
    → (memory == 0) ≡ false
    → (connect_wait none (move_connect_task memory t).0).1
      ≡ uses_nullptr
        ∷ (starts wait_function wait_function ∷ (waits_for_barrier ∷ (reads_result ∷ [])))
unfolding connect_wait move_connect_task timeout_effects given_timeout connect_call_and_wait
    prepare_connect_wait
moved_wait memory t h m =
    let moved = (move_connect_task memory t).0 in
    let ready = record moved {
      has_result = true;
      has_barrier = true;
      ok_handler = wait_function;
      error_handler = wait_function;
    } in
    let ending : ConnectTask × List ConnectEffect → List ConnectEffect =
      λ r. r.1 ++ ((if r.0.has_result then reads_result else uses_nullptr) ∷ []) in
    let calling : List ConnectEffect → Bool → ConnectTask × List ConnectEffect = λ es b.
      if b then (ready, []) else (
        record ready { dismiss = true; ok_handler = no_function; error_handler = no_function },
        es ++ (starts wait_function wait_function ∷ (waits_for_barrier ∷ [])),
      ) in
    ap (λ (b : Bool). ending (connect_call_and_wait (if b then moved else ready))) h
    ∙ (ap (λ b. ending (calling (timeout_effects ready) b)) h
        ∙ ap (λ (b : Bool). ending (calling (if b then [] else uses_nullptr ∷ []) false)) m)
