-- ===== src/Timer/TimerManager/Tests.antt =====
-- The timers at concrete inputs.
use network_core.Common.{◌≡◌, refl, true, false, [], ◌∷◌, arith}
use network_core.Timer.TimerManager.{
  TimerManager, ok, has_timer, set_fix_timer, start_info, stop_timer_id,
}
use network_core.Timer.TimerManager.Canceled.{stop_timer_id-calls_of}
use network_core.Timer.TimerManager.Events.{
  created, auto_started, waited, closed, calls_of, run_events, starts_again,
}
use network_core.Timer.TimerManager.Schedule.{fire_all, on_time, set_fix_timer-due}

abbrev no_timers : TimerManager
no_timers = record {
  infos = λ k. record { status = ok; milliseconds = 0; next_time = 0; has_func = false };
  timers = [];
  timer_id = 0;
}

-- two timers, 1 of which waits
abbrev two_timers : TimerManager
two_timers = record {
  infos = λ k. record { status = ok; milliseconds = 50; next_time = 0; has_func = true };
  timers = 2 ∷ (1 ∷ []);
  timer_id = 2;
}

stop_timer_id-calls_of_example :
    calls_of 1
      (run_events
        (created 10
          ∷ (auto_started 5 1 ∷ (waited 0 true 50 1 ∷ (waited 0 true 60 2 ∷ (closed 2 ∷ [])))))
        (stop_timer_id 1 two_timers).0).1
    ≡ 0
unfolding has_timer starts_again
stop_timer_id-calls_of_example =
    stop_timer_id-calls_of 1
      (created 10
        ∷ (auto_started 5 1 ∷ (waited 0 true 50 1 ∷ (waited 0 true 60 2 ∷ (closed 2 ∷ [])))))
      two_timers refl (omega arith) refl

-- created at 1000 with a period of 100
set_fix_timer-due_example :
    let (id, m) = set_fix_timer 1000 100 true no_timers in
    ((fire_all id ((1200, false) ∷ ((1310, true) ∷ [])) (start_info 1001 id m).0).infos
      id).next_time
    ≡ 1400
unfolding on_time
set_fix_timer-due_example =
    set_fix_timer-due 1000 1001 100 ((1200, false) ∷ ((1310, true) ∷ [])) no_timers (omega arith)
      (omega arith) refl
