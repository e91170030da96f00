-- ===== src/Timer/TimerManager/Events.antt =====
-- What happens to the timers of timer_manager.hpp, and how often a function runs.
use network_core.Common.{
  ℕ, ◌+◌, ◌≡◌, refl, Bool, true, false, ◌||◌, List, [], ◌∷◌, ◌++◌, if◌then◌else◌, ◌==◌, arith,
}
use network_core.Timer.TimerManager.{
  TimerManager, Effect, called, Ran, set_timer, set_fix_timer, auto_start_timer, start_timer_id,
  stop_timer_id, close_timer, timer_handler,
}

-- what happens to the timers; a function that runs touches no timer
pub data Event : Type 0 where
  created : (milliseconds : ℕ) → Event
  created_fixed : (now milliseconds : ℕ) → Event
  auto_started : (now id : ℕ) → Event
  started : (now id : ℕ) → Event
  stopped : ℕ → Event
  closed : ℕ → Event
  waited : (error : ℕ) (result : Bool) (now id : ℕ) → Event

abbrev pub returns : Bool → TimerManager → Ran
returns b m = record { is_continue = b; manager = m; effects = [] }

unfoldable pub happen : Event → TimerManager → TimerManager × List Effect
unfolding set_timer set_fix_timer auto_start_timer start_timer_id stop_timer_id close_timer
    timer_handler
happen (created milliseconds) m = ((set_timer milliseconds true m).1, [])
happen (created_fixed now milliseconds) m = ((set_fix_timer now milliseconds true m).1, [])
happen (auto_started now id) m = auto_start_timer now id m
happen (started now id) m = start_timer_id now id m
happen (stopped id) m = stop_timer_id id m
happen (closed id) m = close_timer id m
happen (waited error result now id) m = timer_handler error (returns result) now id m

unfoldable pub run_events : List Event → TimerManager → TimerManager × List Effect
unfolding happen
run_events [] m = (m, [])
run_events (e ∷ es) m =
    let (m', effects) = happen e m in let (last, more) = run_events es m' in (last, effects ++ more)

-- how often the function of a timer runs
unfoldable pub calls_of : ℕ → List Effect → ℕ
calls_of id [] = 0
calls_of id (called k ∷ es) = (if k == id then 1 else 0) + calls_of id es
calls_of id (_ ∷ es) = calls_of id es

-- whether `start` is called for a timer
unfoldable pub starts_again : ℕ → List Event → Bool
starts_again id [] = false
starts_again id (started now k ∷ es) = (k == id) || starts_again id es
starts_again id (_ ∷ es) = starts_again id es

pub calls_of-append :
    (id : ℕ) (es fs : List Effect) → calls_of id (es ++ fs) ≡ calls_of id es + calls_of id fs
unfolding calls_of
calls_of-append id [] fs = omega arith
calls_of-append id (called k ∷ es) fs = omega (arith, calls_of-append id es fs)
calls_of-append id (_ ∷ es) fs = calls_of-append id es fs

pub if_holds :
    {A : Type 0} (P : A → Type 0) (b : Bool) (x y : A)
    → (b ≡ true → P x)
    → P y
    → P (if b then x else y)
if_holds P true x y f q = f refl
if_holds P false x y f q = q
