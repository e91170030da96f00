-- ===== src/Timer/TimerManager.antt =====
-- `timer_manager` and `timer_proxy` of network/timer/timer_manager.hpp. A timer's information is
-- shared by the map and by the handlers that wait, so it stands in a store by the timer's id, and
-- the map is the list of the ids in it. The waits of boost's timers are effects, their ends are
-- calls of `timer_handler`; the clock is an argument. Times are not negative.
pub mod Events
pub mod Canceled
pub mod Schedule
pub mod Proxy
mod Tests
use network_core.Common.{
  ℕ, zero, suc, ◌+◌, Bool, true, false, not, ◌&&◌, ◌||◌, List, [], ◌∷◌, ◌++◌, if◌then◌else◌, ltb,
  ◌==◌,
}

pub data TimerStatus : Type 0 where
  ok canceled : TimerStatus

pub record TimerInfo : Type 0 where
  pub status : TimerStatus
  pub milliseconds : ℕ
  pub next_time : ℕ
  -- the function is there
  pub has_func : Bool

pub record TimerManager : Type 0 where
  pub infos : ℕ → TimerInfo
  pub timers : List ℕ
  pub timer_id : ℕ

pub data Effect : Type 0 where
  -- async_wait and async_wait_at_time
  wait_for : (id milliseconds : ℕ) → Effect
  wait_until : (id time : ℕ) → Effect
  cancel_wait : ℕ → Effect
  called : ℕ → Effect

-- what a timer's function did: its result, and what it made of the manager
pub record Ran : Type 0 where
  pub is_continue : Bool
  pub manager : TimerManager
  pub effects : List Effect

abbrev pub is_ok : TimerStatus → Bool
is_ok ok = true
is_ok canceled = false

unfoldable pub has_timer : ℕ → List ℕ → Bool
has_timer id [] = false
has_timer id (k ∷ ks) = (k == id) || has_timer id ks

unfoldable pub erase_timer : ℕ → List ℕ → List ℕ
erase_timer id [] = []
erase_timer id (k ∷ ks) = let rest = erase_timer id ks in if k == id then rest else k ∷ rest

abbrev pub set_info : ℕ → TimerInfo → TimerManager → TimerManager
set_info id info m = record m { infos = λ k. if k == id then info else m.infos k }

-- create_timer, with the id that it gives
unfoldable pub create_timer : ℕ → Bool → TimerManager → ℕ × TimerManager
unfolding has_timer
create_timer milliseconds has_func m =
    let id = m.timer_id + 1 in
    let info : TimerInfo = record {
      status = ok;
      milliseconds = milliseconds;
      next_time = 0;
      has_func = has_func;
    } in
    (
      id,
      record (set_info id info m) {
        timer_id = id;
        timers = if has_timer id m.timers then m.timers else id ∷ m.timers;
      },
    )

unfoldable pub set_timer : ℕ → Bool → TimerManager → ℕ × TimerManager
unfolding create_timer
set_timer milliseconds has_func m = create_timer milliseconds has_func m

unfoldable pub set_fix_timer : ℕ → ℕ → Bool → TimerManager → ℕ × TimerManager
unfolding create_timer
set_fix_timer now milliseconds has_func m =
    let (id, m') = create_timer milliseconds has_func m in
    (id, set_info id (record (m'.infos id) { next_time = now + milliseconds }) m')

-- the next time of a fixed timer: a period later, and not in the past
unfoldable pub calc_next_time : ℕ → TimerInfo → TimerInfo
calc_next_time now info =
    let time = info.next_time + info.milliseconds in
    record info { next_time = if ltb time now then now else time }

-- start_timer of an information
unfoldable pub start_info : ℕ → ℕ → TimerManager → TimerManager × List Effect
unfolding calc_next_time
start_info now id m =
    let info = record (m.infos id) { status = ok } in
    let fixed = calc_next_time now info in
    if not (info.next_time == 0)
    then (set_info id fixed m, wait_until id fixed.next_time ∷ [])
    else (set_info id info m, wait_for id info.milliseconds ∷ [])

unfoldable pub stop_info : ℕ → TimerManager → TimerManager × List Effect
stop_info id m = (set_info id (record (m.infos id) { status = canceled }) m, cancel_wait id ∷ [])

unfoldable pub auto_start_timer : ℕ → ℕ → TimerManager → TimerManager × List Effect
unfolding has_timer start_info
auto_start_timer now id m =
    if has_timer id m.timers && is_ok (m.infos id).status then start_info now id m else (m, [])

unfoldable pub start_timer_id : ℕ → ℕ → TimerManager → TimerManager × List Effect
unfolding has_timer start_info
start_timer_id now id m = if has_timer id m.timers then start_info now id m else (m, [])

unfoldable pub stop_timer_id : ℕ → TimerManager → TimerManager × List Effect
unfolding has_timer stop_info
stop_timer_id id m = if has_timer id m.timers then stop_info id m else (m, [])

unfoldable pub close_timer : ℕ → TimerManager → TimerManager × List Effect
unfolding has_timer stop_info erase_timer
close_timer id m =
    let (m', effects) = stop_info id m in
    if has_timer id m.timers
    then (record m' { timers = erase_timer id m.timers }, effects)
    else (m, [])

-- invoke_timer: the function runs, and its result is dropped
unfoldable pub invoke_timer : (TimerManager → Ran) → ℕ → TimerManager → TimerManager × List Effect
unfolding has_timer
invoke_timer func id m =
    if has_timer id m.timers && (m.infos id).has_func
    then ((func m).manager, called id ∷ (func m).effects)
    else (m, [])

unfoldable pub stop_all : List ℕ → TimerManager → TimerManager × List Effect
unfolding stop_info
stop_all [] m = (m, [])
stop_all (id ∷ ids) m =
    let (m', effects) = stop_info id m in
    let (last, more) = stop_all ids m' in (last, effects ++ more)

unfoldable pub stop_all_timer : TimerManager → TimerManager × List Effect
unfolding stop_all
stop_all_timer m = stop_all m.timers m

-- what the function of a timer makes of the manager, if it is there
unfoldable pub run_func : (TimerManager → Ran) → ℕ → TimerManager → Ran
run_func func id m =
    if (m.infos id).has_func
    then record {
      is_continue = (func m).is_continue;
      manager = (func m).manager;
      effects = called id ∷ (func m).effects;
    }
    else record { is_continue = false; manager = m; effects = [] }

-- the rest of timer_handler
unfoldable pub continue_timer : ℕ → ℕ → Ran → TimerManager × List Effect
unfolding start_info
continue_timer now id r =
    let (m, effects) = start_info now id r.manager in
    if r.is_continue || ltb 0 (r.manager.infos id).next_time
    then (m, r.effects ++ effects)
    else (r.manager, r.effects)

unfoldable pub timer_handler :
    ℕ → (TimerManager → Ran) → ℕ → ℕ → TimerManager → TimerManager × List Effect
unfolding run_func continue_timer
timer_handler error func now id m =
    if (error == 0) && is_ok (m.infos id).status
    then continue_timer now id (run_func func id m)
    else (m, [])
