-- ===== src/Timer/TimerManager/Schedule.antt =====
-- The times of a fixed timer of timer_manager.hpp.
use native.Mathlib.Nat.{suc-mul}
use network_core.Common.{
  ℕ, ◌+◌, ◌*◌, ◌<◌, ◌≤◌, ◌≡◌, refl, sym, ap, subst, ◌∙◌, Bool, true, false, not, ◌&&◌, ◌||◌, List,
  [], ◌∷◌, ◌++◌, if◌then◌else◌, ltb, leb, ◌==◌, length, arith, ==_refl,
}
use network_core.Timer.TimerManager.{
  ok, TimerInfo, TimerManager, Effect, called, wait_for, wait_until, Ran, is_ok, set_info,
  create_timer, set_fix_timer, calc_next_time, start_info, run_func, continue_timer, timer_handler,
}
use network_core.Timer.TimerManager.Events.{returns, if_holds}

-- the waits of a timer end at these times, and its function gives these results
unfoldable pub fire_all : ℕ → List (ℕ × Bool) → TimerManager → TimerManager
unfolding timer_handler
fire_all id [] m = m
fire_all id ((now, result) ∷ ts) m = fire_all id ts (timer_handler 0 (returns result) now id m).0

-- every wait ends at most a period after its time
unfoldable pub on_time : (ms due : ℕ) → List (ℕ × Bool) → Bool
on_time ms due [] = true
on_time ms due ((now, result) ∷ ts) = leb now (due + ms) && on_time ms (due + ms) ts

start_info-fixed :
    (now id : ℕ) (m : TimerManager)
    → 0 < (m.infos id).next_time
    → (start_info now id m).0.infos id ≡ calc_next_time now (record (m.infos id) { status = ok })
unfolding start_info
start_info-fixed now id m h =
    let info = record (m.infos id) { status = ok } in
    let fixed = calc_next_time now info in
    let there : not (info.next_time == 0) ≡ true = ground (arith, h) in
    let pick : Bool → TimerManager × List Effect = λ b.
      if b
      then (set_info id fixed m, wait_until id fixed.next_time ∷ [])
      else (set_info id info m, wait_for id info.milliseconds ∷ []) in
    ap (λ b. (pick b).0.infos id) there ∙ ap (λ b. if b then fixed else m.infos id) (==_refl id)

run_func-manager : (b : Bool) (id : ℕ) (m : TimerManager) → (run_func (returns b) id m).manager ≡ m
unfolding run_func
run_func-manager b id m =
    if_holds (λ (r : Ran). r.manager ≡ m) (m.infos id).has_func
      (record { is_continue = b; manager = m; effects = called id ∷ [] })
      (record { is_continue = false; manager = m; effects = [] }) (λ _. refl) refl

-- the wait of a fixed timer ends: it is started again, whatever its function gives
timer_handler-fixed :
    (b : Bool) (now id : ℕ) (m : TimerManager)
    → is_ok (m.infos id).status ≡ true
    → 0 < (m.infos id).next_time
    → (timer_handler 0 (returns b) now id m).0.infos id
      ≡ calc_next_time now (record (m.infos id) { status = ok })
unfolding timer_handler continue_timer
timer_handler-fixed b now id m o h =
    let r = run_func (returns b) id m in
    let same = run_func-manager b id m in
    let s = start_info now id r.manager in
    let goes : (r.is_continue || ltb 0 (r.manager.infos id).next_time) ≡ true =
      subst (λ m'. (r.is_continue || ltb 0 (m'.infos id).next_time) ≡ true) (sym same)
        (ground (arith, h)) in
    let enter : Bool → TimerManager × List Effect =
      λ c. if c then continue_timer now id r else (m, []) in
    let again : Bool → TimerManager × List Effect =
      λ c. if c then (s.0, r.effects ++ s.1) else (r.manager, r.effects) in
    ap (λ c. (enter c).0.infos id) o
    ∙ ap (λ c. (again c).0.infos id) goes
    ∙ ap (λ m'. (start_info now id m').0.infos id) same
    ∙ start_info-fixed now id m h

calc_next_time-on_time :
    (now : ℕ) (info : TimerInfo)
    → now ≤ info.next_time + info.milliseconds
    → (calc_next_time now info).next_time ≡ info.next_time + info.milliseconds
unfolding calc_next_time
calc_next_time-on_time now info h = ground (arith, h)

fire_all-due :
    (ts : List (ℕ × Bool)) (id ms due : ℕ) (m : TimerManager)
    → is_ok (m.infos id).status ≡ true
    → 0 < due
    → (m.infos id).next_time ≡ due
    → (m.infos id).milliseconds ≡ ms
    → on_time ms due ts ≡ true
    → ((fire_all id ts m).infos id).next_time ≡ due + length ts * ms
unfolding fire_all on_time calc_next_time
fire_all-due [] id ms due m o p d e h = d ∙ omega arith
fire_all-due ((now, b) ∷ ts) id ms due m o p d e h =
    let info = record (m.infos id) { status = ok } in
    let m' = (timer_handler 0 (returns b) now id m).0 in
    let eq = timer_handler-fixed b now id m o (omega (arith, p, d)) in
    let next : (m'.infos id).next_time ≡ due + ms =
      ap (λ i. i.next_time) eq
      ∙ calc_next_time-on_time now info (ground (arith, h, d, e))
      ∙ omega (arith, d, e) in
    fire_all-due ts id ms (due + ms) m' (ap (λ i. is_ok i.status) eq) (omega (arith, p)) next
      (ap (λ i. i.milliseconds) eq ∙ e) (ground (arith, h))
    ∙ omega (arith, suc-mul (length ts) ms)

-- A fixed timer that is created at `t` with a period, started within two periods, and whose waits
-- each end at most a period late: after `k` of them its next time is `t` and `k + 2` periods. The
-- times do not drift, the function's results do not matter, and the first of them is two periods
-- after `t`.
pub set_fix_timer-due :
    (t now ms : ℕ) (ts : List (ℕ × Bool)) (m : TimerManager)
    → 0 < ms
    → now ≤ t + ms + ms
    → on_time ms (t + ms + ms) ts ≡ true
    → let (id, m') = set_fix_timer t ms true m in
      ((fire_all id ts (start_info now id m').0).infos id).next_time ≡ t + ms + ms + length ts * ms
unfolding set_fix_timer create_timer calc_next_time
set_fix_timer-due t now ms ts m pos small h =
    let (id, m') = set_fix_timer t ms true m in
    let info : TimerInfo = record {
      status = ok;
      milliseconds = ms;
      next_time = t + ms;
      has_func = true;
    } in
    let blank : TimerInfo = record {
      status = ok;
      milliseconds = ms;
      next_time = 0;
      has_func = true;
    } in
    let same : m'.infos id ≡ info =
      ap
        (λ b.
          if b
          then record (if b then blank else m.infos id) { next_time = t + ms }
          else if b
          then blank
          else m.infos id)
        (==_refl id) in
    let eq =
      start_info-fixed now id m' (omega (arith, pos, ap {B = ℕ} (λ i. i.next_time) same))
      ∙ ap (λ i. calc_next_time now (record i { status = ok })) same in
    fire_all-due ts id ms (t + ms + ms) (start_info now id m').0 (ap (λ i. is_ok i.status) eq)
      (omega (arith, pos)) (ap (λ i. i.next_time) eq ∙ calc_next_time-on_time now info small)
      (ap (λ i. i.milliseconds) eq) h
