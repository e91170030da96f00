-- ===== src/Timer/TimerManager/Canceled.antt =====
-- A timer of timer_manager.hpp that was stopped.
use network_core.Common.{
  ℕ, ◌+◌, ◌≤◌, ◌≡◌, refl, sym, ap, subst, ◌∙◌, Bool, true, false, not, ◌&&◌, ◌||◌, List, [], ◌∷◌,
  ◌++◌, if◌then◌else◌, ltb, ◌==◌, arith, Bool-cases, inl, inr, ==_iff, ==_refl,
}
use network_core.Timer.TimerManager.{
  ok, canceled, TimerInfo, TimerManager, Effect, called, wait_for, wait_until, erase_timer, Ran,
  is_ok, set_info, has_timer, create_timer, set_timer, set_fix_timer, start_info, stop_info,
  auto_start_timer, start_timer_id, stop_timer_id, close_timer, continue_timer, run_func,
  timer_handler, calc_next_time,
}
use network_core.Timer.TimerManager.Events.{
  Event, created, created_fixed, auto_started, started, stopped, closed, waited, returns, happen,
  run_events, calls_of, starts_again, calls_of-append, if_holds,
}

-- a timer that is stopped
pub record Canceled (id : ℕ) (m : TimerManager) : Type 0 where
  pub status_eq : is_ok (m.infos id).status ≡ false
  pub old : id ≤ m.timer_id

-- one event leaves it stopped, and its function is not called
pub record Quiet (id : ℕ) (r : TimerManager × List Effect) : Type 0 where
  pub stays : Canceled id r.0
  pub none_called : calls_of id r.1 ≡ 0

turn : (a b : ℕ) → a == b ≡ false → b == a ≡ false
turn a b h = ground arith

not_called : (id k : ℕ) → k == id ≡ false → calls_of id (called k ∷ []) ≡ 0
unfolding calls_of
not_called id k h = omega (arith, ap {B = ℕ} (λ b. if b then 1 else 0) h)

-- a change of another timer
set_info-Canceled :
    (id k : ℕ) (info : TimerInfo) (m : TimerManager)
    → k == id ≡ false
    → Canceled id m
    → Canceled id (set_info k info m)
set_info-Canceled id k info m h c = record {
  status_eq = ap (λ b. is_ok (if b then info else m.infos id).status) (turn k id h) ∙ c.status_eq;
  old = c.old;
}

start_info-Quiet :
    (now id k : ℕ) (m : TimerManager)
    → k == id ≡ false
    → Canceled id m
    → Quiet id (start_info now k m)
unfolding start_info calls_of
start_info-Quiet now id k m h c =
    let info = record (m.infos k) { status = ok } in
    let fixed = calc_next_time now info in
    if_holds (Quiet id) (not (info.next_time == 0))
      (set_info k fixed m, wait_until k fixed.next_time ∷ [])
      (set_info k info m, wait_for k info.milliseconds ∷ [])
      (λ _. record { stays = set_info-Canceled id k fixed m h c; none_called = refl })
      (record { stays = set_info-Canceled id k info m h c; none_called = refl })

stop_info-Canceled : (id k : ℕ) (m : TimerManager) → Canceled id m → Canceled id (stop_info k m).0
unfolding stop_info
stop_info-Canceled id k m c = record {
  status_eq =
      if_holds (λ (info : TimerInfo). is_ok info.status ≡ false) (id == k)
        (record (m.infos k) { status = canceled }) (m.infos id) (λ _. refl) c.status_eq;
  old = c.old;
}

stop_info_self : (id : ℕ) (m : TimerManager) → id ≤ m.timer_id → Canceled id (stop_info id m).0
unfolding stop_info
stop_info_self id m old = record {
  status_eq =
      ap (λ b. is_ok (if b then record (m.infos id) { status = canceled } else m.infos id).status)
        (==_refl id);
  old = old;
}

stop_info-Quiet : (id k : ℕ) (m : TimerManager) → Canceled id m → Quiet id (stop_info k m)
unfolding stop_info calls_of
stop_info-Quiet id k m c = record { stays = stop_info-Canceled id k m c; none_called = refl }

unchanged : (id : ℕ) (m : TimerManager) → Canceled id m → Quiet id (m, [])
unfolding calls_of
unchanged id m c = record { stays = c; none_called = refl }

-- a timer that is not stopped is another one
other_of :
    (id k : ℕ) (m : TimerManager)
    → is_ok (m.infos k).status ≡ true
    → Canceled id m
    → k == id ≡ false
other_of id k m runs c = elim (Bool-cases (k == id)) [
  | inl e ↦
      absurd
        (ground (arith, runs, c.status_eq, ap (λ i. is_ok (m.infos i).status) ((==_iff k id).0 e)))
  | inr e ↦ e
]

continue_timer-Quiet :
    (now id k : ℕ) (r : Ran)
    → k == id ≡ false
    → Canceled id r.manager
    → calls_of id r.effects ≡ 0
    → Quiet id (continue_timer now k r)
unfolding continue_timer
continue_timer-Quiet now id k r h c e =
    let s = start_info now k r.manager in
    let q = start_info-Quiet now id k r.manager h c in
    if_holds (Quiet id) (r.is_continue || ltb 0 (r.manager.infos k).next_time)
      (s.0, r.effects ++ s.1) (r.manager, r.effects)
      (λ _. record {
        stays = q.stays;
        none_called = calls_of-append id r.effects s.1 ∙ omega (arith, e, q.none_called);
      })
      (record { stays = c; none_called = e })

run_func-quiet :
    (result : Bool) (id k : ℕ) (m : TimerManager)
    → k == id ≡ false
    → Canceled id m
    → let r = run_func (returns result) k m in Canceled id r.manager × (calls_of id r.effects ≡ 0)
unfolding run_func calls_of
run_func-quiet result id k m h c =
    if_holds (λ (r : Ran). Canceled id r.manager × (calls_of id r.effects ≡ 0)) (m.infos k).has_func
      (record { is_continue = result; manager = m; effects = called k ∷ [] })
      (record { is_continue = false; manager = m; effects = [] }) (λ _. (c, not_called id k h))
      (c, refl)

timer_handler-Quiet :
    (error : ℕ) (result : Bool) (now id k : ℕ) (m : TimerManager)
    → Canceled id m
    → Quiet id (timer_handler error (returns result) now k m)
unfolding timer_handler
timer_handler-Quiet error result now id k m c =
    let r = run_func (returns result) k m in
    if_holds (Quiet id) ((error == 0) && is_ok (m.infos k).status) (continue_timer now k r) (m, [])
      (λ g.
        let h = other_of id k m (ground (arith, g)) c in
        let (kept, quiet) = run_func-quiet result id k m h c in
        continue_timer-Quiet now id k r h kept quiet)
      (unchanged id m c)

create_timer-Canceled :
    (milliseconds : ℕ) (b : Bool) (id : ℕ) (m : TimerManager)
    → Canceled id m
    → Canceled id (create_timer milliseconds b m).1
unfolding create_timer
create_timer-Canceled milliseconds b id m c =
    let info : TimerInfo = record {
      status = ok;
      milliseconds = milliseconds;
      next_time = 0;
      has_func = b;
    } in
    let another : m.timer_id + 1 == id ≡ false = ground (arith, c.old) in
    record {
      status_eq = (set_info-Canceled id (m.timer_id + 1) info m another c).status_eq;
      old = omega (arith, c.old);
    }

created_other :
    (ms id : ℕ) (m : TimerManager) → Canceled id m → (create_timer ms true m).0 == id ≡ false
unfolding create_timer
created_other ms id m c = ground (arith, c.old)

happen-Quiet :
    (id : ℕ) (e : Event) (m : TimerManager)
    → starts_again id (e ∷ []) ≡ false
    → Canceled id m
    → Quiet id (happen e m)
unfolding happen starts_again calls_of set_timer set_fix_timer auto_start_timer start_timer_id
    stop_timer_id close_timer
happen-Quiet id (created ms) m h c = record {
  stays = create_timer-Canceled ms true id m c;
  none_called = refl;
}
happen-Quiet id (created_fixed now ms) m h c =
    let (k, m') = create_timer ms true m in
    let c' = create_timer-Canceled ms true id m c in
    record {
      stays =
          set_info-Canceled id k (record (m'.infos k) { next_time = now + ms }) m'
            (created_other ms id m c) c';
      none_called = refl;
    }
happen-Quiet id (auto_started now k) m h c =
    if_holds (Quiet id) (has_timer k m.timers && is_ok (m.infos k).status) (start_info now k m)
      (m, []) (λ g. start_info-Quiet now id k m (other_of id k m (ground (arith, g)) c) c)
      (unchanged id m c)
happen-Quiet id (started now k) m h c =
    if_holds (Quiet id) (has_timer k m.timers) (start_info now k m) (m, [])
      (λ _. start_info-Quiet now id k m (ground (arith, h)) c) (unchanged id m c)
happen-Quiet id (stopped k) m h c =
    if_holds (Quiet id) (has_timer k m.timers) (stop_info k m) (m, [])
      (λ _. stop_info-Quiet id k m c) (unchanged id m c)
happen-Quiet id (closed k) m h c =
    let q = stop_info-Quiet id k m c in
    if_holds (Quiet id) (has_timer k m.timers)
      (record (stop_info k m).0 { timers = erase_timer k m.timers }, (stop_info k m).1) (m, [])
      (λ _. record {
        stays = record { status_eq = q.stays.status_eq; old = q.stays.old };
        none_called = q.none_called;
      })
      (unchanged id m c)
happen-Quiet id (waited error result now k) m h c = timer_handler-Quiet error result now id k m c

starts_again-cons :
    (id : ℕ) (e : Event) (es : List Event)
    → starts_again id (e ∷ es) ≡ starts_again id (e ∷ []) || starts_again id es
unfolding starts_again
starts_again-cons id (created ms) es = refl
starts_again-cons id (created_fixed now ms) es = refl
starts_again-cons id (auto_started now k) es = refl
starts_again-cons id (started now k) es = ground arith
starts_again-cons id (stopped k) es = refl
starts_again-cons id (closed k) es = refl
starts_again-cons id (waited error result now k) es = refl

run_events-Quiet :
    (id : ℕ) (es : List Event) (m : TimerManager)
    → starts_again id es ≡ false
    → Canceled id m
    → calls_of id (run_events es m).1 ≡ 0
unfolding run_events calls_of
run_events-Quiet id [] m h c = refl
run_events-Quiet id (e ∷ es) m h c =
    let split = sym (starts_again-cons id e es) ∙ h in
    let q = happen-Quiet id e m (ground (arith, split)) c in
    let (m', effects) = happen e m in
    calls_of-append id effects (run_events es m').1
    ∙ omega (arith, q.none_called, run_events-Quiet id es m' (ground (arith, split)) q.stays)

-- After a timer of the map, with an id that was given out, has been stopped: as long as no
-- timer's function touches a timer, its function does not run, whatever waits end, with or without
-- an error, and whatever timers are created, started, stopped or closed, until `start` is called
-- for it again; a proxy that goes out of scope does not start it either.
pub stop_timer_id-calls_of :
    (id : ℕ) (es : List Event) (m : TimerManager)
    → has_timer id m.timers ≡ true
    → id ≤ m.timer_id
    → starts_again id es ≡ false
    → calls_of id (run_events es (stop_timer_id id m).0).1 ≡ 0
unfolding stop_timer_id
stop_timer_id-calls_of id es m there old h = run_events-Quiet id es (stop_timer_id id m).0 h (
    subst (λ b. Canceled id (if b then stop_info id m else (m, [])).0) (sym there)
      (stop_info_self id m old))
