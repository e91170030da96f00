-- ===== src/Timer/TimerManager/Proxy.antt =====
-- `timer_proxy` of network/timer/timer_manager.hpp: the handle that set_timer gives, which starts
-- its timer when it goes out of scope and nothing else was done with it.
use network_core.Common.{ℕ, ◌≡◌, ap, Bool, true, false, ◌&&◌, List, [], ◌++◌, if◌then◌else◌}
use network_core.Timer.TimerManager.{
  TimerManager, Effect, Ran, auto_start_timer, start_timer_id, stop_timer_id, close_timer,
  invoke_timer,
}

pub record TimerProxy : Type 0 where
  -- timer_ is not null
  pub attached : Bool
  pub id : ℕ
  pub need_start : Bool

-- the constructor with a timer, and the one without
unfoldable pub proxy_of : ℕ → TimerProxy
proxy_of id = record { attached = true; id = id; need_start = true }

unfoldable pub no_proxy : TimerProxy
no_proxy = record { attached = false; id = 0; need_start = false }

-- the move: the new handle, and what is left of the old one
unfoldable pub move_proxy : TimerProxy → TimerProxy × TimerProxy
move_proxy p = (p, record p { need_start = false })

-- a call on a handle: the handle, the manager and the effects
abbrev pub Called : Type 0
Called = TimerProxy × TimerManager × List Effect

unfoldable pub proxy_invoke : (TimerManager → Ran) → TimerProxy → TimerManager → Called
unfolding invoke_timer
proxy_invoke func p m =
    let (m', effects) = invoke_timer func p.id m in
    if p.attached then (p, m', effects) else (p, m, [])

unfoldable pub proxy_start : ℕ → Bool → (TimerManager → Ran) → TimerProxy → TimerManager → Called
unfolding invoke_timer start_timer_id
proxy_start now invoke_first func p m =
    let invoked : TimerManager × List Effect =
      if invoke_first then invoke_timer func p.id m else (m, []) in
    let (m', effects) = start_timer_id now p.id invoked.0 in
    if p.attached then (record p { need_start = false }, m', invoked.1 ++ effects) else (p, m, [])

unfoldable pub proxy_stop : TimerProxy → TimerManager → Called
unfolding stop_timer_id
proxy_stop p m =
    let (m', effects) = stop_timer_id p.id m in
    if p.attached then (record p { need_start = false }, m', effects) else (p, m, [])

unfoldable pub proxy_close : TimerProxy → TimerManager → Called
unfolding close_timer
proxy_close p m =
    let (m', effects) = close_timer p.id m in
    if p.attached
    then (record p { need_start = false; attached = false }, m', effects)
    else (p, m, [])

-- the destructor
unfoldable pub proxy_end : ℕ → TimerProxy → TimerManager → Called
unfolding auto_start_timer
proxy_end now p m =
    let (m', effects) = auto_start_timer now p.id m in
    if p.need_start && p.attached
    then (record p { need_start = false }, m', effects)
    else (record p { need_start = false }, m, [])

-- a handle that was started, stopped, closed or moved from leaves its timer alone at its end
pub proxy_end-used :
    (now : ℕ) (p : TimerProxy) (m : TimerManager)
    → (p.need_start && p.attached) ≡ false
    → ((proxy_end now p m).1 ≡ m) × ((proxy_end now p m).2 ≡ [])
unfolding proxy_end
proxy_end-used now p m h =
    let (m', effects) = auto_start_timer now p.id m in
    let pick : Bool → Called = λ b.
      if b
      then (record p { need_start = false }, m', effects)
      else (record p { need_start = false }, m, []) in
    (ap (λ b. (pick b).1) h, ap (λ b. (pick b).2) h)
