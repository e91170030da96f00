-- ===== src/Thread/ThreadPool/Runs.antt =====
-- The pool of thread_pool.hpp over any interleaving of its owner, its clients and its workers.
use network_core.Common.{
  ℕ, zero, suc, ◌+◌, ◌≤◌, leb, ◌≡◌, refl, sym, ap, ◌∙◌, Bool, true, false, not, ◌&&◌, ◌||◌, List,
  [], ◌∷◌, ◌++◌, if◌then◌else◌, Bool-cases, inl, inr, arith, append_assoc, append-nil, length,
  length-append,
}
use network_core.Thread.ThreadPool.{
  Worker, ThreadPool, Enqueue, at_stop, at_workers, at_lock, has_future, refused, is_empty, launch,
  init, enqueue, work_at, step, close, all_returned, join,
}
use network_core.Thread.ThreadPool.Workers.{
  starts, ends, worker_at, busy, some_returned, busy_nil, work_at-Worked, some_returned-launch,
  busy-launch, all-some, none_returned,
}

-- a pool with the calls of `enqueue`, what they put in, what was started, and how many tasks have
-- ended
pub record Run : Type 0 where
  pub pool : ThreadPool
  pub clients : List Enqueue
  pub accepted : List ℕ
  pub started : List ℕ
  pub ended : ℕ

pub data Move : Type 0 where
  inits : ℕ → Move
  -- a client calls `enqueue`, or the call with the number goes on
  enqueues : ℕ → Move
  goes_on : ℕ → Move
  steps : ℕ → Move
  closes : Move
  joins : Move

unfoldable pub client_at : ℕ → List Enqueue → Enqueue
client_at i [] = refused
client_at zero (c ∷ cs) = c
client_at (suc i) (c ∷ cs) = client_at i cs

unfoldable pub set_client : ℕ → Enqueue → List Enqueue → List Enqueue
set_client i c [] = []
set_client zero c (d ∷ cs) = c ∷ cs
set_client (suc i) c (d ∷ cs) = d ∷ set_client i c cs

-- what a call puts into the queue
unfoldable pub pushed : Enqueue → ThreadPool → List ℕ
pushed (at_lock task) p = if p.stop then [] else task ∷ []
pushed _ p = []

unfoldable pub move : Move → Run → Run
unfolding init enqueue step close join client_at set_client pushed starts ends worker_at
move (inits n) r = if r.pool.joining then r else record r { pool = init n r.pool }
move (enqueues task) r = record r { clients = r.clients ++ (at_stop task ∷ []) }
move (goes_on i) r =
    let c = client_at i r.clients in
    let (c', p) = enqueue c r.pool in
    record r {
      pool = p;
      clients = set_client i c' r.clients;
      accepted = r.accepted ++ pushed c r.pool;
    }
move (steps i) r = record r {
  pool = step i r.pool;
  started = r.started ++ starts (worker_at i r.pool.workers) r.pool.tasks;
  ended = r.ended + ends (worker_at i r.pool.workers);
}
move closes r = record r { pool = close r.pool }
move joins r = record r { pool = join r.pool }

unfoldable pub run_moves : List Move → Run → Run
unfolding move
run_moves [] r = r
run_moves (m ∷ ms) r = run_moves ms (move m r)

pub record Inv (r : Run) : Type 0 where
  -- the tasks start in the order of their acceptance, each once
  pub order_eq : r.started ++ r.pool.tasks ≡ r.accepted
  pub count_eq : length r.started ≡ r.ended + busy r.pool.workers
  -- a worker returns only when the pool stops and the queue is empty
  pub returned_eq :
      some_returned r.pool.workers ≡ true → (r.pool.stop && is_empty r.pool.tasks) ≡ true
  pub joining_eq : r.pool.joining ≡ true → r.pool.stop ≡ true
  pub stopped_eq : (r.pool.stop && not r.pool.joining) ≡ true → is_empty r.pool.workers ≡ true
  pub served_eq : r.pool.stop ≡ false → is_empty r.pool.workers ≡ false
  pub unserved_eq : is_empty r.pool.workers ≡ true → is_empty r.pool.tasks ≡ true

-- a worker has returned only since the pool stops with an empty queue, which stays empty
still :
    (before stop was now : Bool)
    → (before ≡ true → (stop && was) ≡ true)
    → (before || (stop && was)) ≡ true
    → (was ≡ true → now ≡ true)
    → (stop && now) ≡ true
still before true true now f g k = k refl
still true true false now f g k = absurd (ground (arith, f refl))
still false true false now f g k = absurd (ground arith)
still true false was now f g k = f refl
still false false was now f g k = g

steps-Inv : (i : ℕ) (r : Run) → Inv r → Inv (move (steps i) r)
unfolding move step
steps-Inv i r v =
    let p = r.pool in
    let w = work_at-Worked i p.stop p.workers p.tasks in
    let begun = starts (worker_at i p.workers) p.tasks in
    let (workers, rest) = work_at i p.stop p.workers p.tasks in
    record {
      order_eq = append_assoc r.started begun rest ∙ (ap (◌++◌ r.started) w.taken_eq ∙ v.order_eq);
      count_eq = omega (arith, length-append r.started begun, w.busy_eq, v.count_eq);
      returned_eq = λ h.
          still (some_returned p.workers) p.stop (is_empty p.tasks) (is_empty rest) v.returned_eq
            (w.returned_eq h) w.rest_eq;
      joining_eq = v.joining_eq;
      stopped_eq = λ h. w.empty_eq ∙ v.stopped_eq h;
      served_eq = λ h. w.empty_eq ∙ v.served_eq h;
      unserved_eq = λ h. w.rest_eq (v.unserved_eq (sym w.empty_eq ∙ h));
    }

-- clients go on, and the queue is as it was
calls-Inv :
    (cs : List Enqueue) (r : Run)
    → Inv r
    → Inv (record r { clients = cs; accepted = r.accepted ++ [] })
calls-Inv cs r v = record {
  order_eq = v.order_eq ∙ sym (append-nil r.accepted);
  count_eq = v.count_eq;
  returned_eq = v.returned_eq;
  joining_eq = v.joining_eq;
  stopped_eq = v.stopped_eq;
  served_eq = v.served_eq;
  unserved_eq = v.unserved_eq;
}

-- a client has the lock
locked-Inv :
    (b : Bool) (i task : ℕ) (r : Run)
    → r.pool.stop ≡ b
    → Inv r
    → let next : Enqueue × ThreadPool =
        if b
        then (refused, r.pool)
        else (has_future, record r.pool { tasks = r.pool.tasks ++ (task ∷ []) }) in
      Inv (record r {
        pool = next.1;
        clients = set_client i next.0 r.clients;
        accepted = r.accepted ++ (if b then [] else task ∷ []);
      })
locked-Inv true i task r s v = calls-Inv (set_client i refused r.clients) r v
locked-Inv false i task r s v = record {
  order_eq =
      sym (append_assoc r.started r.pool.tasks (task ∷ [])) ∙ ap (λ l. l ++ (task ∷ [])) v.order_eq;
  count_eq = v.count_eq;
  returned_eq = λ h. absurd (ground (arith, v.returned_eq h));
  joining_eq = v.joining_eq;
  stopped_eq = v.stopped_eq;
  served_eq = v.served_eq;
  unserved_eq = λ h. absurd (ground (arith, v.served_eq s));
}

goes_on-Inv :
    (c : Enqueue) (i : ℕ) (r : Run)
    → Inv r
    → Inv (record r {
      pool = (enqueue c r.pool).1;
      clients = set_client i (enqueue c r.pool).0 r.clients;
      accepted = r.accepted ++ pushed c r.pool;
    })
unfolding enqueue pushed
goes_on-Inv (at_stop task) i r v = calls-Inv _ r v
goes_on-Inv (at_workers task) i r v = calls-Inv _ r v
goes_on-Inv (at_lock task) i r v = locked-Inv r.pool.stop i task r refl v
goes_on-Inv has_future i r v = calls-Inv _ r v
goes_on-Inv refused i r v = calls-Inv _ r v

launch-served : (n : ℕ) (ws : List Worker) → 1 ≤ n → is_empty (launch n ws) ≡ false
unfolding launch
launch-served zero ws l = absurd (omega (arith, l))
launch-served (suc n) ws l = refl

inits-Inv :
    (b c : Bool) (n : ℕ) (r : Run)
    → 1 ≤ n
    → r.pool.joining ≡ b
    → r.pool.stop ≡ c
    → Inv r
    → Inv (
        if b then r else record r {
          pool =
              if not c
              then r.pool
              else record r.pool { stop = false; workers = launch n r.pool.workers };
        })
inits-Inv true c n r l j s v = v
inits-Inv false false n r l j s v = v
inits-Inv false true n r l j s v =
    let empty = v.stopped_eq (ground arith) in
    record {
      order_eq = v.order_eq;
      count_eq = v.count_eq ∙ ap (λ k. r.ended + k) (sym (busy-launch n r.pool.workers));
      returned_eq = λ h. absurd (
          ground
            (arith, some_returned-launch n r.pool.workers, none_returned r.pool.workers empty));
      joining_eq = λ h. absurd (ground arith);
      stopped_eq = λ h. absurd (ground arith);
      served_eq = λ h. launch-served n r.pool.workers l;
      unserved_eq = λ h. v.unserved_eq empty;
    }

closes-Inv :
    (b : Bool) (r : Run)
    → r.pool.stop ≡ b
    → Inv r
    → Inv (record r { pool = if b then r.pool else record r.pool { stop = true; joining = true } })
closes-Inv true r s v = v
closes-Inv false r s v = record {
  order_eq = v.order_eq;
  count_eq = v.count_eq;
  returned_eq = λ h. absurd (ground (arith, v.returned_eq h));
  joining_eq = λ h. refl;
  stopped_eq = λ h. absurd (ground arith);
  served_eq = λ h. absurd (ground (arith, h));
  unserved_eq = v.unserved_eq;
}

joins-Inv :
    (b : Bool) (r : Run)
    → (r.pool.joining && all_returned r.pool.workers) ≡ b
    → Inv r
    → Inv
        (record r { pool = if b then record r.pool { workers = []; joining = false } else r.pool })
unfolding busy some_returned
joins-Inv false r j v = v
joins-Inv true r j v =
    let ended = all-some r.pool.workers (ground arith) in
    record {
      order_eq = v.order_eq;
      count_eq = omega (arith, v.count_eq, ended.1);
      returned_eq = λ h. absurd (ground arith);
      joining_eq = λ h. absurd (ground arith);
      stopped_eq = λ h. refl;
      served_eq = λ h. absurd (ground (arith, v.joining_eq (ground arith), h));
      unserved_eq = λ h. elim (Bool-cases (is_empty r.pool.workers)) [
        | inl e ↦ v.unserved_eq e
        | inr e ↦ ground (arith, ended.0, v.returned_eq (ground (arith, ended.0)))
      ];
    }

-- `init` is called with at least one thread
unfoldable pub has_thread : Move → Bool
has_thread (inits n) = leb 1 n
has_thread _ = true

unfoldable pub have_threads : List Move → Bool
unfolding has_thread
have_threads [] = true
have_threads (m ∷ ms) = has_thread m && have_threads ms

move-Inv : (m : Move) (r : Run) → has_thread m ≡ true → Inv r → Inv (move m r)
unfolding move init close join has_thread
move-Inv (inits n) r h v = inits-Inv r.pool.joining r.pool.stop n r (ground (arith, h)) refl refl v
move-Inv (enqueues task) r h v = record {
  order_eq = v.order_eq;
  count_eq = v.count_eq;
  returned_eq = v.returned_eq;
  joining_eq = v.joining_eq;
  stopped_eq = v.stopped_eq;
  served_eq = v.served_eq;
  unserved_eq = v.unserved_eq;
}
move-Inv (goes_on i) r h v = goes_on-Inv (client_at i r.clients) i r v
move-Inv (steps i) r h v = steps-Inv i r v
move-Inv closes r h v = closes-Inv r.pool.stop r refl v
move-Inv joins r h v = joins-Inv (r.pool.joining && all_returned r.pool.workers) r refl v

run_moves-Inv : (ms : List Move) (r : Run) → have_threads ms ≡ true → Inv r → Inv (run_moves ms r)
unfolding run_moves have_threads
run_moves-Inv [] r h v = v
run_moves-Inv (m ∷ ms) r h v =
    run_moves-Inv ms (move m r) (ground (arith, h)) (move-Inv m r (ground (arith, h)) v)

abbrev pub first : Run
first = record {
  pool = record { workers = []; tasks = []; stop = true; joining = false };
  clients = [];
  accepted = [];
  started = [];
  ended = 0;
}

first-Inv : Inv first
unfolding busy some_returned
first-Inv = record {
  order_eq = refl;
  count_eq = refl;
  returned_eq = λ h. absurd (ground arith);
  joining_eq = λ h. absurd (ground arith);
  stopped_eq = λ h. refl;
  served_eq = λ h. absurd (ground (arith, h));
  unserved_eq = λ h. refl;
}

is_empty-nil : {A : Type 0} (l : List A) → is_empty l ≡ true → l ≡ []
is_empty-nil [] h = refl
is_empty-nil (x ∷ l) h = absurd (ground arith)

-- When the owner, who calls `init` and `close` one after the other and `init` with at least one
-- thread, has returned from `close`, whenever clients called `enqueue`, went on with it between its
-- tests and the lock, and workers took their turns: every task that was put into the queue has been
-- started, once and in the order in which the tasks were put there, and as many tasks have ended.
pub run_moves-closed :
    (ms : List Move)
    → have_threads ms ≡ true
    → (run_moves ms first).pool.stop ≡ true
    → (run_moves ms first).pool.joining ≡ false
    → let r = run_moves ms first in (r.started ≡ r.accepted) × (r.ended ≡ length r.accepted)
run_moves-closed ms h s j =
    let r = run_moves ms first in
    let v = run_moves-Inv ms first h first-Inv in
    let no_workers = v.stopped_eq (ground arith) in
    let done : r.started ≡ r.accepted =
      sym (append-nil r.started)
      ∙ (ap (◌++◌ r.started) (sym (is_empty-nil r.pool.tasks (v.unserved_eq no_workers)))
          ∙ v.order_eq) in
    (
      done,
      omega (
        arith,
        v.count_eq,
        ap busy (is_empty-nil r.pool.workers no_workers),
        ap length done,
        busy_nil,
      ),
    )
