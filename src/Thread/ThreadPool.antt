-- ===== src/Thread/ThreadPool.antt =====
-- `thread_pool` of network/thread/thread_pool.hpp: a queue of tasks and the workers that take from
-- it. A task is a number; what holds the mutex is one step, as is each of the two tests that
-- `enqueue` makes without it; and a worker is either before its wait, in a task, or at its end.
-- `init` and `close` are called by one owner, and `close` is two steps, as it waits for the workers;
-- anyone else may call `enqueue` at any time.
pub mod Workers
pub mod Runs
mod Tests
use network_core.Common.{
  ℕ, zero, suc, ◌+◌, Bool, true, false, not, ◌&&◌, ◌||◌, Option, none, some, List, [], ◌∷◌, ◌++◌,
  if◌then◌else◌,
}

pub data Worker : Type 0 where
  waiting : Worker
  running : ℕ → Worker
  returned : Worker

pub record ThreadPool : Type 0 where
  pub workers : List Worker
  pub tasks : List ℕ
  pub stop : Bool
  -- `close` waits for the workers
  pub joining : Bool

unfoldable pub new_pool : ThreadPool
new_pool = record { workers = []; tasks = []; stop = true; joining = false }

abbrev pub is_empty {ℓ} : {A : Type ℓ} → List A → Bool
is_empty [] = true
is_empty (x ∷ xs) = false

unfoldable pub launch : ℕ → List Worker → List Worker
launch zero workers = workers
launch (suc n) workers = waiting ∷ launch n workers

unfoldable pub init : ℕ → ThreadPool → ThreadPool
unfolding launch
init threads p =
    if not p.stop then p else record p { stop = false; workers = launch threads p.workers }

-- a call of `enqueue`: before its first test of `stop`, before the test of `workers`, before the
-- lock, with the future that it returns, and behind a std::runtime_error
pub data Enqueue : Type 0 where
  at_stop : ℕ → Enqueue
  at_workers : ℕ → Enqueue
  at_lock : ℕ → Enqueue
  has_future : Enqueue
  refused : Enqueue

-- what a call does until its next step; both tests in front of the lock are made without it
unfoldable pub enqueue : Enqueue → ThreadPool → Enqueue × ThreadPool
enqueue (at_stop task) p = (if p.stop then refused else at_workers task, p)
enqueue (at_workers task) p = (if is_empty p.workers then refused else at_lock task, p)
enqueue (at_lock task) p =
    if p.stop then (refused, p) else (has_future, record p { tasks = p.tasks ++ (task ∷ []) })
enqueue has_future p = (has_future, p)
enqueue refused p = (refused, p)

-- a worker at its wait: it goes on when the pool stops or has a task
unfoldable pub wake : Bool → List ℕ → Worker × List ℕ
wake stop [] = (if stop then returned else waiting, [])
wake stop (task ∷ tasks) = (running task, tasks)

-- one step of a worker, with the queue that it leaves: it wakes, or its task ends
unfoldable pub work : Bool → Worker → List ℕ → Worker × List ℕ
unfolding wake
work stop waiting tasks = wake stop tasks
work stop (running task) tasks = (waiting, tasks)
work stop returned tasks = (returned, tasks)

unfoldable pub work_at : ℕ → Bool → List Worker → List ℕ → List Worker × List ℕ
unfolding work
work_at i stop [] tasks = ([], tasks)
work_at zero stop (w ∷ ws) tasks = let (w', tasks') = work stop w tasks in (w' ∷ ws, tasks')
work_at (suc i) stop (w ∷ ws) tasks =
    let (ws', tasks') = work_at i stop ws tasks in (w ∷ ws', tasks')

unfoldable pub step : ℕ → ThreadPool → ThreadPool
unfolding work_at
step i p =
    let (workers, tasks) = work_at i p.stop p.workers p.tasks in
    record p { workers = workers; tasks = tasks }

unfoldable pub close : ThreadPool → ThreadPool
close p = if p.stop then p else record p { stop = true; joining = true }

unfoldable pub all_returned : List Worker → Bool
all_returned [] = true
all_returned (returned ∷ ws) = all_returned ws
all_returned (_ ∷ ws) = false

-- the end of `close`, when every worker has been joined
unfoldable pub join : ThreadPool → ThreadPool
unfolding all_returned
join p =
    if p.joining && all_returned p.workers then record p { workers = []; joining = false } else p
