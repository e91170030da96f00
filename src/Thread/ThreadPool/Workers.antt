-- ===== src/Thread/ThreadPool/Workers.antt =====
-- One step of a worker of thread_pool.hpp: what it takes, and when it returns.
use network_core.Common.{
  ℕ, zero, suc, ◌+◌, ◌≡◌, refl, Bool, true, false, ◌&&◌, ◌||◌, List, [], ◌∷◌, ◌++◌, arith, length,
}
use network_core.Thread.ThreadPool.{
  Worker, waiting, running, returned, is_empty, launch, wake, work, work_at, all_returned,
}

-- what a worker's step starts and ends
unfoldable pub starts : Worker → List ℕ → List ℕ
starts waiting (task ∷ tasks) = task ∷ []
starts _ tasks = []

unfoldable pub ends : Worker → ℕ
ends (running task) = 1
ends _ = 0

unfoldable pub worker_at : ℕ → List Worker → Worker
worker_at i [] = returned
worker_at zero (w ∷ ws) = w
worker_at (suc i) (w ∷ ws) = worker_at i ws

-- the number of workers in a task, and whether one has returned
unfoldable pub busy : List Worker → ℕ
unfolding ends
busy [] = 0
busy (w ∷ ws) = ends w + busy ws

unfoldable pub some_returned : List Worker → Bool
some_returned [] = false
some_returned (returned ∷ ws) = true
some_returned (_ ∷ ws) = some_returned ws

pub busy_nil : busy [] ≡ 0
unfolding busy
busy_nil = refl

-- one step of a worker
pub record Worked (i : ℕ) (stop : Bool) (ws : List Worker) (tasks : List ℕ) : Type 0 where
  pub taken_eq : starts (worker_at i ws) tasks ++ (work_at i stop ws tasks).1 ≡ tasks
  pub busy_eq :
      length (starts (worker_at i ws) tasks) + busy ws
      ≡ ends (worker_at i ws) + busy (work_at i stop ws tasks).0
  pub returned_eq :
      some_returned (work_at i stop ws tasks).0 ≡ true
      → (some_returned ws || (stop && is_empty tasks)) ≡ true
  pub empty_eq : is_empty (work_at i stop ws tasks).0 ≡ is_empty ws
  pub rest_eq : is_empty tasks ≡ true → is_empty (work_at i stop ws tasks).1 ≡ true

nobody : (i : ℕ) (stop : Bool) (tasks : List ℕ) → Worked i stop [] tasks
unfolding worker_at starts work_at busy ends some_returned
nobody zero stop tasks = record {
  taken_eq = refl;
  busy_eq = refl;
  returned_eq = λ h. ground arith;
  empty_eq = refl;
  rest_eq = λ h. h;
}
nobody (suc i) stop tasks = record {
  taken_eq = refl;
  busy_eq = refl;
  returned_eq = λ h. ground arith;
  empty_eq = refl;
  rest_eq = λ h. h;
}

later :
    (w : Worker) (ws vs : List Worker) (b : Bool)
    → (some_returned vs ≡ true → (some_returned ws || b) ≡ true)
    → some_returned (w ∷ vs) ≡ true
    → (some_returned (w ∷ ws) || b) ≡ true
unfolding some_returned
later waiting ws vs b f h = f h
later (running t) ws vs b f h = f h
later returned ws vs b f h = refl

pub work_at-Worked :
    (i : ℕ) (stop : Bool) (ws : List Worker) (tasks : List ℕ) → Worked i stop ws tasks
unfolding worker_at starts work_at work wake busy ends some_returned
work_at-Worked i stop [] tasks = nobody i stop tasks
work_at-Worked zero true (waiting ∷ ws) [] = record {
  taken_eq = refl;
  busy_eq = refl;
  returned_eq = λ h. ground arith;
  empty_eq = refl;
  rest_eq = λ h. h;
}
work_at-Worked zero false (waiting ∷ ws) [] = record {
  taken_eq = refl;
  busy_eq = refl;
  returned_eq = λ h. ground arith;
  empty_eq = refl;
  rest_eq = λ h. h;
}
work_at-Worked zero stop (waiting ∷ ws) (t ∷ tasks) = record {
  taken_eq = refl;
  busy_eq = omega arith;
  returned_eq = λ h. ground arith;
  empty_eq = refl;
  rest_eq = λ h. absurd (ground arith);
}
work_at-Worked zero stop (running u ∷ ws) tasks = record {
  taken_eq = refl;
  busy_eq = omega arith;
  returned_eq = λ h. ground arith;
  empty_eq = refl;
  rest_eq = λ h. h;
}
work_at-Worked zero stop (returned ∷ ws) tasks = record {
  taken_eq = refl;
  busy_eq = refl;
  returned_eq = λ h. refl;
  empty_eq = refl;
  rest_eq = λ h. h;
}
work_at-Worked (suc i) stop (w ∷ ws) tasks =
    let ih = work_at-Worked i stop ws tasks in
    record {
      taken_eq = ih.taken_eq;
      busy_eq = omega (arith, ih.busy_eq);
      returned_eq = later w ws (work_at i stop ws tasks).0 (stop && is_empty tasks) ih.returned_eq;
      empty_eq = refl;
      rest_eq = ih.rest_eq;
    }

pub some_returned-launch :
    (n : ℕ) (ws : List Worker) → some_returned (launch n ws) ≡ some_returned ws
unfolding some_returned launch
some_returned-launch zero ws = refl
some_returned-launch (suc n) ws = some_returned-launch n ws

pub busy-launch : (n : ℕ) (ws : List Worker) → busy (launch n ws) ≡ busy ws
unfolding busy launch ends
busy-launch zero ws = refl
busy-launch (suc n) ws = omega (arith, busy-launch n ws)

-- a worker that has returned is there, when all have and there is one
pub all-some :
    (ws : List Worker)
    → all_returned ws ≡ true
    → ((is_empty ws || some_returned ws) ≡ true) × (busy ws ≡ 0)
unfolding all_returned some_returned busy ends
all-some [] h = (refl, refl)
all-some (waiting ∷ ws) h = absurd (ground arith)
all-some (running t ∷ ws) h = absurd (ground arith)
all-some (returned ∷ ws) h = (refl, omega (arith, (all-some ws h).1))

pub none_returned : (ws : List Worker) → is_empty ws ≡ true → some_returned ws ≡ false
unfolding some_returned
none_returned [] h = refl
none_returned (w ∷ ws) h = absurd (ground arith)
