-- ===== src/Thread/ExecutorPool.antt =====
-- `executor_pool` of network/thread/executor_pool.hpp: executors, which are known by numbers, that
-- are handed out in turns, and their threads.
pub mod Turns
mod Stopping
mod Tests
use network_core.Common.{
  ℕ, ℤ, pos, negsuc, zero, suc, ◌+◌, ◌%◌, Bool, true, false, Option, none, some, List, [], ◌∷◌,
  if◌then◌else◌, length, get_elem?,
}

-- a thread that can be joined, or one that has been
pub data Thread : Type 0 where
  joinable : Thread
  joined : Thread

pub record ExecutorPool : Type 0 where
  pub executors : List ℕ
  pub threads : List Thread
  pub cur_executor_index : ℕ

unfoldable pub new_executor_pool : ExecutorPool
new_executor_pool = record { executors = []; threads = []; cur_executor_index = 0 }

-- the numbers of the executors that are made
unfoldable pub fresh_from : ℕ → ℕ → List ℕ
fresh_from zero k = []
fresh_from (suc n) k = k ∷ fresh_from n (k + 1)

-- those that the pool had are overwritten
unfoldable pub init : ℕ → ℕ → ExecutorPool → ExecutorPool
unfolding fresh_from
init thread_count next p = record p { executors = fresh_from thread_count next }

unfoldable pub threads_of : List ℕ → List Thread
threads_of [] = []
threads_of (e ∷ es) = joinable ∷ threads_of es

-- nothing happens when the pool has threads
unfoldable pub start_threads : List Thread → ExecutorPool → ExecutorPool
unfolding threads_of
start_threads [] p = record p { threads = threads_of p.executors }
start_threads (t ∷ ts) p = p

unfoldable pub start : ExecutorPool → ExecutorPool
unfolding start_threads
start p = start_threads p.threads p

-- joining a thread twice throws std::system_error, which is none
unfoldable pub first_joined : Option (List Thread) → Option (List Thread)
first_joined none = none
first_joined (some ts) = some (joined ∷ ts)

unfoldable pub join_all : List Thread → Option (List Thread)
unfolding first_joined
join_all [] = some []
join_all (joinable ∷ ts) = first_joined (join_all ts)
join_all (joined ∷ ts) = none

unfoldable pub with_threads : ExecutorPool → Option (List Thread) → Option ExecutorPool
with_threads p none = none
with_threads p (some ts) = some (record p { threads = ts })

unfoldable pub stop : ExecutorPool → Option ExecutorPool
unfolding join_all with_threads
stop p = with_threads p (join_all p.threads)

-- the executor of the index and the next index, for a pool with executors
unfoldable pub next_of : List ℕ → ExecutorPool → Option ℕ × ExecutorPool
next_of [] p = (none, p)
next_of (e ∷ es) p = (
  get_elem? (e ∷ es) p.cur_executor_index,
  record p { cur_executor_index = (p.cur_executor_index + 1) % length (e ∷ es) },
)

unfoldable pub get_executor : ExecutorPool → Option ℕ × ExecutorPool
unfolding next_of
get_executor p = next_of p.executors p

-- `get_executor(id)` for an id that is not negative
unfoldable pub nth_of : List ℕ → ℕ → Option ℕ
nth_of [] id = none
nth_of (e ∷ es) id = get_elem? (e ∷ es) (id % length (e ∷ es))

-- get_executor(id): a negative id has no executor
unfoldable pub get_executor_by : ℤ → ExecutorPool → Option ℕ
unfolding nth_of
get_executor_by (pos id) p = nth_of p.executors id
get_executor_by (negsuc n) p = none
