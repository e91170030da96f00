-- ===== src/Thread/ExecutorPool/Stopping.antt =====
-- The end of executor_pool.hpp, whose destructor stops the pool again.
use network_core.Common.{ℕ, ◌≡◌, refl, ap, none, some, List, [], ◌∷◌}
use network_core.Thread.ExecutorPool.{
  Thread, joined, ExecutorPool, threads_of, start_threads, first_joined, join_all, with_threads,
  start, stop,
}

joined_of : List ℕ → List Thread
joined_of [] = []
joined_of (e ∷ es) = joined ∷ joined_of es

join_all-threads_of : (es : List ℕ) → join_all (threads_of es) ≡ some (joined_of es)
unfolding join_all threads_of joined_of first_joined
join_all-threads_of [] = refl
join_all-threads_of (e ∷ es) = ap first_joined (join_all-threads_of es)

-- A pool with executors and without threads that is started and stopped throws when it is stopped
-- again.
pub stop-start :
    (e : ℕ) (es : List ℕ) (cur : ℕ)
    → let p : ExecutorPool = record {
      executors = e ∷ es;
      threads = [];
      cur_executor_index = cur;
    } in
      (q : ExecutorPool) × (stop (start p) ≡ some q) × (stop q ≡ none)
unfolding stop start start_threads with_threads threads_of joined_of join_all
stop-start e es cur =
    let p : ExecutorPool = record { executors = e ∷ es; threads = []; cur_executor_index = cur } in
    (
      record p { threads = joined_of (e ∷ es) },
      ap (with_threads (start p)) (join_all-threads_of (e ∷ es)),
      refl,
    )
