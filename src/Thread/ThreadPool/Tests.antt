-- ===== src/Thread/ThreadPool/Tests.antt =====
-- The thread pool at concrete inputs.
use network_core.Common.{ℕ, ◌≡◌, refl, List, [], ◌∷◌, ◌++◌}
use network_core.Thread.ThreadPool.{init, enqueue, step, close, join}
use network_core.Thread.ThreadPool.Workers.{starts, ends, worker_at}
use network_core.Thread.ThreadPool.Runs.{
  Move, inits, enqueues, goes_on, steps, closes, joins, move, run_moves, first, run_moves-closed,
  client_at, set_client, pushed, has_thread, have_threads,
}

-- the two tests of the call with the number, and all of it
abbrev tests : ℕ → List Move
tests i = goes_on i ∷ (goes_on i ∷ [])

abbrev whole : ℕ → List Move
whole i = goes_on i ∷ tests i

-- two workers and four calls: the second is held up between its tests and the lock, the third is
-- the last before `close`, and the fourth comes after it
abbrev two_workers : List Move
two_workers =
    inits 2
    ∷ (enqueues 7
        ∷ (enqueues 8
            ∷ (enqueues 9
                ∷ (whole 0
                    ++ (tests 1
                        ++ (steps 1
                            ∷ (whole 2
                                ++ (goes_on 1
                                    ∷ (steps 0
                                        ∷ (closes
                                            ∷ (enqueues 4
                                                ∷ (whole 3
                                                    ++ (steps 1
                                                        ∷ (steps 1
                                                            ∷ (joins
                                                            ∷ (steps 1
                                                            ∷ (steps 0
                                                            ∷ (steps 1
                                                            ∷ (steps 0
                                                            ∷ (joins ∷ []))))))))))))))))))))

run_moves-closed_example :
    let r = run_moves two_workers first in (r.started ≡ 7 ∷ (9 ∷ (8 ∷ []))) × (r.ended ≡ 3)
unfolding run_moves move init enqueue step close join starts ends worker_at client_at set_client
    pushed has_thread have_threads
run_moves-closed_example = run_moves-closed two_workers refl refl refl

-- a call is between its tests and the lock while the pool is closed and started again without a
-- thread: its task is in the queue behind the second `close`, and nothing starts it
abbrev left_behind : List Move
left_behind =
    inits 1
    ∷ (enqueues 7
        ∷ (tests 0
            ++ (closes ∷ (steps 0 ∷ (joins ∷ (inits 0 ∷ (goes_on 0 ∷ (closes ∷ (joins ∷ [])))))))))

left_behind_run :
    let r = run_moves left_behind first in
    (r.accepted ≡ 7 ∷ []) × (r.started ≡ []) × (r.pool.tasks ≡ 7 ∷ [])
unfolding run_moves move init enqueue step close join starts ends worker_at client_at set_client
    pushed
left_behind_run = (refl, refl, refl)
