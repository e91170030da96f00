-- ===== src/Thread/ExecutorPool/Tests.antt =====
-- The executor pool at a concrete input.
use network_core.Common.{ℕ, pos, ◌<◌, ◌≡◌, some, [], ◌∷◌, arith}
use network_core.Thread.ExecutorPool.{ExecutorPool, get_executor, get_executor_by}
use network_core.Thread.ExecutorPool.Turns.{after, get_executor-get_executor_by}

abbrev three : ExecutorPool
three = record { executors = 10 ∷ (20 ∷ (30 ∷ [])); threads = []; cur_executor_index = 2 }

get_executor-get_executor_by_example :
    ((after 5 three).cur_executor_index < 3)
    × ((get_executor (after 5 three)).0 ≡ get_executor_by (pos 7) three)
    × ((e : ℕ) × ((get_executor (after 5 three)).0 ≡ some e))
get_executor-get_executor_by_example = get_executor-get_executor_by 5 three (omega arith)
