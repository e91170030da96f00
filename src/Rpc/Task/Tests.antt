-- ===== src/Rpc/Task/Tests.antt =====
-- The theorem on the tasks at a concrete program.
use network_core.Common.{◌+◌, ◌≡◌, refl, false, List, [], ◌∷◌}
use network_core.Rpc.Task.{
  TaskMove, construct, move_from, copy_from, destroy, on_ok_at, delay_at, calls, run_tasks,
}
use network_core.Rpc.Task.Calling.{settled, pending, added_all, run_tasks-settled}

-- a task with a delay is moved, and both objects go
abbrev moved_task : List TaskMove
moved_task =
    construct 5
    ∷ (on_ok_at 0 ∷ (delay_at 20 0 ∷ (move_from 0 ∷ (destroy false 0 ∷ (destroy false 1 ∷ [])))))

run_tasks-settled_example :
    settled 5 (run_tasks moved_task []).1 + pending 5 (run_tasks moved_task []).0 ≡ 1
unfolding added_all pending
run_tasks-settled_example = run_tasks-settled 5 moved_task []

-- a copied task makes its call twice
copied_run :
    (run_tasks (construct 5 ∷ (copy_from 0 ∷ (destroy false 1 ∷ (destroy false 0 ∷ [])))) []).1
    ≡ calls 5 ∷ (calls 5 ∷ [])
unfolding run_tasks
copied_run = refl
