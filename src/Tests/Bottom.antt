-- ===== src/Tests/Bottom.antt =====
-- The bottom-half queue of kernel/src/task.c with two tasks.
use osc.Common.{ℕ, ◌≡◌, ◌≢◌, refl, true, false, List, [], ◌∷◌, ◌++◌, some}
use osc.Common.Int.{ℤ, pos, ltb_ℤ}
use osc.Common.All.{All}
use osc.Task.{Task, TaskState, insert, task_run_pending}
use osc.Task.Queue.{IsSorted}
use osc.Task.Run.{eligible, rest_of, run_all, IsQuiet, task_run_pending_lem, task_run_pending-sie}
use osc.Tests.Chunks.{heap}

abbrev task : ℕ → ℤ → Task
task node priority = record { node = node; cb = 9; arg = 7; priority = priority }

abbrev two : List Task
two = task 77776 (pos 1) ∷ task 77824 (pos 5) ∷ []

two-IsSorted : IsSorted two
two-IsSorted = ((refl, tt), (tt, tt))

-- Behind the task of the same priority.
insert_fifo :
    insert (task 5 (pos 1)) two ≡ task 77776 (pos 1) ∷ task 5 (pos 1) ∷ task 77824 (pos 5) ∷ []
unfolding insert
insert_fifo = refl

-- In a trap, with interrupts off and a task of priority 3 preempted.
abbrev pub state : TaskState
state = record { heap = heap; queue = two; running_priority = pos 3; sie = false }

abbrev run : ℕ → ℕ → TaskState → TaskState
run cb arg k = k

run-IsQuiet : IsQuiet run
run-IsQuiet cb arg k = (refl, refl)

abbrev done : TaskState
done = run_all run (eligible (pos 3) two) (rest_of (pos 3) two) state

task_run_pending_example :
    (task_run_pending run 3 state ≡ some done)
    × (eligible (pos 3) two ++ rest_of (pos 3) two ≡ two)
    × All (λ t. ltb_ℤ t.priority (pos 3) ≡ true) (eligible (pos 3) two)
    × All (λ t. ltb_ℤ t.priority (pos 3) ≡ false) (rest_of (pos 3) two)
    × (done.queue ≡ rest_of (pos 3) two)
    × (done.running_priority ≡ pos 3)
task_run_pending_example = task_run_pending_lem run state run-IsQuiet two-IsSorted

returned : task_run_pending run 3 state ≡ some done
returned = (task_run_pending_lem run state run-IsQuiet two-IsSorted).0

one_ran : eligible (pos 3) two ≢ []
one_ran e = cc

task_run_pending-sie_example : done.sie ≡ true
task_run_pending-sie_example = task_run_pending-sie run state done run-IsQuiet one_ran returned
