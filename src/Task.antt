-- ===== src/Task.antt =====
-- The bottom-half task queue, kernel/src/task.c and kernel/include/task.h. A callback, with the
-- interrupts that are taken while it runs, is a transformer of the state.
pub mod Queue
pub mod Add
pub mod Run
use osc.Common.{
  ℕ, zero, suc, Bool, true, false, List, [], ◌∷◌, Option, none, some, ◌==◌, if◌then◌else◌,
}
use osc.Common.Int.{ℤ, pos, negsuc, ltb_ℤ}
use osc.Kmalloc.{Heap, kmalloc, kfree}

-- `struct task_node`, with the address that `kmalloc` gave it.
pub record Task : Type 0 where
  pub node : ℕ
  pub cb : ℕ
  pub arg : ℕ
  pub priority : ℤ

abbrev pub sizeof_task_node : ℕ
sizeof_task_node = 40

abbrev pub task_prio_idle : ℤ
task_prio_idle = pos 2147483647

-- `g_task_queue`, `g_running_priority`, the heap and `sstatus.SIE`.
pub record TaskState : Type 0 where
  pub heap : Heap
  pub queue : List Task
  pub running_priority : ℤ
  pub sie : Bool

abbrev pub sie_save_clear : TaskState → Bool × TaskState
sie_save_clear k = (k.sie, record k { sie = false })

abbrev pub sie_restore : Bool → TaskState → TaskState
sie_restore bit k = record k { sie = if bit then true else k.sie }

-- The walk stops at the first task of a strictly greater priority value.
unfoldable pub insert : Task → List Task → List Task
insert n [] = n ∷ []
insert n (t ∷ ts) =
    let rest = insert n ts in if ltb_ℤ n.priority t.priority then n ∷ (t ∷ ts) else t ∷ rest

-- The result is 0, or -1 without memory.
unfoldable pub add_task : ℕ → ℕ → ℤ → TaskState → ℤ × TaskState
add_task cb arg priority k =
    let (node, heap) = kmalloc sizeof_task_node k.heap in
    let k₁ = record k { heap = heap } in
    let (flags, k₂) = sie_save_clear k₁ in
    let n : Task = record { node = node; cb = cb; arg = arg; priority = priority } in
    let k₃ = sie_restore flags (record k₂ { queue = insert n k₂.queue }) in
    if node == 0 then (negsuc 0, k₁) else (pos 0, k₃)

-- The head of the queue, if its priority is strictly higher than the running one, and the queue
-- without it.
unfoldable pub pick : ℤ → List Task → Option (Task × List Task)
pick running [] = none
pick running (t ∷ ts) = if ltb_ℤ t.priority running then some (t, ts) else none

-- `run cb arg` is the call `t->cb(t->arg)`.
module _ (run : ℕ → ℕ → TaskState → TaskState) where
  -- From the pick on to `sie_restore(f2)`.
  unfoldable pub dispatch : Task → TaskState → TaskState
  dispatch t k =
      let prev_prio = k.running_priority in
      let k₁ = run t.cb t.arg (record k { running_priority = t.priority; sie = true }) in
      let (f2, k₂) = sie_save_clear k₁ in
      sie_restore f2 (record k₂ { running_priority = prev_prio; heap = kfree t.node k₂.heap })

  -- One round of the loop; `none` says that it returns.
  unfoldable pub round : TaskState → Bool × TaskState
  round k =
      let (flags, k₁) = sie_save_clear k in
      elim (pick k₁.running_priority k₁.queue) [
        | none ↦ (false, sie_restore flags k₁)
        | some p ↦ (true, dispatch p.0 (record k₁ { queue = p.1 }))
      ]

  -- At most `fuel` rounds; `none` says that they were not enough.
  unfoldable pub task_run_pending : ℕ → TaskState → Option TaskState
  task_run_pending zero k = none
  task_run_pending (suc fuel) k =
      let (ran, k₁) = round k in
      let rest = task_run_pending fuel k₁ in if ran then rest else some k₁
