-- ===== src/Task/Add.antt =====
-- `add_task` of kernel/src/task.c on the whole state.
use osc.Common.{
  ℕ, ◌≡◌, ◌≢◌, ◌⊎◌, inl, inr, refl, ap, List, Bool, true, false, eq_or_ne, ==_iff, ==_ne,
  if◌then◌else◌,
}
use osc.Common.Int.{ℤ, pos, negsuc}
use osc.Kmalloc.{kmalloc}
use osc.Task.{Task, TaskState, sizeof_task_node, insert, add_task}
use osc.Task.Queue.{IsSorted, IsInserted, insert-IsInserted, insert-IsSorted}

-- `sie_restore` after `sie_save_clear`.
restored : (b : Bool) → (if b then true else false) ≡ b
restored true = refl
restored false = refl

-- What `add_task` promises: without memory nothing but the heap changes, and with memory the new
-- task stands behind those of its priority.
abbrev pub Added : ℕ → ℕ → ℤ → TaskState → ℤ × TaskState → Type 0
Added cb arg priority k r =
    let (node, heap) = kmalloc sizeof_task_node k.heap in
    ((node ≡ 0) × (r.0 ≡ negsuc 0) × (r.1 ≡ record k { heap = heap }))
    ⊎ ((node ≢ 0)
        × (r.0 ≡ pos 0)
        × IsInserted (record { node = node; cb = cb; arg = arg; priority = priority }) k.queue
            r.1.queue
        × IsSorted r.1.queue
        × (r.1 ≡ record k { heap = heap; queue = r.1.queue }))

-- `add_task` on a queue in order: if `kmalloc` gives no node the result is -1 and only the heap is
-- changed; otherwise the result is 0, the task is put behind all tasks whose priority value is at
-- most its own and before all others, the queue stays in order, and the running priority and the
-- interrupt flag are as before.
pub add_task_lem :
    (cb arg : ℕ) (priority : ℤ) (k : TaskState)
    → IsSorted k.queue
    → Added cb arg priority k (add_task cb arg priority k)
unfolding add_task
add_task_lem cb arg priority k s = elim (eq_or_ne (kmalloc sizeof_task_node k.heap).0 0) [
  | inl e ↦ rw ((==_iff (kmalloc sizeof_task_node k.heap).0 0).1 e) (inl (e, refl, refl))
  | inr h ↦
      rw (==_ne (kmalloc sizeof_task_node k.heap).0 0 h)
        (inr (h, refl, insert-IsInserted _ k.queue s, insert-IsSorted _ k.queue s, flag))
]
  where
    queue' : List Task
    queue' =
        insert
          (record {
            node = (kmalloc sizeof_task_node k.heap).0;
            cb = cb;
            arg = arg;
            priority = priority;
          })
          k.queue

    flag :
        record k {
          heap = (kmalloc sizeof_task_node k.heap).1;
          queue = queue';
          sie = if k.sie then true else false;
        }
        ≡ record k { heap = (kmalloc sizeof_task_node k.heap).1; queue = queue' }
    flag =
        ap (λ b. record k { heap = (kmalloc sizeof_task_node k.heap).1; queue = queue'; sie = b })
          (restored k.sie)
