-- ===== src/Timer/Expire.antt =====
-- What `timer_top_half` of kernel/src/timer.c does with a timer that has expired.
use osc.Common.{
  ℕ, ◌==◌, ◌≡◌, refl, ap, ◌∙◌, inl, inr, List, [], ◌∷◌, ◌++◌, Bool-cases, if◌then◌else◌,
}
use osc.Common.Int.{ℤ, pos, negsuc, ltb_ℤ}
use osc.Kmalloc.{kmalloc, kfree}
use osc.Task.{Task, TaskState, sizeof_task_node, insert, add_task}
use osc.Task.Run.{restored}
use osc.Timer.{Timer, TimerState, timer_task_prio, expire}

-- The tasks with a priority value of at most `p` at the head of a queue, and the ones behind them.
abbrev pub up_to : ℤ → List Task → List Task
up_to p [] = []
up_to p (t ∷ ts) = let rest = up_to p ts in if ltb_ℤ p t.priority then [] else t ∷ rest

abbrev pub behind : ℤ → List Task → List Task
behind p [] = []
behind p (t ∷ ts) = let rest = behind p ts in if ltb_ℤ p t.priority then t ∷ ts else rest

insert_eq :
    (n : Task) (ts : List Task) → insert n ts ≡ up_to n.priority ts ++ (n ∷ behind n.priority ts)
unfolding insert
insert_eq n [] = refl
insert_eq n (t ∷ ts) = elim (Bool-cases (ltb_ℤ n.priority t.priority)) [
  | inl h ↦ rw h refl
  | inr h ↦ rw h (ap (λ l. t ∷ l) (insert_eq n ts))
]

-- `add_task`: without memory for the node nothing is queued and -1 is returned; otherwise the task
-- stands behind the ones up to its priority and 0 is returned.
abbrev queued : ℕ → ℕ → ℤ → TaskState → ℤ × TaskState
queued cb arg priority k =
    let (node, heap) = kmalloc sizeof_task_node k.heap in
    let n : Task = record { node = node; cb = cb; arg = arg; priority = priority } in
    if node == 0 then (negsuc 0, record k { heap = heap }) else (
      pos 0,
      record k { heap = heap; queue = up_to priority k.queue ++ (n ∷ behind priority k.queue) },
    )

queued_eq : (cb arg : ℕ) (p : ℤ) (k : TaskState) → add_task cb arg p k ≡ queued cb arg p k
unfolding add_task
queued_eq cb arg p k = elim (Bool-cases ((kmalloc sizeof_task_node k.heap).0 == 0)) [
  | inl z ↦ rw z refl
  | inr n ↦
      let new : Task = record {
        node = (kmalloc sizeof_task_node k.heap).0;
        cb = cb;
        arg = arg;
        priority = p;
      } in
      rw n (
        ap {B = ℤ × TaskState}
          (λ b. (
            pos 0,
            record k {
              heap = (kmalloc sizeof_task_node k.heap).1;
              queue = insert new k.queue;
              sie = b;
            },
          ))
          (restored k.sie)
        ∙ ap {B = ℤ × TaskState}
            (λ q. (pos 0, record k { heap = (kmalloc sizeof_task_node k.heap).1; queue = q }))
            (insert_eq new k.queue))
]

module _ (run : ℕ → ℕ → TimerState → TimerState) where
  -- What it means to hand over a timer: if there is memory for a task, one with the timer's callback and
  -- argument and the priority of timers is queued behind the tasks up to that priority; without memory
  -- the callback is called at once. Then the timer's node is freed.
  abbrev pub handed : Timer → TimerState → TimerState
  handed t s =
      let k = s.tasks in
      let (node, heap) = kmalloc sizeof_task_node k.heap in
      let n : Task = record { node = node; cb = t.cb; arg = t.arg; priority = pos 2 } in
      let full = run t.cb t.arg (record s { tasks = record k { heap = heap } }) in
      let called : TimerState = record full {
        tasks = record full.tasks { heap = kfree t.node full.tasks.heap };
      } in
      let placed : TimerState = record s {
        tasks = record k {
          heap = kfree t.node heap;
          queue = up_to (pos 2) k.queue ++ (n ∷ behind (pos 2) k.queue);
        };
      } in
      if node == 0 then called else placed

  pub handed_eq : (t : Timer) (s : TimerState) → expire run t s ≡ handed t s
  unfolding expire
  handed_eq t s = elim (Bool-cases ((kmalloc sizeof_task_node s.tasks.heap).0 == 0)) [
    | inl z ↦ rw (queued_eq t.cb t.arg timer_task_prio s.tasks, z) refl
    | inr n ↦ rw (queued_eq t.cb t.arg timer_task_prio s.tasks, n) refl
  ]
