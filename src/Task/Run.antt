-- ===== src/Task/Run.antt =====
-- `task_run_pending` of kernel/src/task.c.
use osc.Common.{
  ℕ, zero, suc, ◌≡◌, ◌≢◌, ◌⊎◌, inl, inr, refl, sym, ap, ◌∙◌, arith, Bool, true, false, List, [],
  ◌∷◌, ◌++◌, none, some, Bool-cases, Option-cases, length, if◌then◌else◌,
}
use osc.Common.Int.{ℤ, ltb_ℤ}
use osc.Common.All.{All}
use osc.Kmalloc.{kfree}
use osc.Task.{Task, TaskState, pick, dispatch, round, task_run_pending}
use osc.Task.Queue.{IsSorted}

-- The tasks at the head of the queue that are of a strictly higher priority.
abbrev pub eligible : ℤ → List Task → List Task
eligible p [] = []
eligible p (t ∷ ts) = let rest = eligible p ts in if ltb_ℤ t.priority p then t ∷ rest else []

abbrev pub rest_of : ℤ → List Task → List Task
rest_of p [] = []
rest_of p (t ∷ ts) = let rest = rest_of p ts in if ltb_ℤ t.priority p then rest else t ∷ ts

-- On a queue in order they are all tasks of a strictly higher priority.
pub rest_all :
    (p : ℤ) (ts : List Task) → IsSorted ts → All (λ t. ltb_ℤ t.priority p ≡ false) (rest_of p ts)
rest_all p [] s = tt
rest_all p (t ∷ ts) s = elim (Bool-cases (ltb_ℤ t.priority p)) [
  | inl h ↦ rw h (rest_all p ts s.1)
  | inr h ↦ rw h (h, not_less p t ts h s.0)
]
  where
    not_lt : (a b c : ℤ) → ltb_ℤ a b ≡ false → ltb_ℤ c a ≡ false → ltb_ℤ c b ≡ false
    not_lt a b c h k = ground arith

    not_less :
        (p : ℤ) (t : Task) (ts : List Task)
        → ltb_ℤ t.priority p ≡ false
        → All (λ u. ltb_ℤ u.priority t.priority ≡ false) ts
        → All (λ u. ltb_ℤ u.priority p ≡ false) ts
    not_less p t [] h a = tt
    not_less p t (u ∷ us) h a = (not_lt t.priority p u.priority h a.0, not_less p t us h a.1)

pub restored : (b : Bool) → (if b then true else false) ≡ b
restored true = refl
restored false = refl

pick_nil : (p : ℤ) → pick p [] ≡ none
unfolding pick
pick_nil p = refl

pick_yes :
    (p : ℤ) (t : Task) (ts : List Task) → ltb_ℤ t.priority p ≡ true → pick p (t ∷ ts) ≡ some (t, ts)
unfolding pick
pick_yes p t ts h = rw h refl

pick_no : (p : ℤ) (t : Task) (ts : List Task) → ltb_ℤ t.priority p ≡ false → pick p (t ∷ ts) ≡ none
unfolding pick
pick_no p t ts h = rw h refl

split : (p : ℤ) (ts : List Task) → eligible p ts ++ rest_of p ts ≡ ts
split p [] = refl
split p (t ∷ ts) = elim (Bool-cases (ltb_ℤ t.priority p)) [
  | inl h ↦ rw h (ap (λ l. t ∷ l) (split p ts))
  | inr h ↦ rw h refl
]

eligible_all : (p : ℤ) (ts : List Task) → All (λ t. ltb_ℤ t.priority p ≡ true) (eligible p ts)
eligible_all p [] = tt
eligible_all p (t ∷ ts) = elim (Bool-cases (ltb_ℤ t.priority p)) [
  | inl h ↦ rw h (h, eligible_all p ts)
  | inr h ↦ rw h tt
]

some-injective : {A : Type 0} {a b : A} → some a ≡ some b → a ≡ b
some-injective e = cc

none-some : {A : Type 0} {a : A} → none ≢ some a
none-some e = cc

module _ (run : ℕ → ℕ → TaskState → TaskState) where
  -- What it means to run a task: its callback is called with its argument, at the task's priority and
  -- with interrupts on; then the priority of before is restored and the node is freed.
  abbrev pub served : Task → TaskState → TaskState
  served t k =
      let r = run t.cb t.arg (record k { running_priority = t.priority; sie = true }) in
      record r { running_priority = k.running_priority; heap = kfree t.node r.heap }

  served_eq : (t : Task) (k : TaskState) → dispatch run t k ≡ served t k
  unfolding dispatch
  served_eq t k =
      let r = run t.cb t.arg (record k { running_priority = t.priority; sie = true }) in
      ap
        (λ b. record r {
          running_priority = k.running_priority;
          heap = kfree t.node r.heap;
          sie = b;
        })
        (restored r.sie)

  -- The tasks run one after the other, each taken off the queue before, with interrupts off.
  abbrev pub run_all : List Task → List Task → TaskState → TaskState
  run_all [] after k = k
  run_all (t ∷ ts) after k =
      run_all ts after (served t (record k { queue = ts ++ after; sie = false }))

  dispatch-running :
      (t : Task) (k : TaskState) → (dispatch run t k).running_priority ≡ k.running_priority
  unfolding dispatch
  dispatch-running t k = refl

  round-none : (k : TaskState) → pick k.running_priority k.queue ≡ none → round run k ≡ (false, k)
  unfolding round
  round-none k e = rw (e, round) (ap (λ b. (false, record k { sie = b })) (restored k.sie))

  round-some :
      (k : TaskState) (t : Task) (ts : List Task)
      → pick k.running_priority k.queue ≡ some (t, ts)
      → round run k ≡ (true, dispatch run t (record k { queue = ts; sie = false }))
  unfolding round
  round-some k t ts e = rw (e, round) refl

  run_step :
      (fuel : ℕ) (k j : TaskState)
      → round run k ≡ (true, j)
      → task_run_pending run (suc fuel) k ≡ task_run_pending run fuel j
  unfolding task_run_pending
  run_step fuel k j e = rw e refl

  run_stop :
      (fuel : ℕ) (k j : TaskState)
      → round run k ≡ (false, j)
      → task_run_pending run (suc fuel) k ≡ some j
  unfolding task_run_pending
  run_stop fuel k j e = rw e refl

  served-running : (t : Task) (k : TaskState) → (served t k).running_priority ≡ k.running_priority
  served-running t k = refl

  -- Callbacks that put no task on the queue and leave interrupts as they are.
  abbrev pub IsQuiet : Type 0
  IsQuiet =
      (cb arg : ℕ) (j : TaskState) → ((run cb arg j).queue ≡ j.queue) × ((run cb arg j).sie ≡ j.sie)

  served-queue : (t : Task) (k : TaskState) → IsQuiet → (served t k).queue ≡ k.queue
  served-queue t k h = (h t.cb t.arg (record k { running_priority = t.priority; sie = true })).0

  served-sie : (t : Task) (k : TaskState) → IsQuiet → (served t k).sie ≡ true
  served-sie t k h = (h t.cb t.arg (record k { running_priority = t.priority; sie = true })).1

  loop :
      (q : List Task) (k : TaskState)
      → IsQuiet
      → k.queue ≡ q
      → task_run_pending run (suc (length q)) k
        ≡ some (run_all (eligible k.running_priority q) (rest_of k.running_priority q) k)
  loop [] k h e =
      run_stop 0 k k (round-none k (ap (pick k.running_priority) e ∙ pick_nil k.running_priority))
  loop (t ∷ ts) k h e = elim (Bool-cases (ltb_ℤ t.priority k.running_priority)) [
    | inl g ↦ rw g (
        run_step (suc (length ts)) k (after ts) (
          round-some k t ts (ap (pick k.running_priority) e ∙ pick_yes k.running_priority t ts g)
          ∙ ap (λ j. (true, j)) (served_eq t (record k { queue = ts; sie = false })))
        ∙ loop ts (after ts) h (served-queue t (record k { queue = ts; sie = false }) h)
        ∙ ap (λ p. some (run_all (eligible p ts) (rest_of p ts) (after ts)))
            (served-running t (record k { queue = ts; sie = false }))
        ∙ ap
            (λ l.
              some (
                run_all (eligible k.running_priority ts) (rest_of k.running_priority ts) (after l)))
            (sym (split k.running_priority ts)))
    | inr g ↦ rw g (
        run_stop (suc (length ts)) k k
          (round-none k (ap (pick k.running_priority) e ∙ pick_no k.running_priority t ts g)))
  ]
    where
      after : List Task → TaskState
      after l = served t (record k { queue = l; sie = false })

  -- What holds when they have run.
  IsDone : List Task → List Task → TaskState → Type 0
  IsDone ts after k =
      ((run_all ts after k).running_priority ≡ k.running_priority)
      × (k.queue ≡ ts ++ after → (run_all ts after k).queue ≡ after)
      × ((k.sie ≡ true) ⊎ (ts ≢ []) → (run_all ts after k).sie ≡ true)

  ran : (ts after : List Task) (k : TaskState) → IsQuiet → IsDone ts after k
  unfolding IsDone
  ran [] after k h = (refl, (λ e. e), (λ n. elim n [ inl e ↦ e | inr f ↦ absurd (f refl) ]))
  ran (t ∷ ts) after k h =
      let ih = ran ts after (served t (record k { queue = ts ++ after; sie = false })) h in
      (
        ih.0 ∙ served-running t (record k { queue = ts ++ after; sie = false }),
        (λ _. ih.1 (served-queue t (record k { queue = ts ++ after; sie = false }) h)),
        (λ _. ih.2 (inl (served-sie t (record k { queue = ts ++ after; sie = false }) h))),
      )

  -- On a queue in order, if no callback puts a task on the queue or turns interrupts off,
  -- `task_run_pending` returns after one round for each task and one more. It has run the tasks of
  -- a strictly higher priority than the running one, in the order of the queue and each taken off
  -- before: its callback is called with its argument, at its priority and with interrupts on, and its
  -- node is freed after. All others are still queued, and the running priority is what it was.
  pub task_run_pending_lem :
      (k : TaskState)
      → IsQuiet
      → IsSorted k.queue
      → let ts = eligible k.running_priority k.queue in
        let after = rest_of k.running_priority k.queue in
        (task_run_pending run (suc (length k.queue)) k ≡ some (run_all ts after k))
        × (ts ++ after ≡ k.queue)
        × All (λ t. ltb_ℤ t.priority k.running_priority ≡ true) ts
        × All (λ t. ltb_ℤ t.priority k.running_priority ≡ false) after
        × ((run_all ts after k).queue ≡ after)
        × ((run_all ts after k).running_priority ≡ k.running_priority)
  unfolding IsDone
  task_run_pending_lem k h s =
      let done =
        ran (eligible k.running_priority k.queue) (rest_of k.running_priority k.queue) k h in
      (
        loop k.queue k h refl,
        split k.running_priority k.queue,
        eligible_all k.running_priority k.queue,
        rest_all k.running_priority k.queue s,
        done.1 (sym (split k.running_priority k.queue)),
        done.0,
      )

  -- If no callback puts a task on the queue or turns interrupts off, and a task is of a strictly
  -- higher priority than the running one, interrupts are on when `task_run_pending` returns after
  -- one round for each task and one more, also when it was called with interrupts off.
  pub task_run_pending-sie :
      (k k' : TaskState)
      → IsQuiet
      → eligible k.running_priority k.queue ≢ []
      → task_run_pending run (suc (length k.queue)) k ≡ some k'
      → k'.sie ≡ true
  unfolding IsDone
  task_run_pending-sie k k' h n e =
      let done =
        ran (eligible k.running_priority k.queue) (rest_of k.running_priority k.queue) k h in
      ap (λ j. j.sie) (some-injective (sym e ∙ loop k.queue k h refl)) ∙ done.2 (inr n)

  run-none : (k : TaskState) → task_run_pending run 0 k ≡ none
  unfolding task_run_pending
  run-none k = refl

  round_cases :
      (k : TaskState)
      → ((pick k.running_priority k.queue ≡ none) × (round run k ≡ (false, k)))
        ⊎ ((j : TaskState) × (round run k ≡ (true, j)) × (j.running_priority ≡ k.running_priority))
  round_cases k = elim (Option-cases (pick k.running_priority k.queue)) [
    | inl e ↦ inl (e, round-none k e)
    | inr p ↦ inr (
      dispatch run p.0.0 (record k { queue = p.0.1; sie = false }),
      round-some k p.0.0 p.0.1 p.1,
      dispatch-running p.0.0 (record k { queue = p.0.1; sie = false }),
    )
  ]

  -- Whatever the callbacks do, when `task_run_pending` returns the running priority is what it was
  -- and the head of the queue, if there is one, is not of a strictly higher priority.
  pub task_run_pending-restores :
      (fuel : ℕ) (k k' : TaskState)
      → task_run_pending run fuel k ≡ some k'
      → (k'.running_priority ≡ k.running_priority) × (pick k'.running_priority k'.queue ≡ none)
  task_run_pending-restores zero k k' e = absurd (none-some (sym (run-none k) ∙ e))
  task_run_pending-restores (suc fuel) k k' e = elim (round_cases k) [
    | inl h ↦
        let same : k ≡ k' = some-injective (sym (run_stop fuel k k h.1) ∙ e) in
        (
          ap (λ j. j.running_priority) (sym same),
          ap (λ j. pick j.running_priority j.queue) (sym same) ∙ h.0,
        )
    | inr h ↦
        let ih = task_run_pending-restores fuel h.0 k' (sym (run_step fuel k h.0 h.1) ∙ e) in
        (ih.0 ∙ h.2, ih.1)
  ]
