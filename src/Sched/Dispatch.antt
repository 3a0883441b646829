-- ===== src/Sched/Dispatch.antt =====
-- `schedule` of kernel/src/sched.c.
use osc.Common.{ℕ, ◌≡◌, ◌≢◌, inl, inr, refl, sym, ap, ◌∙◌, true, false, List, [], ◌∷◌, ◌++◌}
use osc.Common.In.{In, Distinct}
use osc.Sched.{
  ThreadState, ready, running, blocked, zombie, is_running, Sched, set_state, requeue, switch_first,
  schedule,
}
use osc.Sched.Inv.{
  state_of, IsValid, IsRunning, state_self, state-ne, set_state-IsValid, enqueue-IsValid,
  ready_running, ready_zombie, running_zombie,
}

is_running-true : (v : ThreadState) → is_running v ≡ true → v ≡ running
is_running-true running e = refl
is_running-true ready e = cc
is_running-true blocked e = cc
is_running-true zombie e = cc

-- No thread runs: the state between `requeue` and the switch.
Halted : Sched → Type 0
Halted s = (t : ℕ) → state_of s t ≢ running

requeue_yes :
    (s : Sched)
    → state_of s s.current ≡ running
    → requeue s ≡ record (set_state s.current ready s) { runq = s.runq ++ (s.current ∷ []) }
unfolding requeue
requeue_yes s e = rw (ap is_running e) refl

requeue_no : (s : Sched) → is_running (state_of s s.current) ≡ false → requeue s ≡ s
unfolding requeue
requeue_no s e = rw e refl

-- The current thread is in neither list while it runs.
not_queued : (s : Sched) → IsRunning s → ¬ In s.current s.runq
not_queued s r h = ready_running (sym (r.valid.queued s.current h) ∙ r.runs)

not_dead : (s : Sched) → IsRunning s → ¬ In s.current s.zombies
not_dead s r h = running_zombie (sym r.runs ∙ r.valid.dead s.current h)

requeued-IsValid :
    (s : Sched)
    → IsRunning s
    → IsValid (record (set_state s.current ready s) { runq = s.runq ++ (s.current ∷ []) })
requeued-IsValid s r =
    enqueue-IsValid s.current (set_state s.current ready s)
      (set_state-IsValid s.current ready s r.valid (not_queued s r) (not_dead s r) (λ _. refl))
      (not_queued s r) (state_self s.current ready s)

requeued-Halted :
    (s : Sched)
    → IsRunning s
    → Halted (record (set_state s.current ready s) { runq = s.runq ++ (s.current ∷ []) })
unfolding Halted
requeued-Halted s r t e = ready_running (
    sym (state_self s.current ready s) ∙ ap (state_of (set_state s.current ready s)) (sym here) ∙ e)
  where
    here : t ≡ s.current
    here = (requeued-IsValid s r).only t e

switch-IsRunning :
    (s : Sched) (next : ℕ) (rest : List ℕ)
    → IsValid s
    → Halted s
    → s.runq ≡ next ∷ rest
    → IsRunning (switch_first (next ∷ rest) s)
unfolding switch_first Halted
switch-IsRunning s next rest i h e = record { valid = valid; runs = state_self next running s }
  where
    once : Distinct (next ∷ rest)
    once = rw e at i.queued_once

    was : (t : ℕ) → In t (next ∷ rest) → state_of s t ≡ ready
    was = rw e at i.queued

    s' : Sched
    s' = record s { runq = rest; current = next }

    valid' : IsValid s'
    valid' = record {
      queued_once = once.1;
      queued = λ t g. was t (inr g);
      dead_once = i.dead_once;
      dead = i.dead;
      only = λ t g. absurd (h t g);
    }

    valid : IsValid (set_state next running s')
    valid =
        set_state-IsValid next running s' valid' once.0
          (λ g. ready_zombie (sym (was next (inl refl)) ∙ i.dead next g)) (λ _. refl)

switch-effect :
    (s : Sched) (next : ℕ) (rest : List ℕ)
    → ((switch_first (next ∷ rest) s).current ≡ next)
      × ((switch_first (next ∷ rest) s).runq ≡ rest)
      × ((t : ℕ) → next ≢ t → state_of (switch_first (next ∷ rest) s) t ≡ state_of s t)
unfolding switch_first
switch-effect s next rest = (refl, refl, (λ t n. state-ne next t running s n))

schedule_eq :
    (s s' : Sched) (q : List ℕ) → requeue s ≡ s' → s'.runq ≡ q → schedule s ≡ switch_first q s'
unfolding schedule
schedule_eq s s' q e f = ap (λ r. switch_first r.runq r) e ∙ ap (λ r. switch_first r s') f

false-true : false ≢ true
false-true c = cc

-- What `schedule` has done when `next` gets the processor and `rest` is left waiting: the
-- invariant holds, `next` runs, and `same` are the threads whose state is what it was.
pub record IsDispatched (s r : Sched) (next : ℕ) (rest : List ℕ) : Type 0 where
  pub is_running : IsRunning r
  pub current : r.current ≡ next
  pub waiting : r.runq ≡ rest
  pub same : (t : ℕ) → t ≢ next → t ≢ s.current → state_of r t ≡ state_of s t
  pub left :
      next ≢ s.current
      → state_of s s.current ≢ running
      → state_of r s.current ≡ state_of s s.current
  pub yielded : next ≢ s.current → state_of s s.current ≡ running → state_of r s.current ≡ ready

-- A thread that runs and calls `schedule` goes to the end of the run queue, the first of the queue
-- so extended is dispatched, and the invariant holds.
pub schedule_yield :
    (s : Sched) (next : ℕ) (rest : List ℕ)
    → IsRunning s
    → s.runq ++ (s.current ∷ []) ≡ next ∷ rest
    → IsDispatched s (schedule s) next rest
schedule_yield s next rest r e =
    rw (schedule_eq s s' (next ∷ rest) (requeue_yes s r.runs) e) (record {
      is_running = switch-IsRunning s' next rest (requeued-IsValid s r) (requeued-Halted s r) e;
      current = (switch-effect s' next rest).0;
      waiting = (switch-effect s' next rest).1;
      same = λ t n c.
          (switch-effect s' next rest).2 t (λ p. n (sym p))
          ∙ state-ne s.current t ready s (λ p. c (sym p));
      left = λ n c. absurd (c r.runs);
      yielded = λ n c. (switch-effect s' next rest).2 s.current n ∙ state_self s.current ready s;
    })
  where
    s' : Sched
    s' = record (set_state s.current ready s) { runq = s.runq ++ (s.current ∷ []) }

-- A thread that is blocked or a zombie and calls `schedule` joins no queue: the first of the run
-- queue is dispatched, the invariant holds, and the thread stays what it was.
pub schedule_leave :
    (s : Sched) (next : ℕ) (rest : List ℕ)
    → IsValid s
    → is_running (state_of s s.current) ≡ false
    → s.runq ≡ next ∷ rest
    → IsDispatched s (schedule s) next rest
unfolding Halted
schedule_leave s next rest i n e = rw (schedule_eq s s (next ∷ rest) (requeue_no s n) e) (record {
  is_running = switch-IsRunning s next rest i halted e;
  current = (switch-effect s next rest).0;
  waiting = (switch-effect s next rest).1;
  same = λ t m c. (switch-effect s next rest).2 t (λ p. m (sym p));
  left = λ m c. (switch-effect s next rest).2 s.current m;
  yielded = λ m c. absurd (not_running c);
})
  where
    not_running : state_of s s.current ≢ running
    not_running c = false-true (sym n ∙ ap is_running c)

    halted : (t : ℕ) → state_of s t ≢ running
    halted t c = not_running (ap (state_of s) (sym (i.only t c)) ∙ c)
