-- ===== src/Sched/Inv.antt =====
-- The invariant of the scheduler of kernel/src/sched.c, and what a change of one thread's state
-- means for it.
use osc.Common.{
  ℕ, ◌≡◌, ◌≢◌, inl, inr, sym, ap, ◌∙◌, List, [], ◌∷◌, ◌++◌, update_self, update-ne, eq_or_ne,
}
use osc.Common.In.{In, Distinct, In-append, append-Distinct}
use osc.Sched.{ThreadState, ready, running, blocked, zombie, Sched, set_state}

abbrev pub state_of : Sched → ℕ → ThreadState
state_of s t = (s.threads t).state

-- The run queue holds ready threads and the other list zombies, each once, and no thread but the
-- current one is running.
pub record IsValid (s : Sched) : Type 0 where
  pub queued_once : Distinct s.runq
  pub queued : (t : ℕ) → In t s.runq → state_of s t ≡ ready
  pub dead_once : Distinct s.zombies
  pub dead : (t : ℕ) → In t s.zombies → state_of s t ≡ zombie
  pub only : (t : ℕ) → state_of s t ≡ running → t ≡ s.current

-- A valid state in which the current thread runs.
pub record IsRunning (s : Sched) : Type 0 where
  pub valid : IsValid s
  pub runs : state_of s s.current ≡ running

pub ready_running : ready ≢ running
ready_running e = cc

pub ready_zombie : ready ≢ zombie
ready_zombie e = cc

pub ready_blocked : ready ≢ blocked
ready_blocked e = cc

pub running_zombie : running ≢ zombie
running_zombie e = cc

pub blocked_running : blocked ≢ running
blocked_running e = cc

pub blocked_zombie : blocked ≢ zombie
blocked_zombie e = cc

pub state_self : (t : ℕ) (v : ThreadState) (s : Sched) → state_of (set_state t v s) t ≡ v
state_self t v s = ap (λ x. x.state) (update_self s.threads t (record (s.threads t) { state = v }))

pub state-ne :
    (t u : ℕ) (v : ThreadState) (s : Sched) → t ≢ u → state_of (set_state t v s) u ≡ state_of s u
state-ne t u v s h =
    ap (λ x. x.state) (update-ne s.threads t u (record (s.threads t) { state = v }) h)

-- A thread that is in neither list and does not run may change its state.
pub set_state-IsValid :
    (t : ℕ) (v : ThreadState) (s : Sched)
    → IsValid s
    → ¬ In t s.runq
    → ¬ In t s.zombies
    → (v ≡ running → t ≡ s.current)
    → IsValid (set_state t v s)
set_state-IsValid t v s i q z h = record {
  queued_once = i.queued_once;
  queued = λ u g. state-ne t u v s (apart u s.runq q g) ∙ i.queued u g;
  dead_once = i.dead_once;
  dead = λ u g. state-ne t u v s (apart u s.zombies z g) ∙ i.dead u g;
  only = λ u e. elim (eq_or_ne t u) [
    | inl p ↦ sym p ∙ h (sym (state_self t v s) ∙ ap (state_of (set_state t v s)) p ∙ e)
    | inr n ↦ i.only u (sym (state-ne t u v s n) ∙ e)
  ];
}
  where
    In-eq : (a c : ℕ) (xs : List ℕ) → c ≡ a → In c xs → In a xs
    In-eq a c xs e g = rw e at g

    apart : (u : ℕ) (xs : List ℕ) → ¬ In t xs → In u xs → t ≢ u
    apart u xs n g e = n (In-eq t u xs (sym e) g)

-- A ready thread that is in no list joins the run queue.
pub enqueue-IsValid :
    (t : ℕ) (s : Sched)
    → IsValid s
    → ¬ In t s.runq
    → state_of s t ≡ ready
    → IsValid (record s { runq = s.runq ++ (t ∷ []) })
enqueue-IsValid t s i q e = record {
  queued_once = append-Distinct s.runq t i.queued_once q;
  queued = λ u g. elim (In-append u s.runq (t ∷ []) g) [
    | inl l ↦ i.queued u l
    | inr r ↦ elim r [ inl p ↦ ap (state_of s) p ∙ e | inr f ↦ absurd f ]
  ];
  dead_once = i.dead_once;
  dead = i.dead;
  only = i.only;
}
