-- ===== src/Sched/Ops.antt =====
-- The other operations of kernel/src/sched.c keep the invariant of `Sched.Inv`.
use osc.Common.{
  ℕ, ◌≡◌, ◌≢◌, ◌⊎◌, inl, inr, refl, sym, ap, ◌∙◌, true, false, List, [], ◌∷◌, ◌++◌, Bool-cases,
  ==_iff, ==_ne, eq_or_ne,
}
use osc.Common.In.{In}
use osc.Sched.{
  ThreadState, ready, running, blocked, zombie, is_running, is_blocked, Sched, set_state,
  thread_enqueue_ready, thread_wakeup, schedule, thread_block,
}
use osc.Sched.Inv.{
  state_of, IsValid, IsRunning, state_self, set_state-IsValid, enqueue-IsValid, ready_running,
  ready_blocked, blocked_zombie, blocked_running, running_zombie,
}
use osc.Sched.Dispatch.{IsDispatched, schedule_leave}

is_blocked-true : (v : ThreadState) → is_blocked v ≡ true → v ≡ blocked
is_blocked-true blocked e = refl
is_blocked-true ready e = cc
is_blocked-true running e = cc
is_blocked-true zombie e = cc

-- A thread that is in neither list may be made ready and queued.
pub enqueue_ready-IsValid :
    (t : ℕ) (s : Sched)
    → IsValid s
    → ¬ In t s.runq
    → ¬ In t s.zombies
    → IsValid (thread_enqueue_ready t s)
unfolding thread_enqueue_ready
enqueue_ready-IsValid t s i q z =
    enqueue-IsValid t (set_state t ready s)
      (set_state-IsValid t ready s i q z (λ e. absurd (ready_running e))) q (state_self t ready s)

-- What `thread_wakeup` does: a blocked thread becomes ready and is last in the run queue; the null
-- pointer and a thread in any other state are left alone.
pub thread_wakeup_lem :
    (t : ℕ) (s : Sched)
    → IsValid s
    → IsValid (thread_wakeup t s)
      × (((t ≢ 0)
            × (state_of s t ≡ blocked)
            × (state_of (thread_wakeup t s) t ≡ ready)
            × ((thread_wakeup t s).runq ≡ s.runq ++ (t ∷ [])))
          ⊎ (((t ≡ 0) ⊎ (state_of s t ≢ blocked)) × (thread_wakeup t s ≡ s)))
unfolding thread_wakeup
thread_wakeup_lem t s i = elim (eq_or_ne t 0) [
  | inl e ↦ rw ((==_iff t 0).1 e) (i, inr (inl e, refl))
  | inr n ↦ rw (==_ne t 0 n) (elim (Bool-cases (is_blocked (state_of s t))) [
    | inl b ↦ rw b (woken b, inl (n, is_blocked-true (state_of s t) b, state_self t ready s, refl))
    | inr b ↦ rw b (i, inr (inr (λ e. true-false (ap is_blocked (sym e) ∙ b)), refl))
  ])
]
  where
    true-false : true ≢ false
    true-false e = cc

    woken :
        is_blocked (state_of s t) ≡ true
        → IsValid (record (set_state t ready s) { runq = s.runq ++ (t ∷ []) })
    woken b =
        enqueue-IsValid t (set_state t ready s)
          (set_state-IsValid t ready s i
            (λ g. ready_blocked (sym (i.queued t g) ∙ is_blocked-true (state_of s t) b))
            (λ g. blocked_zombie (sym (is_blocked-true (state_of s t) b) ∙ i.dead t g))
            (λ e. absurd (ready_running e)))
          (λ g. ready_blocked (sym (i.queued t g) ∙ is_blocked-true (state_of s t) b))
          (state_self t ready s)

-- The current thread while it runs is in neither list.
not_queued : (s : Sched) → IsRunning s → ¬ In s.current s.runq
not_queued s r h = ready_running (sym (r.valid.queued s.current h) ∙ r.runs)

not_dead : (s : Sched) → IsRunning s → ¬ In s.current s.zombies
not_dead s r h = running_zombie (sym r.runs ∙ r.valid.dead s.current h)

-- What follows when the current thread takes a state in which it does not run and calls `schedule`.
pub thread_block_lem :
    (s : Sched) (next : ℕ) (rest : List ℕ)
    → IsRunning s
    → s.runq ≡ next ∷ rest
    → IsRunning (thread_block s)
      × ((thread_block s).current ≡ next)
      × ((thread_block s).runq ≡ rest)
      × (state_of (thread_block s) s.current ≡ blocked)
unfolding thread_block
thread_block_lem s next rest r e =
    (d.is_running, d.current, d.waiting, d.left apart not_running ∙ state_self s.current blocked s)
  where
    not_running : state_of (set_state s.current blocked s) s.current ≢ running
    not_running c = blocked_running (sym (state_self s.current blocked s) ∙ c)

    d :
        IsDispatched
          (set_state s.current blocked s)
          (schedule (set_state s.current blocked s))
          next
          rest
    d =
        schedule_leave (set_state s.current blocked s) next rest
          (set_state-IsValid s.current blocked s r.valid (not_queued s r) (not_dead s r)
            (λ c. absurd (blocked_running c)))
          (ap is_running (state_self s.current blocked s)) e

    in_head : (xs : List ℕ) → xs ≡ next ∷ rest → next ≡ s.current → In s.current xs
    in_head xs p q = rw p (inl (sym q))

    apart : next ≢ s.current
    apart q = not_queued s r (in_head s.runq e q)
