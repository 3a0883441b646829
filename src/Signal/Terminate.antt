-- ===== src/Signal/Terminate.antt =====
-- `signal_default_terminate` of kernel/src/signal.c and the invariant of the scheduler.
use osc.Common.{
  ℕ, ◌≡◌, ◌≢◌, inl, inr, refl, sym, ap, ◌∙◌, true, false, Bool-cases, eq_or_ne, ==_ne, ◌==◌,
  update_self, update-ne,
}
use osc.Common.In.{In, Distinct, In-remove, In-remove-ne, remove-Distinct}
use osc.Sched.{ready, zombie, is_ready, is_blocked, Thread, Sched, set_thread, thread_wakeup}
use osc.Sched.Inv.{state_of, IsValid, state-ne, running_zombie, ready_zombie}
use osc.Sched.Ops.{thread_wakeup_lem}
use osc.Signal.{signal_release, free_image, kill, signal_default_terminate}

-- The same threads in the same states and the same lists.
record IsSame (s s' : Sched) : Type 0 where
  states : (t : ℕ) → state_of s' t ≡ state_of s t
  runq : s'.runq ≡ s.runq
  zombies : s'.zombies ≡ s.zombies
  current : s'.current ≡ s.current

-- A thread whose state stays may change otherwise.
set_thread-states :
    (t : ℕ) (v : Thread) (s : Sched)
    → v.state ≡ state_of s t
    → (u : ℕ) → state_of (set_thread t v s) u ≡ state_of s u
set_thread-states t v s e u = elim (eq_or_ne t u) [
  | inl p ↦
      ap (state_of (set_thread t v s)) (sym p)
      ∙ ap (λ x. x.state) (update_self s.threads t v)
      ∙ e
      ∙ ap (state_of s) p
  | inr n ↦ ap (λ x. x.state) (update-ne s.threads t u v n)
]

free_image-IsSame : (t : ℕ) (s : Sched) → IsSame s (free_image t s)
unfolding free_image
free_image-IsSame t s = elim (Bool-cases ((s.threads t).image_base == 0)) [
  | inl e ↦ rw e (record { states = λ _. refl; runq = refl; zombies = refl; current = refl })
  | inr e ↦ rw e (record {
    states = set_thread-states t _ s refl;
    runq = refl;
    zombies = refl;
    current = refl;
  })
]

release-IsSame : (t : ℕ) (s : Sched) → IsSame s (signal_release t s)
unfolding signal_release
release-IsSame t s = elim (Bool-cases (t == 0)) [
  | inl e ↦ rw e (record { states = λ _. refl; runq = refl; zombies = refl; current = refl })
  | inr e ↦ rw e (record {
    states = set_thread-states t _ s refl;
    runq = refl;
    zombies = refl;
    current = refl;
  })
]

same-IsValid : (s s' : Sched) → IsSame s s' → IsValid s → IsValid s'
same-IsValid s s' e i = record {
  queued_once = rw e.runq i.queued_once;
  queued = λ t h. e.states t ∙ i.queued t (rw e.runq at h);
  dead_once = rw e.zombies i.dead_once;
  dead = λ t h. e.states t ∙ i.dead t (rw e.zombies at h);
  only = λ t h. i.only t (sym (e.states t) ∙ h) ∙ sym e.current;
}

killed-state : (t : ℕ) (s : Sched) → state_of (kill t s) t ≡ zombie
unfolding kill
killed-state t s = ap (λ v. v.state) (update_self s.threads t _)

killed-other : (t u : ℕ) (s : Sched) → t ≢ u → state_of (kill t s) u ≡ state_of s u
unfolding kill
killed-other t u s n = ap (λ v. v.state) (update-ne s.threads t u _ n)

-- The run queue of a valid state loses the thread, whether it was in it or not.
killed-runq :
    (t : ℕ) (s : Sched)
    → IsValid s
    → Distinct (kill t s).runq × ((u : ℕ) → In u (kill t s).runq → In u s.runq × (t ≢ u))
unfolding kill
killed-runq t s i = elim (Bool-cases (is_ready (state_of s t))) [
  | inl e ↦ rw e (
    remove-Distinct t s.runq i.queued_once,
    (λ u h. (In-remove t u s.runq h, In-remove-ne t u s.runq h)),
  )
  | inr e ↦ rw e (
    i.queued_once,
    (λ u h. (h, (λ p. true-false (sym (ap is_ready (ap (state_of s) p ∙ i.queued u h)) ∙ e)))),
  )
]
  where
    true-false : true ≢ false
    true-false e = cc

kill-IsValid : (t : ℕ) (s : Sched) → IsValid s → IsValid (kill t s)
unfolding kill
kill-IsValid t s i = record {
  queued_once = (killed-runq t s i).0;
  queued = λ u h. let k = (killed-runq t s i).1 u h in killed-other t u s k.1 ∙ i.queued u k.0;
  dead_once = i.dead_once;
  dead = λ u h. elim (eq_or_ne t u) [
    | inl p ↦ ap (state_of (kill t s)) (sym p) ∙ killed-state t s
    | inr n ↦ killed-other t u s n ∙ i.dead u h
  ];
  only = λ u h. elim (eq_or_ne t u) [
    | inl p ↦ absurd (running_zombie (sym h ∙ ap (state_of (kill t s)) (sym p) ∙ killed-state t s))
    | inr n ↦ i.only u (sym (killed-other t u s n) ∙ h)
  ];
}

-- No call of `thread_wakeup` brings a zombie back.
wakeup-zombie :
    (par t : ℕ) (s : Sched) → state_of s t ≡ zombie → state_of (thread_wakeup par s) t ≡ zombie
unfolding thread_wakeup
wakeup-zombie par t s z = elim (Bool-cases (par == 0)) [
  | inl e ↦ rw e z
  | inr e ↦ rw e (elim (Bool-cases (is_blocked (state_of s par))) [
    | inl b ↦ rw b (state-ne par t ready s (apart b) ∙ z)
    | inr b ↦ rw b z
  ])
]
  where
    false-true : false ≢ true
    false-true e = cc

    apart : is_blocked (state_of s par) ≡ true → par ≢ t
    apart b p = false-true (sym (ap is_blocked (ap (state_of s) p ∙ z)) ∙ b)

-- `signal_default_terminate` keeps the invariant of the scheduler, makes the thread a zombie
-- whatever state it was in, and takes it off the run queue.
pub signal_default_terminate_lem :
    (t : ℕ) (s : Sched)
    → t ≢ 0
    → IsValid s
    → IsValid (signal_default_terminate t s)
      × (state_of (signal_default_terminate t s) t ≡ zombie)
      × ¬ In t (signal_default_terminate t s).runq
unfolding signal_default_terminate
signal_default_terminate_lem t s h i = rw (==_ne t 0 h) (valid, dead, gone)
  where
    k : Sched
    k = kill t s

    f : Sched
    f = free_image t k

    r : Sched
    r = signal_release t f

    before : IsValid r
    before =
        same-IsValid f r (release-IsSame t f)
          (same-IsValid k f (free_image-IsSame t k) (kill-IsValid t s i))

    valid : IsValid (thread_wakeup (s.threads t).parent r)
    valid = (thread_wakeup_lem (s.threads t).parent r before).0

    dead : state_of (thread_wakeup (s.threads t).parent r) t ≡ zombie
    dead =
        wakeup-zombie (s.threads t).parent t r
          ((release-IsSame t f).states t ∙ (free_image-IsSame t k).states t ∙ killed-state t s)

    gone : ¬ In t (thread_wakeup (s.threads t).parent r).runq
    gone g = ready_zombie (sym (valid.queued t g) ∙ dead)
