-- ===== src/Signal/Deliver.antt =====
-- `signal_check_and_dispatch` and `signal_return` of kernel/src/signal.c.
use osc.Common.{
  ℕ, zero, suc, ◌≡◌, ◌≢◌, inl, inr, eq_or_ne, Bool-cases, update-ne, List, [], ◌∷◌, ◌==◌, refl, sym,
  ap, ◌∙◌, arith, true, false, some, ◌≤◌, ==_ne, update_self, u64, ◌+◌,
}
use osc.Common.Int.{ℤ, pos}
use osc.Kmalloc.{kmalloc}
use osc.Sched.{Sched, SignalState, TrapFrame, align_16}
use osc.Signal.{
  nsig, sig_dfl, sig_ign, sigstack_size, lowest_bit_from, bit_set, clear_bit, set_sig, deliverable,
  route, enter_handler, signal_check_and_dispatch, signal_return, signal_release, signal_post,
  out_of_range,
}
use osc.Signal.Bits.{IsLowest, lowest_bit_lem, bit-clear_bit, bit-clear_bit-ne}
use osc.Signal.Post.{IsPending, pending_of}

-- The signal state of the current thread.
abbrev pub sig_of : Sched → SignalState
sig_of s = (s.threads s.current).sig

-- The state with a signal of the current thread taken off the pending ones.
abbrev pub taken : ℕ → Sched → Sched
taken signum s =
    set_sig s.current (record (sig_of s) { pending = clear_bit signum (sig_of s).pending }) s

true-false : true ≢ false
true-false e = cc

has_pending : (self : ℕ) (s : Sched) → deliverable self s ≡ true → pending_of s self ≢ 0
unfolding deliverable
has_pending self s e z = ground (arith, e, z)

dispatch_eq :
    (tf : TrapFrame) (s : Sched) (n : ℕ)
    → deliverable s.current s ≡ true
    → lowest_bit_from 64 (sig_of s).pending 0 ≡ some n
    → signal_check_and_dispatch tf s ≡ some (route s.current n tf (taken n s))
unfolding signal_check_and_dispatch
dispatch_eq tf s n e f = rw e (rw (f, signal_check_and_dispatch) refl)

-- If a signal can be delivered, `signal_check_and_dispatch` takes the lowest pending one, a number
-- from 1 to `NSIG - 1`, off the pending ones and routes it.
pub dispatch-IsLowest :
    (tf : TrapFrame) (s : Sched)
    → deliverable s.current s ≡ true
    → IsPending (sig_of s).pending
    → (n : ℕ) × IsLowest nsig (sig_of s).pending n
      × (1 ≤ n)
      × (signal_check_and_dispatch tf s ≡ some (route s.current n tf (taken n s)))
dispatch-IsLowest tf s e i =
    let r =
      lowest_bit_lem nsig 64 (sig_of s).pending 0 (has_pending s.current s e) i.bound
        (omega arith) in
    (r.0, r.2, not_first r.0 r.2.found, dispatch_eq tf s r.0 e (r.1 ∙ ap some (omega arith)))
  where
    not_first : (n : ℕ) → bit_set n (sig_of s).pending ≡ true → 1 ≤ n
    not_first zero f = absurd (true-false (sym f ∙ i.not_zero))
    not_first (suc n) f = omega arith

-- The state in which a handler starts.
module _ (tf : TrapFrame) (s : Sched) (n h : ℕ) where
  abbrev pub stack_of : ℕ
  stack_of = (kmalloc sigstack_size s.heap).0

  -- The frame in which `enter_handler` starts the handler.
  abbrev pub handler_frame : TrapFrame
  handler_frame = record tf {
    sepc = h;
    sp = align_16 (u64 (stack_of + sigstack_size));
    a0 = n;
    ra = stack_of;
  }

  abbrev r : TrapFrame × Sched
  r = enter_handler s.current n h tf s

  entered : stack_of ≢ 0 → r.0 ≡ handler_frame
  unfolding enter_handler
  entered e = rw (==_ne stack_of 0 e) refl

  entered_current : stack_of ≢ 0 → r.1.current ≡ s.current
  unfolding enter_handler
  entered_current e = rw (==_ne stack_of 0 e) refl

  entered_sig :
      stack_of ≢ 0
      → (r.1.threads s.current).sig
        ≡ record (sig_of s) { saved = tf; sigstack_base = stack_of; in_handler = true }
  unfolding enter_handler
  entered_sig e = rw (==_ne stack_of 0 e) (
      ap (λ v. v.sig)
        (update_self (set_sig s.current (record (sig_of s) { saved = tf }) s).threads s.current _))

  entered_pending : stack_of ≢ 0 → (sig_of r.1).pending ≡ (sig_of s).pending
  entered_pending e =
      ap (λ c. (r.1.threads c).sig.pending) (entered_current e)
      ∙ ap (λ g. g.pending) (entered_sig e)

  entered_active : stack_of ≢ 0 → (sig_of r.1).in_handler ≡ true
  entered_active e =
      ap (λ c. (r.1.threads c).sig.in_handler) (entered_current e)
      ∙ ap (λ g. g.in_handler) (entered_sig e)

  entered_saved : stack_of ≢ 0 → (sig_of r.1).saved ≡ tf
  entered_saved e =
      ap (λ c. (r.1.threads c).sig.saved) (entered_current e) ∙ ap (λ g. g.saved) (entered_sig e)

-- With a handler active nothing is delivered.
active_stops :
    (self : ℕ) (s : Sched) → (s.threads self).sig.in_handler ≡ true → deliverable self s ≡ false
unfolding deliverable
active_stops self s e = ground (arith, e)

idle_eq :
    (tf : TrapFrame) (s : Sched)
    → deliverable s.current s ≡ false
    → signal_check_and_dispatch tf s ≡ some (tf, s)
unfolding signal_check_and_dispatch
idle_eq tf s e = rw e refl

return_eq :
    (tf tf' : TrapFrame) (s : Sched)
    → (sig_of s).in_handler ≡ true
    → (sig_of s).saved ≡ tf
    → signal_return tf' s ≡ (pos tf.a0, tf, signal_release s.current s)
unfolding signal_return
return_eq tf tf' s e f = rw e (ap (λ v. (pos v.a0, v, signal_release s.current s)) f)

released_sig :
    (t : ℕ) (s : Sched)
    → t ≢ 0
    → ((signal_release t s).threads t).sig
      ≡ record (s.threads t).sig { sigstack_base = 0; in_handler = false }
unfolding signal_release
released_sig t s h = rw (==_ne t 0 h) (ap (λ v. v.sig) (update_self s.threads t _))

route_eq :
    (self n h : ℕ) (tf : TrapFrame) (s : Sched)
    → (s.threads self).sig.handlers n ≡ h
    → h ≢ sig_ign
    → h ≢ sig_dfl
    → route self n tf s ≡ enter_handler self n h tf s
unfolding route
route_eq self n h tf s e i d = rw e (rw (==_ne h sig_ign i) (rw (==_ne h sig_dfl d) refl))

taken_sig :
    (n : ℕ) (s : Sched)
    → sig_of (taken n s) ≡ record (sig_of s) { pending = clear_bit n (sig_of s).pending }
taken_sig n s = ap (λ v. v.sig) (update_self s.threads s.current _)

-- Posting a signal, to whatever thread, leaves the handler of every thread as it is.
post-handler :
    (t : ℕ) (g : ℤ) (s : Sched) (u : ℕ)
    → (((signal_post t g s).threads u).sig.in_handler ≡ (s.threads u).sig.in_handler)
      × (((signal_post t g s).threads u).sig.saved ≡ (s.threads u).sig.saved)
unfolding signal_post
post-handler t g s u = elim (Bool-cases (t == 0)) [
  | inl z ↦ rw z (refl, refl)
  | inr n ↦ elim (Bool-cases (out_of_range g)) [
    | inl o ↦ rw (n, o) (refl, refl)
    | inr i ↦ elim (eq_or_ne t u) [
      | inl e ↦ rw (n, i, ← e, update_self s.threads t _) (refl, refl)
      | inr d ↦ rw (n, i, update-ne s.threads t u _ d) (refl, refl)
    ]
  ]
]

post-current : (t : ℕ) (g : ℤ) (s : Sched) → (signal_post t g s).current ≡ s.current
unfolding signal_post
post-current t g s = elim (Bool-cases (t == 0)) [
  | inl z ↦ rw z refl
  | inr n ↦ elim (Bool-cases (out_of_range g)) [ inl o ↦ rw (n, o) refl | inr i ↦ rw (n, i) refl ]
]

-- The state after signals are posted to threads, one after the other.
abbrev pub post_all : List (ℕ × ℤ) → Sched → Sched
post_all [] s = s
post_all ((t, g) ∷ ps) s = post_all ps (signal_post t g s)

post_all-handler :
    (ps : List (ℕ × ℤ)) (s : Sched)
    → ((post_all ps s).current ≡ s.current)
      × ((sig_of (post_all ps s)).in_handler ≡ (sig_of s).in_handler)
      × ((sig_of (post_all ps s)).saved ≡ (sig_of s).saved)
post_all-handler [] s = (refl, refl, refl)
post_all-handler ((t, g) ∷ ps) s =
    let (same, active, frame) = post_all-handler ps (signal_post t g s) in
    let c = post-current t g s in
    let (active', frame') = post-handler t g s s.current in
    (
      same ∙ c,
      active ∙ ap (λ v. ((signal_post t g s).threads v).sig.in_handler) c ∙ active',
      frame ∙ ap (λ v. ((signal_post t g s).threads v).sig.saved) c ∙ frame',
    )

-- If a signal can be delivered to the current thread, the lowest one that is pending has a user
-- handler, and there is memory for its stack: the thread goes on in the handler with the signal's
-- number as argument, on the new stack and with the trampoline as return address. Whatever signals
-- are posted to it or to other threads meanwhile, no signal is delivered while it stays in the
-- handler; and when it calls `signal_return`, whatever its frame is then, the frame of before the
-- signal is restored and its a0 is the result. If none was posted, then no handler is active
-- afterwards, the signal is no longer pending, and every other one is pending as it was before.
pub signal_roundtrip :
    (tf : TrapFrame) (s : Sched) (n h : ℕ)
    → s.current ≢ 0
    → deliverable s.current s ≡ true
    → lowest_bit_from 64 (sig_of s).pending 0 ≡ some n
    → (sig_of s).handlers n ≡ h
    → h ≢ sig_ign
    → h ≢ sig_dfl
    → stack_of tf s n h ≢ 0
    → (s₁ : Sched) × (signal_check_and_dispatch tf s ≡ some (handler_frame tf s n h, s₁))
      × ((ps : List (ℕ × ℤ)) (tf' : TrapFrame)
          → signal_check_and_dispatch tf' (post_all ps s₁) ≡ some (tf', post_all ps s₁))
      × ((ps : List (ℕ × ℤ)) (tf' : TrapFrame)
          → signal_return tf' (post_all ps s₁)
            ≡ (pos tf.a0, tf, signal_release s.current (post_all ps s₁)))
      × (((signal_release s.current s₁).threads s.current).sig ≡ record (sig_of s) {
        pending = clear_bit n (sig_of s).pending;
        saved = tf;
        sigstack_base = 0;
        in_handler = false;
      })
      × (bit_set n (clear_bit n (sig_of s).pending) ≡ false)
      × ((j : ℕ)
          → n ≢ j
          → bit_set j (clear_bit n (sig_of s).pending) ≡ bit_set j (sig_of s).pending)
signal_roundtrip tf s n h c d l e i f k = (
  s₁,
  dispatched,
  (λ ps tf'.
      idle_eq tf' (post_all ps s₁)
        (active_stops (post_all ps s₁).current (post_all ps s₁) (active ps))),
  (λ ps tf'.
      return_eq tf tf' (post_all ps s₁) (active ps)
        ((post_all-handler ps s₁).2 ∙ entered_saved tf t n h k)
      ∙ ap (λ v. (pos tf.a0, tf, signal_release v (post_all ps s₁)))
          ((post_all-handler ps s₁).0 ∙ entered_current tf t n h k)),
  released_sig s.current s₁ c
      ∙ ap {A = SignalState} (λ g. record g { sigstack_base = 0; in_handler = false })
          (entered_sig tf t n h k
            ∙ ap {A = SignalState}
                (λ g. record g { saved = tf; sigstack_base = stack_of tf s n h; in_handler = true })
                (taken_sig n s)),
  bit-clear_bit n (sig_of s).pending,
  (λ j. bit-clear_bit-ne n j (sig_of s).pending),
)
  where
    t : Sched
    t = taken n s

    s₁ : Sched
    s₁ = (enter_handler s.current n h tf t).1

    active : (ps : List (ℕ × ℤ)) → (sig_of (post_all ps s₁)).in_handler ≡ true
    active ps = (post_all-handler ps s₁).1 ∙ entered_active tf t n h k

    dispatched : signal_check_and_dispatch tf s ≡ some (handler_frame tf s n h, s₁)
    dispatched =
        dispatch_eq tf s n d l
        ∙ ap some (
            route_eq s.current n h tf t (ap (λ g. g.handlers n) (taken_sig n s) ∙ e) i f
            ∙ ap (λ v. (v, s₁)) (entered tf t n h k))
