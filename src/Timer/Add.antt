-- ===== src/Timer/Add.antt =====
-- `add_timer_ticks` and its callers of kernel/src/timer.c.
use osc.Common.{
  ℕ, ◌≡◌, ◌≢◌, ◌⊎◌, refl, ap, ◌∙◌, inl, inr, arith, true, false, [], map, ◌≤◌, ◌<◌, eq_or_ne,
  ==_refl, ==_ne, ==_iff, u64, ◌+◌, ◌*◌, ◌/◌, ◌^◌,
}
use osc.Common.All.{All}
use osc.Common.In.{In}
use osc.Kmalloc.{kmalloc}
use osc.Timer.{
  Timer, TimerState, insert, is_first, add_timer_ticks, add_timer_us, sizeof_timer_node,
}
use osc.Timer.Queue.{
  IsSorted, IsInserted, insert-IsInserted, insert-IsSorted, insert-All, is_first_lem,
}

-- The queue is in order and the hardware timer fires no later than the first of it expires.
pub record IsArmed (s : TimerState) : Type 0 where
  pub sorted : IsSorted s.timer_queue
  pub armed : All (λ t. s.deadline ≤ t.expire_tick) s.timer_queue

-- The node that `add_timer_ticks` fills in.
abbrev pub new_timer : ℕ → ℕ → ℕ → ℕ → TimerState → Timer
new_timer callback arg ticks now s = record {
  node = (kmalloc sizeof_timer_node s.tasks.heap).0;
  expire_tick = u64 (now + ticks);
  register_tick = now;
  cb = callback;
  arg = arg;
}

module _ (callback arg ticks now : ℕ) (s : TimerState) where
  abbrev n : Timer
  n = new_timer callback arg ticks now s

  abbrev s' : TimerState
  s' = add_timer_ticks callback arg ticks now s

  no_memory : n.node ≡ 0 → (s'.timer_queue ≡ s.timer_queue) × (s'.deadline ≡ s.deadline)
  unfolding add_timer_ticks
  no_memory e = rw ((==_iff n.node 0).1 e) (refl, refl)

  queue_eq : n.node ≢ 0 → s'.timer_queue ≡ insert n s.timer_queue
  unfolding add_timer_ticks
  queue_eq h = rw (==_ne n.node 0 h) refl

  first_eq : n.node ≢ 0 → is_first n (insert n s.timer_queue) ≡ true → s'.deadline ≡ n.expire_tick
  unfolding add_timer_ticks
  first_eq h e = rw (==_ne n.node 0 h) (rw e refl)

  later_eq : n.node ≢ 0 → is_first n (insert n s.timer_queue) ≡ false → s'.deadline ≡ s.deadline
  unfolding add_timer_ticks
  later_eq h e = rw (==_ne n.node 0 h) (rw e refl)

-- `add_timer_ticks` on an armed queue, when the node that `kmalloc` gives is not one of the queue:
-- without memory the queue and the hardware timer are as before; otherwise the timer stands behind
-- all that expire no later and before all others, and the queue is in order and armed again.
pub add_timer_ticks_lem :
    (callback arg ticks now : ℕ) (s : TimerState)
    → IsArmed s
    → ¬ In (kmalloc sizeof_timer_node s.tasks.heap).0 (map (λ t. t.node) s.timer_queue)
    → let n = new_timer callback arg ticks now s in
      let r = add_timer_ticks callback arg ticks now s in
      ((n.node ≡ 0) × (r.timer_queue ≡ s.timer_queue) × (r.deadline ≡ s.deadline))
      ⊎ ((n.node ≢ 0) × IsInserted n s.timer_queue r.timer_queue × IsArmed r)
add_timer_ticks_lem callback arg ticks now s a f =
    elim (eq_or_ne (n callback arg ticks now s).node 0) [
      | inl e ↦ let m = no_memory callback arg ticks now s e in inl (e, m.0, m.1)
      | inr h ↦ inr (h, inserted h, armed h)
    ]
  where
    new : Timer
    new = new_timer callback arg ticks now s

    inserted :
        new.node ≢ 0
        → IsInserted new s.timer_queue (add_timer_ticks callback arg ticks now s).timer_queue
    inserted h =
        rw (queue_eq callback arg ticks now s h) (insert-IsInserted new s.timer_queue a.sorted)

    armed : new.node ≢ 0 → IsArmed (add_timer_ticks callback arg ticks now s)
    armed h = elim (is_first_lem new s.timer_queue a.sorted f) [
      | inl p ↦ record {
        sorted =
            rw (queue_eq callback arg ticks now s h) (insert-IsSorted new s.timer_queue a.sorted);
        armed = rw (queue_eq callback arg ticks now s h) (
            rw (first_eq callback arg ticks now s h p.0) (
              insert-All (λ t. new.expire_tick ≤ t.expire_tick) new s.timer_queue (omega arith)
                p.1));
      }
      | inr p ↦ record {
        sorted =
            rw (queue_eq callback arg ticks now s h) (insert-IsSorted new s.timer_queue a.sorted);
        armed = rw (queue_eq callback arg ticks now s h) (
            rw (later_eq callback arg ticks now s h p.0) (
              insert-All (λ t. s.deadline ≤ t.expire_tick) new s.timer_queue
                (p.1 s.deadline a.armed) a.armed));
      }
    ]

first_nil : (t : Timer) → is_first t (insert t []) ≡ true
unfolding insert is_first
first_nil t = ==_refl t.node

-- On an empty queue and with memory for the node, `add_timer_ticks` sets the hardware timer to the
-- expiry of the new timer, also when it was armed to fire before that: the tick of the scheduler that
-- was due is put off. The sum of the clock and the ticks is taken to fit in 64 bits.
pub add_timer_ticks-delays :
    (callback arg ticks now : ℕ) (s : TimerState)
    → s.timer_queue ≡ []
    → (kmalloc sizeof_timer_node s.tasks.heap).0 ≢ 0
    → s.deadline < now + ticks
    → now + ticks < 2 ^ 64
    → ((add_timer_ticks callback arg ticks now s).deadline ≡ now + ticks)
      × (s.deadline < (add_timer_ticks callback arg ticks now s).deadline)
add_timer_ticks-delays callback arg ticks now s e h d b =
    rw (first_eq callback arg ticks now s h first) (omega (arith, b), omega (arith, d, b))
  where
    first :
        is_first (n callback arg ticks now s) (insert (n callback arg ticks now s) s.timer_queue)
        ≡ true
    first =
        ap (λ q. is_first (n callback arg ticks now s) (insert (n callback arg ticks now s) q)) e
        ∙ first_nil (n callback arg ticks now s)

-- `add_timer_us` counts `usec` microseconds in ticks, rounded down, as long as the product with the
-- frequency fits in 64 bits.
pub add_timer_us_lem :
    (callback arg usec now : ℕ) (s : TimerState)
    → s.timebase_freq * usec < 2 ^ 64
    → add_timer_us callback arg usec now s
      ≡ add_timer_ticks callback arg (s.timebase_freq * usec / 1000000) now s
unfolding add_timer_us
add_timer_us_lem callback arg usec now s h =
    ap (λ t. add_timer_ticks callback arg (t / 1000000) now s) (omega (arith, h))
