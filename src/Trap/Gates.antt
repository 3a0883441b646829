-- ===== src/Trap/Gates.antt =====
-- The gates of kernel/src/trap.c on the way back from a trap.
use osc.Common.{
  ℕ, ◌+◌, ◌-◌, ◌≤◌, ◌≡◌, ◌≢◌, ◌⊎◌, refl, ap, ◌∙◌, arith, true, false, none, some, inl, inr,
  Bool-cases, ==_iff, ◌==◌, le→leb, lt→leb, u64,
}
use osc.Common.Int.{ℤ}
use osc.Sched.{zombie, TrapFrame, Thread, Sched, schedule, need_resched_clear}
use osc.Signal.{bit_set, deliverable, signal_check_and_dispatch}
use osc.Trap.{
  Hart, Handlers, Outcome, returned, gone, stuck, is_zombie, scause_intr_bit, word_of,
  deliver_pending_signal, top_half, preempt, interrupt, ecall, trap_handler,
}

-- The current thread of a hart, and the flag of the scheduler's tick.
abbrev pub current_of : {D : Type 0} → Hart D → Thread
current_of k = Sched.threads k.sched (Sched.current k.sched)

-- What becomes of a trap that reaches the gate for signals with the frame `tf` and the hart `k`: a thread
-- without a user image gets its frame back and nothing is changed; a user process runs on only if it is
-- no zombie after the dispatch of its signals, and gives the processor away if it is one.
pub data Passed {D : Type 0} (tf : TrapFrame) (k : Hart D) (o : Outcome D) : Type 0 where
  no_process :
      (Sched.current k.sched ≡ 0) ⊎ (Thread.image_base (current_of k) ≡ 0)
      → o ≡ returned tf k
      → Passed tf k o
  goes_on :
      Sched.current k.sched ≢ 0
      → Thread.image_base (current_of k) ≢ 0
      → (tf' : TrapFrame) (s : Sched) → signal_check_and_dispatch tf k.sched ≡ some (tf', s)
      → Thread.state (s.threads s.current) ≢ zombie
      → o ≡ returned tf' (record k { sched = s })
      → Passed tf k o
  killed :
      Sched.current k.sched ≢ 0
      → Thread.image_base (current_of k) ≢ 0
      → (tf' : TrapFrame) (s : Sched) → signal_check_and_dispatch tf k.sched ≡ some (tf', s)
      → Thread.state (s.threads s.current) ≡ zombie
      → o ≡ gone (record k { sched = schedule s })
      → Passed tf k o
  not_dispatched :
      Sched.current k.sched ≢ 0
      → Thread.image_base (current_of k) ≢ 0
      → signal_check_and_dispatch tf k.sched ≡ none
      → o ≡ stuck
      → Passed tf k o

module _ {D : Type 0} (h : Handlers D) where
  preempt-kernel :
      (k : Hart D) → preempt h false k ≡ record k { sched = (need_resched_clear k.sched).1 }
  unfolding preempt need_resched_clear
  preempt-kernel k = elim (Bool-cases (Sched.need_resched k.sched)) [
    | inl e ↦ rw e refl
    | inr e ↦ rw e refl
  ]

  -- An interrupt taken in the kernel takes the request to reschedule away and gives nothing for it: after
  -- the bottom halves the flag is cleared, and the thread goes on.
  pub trap_handler-kernel :
      (uart_irq user_base : ℕ) (tf : TrapFrame) (k : Hart D)
      → scause_intr_bit ≤ tf.scause
      → bit_set 8 tf.sstatus ≡ true
      → let k' =
          Handlers.task_run_pending h (top_half h uart_irq (tf.scause - scause_intr_bit) k) in
        trap_handler h uart_irq user_base tf k
        ≡ returned tf (record k' { sched = record (Hart.sched k') { need_resched = false } })
  unfolding trap_handler interrupt need_resched_clear
  trap_handler-kernel uart_irq user_base tf k c spp =
      rw (le→leb scause_intr_bit tf.scause c, spp)
        (ap (returned tf) (
          preempt-kernel
            (Handlers.task_run_pending h (top_half h uart_irq (tf.scause - scause_intr_bit) k))))

  preempt-quiet : (k : Hart D) → Sched.need_resched (Hart.sched k) ≡ false → preempt h true k ≡ k
  unfolding preempt need_resched_clear
  preempt-quiet k e = rw e refl

  dispatch-quiet :
      (tf : TrapFrame) (s : Sched)
      → deliverable s.current s ≡ false
      → signal_check_and_dispatch tf s ≡ some (tf, s)
  unfolding signal_check_and_dispatch
  dispatch-quiet tf s e = rw e refl

  deliver-quiet :
      (tf : TrapFrame) (k : Hart D)
      → deliverable (Sched.current k.sched) k.sched ≡ false
      → is_zombie (Thread.state (current_of k)) ≡ false
      → deliver_pending_signal h tf k ≡ returned tf k
  unfolding deliver_pending_signal
  deliver-quiet tf k quiet alive = elim (Bool-cases (Sched.current k.sched == 0)) [
    | inl e ↦ rw e refl
    | inr n ↦ rw n (elim (Bool-cases (Thread.image_base (current_of k) == 0)) [
      | inl e ↦ rw e refl
      | inr m ↦ rw (m, dispatch-quiet tf k.sched quiet, alive) refl
    ])
  ]

  to_ecall :
      (uart_irq user_base : ℕ) (tf : TrapFrame) (k : Hart D)
      → tf.scause ≡ 8
      → trap_handler h uart_irq user_base tf k ≡ ecall h tf k
  unfolding trap_handler
  to_ecall uart_irq user_base tf k c =
      rw (lt→leb scause_intr_bit tf.scause (omega (arith, c)), (==_iff tf.scause 8).1 c) refl

  -- A system call is handled with the frame that points behind the `ecall`; with nothing to do on
  -- the way back its result is what the process finds in `a0`.
  pub trap_handler-ecall :
      (uart_irq user_base : ℕ) (tf : TrapFrame) (k : Hart D) (r : ℤ) (tf' : TrapFrame) (k' : Hart D)
      → tf.scause ≡ 8
      → Handlers.do_syscall h (record tf { sepc = u64 (tf.sepc + 4) }) k ≡ (r, tf', k')
      → Sched.need_resched (Hart.sched k') ≡ false
      → deliverable (Sched.current k'.sched) k'.sched ≡ false
      → is_zombie (Thread.state (current_of k')) ≡ false
      → trap_handler h uart_irq user_base tf k ≡ returned (record tf' { a0 = word_of r }) k'
  unfolding ecall
  trap_handler-ecall uart_irq user_base tf k r tf' k' c e no_tick quiet alive =
      to_ecall uart_irq user_base tf k c
      ∙ (rw (e, ecall, preempt-quiet k' no_tick)
          (deliver-quiet (record tf' { a0 = word_of r }) k' quiet alive))
