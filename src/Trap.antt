-- ===== src/Trap.antt =====
-- The trap dispatcher, kernel/src/trap.c. The top halves, the bottom halves and the system calls are the
-- handlers of `Handlers`; the signals and the scheduler are those of `Signal` and `Sched`.
pub mod Gates
use osc.Common.{
  ℕ, ◌+◌, ◌-◌, ◌%◌, ◌^◌, Bool, true, false, ◌&&◌, not, List, [], ◌∷◌, ◌++◌, Option, none, some,
  ◌==◌, leb, if◌then◌else◌, u32, u64,
}
use osc.Common.Int.{ℤ, pos, negsuc}
use osc.Common.Strings.{codes}
use osc.Utils.{print_dec_ulong, print_hex_u32}
use osc.Sched.{ThreadState, zombie, TrapFrame, Thread, Sched, schedule, need_resched_clear}
use osc.Signal.{bit_set, signal_check_and_dispatch}

-- The devices and what the scheduler keeps.
pub record Hart (D : Type 0) : Type 0 where
  pub devices : D
  pub sched : Sched

-- `plic_claim` gives 0 if no interrupt is pending; `resumed` is what happens from a call of `schedule` on
-- until the thread has the processor again.
pub record Handlers (D : Type 0) : Type 0 where
  pub timer_top_half : Hart D → Hart D
  pub plic_claim : Hart D → ℕ × Hart D
  pub plic_complete : ℕ → Hart D → Hart D
  pub uart_top_half : ℕ → Hart D → Hart D
  pub task_run_pending : Hart D → Hart D
  pub do_syscall : TrapFrame → Hart D → ℤ × TrapFrame × Hart D
  pub resumed : Sched → Sched

-- The frame that is restored; a thread that never returns; the message of an exception that halts; and
-- `stuck` for a bitmap without a bit, which the dispatch of signals does not meet.
pub data Outcome (D : Type 0) : Type 0 where
  returned : TrapFrame → Hart D → Outcome D
  gone : Hart D → Outcome D
  halted : List ℕ → Outcome D
  stuck : Outcome D

abbrev pub is_zombie : ThreadState → Bool
is_zombie v = elim v [ zombie ↦ true | _ ↦ false ]

-- SPP is bit 8 of sstatus, the interrupt bit of scause is bit 63, and a result is stored in 64 bits.
abbrev pub from_user : TrapFrame → Bool
from_user tf = not (bit_set 8 tf.sstatus)

abbrev pub scause_intr_bit : ℕ
scause_intr_bit = 2 ^ 63

abbrev pub word_of : ℤ → ℕ
word_of (pos n) = u64 n
word_of (negsuc n) = 2 ^ 64 - 1 - n % 2 ^ 64

unfoldable pub halt_message : ℕ → TrapFrame → List ℕ
halt_message user_base tf =
    codes "=== S-Mode trap ===\nscause: "
    ++ (print_dec_ulong tf.scause
        ++ (codes "\nsepc: 0x"
            ++ (print_hex_u32 (u32 (u64 (tf.sepc + 2 ^ 64 - user_base)))
                ++ (codes "\nstval: "
                    ++ (print_dec_ulong tf.stval
                        ++ codes "\n[trap] unhandled exception, halting.\n")))))

module _ {D : Type 0} (h : Handlers D) where
  -- What follows the dispatch: the thread that it has killed gives the processor away.
  abbrev pub after_dispatch : D → Option (TrapFrame × Sched) → Outcome D
  after_dispatch d none = stuck
  after_dispatch d (some (tf, s)) =
      if is_zombie (Thread.state (s.threads s.current))
      then gone (record { devices = d; sched = schedule s })
      else returned tf (record { devices = d; sched = s })

  unfoldable pub deliver_pending_signal : TrapFrame → Hart D → Outcome D
  deliver_pending_signal tf k =
      let s = k.sched in
      if s.current == 0
      then returned tf k
      else if Thread.image_base (s.threads s.current) == 0
      then returned tf k
      else after_dispatch k.devices (signal_check_and_dispatch tf s)

  -- `schedule`, and the thread again.
  unfoldable pub yielded : Hart D → Hart D
  yielded k = record k { sched = h.resumed (schedule k.sched) }

  -- The top half of the interrupt `code`.
  unfoldable pub top_half : ℕ → ℕ → Hart D → Hart D
  top_half uart_irq code k =
      let (irq, k₁) = h.plic_claim k in
      if code == 5
      then h.timer_top_half k
      else if code == 9
      then (if irq == uart_irq && not (irq == 0)
          then h.uart_top_half irq k₁
          else if not (irq == 0)
          then h.plic_complete irq k₁
          else k₁)
      else k

  -- `need_resched_clear() && SPP == 0`: the flag is cleared in any case.
  unfoldable pub preempt : Bool → Hart D → Hart D
  preempt user k =
      let (flag, s) = need_resched_clear k.sched in
      let k₁ : Hart D = record k { sched = s } in if flag && user then yielded k₁ else k₁

  unfoldable pub interrupt : ℕ → TrapFrame → Hart D → Outcome D
  interrupt uart_irq tf k =
      let code = tf.scause - scause_intr_bit in
      let k₁ = preempt (from_user tf) (h.task_run_pending (top_half uart_irq code k)) in
      if from_user tf then deliver_pending_signal tf k₁ else returned tf k₁

  unfoldable pub ecall : TrapFrame → Hart D → Outcome D
  ecall tf k =
      let (r, tf₁, k₁) = h.do_syscall (record tf { sepc = u64 (tf.sepc + 4) }) k in
      deliver_pending_signal (record tf₁ { a0 = word_of r }) (preempt true k₁)

  -- `user_base` is `g_user_base`.
  unfoldable pub trap_handler : ℕ → ℕ → TrapFrame → Hart D → Outcome D
  trap_handler uart_irq user_base tf k =
      if leb scause_intr_bit tf.scause
      then interrupt uart_irq tf k
      else if tf.scause == 8
      then ecall tf k
      else halted (halt_message user_base tf)
