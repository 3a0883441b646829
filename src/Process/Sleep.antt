-- ===== src/Process/Sleep.antt =====
-- `sys_usleep` of kernel/src/syscall.c: the callback of the timer and the block.
use osc.Common.{ℕ, ◌≡◌, inl, inr, sym, ◌∙◌, List, ◌∷◌}
use osc.Sched.{blocked, Sched, thread_block}
use osc.Sched.Inv.{state_of, IsRunning, blocked_running}
use osc.Sched.Ops.{thread_wakeup_lem, thread_block_lem}
use osc.Process.{usleep_cb}

-- A callback that runs before the sleeper has blocked does nothing, and the sleeper then blocks: the
-- wakeup is lost.
pub usleep_cb-lost :
    (s : Sched) (next : ℕ) (rest : List ℕ)
    → IsRunning s
    → s.runq ≡ next ∷ rest
    → (usleep_cb s.current s ≡ s)
      × (state_of (thread_block (usleep_cb s.current s)) s.current ≡ blocked)
unfolding usleep_cb
usleep_cb-lost s next rest r e = elim (thread_wakeup_lem s.current s r.valid).1 [
  | inl w ↦ absurd (blocked_running (sym w.1 ∙ r.runs))
  | inr w ↦ (w.1, rw w.1 (thread_block_lem s next rest r e).3)
]
