-- ===== src/Process/Kill.antt =====
-- `sys_stop` and `sys_kill` of kernel/src/syscall.c.
use osc.Common.{ℕ, ◌≡◌, ◌≢◌, refl, false, ==_ne}
use osc.Common.Int.{ℤ, pos, eqb}
use osc.Sched.{Sched}
use osc.Signal.{signal_default_terminate}
use osc.Process.{find_thread_by_pid, sys_stop}

-- `sys_stop` of a process that is found and is not the caller does what the default action of a
-- signal does, and succeeds.
pub sys_stop_lem :
    (fuel : ℕ) (pid : ℤ) (s : Sched)
    → eqb (pos (s.threads s.current).pid) pid ≡ false
    → find_thread_by_pid fuel pid s ≢ 0
    → (s.threads (find_thread_by_pid fuel pid s)).image_base ≢ 0
    → sys_stop fuel pid s ≡ (pos 0, signal_default_terminate (find_thread_by_pid fuel pid s) s)
unfolding sys_stop signal_default_terminate
sys_stop_lem fuel pid s e n i = rw e (
    rw (==_ne (find_thread_by_pid fuel pid s) 0 n)
      (rw (==_ne (s.threads (find_thread_by_pid fuel pid s)).image_base 0 i) refl))
