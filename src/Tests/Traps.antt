-- ===== src/Tests/Traps.antt =====
-- The trap dispatcher with a counter as its devices.
use osc.Common.{ℕ, ◌+◌, ◌^◌, ◌≡◌, refl, arith, true, false, update}
use osc.Common.Int.{pos}
use osc.Sched.{TrapFrame, zero_frame, zero_thread, running, signal_state_init}
use osc.Trap.{Hart, Handlers, returned, top_half, trap_handler}
use osc.Trap.Gates.{trap_handler-kernel}
use osc.Tests.Threads.{sched}

-- Interrupt 10 is pending at the controller, and a bottom half asks for another thread.
abbrev handlers : Handlers ℕ
handlers = record {
  timer_top_half = λ k. k;
  plic_claim = λ k. (10, k);
  plic_complete = λ irq k. k;
  uart_top_half = λ irq k. record k { devices = k.devices + irq };
  task_run_pending = λ k. record k { sched = record (k.sched) { need_resched = true } };
  do_syscall = λ tf k. (pos 5, tf, k);
  resumed = λ s. s;
}

abbrev hart : Hart ℕ
hart = record { devices = 0; sched = sched }

abbrev external : TrapFrame
external = record zero_frame { scause = 2 ^ 63 + 9; sstatus = 256 }

abbrev after : Hart ℕ
after = Handlers.task_run_pending handlers (top_half handlers 10 9 hart)

trap_handler-kernel_example :
    trap_handler handlers 10 0 external hart
    ≡ returned external
        (record after { sched = record (Hart.sched after) { need_resched = false } })
trap_handler-kernel_example = trap_handler-kernel handlers 10 0 external hart (omega arith) refl

abbrev from_process : TrapFrame
from_process = record zero_frame { scause = 2 ^ 63 + 9 }

-- The process that runs has a pending signal without a handler.
abbrev doomed : Hart ℕ
doomed = record hart {
  sched = record sched {
    threads = update sched.threads 10 (record zero_thread {
      state = running;
      image_base = 65536;
      sig = record signal_state_init { pending = 4 };
    });
  };
}

abbrev calling : TrapFrame
calling = record zero_frame { scause = 8; sepc = 4096 }
