-- ===== src/Shell/Timeout.antt =====
-- The command `setTimeout`: shell_set_timeout and setto_cb of kernel/src/shell.c.
use osc.Common.{
  ℕ, ◌+◌, ◌-◌, ◌*◌, ◌/◌, List, [], ◌∷◌, ◌++◌, Option, none, some, ◌==◌, if◌then◌else◌, u64,
}
use osc.Common.Int.{ℤ}
use osc.Common.Strings.{codes}
use osc.Kmalloc.{Heap, kmalloc, kfree}
use osc.Timer.{TimerState, sign_extend, add_timer}
use osc.Utils.{print_dec_ulong}
use osc.Shell.Args.{timeout_args, copy_msg, setto_msg_max}

-- `struct setto_ctx`
pub record SettoCtx : Type 0 where
  pub reg_tick : ℕ
  pub exp_tick : ℕ
  pub msg : List ℕ

abbrev pub sizeof_setto_ctx : ℕ
sizeof_setto_ctx = 112

unfoldable pub setto_ctx : ℤ → List ℕ → ℕ → TimerState → SettoCtx
setto_ctx sec p now s = record {
  reg_tick = now;
  exp_tick = u64 (now + u64 (sign_extend sec * s.timebase_freq));
  msg = copy_msg (setto_msg_max - 1) p;
}

-- What is printed, the timers, and the context with its address; `now` is read for the context and
-- `then_now` by `add_timer`.
unfoldable pub shell_set_timeout :
    ℕ → List ℕ → ℕ → ℕ → TimerState → List ℕ × TimerState × Option (ℕ × SettoCtx)
shell_set_timeout callback args now then_now s = elim (timeout_args args) [
  | none ↦ (codes "usage: setTimeout <seconds> <message>\n", s, none)
  | some (sec, p) ↦
      let t = s.tasks in
      let (c, heap) = kmalloc sizeof_setto_ctx t.heap in
      let s₁ : TimerState = record s { tasks = record t { heap = heap } } in
      if c == 0
      then (codes "setTimeout: out of memory\n", s₁, none)
      else (codes "", add_timer callback c sec then_now s₁, some (c, setto_ctx sec p now s₁))
]

-- What the callback prints at `now`, with `hz` ticks a second, and the heap without the context at `c`.
unfoldable pub setto_cb : ℕ → SettoCtx → ℕ → ℕ → Heap → List ℕ × Heap
setto_cb c ctx hz now heap = (
  codes "\n[setTimeout] registered="
      ++ (print_dec_ulong (ctx.reg_tick / hz)
          ++ (codes "s scheduled="
              ++ (print_dec_ulong (ctx.exp_tick / hz)
                  ++ (codes "s fired="
                      ++ (print_dec_ulong (now / hz)
                          ++ (codes "s : " ++ (ctx.msg ++ (10 ∷ [])))))))),
  kfree c heap,
)
