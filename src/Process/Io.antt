-- ===== src/Process/Io.antt =====
-- sys_uart_read, sys_uart_write and sys_usleep of kernel/src/syscall.c. The console is a state with the
-- functions `getc` and `putc`, none where these wait longer than their fuel allows.
use osc.Common.{ℕ, zero, suc, ◌+◌, ◌%◌, Option, none, some, ◌==◌, ltb, if◌then◌else◌, update}
use osc.Common.Int.{ℤ, pos, negsuc}
use osc.Buddy.{Buddy}
use osc.Sched.{Sched, thread_block}
use osc.Timer.{TimerState, add_timer_us}
use osc.Process.{in_user_range}

module _ {C : Type 0} where
  -- The loop of `sys_uart_read`: `i` bytes are in the buffer.
  module _ (getc : C → Option (ℤ × C)) (yielded : C → C) (count buf : ℕ) where
    -- What is done with a result of `uart_getc`; `more` is the next round.
    abbrev pub on_char :
        (ℕ → C → (ℕ → ℕ) → Option (ℕ × C × (ℕ → ℕ)))
        → ℕ
        → (ℕ → ℕ)
        → Option (ℤ × C)
        → Option (ℕ × C × (ℕ → ℕ))
    on_char more i mem none = none
    on_char more i mem (some (pos c, k)) = more (i + 1) k (update mem (buf + i) (c % 256))
    on_char more i mem (some (negsuc n, k)) =
        if ltb 0 i then some (i, k, mem) else more i (yielded k) mem

    unfoldable pub read_loop : ℕ → ℕ → C → (ℕ → ℕ) → Option (ℕ × C × (ℕ → ℕ))
    read_loop zero i k mem = none
    read_loop (suc fuel) i k mem =
        if ltb i count then on_char (read_loop fuel) i mem (getc k) else some (i, k, mem)

  -- The count returned, or -1, the console and the memory.
  unfoldable pub sys_uart_read :
      (C → Option (ℤ × C)) → (C → C) → ℕ → ℕ → ℤ → Buddy → C → (ℕ → ℕ) → Option (ℤ × C × (ℕ → ℕ))
  sys_uart_read getc yielded fuel buf (negsuc n) b k mem = some (negsuc 0, k, mem)
  sys_uart_read getc yielded fuel buf (pos count) b k mem =
      if count == 0
      then some (negsuc 0, k, mem)
      else if in_user_range buf count b
      then elim (read_loop getc yielded count buf fuel 0 k mem) [
        | none ↦ none
        | some (i, k', mem') ↦ some (pos i, k', mem')
      ]
      else some (negsuc 0, k, mem)

  unfoldable pub write_loop : (ℕ → C → Option C) → (ℕ → ℕ) → ℕ → ℕ → C → Option C
  write_loop putc mem zero p k = some k
  write_loop putc mem (suc n) p k = elim (putc (mem p % 256) k) [
    | none ↦ none
    | some k' ↦ write_loop putc mem n (p + 1) k'
  ]

  unfoldable pub sys_uart_write : (ℕ → C → Option C) → ℕ → ℤ → Buddy → (ℕ → ℕ) → C → Option (ℤ × C)
  sys_uart_write putc buf (negsuc n) b mem k = some (negsuc 0, k)
  sys_uart_write putc buf (pos count) b mem k =
      if in_user_range buf count b
      then elim (write_loop putc mem count buf k) [ none ↦ none | some k' ↦ some (pos count, k') ]
      else some (negsuc 0, k)

-- `tok` is the address of the token on the kernel stack.
unfoldable pub sys_usleep : ℕ → ℕ → ℕ → ℕ → TimerState → Sched → ℤ × TimerState × Sched
sys_usleep callback tok usec now timers s =
    if usec == 0
    then (pos 0, timers, s)
    else (pos 0, add_timer_us callback tok usec now timers, thread_block s)
