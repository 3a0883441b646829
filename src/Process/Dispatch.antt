-- ===== src/Process/Dispatch.antt =====
-- `do_syscall` of kernel/src/syscall.c: the call that a trap frame asks for.
use osc.Common.{ℕ, ◌-◌, ◌^◌, ◌==◌, leb, if◌then◌else◌, u32}
use osc.Common.Int.{ℤ, pos, negsuc}
use osc.Sched.{TrapFrame}

-- `(int)x` and `(long)x`
abbrev pub as_int : ℕ → ℤ
as_int x = if leb (2 ^ 31) (u32 x) then negsuc (2 ^ 32 - 1 - u32 x) else pos (u32 x)

abbrev pub as_long : ℕ → ℤ
as_long x = if leb (2 ^ 63) x then negsuc (2 ^ 64 - 1 - x) else pos x

-- The handler that the switch calls, with its arguments as they are cast.
pub data Call : Type 0 where
  getpid : Call
  uart_read : ℕ → ℤ → Call
  uart_write : ℕ → ℤ → Call
  exec : ℕ → Call
  fork : Call
  waitpid : ℤ → Call
  exit : ℤ → Call
  stop : ℤ → Call
  display : ℕ → ℕ → ℕ → Call
  usleep : ℕ → Call
  signal : ℤ → ℕ → Call
  sigreturn : Call
  kill : ℤ → ℤ → Call
  invalid : Call

unfoldable pub do_syscall : TrapFrame → Call
do_syscall tf =
    if tf.a7 == 0
    then getpid
    else if tf.a7 == 1
    then uart_read tf.a0 (as_long tf.a1)
    else if tf.a7 == 2
    then uart_write tf.a0 (as_long tf.a1)
    else if tf.a7 == 3
    then exec tf.a0
    else if tf.a7 == 4
    then fork
    else if tf.a7 == 5
    then waitpid (as_long tf.a0)
    else if tf.a7 == 6
    then exit (as_long tf.a0)
    else if tf.a7 == 7
    then stop (as_long tf.a0)
    else if tf.a7 == 8
    then display tf.a0 (u32 tf.a1) (u32 tf.a2)
    else if tf.a7 == 9
    then usleep (u32 tf.a0)
    else if tf.a7 == 10
    then signal (as_int tf.a0) tf.a1
    else if tf.a7 == 11
    then sigreturn
    else if tf.a7 == 12
    then kill (as_int tf.a0) (as_int tf.a1)
    else invalid
