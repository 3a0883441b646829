-- ===== src/Shell/Args.antt =====
-- The arguments of the commands of kernel/src/shell.c: the loops over digits and spaces in
-- shell_set_timeout, shell_stop_pid and shell_kill_pid.
pub mod Numbers
use osc.Common.{
  ℕ, zero, suc, ◌+◌, ◌-◌, ◌*◌, ◌^◌, Bool, true, false, ◌&&◌, ◌||◌, not, List, [], ◌∷◌, Option, none,
  some, ◌==◌, leb, if◌then◌else◌, u32,
}
use osc.Common.Int.{ℤ, pos, negsuc}
use osc.Signal.{out_of_range}
use osc.Shell.{skip_spaces}

abbrev pub is_digit : ℕ → Bool
is_digit c = leb 48 c && leb c 57

-- The bits of the number, how many digits there were, and what is behind them.
pub record Number : Type 0 where
  pub bits : ℕ
  pub digits : ℕ
  pub rest : List ℕ

-- `while (*p >= '0' && *p <= '9')`; the `int` keeps its 32 lower bits.
unfoldable pub read_digits : ℕ → ℕ → List ℕ → Number
read_digits n k [] = record { bits = n; digits = k; rest = [] }
read_digits n k (c ∷ p) =
    let more = read_digits (u32 (n * 10 + (c - 48))) (k + 1) p in
    if is_digit c then more else record { bits = n; digits = k; rest = c ∷ p }

-- The `int` of 32 bits.
abbrev pub int_of : ℕ → ℤ
int_of n = if leb (2 ^ 31) n then negsuc (2 ^ 32 - 1 - n) else pos n

abbrev pub at_space : List ℕ → Bool
at_space [] = false
at_space (c ∷ p) = c == 32

-- The pid, none for the usage message.
unfoldable pub stop_args : List ℕ → Option ℤ
stop_args args =
    let n = read_digits 0 0 (skip_spaces args) in
    if n.digits == 0 then none else some (int_of n.bits)

-- What the two numbers give.
abbrev pub kill_of : Number → Number → Option (ℤ × ℤ)
kill_of n m =
    if n.digits == 0 || not (at_space n.rest)
    then none
    else if m.digits == 0 || out_of_range (int_of m.bits)
    then none
    else some (int_of n.bits, int_of m.bits)

-- The pid and the signal.
unfoldable pub kill_args : List ℕ → Option (ℤ × ℤ)
kill_args args =
    let n = read_digits 0 0 (skip_spaces args) in kill_of n (read_digits 0 0 (skip_spaces n.rest))

abbrev pub is_positive : ℤ → Bool
is_positive (pos n) = not (n == 0)
is_positive (negsuc n) = false

abbrev pub some_message : ℤ → List ℕ → Option (ℤ × List ℕ)
some_message sec [] = none
some_message sec (c ∷ p) = some (sec, c ∷ p)

-- The seconds and the message.
unfoldable pub timeout_args : List ℕ → Option (ℤ × List ℕ)
timeout_args args =
    let n = read_digits 0 0 (skip_spaces args) in
    if n.digits == 0 || not (is_positive (int_of n.bits)) || not (at_space n.rest)
    then none
    else some_message (int_of n.bits) (skip_spaces n.rest)

abbrev pub setto_msg_max : ℕ
setto_msg_max = 96

-- `while (p[i] != '\0' && i < SETTO_MSG_MAX - 1)`, `n` bytes are left.
unfoldable pub copy_msg : ℕ → List ℕ → List ℕ
copy_msg zero p = []
copy_msg (suc n) [] = []
copy_msg (suc n) (c ∷ p) = c ∷ copy_msg n p
