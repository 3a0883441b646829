-- ===== src/Shell.antt =====
-- The shell, kernel/src/shell.c: the line editor, the commands of a line, and the numbers in their
-- arguments. A string is the list of its bytes before the zero; output is the list of the bytes
-- handed to uart_putc and uart_puts.
pub mod Line
pub mod Args
pub mod Timeout
pub mod Processes
use osc.Common.{
  ℕ, zero, suc, ◌+◌, ◌-◌, ◌*◌, Bool, true, false, ◌&&◌, ◌||◌, List, [], ◌∷◌, ◌++◌, ◌==◌, ltb, leb,
  if◌then◌else◌, u32, update,
}
use osc.Common.Int.{ℤ, pos, negsuc}
use osc.Common.Strings.{codes}
use osc.Utils.{str_eq, str_startswith}

abbrev pub shell_buf_size : ℕ
shell_buf_size = 128

-- `buf`, `len`, what has been sent, and the lines handed to `shell_handle_command`, the last one first.
pub record LineState : Type 0 where
  pub buf : ℕ → ℕ
  pub len : ℕ
  pub out : List ℕ
  pub lines : List (List ℕ)

-- The string of at most `n` bytes at `i`.
unfoldable pub line_from : (ℕ → ℕ) → ℕ → ℕ → List ℕ
line_from buf zero i = []
line_from buf (suc n) i = if buf i == 0 then [] else buf i ∷ line_from buf n (i + 1)

abbrev pub prompt : List ℕ
prompt = codes "opi-rv2> "

-- The body of the loop for a character that `uart_getc` has returned.
unfoldable pub shell_key : LineState → ℕ → LineState
shell_key s c =
    if c == 10
    then record {
      buf = update s.buf s.len 0;
      len = 0;
      out = s.out ++ (10 ∷ prompt);
      lines = line_from (update s.buf s.len 0) s.len 0 ∷ s.lines;
    }
    else if c == 8 || c == 127
    then (if ltb 0 s.len then record s { len = s.len - 1; out = s.out ++ (8 ∷ 32 ∷ 8 ∷ []) } else s)
    else if ltb s.len (shell_buf_size - 1)
    then record s { buf = update s.buf s.len c; len = s.len + 1; out = s.out ++ (c ∷ []) }
    else s

-- `if (c < 0) continue;`
unfoldable pub shell_step : LineState → ℤ → LineState
shell_step s (pos c) = shell_key s c
shell_step s (negsuc n) = s

unfoldable pub shell_run : LineState → List ℤ → LineState
shell_run s [] = s
shell_run s (c ∷ cs) = shell_run (shell_step s c) cs

-- What a line asks for; the commands with arguments hold their strings, the usage messages name the command.
pub data Command : Type 0 where
  help : Command
  hello : Command
  info : Command
  load : Command
  test : Command
  ls : Command
  cat : List ℕ → Command
  exec : List ℕ → Command
  set_timeout : List ℕ → Command
  taskdemo : Command
  tasknest : Command
  threadtest : Command
  stop : List ℕ → Command
  kill : List ℕ → Command
  usage : List ℕ → Command
  unknown : List ℕ → Command
  nothing : Command

-- `while (*p == ' ') p++;`
unfoldable pub skip_spaces : List ℕ → List ℕ
skip_spaces [] = []
skip_spaces (c ∷ p) = let rest = skip_spaces p in if c == 32 then rest else c ∷ p

-- `cmd + n`
unfoldable pub drop : ℕ → List ℕ → List ℕ
drop zero p = p
drop (suc n) [] = []
drop (suc n) (c ∷ p) = drop n p

abbrev pub with_name : Command → (List ℕ → Command) → List ℕ → Command
with_name missing command [] = missing
with_name missing command (c ∷ p) = command (c ∷ p)

-- The branches of `shell_handle_command`, in their order.
unfoldable pub shell_command : List ℕ → Command
shell_command cmd =
    if str_eq cmd (codes "help")
    then help
    else if str_eq cmd (codes "hello")
    then hello
    else if str_eq cmd (codes "info")
    then info
    else if str_eq cmd (codes "load")
    then load
    else if str_eq cmd (codes "test")
    then test
    else if str_eq cmd (codes "ls")
    then ls
    else if str_startswith cmd (codes "cat ")
    then with_name (usage (codes "cat")) cat (skip_spaces (drop 4 cmd))
    else if str_eq cmd (codes "cat")
    then usage (codes "cat")
    else if str_startswith cmd (codes "exec ")
    then with_name (usage (codes "exec")) exec (skip_spaces (drop 5 cmd))
    else if str_eq cmd (codes "exec")
    then usage (codes "exec")
    else if str_startswith cmd (codes "setTimeout ")
    then set_timeout (drop 11 cmd)
    else if str_eq cmd (codes "setTimeout")
    then usage (codes "setTimeout")
    else if str_eq cmd (codes "taskdemo")
    then taskdemo
    else if str_eq cmd (codes "tasknest")
    then tasknest
    else if str_eq cmd (codes "threadtest")
    then threadtest
    else if str_startswith cmd (codes "stop ")
    then stop (drop 5 cmd)
    else if str_eq cmd (codes "stop")
    then usage (codes "stop")
    else if str_startswith cmd (codes "kill ")
    then kill (drop 5 cmd)
    else if str_eq cmd (codes "kill")
    then usage (codes "kill")
    else with_name nothing unknown cmd
