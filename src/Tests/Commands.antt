-- ===== src/Tests/Commands.antt =====
-- The line editor and the commands of kernel/src/shell.c, and the load of bootloader/src/shell.c.
use osc.Common.{◌<◌, ◌≡◌, refl, arith, [], ◌∷◌, ◌++◌, some}
use osc.Common.Int.{pos, negsuc}
use osc.Common.Strings.{codes}
use osc.Sched.{SignalState}
use osc.Utils.{print_dec_ulong}
use osc.Process.{sys_stop, sys_kill, find_thread_by_pid}
use osc.Shell.{skip_spaces, shell_buf_size, LineState, shell_run}
use osc.Shell.Line.{editor_of, edit_all, shell_run_lem}
use osc.Shell.Args.{read_digits, stop_args, kill_args}
use osc.Shell.Args.Numbers.{kill_args-print_dec_ulong}
use osc.Shell.Processes.{
  sig_of, shell_stop_pid, shell_kill_pid, shell_kill_pid-sys_kill, shell_stop_pid-sigstack,
}
use osc.Loader.{
  Order, image, transfer, shell_load_kernel, shell_load_kernel_lem, shell_load_kernel-cr,
}
use osc.Tests.Calls.{family, found_it, has_image}

abbrev empty : LineState
empty = record { buf = λ i. 0; len = 0; out = []; lines = [] }

shell_run_example :
    (editor_of (shell_run empty (pos 104 ∷ pos 127 ∷ negsuc 0 ∷ pos 105 ∷ pos 10 ∷ []))
      ≡ edit_all (editor_of empty) (pos 104 ∷ pos 127 ∷ negsuc 0 ∷ pos 105 ∷ pos 10 ∷ []))
    × ((shell_run empty (pos 104 ∷ pos 127 ∷ negsuc 0 ∷ pos 105 ∷ pos 10 ∷ [])).len
        < shell_buf_size)
shell_run_example =
    shell_run_lem empty (pos 104 ∷ pos 127 ∷ negsuc 0 ∷ pos 105 ∷ pos 10 ∷ []) (omega arith)

kill_args_example :
    kill_args (print_dec_ulong 7 ++ (32 ∷ (print_dec_ulong 9 ++ []))) ≡ some (pos 7, pos 9)
kill_args_example = kill_args-print_dec_ulong 7 9 [] (omega arith) (omega arith) (omega arith) tt

shell_kill_pid_example :
    (shell_kill_pid 3 (codes "7 9") family).1 ≡ (sys_kill 3 (pos 7) (pos 9) family).1
unfolding kill_args read_digits skip_spaces
shell_kill_pid_example = shell_kill_pid-sys_kill 3 (codes "7 9") (pos 7) (pos 9) family refl

shell_stop_pid_example :
    (SignalState.sigstack_base
        (sig_of (shell_stop_pid 3 (codes "7") family).1 (find_thread_by_pid 3 (pos 7) family))
      ≡ SignalState.sigstack_base (sig_of family (find_thread_by_pid 3 (pos 7) family)))
    × (SignalState.sigstack_base
          (sig_of (sys_stop 3 (pos 7) family).1 (find_thread_by_pid 3 (pos 7) family))
        ≡ 0)
unfolding stop_args read_digits skip_spaces
shell_stop_pid_example =
    shell_stop_pid-sigstack 3 (codes "7") (pos 7) family refl refl found_it has_image

abbrev in_order : Order
in_order a b c d = (a, b, c, d)

shell_load_kernel_example :
    shell_load_kernel in_order (transfer (1 ∷ 13 ∷ 255 ∷ [])) ≡ some (image (1 ∷ 13 ∷ 255 ∷ []))
shell_load_kernel_example =
    shell_load_kernel_lem in_order (λ a b c d. refl) (1 ∷ 13 ∷ 255 ∷ []) (omega arith) (omega arith)
      (omega arith) (omega arith)

shell_load_kernel-cr_example :
    shell_load_kernel in_order
      (transfer (1 ∷ 2 ∷ 3 ∷ 4 ∷ 5 ∷ 6 ∷ 7 ∷ 8 ∷ 9 ∷ 10 ∷ 11 ∷ 12 ∷ 13 ∷ []))
    ≡ some (image (1 ∷ 2 ∷ 3 ∷ 4 ∷ 5 ∷ 6 ∷ 7 ∷ 8 ∷ 9 ∷ 10 ∷ []))
shell_load_kernel-cr_example =
    shell_load_kernel-cr in_order (λ a b c d. refl) (1 ∷ 2 ∷ 3 ∷ 4 ∷ 5 ∷ 6 ∷ 7 ∷ 8 ∷ 9 ∷ 10 ∷ [])
      (11 ∷ 12 ∷ 13 ∷ []) refl (omega arith) (omega arith) refl (omega arith)
