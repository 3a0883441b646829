-- ===== src/Shell/Processes.antt =====
-- The commands of kernel/src/shell.c on processes: shell_stop_pid, shell_kill_pid and run_user_program.
use osc.Common.{
  ℕ, ◌≡◌, ◌≢◌, refl, ap, ◌∙◌, false, ◌||◌, not, List, [], ◌++◌, Option, none, some, inl, inr,
  Bool-cases, eq_or_ne, ==_ne, ◌==◌, if◌then◌else◌, update, update_self, update-ne,
}
use osc.Common.Int.{ℤ, pos, negsuc, eqb}
use osc.Common.Strings.{codes}
use osc.Utils.{print_dec_ulong}
use osc.Sched.{
  Thread, Sched, SignalState, is_blocked, ready, zombie, thread_wakeup, sched_zombify, remove_child,
}
use osc.Signal.{signal_post, signal_release, free_image, kill, out_of_range, to_nat}
use osc.Process.{Machine, find_thread_by_pid, sys_stop, sys_kill}
use osc.Process.Image.{wait_for}
use osc.Process.Spawn.{thread_spawn_user}
use osc.Shell.{skip_spaces}
use osc.Shell.Args.{Number, read_digits, int_of, at_space, stop_args, kill_args, kill_of}

-- What is printed, and the threads.
unfoldable pub shell_stop_pid : ℕ → List ℕ → Sched → List ℕ × Sched
shell_stop_pid fuel args s = elim (stop_args args) [
  | none ↦ (codes "usage: stop <pid>\n", s)
  | some pid ↦
      let t = find_thread_by_pid fuel pid s in
      let stopped = thread_wakeup (s.threads t).parent (free_image t (kill t s)) in
      if t == 0
      then (codes "stop: pid not found\n", s)
      else if (s.threads t).image_base == 0
      then (codes "stop: pid not found\n", s)
      else (codes "[stop] pid=" ++ (print_dec_ulong (to_nat pid) ++ codes " terminated\n"), stopped)
]

unfoldable pub shell_kill_pid : ℕ → List ℕ → Sched → List ℕ × Sched
shell_kill_pid fuel args s = elim (kill_args args) [
  | none ↦ (codes "usage: kill <pid> <signum>\n", s)
  | some (pid, signum) ↦
      let t = find_thread_by_pid fuel pid s in
      if t == 0
      then (codes "kill: pid not found\n", s)
      else if (s.threads t).image_base == 0
      then (codes "kill: pid not found\n", s)
      else (
        codes "[kill] posted signum="
            ++ (print_dec_ulong (to_nat signum)
                ++ (codes " to pid=" ++ (print_dec_ulong (to_nat pid) ++ codes "\n"))),
        signal_post t signum s,
      )
]

-- `others` is what the other threads do while the shell is blocked, and `fuel` bounds its wake-ups;
-- `none` says that the process is still alive then.
unfoldable pub run_user_program :
    (Sched → Sched) → ℕ → ℕ → ℕ → List ℕ → Option (ℕ × ℕ) → Machine → Option (List ℕ × Machine)
run_user_program others fuel bootstrap ss name file m =
    let (t, m₁) = thread_spawn_user bootstrap ss file m in
    if t == 0
    then some (codes "exec: cannot start " ++ (name ++ codes "\n"), m₁)
    else elim (wait_for others fuel t m₁.sched) [
      | none ↦ none
      | some s ↦ some ([], record m₁ { sched = sched_zombify t (remove_child t s) })
    ]

second_eq : {a b c d : ℤ} → ◌≡◌ {A = Option (ℤ × ℤ)} (some (a, b)) (some (c, d)) → d ≡ b
second_eq e = cc

kill_args-in_range :
    (args : List ℕ) (pid signum : ℤ)
    → kill_args args ≡ some (pid, signum)
    → out_of_range signum ≡ false
unfolding kill_args
kill_args-in_range args pid signum e =
    range (read_digits 0 0 (skip_spaces args))
      (read_digits 0 0 (skip_spaces (Number.rest (read_digits 0 0 (skip_spaces args))))) e
  where
    range : (n m : Number) → kill_of n m ≡ some (pid, signum) → out_of_range signum ≡ false
    range n m e = elim (Bool-cases (n.digits == 0 || not (at_space n.rest))) [
      | inl a ↦ let e' = rw a at e in cc
      | inr a ↦ elim (Bool-cases (m.digits == 0)) [
        | inl b ↦ let e' = rw (a, b) at e in cc
        | inr b ↦ elim (Bool-cases (out_of_range (int_of m.bits))) [
          | inl c ↦ let e' = rw (a, b, c) at e in cc
          | inr c ↦ let e' = rw (a, b, c) at e in ap out_of_range (second_eq e') ∙ c
        ]
      ]
    ]

-- If its arguments are a pid and a signal, the command `kill` leaves the threads as the system
-- call does.
pub shell_kill_pid-sys_kill :
    (fuel : ℕ) (args : List ℕ) (pid signum : ℤ) (s : Sched)
    → kill_args args ≡ some (pid, signum)
    → (shell_kill_pid fuel args s).1 ≡ (sys_kill fuel pid signum s).1
unfolding shell_kill_pid sys_kill
shell_kill_pid-sys_kill fuel args pid signum s e =
    rw (e, shell_kill_pid)
      (rw (kill_args-in_range args pid signum e)
        (elim (Bool-cases (find_thread_by_pid fuel pid s == 0)) [
          | inl a ↦ rw a refl
          | inr a ↦
              rw a
                (elim (Bool-cases ((s.threads (find_thread_by_pid fuel pid s)).image_base == 0)) [
                  | inl b ↦ rw b refl
                  | inr b ↦ rw b refl
                ])
        ]))

-- The signal state of each thread, which these operations leave alone.
abbrev pub sig_of : Sched → ℕ → SignalState
sig_of s t = Thread.sig (s.threads t)

update-sig :
    (f : ℕ → Thread) (t : ℕ) (v : Thread)
    → v.sig ≡ Thread.sig (f t)
    → (u : ℕ) → Thread.sig (update f t v u) ≡ Thread.sig (f u)
update-sig f t v e u = elim (eq_or_ne t u) [
  | inl h ↦ rw h (ap Thread.sig (update_self f u v) ∙ (rw h at e))
  | inr n ↦ ap Thread.sig (update-ne f t u v n)
]

thread_wakeup-sig : (t : ℕ) (s : Sched) (u : ℕ) → sig_of (thread_wakeup t s) u ≡ sig_of s u
unfolding thread_wakeup
thread_wakeup-sig t s u = elim (Bool-cases (t == 0)) [
  | inl e ↦ rw e refl
  | inr e ↦ rw e (elim (Bool-cases (is_blocked (Thread.state (s.threads t)))) [
    | inl b ↦ rw b (update-sig s.threads t (record (s.threads t) { state = ready }) refl u)
    | inr b ↦ rw b refl
  ])
]

free_image-sig : (t : ℕ) (s : Sched) (u : ℕ) → sig_of (free_image t s) u ≡ sig_of s u
unfolding free_image
free_image-sig t s u = elim (Bool-cases ((s.threads t).image_base == 0)) [
  | inl e ↦ rw e refl
  | inr e ↦ rw e (update-sig s.threads t (record (s.threads t) { image_base = 0 }) refl u)
]

kill-sig : (t : ℕ) (s : Sched) (u : ℕ) → sig_of (kill t s) u ≡ sig_of s u
unfolding kill
kill-sig t s u =
    update-sig s.threads t (record (s.threads t) { exit_status = negsuc 0; state = zombie }) refl u

signal_release-sig :
    (t : ℕ) (s : Sched) → t ≢ 0 → SignalState.sigstack_base (sig_of (signal_release t s) t) ≡ 0
unfolding signal_release
signal_release-sig t s n =
    rw (==_ne t 0 n)
      (ap (λ (v : Thread). SignalState.sigstack_base v.sig) (update_self s.threads t _))

-- If its argument is the pid of another user process, the command `stop` leaves the signal stack
-- of the process attached to it, where the system call frees it.
pub shell_stop_pid-sigstack :
    (fuel : ℕ) (args : List ℕ) (pid : ℤ) (s : Sched)
    → stop_args args ≡ some pid
    → eqb (pos (s.threads s.current).pid) pid ≡ false
    → find_thread_by_pid fuel pid s ≢ 0
    → (s.threads (find_thread_by_pid fuel pid s)).image_base ≢ 0
    → (SignalState.sigstack_base
          (sig_of (shell_stop_pid fuel args s).1 (find_thread_by_pid fuel pid s))
        ≡ SignalState.sigstack_base (sig_of s (find_thread_by_pid fuel pid s)))
      × (SignalState.sigstack_base (sig_of (sys_stop fuel pid s).1 (find_thread_by_pid fuel pid s))
          ≡ 0)
unfolding shell_stop_pid sys_stop
shell_stop_pid-sigstack fuel args pid s e c n i =
    let t = find_thread_by_pid fuel pid s in
    rw (e, shell_stop_pid, c, ==_ne t 0 n, ==_ne (s.threads t).image_base 0 i)
      (
        ap SignalState.sigstack_base (
            thread_wakeup-sig (s.threads t).parent (free_image t (kill t s)) t
            ∙ free_image-sig t (kill t s) t
            ∙ kill-sig t s t),
        ap SignalState.sigstack_base (
              thread_wakeup-sig (s.threads t).parent (signal_release t (free_image t (kill t s))) t)
            ∙ signal_release-sig t (free_image t (kill t s)) n,
      )
