-- ===== src/Process/Image.antt =====
-- `sys_exec`, `sys_waitpid` and `sys_getpid` of kernel/src/syscall.c. What the archive holds under the path is
-- given: where the file lies and its size.
use osc.Common.{
  ℕ, zero, suc, ◌+◌, ◌*◌, ◌≡◌, refl, Bool, true, false, List, [], ◌∷◌, Option, none, some, ◌==◌,
  if◌then◌else◌, u64,
}
use osc.Common.Int.{ℤ, pos, negsuc, eqb}
use osc.Kmalloc.{kmalloc, kfree}
use osc.Sched.{
  ThreadState, zombie, TrapFrame, zero_frame, Sched, set_thread, remove_child, sched_zombify,
  thread_block, align_16,
}
use osc.Signal.{signal_release, sig_dfl}
use osc.Utils.{mem_cpy}
use osc.Process.{Machine}

abbrev pub user_stack_size : ℕ
user_stack_size = 16 * 1024

unfoldable pub sys_getpid : Sched → ℤ
sys_getpid s = pos (s.threads s.current).pid

-- The frame with which a new image starts: all registers but sstatus, scause and stval are set.
unfoldable pub exec_frame : ℕ → ℕ → ℕ → TrapFrame → TrapFrame
exec_frame self buf total tf = record zero_frame {
  sepc = buf;
  sp = align_16 (u64 (buf + total));
  tp = self;
  sstatus = tf.sstatus;
  scause = tf.scause;
  stval = tf.stval;
}

-- The thread has the new image, the handlers are the default ones, and nothing is pending.
unfoldable pub exec_thread : ℕ → ℕ → ℕ → Sched → Sched
exec_thread buf sz total s =
    let self = s.current in
    let v = s.threads self in
    let old = v.image_base in
    let s₁ : Sched = record s { heap = kfree old s.heap } in
    let g = v.sig in
    signal_release self (
      set_thread self
        (record v {
          image_base = buf;
          image_size = sz;
          total_size = total;
          sig = record g { handlers = λ _. sig_dfl; pending = 0 };
        })
        s₁)

unfoldable pub sys_exec : Option (ℕ × ℕ) → TrapFrame → Machine → ℤ × TrapFrame × Machine
sys_exec file tf m =
    let s = m.sched in
    if (s.threads s.current).image_base == 0 then (negsuc 0, tf, m) else elim file [
      | none ↦ (negsuc 0, tf, m)
      | some f ↦
          let total = u64 (f.1 + user_stack_size) in
          let (buf, heap) = kmalloc total s.heap in
          let s₁ : Sched = record s { heap = heap } in
          if buf == 0 then (negsuc 0, tf, record m { sched = s₁ }) else (
            pos 0,
            exec_frame s.current buf total tf,
            record m {
              sched = exec_thread buf f.1 total s₁;
              memory = mem_cpy buf f.0 f.1 m.memory;
            },
          )
    ]

-- The first child with the pid.
unfoldable pub child_by_pid : List ℕ → ℤ → Sched → Option ℕ
child_by_pid [] pid s = none
child_by_pid (c ∷ cs) pid s =
    let rest = child_by_pid cs pid s in if eqb (pos (s.threads c).pid) pid then some c else rest

abbrev pub is_zombie : ThreadState → Bool
is_zombie v = elim v [ zombie ↦ true | _ ↦ false ]

-- `others` is what the other threads do until the caller has the processor again.
module _ (others : Sched → Sched) where
  -- At most `fuel` rounds of the wait; `none` says that the child is still alive then.
  unfoldable pub wait_for : ℕ → ℕ → Sched → Option Sched
  wait_for zero c s = none
  wait_for (suc fuel) c s =
      let rest = wait_for fuel c (others (thread_block s)) in
      if is_zombie (s.threads c).state then some s else rest

  unfoldable pub sys_waitpid : ℕ → ℤ → Sched → Option (ℤ × Sched)
  sys_waitpid fuel pid s = elim (child_by_pid (s.threads s.current).children pid s) [
    | none ↦ some (negsuc 0, s)
    | some c ↦ elim (wait_for fuel c s) [
      | none ↦ none
      | some s₁ ↦ some ((s₁.threads c).exit_status, sched_zombify c (remove_child c s₁))
    ]
  ]

wait_dead :
    (others : Sched → Sched) (fuel c : ℕ) (s : Sched)
    → (s.threads c).state ≡ zombie
    → wait_for others (suc fuel) c s ≡ some s
unfolding wait_for
wait_dead others fuel c s e = rw e refl

-- If the child is a zombie already, `sys_waitpid` returns its status at once, takes it off its
-- parent's children and hands it over to the reaper.
pub sys_waitpid-dead :
    (others : Sched → Sched) (fuel : ℕ) (pid : ℤ) (c : ℕ) (s : Sched)
    → child_by_pid (s.threads s.current).children pid s ≡ some c
    → (s.threads c).state ≡ zombie
    → sys_waitpid others (suc fuel) pid s
      ≡ some ((s.threads c).exit_status, sched_zombify c (remove_child c s))
unfolding sys_waitpid
sys_waitpid-dead others fuel pid c s e z =
    rw (e, sys_waitpid) (rw (wait_dead others fuel c s z, sys_waitpid) refl)
