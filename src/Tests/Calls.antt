-- ===== src/Tests/Calls.antt =====
-- System calls of kernel/src/syscall.c.
use osc.Common.{◌≡◌, ◌≢◌, refl, arith, [], ◌∷◌, update}
use osc.Common.Int.{pos}
use osc.Sched.{running, blocked, zero_frame, zero_thread, Sched, thread_block}
use osc.Sched.Inv.{state_of}
use osc.Process.{Machine, find_child, dfs_find_pid, find_thread_by_pid, usleep_cb, start_child}
use osc.Process.Sleep.{usleep_cb-lost}
use osc.Tests.Threads.{sched, sched-IsRunning}

-- Thread 20 is a child of thread 10, with pid 7 and an image.
abbrev pub family : Sched
family = record sched {
  threads =
      update (update sched.threads 10 (record zero_thread { state = running; children = 20 ∷ [] }))
        20 (record zero_thread { pid = 7; parent = 10; image_base = 65536 });
}

found : find_thread_by_pid 3 (pos 7) family ≡ 20
unfolding find_child dfs_find_pid find_thread_by_pid
found = refl

not_found : find_thread_by_pid 3 (pos 8) family ≡ 0
unfolding find_child dfs_find_pid find_thread_by_pid
not_found = refl

pub found_it : find_thread_by_pid 3 (pos 7) family ≢ 0
found_it e = omega (arith, e, found)

pub has_image : (family.threads (find_thread_by_pid 3 (pos 7) family)).image_base ≢ 0
has_image = rw found (λ e. omega (arith, e))

usleep_cb-lost_example :
    (usleep_cb 10 sched ≡ sched) × (state_of (thread_block (usleep_cb 10 sched)) 10 ≡ blocked)
usleep_cb-lost_example = usleep_cb-lost sched 20 (30 ∷ []) sched-IsRunning refl

abbrev machine : Machine
machine = record { sched = sched; memory = λ _. 0; frames = λ _. zero_frame }

abbrev forked : Machine
forked = start_child 3 50 69632 zero_frame machine
