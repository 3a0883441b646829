-- ===== src/Process.antt =====
-- The system calls on processes, kernel/src/syscall.c, and the search by pid of kernel/src/sched.c,
-- over the scheduler and the signals. Memory and the trap frames on kernel stacks are functions of
-- the address.
pub mod Range
pub mod Kill
pub mod Fork
pub mod Sleep
pub mod Image
pub mod Spawn
pub mod Io
pub mod Read
pub mod Dispatch
use osc.Common.{
  ℕ, zero, suc, ◌+◌, ◌-◌, ◌*◌, ◌^◌, Bool, true, false, ◌&&◌, List, [], ◌∷◌, ◌++◌, Option, none,
  some, ◌==◌, ltb, leb, if◌then◌else◌, u64, update,
}
use osc.Common.In.{remove}
use osc.Common.Int.{ℤ, pos, negsuc, eqb}
use osc.Buddy.{Buddy, page_size}
use osc.Kmalloc.{kmalloc, kfree}
use osc.Sched.{
  ThreadState, zombie, TrapFrame, Thread, Sched, set_thread, set_state, thread_alloc_bare,
  thread_enqueue_ready, thread_wakeup, schedule, align_16,
}
use osc.Signal.{signal_post, signal_release, free_image, kill, out_of_range, to_nat, set_sig}
use osc.Utils.{mem_cpy}

-- The range from `p` on lies in the memory of the page allocator.
unfoldable pub in_user_range : ℕ → ℕ → Buddy → Bool
in_user_range p n b =
    let e = u64 (p + n) in
    let dram_end = u64 (b.base + b.total_pages * page_size) in
    if ltb e p then false else leb b.base p && leb e dram_end

-- The loop over the children: the first thread that the search finds below one of them.
unfoldable pub find_child : (ℕ → ℕ) → List ℕ → ℕ
find_child search [] = 0
find_child search (c ∷ cs) =
    let rest = find_child search cs in if search c == 0 then rest else search c

-- The thread, 0 if there is none; the process tree is less than `fuel` deep.
unfoldable pub dfs_find_pid : ℕ → ℤ → Sched → ℕ → ℕ
dfs_find_pid zero pid s root = 0
dfs_find_pid (suc fuel) pid s root =
    let below = find_child (dfs_find_pid fuel pid s) (s.threads root).children in
    if root == 0 then 0 else if eqb (pos (s.threads root).pid) pid then root else below

unfoldable pub find_thread_by_pid : ℕ → ℤ → Sched → ℕ
find_thread_by_pid fuel pid s = dfs_find_pid fuel pid s s.symbols.bootstrap

-- The first child becomes one of the bootstrap thread, as long as there is one.
unfoldable pub reparent : List ℕ → ℕ → Sched → Sched
reparent [] self s = s
reparent (c ∷ cs) self s =
    let b = s.symbols.bootstrap in
    let s₁ = set_thread self (record (s.threads self) { children = cs }) s in
    let s₂ = set_thread c (record (s₁.threads c) { parent = b }) s₁ in
    let v = s₂.threads b in
    reparent cs self (set_thread b (record v { children = v.children ++ (c ∷ []) }) s₂)

-- The thread never runs again after the call of `schedule`.
unfoldable pub sys_exit : ℤ → Sched → Sched
sys_exit status s =
    let self = s.current in
    let s₁ = set_thread self (record (s.threads self) { exit_status = status }) s in
    let s₂ = reparent (s₁.threads self).children self s₁ in
    let s₃ = signal_release self (free_image self (set_state self zombie s₂)) in
    let par = (s₂.threads self).parent in schedule (thread_wakeup par s₃)

-- 0, or -1 if there is no such user process.
unfoldable pub sys_stop : ℕ → ℤ → Sched → ℤ × Sched
sys_stop fuel pid s =
    let t = find_thread_by_pid fuel pid s in
    let stopped = thread_wakeup (s.threads t).parent (signal_release t (free_image t (kill t s))) in
    if eqb (pos (s.threads s.current).pid) pid
    then (pos 0, sys_exit (negsuc 0) s)
    else if t == 0
    then (negsuc 0, s)
    else if (s.threads t).image_base == 0
    then (negsuc 0, s)
    else (pos 0, stopped)

-- The handler of before, or -1.
unfoldable pub sys_signal : ℤ → ℕ → Sched → ℤ × Sched
sys_signal signum handler s =
    let g = (s.threads s.current).sig in
    let i = to_nat signum in
    if out_of_range signum then (negsuc 0, s) else (
      pos (g.handlers i),
      set_sig s.current (record g { handlers = update g.handlers i handler }) s,
    )

unfoldable pub sys_kill : ℕ → ℤ → ℤ → Sched → ℤ × Sched
sys_kill fuel pid signum s =
    let t = find_thread_by_pid fuel pid s in
    if out_of_range signum
    then (negsuc 0, s)
    else if t == 0
    then (negsuc 0, s)
    else if (s.threads t).image_base == 0
    then (negsuc 0, s)
    else (pos 0, signal_post t signum s)

-- The callback of the timer of `sys_usleep`.
unfoldable pub usleep_cb : ℕ → Sched → Sched
usleep_cb t s = thread_wakeup t s

-- The scheduler, the memory, and the trap frames planted on kernel stacks.
pub record Machine : Type 0 where
  pub sched : Sched
  pub memory : ℕ → ℕ
  pub frames : ℕ → TrapFrame

abbrev pub sizeof_trap_frame : ℕ
sizeof_trap_frame = 280

-- The frame in which the child starts.
unfoldable pub child_frame : ℕ → ℕ → ℕ → TrapFrame → TrapFrame
child_frame ch child_image par_image tf =
    let off_sp = u64 (tf.sp + 2 ^ 64 - par_image) in
    record tf { a0 = 0; sp = u64 (child_image + off_sp); tp = ch }

-- With the memory for the child at hand: image, frame, context, handlers, and the links.
unfoldable pub start_child : ℕ → ℕ → ℕ → TrapFrame → Machine → Machine
start_child bootstrap ch image tf m =
    let s = m.sched in
    let par = s.current in
    let v = s.threads ch in
    let p = s.threads par in
    let cf = align_16 (u64 (v.kstack_base + v.kstack_size)) - sizeof_trap_frame in
    let g = v.sig in
    let s₁ =
      set_thread ch
        (record v {
          image_size = p.image_size;
          total_size = p.total_size;
          image_base = image;
          ctx_sp = cf;
          ctx_ra = bootstrap;
          sig = record g {
            handlers = p.sig.handlers;
            pending = 0;
            in_handler = false;
            sigstack_base = 0;
          };
          parent = par;
        })
        s in
    let q = s₁.threads par in
    let s₂ = set_thread par (record q { children = q.children ++ (ch ∷ []) }) s₁ in
    record m {
      sched = thread_enqueue_ready ch s₂;
      memory = mem_cpy image p.image_base p.total_size m.memory;
      frames = update m.frames cf (child_frame ch image p.image_base tf);
    }

-- The pid of the child, or -1; `bootstrap` is the address of `user_thread_bootstrap`.
unfoldable pub sys_fork : ℕ → TrapFrame → Machine → ℤ × Machine
sys_fork bootstrap tf m =
    let s = m.sched in
    let p = s.threads s.current in
    let (ch, s₁) = thread_alloc_bare s in
    let (image, heap) = kmalloc p.total_size s₁.heap in
    let m₁ : Machine = record m { sched = record s₁ { heap = heap } } in
    let undone = kfree ch (kfree (s₁.threads ch).kstack_base heap) in
    if p.image_base == 0
    then (negsuc 0, m)
    else if ch == 0
    then (negsuc 0, record m { sched = s₁ })
    else if image == 0
    then (negsuc 0, record m { sched = record s₁ { heap = undone } })
    else (pos (s₁.threads ch).pid, start_child bootstrap ch image tf m₁)
