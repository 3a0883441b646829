-- ===== src/Sched.antt =====
-- Threads and the scheduler, kernel/src/sched.c and kernel/include/sched.h, with the signal state of
-- kernel/include/signal.h and the trap frame of kernel/include/trap.h that a thread holds.
-- Addresses name threads; the run queue, the zombies and the children are lists of them.
-- Every operation restores the interrupt flag that it clears, so the flag is left out.
pub mod Inv
pub mod Dispatch
pub mod Turn
pub mod Ops
use osc.Common.{
  ℕ, zero, suc, ◌+◌, ◌-◌, ◌*◌, ◌/◌, Bool, true, false, List, [], ◌∷◌, ◌++◌, ◌==◌, if◌then◌else◌,
  u64, update,
}
use osc.Common.In.{remove}
use osc.Common.Int.{ℤ, pos}
use osc.Kmalloc.{Heap, kmalloc, kfree}

pub data ThreadState : Type 0 where
  ready : ThreadState
  running : ThreadState
  blocked : ThreadState
  zombie : ThreadState

abbrev pub is_ready : ThreadState → Bool
is_ready ready = true
is_ready running = false
is_ready blocked = false
is_ready zombie = false

abbrev pub is_running : ThreadState → Bool
is_running ready = false
is_running running = true
is_running blocked = false
is_running zombie = false

abbrev pub is_blocked : ThreadState → Bool
is_blocked ready = false
is_blocked running = false
is_blocked blocked = true
is_blocked zombie = false

-- `struct trap_frame`
pub record TrapFrame : Type 0 where
  pub ra : ℕ
  pub sp : ℕ
  pub gp : ℕ
  pub tp : ℕ
  pub t0 : ℕ
  pub t1 : ℕ
  pub t2 : ℕ
  pub s0 : ℕ
  pub s1 : ℕ
  pub a0 : ℕ
  pub a1 : ℕ
  pub a2 : ℕ
  pub a3 : ℕ
  pub a4 : ℕ
  pub a5 : ℕ
  pub a6 : ℕ
  pub a7 : ℕ
  pub s2 : ℕ
  pub s3 : ℕ
  pub s4 : ℕ
  pub s5 : ℕ
  pub s6 : ℕ
  pub s7 : ℕ
  pub s8 : ℕ
  pub s9 : ℕ
  pub s10 : ℕ
  pub s11 : ℕ
  pub t3 : ℕ
  pub t4 : ℕ
  pub t5 : ℕ
  pub t6 : ℕ
  pub sepc : ℕ
  pub sstatus : ℕ
  pub scause : ℕ
  pub stval : ℕ

abbrev pub zero_frame : TrapFrame
zero_frame = record {
  ra = 0;
  sp = 0;
  gp = 0;
  tp = 0;
  t0 = 0;
  t1 = 0;
  t2 = 0;
  s0 = 0;
  s1 = 0;
  a0 = 0;
  a1 = 0;
  a2 = 0;
  a3 = 0;
  a4 = 0;
  a5 = 0;
  a6 = 0;
  a7 = 0;
  s2 = 0;
  s3 = 0;
  s4 = 0;
  s5 = 0;
  s6 = 0;
  s7 = 0;
  s8 = 0;
  s9 = 0;
  s10 = 0;
  s11 = 0;
  t3 = 0;
  t4 = 0;
  t5 = 0;
  t6 = 0;
  sepc = 0;
  sstatus = 0;
  scause = 0;
  stval = 0;
}

-- `struct signal_state`
pub record SignalState : Type 0 where
  pub pending : ℕ
  pub handlers : ℕ → ℕ
  pub in_handler : Bool
  pub saved : TrapFrame
  pub sigstack_base : ℕ

-- Everything is zero afterwards.
unfoldable pub signal_state_init : SignalState
signal_state_init = record {
  pending = 0;
  handlers = λ _. 0;
  in_handler = false;
  saved = zero_frame;
  sigstack_base = 0;
}

-- `struct thread`; of `ctx` the two registers that the C code sets.
pub record Thread : Type 0 where
  pub ctx_ra : ℕ
  pub ctx_sp : ℕ
  pub tid : ℕ
  pub pid : ℕ
  pub state : ThreadState
  pub entry : ℕ
  pub kstack_base : ℕ
  pub kstack_size : ℕ
  pub parent : ℕ
  pub children : List ℕ
  pub exit_status : ℤ
  pub image_base : ℕ
  pub image_size : ℕ
  pub total_size : ℕ
  pub sig : SignalState

abbrev pub kstack_bytes : ℕ
kstack_bytes = 8 * 1024

abbrev pub sizeof_thread : ℕ
sizeof_thread = 800

-- `zero_words` on a whole thread, with the list heads initialised.
abbrev pub zero_thread : Thread
zero_thread = record {
  ctx_ra = 0;
  ctx_sp = 0;
  tid = 0;
  pid = 0;
  state = ready;
  entry = 0;
  kstack_base = 0;
  kstack_size = 0;
  parent = 0;
  children = [];
  exit_status = pos 0;
  image_base = 0;
  image_size = 0;
  total_size = 0;
  sig = signal_state_init;
}

-- What the linker decides: `&g_bootstrap` and the addresses of the functions a context is set to.
pub record Symbols : Type 0 where
  pub bootstrap : ℕ
  pub thread_entry_trampoline : ℕ
  pub idle_thread_body : ℕ

-- The globals of the file; `current` is the register tp.
pub record Sched : Type 0 where
  pub symbols : Symbols
  pub heap : Heap
  pub threads : ℕ → Thread
  pub runq : List ℕ
  pub zombies : List ℕ
  pub next_tid : ℕ
  pub current : ℕ
  pub need_resched : Bool

abbrev pub set_thread : ℕ → Thread → Sched → Sched
set_thread t v s = record s { threads = update s.threads t v }

abbrev pub set_state : ℕ → ThreadState → Sched → Sched
set_state t v s = set_thread t (record (s.threads t) { state = v }) s

-- `if (t->parent) list_add_tail(&t->sibling, &t->parent->children)`
unfoldable pub add_child : ℕ → Sched → Sched
add_child t s =
    let p = (s.threads t).parent in
    if p == 0
    then s
    else set_thread p (record (s.threads p) { children = (s.threads p).children ++ (t ∷ []) }) s

-- `if (t->parent) list_del(&t->sibling)`
unfoldable pub remove_child : ℕ → Sched → Sched
remove_child t s =
    let p = (s.threads t).parent in
    if p == 0
    then s
    else set_thread p (record (s.threads p) { children = remove t (s.threads p).children }) s

-- The thread, 0 without memory.
unfoldable pub thread_alloc_bare : Sched → ℕ × Sched
thread_alloc_bare s =
    let (t, heap₁) = kmalloc sizeof_thread s.heap in
    let (stk, heap₂) = kmalloc kstack_bytes heap₁ in
    let fresh : Thread = record zero_thread {
      tid = s.next_tid;
      pid = s.next_tid;
      state = ready;
      kstack_base = stk;
      kstack_size = kstack_bytes;
      parent = s.current;
      sig = signal_state_init;
    } in
    if t == 0
    then (0, record s { heap = heap₁ })
    else if stk == 0
    then (0, record s { heap = kfree t heap₂ })
    else (
      t,
      record s { heap = heap₂; next_tid = s.next_tid + 1; threads = update s.threads t fresh },
    )

-- `x & ~0xF`
abbrev pub align_16 : ℕ → ℕ
align_16 x = x / 16 * 16

unfoldable pub thread_create : ℕ → Sched → ℕ × Sched
thread_create fn s =
    let (t, s₁) = thread_alloc_bare s in
    let v = s₁.threads t in
    let s₂ =
      set_thread t
        (record v {
          entry = fn;
          ctx_ra = s.symbols.thread_entry_trampoline;
          ctx_sp = align_16 (u64 (v.kstack_base + kstack_bytes));
        })
        s₁ in
    let s₃ = add_child t s₂ in
    if t == 0 then (0, s₁) else (t, record s₃ { runq = s₃.runq ++ (t ∷ []) })

unfoldable pub thread_enqueue_ready : ℕ → Sched → Sched
thread_enqueue_ready t s = let s₁ = set_state t ready s in record s₁ { runq = s₁.runq ++ (t ∷ []) }

unfoldable pub thread_wakeup : ℕ → Sched → Sched
thread_wakeup t s =
    let s₁ = set_state t ready s in
    if t == 0
    then s
    else if is_blocked (s.threads t).state
    then record s₁ { runq = s₁.runq ++ (t ∷ []) }
    else s

unfoldable pub sched_zombify : ℕ → Sched → Sched
sched_zombify t s = record s { zombies = s.zombies ++ (t ∷ []) }

-- A thread that still runs goes to the end of the run queue.
unfoldable pub requeue : Sched → Sched
requeue s =
    let s₁ = set_state s.current ready s in
    if is_running (s.threads s.current).state
    then record s₁ { runq = s₁.runq ++ (s.current ∷ []) }
    else s

-- The first of the run queue gets the processor.
unfoldable pub switch_first : List ℕ → Sched → Sched
switch_first [] s =
    if is_ready (s.threads s.current).state then set_state s.current running s else s
switch_first (next ∷ rest) s =
    let s₁ = set_state next running s in record s₁ { runq = rest; current = next }

unfoldable pub schedule : Sched → Sched
schedule s = let s₁ = requeue s in switch_first s₁.runq s₁

unfoldable pub thread_block : Sched → Sched
thread_block s = schedule (set_state s.current blocked s)

unfoldable pub thread_exit : Sched → Sched
thread_exit s =
    schedule (sched_zombify s.current (remove_child s.current (set_state s.current zombie s)))

-- The stack of a zombie and then the thread itself, unless it is the bootstrap thread.
unfoldable pub reap : ℕ → Sched → Sched
reap z s =
    let stk = (s.threads z).kstack_base in
    let heap = if stk == 0 then s.heap else kfree stk s.heap in
    record s { heap = if z == s.symbols.bootstrap then heap else kfree z heap }

-- The loop of `kill_zombies` over the zombies that are left.
unfoldable pub reap_all : List ℕ → Sched → Sched
reap_all [] s = s
reap_all (z ∷ zs) s = reap_all zs (reap z (record s { zombies = zs }))

unfoldable pub kill_zombies : Sched → Sched
kill_zombies s = reap_all s.zombies s

unfoldable pub sched_init : Sched → Sched
sched_init s =
    let b = s.symbols.bootstrap in
    let s₁ =
      set_thread b (record zero_thread { tid = s.next_tid; pid = s.next_tid; state = running }) s in
    (thread_create s.symbols.idle_thread_body
      (record s₁ { next_tid = s.next_tid + 1; current = b })).1

unfoldable pub set_need_resched : Sched → Sched
set_need_resched s = record s { need_resched = true }

unfoldable pub need_resched_clear : Sched → Bool × Sched
need_resched_clear s = (s.need_resched, record s { need_resched = false })
