-- ===== src/Signal.antt =====
-- POSIX signals, kernel/src/signal.c and kernel/include/signal.h, over the threads of `Sched`.
-- The words that the trampoline takes in memory are not part of the state.
pub mod Bits
pub mod Post
pub mod Deliver
pub mod Terminate
use osc.Common.{
  ℕ, zero, suc, ◌+◌, ◌-◌, ◌*◌, ◌/◌, ◌%◌, ◌^◌, Bool, true, false, List, [], ◌∷◌, Option, none, some,
  ◌==◌, ltb, leb, if◌then◌else◌, u64, ◌||◌, not,
}
use osc.Common.In.{remove}
use osc.Common.Int.{ℤ, pos, negsuc}
use osc.Kmalloc.{kmalloc, kfree}
use osc.Sched.{
  ThreadState, zombie, is_ready, TrapFrame, SignalState, Thread, Sched, set_thread, set_state,
  align_16, thread_wakeup,
}

abbrev pub nsig : ℕ
nsig = 32

abbrev pub sig_dfl : ℕ
sig_dfl = 0

abbrev pub sig_ign : ℕ
sig_ign = 1

abbrev pub sigstack_size : ℕ
sigstack_size = 8 * 1024

-- The loop on at most `fuel` bits, from bit `idx` on; `none` says that it goes on.
unfoldable pub lowest_bit_from : ℕ → ℕ → ℕ → Option ℕ
lowest_bit_from zero x idx = none
lowest_bit_from (suc fuel) x idx =
    let rest = lowest_bit_from fuel (x / 2) (idx + 1) in if x % 2 == 0 then rest else some idx

-- `x >> i & 1`
abbrev pub bit_set : ℕ → ℕ → Bool
bit_set zero x = x % 2 == 1
bit_set (suc i) x = bit_set i (x / 2)

-- `x | (1UL << i)`
abbrev pub set_bit : ℕ → ℕ → ℕ
set_bit zero x = x / 2 * 2 + 1
set_bit (suc i) x = set_bit i (x / 2) * 2 + x % 2

-- `x & ~(1UL << i)`
abbrev pub clear_bit : ℕ → ℕ → ℕ
clear_bit zero x = x / 2 * 2
clear_bit (suc i) x = clear_bit i (x / 2) * 2 + x % 2

abbrev pub set_sig : ℕ → SignalState → Sched → Sched
set_sig t g s = set_thread t (record (s.threads t) { sig = g }) s

abbrev pub out_of_range : ℤ → Bool
out_of_range (pos n) = n == 0 || leb nsig n
out_of_range (negsuc n) = true

abbrev pub to_nat : ℤ → ℕ
to_nat (pos n) = n
to_nat (negsuc n) = 0

unfoldable pub signal_post : ℕ → ℤ → Sched → Sched
signal_post t signum s =
    let g = (s.threads t).sig in
    let posted = set_sig t (record g { pending = set_bit (to_nat signum) g.pending }) s in
    if t == 0 then s else if out_of_range signum then s else posted

unfoldable pub signal_release : ℕ → Sched → Sched
signal_release t s =
    let g = (s.threads t).sig in
    let heap = if g.sigstack_base == 0 then s.heap else kfree g.sigstack_base s.heap in
    let released =
      set_sig t (record g { sigstack_base = 0; in_handler = false }) (record s { heap = heap }) in
    if t == 0 then s else released

-- `kfree(t->image_base); t->image_base = NULL`, unless there is no image.
unfoldable pub free_image : ℕ → Sched → Sched
free_image t s =
    let v = s.threads t in
    if v.image_base == 0
    then s
    else set_thread t (record v { image_base = 0 }) (record s { heap = kfree v.image_base s.heap })

-- The thread leaves the run queue and is a zombie with status -1.
unfoldable pub kill : ℕ → Sched → Sched
kill t s =
    let v = s.threads t in
    set_thread t (record v { exit_status = negsuc 0; state = zombie })
      (record s { runq = if is_ready v.state then remove t s.runq else s.runq })

unfoldable pub signal_default_terminate : ℕ → Sched → Sched
signal_default_terminate t s =
    let par = (s.threads t).parent in
    if t == 0 then s else thread_wakeup par (signal_release t (free_image t (kill t s)))

-- A user handler: the frame is saved, and the frame and the state for the handler are made.
unfoldable pub enter_handler : ℕ → ℕ → ℕ → TrapFrame → Sched → TrapFrame × Sched
enter_handler self signum h tf s =
    let g = (s.threads self).sig in
    let s₁ = set_sig self (record g { saved = tf }) s in
    let (stk, heap) = kmalloc sigstack_size s₁.heap in
    let g₁ : SignalState = record g { saved = tf; sigstack_base = stk; in_handler = true } in
    let s₂ : Sched = record s₁ { heap = heap } in
    let s₃ = set_sig self g₁ s₂ in
    let tf₁ : TrapFrame = record tf {
      sepc = h;
      sp = align_16 (u64 (stk + sigstack_size));
      a0 = signum;
      ra = stk;
    } in
    if stk == 0 then (tf, signal_default_terminate self s₂) else (tf₁, s₃)

-- The signal, already taken off the pending ones, goes where its handler says.
unfoldable pub route : ℕ → ℕ → TrapFrame → Sched → TrapFrame × Sched
route self signum tf s =
    let h = (s.threads self).sig.handlers signum in
    if h == sig_ign
    then (tf, s)
    else if h == sig_dfl
    then (tf, signal_default_terminate self s)
    else enter_handler self signum h tf s

-- Is there a signal to be delivered to the thread?
unfoldable pub deliverable : ℕ → Sched → Bool
deliverable self s =
    let v = s.threads self in
    if self == 0
    then false
    else if v.image_base == 0
    then false
    else if v.sig.in_handler
    then false
    else not (v.sig.pending == 0)

-- 64 bits of fuel; the loop of `lowest_bit_index` is only entered on a bitmap that is not 0.
unfoldable pub signal_check_and_dispatch : TrapFrame → Sched → Option (TrapFrame × Sched)
signal_check_and_dispatch tf s =
    let self = s.current in
    let g = (s.threads self).sig in
    if deliverable self s
    then elim (lowest_bit_from 64 g.pending 0) [
      | none ↦ none
      | some signum ↦ some (
          route self signum tf (set_sig self (record g { pending = clear_bit signum g.pending }) s))
    ]
    else some (tf, s)

-- The result, the frame and the state; -1 if no handler is active.
unfoldable pub signal_return : TrapFrame → Sched → ℤ × TrapFrame × Sched
signal_return tf s =
    let g = (s.threads s.current).sig in
    if g.in_handler
    then (pos g.saved.a0, g.saved, signal_release s.current s)
    else (negsuc 0, tf, s)
