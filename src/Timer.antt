-- ===== src/Timer.antt =====
-- The timer queue, kernel/src/timer.c and kernel/include/timer.h. The time CSR is an argument; the
-- hardware timer is the last deadline given to `sbi_set_timer`.
pub mod Queue
pub mod Add
pub mod Expire
pub mod TopHalf
use osc.Common.{
  ℕ, zero, suc, ◌+◌, ◌-◌, ◌*◌, ◌/◌, ◌^◌, Bool, true, false, List, [], ◌∷◌, Option, none, some, ltb,
  ◌==◌, if◌then◌else◌, u64,
}
use osc.Common.Int.{ℤ, pos, negsuc, eqb}
use osc.Kmalloc.{kmalloc, kfree}
use osc.Task.{TaskState, add_task}

abbrev pub default_timebase_freq : ℕ
default_timebase_freq = 10000000

abbrev pub sched_tick_div : ℕ
sched_tick_div = 32

abbrev pub timer_task_prio : ℤ
timer_task_prio = pos 2

abbrev pub sizeof_timer_node : ℕ
sizeof_timer_node = 48

-- `struct timer_node`, with the address that `kmalloc` gave it.
pub record Timer : Type 0 where
  pub node : ℕ
  pub expire_tick : ℕ
  pub register_tick : ℕ
  pub cb : ℕ
  pub arg : ℕ

pub record TimerState : Type 0 where
  pub tasks : TaskState
  pub timer_queue : List Timer
  pub timebase_freq : ℕ
  pub deadline : ℕ
  pub stie : Bool
  pub need_resched : Bool

-- `frequency` is what the device tree says, 0 if nothing.
unfoldable pub timer_init : ℕ → ℕ → TimerState → TimerState
timer_init frequency now s =
    let freq = if frequency == 0 then default_timebase_freq else frequency in
    let t = s.tasks in
    record s {
      timebase_freq = freq;
      deadline = u64 (now + freq / sched_tick_div);
      stie = true;
      tasks = record t { sie = true };
    }

-- The walk stops at the first timer that expires later.
unfoldable pub insert : Timer → List Timer → List Timer
insert n [] = n ∷ []
insert n (t ∷ ts) =
    let rest = insert n ts in if ltb n.expire_tick t.expire_tick then n ∷ (t ∷ ts) else t ∷ rest

-- `g_timer_queue.next == &n->link`
unfoldable pub is_first : Timer → List Timer → Bool
is_first n [] = false
is_first n (t ∷ ts) = t.node == n.node

unfoldable pub add_timer_ticks : ℕ → ℕ → ℕ → ℕ → TimerState → TimerState
add_timer_ticks callback arg ticks now s =
    let t = s.tasks in
    let (node, heap) = kmalloc sizeof_timer_node t.heap in
    let s₁ : TimerState = record s { tasks = record t { heap = heap } } in
    let n : Timer = record {
      node = node;
      expire_tick = u64 (now + ticks);
      register_tick = now;
      cb = callback;
      arg = arg;
    } in
    let queue = insert n s.timer_queue in
    if node == 0 then s₁ else record s₁ {
      timer_queue = queue;
      deadline = if is_first n queue then n.expire_tick else s.deadline;
    }

-- `(uint64_t)sec`
abbrev pub sign_extend : ℤ → ℕ
sign_extend (pos n) = n
sign_extend (negsuc n) = 2 ^ 64 - suc n

unfoldable pub add_timer : ℕ → ℕ → ℤ → ℕ → TimerState → TimerState
add_timer callback arg sec now s =
    add_timer_ticks callback arg (u64 (sign_extend sec * s.timebase_freq)) now s

unfoldable pub add_timer_us : ℕ → ℕ → ℕ → ℕ → TimerState → TimerState
add_timer_us callback arg usec now s =
    add_timer_ticks callback arg (u64 (s.timebase_freq * usec) / 1000000) now s

-- The first timer if it has expired, and the queue without it.
unfoldable pub pop_expired : ℕ → List Timer → Option (Timer × List Timer)
pop_expired now [] = none
pop_expired now (t ∷ ts) = if ltb now t.expire_tick then none else some (t, ts)

unfoldable pub next_deadline : ℕ → ℕ → List Timer → ℕ
next_deadline now freq [] = u64 (now + freq / sched_tick_div)
next_deadline now freq (h ∷ ts) =
    let next = u64 (now + freq / sched_tick_div) in
    if ltb h.expire_tick next then h.expire_tick else next

-- `run cb arg` is the call `t->cb(t->arg)`, made when `add_task` has no memory.
module _ (run : ℕ → ℕ → TimerState → TimerState) where
  -- `add_task` or else the call, then `kfree(t)`.
  unfoldable pub expire : Timer → TimerState → TimerState
  expire t s =
      let (r, tasks) = add_task t.cb t.arg timer_task_prio s.tasks in
      let s₁ : TimerState = record s { tasks = tasks } in
      let s₂ = if eqb r (pos 0) then s₁ else run t.cb t.arg s₁ in
      let k = s₂.tasks in record s₂ { tasks = record k { heap = kfree t.node k.heap } }

  -- At most `fuel` rounds of the loop; `none` says that they were not enough.
  unfoldable pub drain : ℕ → ℕ → TimerState → Option TimerState
  drain zero now s = none
  drain (suc fuel) now s = elim (pop_expired now s.timer_queue) [
    | none ↦ some s
    | some p ↦ drain fuel now (expire p.0 (record s { timer_queue = p.1 }))
  ]

  unfoldable pub timer_top_half : ℕ → ℕ → TimerState → Option TimerState
  timer_top_half fuel now s = elim (drain fuel now s) [
    | none ↦ none
    | some d ↦ some (record d {
      deadline = next_deadline now d.timebase_freq d.timer_queue;
      need_resched = true;
    })
  ]
