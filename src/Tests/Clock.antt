-- ===== src/Tests/Clock.antt =====
-- The timer queue of kernel/src/timer.c.
use osc.Common.{ℕ, ◌<◌, ◌≡◌, ◌≢◌, ◌⊎◌, refl, arith, true, false, [], ◌∷◌}
use osc.Common.All.{All}
use osc.Common.In.{In}
use osc.Buddy.{
  buddy_init, reserve_frames, buddy_reserve, clean, fit_order, build_loop, buddy_build_free_lists,
  fill, block_push, block_pop, order_loop, pages_to_order, first_nonempty, split_loop, mark,
  take_block, buddy_alloc,
}
use osc.Kmalloc.{
  find_from, find_pool, kmalloc_init, slice, refill, pop_chunk, kmalloc_small, kmalloc,
}
use osc.Timer.{Timer, TimerState, sizeof_timer_node, add_timer_ticks}
use osc.Timer.Queue.{IsInserted}
use osc.Timer.Add.{IsArmed, new_timer, add_timer_ticks_lem, add_timer_ticks-delays}
use osc.Tests.Chunks.{heap}
use osc.Tests.Bottom.{state}

-- Only the tick of the scheduler is armed, for 1 / 32 s.
abbrev idle : TimerState
idle = record {
  tasks = state;
  timer_queue = [];
  timebase_freq = 10000000;
  deadline = 312500;
  stie = true;
  need_resched = false;
}

abbrev timer : ℕ → ℕ → Timer
timer node tick = record { node = node; expire_tick = tick; register_tick = 0; cb = 9; arg = 7 }

abbrev busy : TimerState
busy = record idle { timer_queue = timer 77776 400000 ∷ timer 77824 900000 ∷ [] }

busy-IsArmed : IsArmed busy
busy-IsArmed = record {
  sorted = ((omega arith, tt), (tt, tt));
  armed = (omega arith, (omega arith, tt));
}

node : (kmalloc sizeof_timer_node heap).0 ≡ 77760
unfolding buddy_init reserve_frames buddy_reserve clean fit_order build_loop buddy_build_free_lists
    fill block_push block_pop order_loop pages_to_order first_nonempty split_loop mark take_block
    buddy_alloc find_from find_pool kmalloc_init slice refill pop_chunk kmalloc_small kmalloc
node = refl

fresh_node : ¬ In (kmalloc sizeof_timer_node heap).0 (77776 ∷ 77824 ∷ [])
fresh_node h = let e = node in ground (arith, e, h)

add_timer_ticks_example :
    let n = new_timer 9 7 500000 100000 busy in
    let r = add_timer_ticks 9 7 500000 100000 busy in
    ((n.node ≡ 0) × (r.timer_queue ≡ busy.timer_queue) × (r.deadline ≡ busy.deadline))
    ⊎ ((n.node ≢ 0) × IsInserted n busy.timer_queue r.timer_queue × IsArmed r)
add_timer_ticks_example = add_timer_ticks_lem 9 7 500000 100000 busy busy-IsArmed fresh_node

node_given : (kmalloc sizeof_timer_node heap).0 ≢ 0
node_given e = omega (arith, e, node)

-- A timer of 10 s puts the tick off.
add_timer_ticks-delays_example :
    ((add_timer_ticks 9 7 100000000 0 idle).deadline ≡ 100000000)
    × (312500 < (add_timer_ticks 9 7 100000000 0 idle).deadline)
add_timer_ticks-delays_example =
    add_timer_ticks-delays 9 7 100000000 0 idle refl node_given (omega arith) (omega arith)

abbrev run : ℕ → ℕ → TimerState → TimerState
run cb arg s = s
