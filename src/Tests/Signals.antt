-- ===== src/Tests/Signals.antt =====
-- Signals of kernel/src/signal.c on the threads of `Tests.Threads`.
use osc.Common.{ℕ, ◌≡◌, ◌≢◌, List, refl, arith, true, false, some, update}
use osc.Common.In.{In}
use osc.Common.Int.{ℤ, pos}
use osc.Buddy.{
  buddy_init, reserve_frames, buddy_reserve, clean, fit_order, build_loop, buddy_build_free_lists,
  fill, block_push, block_pop, order_loop, pages_to_order, first_nonempty, split_loop, mark,
  take_block, buddy_alloc,
}
use osc.Kmalloc.{find_from, find_pool, kmalloc_init, kmalloc_large, kmalloc}
use osc.Sched.{running, zombie, TrapFrame, zero_frame, signal_state_init, zero_thread, Sched}
use osc.Sched.Inv.{state_of, IsValid}
use osc.Signal.{
  sigstack_size, bit_set, clear_bit, lowest_bit_from, signal_release, signal_default_terminate,
  deliverable, signal_check_and_dispatch, signal_return,
}
use osc.Signal.Post.{IsPending, pending_of}
use osc.Signal.Terminate.{signal_default_terminate_lem}
use osc.Signal.Deliver.{sig_of, handler_frame, post_all, signal_roundtrip}
use osc.Tests.Chunks.{heap}
use osc.Tests.Threads.{sched, sched-IsValid}

none-IsPending : IsPending 0
none-IsPending = record { bound = omega arith; not_zero = refl }

nothing : IsPending (pending_of sched 20)
unfolding signal_state_init
nothing = none-IsPending

signal_default_terminate_example :
    IsValid (signal_default_terminate 20 sched)
    × (state_of (signal_default_terminate 20 sched) 20 ≡ zombie)
    × ¬ In 20 (signal_default_terminate 20 sched).runq
signal_default_terminate_example =
    signal_default_terminate_lem 20 sched (λ e. omega (arith, e)) sched-IsValid

-- A user process with signals 15 and 20 pending and a handler for the first.
abbrev signalled : Sched
signalled = record sched {
  threads = update sched.threads 10 (record zero_thread {
    state = running;
    image_base = 65536;
    sig = record signal_state_init { pending = 1081344; handlers = update (λ _. 0) 15 70000 };
  });
}

has_signal : deliverable 10 signalled ≡ true
unfolding deliverable signal_state_init
has_signal = refl

two_pending : IsPending (sig_of signalled).pending
two_pending = record { bound = omega arith; not_zero = refl }

lowest : lowest_bit_from 64 (sig_of signalled).pending 0 ≡ some 15
unfolding lowest_bit_from
lowest = refl

stack_given : (kmalloc sigstack_size heap).0 ≡ 65536
unfolding buddy_init reserve_frames buddy_reserve clean fit_order build_loop buddy_build_free_lists
    fill block_push block_pop order_loop pages_to_order first_nonempty split_loop mark take_block
    buddy_alloc find_from find_pool kmalloc_init kmalloc_large kmalloc
stack_given = refl

signal_roundtrip_example :
    (s₁ : Sched) × (signal_check_and_dispatch zero_frame signalled
      ≡ some (handler_frame zero_frame signalled 15 70000, s₁))
    × ((ps : List (ℕ × ℤ)) (tf : TrapFrame)
        → signal_check_and_dispatch tf (post_all ps s₁) ≡ some (tf, post_all ps s₁))
    × ((ps : List (ℕ × ℤ)) (tf : TrapFrame)
        → signal_return tf (post_all ps s₁)
          ≡ (pos 0, zero_frame, signal_release 10 (post_all ps s₁)))
    × (((signal_release 10 s₁).threads 10).sig ≡ record (sig_of signalled) {
      pending = clear_bit 15 (sig_of signalled).pending;
      saved = zero_frame;
      sigstack_base = 0;
      in_handler = false;
    })
    × (bit_set 15 (clear_bit 15 (sig_of signalled).pending) ≡ false)
    × ((j : ℕ)
        → 15 ≢ j
        → bit_set j (clear_bit 15 (sig_of signalled).pending)
          ≡ bit_set j (sig_of signalled).pending)
signal_roundtrip_example =
    signal_roundtrip zero_frame signalled 15 70000 (λ e. omega (arith, e)) has_signal lowest refl
      (λ e. omega (arith, e)) (λ e. omega (arith, e)) (λ e. omega (arith, e, stack_given))
