-- ===== src/Tests/Threads.antt =====
-- The scheduler of kernel/src/sched.c with a few threads.
use osc.Common.{
  ℕ, ◌≡◌, ◌≢◌, inl, inr, refl, sym, ap, ◌∙◌, arith, false, [], ◌∷◌, update, update-ne, eq_or_ne,
}
use osc.Common.In.{In}
use osc.Sched.{ready, running, blocked, zero_thread, Sched, set_state}
use osc.Sched.Inv.{state_of, IsValid, IsRunning, set_state-IsValid, ready_running, blocked_running}
use osc.Sched.Turn.{yield_times, schedule_turn}
use osc.Tests.Chunks.{heap}

-- Thread 10 runs, 20 and 30 wait in the queue, all others are ready and not queued.
abbrev pub sched : Sched
sched = record {
  symbols = record { bootstrap = 10; thread_entry_trampoline = 1; idle_thread_body = 2 };
  heap = heap;
  threads = update (λ _. zero_thread) 10 (record zero_thread { state = running });
  runq = 20 ∷ 30 ∷ [];
  zombies = [];
  next_tid = 3;
  current = 10;
  need_resched = false;
}

others_ready : (t : ℕ) → t ≢ 10 → state_of sched t ≡ ready
others_ready t h =
    ap (λ v. v.state)
      (update-ne (λ _. zero_thread) 10 t (record zero_thread { state = running }) (λ e. h (sym e)))

pub sched-IsValid : IsValid sched
sched-IsValid = record {
  queued_once = ((λ h. ground arith), ((λ h. h), tt));
  queued = λ t h. others_ready t (λ e. ground (arith, e, h));
  dead_once = tt;
  dead = λ t h. absurd h;
  only = λ t h. elim (eq_or_ne t 10) [
    | inl e ↦ e
    | inr n ↦ absurd (ready_running (sym (others_ready t n) ∙ h))
  ];
}

pub sched-IsRunning : IsRunning sched
sched-IsRunning = record { valid = sched-IsValid; runs = refl }

not_waiting : (t : ℕ) → t ≢ 20 → t ≢ 30 → ¬ In t sched.runq
not_waiting t h k i = ground arith

-- Thread 10 is blocked.
abbrev waiting : Sched
waiting = set_state 10 blocked sched

waiting-IsValid : IsValid waiting
waiting-IsValid =
    set_state-IsValid 10 blocked sched sched-IsValid
      (not_waiting 10 (λ e. omega (arith, e)) (λ e. omega (arith, e))) (λ h. h)
      (λ e. absurd (blocked_running e))

schedule_turn_example :
    ((yield_times 2 sched).current ≡ 30)
    × ((yield_times 2 sched).runq ≡ 10 ∷ 20 ∷ [])
    × IsRunning (yield_times 2 sched)
schedule_turn_example = schedule_turn (20 ∷ []) [] 30 sched sched-IsRunning refl
