-- ===== src/Timer/TopHalf.antt =====
-- `timer_top_half` of kernel/src/timer.c.
use osc.Common.{ℕ, ◌⊎◌, map, ◌≡◌, true, List, [], ◌∷◌, ◌++◌, ◌≤◌, ltb, u64, if◌then◌else◌, ◌+◌, ◌/◌}
use osc.Common.In.{In}
use osc.Common.All.{All}
use osc.Timer.{Timer, TimerState, sched_tick_div}
use osc.Timer.Expire.{handed}
use osc.Timer.Add.{IsArmed}

-- The timers at the head of the queue that have expired, and the others.
abbrev pub expired : ℕ → List Timer → List Timer
expired now [] = []
expired now (t ∷ ts) = let rest = expired now ts in if ltb now t.expire_tick then [] else t ∷ rest

abbrev pub later : ℕ → List Timer → List Timer
later now [] = []
later now (t ∷ ts) = let rest = later now ts in if ltb now t.expire_tick then t ∷ ts else rest

module _ (run : ℕ → ℕ → TimerState → TimerState) where
  -- The timers are handed over one after the other, each taken off the queue first.
  abbrev pub expire_all : List Timer → List Timer → TimerState → TimerState
  expire_all [] after s = s
  expire_all (t ∷ ts) after s =
      expire_all ts after (handed run t (record s { timer_queue = ts ++ after }))

  -- Callbacks that, called in the handler for want of memory, leave the timers alone.
  abbrev pub IsQuiet : Type 0
  IsQuiet =
      (cb arg : ℕ) (s : TimerState)
      → ((run cb arg s).timer_queue ≡ s.timer_queue)
        × ((run cb arg s).timebase_freq ≡ s.timebase_freq)

  -- What the handler leaves behind: the timers that are not expired, armed, and no later than the
  -- next tick of the scheduler.
  pub record IsHandled (now : ℕ) (s d : TimerState) : Type 0 where
    pub timers : d.timer_queue ≡ later now s.timer_queue
    pub handed_over :
        d ≡ record (expire_all (expired now s.timer_queue) (later now s.timer_queue) s) {
          deadline = d.deadline;
          need_resched = true;
        }
    pub is_armed : IsArmed d
    pub tick : d.deadline ≤ u64 (now + s.timebase_freq / sched_tick_div)
    pub exact :
        (d.deadline ≡ u64 (now + s.timebase_freq / sched_tick_div))
        ⊎ In d.deadline (map (λ t. t.expire_tick) (later now s.timer_queue))
    pub resched : d.need_resched ≡ true
