-- ===== src/Sched/Turn.antt =====
-- The round robin of `schedule` in kernel/src/sched.c.
use osc.Common.{ℕ, zero, suc, ◌≡◌, refl, ap, ◌∙◌, List, [], ◌∷◌, ◌++◌, length}
use osc.Sched.{Sched, schedule}
use osc.Sched.Inv.{IsRunning}
use osc.Sched.Dispatch.{IsDispatched, schedule_yield}

-- Every thread in turn calls `schedule`, `n` times in all.
abbrev pub yield_times : ℕ → Sched → Sched
yield_times zero s = s
yield_times (suc n) s = yield_times n (schedule s)

append_assoc : (xs ys zs : List ℕ) → (xs ++ ys) ++ zs ≡ xs ++ (ys ++ zs)
append_assoc [] ys zs = refl
append_assoc (x ∷ xs) ys zs = ap (λ l. x ∷ l) (append_assoc xs ys zs)

first :
    (s : Sched) (b : ℕ) (before after : List ℕ) (t : ℕ)
    → IsRunning s
    → s.runq ≡ b ∷ (before ++ (t ∷ after))
    → IsDispatched s (schedule s) b ((before ++ (t ∷ after)) ++ (s.current ∷ []))
first s b before after t i e =
    schedule_yield s b ((before ++ (t ∷ after)) ++ (s.current ∷ [])) i
      (ap (λ q. q ++ (s.current ∷ [])) e)

-- A thread that stands behind `before` in the run queue has the processor after one call of
-- `schedule` more than `before` has threads, each made by the thread that is then running; the
-- threads behind it are then first in the queue, and the others follow in the order of their turns.
pub schedule_turn :
    (before after : List ℕ) (t : ℕ) (s : Sched)
    → IsRunning s
    → s.runq ≡ before ++ (t ∷ after)
    → let r = yield_times (suc (length before)) s in
      (r.current ≡ t) × (r.runq ≡ after ++ (s.current ∷ before)) × IsRunning r
schedule_turn [] after t s i e =
    let d = schedule_yield s t (after ++ (s.current ∷ [])) i (ap (λ q. q ++ (s.current ∷ [])) e) in
    (d.current, d.waiting, d.is_running)
schedule_turn (b ∷ before) after t s i e =
    let d = first s b before after t i e in
    let ih =
      schedule_turn before (after ++ (s.current ∷ [])) t (schedule s) d.is_running
        (d.waiting ∙ append_assoc before (t ∷ after) (s.current ∷ [])) in
    (
      ih.0,
      ih.1
          ∙ append_assoc after (s.current ∷ []) ((schedule s).current ∷ before)
          ∙ ap (λ c. after ++ (s.current ∷ (c ∷ before))) d.current,
      ih.2,
    )
