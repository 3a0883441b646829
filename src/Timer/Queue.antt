-- ===== src/Timer/Queue.antt =====
-- Insertion into the timer queue of kernel/src/timer.c: the order by expiry.
use osc.Common.{
  ℕ, ◌≡◌, ◌⊎◌, refl, sym, inl, inr, ap, arith, true, false, List, [], ◌∷◌, ◌++◌, map, ◌≤◌, ◌<◌,
  lt_or_le, lt→ltb, le→ltb, ==_refl, ==_ne,
}
use osc.Common.All.{All, All-map}
use osc.Common.In.{In}
use osc.Timer.{Timer, insert, is_first}

-- No timer expires before one that stands before it.
abbrev pub IsSorted : List Timer → Type 0
IsSorted [] = Unit
IsSorted (t ∷ ts) = All (λ u. t.expire_tick ≤ u.expire_tick) ts × IsSorted ts

-- Where a new timer stands: behind all that expire no later.
pub record IsInserted (n : Timer) (ts us : List Timer) : Type 0 where
  pub before : List Timer
  pub after : List Timer
  pub old : ts ≡ before ++ after
  pub new : us ≡ before ++ (n ∷ after)
  pub first : All (λ t. t.expire_tick ≤ n.expire_tick) before
  pub last : All (λ t. n.expire_tick < t.expire_tick) after

pub insert-IsInserted : (n : Timer) (ts : List Timer) → IsSorted ts → IsInserted n ts (insert n ts)
unfolding insert
insert-IsInserted n [] s = record {
  before = [];
  after = [];
  old = refl;
  new = refl;
  first = tt;
  last = tt;
}
insert-IsInserted n (t ∷ ts) s = elim (lt_or_le n.expire_tick t.expire_tick) [
  | inl h ↦ record {
    before = [];
    after = t ∷ ts;
    old = refl;
    new = rw (lt→ltb n.expire_tick t.expire_tick h) refl;
    first = tt;
    last = (
      h,
      All-map (λ u. t.expire_tick ≤ u.expire_tick) (λ u. n.expire_tick < u.expire_tick) ts
          (λ u g. omega (arith, h, g)) s.0,
    );
  }
  | inr h ↦
      let r = insert-IsInserted n ts s.1 in
      record {
        before = t ∷ r.before;
        after = r.after;
        old = ap (λ l. t ∷ l) r.old;
        new = rw (le→ltb n.expire_tick t.expire_tick h) (ap (λ l. t ∷ l) r.new);
        first = (h, r.first);
        last = r.last;
      }
]

pub insert-All :
    (P : Timer → Type 0) (n : Timer) (ts : List Timer) → P n → All P ts → All P (insert n ts)
unfolding insert
insert-All P n [] h a = (h, tt)
insert-All P n (t ∷ ts) h a = elim (lt_or_le n.expire_tick t.expire_tick) [
  | inl g ↦ rw (lt→ltb n.expire_tick t.expire_tick g) (h, a)
  | inr g ↦ rw (le→ltb n.expire_tick t.expire_tick g) (a.0, insert-All P n ts h a.1)
]

pub insert-IsSorted : (n : Timer) (ts : List Timer) → IsSorted ts → IsSorted (insert n ts)
unfolding insert
insert-IsSorted n [] s = (tt, tt)
insert-IsSorted n (t ∷ ts) s = elim (lt_or_le n.expire_tick t.expire_tick) [
  | inl g ↦ rw (lt→ltb n.expire_tick t.expire_tick g) (
    (
      omega (arith, g),
      All-map (λ u. t.expire_tick ≤ u.expire_tick) (λ u. n.expire_tick ≤ u.expire_tick) ts
          (λ u k. omega (arith, g, k)) s.0,
    ),
    s,
  )
  | inr g ↦
      rw (le→ltb n.expire_tick t.expire_tick g)
        (insert-All (λ u. t.expire_tick ≤ u.expire_tick) n ts g s.0, insert-IsSorted n ts s.1)
]

-- A node that is not yet queued is the first of the queue only if it expires before all others.
pub is_first_lem :
    (n : Timer) (ts : List Timer)
    → IsSorted ts
    → ¬ In n.node (map (λ t. t.node) ts)
    → ((is_first n (insert n ts) ≡ true) × All (λ t. n.expire_tick ≤ t.expire_tick) ts)
      ⊎ ((is_first n (insert n ts) ≡ false)
          × ((d : ℕ) → All (λ t. d ≤ t.expire_tick) ts → d ≤ n.expire_tick))
unfolding insert is_first
is_first_lem n [] s f = inl (==_refl n.node, tt)
is_first_lem n (t ∷ ts) s f = elim (lt_or_le n.expire_tick t.expire_tick) [
  | inl g ↦ rw (lt→ltb n.expire_tick t.expire_tick g) (
      inl (
        ==_refl n.node,
        (
          omega (arith, g),
          All-map (λ u. t.expire_tick ≤ u.expire_tick) (λ u. n.expire_tick ≤ u.expire_tick) ts
              (λ u k. omega (arith, g, k)) s.0,
        ),
      ))
  | inr g ↦
      rw (le→ltb n.expire_tick t.expire_tick g)
        (inr (==_ne t.node n.node (λ e. f (inl (sym e))), (λ d a. omega (arith, g, a.0))))
]
