-- ===== src/Task/Queue.antt =====
-- Insertion into the task queue of kernel/src/task.c: the order by priority, first come first served.
use osc.Common.{◌≡◌, refl, ap, inl, inr, arith, true, false, List, [], ◌∷◌, ◌++◌, Bool-cases}
use osc.Common.Int.{ℤ, ltb_ℤ}
use osc.Common.All.{All}
use osc.Task.{Task, insert}

-- The priority value of no task is less than that of one before it.
abbrev pub IsSorted : List Task → Type 0
IsSorted [] = Unit
IsSorted (t ∷ ts) = All (λ u. ltb_ℤ u.priority t.priority ≡ false) ts × IsSorted ts

ltb_ℤ-asym : (a b : ℤ) → ltb_ℤ a b ≡ true → ltb_ℤ b a ≡ false
ltb_ℤ-asym a b h = ground arith

ltb_ℤ-lt_le : (a b c : ℤ) → ltb_ℤ a b ≡ true → ltb_ℤ c b ≡ false → ltb_ℤ a c ≡ true
ltb_ℤ-lt_le a b c h k = ground arith

-- Where a new task stands: behind all tasks with a priority value that is at most its own.
pub record IsInserted (n : Task) (ts us : List Task) : Type 0 where
  pub before : List Task
  pub after : List Task
  pub old : ts ≡ before ++ after
  pub new : us ≡ before ++ (n ∷ after)
  pub first : All (λ t. ltb_ℤ n.priority t.priority ≡ false) before
  pub last : All (λ t. ltb_ℤ n.priority t.priority ≡ true) after

all_greater :
    (n t : Task) (ts : List Task)
    → ltb_ℤ n.priority t.priority ≡ true
    → All (λ u. ltb_ℤ u.priority t.priority ≡ false) ts
    → All (λ u. ltb_ℤ n.priority u.priority ≡ true) ts
all_greater n t [] h a = tt
all_greater n t (u ∷ us) h a =
    (ltb_ℤ-lt_le n.priority t.priority u.priority h a.0, all_greater n t us h a.1)

pub insert-IsInserted : (n : Task) (ts : List Task) → IsSorted ts → IsInserted n ts (insert n ts)
unfolding insert
insert-IsInserted n [] s = record {
  before = [];
  after = [];
  old = refl;
  new = refl;
  first = tt;
  last = tt;
}
insert-IsInserted n (t ∷ ts) s = elim (Bool-cases (ltb_ℤ n.priority t.priority)) [
  | inl h ↦ record {
    before = [];
    after = t ∷ ts;
    old = refl;
    new = rw h;
    first = tt;
    last = (h, all_greater n t ts h s.0);
  }
  | inr h ↦
      let r = insert-IsInserted n ts s.1 in
      record {
        before = t ∷ r.before;
        after = r.after;
        old = ap (λ l. t ∷ l) r.old;
        new = rw h (ap (λ l. t ∷ l) r.new);
        first = (h, r.first);
        last = r.last;
      }
]

ltb_ℤ-le : (a b c : ℤ) → ltb_ℤ a b ≡ true → ltb_ℤ c b ≡ false → ltb_ℤ c a ≡ false
ltb_ℤ-le a b c h k = ground arith

not_less :
    (n t : Task) (ts : List Task)
    → ltb_ℤ n.priority t.priority ≡ true
    → All (λ u. ltb_ℤ u.priority t.priority ≡ false) ts
    → All (λ u. ltb_ℤ u.priority n.priority ≡ false) ts
not_less n t [] h a = tt
not_less n t (u ∷ us) h a = (ltb_ℤ-le n.priority t.priority u.priority h a.0, not_less n t us h a.1)

insert_all :
    (n t : Task) (ts : List Task)
    → ltb_ℤ n.priority t.priority ≡ false
    → All (λ u. ltb_ℤ u.priority t.priority ≡ false) ts
    → All (λ u. ltb_ℤ u.priority t.priority ≡ false) (insert n ts)
unfolding insert
insert_all n t [] h a = (h, tt)
insert_all n t (u ∷ us) h a = elim (Bool-cases (ltb_ℤ n.priority u.priority)) [
  | inl g ↦ rw g (h, a)
  | inr g ↦ rw g (a.0, insert_all n t us h a.1)
]

pub insert-IsSorted : (n : Task) (ts : List Task) → IsSorted ts → IsSorted (insert n ts)
unfolding insert
insert-IsSorted n [] s = (tt, tt)
insert-IsSorted n (t ∷ ts) s = elim (Bool-cases (ltb_ℤ n.priority t.priority)) [
  | inl h ↦ rw h ((ltb_ℤ-asym n.priority t.priority h, not_less n t ts h s.0), s)
  | inr h ↦ rw h (insert_all n t ts h s.0, insert-IsSorted n ts s.1)
]
