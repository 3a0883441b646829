-- ===== src/Buddy/Order.antt =====
-- `pages_to_order`: the smallest order whose block holds the pages.
use osc.Common.{
  ℕ, zero, suc, ◌+◌, ◌-◌, ◌*◌, ◌^◌, ◌≤◌, ◌<◌, ◌≡◌, ◌⊎◌, inl, inr, arith, lt_or_le, u64, lt→ltb,
  le→ltb,
}
use native.Mathlib.Nat.{two-pow-succ, pow-le-pow_right}
use native.Mathlib.Numerals.{add-one}
use osc.Buddy.{order_loop, pages_to_order}

pub pow_pos : (k : ℕ) → 0 < 2 ^ k
pow_pos zero = omega arith
pow_pos (suc k) = omega (arith, pow_pos k, two-pow-succ k)

pub pow_double : (k : ℕ) → 2 ^ (k + 1) ≡ 2 ^ k + 2 ^ k
pow_double k = rw add-one (two-pow-succ k)

pub pow_mono : (j k : ℕ) → j ≤ k → 2 ^ j ≤ 2 ^ k
pow_mono j k h = pow-le-pow_right (omega arith) h

-- The shift does not wrap while the block is smaller than the pages wanted.
shift_exact :
    (order pages : ℕ) → pages ≤ 2 ^ 63 → 2 ^ order < pages → u64 (2 ^ order * 2) ≡ 2 ^ (order + 1)
shift_exact order pages small more = elim (lt_or_le order 63) [
  | inl lt ↦ omega (arith, pow_double order, pow_mono order 62 (omega arith))
  | inr ge ↦ absurd (omega (arith, pow_mono 63 order ge))
]

pub order_loop_lem :
    (fuel order pages : ℕ)
    → order + fuel ≡ 64
    → pages ≤ 2 ^ 63
    → (order ≡ 0) ⊎ (2 ^ (order - 1) < pages)
    → let r = order_loop fuel (2 ^ order) order pages in
      (pages ≤ 2 ^ r) × ((r ≡ 0) ⊎ (2 ^ (r - 1) < pages))
unfolding order_loop
order_loop_lem zero order pages e small below =
    let full : 2 ^ 63 ≤ 2 ^ order = pow_mono 63 order (omega arith) in (omega arith, below)
order_loop_lem (suc fuel) order pages e small below = elim (lt_or_le (2 ^ order) pages) [
  | inl more ↦
      let same : order + 1 - 1 ≡ order = omega arith in
      rw (lt→ltb _ _ more, shift_exact order pages small more)
        (order_loop_lem fuel (order + 1) pages (omega arith) small (inr (rw same more)))
  | inr done ↦ rw (le→ltb _ _ done) (done, below)
]

-- The order found holds the pages, and no smaller order does, for every page count that `buddy_alloc`
-- can ask for (the 64 rounds of the loop are enough).
pub pages_to_order_lem :
    (pages : ℕ)
    → pages ≤ 2 ^ 63
    → (pages ≤ 2 ^ pages_to_order pages)
      × ((pages_to_order pages ≡ 0) ⊎ (2 ^ (pages_to_order pages - 1) < pages))
unfolding pages_to_order
pages_to_order_lem pages small = order_loop_lem 64 0 pages (omega arith) small (inl (omega arith))
