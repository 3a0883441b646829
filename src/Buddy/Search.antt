-- ===== src/Buddy/Search.antt =====
-- The search of `buddy_alloc` for a free block.
use osc.Common.{
  ℕ, zero, suc, ◌+◌, ◌≤◌, ◌<◌, ◌≡◌, inl, inr, refl, arith, List, [], Option, none, some, eq_or_ne,
  List-cases,
}
use osc.Common.In.{In}
use osc.Buddy.{first_nonempty}

-- The search upwards: it stops at the first list that is not empty, and fails if all are.
pub first_nonempty-some :
    (n k : ℕ) (lists : ℕ → List ℕ) {c x : ℕ}
    → first_nonempty n k lists ≡ some (c, x)
    → (k ≤ c) × (c < k + n) × In x (lists c)
unfolding first_nonempty
first_nonempty-some zero k lists e = cc
first_nonempty-some (suc n) k lists {c} {x} e = elim (List-cases (lists k)) [
  | inl nil ↦
      let (a, b, h) =
        first_nonempty-some n (k + 1) lists {c = c} {x = x} (rw (nil, first_nonempty) at e) in
      (omega arith, omega arith, h)
  | inr (y, ys, cons) ↦
      let f : ◌≡◌ {A = Option (ℕ × ℕ)} (some (k, y)) (some (c, x)) =
        rw (cons, first_nonempty) at e in
      let (g, h) : (k ≡ c) × (y ≡ x) = ground arith in
      (omega arith, omega arith, rw (← g, ← h, cons) (inl refl))
]

pub first_nonempty-none :
    (n k : ℕ) (lists : ℕ → List ℕ)
    → first_nonempty n k lists ≡ none
    → (j : ℕ) → k ≤ j
    → j < k + n
    → lists j ≡ []
unfolding first_nonempty
first_nonempty-none zero k lists e j h l = absurd (omega arith)
first_nonempty-none (suc n) k lists e j h l = elim (List-cases (lists k)) [
  | inl nil ↦ elim (eq_or_ne j k) [
    | inl same ↦ rw same nil
    | inr other ↦
        first_nonempty-none n (k + 1) lists (rw (nil, first_nonempty) at e) j (omega arith)
          (omega arith)
  ]
  | inr (y, ys, cons) ↦
      let f : ◌≡◌ {A = Option (ℕ × ℕ)} (some (k, y)) none = rw (cons, first_nonempty) at e in cc
]
