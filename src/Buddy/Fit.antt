-- ===== src/Buddy/Fit.antt =====
-- The choice of a block's order in `buddy_build_free_lists`.
use osc.Common.{
  ℕ, zero, suc, ◌+◌, ◌*◌, ◌/◌, ◌%◌, ◌^◌, ◌≤◌, ◌<◌, ◌≡◌, ◌≢◌, inl, inr, arith, true, false, lt_or_le,
  eq_or_ne, Bool-cases, ==_ne, le→ltb, lt→ltb,
}
use osc.Common.Int.{ℤ, eqb, eqb_iff}
use osc.Buddy.{frame_reserved, clean, fit_order}
use native.Mathlib.Nat.{div-add-mod'}
use osc.Buddy.Inv.{Aligned, InBlock}

clean_lem :
    (n i : ℕ) (f : ℕ → ℤ) → clean n i f ≡ true → (j : ℕ) → i ≤ j → j < i + n → f j ≢ frame_reserved
unfolding clean
clean_lem zero i f h j lo hi = absurd (omega arith)
clean_lem (suc n) i f h j lo hi = elim (Bool-cases (eqb (f i) frame_reserved)) [
  | inl bad ↦ let g : false ≡ true = rw bad at h in cc
  | inr good ↦ elim (eq_or_ne j i) [
    | inl e ↦ λ r. cc (good, (eqb_iff (f i) frame_reserved).1 (rw e at r))
    | inr n' ↦ clean_lem n (i + 1) f (rw good at h) j (omega arith) (omega arith)
  ]
]

pub record Fits (total idx : ℕ) (f : ℕ → ℤ) (n k : ℕ) : Type 0 where
  pub order_le : k ≤ n
  pub aligned : Aligned k idx
  pub fits : idx + 2 ^ k ≤ total
  pub unreserved : (j : ℕ) → InBlock k idx j → f j ≢ frame_reserved

divisible : (idx p : ℕ) → idx % p ≡ 0 → idx ≡ idx / p * p
divisible idx p h = omega (arith, div-add-mod' idx p)

weaken : (n idx total : ℕ) (f : ℕ → ℤ) {k : ℕ} → Fits total idx f n k → Fits total idx f (suc n) k
weaken n idx total f w = record {
  order_le = omega (arith, w.order_le);
  aligned = w.aligned;
  fits = w.fits;
  unreserved = w.unreserved;
}

-- The order that the loop picks: aligned, within the region, without a reserved frame.
pub fit_order_lem :
    (n idx total : ℕ) (f : ℕ → ℤ)
    → idx < total
    → f idx ≢ frame_reserved
    → Fits total idx f n (fit_order n idx total f)
unfolding fit_order
fit_order_lem zero idx total f lt ok = record {
  order_le = omega arith;
  aligned = (idx, omega arith);
  fits = omega arith;
  unreserved = λ j b e. let same : j ≡ idx = omega arith in ok (rw same at e);
}
fit_order_lem (suc n) idx total f lt ok =
    let rest = weaken n idx total f (fit_order_lem n idx total f lt ok) in
    elim (eq_or_ne (idx % 2 ^ suc n) 0) [
      | inr off ↦ rw (==_ne _ _ off) rest
      | inl on ↦ elim (lt_or_le total (idx + 2 ^ suc n)) [
        | inl beyond ↦ rw (on, lt→ltb _ _ beyond) rest
        | inr within ↦ elim (Bool-cases (clean (2 ^ suc n) idx f)) [
          | inr dirty ↦ rw (on, le→ltb _ _ within, dirty) rest
          | inl spotless ↦
              rw (on, le→ltb _ _ within, spotless)
                (record {
                  order_le = omega arith;
                  aligned = (idx / 2 ^ suc n, divisible idx (2 ^ suc n) on);
                  fits = within;
                  unreserved = λ j b. clean_lem (2 ^ suc n) idx f spotless j b.0 b.1;
                })
        ]
      ]
    ]
