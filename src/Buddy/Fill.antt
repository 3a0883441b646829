-- ===== src/Buddy/Fill.antt =====
-- What the loops over `frame_array` leave in it.
use osc.Common.{ℕ, zero, suc, ◌+◌, ◌-◌, ◌^◌, ◌≤◌, ◌<◌, ◌≡◌, ◌⊎◌, refl, arith, update}
use osc.Common.Int.{ℤ, pos}
use osc.Buddy.{fill, block_push, frame_free_part, Frames}
use osc.Buddy.Order.{pow_pos}

pub fill-outside :
    (n start : ℕ) (v : ℤ) (f : ℕ → ℤ) (i : ℕ)
    → (i < start) ⊎ (start + n ≤ i)
    → fill n start v f i ≡ f i
unfolding fill
fill-outside zero start v f i h = refl
fill-outside (suc n) start v f i h =
    ground (arith, fill-outside n (start + 1) v (update f start v) i)

pub fill-inside :
    (n start : ℕ) (v : ℤ) (f : ℕ → ℤ) (i : ℕ) → start ≤ i → i < start + n → fill n start v f i ≡ v
unfolding fill
fill-inside zero start v f i h k = absurd (omega arith)
fill-inside (suc n) start v f i h k = ground (
  arith,
  fill-inside n (start + 1) v (update f start v) i,
  fill-outside n (start + 1) v (update f start v) i,
)

module _ (idx order : ℕ) (s : Frames) where
  pub push-head : (block_push idx order s).frame idx ≡ pos order
  unfolding block_push
  push-head = ground (
    arith,
    fill-outside (2 ^ order - 1) (idx + 1) frame_free_part (update s.frame idx (pos order)) idx,
  )

  pub push-part :
      (i : ℕ) → idx < i → i < idx + 2 ^ order → (block_push idx order s).frame i ≡ frame_free_part
  unfolding block_push
  push-part i h k =
      fill-inside (2 ^ order - 1) (idx + 1) frame_free_part (update s.frame idx (pos order)) i
        (omega arith) (omega (arith, pow_pos order))

  pub push-outside :
      (i : ℕ) → (i < idx) ⊎ (idx + 2 ^ order ≤ i) → (block_push idx order s).frame i ≡ s.frame i
  unfolding block_push
  push-outside i h = ground (
    arith,
    fill-outside (2 ^ order - 1) (idx + 1) frame_free_part (update s.frame idx (pos order)) i,
    pow_pos order,
  )
