-- ===== src/Buddy/Alloc.antt =====
-- `buddy_alloc`: the block handed out was free, is marked whole, and nothing else in use changes.
use osc.Common.{
  ℕ, zero, suc, ◌+◌, ◌-◌, ◌*◌, ◌^◌, ◌≤◌, ◌<◌, ◌≡◌, ◌⊎◌, inl, inr, refl, ◌∙◌, arith, lt_or_le,
  eq_or_ne,
}
use osc.Common.Int.{ℤ, pos}
use osc.Common.In.{In}
use osc.Buddy.{
  Frames, max_order, frame_free_part, block_push, block_pop, split_loop, mark, take_block,
}
use osc.Buddy.Order.{pow_double, pow_mono}
use osc.Buddy.Fill.{push-outside}
use osc.Buddy.Inv.{Aligned, InBlock, Nowhere, Inv, IsFree, IsAllocated, InvOut}
use osc.Buddy.Steps.Push.{push_step, in_block_or}
use osc.Buddy.Steps.Pop.{pop_step}
use osc.Buddy.Steps.Mark.{mark_step, mark-outside, new-IsAllocated}

-- A frame that no allocation and no reservation uses.
abbrev pub IsFreeFrame : ℤ → Type 0
IsFreeFrame v = (v ≡ frame_free_part) ⊎ ((k : ℕ) × (k ≤ max_order) × (v ≡ pos k))

pub Aligned-lower : (k idx : ℕ) → Aligned (k + 1) idx → Aligned k idx
Aligned-lower k idx (q, e) = (q + q, omega (arith, ap_mul q))
  where
    ap_mul : (q : ℕ) → q * 2 ^ (k + 1) ≡ (q + q) * 2 ^ k
    ap_mul q = rw (pow_double k) (omega arith)

pub Aligned-upper : (k idx : ℕ) → Aligned (k + 1) idx → Aligned k (idx + 2 ^ k)
Aligned-upper k idx (q, e) = (q + q + 1, omega (arith, ap_mul q))
  where
    ap_mul : (q : ℕ) → q * 2 ^ (k + 1) + 2 ^ k ≡ (q + q + 1) * 2 ^ k
    ap_mul q = rw (pow_double k) (omega arith)

-- The halving loop keeps the lower half in hand.
pub split_loop_inv :
    (total n target current idx : ℕ) (s : Frames)
    → current ≡ target + n
    → current ≤ max_order
    → Aligned current idx
    → idx + 2 ^ current ≤ total
    → InvOut total s (InBlock current idx)
    → InvOut total (split_loop n target idx s) (InBlock target idx)
unfolding split_loop
split_loop_inv total zero target current idx s e hc al ft inv =
    let same : current ≡ target = omega arith in rw same at inv
split_loop_inv total (suc n) target current idx s e hc al ft inv =
    let half = target + n in
    let same : current ≡ half + 1 = omega arith in
    let wide : 2 ^ current ≡ 2 ^ half + 2 ^ half = rw same (pow_double half) in
    let al' : Aligned (half + 1) idx = rw same at al in
    split_loop_inv total n target half idx (block_push (idx + 2 ^ half) half s) refl (omega arith)
      (Aligned-lower half idx al') (omega arith)
      (push_step total s (InBlock current idx) (InBlock half idx) half (idx + 2 ^ half) inv
        (omega arith) (Aligned-upper half idx al') (omega arith) (λ i b. omega arith)
        (λ i b. omega arith) (λ i b c. omega arith)
        (λ i b. elim (lt_or_le i (idx + 2 ^ half)) [
          | inl l ↦ inl (omega arith)
          | inr g ↦ inr (omega arith)
        ]))

split_loop-outside :
    (n target current idx : ℕ) (s : Frames) (i : ℕ)
    → current ≡ target + n
    → (i < idx) ⊎ (idx + 2 ^ current ≤ i)
    → (split_loop n target idx s).frame i ≡ s.frame i
unfolding split_loop
split_loop-outside zero target current idx s i e o = refl
split_loop-outside (suc n) target current idx s i e o =
    let half = target + n in
    let same : current ≡ half + 1 = omega arith in
    let wide : 2 ^ current ≡ 2 ^ half + 2 ^ half = rw same (pow_double half) in
    split_loop-outside n target half idx (block_push (idx + 2 ^ half) half s) i refl (omega arith)
    ∙ push-outside (idx + 2 ^ half) half s i (omega arith)

-- What taking a listed block of order `current` and halving it down to `target` does.
pub record Taken (total : ℕ) (s t : Frames) (target idx : ℕ) : Type 0 where
  pub inv : Inv total t
  pub allocated : IsAllocated total t Nowhere target idx
  pub was_free : (i : ℕ) → InBlock target idx i → IsFreeFrame (s.frame i)
  pub others : (i : ℕ) → ¬ IsFreeFrame (s.frame i) → t.frame i ≡ s.frame i

pub IsFree-frame :
    (total : ℕ) (s : Frames) (R : ℕ → Type 0) (k idx i : ℕ)
    → IsFree total s R k idx
    → InBlock k idx i
    → IsFreeFrame (s.frame i)
IsFree-frame total s R k idx i f b = elim (eq_or_ne i idx) [
  | inl e ↦ inr (k, f.order_le, rw e f.head)
  | inr n ↦ inl (f.parts i (omega arith) b.1)
]

module _ (total : ℕ) (s : Frames) (target current idx : ℕ) (inv : Inv total s)
    (member : In idx (s.free_list current)) (le : target ≤ current) where
  f : IsFree total s Nowhere current idx
  f = inv.listed current idx member

  sum : current ≡ target + (current - target)
  sum = omega arith

  smaller : 2 ^ target ≤ 2 ^ current
  smaller = pow_mono target current le

  Aligned-down : (n : ℕ) → Aligned (target + n) idx → Aligned target idx
  Aligned-down zero al = let e : target + 0 ≡ target = omega arith in rw e at al
  Aligned-down (suc n) al =
      let e : target + suc n ≡ target + n + 1 = omega arith in
      Aligned-down n (Aligned-lower (target + n) idx (rw e at al))

  halved : Frames
  halved = split_loop (current - target) target idx (block_pop idx s)

  halved_inv : InvOut total halved (InBlock target idx)
  unfolding halved
  halved_inv =
      split_loop_inv total (current - target) target current idx (block_pop idx s) sum f.order_le
        f.aligned f.fits
        (pop_step total s Nowhere (InBlock current idx) current idx inv member (λ i r. absurd r)
          (λ i b. b) (λ i b. inr b))

  take_others : (i : ℕ) → ¬ IsFreeFrame (s.frame i) → (mark target idx halved).frame i ≡ s.frame i
  unfolding halved block_pop
  take_others i n = elim (in_block_or current idx i) [
    | inl b ↦ absurd (n (IsFree-frame total s Nowhere current idx i f b))
    | inr o ↦
        mark-outside target idx halved i (omega (arith, smaller))
        ∙ split_loop-outside (current - target) target current idx (block_pop idx s) i sum o
  ]

  pub take_block_lem : Taken total s (take_block target current idx s) target idx
  unfolding take_block halved
  take_block_lem =
      let al : Aligned target idx = Aligned-down (current - target) (rw (← sum) f.aligned) in
      record {
        inv =
            mark_step total halved (InBlock target idx) Nowhere target idx halved_inv
              (omega (arith, f.order_le)) al (omega (arith, f.fits, smaller)) (λ i b. b)
              (λ i r. absurd r) (λ i b r. r) (λ i b. inr b);
        allocated =
            new-IsAllocated total halved (InBlock target idx) Nowhere target idx halved_inv
              (omega (arith, f.order_le)) al (omega (arith, f.fits, smaller)) (λ i b. b)
              (λ i r. absurd r) (λ i b r. r) (λ i b. inr b);
        was_free =
            λ i b. IsFree-frame total s Nowhere current idx i f (b.0, omega (arith, smaller));
        others = take_others;
      }
