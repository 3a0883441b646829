-- ===== src/Buddy/Merge.antt =====
-- The merging loop of `buddy_free`: the block in hand grows by free buddies only.
use osc.Common.{
  ℕ, zero, suc, ◌+◌, ◌*◌, ◌/◌, ◌%◌, ◌^◌, ◌≤◌, ◌<◌, ◌≡◌, ◌≢◌, ◌⊎◌, inl, inr, refl, ap, arith, ltb,
  if◌then◌else◌, lt_or_le, eq_or_ne, Bool-cases, lt→ltb, le→ltb, le→leb, lt→leb, ==_ne,
}
use osc.Common.Int.{pos, eqb, eqb_iff}
use osc.Common.In.{In}
use osc.Buddy.{Frames, max_order, frame_reserved, flip_bit, block_pop, coalesce}
use osc.Buddy.Order.{pow_pos, pow_double}
use osc.Buddy.Inv.{Aligned, InBlock, IsFree, InvOut}
use osc.Buddy.Alloc.{IsFreeFrame, IsFree-frame}
use osc.Buddy.Steps.Pop.{pop_step}

abbrev lower : ℕ → ℕ → ℕ
lower buddy idx = if ltb buddy idx then buddy else idx

quotient : (q p : ℕ) → 0 < p → q * p / p ≡ q
quotient q p h = grind arith

-- The buddy of an aligned block is the other half of the aligned block of twice the size.
abbrev Halves : ℕ → ℕ → ℕ → Type 0
Halves k idx buddy =
    ((buddy ≡ idx + 2 ^ k) × Aligned (k + 1) idx) ⊎ ((buddy + 2 ^ k ≡ idx) × Aligned (k + 1) buddy)

flip_bit_lem : (k idx : ℕ) → Aligned k idx → Halves k idx (flip_bit idx k)
unfolding flip_bit
flip_bit_lem k idx (q, e) = elim (eq_or_ne (q % 2) 0) [
  | inl even ↦
      rw (hq, even)
        (inl (refl, (q / 2, omega (arith, e, times (q / 2) (omega arith) (omega arith)))))
  | inr odd ↦
      rw (hq, ==_ne (q % 2) 0 odd)
        (inr (omega (arith, e, one_more odd), (q / 2, omega (arith, e, one_more odd))))
]
  where
    hq : idx / 2 ^ k ≡ q
    hq = rw e (quotient q (2 ^ k) (pow_pos k))

    times : (r : ℕ) → q ≡ r + r → r ≡ q / 2 → q * 2 ^ k ≡ r * 2 ^ (k + 1)
    times r h g = rw (pow_double k) (rw h (omega arith))

    one_more : q % 2 ≢ 0 → q * 2 ^ k ≡ q / 2 * 2 ^ (k + 1) + 2 ^ k
    one_more odd =
        let h : q ≡ q / 2 + q / 2 + 1 = omega arith in
        rw (pow_double k) (omega (arith, ap (λ (t : ℕ). t * 2 ^ k) h))

record Join (k idx buddy low : ℕ) : Type 0 where
  aligned : Aligned (k + 1) low
  top : (low + 2 ^ (k + 1) ≡ idx + 2 ^ k) ⊎ (low + 2 ^ (k + 1) ≡ buddy + 2 ^ k)
  apart : ¬ (InBlock k idx buddy)
  grow : (i : ℕ) → InBlock k idx i → InBlock (k + 1) low i
  joins : (i : ℕ) → InBlock k buddy i → InBlock (k + 1) low i
  only : (i : ℕ) → InBlock (k + 1) low i → InBlock k idx i ⊎ InBlock k buddy i

Halves-Join : (k idx buddy : ℕ) → Halves k idx buddy → Join k idx buddy (lower buddy idx)
Halves-Join k idx buddy (inl (e, al)) = rw (le→ltb buddy idx (omega arith)) (record {
  aligned = al;
  top = inr (omega (arith, pow_double k));
  apart = λ b. omega arith;
  grow = λ i b. omega (arith, pow_double k);
  joins = λ i b. omega (arith, pow_double k);
  only = λ i b. elim (lt_or_le i buddy) [
    | inl l ↦ inl (omega arith)
    | inr g ↦ inr (omega (arith, pow_double k))
  ];
})
Halves-Join k idx buddy (inr (e, al)) = rw (lt→ltb buddy idx (omega (arith, pow_pos k))) (record {
  aligned = al;
  top = inl (omega (arith, pow_double k));
  apart = λ b. omega (arith, pow_pos k);
  grow = λ i b. omega (arith, pow_double k);
  joins = λ i b. omega (arith, pow_double k);
  only = λ i b. elim (lt_or_le i idx) [
    | inl l ↦ inr (omega arith)
    | inr g ↦ inl (omega (arith, pow_double k))
  ];
})

-- What the loop has done when it stops, started with block `idx` of order `k` in hand.
pub record Merged (total : ℕ) (s : Frames) (k idx : ℕ) (idx' k' : ℕ) (t : Frames) : Type 0 where
  pub inv : InvOut total t (InBlock k' idx')
  pub order_le : k' ≤ max_order
  pub aligned : Aligned k' idx'
  pub fits : idx' + 2 ^ k' ≤ total
  pub same : (i : ℕ) → t.frame i ≡ s.frame i
  pub contains : (i : ℕ) → InBlock k idx i → InBlock k' idx' i
  pub others_free : (i : ℕ) → InBlock k' idx' i → InBlock k idx i ⊎ IsFreeFrame (s.frame i)

module _ (total : ℕ) where
  stop :
      (s : Frames) (k idx : ℕ)
      → InvOut total s (InBlock k idx)
      → k ≤ max_order
      → Aligned k idx
      → idx + 2 ^ k ≤ total
      → Merged total s k idx idx k s
  stop s k idx inv le al ft = record {
    inv = inv;
    order_le = le;
    aligned = al;
    fits = ft;
    same = λ i. refl;
    contains = λ i b. b;
    others_free = λ i b. inl b;
  }

  -- One round that finds a free buddy.
  module _ (k idx : ℕ) (s : Frames) (inv : InvOut total s (InBlock k idx)) (al : Aligned k idx)
      (ft : idx + 2 ^ k ≤ total) (small : k ≤ max_order) (in_range : flip_bit idx k < total)
      (head : s.frame (flip_bit idx k) ≡ pos k) where
    abbrev buddy : ℕ
    buddy = flip_bit idx k

    join : Join k idx buddy (lower buddy idx)
    join = Halves-Join k idx buddy (flip_bit_lem k idx al)

    member : In buddy (s.free_list k)
    member = inv.heads k buddy small in_range join.apart head

    f : IsFree total s (InBlock k idx) k buddy
    f = inv.listed k buddy member

    round_inv : InvOut total (block_pop buddy s) (InBlock (k + 1) (lower buddy idx))
    round_inv =
        pop_step total s (InBlock k idx) (InBlock (k + 1) (lower buddy idx)) k buddy inv member
          join.grow join.joins join.only

    round_fits : lower buddy idx + 2 ^ (k + 1) ≤ total
    round_fits = omega (arith, join.top, f.fits)

    round_then :
        {idx' k' : ℕ} {t : Frames}
        → Merged total (block_pop buddy s) (k + 1) (lower buddy idx) idx' k' t
        → Merged total s k idx idx' k' t
    unfolding block_pop
    round_then m = record {
      inv = m.inv;
      order_le = m.order_le;
      aligned = m.aligned;
      fits = m.fits;
      same = m.same;
      contains = λ i b. m.contains i (join.grow i b);
      others_free = λ i b. elim (m.others_free i b) [
        | inl c ↦ elim (join.only i c) [
          | inl d ↦ inl d
          | inr d ↦ inr (IsFree-frame total s (InBlock k idx) k buddy i f d)
        ]
        | inr g ↦ inr g
      ];
    }

  pub coalesce_lem :
      (n k idx : ℕ) (s : Frames)
      → k + n ≤ max_order
      → InvOut total s (InBlock k idx)
      → Aligned k idx
      → idx + 2 ^ k ≤ total
      → let (idx', k', t) = coalesce n total idx k s in Merged total s k idx idx' k' t
  unfolding coalesce
  coalesce_lem zero k idx s le inv al ft = stop s k idx inv (omega arith) al ft
  coalesce_lem (suc n) k idx s le inv al ft = elim (lt_or_le (flip_bit idx k) total) [
    | inr out ↦ rw (le→leb _ _ out) (stop s k idx inv (omega arith) al ft)
    | inl in_range ↦ elim (Bool-cases (eqb (s.frame (flip_bit idx k)) frame_reserved)) [
      | inl res ↦ rw (lt→leb _ _ in_range, res) (stop s k idx inv (omega arith) al ft)
      | inr not_res ↦ elim (Bool-cases (eqb (s.frame (flip_bit idx k)) (pos k))) [
        | inr other ↦
            rw (lt→leb _ _ in_range, not_res, other) (stop s k idx inv (omega arith) al ft)
        | inl free ↦
            let head = (eqb_iff (s.frame (flip_bit idx k)) (pos k)).0 free in
            rw (lt→leb _ _ in_range, not_res, free)
              (round_then k idx s inv al ft (omega arith) in_range head (
                coalesce_lem n (k + 1) (lower (flip_bit idx k) idx) (block_pop (flip_bit idx k) s)
                  (omega arith) (round_inv k idx s inv al ft (omega arith) in_range head)
                  (join k idx s inv al ft (omega arith) in_range head).aligned
                  (round_fits k idx s inv al ft (omega arith) in_range head)))
      ]
    ]
  ]
