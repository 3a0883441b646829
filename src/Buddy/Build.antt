-- ===== src/Buddy/Build.antt =====
-- `buddy_build_free_lists`: the free lists are built over the frames that are not reserved.
use osc.Common.{
  ℕ, zero, suc, ◌+◌, ◌*◌, ◌^◌, ◌≤◌, ◌<◌, ◌≡◌, ◌⊎◌, inl, inr, refl, ap, ◌∙◌, arith, [], lt_or_le,
  eq_or_ne, Bool-cases, le→leb, lt→leb,
}
use osc.Common.Int.{ℤ, eqb, eqb_iff}
use osc.Buddy.{
  Frames, Buddy, max_order, page_size, frame_free_part, frame_reserved, fit_order, block_push,
  build_loop, buddy_build_free_lists,
}
use osc.Buddy.Order.{pow_pos}
use osc.Buddy.Fill.{push-head, push-part, push-outside}
use osc.Buddy.Inv.{Nowhere, Inv, InvOut, IsValid, max_pages}
use osc.Buddy.Alloc.{IsFreeFrame}
use osc.Buddy.Fit.{Fits, fit_order_lem}
use osc.Buddy.Steps.Push.{push_step, in_block_or, IsFree_agree, IsAllocated-agree}

abbrev pub IsUnbuilt : ℤ → Type 0
IsUnbuilt v = (v ≡ frame_free_part) ⊎ (v ≡ frame_reserved)

-- The frames that the loop has not reached.
abbrev Ahead : ℕ → ℕ → Type 0
Ahead idx i = idx ≤ i

-- The loop invariant: what lies behind `idx` is in order, and what lies ahead is untouched.
record Building (total : ℕ) (s t : Frames) (idx : ℕ) : Type 0 where
  inv : InvOut total t (Ahead idx)
  ahead : (i : ℕ) → idx ≤ i → t.frame i ≡ s.frame i
  reserved : (i : ℕ) → i < total → s.frame i ≡ frame_reserved → t.frame i ≡ frame_reserved
  free : (i : ℕ) → i < idx → s.frame i ≡ frame_free_part → IsFreeFrame (t.frame i)

module _ (total : ℕ) (s t : Frames) (idx : ℕ) (raw : (i : ℕ) → i < total → IsUnbuilt (s.frame i))
    (lt : idx < total) (b : Building total s t idx) where
  skip_round : t.frame idx ≡ frame_reserved → Building total s t (idx + 1)
  skip_round e = record {
    inv = record {
      listed = λ k x h.
          IsFree_agree total t t (Ahead idx) (Ahead (idx + 1)) k x (λ i n. refl)
            (λ i r. omega arith) (b.inv.listed k x h);
      heads = λ k x hk hx n g. elim (eq_or_ne x idx) [
        | inl same ↦ cc (e, rw same at g)
        | inr other ↦ b.inv.heads k x hk hx (λ r. n (omega arith)) g
      ];
      covered = λ i hi n g. elim (eq_or_ne i idx) [
        | inl same ↦ cc (e, rw same at g)
        | inr other ↦ b.inv.covered i hi (λ r. n (omega arith)) g
      ];
      tags = λ i j o hi n hj ho g. elim (eq_or_ne i idx) [
        | inl same ↦ cc (e, rw same at g)
        | inr other ↦
            let (c, a) = b.inv.tags i j o hi (λ r. n (omega arith)) hj ho g in
            (
              c,
              IsAllocated-agree total t t (Ahead idx) (Ahead (idx + 1)) o j (λ m q. refl)
                  (λ m r. omega arith) a,
            )
      ];
      distinct = b.inv.distinct;
    };
    ahead = λ i h. b.ahead i (omega arith);
    reserved = b.reserved;
    free = λ i h f. elim (eq_or_ne i idx) [
      | inl same ↦ cc (e, b.ahead i (omega arith), f, ap t.frame same)
      | inr other ↦ b.free i (omega arith) f
    ];
  }

  push_round :
      (k : ℕ)
      → Fits total idx t.frame max_order k
      → Building total s (block_push idx k t) (idx + 2 ^ k)
  push_round k w = record {
    inv =
        push_step total t (Ahead idx) (Ahead (idx + 2 ^ k)) k idx b.inv w.order_le w.aligned w.fits
          (λ i c. c.0) (λ i r. omega arith) (λ i c r. omega arith)
          (λ i r. elim (lt_or_le i (idx + 2 ^ k)) [ inl l ↦ inr (r, l) | inr g ↦ inl g ]);
    ahead = λ i h. push-outside idx k t i (inr h) ∙ b.ahead i (omega arith);
    reserved = λ i hi e. elim (in_block_or k idx i) [
      | inl c ↦ absurd (w.unreserved i c (b.reserved i hi e))
      | inr o ↦ push-outside idx k t i o ∙ b.reserved i hi e
    ];
    free = λ i h e. elim (in_block_or k idx i) [
      | inl c ↦ elim (eq_or_ne i idx) [
        | inl same ↦ inr (k, w.order_le, rw same (push-head idx k t))
        | inr other ↦ inl (push-part idx k t i (omega arith) c.1)
      ]
      | inr o ↦ rw (push-outside idx k t i o) (b.free i (omega arith) e)
    ];
  }

module _ (total : ℕ) (s : Frames) (raw : (i : ℕ) → i < total → IsUnbuilt (s.frame i)) where
  build_loop_lem :
      (fuel idx : ℕ) (t : Frames)
      → total < idx + fuel
      → Building total s t idx
      → (stop : ℕ) × (total ≤ stop) × Building total s (build_loop fuel idx total t) stop
  unfolding build_loop
  build_loop_lem zero idx t m b = (idx, omega arith, b)
  build_loop_lem (suc fuel) idx t m b = elim (lt_or_le idx total) [
    | inr past ↦ rw (le→leb _ _ past) (idx, past, b)
    | inl lt ↦ elim (Bool-cases (eqb (t.frame idx) frame_reserved)) [
      | inl res ↦
          let e = (eqb_iff (t.frame idx) frame_reserved).0 res in
          rw (lt→leb _ _ lt, res)
            (build_loop_lem fuel (idx + 1) t (omega arith) (skip_round total s t idx raw lt b e))
      | inr not_res ↦
          let k = fit_order max_order idx total t.frame in
          let w =
            fit_order_lem max_order idx total t.frame lt
              (λ e. cc (not_res, (eqb_iff (t.frame idx) frame_reserved).1 e)) in
          rw (lt→leb _ _ lt, not_res)
            (build_loop_lem fuel (idx + 2 ^ k) (block_push idx k t) (omega (arith, pow_pos k))
              (push_round total s t idx raw lt b k w))
    ]
  ]

-- The state that `buddy_init` and `buddy_reserve` leave.
pub record IsRaw (b : Buddy) : Type 0 where
  pub base_pos : 0 < b.base
  pub room : b.base + b.total_pages * page_size ≤ b.limit
  pub limit_lt : b.limit < 2 ^ 64
  pub few : b.total_pages ≤ max_pages
  pub raw : (i : ℕ) → i < b.total_pages → IsUnbuilt (b.frames.frame i)
  pub empty : (k : ℕ) → b.frames.free_list k ≡ []

-- Building the lists makes the allocator valid; reserved frames stay reserved, and every other
-- frame is in a free block.
pub buddy_build_free_lists_lem :
    (b : Buddy)
    → IsRaw b
    → let b' = buddy_build_free_lists b in
      IsValid b'
      × ((i : ℕ)
          → i < b.total_pages
          → ((b.frames.frame i ≡ frame_reserved) × (b'.frames.frame i ≡ frame_reserved))
            ⊎ ((b.frames.frame i ≡ frame_free_part) × IsFreeFrame (b'.frames.frame i)))
unfolding buddy_build_free_lists
buddy_build_free_lists_lem b r =
    let (stop, past, d) =
      build_loop_lem b.total_pages b.frames r.raw (suc b.total_pages) 0 b.frames (omega arith)
        start in
    (
      record {
        base_pos = r.base_pos;
        room = r.room;
        limit_lt = r.limit_lt;
        few = r.few;
        inv = all_built stop past _ d.inv;
      },
      λ i hi. elim (r.raw i hi) [
        | inl f ↦ inr (f, d.free i (omega arith) f)
        | inr e ↦ inl (e, d.reserved i hi e)
      ],
    )
  where
    start : Building b.total_pages b.frames b.frames 0
    start = record {
      inv = record {
        listed = λ k x h. absurd (rw (r.empty k) at h);
        heads = λ k x hk hx n e. absurd (n (omega arith));
        covered = λ i hi n e. absurd (n (omega arith));
        tags = λ i j o hi n hj ho e. absurd (n (omega arith));
        distinct = λ k. rw (r.empty k) tt;
      };
      ahead = λ i h. refl;
      reserved = λ i hi e. e;
      free = λ i h e. absurd (omega arith);
    }

    all_built :
        (stop : ℕ)
        → b.total_pages ≤ stop
        → (t : Frames) → InvOut b.total_pages t (Ahead stop)
        → Inv b.total_pages t
    all_built stop past t inv = record {
      listed = λ k x h.
          IsFree_agree b.total_pages t t (Ahead stop) Nowhere k x (λ i n. refl) (λ i f. absurd f)
            (inv.listed k x h);
      heads = λ k x hk hx n e. inv.heads k x hk hx (λ h. omega arith) e;
      covered = λ i hi n e. inv.covered i hi (λ h. omega arith) e;
      tags = λ i j o hi n hj ho e.
          let (c, a) = inv.tags i j o hi (λ h. omega arith) hj ho e in
          (
            c,
            IsAllocated-agree b.total_pages t t (Ahead stop) Nowhere o j (λ m q. refl)
                (λ m f. absurd f) a,
          );
      distinct = inv.distinct;
    }
