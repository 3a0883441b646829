-- ===== src/Buddy/Steps/Pop.antt =====
-- `block_pop`: a free block joins the region in hand.
use osc.Common.{ℕ, ◌≤◌, ◌<◌, ◌≡◌, ◌≢◌, ◌⊎◌, inl, inr, arith, eq_or_ne, lt_or_le}
use osc.Common.Int.{pos}
use osc.Common.In.{In, remove-In, In-remove, In-remove-ne, remove-Distinct}
use osc.Buddy.{max_order, frame_free_part, alloc_tag, Frames, block_pop}
use osc.Buddy.Order.{pow_pos}
use osc.Buddy.Inv.{InBlock, max_pages, IsFree, IsAllocated, InvOut}

module _ (total : ℕ) (s : Frames) (R : ℕ → Type 0) (inv : InvOut total s R) where
  -- Two listed blocks that share a frame are one block.
  pub blocks_disjoint :
      (k x j y i : ℕ)
      → In x (s.free_list k)
      → In y (s.free_list j)
      → InBlock k x i
      → InBlock j y i
      → (x ≡ y) × (k ≡ j)
  blocks_disjoint k x j y i hx hy bx by =
      let fx = inv.listed k x hx in
      let fy = inv.listed j y hy in
      elim (eq_or_ne x y) [
        | inl e ↦ (e, (let h : s.frame x ≡ pos j = rw e fy.head in cc (fx.head, h)))
        | inr n ↦ elim (lt_or_le x y) [
          | inl l ↦ cc (fx.parts y l (omega arith), fy.head)
          | inr g ↦ cc (fy.parts x (omega arith) (omega arith), fx.head)
        ]
      ]

module _ (total : ℕ) (s : Frames) (R T : ℕ → Type 0) (k idx : ℕ) (inv : InvOut total s R)
    (member : In idx (s.free_list k)) (grow : (i : ℕ) → R i → T i)
    (joins : (i : ℕ) → InBlock k idx i → T i) (only : (i : ℕ) → T i → R i ⊎ InBlock k idx i) where
  abbrev popped : Frames
  popped = block_pop idx s

  pop_outside : (j y : ℕ) → In y (s.free_list j) → idx ≢ y → (i : ℕ) → InBlock j y i → ¬ T i
  pop_outside j y h n i b t = elim (only i t) [
    | inl r ↦ (inv.listed j y h).outside i b r
    | inr c ↦ n (blocks_disjoint total s R inv k idx j y i member h c b).0
  ]

  pop_listed : (j y : ℕ) → In y (popped.free_list j) → IsFree total popped T j y
  unfolding block_pop
  pop_listed j y h =
      let old = In-remove idx y (s.free_list j) h in
      let f = inv.listed j y old in
      record {
        order_le = f.order_le;
        aligned = f.aligned;
        fits = f.fits;
        head = f.head;
        parts = f.parts;
        outside = pop_outside j y old (In-remove-ne idx y (s.free_list j) h);
      }

  pop_heads :
      (j y : ℕ)
      → j ≤ max_order
      → y < total
      → ¬ T y
      → popped.frame y ≡ pos j
      → In y (popped.free_list j)
  unfolding block_pop
  pop_heads j y hj hy n e =
      remove-In idx y (s.free_list j) (inv.heads j y hj hy (λ r. n (grow y r)) e)
        (λ f. n (rw f at (joins idx (omega (arith, pow_pos k)))))

  pop_covered :
      (i : ℕ)
      → i < total
      → ¬ T i
      → popped.frame i ≡ frame_free_part
      → (j : ℕ) × (y : ℕ) × In y (popped.free_list j) × InBlock j y i
  unfolding block_pop
  pop_covered i hi n e =
      let (j, y, h, b) = inv.covered i hi (λ r. n (grow i r)) e in
      (j, y, remove-In idx y (s.free_list j) h (stays j y h b), b)
    where
      stays : (j y : ℕ) → In y (s.free_list j) → InBlock j y i → idx ≢ y
      stays j y h b f =
          let h' : In idx (s.free_list j) = rw f h in
          let same =
            (blocks_disjoint total s R inv k idx j idx idx member h' (omega (arith, pow_pos k))
              (omega (arith, pow_pos j))).1 in
          n (joins i (rw (f, same) b))

  pop_tags :
      (i j o : ℕ)
      → i < total
      → ¬ T i
      → j < max_pages
      → o < 256
      → popped.frame i ≡ alloc_tag j o
      → InBlock o j i × IsAllocated total popped T o j
  unfolding block_pop
  pop_tags i j o hi n hj ho e =
      let (b, a) = inv.tags i j o hi (λ r. n (grow i r)) hj ho e in
      (
        b,
        record {
          order_le = a.order_le;
          aligned = a.aligned;
          fits = a.fits;
          tagged = a.tagged;
          outside = λ m c t. elim (only m t) [
            | inl r ↦ a.outside m c r
            | inr d ↦ free_not_tag m c d (a.tagged m c)
          ];
        },
      )
    where
      f : IsFree total s R k idx
      f = inv.listed k idx member

      free_not_tag : (m : ℕ) → InBlock o j m → InBlock k idx m → ¬ (s.frame m ≡ alloc_tag j o)
      free_not_tag m c d g = elim (eq_or_ne m idx) [
        | inl same ↦
            let h : s.frame m ≡ pos k = rw same f.head in absurd (ground (arith, f.order_le))
        | inr other ↦ cc (f.parts m (omega arith) d.1, g)
      ]

  -- A free block that is popped joins the region in hand.
  pub pop_step : InvOut total popped T
  unfolding block_pop
  pop_step = record {
    listed = pop_listed;
    heads = pop_heads;
    covered = pop_covered;
    tags = pop_tags;
    distinct = λ j. remove-Distinct idx (s.free_list j) (inv.distinct j);
  }
