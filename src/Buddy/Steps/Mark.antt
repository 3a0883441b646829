-- ===== src/Buddy/Steps/Mark.antt =====
-- `ALLOC_TAG` on a whole block: it leaves the region in hand as an allocated block.
use osc.Common.{ℕ, ◌+◌, ◌^◌, ◌≤◌, ◌<◌, ◌≡◌, ◌⊎◌, inl, inr, refl, sym, ◌∙◌, arith}
use osc.Common.Int.{pos}
use osc.Common.In.{In}
use osc.Buddy.{max_order, frame_free_part, alloc_tag, Frames, mark}
use osc.Buddy.Fill.{fill-inside, fill-outside}
use osc.Buddy.Inv.{Aligned, InBlock, max_pages, IsAllocated, InvOut}
use osc.Buddy.Steps.Push.{IsFree_agree, IsAllocated-agree, in_block_or}

pub mark-inside :
    (k idx : ℕ) (s : Frames) (i : ℕ) → InBlock k idx i → (mark k idx s).frame i ≡ alloc_tag idx k
unfolding mark
mark-inside k idx s i b = fill-inside (2 ^ k) idx (alloc_tag idx k) s.frame i b.0 b.1

pub mark-outside :
    (k idx : ℕ) (s : Frames) (i : ℕ)
    → (i < idx) ⊎ (idx + 2 ^ k ≤ i)
    → (mark k idx s).frame i ≡ s.frame i
unfolding mark
mark-outside k idx s i o = fill-outside (2 ^ k) idx (alloc_tag idx k) s.frame i o

module _ (total : ℕ) (s : Frames) (R T : ℕ → Type 0) (k idx : ℕ) (inv : InvOut total s R)
    (small : k ≤ max_order) (aligned : Aligned k idx) (fits : idx + 2 ^ k ≤ total)
    (inside : (i : ℕ) → InBlock k idx i → R i) (shrink : (i : ℕ) → T i → R i)
    (apart : (i : ℕ) → InBlock k idx i → ¬ T i) (rest : (i : ℕ) → R i → T i ⊎ InBlock k idx i) where
  abbrev pub marked : Frames
  marked = mark k idx s

  agree : (i : ℕ) → ¬ R i → marked.frame i ≡ s.frame i
  agree i n = elim (in_block_or k idx i) [
    | inl b ↦ absurd (n (inside i b))
    | inr o ↦ mark-outside k idx s i o
  ]

  not_held : (i : ℕ) → ¬ T i → (i < idx) ⊎ (idx + 2 ^ k ≤ i) → ¬ R i
  not_held i n o r = elim (rest i r) [ inl t ↦ n t | inr b ↦ absurd (omega arith) ]

  pub new-IsAllocated : IsAllocated total marked T k idx
  new-IsAllocated = record {
    order_le = small;
    aligned = aligned;
    fits = fits;
    tagged = mark-inside k idx s;
    outside = apart;
  }

  same_lists : (j : ℕ) → marked.free_list j ≡ s.free_list j
  unfolding mark
  same_lists j = refl

  mark_heads :
      (j y : ℕ) → j ≤ max_order → y < total → ¬ T y → marked.frame y ≡ pos j → In y (s.free_list j)
  mark_heads j y hj hy n e = elim (in_block_or k idx y) [
    | inl b ↦ let g = mark-inside k idx s y b in absurd (ground arith)
    | inr o ↦ inv.heads j y hj hy (not_held y n o) (sym (mark-outside k idx s y o) ∙ e)
  ]

  mark_covered :
      (i : ℕ)
      → i < total
      → ¬ T i
      → marked.frame i ≡ frame_free_part
      → (j : ℕ) × (y : ℕ) × In y (s.free_list j) × InBlock j y i
  mark_covered i hi n e = elim (in_block_or k idx i) [
    | inl b ↦ cc (mark-inside k idx s i b)
    | inr o ↦ inv.covered i hi (not_held i n o) (sym (mark-outside k idx s i o) ∙ e)
  ]

  mark_tags :
      (i j o : ℕ)
      → i < total
      → ¬ T i
      → j < max_pages
      → o < 256
      → marked.frame i ≡ alloc_tag j o
      → InBlock o j i × IsAllocated total marked T o j
  mark_tags i j o hi n hj ho e = elim (in_block_or k idx i) [
    | inl b ↦
        let g = mark-inside k idx s i b in
        let (same_order, same_idx) : (k ≡ o) × (idx ≡ j) = ground arith in
        rw (← same_order, ← same_idx) (b, new-IsAllocated)
    | inr away ↦
        let (b, a) =
          inv.tags i j o hi (not_held i n away) hj ho (sym (mark-outside k idx s i away) ∙ e) in
        (b, IsAllocated-agree total s marked R T o j agree shrink a)
  ]

  -- A block in hand that is marked becomes an allocated block.
  pub mark_step : InvOut total marked T
  unfolding mark
  mark_step = record {
    listed = λ j y h. IsFree_agree total s marked R T j y agree shrink (inv.listed j y h);
    heads = mark_heads;
    covered = mark_covered;
    tags = mark_tags;
    distinct = inv.distinct;
  }
