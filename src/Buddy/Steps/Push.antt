-- ===== src/Buddy/Steps/Push.antt =====
-- `block_push`: a block of the region in hand becomes free.
use osc.Common.{
  refl, ℕ, ◌+◌, ◌^◌, ◌≤◌, ◌<◌, ◌≡◌, ◌⊎◌, inl, inr, sym, ◌∙◌, arith, ==_refl, ==_ne, List, ◌∷◌,
  update, lt_or_le, eq_or_ne,
}
use osc.Common.Int.{pos}
use osc.Common.In.{In, Distinct}
use osc.Buddy.{max_order, frame_free_part, alloc_tag, Frames, block_push}
use osc.Buddy.Order.{pow_pos}
use osc.Buddy.Fill.{push-head, push-part, push-outside}
use osc.Buddy.Inv.{Aligned, InBlock, max_pages, IsFree, IsAllocated, InvOut}

-- Frames that agree on a block keep it free, or allocated.
pub IsFree_agree :
    (total : ℕ) (s t : Frames) (R T : ℕ → Type 0) (k idx : ℕ)
    → ((i : ℕ) → ¬ R i → t.frame i ≡ s.frame i)
    → ((i : ℕ) → T i → R i)
    → IsFree total s R k idx
    → IsFree total t T k idx
IsFree_agree total s t R T k idx agree shrink f = record {
  order_le = f.order_le;
  aligned = f.aligned;
  fits = f.fits;
  head = agree idx (f.outside idx (omega (arith, pow_pos k))) ∙ f.head;
  parts = λ i h l. agree i (f.outside i (omega arith)) ∙ f.parts i h l;
  outside = λ i h r. f.outside i h (shrink i r);
}

pub IsAllocated-agree :
    (total : ℕ) (s t : Frames) (R T : ℕ → Type 0) (o j : ℕ)
    → ((i : ℕ) → ¬ R i → t.frame i ≡ s.frame i)
    → ((i : ℕ) → T i → R i)
    → IsAllocated total s R o j
    → IsAllocated total t T o j
IsAllocated-agree total s t R T o j agree shrink a = record {
  order_le = a.order_le;
  aligned = a.aligned;
  fits = a.fits;
  tagged = λ i h. agree i (a.outside i h) ∙ a.tagged i h;
  outside = λ i h r. a.outside i h (shrink i r);
}

In-push :
    (lists : ℕ → List ℕ) (k idx j y : ℕ) → In y (lists j) → In y (update lists k (idx ∷ lists k) j)
In-push lists k idx j y h = elim (eq_or_ne k j) [
  | inl e ↦ rw (e, ==_refl j) (inr h)
  | inr n ↦ rw (==_ne k j n) h
]

push-In :
    (lists : ℕ → List ℕ) (k idx j y : ℕ)
    → In y (update lists k (idx ∷ lists k) j)
    → ((j ≡ k) × (y ≡ idx)) ⊎ In y (lists j)
push-In lists k idx j y h = elim (eq_or_ne k j) [
  | inl e ↦ elim (rw (e, ==_refl j) at h) [ inl a ↦ inl (sym e, a) | inr b ↦ inr b ]
  | inr n ↦ inr (rw (==_ne k j n) at h)
]

-- A frame is in a block or outside it.
pub in_block_or : (k idx i : ℕ) → InBlock k idx i ⊎ ((i < idx) ⊎ (idx + 2 ^ k ≤ i))
in_block_or k idx i = elim (lt_or_le i idx) [
  | inl l ↦ inr (inl l)
  | inr g ↦ elim (lt_or_le i (idx + 2 ^ k)) [ inl l ↦ inl (g, l) | inr m ↦ inr (inr m) ]
]

module _ (total : ℕ) (s : Frames) (R T : ℕ → Type 0) (k idx : ℕ) (inv : InvOut total s R)
    (small : k ≤ max_order) (aligned : Aligned k idx) (fits : idx + 2 ^ k ≤ total)
    (inside : (i : ℕ) → InBlock k idx i → R i) (shrink : (i : ℕ) → T i → R i)
    (apart : (i : ℕ) → InBlock k idx i → ¬ T i) (rest : (i : ℕ) → R i → T i ⊎ InBlock k idx i) where
  abbrev pushed : Frames
  pushed = block_push idx k s

  agree : (i : ℕ) → ¬ R i → pushed.frame i ≡ s.frame i
  agree i n = elim (in_block_or k idx i) [
    | inl b ↦ absurd (n (inside i b))
    | inr o ↦ push-outside idx k s i o
  ]

  not_held : (i : ℕ) → ¬ T i → (i < idx) ⊎ (idx + 2 ^ k ≤ i) → ¬ R i
  not_held i n o r = elim (rest i r) [ inl t ↦ n t | inr b ↦ absurd (omega arith) ]

  -- The frames of the new block.
  in_new :
      (i : ℕ)
      → InBlock k idx i
      → ((i ≡ idx) × (pushed.frame i ≡ pos k)) ⊎ (pushed.frame i ≡ frame_free_part)
  in_new i b = elim (eq_or_ne i idx) [
    | inl e ↦ inl (e, rw e (push-head idx k s))
    | inr n ↦ inr (push-part idx k s i (omega arith) b.1)
  ]

  new_free : IsFree total pushed T k idx
  new_free = record {
    order_le = small;
    aligned = aligned;
    fits = fits;
    head = push-head idx k s;
    parts = push-part idx k s;
    outside = apart;
  }

  push_listed : (j y : ℕ) → In y (pushed.free_list j) → IsFree total pushed T j y
  unfolding block_push
  push_listed j y h = elim (push-In s.free_list k idx j y h) [
    | inl (e, f) ↦ rw (e, f) new_free
    | inr old ↦ IsFree_agree total s pushed R T j y agree shrink (inv.listed j y old)
  ]

  listed_new : In idx (pushed.free_list k)
  unfolding block_push
  listed_new = rw (==_refl k) (inl refl)

  listed_old : (j y : ℕ) → In y (s.free_list j) → In y (pushed.free_list j)
  unfolding block_push
  listed_old j y h = In-push s.free_list k idx j y h

  push_heads :
      (j y : ℕ)
      → j ≤ max_order
      → y < total
      → ¬ T y
      → pushed.frame y ≡ pos j
      → In y (pushed.free_list j)
  push_heads j y hj hy n e = elim (in_block_or k idx y) [
    | inl b ↦ elim (in_new y b) [
      | inl (f, g) ↦ let same : k ≡ j = cc in rw (f, ← same) listed_new
      | inr g ↦ cc
    ]
    | inr o ↦
        listed_old j y (inv.heads j y hj hy (not_held y n o) (sym (push-outside idx k s y o) ∙ e))
  ]

  push_covered :
      (i : ℕ)
      → i < total
      → ¬ T i
      → pushed.frame i ≡ frame_free_part
      → (j : ℕ) × (y : ℕ) × In y (pushed.free_list j) × InBlock j y i
  push_covered i hi n e = elim (in_block_or k idx i) [
    | inl b ↦ (k, idx, listed_new, b)
    | inr o ↦
        let (j, y, h, b) = inv.covered i hi (not_held i n o) (sym (push-outside idx k s i o) ∙ e) in
        (j, y, listed_old j y h, b)
  ]

  push_tags :
      (i j o : ℕ)
      → i < total
      → ¬ T i
      → j < max_pages
      → o < 256
      → pushed.frame i ≡ alloc_tag j o
      → InBlock o j i × IsAllocated total pushed T o j
  push_tags i j o hi n hj ho e = elim (in_block_or k idx i) [
    | inl b ↦ elim (in_new i b) [ inl (f, g) ↦ absurd (ground arith) | inr g ↦ cc ]
    | inr away ↦
        let (b, a) =
          inv.tags i j o hi (not_held i n away) hj ho (sym (push-outside idx k s i away) ∙ e) in
        (b, IsAllocated-agree total s pushed R T o j agree shrink a)
  ]

  push-Distinct : (j : ℕ) → Distinct (pushed.free_list j)
  unfolding block_push
  push-Distinct j = elim (eq_or_ne k j) [
    | inl e ↦
        rw (e, ==_refl j)
          (
            (λ h. absurd (
                (inv.listed j idx h).outside idx (omega (arith, pow_pos j))
                  (inside idx (omega (arith, pow_pos k))))),
            inv.distinct j,
          )
    | inr n ↦ rw (==_ne k j n) (inv.distinct j)
  ]

  -- A block in hand that is pushed leaves the rest of the region in hand.
  pub push_step : InvOut total pushed T
  push_step = record {
    listed = push_listed;
    heads = push_heads;
    covered = push_covered;
    tags = push_tags;
    distinct = push-Distinct;
  }
