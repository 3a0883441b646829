-- ===== src/Buddy/Free.antt =====
-- `buddy_free`: the block that a tag names is free again, merged with its free buddies.
use osc.Common.{
  ℕ, ◌+◌, ◌-◌, ◌*◌, ◌^◌, ◌≤◌, ◌<◌, ◌≡◌, ◌≢◌, ◌⊎◌, inl, inr, sym, ◌∙◌, arith, eq_or_ne, ==_ne,
  le→ltb, lt→leb,
}
use osc.Buddy.{
  Frames, Buddy, max_order, page_size, frame_free_part, frame_reserved, alloc_tag, get_alloc_order,
  addr_to_idx, fill, block_push, coalesce, free_block, buddy_free,
}
use osc.Buddy.Order.{pow_pos}
use osc.Buddy.Fill.{fill-outside, push-head, push-part, push-outside}
use osc.Buddy.Inv.{InBlock, Nowhere, Inv, IsAllocated, InvOut, IsValid, max_pages}
use osc.Buddy.Alloc.{IsFreeFrame, IsFree-frame}
use osc.Buddy.Steps.Push.{push_step, in_block_or}
use osc.Buddy.Merge.{Merged, coalesce_lem}

module _ (total : ℕ) (s : Frames) (o idx : ℕ) (inv : Inv total s)
    (a : IsAllocated total s Nowhere o idx) (small : total ≤ max_pages) where
  tag_not_free : (i : ℕ) → InBlock o idx i → ¬ IsFreeFrame (s.frame i)
  tag_not_free i b (inl e) = cc (a.tagged i b)
  tag_not_free i b (inr (k, le, e)) = let g = a.tagged i b in absurd (ground arith)

  start_lt : idx < max_pages
  start_lt = omega (arith, a.fits, pow_pos o)

  abbrev cleared : Frames
  cleared = record s { frame = fill (2 ^ o) idx frame_free_part s.frame }

  away : (i : ℕ) → ¬ (InBlock o idx i) → cleared.frame i ≡ s.frame i
  away i n = elim (in_block_or o idx i) [
    | inl b ↦ absurd (n b)
    | inr out ↦ fill-outside (2 ^ o) idx frame_free_part s.frame i out
  ]

  -- An allocated block is taken in hand; what its frames hold does not matter then.
  cleared_inv : InvOut total cleared (InBlock o idx)
  cleared_inv = record {
    listed = λ k x h.
        let f = inv.listed k x h in
        let apart : (i : ℕ) → InBlock k x i → ¬ InBlock o idx i =
          λ i b c. tag_not_free i c (IsFree-frame total s Nowhere k x i f b) in
        record {
          order_le = f.order_le;
          aligned = f.aligned;
          fits = f.fits;
          head = away x (apart x (omega (arith, pow_pos k))) ∙ f.head;
          parts = λ i h l. away i (apart i (omega arith)) ∙ f.parts i h l;
          outside = apart;
        };
    heads = λ k x hk hx n e. inv.heads k x hk hx (λ r. r) (sym (away x n) ∙ e);
    covered = λ i hi n e. inv.covered i hi (λ r. r) (sym (away i n) ∙ e);
    tags = λ i j p hi n hj hp e.
        let (b, c) = inv.tags i j p hi (λ r. r) hj hp (sym (away i n) ∙ e) in
        let apart : (m : ℕ) → InBlock p j m → ¬ InBlock o idx m =
          λ m d g. n (same_block j p m i (c.tagged m d) (a.tagged m g) hj hp b) in
        (
          b,
          record {
            order_le = c.order_le;
            aligned = c.aligned;
            fits = c.fits;
            tagged = λ m d. away m (apart m d) ∙ c.tagged m d;
            outside = apart;
          },
        );
    distinct = inv.distinct;
  }
    where
      same_block :
          (j p m i : ℕ)
          → s.frame m ≡ alloc_tag j p
          → s.frame m ≡ alloc_tag idx o
          → j < max_pages
          → p < 256
          → InBlock p j i
          → InBlock o idx i
      same_block j p m i e f hj hp b =
          let (g, h) : (j ≡ idx) × (p ≡ o) = ground (arith, a.order_le, start_lt) in rw (← g, ← h) b

  merged :
      Merged total cleared o idx
        (coalesce (max_order - o) total idx o cleared).0
        (coalesce (max_order - o) total idx o cleared).1
        (coalesce (max_order - o) total idx o cleared).2
  merged =
      coalesce_lem total (max_order - o) o idx cleared (omega (arith, a.order_le)) cleared_inv
        a.aligned a.fits

  order_back : get_alloc_order (s.frame idx) ≡ o
  order_back = rw (a.tagged idx (omega (arith, pow_pos o))) (omega (arith, a.order_le))

-- What freeing the allocated block `idx` of order `o` does.
pub record Freed (total : ℕ) (s t : Frames) (o idx : ℕ) : Type 0 where
  pub inv : Inv total t
  pub free : (i : ℕ) → InBlock o idx i → IsFreeFrame (t.frame i)
  pub others : (i : ℕ) → ¬ InBlock o idx i → ¬ IsFreeFrame (s.frame i) → t.frame i ≡ s.frame i

module _ (total : ℕ) (s : Frames) (o idx : ℕ) (inv : Inv total s)
    (a : IsAllocated total s Nowhere o idx) (small : total ≤ max_pages) where
  abbrev before : Frames
  before = record s { frame = fill (2 ^ o) idx frame_free_part s.frame }

  abbrev top : ℕ
  top = (coalesce (max_order - o) total idx o before).1

  abbrev start : ℕ
  start = (coalesce (max_order - o) total idx o before).0

  abbrev grown : Frames
  grown = (coalesce (max_order - o) total idx o before).2

  m : Merged total before o idx start top grown
  m = merged total s o idx inv a small

  after_free : (i : ℕ) → InBlock o idx i → IsFreeFrame ((block_push start top grown).frame i)
  after_free i b = elim (eq_or_ne i start) [
    | inl e ↦ inr (top, m.order_le, rw e (push-head start top grown))
    | inr n ↦ let c = m.contains i b in inl (push-part start top grown i (omega arith) c.1)
  ]

  after_others :
      (i : ℕ)
      → ¬ InBlock o idx i
      → ¬ IsFreeFrame (s.frame i)
      → (block_push start top grown).frame i ≡ s.frame i
  after_others i out busy = elim (in_block_or top start i) [
    | inl b ↦ elim (m.others_free i b) [
      | inl c ↦ absurd (out c)
      | inr g ↦ absurd (busy (rw (away total s o idx inv a small i out) at g))
    ]
    | inr past ↦
        push-outside start top grown i past ∙ m.same i ∙ away total s o idx inv a small i out
  ]

  pub free_block_lem : Freed total s (free_block total idx s) o idx
  unfolding free_block
  free_block_lem = rw (order_back total s o idx inv a small) (record {
    inv =
        push_step total grown (InBlock top start) Nowhere top start m.inv m.order_le m.aligned
          m.fits (λ i b. b) (λ i r. absurd r) (λ i b r. r) (λ i b. inr b);
    free = after_free;
    others = after_others;
  })

-- The pointer of an allocated block passes the guards of `buddy_free`.
pub buddy_free_passes :
    (b : Buddy) (o idx : ℕ)
    → IsValid b
    → IsAllocated b.total_pages b.frames Nowhere o idx
    → buddy_free (b.base + idx * page_size) b
      ≡ record b { frames = free_block b.total_pages idx b.frames }
unfolding buddy_free
buddy_free_passes b o idx v a =
    let inside : idx < b.total_pages = omega (arith, a.fits, pow_pos o) in
    let ptr = b.base + idx * page_size in
    let not_null : ptr ≢ 0 = omega (arith, v.base_pos) in
    let below : ptr < b.limit = omega (arith, v.room) in
    let back : addr_to_idx b.base ptr ≡ idx = omega (arith, v.room, v.limit_lt) in
    let tag : b.frames.frame idx ≡ alloc_tag idx o = a.tagged idx (omega (arith, pow_pos o)) in
    rw (==_ne ptr 0 not_null, le→ltb ptr b.base (omega arith), lt→leb b.limit ptr below, back, tag)

-- Freeing the pointer of an allocated block keeps the allocator valid; the frames of the block are
-- free afterwards, and every other frame that was in use is as before.
pub buddy_free_lem :
    (b : Buddy) (o idx : ℕ)
    → IsValid b
    → IsAllocated b.total_pages b.frames Nowhere o idx
    → let b' = buddy_free (b.base + idx * page_size) b in
      IsValid b' × Freed b.total_pages b.frames b'.frames o idx
buddy_free_lem b o idx v a =
    let f = free_block_lem b.total_pages b.frames o idx v.inv a v.few in
    rw (buddy_free_passes b o idx v a) (
      record {
        base_pos = v.base_pos;
        room = v.room;
        limit_lt = v.limit_lt;
        few = v.few;
        inv = f.inv;
      },
      f,
    )

-- A null pointer, one outside the region and one to a reserved frame are ignored.
pub buddy_free_guards :
    (ptr : ℕ) (b : Buddy)
    → ((ptr ≡ 0) ⊎ ((ptr < b.base) ⊎ (b.limit ≤ ptr)))
      ⊎ (b.frames.frame (addr_to_idx b.base ptr) ≡ frame_reserved)
    → buddy_free ptr b ≡ b
unfolding buddy_free
buddy_free_guards ptr b h = ground arith
