-- ===== src/Kmalloc/Large.antt =====
-- Requests above 2048 bytes: the page allocator's blocks, which no pool owns.
use osc.Common.{
  ℕ, ◌+◌, ◌*◌, ◌^◌, ◌≤◌, ◌<◌, ◌≡◌, ◌⊎◌, inl, inr, refl, sym, ap, ◌∙◌, arith, List, lt_or_le, ==_ne,
}
use osc.Common.Int.{pos, negsuc}
use osc.Buddy.{Buddy, page_size, addr_to_idx, pages_needed, fill, buddy_alloc}
use osc.Buddy.Order.{pow_pos, pages_to_order_lem}
use osc.Buddy.Fill.{fill-inside, fill-outside}
use osc.Buddy.Alloc.{IsFreeFrame}
use osc.Buddy.Api.{Given, buddy_alloc-IsValid, buddy_alloc-Given, buddy_alloc_null}
use osc.Kmalloc.{Heap, kmalloc_large, kmalloc}
use osc.Kmalloc.Pools.{find_pool-none}
use osc.Kmalloc.Inv.{IsPoolPage, Inv, IsPoolPage-keep, IsChunk_keep}

-- Pages of the pools are in use.
pub IsPoolPage-busy :
    (k : Heap) (i pg : ℕ) → IsPoolPage k i pg → ¬ IsFreeFrame (k.buddy.frames.frame pg)
IsPoolPage-busy k i pg p (inl e) = cc (p.tagged)
IsPoolPage-busy k i pg p (inr (o, le, e)) = let t = p.tagged in absurd (ground arith)

-- What a large request does: null and nothing changed, or a block of the page allocator that no pool owns.
pub data LargeOutcome (k : Heap) (live : ℕ → List ℕ) (size ptr : ℕ) (k' : Heap) : Type 0 where
  refused : ptr ≡ 0 → k' ≡ k → LargeOutcome k live size ptr k'
  block :
      (order idx : ℕ)
      → 0 < ptr
      → Given k.buddy size ptr k'.buddy order idx
      → size ≤ 2 ^ order * page_size
      → k'.page_pool_idx idx ≡ negsuc 0
      → Inv k' live
      → LargeOutcome k live size ptr k'

module _ (k : Heap) (live : ℕ → List ℕ) (inv : Inv k live) (size : ℕ) (big : 2048 < size)
    (no_wrap : size + page_size < 2 ^ 64) where
  abbrev ptr : ℕ
  ptr = (buddy_alloc size k.buddy).0

  abbrev after : Buddy
  after = (buddy_alloc size k.buddy).1

  abbrev marked : Heap
  marked = record k {
    buddy = after;
    page_pool_idx =
        fill (pages_needed size) (addr_to_idx after.base ptr) (negsuc 0) k.page_pool_idx;
  }

  module _ (order idx : ℕ) (g : Given k.buddy size ptr after order idx) where
    at_idx : addr_to_idx after.base ptr ≡ idx
    at_idx = omega (
      arith,
      g.address,
      g.region,
      inv.valid.room,
      inv.valid.limit_lt,
      g.allocated.fits,
      pow_pos order,
    )

    enough : pages_needed size ≤ 2 ^ order
    enough = omega (
      arith,
      (pages_to_order_lem (pages_needed size) (omega arith)).0,
      ap (λ o. 2 ^ o) g.best_fit,
    )

    owner_inside :
        (pg : ℕ) → idx ≤ pg → pg < idx + pages_needed size → marked.page_pool_idx pg ≡ negsuc 0
    owner_inside pg lo hi =
        rw at_idx (fill-inside (pages_needed size) idx (negsuc 0) k.page_pool_idx pg lo hi)

    owner_outside :
        (pg : ℕ)
        → (pg < idx) ⊎ (idx + pages_needed size ≤ pg)
        → marked.page_pool_idx pg ≡ k.page_pool_idx pg
    owner_outside pg o =
        rw at_idx (fill-outside (pages_needed size) idx (negsuc 0) k.page_pool_idx pg o)

    apart : (i pg : ℕ) → IsPoolPage k i pg → (pg < idx) ⊎ (idx + pages_needed size ≤ pg)
    apart i pg p = elim (lt_or_le pg idx) [
      | inl l ↦ inl l
      | inr h ↦ elim (lt_or_le pg (idx + pages_needed size)) [
        | inl l ↦ absurd (IsPoolPage-busy k i pg p (g.was_free pg (h, omega (arith, enough))))
        | inr m ↦ inr m
      ]
    ]

    keep : (i pg : ℕ) → IsPoolPage k i pg → IsPoolPage marked i pg
    keep i pg p =
        IsPoolPage-keep k marked i pg g.region.2 (owner_outside pg (apart i pg p))
          (g.others pg (IsPoolPage-busy k i pg p)) p

    marked_owned :
        (i pg : ℕ)
        → pg < marked.buddy.total_pages
        → marked.page_pool_idx pg ≡ pos i
        → IsPoolPage marked i pg
    marked_owned i pg lt e = elim (lt_or_le pg idx) [
      | inl l ↦
          keep i pg
            (inv.owned i pg (omega (arith, g.region, lt)) (sym (owner_outside pg (inl l)) ∙ e))
      | inr h ↦ elim (lt_or_le pg (idx + pages_needed size)) [
        | inl l ↦ cc (owner_inside pg h l, e)
        | inr m ↦
            keep i pg
              (inv.owned i pg (omega (arith, g.region, lt)) (sym (owner_outside pg (inr m)) ∙ e))
      ]
    ]

    marked-Inv : Inv marked live
    marked-Inv = record {
      valid = buddy_alloc-IsValid k.buddy size inv.valid;
      base_aligned = rw (g.region.0) inv.base_aligned;
      chunks = λ i x h. IsChunk_keep k marked i x g.region.0 (keep i) (inv.chunks i x h);
      distinct = inv.distinct;
      exclusive = inv.exclusive;
      owned = marked_owned;
    }

  kmalloc_large_lem : LargeOutcome k live size (kmalloc_large size k).0 (kmalloc_large size k).1
  unfolding kmalloc_large
  kmalloc_large_lem = elim (lt_or_le 0 ptr) [
    | inl some_page ↦
        let (order, idx, g) = buddy_alloc-Given k.buddy size inv.valid some_page in
        rw (==_ne ptr 0 (omega arith)) (
          block order idx some_page g (omega (arith, enough order idx g))
            (owner_inside order idx g idx (omega arith) (omega arith)) (marked-Inv order idx g))
    | inr null ↦
        let zero_ptr : ptr ≡ 0 = omega arith in
        let same = (buddy_alloc_null k.buddy size inv.valid zero_ptr).0 in
        rw (zero_ptr, same) (refused refl refl)
  ]

  -- A request above 2048 bytes gives null and changes nothing, or gives a block of the page allocator that
  -- is large enough and that `page_pool_idx` marks as no pool's; the invariant holds and the live chunks
  -- stay live.
  pub kmalloc_large_request : LargeOutcome k live size (kmalloc size k).0 (kmalloc size k).1
  unfolding kmalloc
  kmalloc_large_request =
      rw (==_ne size 0 (omega arith), (find_pool-none size).1 big) kmalloc_large_lem
