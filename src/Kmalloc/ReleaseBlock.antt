-- ===== src/Kmalloc/ReleaseBlock.antt =====
-- `kfree` of a large allocation.
use osc.Common.{ℕ, ◌+◌, ◌*◌, ◌≡◌, ◌≢◌, refl, arith, List, ==_ne}
use osc.Common.Int.{negsuc}
use osc.Buddy.{page_size, page_down, addr_to_idx, free_block}
use osc.Buddy.Order.{pow_pos}
use osc.Buddy.Inv.{IsValid, InBlock, Nowhere, IsAllocated}
use osc.Buddy.Free.{Freed, buddy_free_lem, buddy_free_passes}
use osc.Kmalloc.{Heap, kfree}
use osc.Kmalloc.Inv.{IsPoolPage, Inv, IsPoolPage-keep, IsChunk_keep}
use osc.Kmalloc.Large.{IsPoolPage-busy}

module _ (k : Heap) (live : ℕ → List ℕ) (order idx : ℕ) (inv : Inv k live)
    (a : IsAllocated k.buddy.total_pages k.buddy.frames Nowhere order idx)
    (own : k.page_pool_idx idx ≡ negsuc 0) where
  abbrev ptr : ℕ
  ptr = k.buddy.base + idx * page_size

  abbrev freed : Heap
  freed = record k {
    buddy = record (k.buddy) { frames = free_block k.buddy.total_pages idx k.buddy.frames };
  }

  -- No pool owns the page of the pointer, and the page allocator finds the block.
  finds_block : kfree ptr k ≡ freed
  unfolding kfree
  finds_block =
      let not_null : ptr ≢ 0 = omega (arith, inv.valid.base_pos) in
      let page : addr_to_idx k.buddy.base (page_down ptr) ≡ idx =
        omega
          (arith, inv.base_aligned, inv.valid.room, inv.valid.limit_lt, a.fits, pow_pos order) in
      rw (==_ne ptr 0 not_null, page, own, buddy_free_passes k.buddy order idx inv.valid a)

  released :
      IsValid freed.buddy × Freed k.buddy.total_pages k.buddy.frames freed.buddy.frames order idx
  released =
      rw (buddy_free_passes k.buddy order idx inv.valid a) at
        (buddy_free_lem k.buddy order idx inv.valid a)

  keep : (i pg : ℕ) → IsPoolPage k i pg → IsPoolPage freed i pg
  keep i pg p =
      IsPoolPage-keep k freed i pg refl refl
        (released.1.others pg elsewhere (IsPoolPage-busy k i pg p)) p
    where
      elsewhere : ¬ InBlock order idx pg
      elsewhere b =
          let t = a.tagged pg b in
          let same : pg ≡ idx =
            ground (arith, p.tagged, p.inside, a.fits, a.order_le, pow_pos order, inv.valid.few) in
          cc (rw same at p.owner, own)

  freed-Inv : Inv freed live
  freed-Inv = record {
    valid = released.0;
    base_aligned = inv.base_aligned;
    chunks = λ i x h. IsChunk_keep k freed i x refl (keep i) (inv.chunks i x h);
    distinct = inv.distinct;
    exclusive = inv.exclusive;
    owned = λ i pg lt e. keep i pg (inv.owned i pg lt e);
  }

-- A block that no pool owns goes back to the page allocator, and the invariant holds.
pub kfree_block :
    (k : Heap) (live : ℕ → List ℕ) (order idx : ℕ)
    → Inv k live
    → IsAllocated k.buddy.total_pages k.buddy.frames Nowhere order idx
    → k.page_pool_idx idx ≡ negsuc 0
    → let k' = kfree (k.buddy.base + idx * page_size) k in
      Inv k' live × Freed k.buddy.total_pages k.buddy.frames k'.buddy.frames order idx
kfree_block k live order idx inv a own =
    rw (finds_block k live order idx inv a own)
      (freed-Inv k live order idx inv a own, (released k live order idx inv a own).1)
