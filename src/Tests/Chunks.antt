-- ===== src/Tests/Chunks.antt =====
-- The chunk allocator of kernel/src/kmalloc.c on the region of `Tests.Pages`.
use osc.Common.{ℕ, ◌%◌, ◌≤◌, ◌<◌, ◌≡◌, inl, refl, arith, List, [], ◌∷◌, some, update}
use osc.Common.Int.{pos, negsuc}
use osc.Common.In.{In, remove}
use osc.Buddy.{
  page_size, buddy_init, reserve_frames, buddy_reserve, clean, fit_order, build_loop,
  buddy_build_free_lists, fill, block_push, block_pop, order_loop, pages_to_order, first_nonempty,
  split_loop, mark, take_block, buddy_alloc,
}
use osc.Buddy.Inv.{IsAllocated, Nowhere}
use osc.Kmalloc.{
  Heap, num_pools, chunk_size, find_from, find_pool, kmalloc_init, slice, kmalloc_large, refill,
  pop_chunk, kmalloc_small, kmalloc, kfree,
}
use osc.Kmalloc.Inv.{Inv}
use osc.Kmalloc.Init.{kmalloc_init-Inv}
use osc.Kmalloc.Small.{
  out_of_memory, chunk, SmallOutcome, kmalloc_small-found, kmalloc_small_request,
}
use osc.Kmalloc.Large.{refused, block, kmalloc_large_request}
use osc.Kmalloc.Release.{kfree_chunk}
use osc.Tests.Pages.{built, built-IsValid}

abbrev pub heap : Heap
heap = kmalloc_init built built.total_pages (λ _. pos 7)

abbrev none_live : ℕ → List ℕ
none_live _ = []

built_aligned : built.base % page_size ≡ 0
unfolding buddy_init reserve_frames buddy_reserve clean fit_order build_loop buddy_build_free_lists
    fill block_push
built_aligned = refl

heap-Inv : Inv heap none_live
heap-Inv = kmalloc_init-Inv built (λ _. pos 7) built-IsValid built_aligned

pool_of_100 : find_pool 100 ≡ some 3
unfolding find_pool find_from
pool_of_100 = refl

-- The last chunk of page 2 comes first.
small_address : (kmalloc 100 heap).0 ≡ 77696
unfolding buddy_init reserve_frames buddy_reserve clean fit_order build_loop buddy_build_free_lists
    fill block_push block_pop order_loop pages_to_order first_nonempty split_loop mark take_block
    buddy_alloc find_from find_pool kmalloc_init slice refill pop_chunk kmalloc_small kmalloc
small_address = refl

kmalloc_small_request_example :
    (i : ℕ) × (i < num_pools)
    × (100 ≤ chunk_size i)
    × ((j : ℕ) → j < i → chunk_size j < 100)
    × SmallOutcome none_live i (kmalloc 100 heap).0 (kmalloc 100 heap).1
kmalloc_small_request_example =
    kmalloc_small_request heap none_live 100 heap-Inv (omega arith) (omega arith)

abbrev ptr : ℕ
ptr = (kmalloc 100 heap).0

abbrev used : Heap
used = (kmalloc 100 heap).1

abbrev one_live : ℕ → List ℕ
one_live = update none_live 3 (ptr ∷ [])

used-Inv : Inv used one_live
used-Inv = elim (kmalloc_small-found heap none_live 100 3 heap-Inv (omega arith) pool_of_100) [
  | out_of_memory e i ↦ absurd (omega (arith, e, small_address))
  | chunk p c n i ↦ i
]

held : In ptr (one_live 3)
held = inl refl

kfree_chunk_example :
    ((kfree ptr used).pools ≡ update used.pools 3 (ptr ∷ used.pools 3))
    × Inv (kfree ptr used) (update one_live 3 (remove ptr (one_live 3)))
kfree_chunk_example = kfree_chunk used one_live used-Inv 3 ptr held

next_free : In 77568 (used.pools 3)
unfolding buddy_init reserve_frames buddy_reserve clean fit_order build_loop buddy_build_free_lists
    fill block_push block_pop order_loop pages_to_order first_nonempty split_loop mark take_block
    buddy_alloc find_from find_pool kmalloc_init slice refill pop_chunk kmalloc_small kmalloc
next_free = inl refl

large_address : (kmalloc 5000 heap).0 ≡ 65536
unfolding buddy_init reserve_frames buddy_reserve clean fit_order build_loop buddy_build_free_lists
    fill block_push block_pop order_loop pages_to_order first_nonempty split_loop mark take_block
    buddy_alloc find_from find_pool kmalloc_init kmalloc_large kmalloc
large_address = refl

abbrev large : Heap
large = (kmalloc 5000 heap).1

large_block :
    (o : ℕ) × (i : ℕ) × IsAllocated large.buddy.total_pages large.buddy.frames Nowhere o i
    × (large.page_pool_idx i ≡ negsuc 0)
    × Inv large none_live
large_block =
    elim (kmalloc_large_request heap none_live heap-Inv 5000 (omega arith) (omega arith)) [
      | refused e s ↦ absurd (omega (arith, e, large_address))
      | block o i p g s n v ↦ (o, i, rw g.region.2 g.allocated, n, v)
    ]
