-- ===== src/Kmalloc.antt =====
-- The chunk allocator, kernel/src/kmalloc.c and kernel/include/kmalloc.h, on top of the page
-- allocator. A pool's singly linked list of free chunks is the list of their addresses.
pub mod Pools
pub mod Inv
pub mod Init
pub mod Slice
pub mod Refill
pub mod Small
pub mod Large
pub mod Release
pub mod ReleaseBlock
use osc.Common.{
  ℕ, zero, suc, ◌+◌, ◌-◌, ◌*◌, ◌/◌, ◌%◌, ◌^◌, Bool, true, false, List, [], ◌∷◌, Option, none, some,
  ltb, leb, ◌==◌, if◌then◌else◌, u64, update, get_or,
}
use osc.Common.Int.{ℤ, pos, negsuc}
use osc.Buddy.{
  Buddy, page_size, page_down, addr_to_idx, pages_needed, fill, buddy_alloc, buddy_free,
}

abbrev pub num_pools : ℕ
num_pools = 8

abbrev pub pool_sizes : List ℕ
pool_sizes = 16 ∷ 32 ∷ 64 ∷ 128 ∷ 256 ∷ 512 ∷ 1024 ∷ 2048 ∷ []

-- `pools[i].chunk_size`, which `kmalloc_init` sets once.
abbrev pub chunk_size : ℕ → ℕ
chunk_size i = get_or pool_sizes i 0

-- The page allocator below, the free chunks of each pool and `page_pool_idx`.
pub record Heap : Type 0 where
  pub buddy : Buddy
  pub pools : ℕ → List ℕ
  pub page_pool_idx : ℕ → ℤ

-- The loop of `find_pool`; `none` is -1.
unfoldable pub find_from : ℕ → List ℕ → ℕ → Option ℕ
find_from i [] size = none
find_from i (s ∷ sizes) size =
    let rest = find_from (i + 1) sizes size in if leb size s then some i else rest

unfoldable pub find_pool : ℕ → Option ℕ
find_pool size = find_from 0 pool_sizes size

unfoldable pub kmalloc_init : Buddy → ℕ → (ℕ → ℤ) → Heap
kmalloc_init b page_count ext_page_pool_idx = record {
  buddy = b;
  pools = λ _. [];
  page_pool_idx = fill page_count 0 (negsuc 0) ext_page_pool_idx;
}

-- `for (i = 0; i < num_chunks; i++)`: each chunk goes to the front of the list; `n` rounds are left.
unfoldable pub slice : ℕ → ℕ → ℕ → ℕ → List ℕ → List ℕ
slice zero i page chunk_sz list = list
slice (suc n) i page chunk_sz list =
    slice n (i + 1) page chunk_sz (u64 (page + i * chunk_sz) ∷ list)

unfoldable pub kmalloc_large : ℕ → Heap → ℕ × Heap
kmalloc_large size k =
    let (ptr, b) = buddy_alloc size k.buddy in
    let marked = fill (pages_needed size) (addr_to_idx b.base ptr) (negsuc 0) k.page_pool_idx in
    if ptr == 0
    then (0, record k { buddy = b })
    else (ptr, record k { buddy = b; page_pool_idx = marked })

-- A pool with no free chunk takes a page and slices it; the Boolean tells whether there was one.
unfoldable pub refill : ℕ → Heap → Bool × Heap
refill pidx k =
    let (page, b) = buddy_alloc page_size k.buddy in
    let sz = chunk_size pidx in
    if page == 0 then (false, record k { buddy = b }) else (
      true,
      record k {
        buddy = b;
        page_pool_idx = update k.page_pool_idx (addr_to_idx b.base page) (pos pidx);
        pools = update k.pools pidx (slice (page_size / sz) 0 page sz (k.pools pidx));
      },
    )

-- `chunk = pool->free_list; pool->free_list = chunk->next;`
unfoldable pub pop_chunk : ℕ → Heap → ℕ × Heap
pop_chunk pidx k = elim (k.pools pidx) [
  | [] ↦ (0, k)
  | chunk ∷ rest ↦ (chunk, record k { pools = update k.pools pidx rest })
]

abbrev pub is_empty : List ℕ → Bool
is_empty [] = true
is_empty (x ∷ xs) = false

unfoldable pub kmalloc_small : ℕ → Heap → ℕ × Heap
kmalloc_small pidx k =
    let (got, k') = refill pidx k in
    if is_empty (k.pools pidx)
    then (if got then pop_chunk pidx k' else (0, k'))
    else pop_chunk pidx k

unfoldable pub kmalloc : ℕ → Heap → ℕ × Heap
kmalloc size k =
    if size == 0
    then (0, k)
    else elim (find_pool size) [ none ↦ kmalloc_large size k | some pidx ↦ kmalloc_small pidx k ]

abbrev kfree_to : ℕ → ℤ → Heap → Heap
kfree_to ptr (negsuc n) k = record k { buddy = buddy_free ptr k.buddy }
kfree_to ptr (pos pidx) k = record k { pools = update k.pools pidx (ptr ∷ k.pools pidx) }

unfoldable pub kfree : ℕ → Heap → Heap
kfree ptr k =
    if ptr == 0
    then k
    else kfree_to ptr (k.page_pool_idx (addr_to_idx k.buddy.base (page_down ptr))) k
