-- ===== src/Kmalloc/Pools.antt =====
-- `find_pool`: the smallest pool whose chunks hold the size.
use osc.Common.{ℕ, zero, suc, ◌-◌, ◌≤◌, ◌<◌, ◌*◌, ◌/◌, ◌≡◌, ◌⊎◌, ◌↔◌, arith, none, some}
use osc.Buddy.{page_size}
use osc.Kmalloc.{num_pools, chunk_size, find_from, find_pool}

-- The pool found holds the size, and the next smaller pool does not.
pub find_pool-some :
    (size i : ℕ)
    → find_pool size ≡ some i
    → (i < num_pools) × (size ≤ chunk_size i) × ((i ≡ 0) ⊎ (chunk_size (i - 1) < size))
unfolding find_pool find_from
find_pool-some size i h = ground arith

-- No smaller pool holds the size.
pub find_pool-least : (size i j : ℕ) → find_pool size ≡ some i → j < i → chunk_size j < size
unfolding find_pool find_from
find_pool-least size i j h lt = ground arith

-- No pool is found exactly for the sizes above 2048.
pub find_pool-none : (size : ℕ) → (find_pool size ≡ none) ↔ (2048 < size)
unfolding find_pool find_from
find_pool-none size = ground arith

-- The chunk sizes divide a page.
pub chunk_size_table :
    (i : ℕ)
    → i < num_pools
    → (16 ≤ chunk_size i)
      × (0 < page_size / chunk_size i)
      × (page_size / chunk_size i * chunk_size i ≡ page_size)
chunk_size_table zero h = omega arith
chunk_size_table (suc zero) h = omega arith
chunk_size_table (suc (suc zero)) h = omega arith
chunk_size_table (suc (suc (suc zero))) h = omega arith
chunk_size_table (suc (suc (suc (suc zero)))) h = omega arith
chunk_size_table (suc (suc (suc (suc (suc zero))))) h = omega arith
chunk_size_table (suc (suc (suc (suc (suc (suc zero)))))) h = omega arith
chunk_size_table (suc (suc (suc (suc (suc (suc (suc zero))))))) h = omega arith
chunk_size_table (suc (suc (suc (suc (suc (suc (suc (suc n)))))))) h = absurd (omega arith)
