-- ===== src/Tests/Pages.antt =====
-- The page allocator of kernel/src/buddy.c on a region of four pages, the last of them reserved.
use osc.Common.{ℕ, ◌+◌, ◌-◌, ◌*◌, ◌^◌, ◌≤◌, ◌<◌, inl, ◌≡◌, ◌⊎◌, refl, arith, [], ◌∷◌}
use osc.Common.In.{In}
use osc.Common.Int.{pos}
use osc.Buddy.{
  Buddy, page_size, frame_reserved, frame_free_part, buddy_init, reserve_frames, buddy_reserve,
  clean, fit_order, build_loop, buddy_build_free_lists, fill, block_push, block_pop, order_loop,
  pages_to_order, first_nonempty, split_loop, mark, take_block, buddy_alloc, flip_bit, coalesce,
  free_block, buddy_free,
}
use osc.Buddy.Inv.{Nowhere, IsAllocated, IsValid}
use osc.Buddy.Alloc.{IsFreeFrame}
use osc.Buddy.Api.{
  Given, buddy_alloc-IsValid, buddy_alloc_block, buddy_alloc-Given, buddy_alloc_wraps,
}
use osc.Buddy.Free.{Freed, buddy_free_lem}
use osc.Buddy.Build.{IsRaw, buddy_build_free_lists_lem}
use osc.Buddy.Reserve.{Overlaps, Apart, buddy_reserve_exact, buddy_init-IsRaw, buddy_reserve-IsRaw}

abbrev pub fresh : Buddy
fresh = buddy_init 65536 16384 4 (λ _. pos 7)

abbrev pub raw : Buddy
raw = buddy_reserve 77824 81920 fresh

abbrev pub built : Buddy
built = buddy_build_free_lists raw

fresh-IsRaw : IsRaw fresh
fresh-IsRaw =
    buddy_init-IsRaw 65536 16384 4 (λ _. pos 7) (omega arith) (omega arith) (omega arith)
      (omega arith)

raw-IsRaw : IsRaw raw
raw-IsRaw = buddy_reserve-IsRaw 77824 81920 fresh fresh-IsRaw

pub built-IsValid : IsValid built
built-IsValid = (buddy_build_free_lists_lem raw raw-IsRaw).0

-- Pages 0 and 1 are a block of order 1, and page 2 one of order 0.
built_lists : (built.frames.free_list 1 ≡ 0 ∷ []) × (built.frames.free_list 0 ≡ 2 ∷ [])
unfolding buddy_init reserve_frames buddy_reserve clean fit_order build_loop buddy_build_free_lists
    fill block_push
built_lists = (refl, refl)

-- 5000 bytes take two pages.
alloc_address : (buddy_alloc 5000 built).0 ≡ 65536
unfolding buddy_init reserve_frames buddy_reserve clean fit_order build_loop buddy_build_free_lists
    fill block_push block_pop order_loop pages_to_order first_nonempty split_loop mark take_block
    buddy_alloc
alloc_address = refl

-- There are no three pages in a row.
alloc_refused : (buddy_alloc 12000 built).0 ≡ 0
unfolding buddy_init reserve_frames buddy_reserve clean fit_order build_loop buddy_build_free_lists
    fill block_push block_pop order_loop pages_to_order first_nonempty split_loop mark take_block
    buddy_alloc
alloc_refused = refl

-- A single page is split off the larger block when the single one is gone.
alloc_split : (buddy_alloc 4096 (buddy_alloc 1 built).1).0 ≡ 65536
unfolding buddy_init reserve_frames buddy_reserve clean fit_order build_loop buddy_build_free_lists
    fill block_push block_pop order_loop pages_to_order first_nonempty split_loop mark take_block
    buddy_alloc
alloc_split = refl

-- Freed again, the block is free as it was.
free_merges : (buddy_free 65536 (buddy_alloc 5000 built).1).frames.free_list 1 ≡ 0 ∷ []
unfolding buddy_init reserve_frames buddy_reserve clean fit_order build_loop buddy_build_free_lists
    fill block_push block_pop order_loop pages_to_order first_nonempty split_loop mark take_block
    buddy_alloc flip_bit coalesce free_block buddy_free
free_merges = refl

wrap_address : (buddy_alloc 18446744073709551615 built).0 ≡ 73728
unfolding buddy_init reserve_frames buddy_reserve clean fit_order build_loop buddy_build_free_lists
    fill block_push block_pop order_loop pages_to_order first_nonempty split_loop mark take_block
    buddy_alloc
wrap_address = refl

buddy_build_free_lists_example :
    IsValid built
    × ((i : ℕ)
        → i < raw.total_pages
        → ((raw.frames.frame i ≡ frame_reserved) × (built.frames.frame i ≡ frame_reserved))
          ⊎ ((raw.frames.frame i ≡ frame_free_part) × IsFreeFrame (built.frames.frame i)))
buddy_build_free_lists_example = buddy_build_free_lists_lem raw raw-IsRaw

fresh_sizes : (fresh.base ≡ 65536) × (fresh.total_pages ≡ 4) × (fresh.limit ≡ 81920)
unfolding buddy_init
fresh_sizes = (refl, refl, refl)

-- Page 3 is reserved: frame 3 of `raw` says so.
buddy_reserve_exact_example :
    (Overlaps fresh.base 77824 81920 3 × (raw.frames.frame 3 ≡ frame_reserved))
    ⊎ (Apart fresh.base 77824 81920 3 × (raw.frames.frame 3 ≡ fresh.frames.frame 3))
unfolding buddy_init
buddy_reserve_exact_example =
    buddy_reserve_exact 77824 81920 fresh 3 (omega arith) (omega arith) (omega arith) (omega arith)
      (omega arith) (omega arith)

buddy_alloc-IsValid_example : IsValid (buddy_alloc 5000 built).1
buddy_alloc-IsValid_example = buddy_alloc-IsValid built 5000 built-IsValid

alloc_positive : 0 < (buddy_alloc 5000 built).0
alloc_positive = rw alloc_address (omega arith)

-- A block of order `o` at page `i` for a request on the region of the tests.
abbrev GivenTo : ℕ → ℕ → ℕ → Type 0
GivenTo size o i = Given built size (buddy_alloc size built).0 (buddy_alloc size built).1 o i

abbrev block : (o : ℕ) × (i : ℕ) × GivenTo 5000 o i
block = buddy_alloc-Given built 5000 built-IsValid alloc_positive

buddy_alloc_block_example :
    (o : ℕ) × (i : ℕ) × (5000 ≤ 2 ^ o * page_size)
    × ((o ≡ 0) ⊎ (2 ^ (o - 1) * page_size < 5000))
    × GivenTo 5000 o i
buddy_alloc_block_example = buddy_alloc_block built 5000 built-IsValid (omega arith) alloc_positive

-- Page 2 is a free block of order 0.
page_free : In 2 (built.frames.free_list 0)
unfolding buddy_init reserve_frames buddy_reserve clean fit_order build_loop buddy_build_free_lists
    fill block_push block_pop
page_free = inl refl

buddy_alloc_wraps_example :
    (idx : ℕ) × (0 < (buddy_alloc 18446744073709551615 built).0)
    × ((buddy_alloc 18446744073709551615 built).0 ≡ built.base + idx * page_size)
    × IsAllocated built.total_pages (buddy_alloc 18446744073709551615 built).1.frames Nowhere 0 idx
    × (page_size < 18446744073709551615)
buddy_alloc_wraps_example =
    buddy_alloc_wraps built 18446744073709551615 0 2 built-IsValid (omega arith) (omega arith)
      (omega arith) page_free

abbrev after : Buddy
after = (buddy_alloc 5000 built).1

after-IsAllocated : IsAllocated after.total_pages after.frames Nowhere block.0 block.1
after-IsAllocated = rw block.2.region.2 block.2.allocated

buddy_free_example :
    IsValid (buddy_free (after.base + block.1 * page_size) after)
    × Freed after.total_pages after.frames
        (buddy_free (after.base + block.1 * page_size) after).frames
        block.0
        block.1
buddy_free_example =
    buddy_free_lem after block.0 block.1 (buddy_alloc-IsValid built 5000 built-IsValid)
      after-IsAllocated
