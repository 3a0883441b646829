-- ===== src/Buddy.antt =====
-- The page allocator, kernel/src/buddy.c and kernel/include/buddy.h. Output to the UART is left
-- out. The globals are a record: `frame` is `frame_array`, and `free_list k` lists the page frames
-- whose embedded `list_head` hangs in `free_list[k]`, first one first.
pub mod Order
pub mod Fill
pub mod Inv
pub mod Steps
pub mod Search
pub mod Alloc
pub mod Api
pub mod Merge
pub mod Free
pub mod Fit
pub mod Build
pub mod Reserve
use osc.Common.{
  ℕ, zero, suc, ◌+◌, ◌-◌, ◌*◌, ◌/◌, ◌%◌, ◌^◌, Bool, true, false, ◌&&◌, ◌||◌, not, List, [], ◌∷◌,
  Option, none, some, ltb, leb, ◌==◌, if◌then◌else◌, u64, update,
}
use osc.Common.Int.{ℤ, pos, negsuc, eqb}
use osc.Common.In.{remove}

abbrev pub page_size : ℕ
page_size = 4096

abbrev pub max_order : ℕ
max_order = 16

-- FRAME_FREE_PART is -1 and FRAME_RESERVED is -2.
abbrev pub frame_free_part : ℤ
frame_free_part = negsuc 0

abbrev pub frame_reserved : ℤ
frame_reserved = negsuc 1

-- `(1 << 30) | (idx << 8) | order`: below 2 ^ 22 frames and for an order below 256 the three parts
-- share no bit, so `|` is `+`.
abbrev pub alloc_tag : ℕ → ℕ → ℤ
alloc_tag idx order = pos (2 ^ 30 + idx * 2 ^ 8 + order)

-- `val & 0xFF`, also of a negative `int`.
abbrev pub get_alloc_order : ℤ → ℕ
get_alloc_order (pos n) = n % 256
get_alloc_order (negsuc n) = 255 - n % 256

-- `frame_array` and `free_list`.
pub record Frames : Type 0 where
  pub frame : ℕ → ℤ
  pub free_list : ℕ → List ℕ

-- All the globals: `g_buddy_base`, `g_buddy_end`, `g_total_pages` and the two above.
pub record Buddy : Type 0 where
  pub base : ℕ
  pub limit : ℕ
  pub total_pages : ℕ
  pub frames : Frames

abbrev pub idx_to_addr : ℕ → ℕ → ℕ
idx_to_addr base idx = u64 (base + idx * page_size)

abbrev pub addr_to_idx : ℕ → ℕ → ℕ
addr_to_idx base addr = u64 (addr + 2 ^ 64 - base) / page_size

-- `while (block < pages) { block <<= 1; order++; }`
unfoldable pub order_loop : ℕ → ℕ → ℕ → ℕ → ℕ
order_loop zero block order pages = order
order_loop (suc fuel) block order pages =
    let rest = order_loop fuel (u64 (block * 2)) (order + 1) pages in
    if ltb block pages then rest else order

unfoldable pub pages_to_order : ℕ → ℕ
pages_to_order pages = order_loop 64 1 0 pages

-- `for (i = start; i < start + n; i++) frame_array[i] = v;`
unfoldable pub fill : ℕ → ℕ → ℤ → (ℕ → ℤ) → ℕ → ℤ
fill zero start v f = f
fill (suc n) start v f = fill n (start + 1) v (update f start v)

unfoldable pub block_push : ℕ → ℕ → Frames → Frames
block_push idx order s = record {
  frame = fill (2 ^ order - 1) (idx + 1) frame_free_part (update s.frame idx (pos order));
  free_list = update s.free_list order (idx ∷ s.free_list order);
}

-- `list_del` unlinks the node from whichever list holds it; `order` is only logged.
unfoldable pub block_pop : ℕ → Frames → Frames
block_pop idx s = record s { free_list = λ k. remove idx (s.free_list k) }

unfoldable pub buddy_init : ℕ → ℕ → ℕ → (ℕ → ℤ) → Buddy
buddy_init base size frame_count ext_frame_array = record {
  base = base;
  limit = u64 (base + size);
  total_pages = frame_count;
  frames = record {
    frame = fill frame_count 0 frame_free_part ext_frame_array;
    free_list = λ _. [];
  };
}

-- `x & ~(PAGE_SIZE - 1)`
abbrev pub page_down : ℕ → ℕ
page_down x = x - x % page_size

-- `(x + PAGE_SIZE - 1) & ~(PAGE_SIZE - 1)`
abbrev pub page_up : ℕ → ℕ
page_up x = page_down (u64 (x + (page_size - 1)))

abbrev pub clamp_low : ℕ → ℕ → ℕ
clamp_low lo x = if ltb x lo then lo else x

abbrev pub clamp_high : ℕ → ℕ → ℕ
clamp_high hi x = if ltb hi x then hi else x

unfoldable pub reserve_frames : ℕ → ℕ → Frames → Frames
reserve_frames first last s = record s { frame = fill (last - first) first frame_reserved s.frame }

unfoldable pub buddy_reserve : ℕ → ℕ → Buddy → Buddy
buddy_reserve start end_addr b =
    let s = clamp_low b.base (page_down start) in
    let e = clamp_high b.limit (page_up end_addr) in
    if leb e s
    then b
    else record b { frames = reserve_frames (addr_to_idx b.base s) (addr_to_idx b.base e) b.frames }

-- The scan `for (k = 0; k < block; k++)` for a reserved page; the list of rounds left is `n`.
unfoldable pub clean : ℕ → ℕ → (ℕ → ℤ) → Bool
clean zero i f = true
clean (suc n) i f = let rest = clean n (i + 1) f in if eqb (f i) frame_reserved then false else rest

-- `while (order > 0)`: the largest order that is aligned, fits and holds no reserved page.
unfoldable pub fit_order : ℕ → ℕ → ℕ → (ℕ → ℤ) → ℕ
fit_order zero idx total f = 0
fit_order (suc k) idx total f =
    let block = 2 ^ suc k in
    let rest = fit_order k idx total f in
    if not (idx % block == 0) || ltb total (idx + block)
    then rest
    else if clean block idx f
    then suc k
    else rest

-- `while (idx < g_total_pages)`; every round moves on by a page at least.
unfoldable pub build_loop : ℕ → ℕ → ℕ → Frames → Frames
build_loop zero idx total s = s
build_loop (suc fuel) idx total s =
    let order = fit_order max_order idx total s.frame in
    let skip = build_loop fuel (idx + 1) total s in
    let push = build_loop fuel (idx + 2 ^ order) total (block_push idx order s) in
    if leb total idx then s else if eqb (s.frame idx) frame_reserved then skip else push

unfoldable pub buddy_build_free_lists : Buddy → Buddy
buddy_build_free_lists b = record b {
  frames = build_loop (suc b.total_pages) 0 b.total_pages b.frames;
}

-- `while (current_order <= MAX_ORDER && list_empty(&free_list[current_order])) current_order++;`
-- The result is the order and the first block there; `n` orders are left to look at.
unfoldable pub first_nonempty : ℕ → ℕ → (ℕ → List ℕ) → Option (ℕ × ℕ)
first_nonempty zero k lists = none
first_nonempty (suc n) k lists = elim (lists k) [
  | [] ↦ first_nonempty n (k + 1) lists
  | idx ∷ _ ↦ some (k, idx)
]

-- `while (current_order > target_order)`, with `current_order = target_order + n`.
unfoldable pub split_loop : ℕ → ℕ → ℕ → Frames → Frames
split_loop zero target idx s = s
split_loop (suc n) target idx s =
    split_loop n target idx (block_push (idx + 2 ^ (target + n)) (target + n) s)

-- `for (i = 0; i < alloc_pages; i++) frame_array[idx + i] = ALLOC_TAG(idx, target_order);`
unfoldable pub mark : ℕ → ℕ → Frames → Frames
mark target idx s = record s { frame = fill (2 ^ target) idx (alloc_tag idx target) s.frame }

unfoldable pub take_block : ℕ → ℕ → ℕ → Frames → Frames
take_block target current idx s =
    mark target idx (split_loop (current - target) target idx (block_pop idx s))

-- A null pointer is 0. `pages_needed` is `(size + PAGE_SIZE - 1) / PAGE_SIZE`, which may wrap.
abbrev pub pages_needed : ℕ → ℕ
pages_needed size = u64 (size + (page_size - 1)) / page_size

unfoldable pub buddy_alloc : ℕ → Buddy → ℕ × Buddy
buddy_alloc size b =
    if size == 0
    then (0, b)
    else let target = pages_to_order (pages_needed size) in
      if ltb max_order target
      then (0, b)
      else elim (first_nonempty (max_order + 1 - target) target b.frames.free_list) [
        | none ↦ (0, b)
        | some (current, idx) ↦
            (idx_to_addr b.base idx, record b { frames = take_block target current idx b.frames })
      ]

-- `x ^ (1UL << k)`
unfoldable pub flip_bit : ℕ → ℕ → ℕ
flip_bit x k = if x / 2 ^ k % 2 == 0 then x + 2 ^ k else x - 2 ^ k

-- `while (cur_order < MAX_ORDER)`, with `n = MAX_ORDER - cur_order` rounds left at most.
unfoldable pub coalesce : ℕ → ℕ → ℕ → ℕ → Frames → ℕ × ℕ × Frames
coalesce zero total idx order s = (idx, order, s)
coalesce (suc n) total idx order s =
    let buddy = flip_bit idx order in
    let rest =
      coalesce n total (if ltb buddy idx then buddy else idx) (order + 1) (block_pop buddy s) in
    if leb total buddy
    then (idx, order, s)
    else if eqb (s.frame buddy) frame_reserved
    then (idx, order, s)
    else if not (eqb (s.frame buddy) (pos order))
    then (idx, order, s)
    else rest

-- What `buddy_free` does once the pointer has passed its guards.
unfoldable pub free_block : ℕ → ℕ → Frames → Frames
free_block total idx s =
    let order = get_alloc_order (s.frame idx) in
    let cleared = record s { frame = fill (2 ^ order) idx frame_free_part s.frame } in
    let (cur_idx, cur_order, merged) = coalesce (max_order - order) total idx order cleared in
    block_push cur_idx cur_order merged

unfoldable pub buddy_free : ℕ → Buddy → Buddy
buddy_free ptr b =
    let idx = addr_to_idx b.base ptr in
    if ptr == 0
    then b
    else if ltb ptr b.base || leb b.limit ptr
    then b
    else if eqb (b.frames.frame idx) frame_reserved
    then b
    else record b { frames = free_block b.total_pages idx b.frames }
