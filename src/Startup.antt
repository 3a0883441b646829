-- ===== src/Startup.antt =====
-- The startup allocator in the second half of kernel/src/buddy.c: it hands out memory for the
-- metadata before the page allocator runs. Output to the UART is left out.
pub mod Sort
pub mod Scan
pub mod Alloc
use osc.Common.{
  ℕ, zero, suc, ◌+◌, ◌-◌, ◌≤◌, Bool, List, [], ◌∷◌, ◌++◌, Option, none, some, ltb, leb, ◌==◌,
  if◌then◌else◌, u64, length,
}
use osc.Buddy.{Buddy, page_down, page_up, clamp_low, clamp_high, buddy_reserve}

-- An element of `g_sa_reserves`: start and end.
abbrev pub Region : Type 0
Region = ℕ × ℕ

-- `g_sa_reserves[0 .. g_sa_reserve_count)`, `g_sa_mem_base` and `g_sa_mem_end`.
pub record Startup : Type 0 where
  pub reserves : List Region
  pub mem_base : ℕ
  pub mem_end : ℕ

abbrev pub max_reserves : ℕ
max_reserves = 16

-- The inner loop of `sa_sort_reserves`: the key moves down the sorted prefix past every element
-- that starts later. The prefix is given from its end.
unfoldable pub insert_back : Region → List Region → List Region
insert_back k [] = k ∷ []
insert_back k (r ∷ rs) = if ltb k.0 r.0 then r ∷ insert_back k rs else k ∷ r ∷ rs

-- The outer loop: the prefix, given from its end, and the elements still to insert.
unfoldable pub sort_loop : List Region → List Region → List Region
sort_loop prefix [] = prefix
sort_loop prefix (k ∷ ks) = sort_loop (insert_back k prefix) ks

-- A list given from its end, put in front of another.
unfoldable pub unwind : List Region → List Region → List Region
unwind [] acc = acc
unwind (r ∷ rs) acc = unwind rs (r ∷ acc)

unfoldable pub sa_sort_reserves : List Region → List Region
sa_sort_reserves rs = unwind (sort_loop [] rs) []

-- `sa_find_first_free` from `cursor` on; 0 if there is no gap.
unfoldable pub scan : ℕ → ℕ → ℕ → List Region → ℕ
scan size mem_end cursor [] =
    let c = page_up cursor in if leb (u64 (c + size)) mem_end then c else 0
scan size mem_end cursor ((start, end_addr) ∷ rs) =
    let c = page_up cursor in
    let rest = scan size mem_end end_addr rs in if leb (u64 (c + size)) start then c else rest

unfoldable pub sa_find_first_free : ℕ → Startup → ℕ
sa_find_first_free size s = scan size s.mem_end s.mem_base s.reserves

unfoldable pub buddy_startup_init : ℕ → ℕ → Startup
buddy_startup_init mem_base mem_size = record {
  reserves = [];
  mem_base = mem_base;
  mem_end = u64 (mem_base + mem_size);
}

unfoldable pub buddy_startup_reserve : ℕ → ℕ → Startup → Startup
buddy_startup_reserve start end_addr s =
    let lo = clamp_low s.mem_base (page_down start) in
    let hi = clamp_high s.mem_end (page_up end_addr) in
    if leb max_reserves (length s.reserves)
    then s
    else if leb hi lo
    then s
    else record s { reserves = s.reserves ++ ((lo, hi) ∷ []) }

-- The pointer, 0 for null, and the new state. `none` is a write past the end of `g_sa_reserves`:
-- this function does not look at the count.
unfoldable pub buddy_startup_alloc : ℕ → Startup → Option (ℕ × Startup)
buddy_startup_alloc size s =
    let bytes = page_up size in
    let sorted = record s { reserves = sa_sort_reserves s.reserves } in
    let ret = sa_find_first_free bytes sorted in
    if ret == 0
    then some (0, sorted)
    else if leb max_reserves (length s.reserves)
    then none
    else some (ret, record sorted { reserves = sorted.reserves ++ ((ret, u64 (ret + bytes)) ∷ []) })

-- `buddy_startup_replay_reserves`
unfoldable pub replay : List Region → Buddy → Buddy
replay [] b = b
replay ((start, end_addr) ∷ rs) b = replay rs (buddy_reserve start end_addr b)
