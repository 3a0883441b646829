-- ===== src/Startup/Alloc.antt =====
-- `buddy_startup_alloc` and `buddy_startup_reserve` over separate regions.
use osc.Common.{ℕ, ◌+◌, ◌*◌, ◌^◌, ◌≤◌, ◌<◌, ◌≡◌, refl, arith, [], ◌∷◌, ◌++◌, some, u64}
use osc.Common.All.{All, All-append}
use osc.Buddy.{page_size, page_up}
use osc.Startup.{Startup, sa_sort_reserves, scan, sa_find_first_free, buddy_startup_alloc}
use osc.Startup.Sort.{
  Disjoint, IsRegion, Separate, sa_sort_reserves-Chain, All-sa_sort_reserves, Chain-IsRegion,
  Chain-Separate, Separate-append,
}
use osc.Startup.Scan.{IsGap, scan_lem}

-- The registered regions are separate and lie in the memory, which does not reach the end of the
-- address space.
pub record IsTidy (s : Startup) : Type 0 where
  pub order : s.mem_base ≤ s.mem_end
  pub regions : All (IsRegion s.mem_base s.mem_end) s.reserves
  pub separate : Separate s.reserves

inversion :
    (size : ℕ) (s : Startup) {p : ℕ} {s' : Startup}
    → 0 < p
    → buddy_startup_alloc size s ≡ some (p, s')
    → let sorted = sa_sort_reserves s.reserves in
      let ret = scan (page_up size) s.mem_end s.mem_base sorted in
      (p ≡ ret) × (s' ≡ record s { reserves = sorted ++ ((ret, u64 (ret + page_up size)) ∷ []) })
unfolding buddy_startup_alloc sa_find_first_free
inversion size s pos e = ground arith

-- A pointer that is not null starts a page-aligned gap of the memory that meets no registered region and
-- no earlier allocation; the allocation is registered, and the regions are separate again.
pub buddy_startup_alloc_lem :
    (size : ℕ) (s : Startup) {p : ℕ} {s' : Startup}
    → IsTidy s
    → 0 < size
    → s.mem_end + size + 2 * page_size < 2 ^ 64
    → 0 < p
    → buddy_startup_alloc size s ≡ some (p, s')
    → (size ≤ page_up size)
      × IsGap s.mem_base s.mem_end (page_up size) p s.reserves
      × (s'.reserves ≡ sa_sort_reserves s.reserves ++ ((p, p + page_up size) ∷ []))
      × IsTidy s'
buddy_startup_alloc_lem size s {p} {s'} t pos small some_ptr e =
    let lo = s.mem_base in
    let hi = s.mem_end in
    let sorted = sa_sort_reserves s.reserves in
    let ret = scan (page_up size) hi lo sorted in
    let (is_ret, state) = inversion size s {p = p} {s' = s'} some_ptr e in
    let chain = sa_sort_reserves-Chain lo hi s.reserves t.order t.regions t.separate in
    let gap = scan_lem (page_up size) hi lo sorted (omega arith) t.order chain (omega arith) in
    let exact : u64 (ret + page_up size) ≡ ret + page_up size = omega (arith, gap.below) in
    let filled : 0 < page_up size = omega arith in
    rw (state, is_ret, exact)
      (
        omega arith,
        record {
          aligned = gap.aligned;
          above = gap.above;
          below = gap.below;
          free = All-sa_sort_reserves (Disjoint (ret, ret + page_up size)) s.reserves gap.free;
        },
        refl,
        record {
          order = t.order;
          regions =
              All-append (IsRegion lo hi) sorted ((ret, ret + page_up size) ∷ [])
                (Chain-IsRegion lo hi sorted chain) (omega (arith, gap.above, gap.below), tt);
          separate =
              Separate-append sorted (ret, ret + page_up size) gap.free
                (Chain-Separate lo hi sorted chain);
        },
      )
