-- ===== src/Tests/Reserves.antt =====
-- The startup allocator of kernel/src/buddy.c on a small memory.
use osc.Common.{◌+◌, ◌≤◌, ◌≡◌, inr, refl, arith, List, [], ◌∷◌, ◌++◌, some}
use osc.Buddy.{page_up}
use osc.Startup.{
  Region, Startup, insert_back, sort_loop, unwind, sa_sort_reserves, scan, sa_find_first_free,
  buddy_startup_alloc,
}
use osc.Startup.Sort.{Disjoint}
use osc.Startup.Scan.{IsGap, scan_nested}
use osc.Startup.Alloc.{IsTidy, buddy_startup_alloc_lem}

abbrev one : List Region
one = (8192, 12288) ∷ []

-- The first page is free, and the gap is large enough for one page only.
scan_small : scan 4096 65536 4096 one ≡ 4096
unfolding scan
scan_small = refl

scan_next : scan 8192 65536 4096 one ≡ 12288
unfolding scan
scan_next = refl

scan_nested_example :
    (scan 4096 65536 4096 ((4096, 20480) ∷ (8192, 12288) ∷ []) ≡ 12288)
    × ¬ Disjoint
        (
          scan 4096 65536 4096 ((4096, 20480) ∷ (8192, 12288) ∷ []),
          scan 4096 65536 4096 ((4096, 20480) ∷ (8192, 12288) ∷ []) + 4096,
        )
        (4096, 20480)
scan_nested_example =
    scan_nested 4096 65536 4096 (4096, 20480) (8192, 12288) (omega arith) (omega arith)
      (omega arith, omega arith) (omega arith, omega arith, omega arith, omega arith)
      (omega arith, omega arith)

abbrev memory : Startup
memory = record { reserves = (16384, 20480) ∷ (8192, 12288) ∷ []; mem_base = 4096; mem_end = 65536 }

abbrev memory' : Startup
memory' = record memory { reserves = (8192, 12288) ∷ (16384, 20480) ∷ (20480, 28672) ∷ [] }

memory-IsTidy : IsTidy memory
memory-IsTidy = record {
  order = omega arith;
  regions =
      ((omega arith, omega arith, omega arith), ((omega arith, omega arith, omega arith), tt));
  separate = ((inr (omega arith), tt), (tt, tt));
}

alloc_run : buddy_startup_alloc 5000 memory ≡ some (20480, memory')
unfolding insert_back sort_loop unwind sa_sort_reserves scan sa_find_first_free buddy_startup_alloc
alloc_run = refl

buddy_startup_alloc_example :
    (5000 ≤ page_up 5000)
    × IsGap memory.mem_base memory.mem_end (page_up 5000) 20480 memory.reserves
    × (memory'.reserves ≡ sa_sort_reserves memory.reserves ++ ((20480, 20480 + page_up 5000) ∷ []))
    × IsTidy memory'
buddy_startup_alloc_example =
    buddy_startup_alloc_lem 5000 memory {p = 20480} {s' = memory'} memory-IsTidy (omega arith)
      (omega arith) (omega arith) alloc_run
