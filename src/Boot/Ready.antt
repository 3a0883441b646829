-- ===== src/Boot/Ready.antt =====
-- The allocators that `main` of kernel/src/main.c starts, from the device tree on.
use osc.Common.{
  ℕ, suc, ◌-◌, ◌+◌, ◌*◌, ◌/◌, ◌%◌, ◌^◌, ◌≤◌, ◌<◌, ◌≡◌, ◌⊎◌, ◌↔◌, inl, inr, refl, arith, List, [],
  ◌∷◌, ◌∙◌, some, ◌==◌, ==_ne, ◌||◌, if◌then◌else◌, u64, length,
}
use osc.Common.Int.{ℤ}
use osc.Common.All.{All}
use osc.Buddy.{page_size, page_up, frame_reserved}
use osc.Buddy.Alloc.{IsFreeFrame}
use osc.Buddy.Inv.{max_pages}
use osc.Startup.{
  Region, Startup, max_reserves, scan, sa_sort_reserves, buddy_startup_init, buddy_startup_alloc,
}
use osc.Kmalloc.{Heap}
use osc.Kmalloc.Inv.{Inv}
use osc.Dtb.Tree.{Node, tokens}
use osc.Dtb.Blob.{Holds}
use osc.Dtb.Memory.{memory_region, dtb_get_memory_region_lem}
use osc.Boot.{Setup, no_metadata, ready, start_allocators, allocate_metadata, memory_setup}
use osc.Boot.Regions.{Clear, IsRequest, IsFit, reserve_all, reserve_all-IsFit, reserve_all-Clear}
use osc.Boot.Metadata.{IsNull, IsTaken, startup_alloc-IsTaken, startup_alloc-reaches, run-All}
use osc.Boot.Pages.{start_allocators_lem}
use osc.Boot.Memory.{requests, reserve_regions_lem}

-- The allocators hold their invariants with nothing handed out, and exactly the pages that meet one of
-- the regions are reserved.
pub record IsStarted (memory : Region) (regions : List Region) (k : Heap) : Type 0 where
  pub inv : Inv k (λ _. [])
  pub pages :
      (i : ℕ)
      → i < memory.1 / page_size
      → ((k.buddy.frames.frame i ≡ frame_reserved) × (¬ All (Clear memory.0 i) regions))
        ⊎ (IsFreeFrame (k.buddy.frames.frame i) × All (Clear memory.0 i) regions)

-- The two arrays are at addresses that are not null and lie in the memory, and their regions are reserved
-- with the others.
pub record IsReady (memory : Region) (rs : List Region) (t : Setup) : Type 0 where
  pub frame_array : ℕ
  pub page_pool_idx : ℕ
  pub heap : Heap
  pub result : t ≡ ready frame_array page_pool_idx heap
  pub present : (0 < frame_array) × (0 < page_pool_idx)
  pub inside :
      let total = memory.1 / page_size in
      (memory.0 ≤ frame_array)
      × (frame_array + page_up (total * 4) ≤ memory.0 + memory.1)
      × (memory.0 ≤ page_pool_idx)
      × (page_pool_idx + page_up total ≤ memory.0 + memory.1)
  pub started :
      let total = memory.1 / page_size in
      IsStarted memory
        ((page_pool_idx, page_pool_idx + page_up total)
          ∷ (frame_array, frame_array + page_up (total * 4))
          ∷ rs)
        heap

-- The pages that the array of frames and the array of pool indices take for `total` pages.
abbrev pub array_pages : ℕ → ℕ
array_pages total = page_up (total * 4) / page_size + page_up total / page_size

module _ (base size : ℕ) (ext ext' : ℕ → ℤ) (pos : 0 < base) (al : base % page_size ≡ 0)
    (some_page : page_size ≤ size) (top : base + size + size + 2 * page_size < 2 ^ 64)
    (few : size / page_size ≤ max_pages) where
  abbrev total : ℕ
  total = size / page_size

  -- The second allocation, and what follows from the two pointers.
  second_alloc :
      (p : ℕ) (s s₁ : Startup)
      → buddy_startup_alloc (total * 4) s ≡ some (p, s₁)
      → IsFit s₁
      → length s₁.reserves < max_reserves
      → s₁.mem_end ≡ base + size
      → (q : ℕ) × (s₂ : Startup) × (allocate_metadata (base, size) ext ext' s ≡ (
          if p == 0 || q == 0
          then no_metadata
          else ready p q (start_allocators (base, size) ext ext' s₂)))
        × (IsNull total q s₁ s₂ ⊎ IsTaken total q s₁ s₂)
  unfolding allocate_metadata
  second_alloc p s s₁ e fit room ee =
      let next = startup_alloc-IsTaken total s₁ fit room (omega arith) (omega (arith, ee)) in
      (next.0, next.1, rw (e, allocate_metadata, next.2) refl, next.3)

  both_taken :
      (rs : List Region) (s s₁ s₂ : Startup) (p q : ℕ)
      → s.mem_base ≡ base
      → s.mem_end ≡ base + size
      → IsTaken (total * 4) p s s₁
      → IsTaken total q s₁ s₂
      → ((i : ℕ) → i < total → All (Clear base i) s.reserves ↔ All (Clear base i) rs)
      → IsStarted
          (base, size)
          ((q, q + page_up total) ∷ (p, p + page_up (total * 4)) ∷ rs)
          (start_allocators (base, size) ext ext' s₂)
  both_taken rs s s₁ s₂ p q eb ee a c same =
      let r =
        start_allocators_lem base size ext ext' s₂ c.fit (c.base_same ∙ a.base_same ∙ eb)
          (c.end_same ∙ a.end_same ∙ ee) pos al (omega arith) few in
      record {
        inv = r.0;
        pages = λ i lt.
            let first : All (Clear base i) s₁.reserves
                ↔ (All (Clear base i) s.reserves × Clear base i (p, p + page_up (total * 4))) =
              rw eb at a.clear i in
            let second : All (Clear base i) s₂.reserves
                ↔ (All (Clear base i) s₁.reserves × Clear base i (q, q + page_up total)) =
              rw (a.base_same ∙ eb) at c.clear i in
            elim (r.1 i lt) [
              | inl (e, met) ↦
                  inl (e, λ all. met (second.1 (first.1 ((same i lt).1 all.1.1, all.1.0), all.0)))
              | inr (f, clear) ↦
                  let (rest, new) = second.0 clear in
                  let (old, new') = first.0 rest in inr (f, (new, (new', (same i lt).0 old)))
            ];
      }

  -- A run of clear pages with room for both arrays.
  module _ (rs : List Region) (first : ℕ) (inside : first + array_pages total ≤ total)
      (clear : (i : ℕ) → first ≤ i → i < first + array_pages total → All (Clear base i) rs) where
    abbrev first_pages : ℕ
    first_pages = page_up (total * 4) / page_size

    first_reaches :
        (s : Startup)
        → IsFit s
        → s.mem_base ≡ base
        → s.mem_end ≡ base + size
        → ((i : ℕ) → i < total → All (Clear base i) s.reserves ↔ All (Clear base i) rs)
        → let q = scan (page_up (total * 4)) s.mem_end s.mem_base (sa_sort_reserves s.reserves) in
          (0 < q) × (q ≤ base + first * page_size)
    first_reaches s fit eb ee same =
        let n = first_pages - 1 in
        let whole : suc n * page_size ≡ page_up (total * 4) = omega arith in
        startup_alloc-reaches (total * 4) (base + first * page_size) s fit (omega (arith, ee))
          (omega (arith, eb)) (omega (arith, eb)) (omega arith) (omega (arith, ee))
          (rw whole at (
            run-All base first n s.mem_base s.mem_end s.reserves fit.regions
              (λ i lo up. (same i (omega arith)).1 (clear i lo (omega arith)))))

    second_reaches :
        (p : ℕ) (s s₁ : Startup)
        → IsTaken (total * 4) p s s₁
        → p ≤ base + first * page_size
        → s.mem_base ≡ base
        → s.mem_end ≡ base + size
        → ((i : ℕ) → i < total → All (Clear base i) s.reserves ↔ All (Clear base i) rs)
        → let q = scan (page_up total) s₁.mem_end s₁.mem_base (sa_sort_reserves s₁.reserves) in
          0 < q
    second_reaches p s s₁ a le eb ee same =
        let n = page_up total / page_size - 1 in
        let whole : suc n * page_size ≡ page_up total = omega arith in
        (startup_alloc-reaches total (base + (first + first_pages) * page_size) s₁ a.fit
          (omega (arith, a.end_same, ee)) (omega (arith, a.base_same, eb))
          (omega (arith, a.base_same, eb)) (omega arith) (omega (arith, a.end_same, ee))
          (rw whole at (
            run-All base (first + first_pages) n s₁.mem_base s₁.mem_end s₁.reserves a.fit.regions
              (λ i lo up.
                let old : All (Clear base i) s.reserves =
                  (same i (omega arith)).1 (clear i (omega arith) (omega arith)) in
                (rw eb at a.clear i).1 (old, inr (omega arith)))))).0

    -- On regions that leave the pages alone which `rs` leaves alone.
    allocate_metadata_lem :
        (s : Startup)
        → IsFit s
        → s.mem_base ≡ base
        → s.mem_end ≡ base + size
        → length s.reserves + 2 ≤ max_reserves
        → ((i : ℕ) → i < total → All (Clear base i) s.reserves ↔ All (Clear base i) rs)
        → IsReady (base, size) rs (allocate_metadata (base, size) ext ext' s)
    allocate_metadata_lem s fit eb ee room same =
        let (p, s₁, e, cases) =
          startup_alloc-IsTaken (total * 4) s fit (omega arith) (omega arith) (omega (arith, ee)) in
        let reached = first_reaches s fit eb ee same in
        elim cases [
          | inl a ↦ absurd (omega (arith, a.place, a.null, reached.0))
          | inr a ↦
              let (q, s₂, f, cases') =
                second_alloc p s s₁ e a.fit (omega (arith, a.one_more)) (a.end_same ∙ ee) in
              elim cases' [
                | inl c ↦
                    let next =
                      second_reaches p s s₁ a (omega (arith, a.place, reached.1)) eb ee same in
                    absurd (omega (arith, c.place, c.null, next))
                | inr c ↦ record {
                  frame_array = p;
                  page_pool_idx = q;
                  heap = start_allocators (base, size) ext ext' s₂;
                  result = f ∙ (rw (==_ne p 0 a.some_ptr, ==_ne q 0 c.some_ptr) refl);
                  present = (omega (arith, a.some_ptr), omega (arith, c.some_ptr));
                  inside = omega (arith, a.inside, c.inside, eb, ee, a.base_same, a.end_same);
                  started = both_taken rs s s₁ s₂ p q eb ee a c same;
                }
              ]
        ]

-- On a blob that holds a tree, with fuel for its tokens, whose memory node starts at a page
-- boundary above 0, has from one page to 2 ^ 22 pages and is not close to the end of the address
-- space; where the blob, the kernel, the initial ramdisk and the reserved memory of the tree are
-- not empty, do not reach the end of the address space and are no more than 16 regions with the
-- two arrays; and where some run of pages that meet none of these regions is long enough for both
-- arrays: the set-up returns the two arrays, in the memory, and the allocators with their
-- invariants, in which exactly the pages are reserved that meet one of the regions or one of the
-- arrays, and all other pages are free.
pub memory_setup_lem :
    (mem : ℕ → ℕ) (dtb limit fuel : ℕ) (tree : Node) (kernel : Region) (base size : ℕ)
    (ext ext' : ℕ → ℤ) (first : ℕ)
    → Holds mem dtb limit tree
    → length (tokens tree) < fuel
    → memory_region mem tree ≡ some (base, size)
    → 0 < base
    → base % page_size ≡ 0
    → page_size ≤ size
    → base + size + size + 2 * page_size < 2 ^ 64
    → size / page_size ≤ max_pages
    → All IsRequest (requests mem dtb tree kernel)
    → length (requests mem dtb tree kernel) + 2 ≤ max_reserves
    → first + array_pages (size / page_size) ≤ size / page_size
    → ((i : ℕ)
        → first ≤ i
        → i < first + array_pages (size / page_size)
        → All (Clear base i) (requests mem dtb tree kernel))
    → IsReady
        (base, size)
        (requests mem dtb tree kernel)
        (memory_setup mem dtb limit fuel kernel ext ext')
unfolding buddy_startup_init memory_setup allocate_metadata
memory_setup_lem mem dtb limit fuel tree kernel base size ext ext' first holds enough found_memory
      pos al some_page top few ask room inside clear =
    let rs = requests mem dtb tree kernel in
    let s : Startup = record { reserves = []; mem_base = base; mem_end = base + size } in
    let exact : u64 (base + size) ≡ base + size = omega arith in
    let fit : IsFit s = record { order = omega arith; regions = tt } in
    let all = reserve_all-IsFit rs s fit (omega arith) in
    let result : memory_setup mem dtb limit fuel kernel ext ext'
        ≡ allocate_metadata (base, size) ext ext' (reserve_all rs s) =
      rw
        (
          dtb_get_memory_region_lem mem dtb limit fuel tree holds enough,
          found_memory,
          memory_setup,
          reserve_regions_lem mem dtb limit fuel tree holds enough kernel
              (buddy_startup_init base size),
          exact,
        )
        refl in
    rw result (
      allocate_metadata_lem base size ext ext' pos al some_page top few rs first inside clear
        (reserve_all rs s) all.0 all.2 all.3 (omega (arith, all.1))
        (λ i lt.
          let c =
            reserve_all-Clear (size / page_size) i rs s fit (omega arith) al (omega arith)
              (omega arith) ask lt in
          ((λ a. (c.0 a).1), (λ a. c.1 (tt, a)))))
