-- ===== src/Boot.antt =====
-- Steps 3 to 10 of `main` in kernel/src/main.c: the memory map of the device tree, the startup
-- allocator and the allocators behind it. Output to the UART is left out.
pub mod Regions
pub mod Metadata
pub mod Pages
pub mod Memory
pub mod Ready
use osc.Common.{
  ℕ, ◌+◌, ◌*◌, ◌/◌, ◌&&◌, ◌||◌, not, List, [], ◌∷◌, Option, none, some, ◌==◌, ltb, if◌then◌else◌,
  u64,
}
use osc.Common.Int.{ℤ}
use osc.Common.Strings.{codes}
use osc.Buddy.{page_size, buddy_init, buddy_build_free_lists}
use osc.Startup.{
  Region, Startup, buddy_startup_init, buddy_startup_reserve, buddy_startup_alloc, replay,
}
use osc.Kmalloc.{Heap, kmalloc_init}
use osc.Dtb.{Outcome, found, ended, unfinished}
use osc.Dtb.Getprop.{dtb_getprop, dtb_get_totalsize}
use osc.Dtb.Regions.{dtb_get_memory_region, dtb_walk_reserved_memory}
use osc.Dtb.Reserved.{calls_of}

-- No memory node; a walk of the device tree that has not ended; a write past the end of
-- `g_sa_reserves`; an array of metadata at the null pointer, which `main` does not look for; and the
-- addresses of the two arrays with the allocators.
pub data Setup : Type 0 where
  fatal : Setup
  not_ended : Setup
  overrun : Setup
  no_metadata : Setup
  ready : ℕ → ℕ → Heap → Setup

abbrev pub chosen_path : List ℕ
chosen_path = codes "/chosen"

-- The calls of `reserve_startup_region`.
unfoldable pub reserve_calls : List Region → Startup → Startup
reserve_calls [] s = s
reserve_calls ((base, size) ∷ rs) s =
    reserve_calls rs (buddy_startup_reserve base (u64 (base + size)) s)

unfoldable pub initrd_range : (ℕ → ℕ) → ℕ → ℕ → ℕ → Option Region
initrd_range mem dtb limit fuel =
    elim (dtb_getprop mem dtb limit fuel chosen_path (codes "linux,initrd-start")) [
      | none ↦ none
      | some initrd_start ↦
          elim (dtb_getprop mem dtb limit fuel chosen_path (codes "linux,initrd-end")) [
            | none ↦ none
            | some initrd_end ↦ some (initrd_start, initrd_end)
          ]
    ]

abbrev pub reserve_initrd : Region → Startup → Startup
reserve_initrd (initrd_start, initrd_end) s =
    if not (initrd_start == 0) && ltb initrd_start initrd_end
    then buddy_startup_reserve initrd_start initrd_end s
    else s

-- Step 5; `kernel` is what the linker script says of the kernel's image.
unfoldable pub reserve_regions : (ℕ → ℕ) → ℕ → ℕ → ℕ → Region → Startup → Option Startup
reserve_regions mem dtb limit fuel kernel s =
    let s₁ = buddy_startup_reserve dtb (u64 (dtb + dtb_get_totalsize mem dtb)) s in
    let s₂ = buddy_startup_reserve kernel.0 kernel.1 s₁ in
    elim (initrd_range mem dtb limit fuel) [
      | none ↦ none
      | some initrd ↦ elim (calls_of (dtb_walk_reserved_memory mem dtb limit fuel)) [
        | none ↦ none
        | some calls ↦ some (reserve_calls calls (reserve_initrd initrd s₂))
      ]
    ]

-- Steps 7 to 10; `ext` and `ext'` are what the two arrays hold.
unfoldable pub start_allocators : Region → (ℕ → ℤ) → (ℕ → ℤ) → Startup → Heap
start_allocators (mem_base, mem_size) ext ext' s =
    let total_pages = mem_size / page_size in
    let b = replay s.reserves (buddy_init mem_base mem_size total_pages ext) in
    kmalloc_init (buddy_build_free_lists b) total_pages ext'

-- Step 6 and what follows.
unfoldable pub allocate_metadata : Region → (ℕ → ℤ) → (ℕ → ℤ) → Startup → Setup
allocate_metadata memory ext ext' s =
    let total_pages = memory.1 / page_size in
    elim (buddy_startup_alloc (total_pages * 4) s) [
      | none ↦ overrun
      | some (frame_array, s₁) ↦ elim (buddy_startup_alloc total_pages s₁) [
        | none ↦ overrun
        | some (page_pool_idx, s₂) ↦
            if frame_array == 0 || page_pool_idx == 0
            then no_metadata
            else ready frame_array page_pool_idx (start_allocators memory ext ext' s₂)
      ]
    ]

unfoldable pub memory_setup : (ℕ → ℕ) → ℕ → ℕ → ℕ → Region → (ℕ → ℤ) → (ℕ → ℤ) → Setup
memory_setup mem dtb limit fuel kernel ext ext' = elim (dtb_get_memory_region mem dtb limit fuel) [
  | found memory ↦
      elim (reserve_regions mem dtb limit fuel kernel (buddy_startup_init memory.0 memory.1)) [
        | none ↦ not_ended
        | some s ↦ allocate_metadata memory ext ext' s
      ]
  | ended s ↦ fatal
  | unfinished ↦ not_ended
]
