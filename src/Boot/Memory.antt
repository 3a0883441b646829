-- ===== src/Boot/Memory.antt =====
-- The memory map of the device tree through the allocators: what `main` of kernel/src/main.c has set
-- up before it installs the trap vector.
use osc.Common.{
  ℕ, ◌+◌, ◌<◌, ◌≡◌, inl, inr, refl, ap, sym, arith, List, [], ◌∷◌, ◌++◌, ◌∙◌, some, ◌==◌, ltb, ◌&&◌,
  not, if◌then◌else◌, u64, length, Bool-cases,
}
use osc.Common.Strings.{codes}
use osc.Startup.{Region, Startup, buddy_startup_reserve}
use osc.Dtb.Path.{path_of}
use osc.Dtb.Getprop.{dtb_getprop, dtb_get_totalsize}
use osc.Dtb.Tree.{Node, tokens}
use osc.Dtb.Lookup.{lookup_prop}
use osc.Dtb.Blob.{Holds, found_value, dtb_getprop_lem}
use osc.Dtb.Entries.{reserved_regions}
use osc.Dtb.Reserved.{reported, dtb_walk_reserved_memory_lem}
use osc.Boot.{chosen_path, reserve_calls, initrd_range, reserve_initrd, reserve_regions}
use osc.Boot.Regions.{reserve_all}

-- The ranges of /chosen and of /reserved-memory in a tree.
abbrev pub initrd_of : (ℕ → ℕ) → Node → Region
initrd_of mem tree = (
  found_value mem (lookup_prop mem (codes "linux,initrd-start") (codes "chosen") 1 tree),
  found_value mem (lookup_prop mem (codes "linux,initrd-end") (codes "chosen") 1 tree),
)

abbrev pub initrd_requests : Region → List Region
initrd_requests (initrd_start, initrd_end) =
    if not (initrd_start == 0) && ltb initrd_start initrd_end
    then (initrd_start, initrd_end) ∷ []
    else []

abbrev pub call_requests : List Region → List Region
call_requests [] = []
call_requests ((base, size) ∷ rs) = (base, u64 (base + size)) ∷ call_requests rs

-- The blob, the kernel, the initial ramdisk if there is one, and the reserved memory of the tree.
abbrev pub requests : (ℕ → ℕ) → ℕ → Node → Region → List Region
requests mem dtb tree kernel =
    (dtb, u64 (dtb + dtb_get_totalsize mem dtb))
    ∷ kernel
    ∷ (initrd_requests (initrd_of mem tree) ++ call_requests (reported (reserved_regions mem tree)))

reserve_all-append :
    (rs qs : List Region) (s : Startup)
    → reserve_all (rs ++ qs) s ≡ reserve_all qs (reserve_all rs s)
unfolding reserve_all
reserve_all-append [] qs s = refl
reserve_all-append (r ∷ rs) qs s = reserve_all-append rs qs (buddy_startup_reserve r.0 r.1 s)

reserve_calls-reserve_all :
    (rs : List Region) (s : Startup) → reserve_calls rs s ≡ reserve_all (call_requests rs) s
unfolding reserve_calls reserve_all
reserve_calls-reserve_all [] s = refl
reserve_calls-reserve_all ((base, size) ∷ rs) s =
    reserve_calls-reserve_all rs (buddy_startup_reserve base (u64 (base + size)) s)

reserve_initrd-reserve_all :
    (r : Region) (s : Startup) → reserve_initrd r s ≡ reserve_all (initrd_requests r) s
unfolding reserve_all
reserve_initrd-reserve_all r s = elim (Bool-cases (not (r.0 == 0) && ltb r.0 r.1)) [
  | inl e ↦ rw e refl
  | inr e ↦ rw e refl
]

module _ (mem : ℕ → ℕ) (dtb limit fuel : ℕ) (tree : Node) (holds : Holds mem dtb limit tree)
    (enough : length (tokens tree) < fuel) where
  chosen :
      (prop_name : List ℕ)
      → dtb_getprop mem dtb limit fuel chosen_path prop_name
        ≡ some (found_value mem (lookup_prop mem prop_name (codes "chosen") 1 tree))
  unfolding path_of
  chosen prop_name =
      dtb_getprop_lem mem dtb limit fuel tree holds enough [] (codes "chosen") prop_name
        (omega arith)

  initrd_range_lem : initrd_range mem dtb limit fuel ≡ some (initrd_of mem tree)
  unfolding initrd_range
  initrd_range_lem =
      rw (chosen (codes "linux,initrd-start"), initrd_range, chosen (codes "linux,initrd-end")) refl

  -- Step 5 registers the requests, in their order.
  pub reserve_regions_lem :
      (kernel : Region) (s : Startup)
      → reserve_regions mem dtb limit fuel kernel s
        ≡ some (reserve_all (requests mem dtb tree kernel) s)
  unfolding reserve_regions reserve_all
  reserve_regions_lem kernel s =
      let calls = reported (reserved_regions mem tree) in
      let s₂ =
        buddy_startup_reserve kernel.0 kernel.1
          (buddy_startup_reserve dtb (u64 (dtb + dtb_get_totalsize mem dtb)) s) in
      rw
        (
          initrd_range_lem,
          reserve_regions,
          dtb_walk_reserved_memory_lem mem dtb limit fuel tree holds enough,
        )
        (ap some (
          reserve_calls-reserve_all calls (reserve_initrd (initrd_of mem tree) s₂)
          ∙ ap (reserve_all (call_requests calls))
              (reserve_initrd-reserve_all (initrd_of mem tree) s₂)
          ∙ sym
              (reserve_all-append (initrd_requests (initrd_of mem tree)) (call_requests calls) s₂)))
