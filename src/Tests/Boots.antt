-- ===== src/Tests/Boots.antt =====
-- The set-up of the memory of kernel/src/main.c from a device tree.
use osc.Common.{ℕ, inl, inr, ◌+◌, ◌≤◌, ◌<◌, ◌≡◌, refl, arith, List, [], ◌∷◌, length}
use osc.Common.Int.{pos}
use osc.Common.All.{All}
use osc.Dtb.{bswap_32, load_32, cell, cells_64, read_header, node_name_match, name_eq}
use osc.Dtb.Getprop.{seg_buf, dtb_get_totalsize}
use osc.Dtb.Regions.{read_region}
use osc.Dtb.Tree.{tokens, all_tokens}
use osc.Dtb.Lookup.{own_prop, any_prop, any_prop_of, lookup_prop, lookup_prop_of}
use osc.Dtb.Entries.{reserved_regions, reserved_of, entries_of, own_entries, regions_from}
use osc.Dtb.Memory.{memory_region, memory_of, own_region}
use osc.Startup.{Region}
use osc.Boot.{memory_setup}
use osc.Boot.Regions.{Clear, IsRequest}
use osc.Boot.Memory.{requests}
use osc.Boot.Ready.{IsReady, memory_setup_lem}
use osc.Tests.Blobs.{memory, tree, holds}

abbrev kernel : Region
kernel = (2149580800, 2150000000)

the_requests :
    requests memory 4096 tree kernel ≡ (4096, 4312) ∷ kernel ∷ (2147483648, 2147487744) ∷ []
unfolding dtb_get_totalsize read_header cell cells_64 bswap_32 load_32 lookup_prop lookup_prop_of
    any_prop any_prop_of own_prop reserved_regions reserved_of entries_of own_entries regions_from
    read_region node_name_match name_eq seg_buf
the_requests = refl

are_requests : All IsRequest (requests memory 4096 tree kernel)
unfolding dtb_get_totalsize read_header cell cells_64 bswap_32 load_32 lookup_prop lookup_prop_of
    any_prop any_prop_of own_prop reserved_regions reserved_of entries_of own_entries regions_from
    read_region node_name_match name_eq seg_buf
are_requests = omega arith

few_requests : length (requests memory 4096 tree kernel) + 2 ≤ 16
unfolding dtb_get_totalsize read_header cell cells_64 bswap_32 load_32 lookup_prop lookup_prop_of
    any_prop any_prop_of own_prop reserved_regions reserved_of entries_of own_entries regions_from
    read_region node_name_match name_eq seg_buf
few_requests = omega arith

-- The 40 pages behind the first one meet none of the regions.
Clear-of :
    (i : ℕ) (rs : List Region)
    → 1 ≤ i
    → i < 1 + 40
    → rs ≡ (4096, 4312) ∷ kernel ∷ (2147483648, 2147487744) ∷ []
    → All (Clear 2147483648 i) rs
Clear-of i rs lo up e = rw e (inr (omega arith), (inl (omega arith), (inr (omega arith), tt)))

room_behind :
    (i : ℕ) → 1 ≤ i → i < 1 + 40 → All (Clear 2147483648 i) (requests memory 4096 tree kernel)
room_behind i lo up = Clear-of i (requests memory 4096 tree kernel) lo up the_requests

memory_setup_example :
    IsReady
      (2147483648, 134217728)
      (requests memory 4096 tree kernel)
      (memory_setup memory 4096 5000 30 kernel (λ i. pos 7) (λ i. pos 7))
unfolding memory_region memory_of own_region node_name_match name_eq read_region cells_64 cell
    bswap_32 load_32 tokens all_tokens
memory_setup_example =
    memory_setup_lem memory 4096 5000 30 tree kernel 2147483648 134217728 (λ i. pos 7) (λ i. pos 7)
      1 holds (omega arith) refl (omega arith) refl (omega arith) (omega arith) (omega arith)
      are_requests few_requests (omega arith) room_behind
