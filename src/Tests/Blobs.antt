-- ===== src/Tests/Blobs.antt =====
-- A device tree of kernel/src/dtb.c, byte by byte.
use osc.Common.{
  ℕ, ◌+◌, ◌-◌, ◌/◌, ◌%◌, ◌^◌, ◌≤◌, ◌≡◌, ◌≢◌, refl, arith, List, [], ◌∷◌, ◌++◌, none, some, length,
  zero, suc,
}
use osc.Common.Lists.{get_or}
use osc.Common.Strings.{codes}
use osc.Dtb.{
  bswap_32, align_32, load_32, cell, cells_64, read_header, FdtHeader, node_name_match, name_eq,
  skip_name, read_prop, read_token, found, unfinished,
}
use osc.Dtb.Path.{path_of}
use osc.Dtb.Getprop.{seg_buf, dt_block, dt_struct, raw_getprop, dtb_getprop}
use osc.Dtb.Regions.{read_region, dtb_get_memory_region, dtb_walk_reserved_memory}
use osc.Dtb.Ancestors.{raw_getprop-ancestors}
use osc.Dtb.Tree.{NodeProp, Node, node, no_nodes, add, tokens, all_tokens}
use osc.Dtb.Lookup.{lookup_prop, lookup_prop_of, any_prop, any_prop_of, own_prop}
use osc.Dtb.Blob.{Holds, raw_getprop_lem}
use osc.Dtb.Memory.{memory_region, memory_of, own_region, dtb_get_memory_region_lem}
use osc.Dtb.Entries.{reserved_regions, reserved_of, entries_of, own_entries, regions_from}
use osc.Dtb.Reserved.{calls_of, dtb_walk_reserved_memory_lem}
use osc.Dtb.Total.{NamesEnd, dtb-total}

abbrev be : ℕ → List ℕ
be x = x / 2 ^ 24 % 256 ∷ x / 2 ^ 16 % 256 ∷ x / 2 ^ 8 % 256 ∷ x % 256 ∷ []

-- /memory with a `reg`, /reserved-memory with one child, and /soc/uart with a `reg`.
abbrev bytes : List ℕ
bytes =
    be 3490578157
    ++ (be 216
        ++ (be 40
            ++ (be 212
                ++ (be 0
                    ++ (be 0
                        ++ (be 0
                            ++ (be 0
                                ++ (be 4
                                    ++ (be 172
                                        ++ (be 1
                                            ++ (be 0
                                                ++ (be 1
                                                    ++ (codes "memory"
                                                        ++ ((0 ∷ 0 ∷ [])
                                                            ++ (be 3
                                                            ++ (be 16
                                                            ++ (be 0
                                                            ++ (be 0
                                                            ++ (be 2147483648
                                                            ++ (be 0
                                                            ++ (be 134217728
                                                            ++ (be 2
                                                            ++ (be 1
                                                            ++ (codes "reserved-memory"
                                                            ++ ((0 ∷ [])
                                                            ++ (be 1
                                                            ++ (codes "r"
                                                            ++ ((0 ∷ 0 ∷ 0 ∷ [])
                                                            ++ (be 3
                                                            ++ (be 16
                                                            ++ (be 0
                                                            ++ (be 0
                                                            ++ (be 2147483648
                                                            ++ (be 0
                                                            ++ (be 4096
                                                            ++ (be 2
                                                            ++ (be 2
                                                            ++ (be 1
                                                            ++ (codes "soc"
                                                            ++ ((0 ∷ [])
                                                            ++ (be 1
                                                            ++ (codes "uart"
                                                            ++ (be 0
                                                            ++ (be 3
                                                            ++ (be 8
                                                            ++ (be 0
                                                            ++ (be 0
                                                            ++ (be 268435456
                                                            ++ (be 2
                                                            ++ (be 2
                                                            ++ (be 2
                                                            ++ (be 9 ++ (codes "reg" ++ ((0 ∷ []))))
                                                            ))))))))))))))))))))))))))))))))))))))))
                                                            )))))))))))

abbrev pub memory : ℕ → ℕ
memory a = get_or bytes (a - 4096) 0

abbrev reg : ℕ → ℕ → NodeProp
reg len value = record { len = len; name = 4308; value = value }

abbrev pub tree : Node
tree = node 4140 [] (
    add (node 4148 (reg 16 4168 ∷ []) no_nodes) (
      add (node 4192 [] (add (node 4212 (reg 16 4228 ∷ []) no_nodes) no_nodes))
        (add (node 4256 [] (add (node 4264 (reg 8 4284 ∷ []) no_nodes) no_nodes)) no_nodes)))

magic_ok : FdtHeader.magic (read_header memory 4096) ≡ 3490578157
unfolding read_header cell bswap_32 load_32
magic_ok = refl

pub holds : Holds memory 4096 5000 tree
unfolding read_token read_prop skip_name cell bswap_32 load_32 align_32 read_header dt_block
    dt_struct tokens all_tokens
holds = record {
  present = λ e. omega arith;
  magic = magic_ok;
  behind = 4308;
  reads = (
    4144,
    omega arith,
    refl,
    (
      4156,
      omega arith,
      refl,
      (
        4184,
        omega arith,
        refl,
        (
          4188,
          omega arith,
          refl,
          (
            4208,
            omega arith,
            refl,
            (
              4216,
              omega arith,
              refl,
              (
                4244,
                omega arith,
                refl,
                (
                  4248,
                  omega arith,
                  refl,
                  (
                    4252,
                    omega arith,
                    refl,
                    (
                      4260,
                      omega arith,
                      refl,
                      (
                        4272,
                        omega arith,
                        refl,
                        (
                          4292,
                          omega arith,
                          refl,
                          (
                            4296,
                            omega arith,
                            refl,
                            (
                              4300,
                              omega arith,
                              refl,
                              (4304, omega arith, refl, (4308, omega arith, refl, refl)),
                            ),
                          ),
                        ),
                      ),
                    ),
                  ),
                ),
              ),
            ),
          ),
        ),
      ),
    ),
  );
}

raw_getprop_example :
    raw_getprop memory 4096 5000 30 (path_of (codes "soc" ∷ codes "uart" ∷ [])) (codes "reg")
    ≡ found (4284, 8)
unfolding tokens all_tokens lookup_prop lookup_prop_of any_prop any_prop_of own_prop node_name_match
    name_eq path_of seg_buf
raw_getprop_example =
    raw_getprop_lem memory 4096 5000 30 tree holds (omega arith) (codes "soc" ∷ []) (codes "uart")
      (codes "reg") (omega arith)

-- A lookup of /reserved-memory/uart finds /soc/uart.
raw_getprop-ancestors_example :
    raw_getprop memory 4096 5000 30
      (path_of (codes "reserved-memory" ∷ codes "uart" ∷ []))
      (codes "reg")
    ≡ raw_getprop memory 4096 5000 30 (path_of (codes "soc" ∷ codes "uart" ∷ [])) (codes "reg")
raw_getprop-ancestors_example =
    raw_getprop-ancestors memory 4096 5000 30 (codes "reserved-memory" ∷ []) (codes "soc" ∷ [])
      (codes "uart") (codes "reg") (omega arith) (omega arith) refl

dtb_get_memory_region_example :
    dtb_get_memory_region memory 4096 5000 30 ≡ found (2147483648, 134217728)
unfolding tokens all_tokens memory_region memory_of own_region node_name_match name_eq cells_64 cell
    bswap_32 load_32 read_region
dtb_get_memory_region_example =
    dtb_get_memory_region_lem memory 4096 5000 30 tree holds (omega arith)

dtb_walk_reserved_memory_example :
    calls_of (dtb_walk_reserved_memory memory 4096 5000 30) ≡ some ((2147483648, 4096) ∷ [])
unfolding tokens all_tokens reserved_regions reserved_of entries_of own_entries node_name_match
    name_eq cells_64 cell bswap_32 load_32 regions_from read_region
dtb_walk_reserved_memory_example =
    dtb_walk_reserved_memory_lem memory 4096 5000 30 tree holds (omega arith)

beyond : (xs : List ℕ) (i : ℕ) → length xs ≤ i → get_or xs i 0 ≡ 0
beyond [] i h = refl
beyond (x ∷ xs) zero h = absurd (omega arith)
beyond (x ∷ xs) (suc i) h = beyond xs i (omega arith)

names_end : NamesEnd (dt_block memory 4096 7000)
unfolding dt_block read_header cell bswap_32 load_32
names_end a h = (6000, omega arith, beyond bytes (a + 6000 - 4096) (omega arith))

dtb-total_example :
    (dtb_getprop memory 4096 7000 44 (codes "/soc/uart") (codes "reg") ≢ none)
    × (dtb_get_memory_region memory 4096 7000 44 ≢ unfinished)
    × (dtb_walk_reserved_memory memory 4096 7000 44 ≢ unfinished)
unfolding read_header cell bswap_32 load_32
dtb-total_example =
    dtb-total memory 4096 7000 43 (codes "/soc/uart") (codes "reg") names_end (omega arith)
      (omega arith)
