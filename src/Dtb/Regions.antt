-- ===== src/Dtb/Regions.antt =====
-- The memory map that the kernel takes from the device tree: dtb_get_memory_region and
-- dtb_walk_reserved_memory of kernel/src/dtb.c.
use osc.Common.{
  ℕ, zero, suc, ◌+◌, ◌/◌, Bool, false, ◌&&◌, List, [], ◌∷◌, ◌++◌, ◌==◌, ltb, leb, if◌then◌else◌,
}
use osc.Common.Strings.{codes}
use osc.Common.Int.{ℤ, pos, negsuc, eqb, inc, dec}
use osc.Dtb.{
  cells_64, fdt_header_magic, FdtHeader, read_header, node_name_match, name_eq, Token, begin_node,
  end_node, prop, nop, fdt_end, Step, go, return, break, Outcome, ended, walk,
}
use osc.Dtb.Getprop.{dt_block, dt_struct}

abbrev pub memory_name : List ℕ
memory_name = codes "memory"

abbrev pub reg_name : List ℕ
reg_name = codes "reg"

abbrev pub reserved_memory_name : List ℕ
reserved_memory_name = codes "reserved-memory"

-- A base and a size.
abbrev pub Region : Type 0
Region = ℕ × ℕ

pub record MemorySearch : Type 0 where
  pub current_depth : ℤ
  pub in_memory_node : Bool

unfoldable pub read_region : (ℕ → ℕ) → ℕ → Region
read_region mem cur = (cells_64 mem cur, cells_64 mem (cur + 8))

unfoldable pub memory_step : (ℕ → ℕ) → MemorySearch → Token → Step MemorySearch Region
memory_step mem s (begin_node node_name) =
    let depth = inc s.current_depth in
    go (record {
      current_depth = depth;
      in_memory_node =
          if eqb depth (pos 1) then node_name_match mem node_name memory_name else false;
    })
memory_step mem s end_node =
    go (record { current_depth = dec s.current_depth; in_memory_node = false })
memory_step mem s (prop len name value) =
    if s.in_memory_node && name_eq mem name reg_name && leb 16 len
    then return (read_region mem value)
    else go s
memory_step mem s nop = go s
memory_step mem s fdt_end = break s

abbrev pub no_memory : MemorySearch
no_memory = record { current_depth = negsuc 0; in_memory_node = false }

-- The region on `found`, -1 on `ended`.
unfoldable pub dtb_get_memory_region : (ℕ → ℕ) → ℕ → ℕ → ℕ → Outcome MemorySearch Region
dtb_get_memory_region mem dtb limit fuel =
    if dtb == 0
    then ended no_memory
    else if FdtHeader.magic (read_header mem dtb) == fdt_header_magic
    then walk (dt_block mem dtb limit) (memory_step mem) fuel (dt_struct mem dtb) no_memory
    else ended no_memory

-- `state` is 0 before /reserved-memory, 1 in it and 2 behind it; `calls` are those of `cb`.
pub record ReservedWalk : Type 0 where
  pub state : ℕ
  pub current_depth : ℤ
  pub calls : List Region

-- `for (e = 0; e < entries; e++, p += 4)`
unfoldable pub reg_entries : (ℕ → ℕ) → ℕ → ℕ → List Region
reg_entries mem zero p = []
reg_entries mem (suc entries) p =
    let rest = reg_entries mem entries (p + 16) in
    let r = read_region mem p in if ltb 0 r.1 then r ∷ rest else rest

-- The loop's own test, `state < 2`, is met by leaving it as soon as `state` is 2.
unfoldable pub reserved_step : (ℕ → ℕ) → ReservedWalk → Token → Step ReservedWalk (Unit {0})
reserved_step mem s (begin_node node_name) =
    let depth = inc s.current_depth in
    let entered =
      s.state == 0 && eqb depth (pos 1) && node_name_match mem node_name reserved_memory_name in
    go (record s { state = if entered then 1 else s.state; current_depth = depth })
reserved_step mem s end_node =
    if s.state == 1 && eqb s.current_depth (pos 1)
    then break (record s { state = 2; current_depth = dec s.current_depth })
    else go (record s { current_depth = dec s.current_depth })
reserved_step mem s (prop len name value) =
    if s.state == 1 && eqb s.current_depth (pos 2) && name_eq mem name reg_name
    then go (record s { calls = s.calls ++ reg_entries mem (len / 16) value })
    else go s
reserved_step mem s nop = go s
reserved_step mem s fdt_end = break s

abbrev pub not_reserved : ReservedWalk
not_reserved = record { state = 0; current_depth = negsuc 0; calls = [] }

-- What is `found` is nothing: every run that ends does so with the calls made.
unfoldable pub dtb_walk_reserved_memory : (ℕ → ℕ) → ℕ → ℕ → ℕ → Outcome ReservedWalk (Unit {0})
dtb_walk_reserved_memory mem dtb limit fuel =
    if dtb == 0
    then ended not_reserved
    else if FdtHeader.magic (read_header mem dtb) == fdt_header_magic
    then walk (dt_block mem dtb limit) (reserved_step mem) fuel (dt_struct mem dtb) not_reserved
    else ended not_reserved
