-- ===== src/Dtb/Getprop.antt =====
-- The lookup of a property: _dtb_getprop, dtb_getprop and dtb_get_totalsize of kernel/src/dtb.c.
use osc.Common.{
  ℕ, zero, suc, ◌+◌, Bool, true, false, List, [], ◌∷◌, Option, none, some, ◌==◌, ltb, leb,
  if◌then◌else◌,
}
use osc.Common.Int.{ℤ, pos, negsuc, eqb, inc, dec}
use osc.Dtb.{
  cell, cells_64, fdt_header_magic, FdtHeader, read_header, node_name_match, name_eq, Token,
  begin_node, end_node, prop, nop, fdt_end, Step, go, return, break, Outcome, found, ended,
  unfinished, Block, walk,
}
use osc.Dtb.Path.{path_segment, path_depth}

-- The first 63 bytes of the component, as `seg_buf` holds them.
unfoldable pub seg_buf : ℕ → List ℕ → List ℕ
seg_buf zero seg = []
seg_buf (suc n) [] = []
seg_buf (suc n) (c ∷ seg) = c ∷ seg_buf n seg

pub record Search : Type 0 where
  pub current_depth : ℤ
  pub matched_depth : ℤ

-- `n < 0`
abbrev pub is_negative : ℤ → Bool
is_negative (pos n) = false
is_negative (negsuc n) = true

module _ (mem : ℕ → ℕ) where
  -- Whether the name matches the component of the path for this depth.
  unfoldable pub segment_match : Option (List ℕ) → ℕ → Bool
  segment_match none node_name = false
  segment_match (some seg) node_name = node_name_match mem node_name (seg_buf 63 seg)

  -- The new `matched_depth`, in a node that has just been entered.
  unfoldable pub match_node : List ℕ → ℤ → ℤ → ℕ → ℤ
  match_node node_path depth matched node_name =
      if is_negative matched
      then if eqb depth (pos 0)
        then if eqb (path_depth node_path) (pos 0) then pos 0 else matched
        else if segment_match (path_segment node_path (dec depth)) node_name
        then if eqb depth (path_depth node_path) then depth else matched
        else matched
      else matched

  unfoldable pub getprop_step : List ℕ → List ℕ → Search → Token → Step Search (ℕ × ℕ)
  getprop_step node_path prop_name s (begin_node node_name) =
      let depth = inc s.current_depth in
      go (record {
        current_depth = depth;
        matched_depth = match_node node_path depth s.matched_depth node_name;
      })
  getprop_step node_path prop_name s end_node = go (record {
    current_depth = dec s.current_depth;
    matched_depth = if eqb s.matched_depth s.current_depth then negsuc 0 else s.matched_depth;
  })
  getprop_step node_path prop_name s (prop len name value) =
      if is_negative s.matched_depth
      then go s
      else if name_eq mem name prop_name
      then return (value, len)
      else go s
  getprop_step node_path prop_name s nop = go s
  getprop_step node_path prop_name s fdt_end = break s

abbrev pub no_node : Search
no_node = record { current_depth = negsuc 0; matched_depth = negsuc 0 }

unfoldable pub dt_block : (ℕ → ℕ) → ℕ → ℕ → Block
dt_block mem dtb limit =
    let header = read_header mem dtb in
    record {
      mem = mem;
      dt_strings = dtb + header.off_dt_strings;
      struct_end = dtb + header.off_dt_struct + header.size_dt_struct;
      limit = limit;
    }

unfoldable pub dt_struct : (ℕ → ℕ) → ℕ → ℕ
dt_struct mem dtb = dtb + FdtHeader.off_dt_struct (read_header mem dtb)

-- The address and the length of the value; `ended` stands for the null pointer.
unfoldable pub raw_getprop : (ℕ → ℕ) → ℕ → ℕ → ℕ → List ℕ → List ℕ → Outcome Search (ℕ × ℕ)
raw_getprop mem dtb limit fuel node_path prop_name =
    if dtb == 0
    then ended no_node
    else if FdtHeader.magic (read_header mem dtb) == fdt_header_magic
    then walk (dt_block mem dtb limit) (getprop_step mem node_path prop_name) fuel
        (dt_struct mem dtb) no_node
    else ended no_node

-- `len` is read as an `int`: a length of 2 ^ 31 or more is negative.
unfoldable pub prop_value : (ℕ → ℕ) → ℕ → ℕ → ℕ
prop_value mem value len =
    if leb 2147483648 len
    then 0
    else if ltb len 4
    then 0
    else if leb 8 len
    then cells_64 mem value
    else cell mem value

-- `none`: the fuel or the limit on names has run out.
abbrev pub value_of : (ℕ → ℕ) → Outcome Search (ℕ × ℕ) → Option ℕ
value_of mem (found r) = some (prop_value mem r.0 r.1)
value_of mem (ended s) = some 0
value_of mem unfinished = none

unfoldable pub dtb_getprop : (ℕ → ℕ) → ℕ → ℕ → ℕ → List ℕ → List ℕ → Option ℕ
dtb_getprop mem dtb limit fuel path prop_name =
    value_of mem (raw_getprop mem dtb limit fuel path prop_name)

unfoldable pub dtb_get_totalsize : (ℕ → ℕ) → ℕ → ℕ
dtb_get_totalsize mem dtb =
    let h = read_header mem dtb in
    if dtb == 0 then 0 else if h.magic == fdt_header_magic then h.totalsize else 0
