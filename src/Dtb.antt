-- ===== src/Dtb.antt =====
-- The flattened device tree, kernel/src/dtb.c: the cells of the blob, names, tokens, and the loop over
-- the structure block that `_dtb_getprop`, `dtb_get_memory_region` and `dtb_walk_reserved_memory` share.
-- Memory is a function from addresses to bytes; `limit` bounds the length of a node's name.
pub mod Path
pub mod Walk
pub mod Getprop
pub mod Ancestors
pub mod Tree
pub mod Lookup
pub mod Blob
pub mod Memory
pub mod Entries
pub mod Reserved
pub mod Cells
pub mod Names
pub mod Total
pub mod Regions
use osc.Common.{
  ℕ, zero, suc, ◌+◌, ◌*◌, ◌/◌, ◌%◌, ◌^◌, Bool, true, false, ◌||◌, List, [], ◌∷◌, Option, none, some,
  ◌==◌, ltb, if◌then◌else◌, u64,
}

unfoldable pub bswap_32 : ℕ → ℕ
bswap_32 x =
    x / 2 ^ 24 % 256 + x / 2 ^ 16 % 256 * 2 ^ 8 + x / 2 ^ 8 % 256 * 2 ^ 16 + x % 256 * 2 ^ 24

unfoldable pub align_32 : ℕ → ℕ
align_32 addr = u64 (addr + 3) / 4 * 4

-- `*(uint32_t *)a` on a little-endian machine
unfoldable pub load_32 : (ℕ → ℕ) → ℕ → ℕ
load_32 mem a = mem a + mem (a + 1) * 2 ^ 8 + mem (a + 2) * 2 ^ 16 + mem (a + 3) * 2 ^ 24

unfoldable pub cell : (ℕ → ℕ) → ℕ → ℕ
cell mem a = bswap_32 (load_32 mem a)

-- Two cells, the upper one first.
unfoldable pub cells_64 : (ℕ → ℕ) → ℕ → ℕ
cells_64 mem a = cell mem a * 2 ^ 32 + cell mem (a + 4)

abbrev pub fdt_header_magic : ℕ
fdt_header_magic = 3490578157

-- The fields that the code reads, in the order of the machine.
pub record FdtHeader : Type 0 where
  pub magic : ℕ
  pub totalsize : ℕ
  pub off_dt_struct : ℕ
  pub off_dt_strings : ℕ
  pub size_dt_struct : ℕ

unfoldable pub read_header : (ℕ → ℕ) → ℕ → FdtHeader
read_header mem addr = record {
  magic = cell mem addr;
  totalsize = cell mem (addr + 4);
  off_dt_struct = cell mem (addr + 8);
  off_dt_strings = cell mem (addr + 12);
  size_dt_struct = cell mem (addr + 36);
}

-- Whether a name ends at this byte: at its zero or at the `@` of its unit address.
abbrev pub name_end : ℕ → Bool
name_end c = c == 0 || c == 64

unfoldable pub node_name_match : (ℕ → ℕ) → ℕ → List ℕ → Bool
node_name_match mem node_name [] = name_end (mem node_name)
node_name_match mem node_name (c ∷ seg) =
    let rest = node_name_match mem (node_name + 1) seg in
    if name_end (mem node_name) then false else if mem node_name == c then rest else false

-- `while (*a || *b)`, the comparison of a property's name with `b`
unfoldable pub name_eq : (ℕ → ℕ) → ℕ → List ℕ → Bool
name_eq mem a [] = mem a == 0
name_eq mem a (c ∷ b) = let rest = name_eq mem (a + 1) b in if mem a == c then rest else false

-- `while (*cur) ++cur; ++cur;`
unfoldable pub skip_name : (ℕ → ℕ) → ℕ → ℕ → Option ℕ
skip_name mem zero cur = none
skip_name mem (suc n) cur =
    let rest = skip_name mem n (cur + 1) in if mem cur == 0 then some (cur + 1) else rest

-- `begin_node` holds the address of the name, `prop` the length, the address of the name and that of
-- the value; `fdt_end` stands for FDT_END and for every unknown token, which end the loops alike.
pub data Token : Type 0 where
  begin_node : ℕ → Token
  end_node : Token
  prop : ℕ → ℕ → ℕ → Token
  nop : Token
  fdt_end : Token

unfoldable pub read_prop : (ℕ → ℕ) → ℕ → ℕ → Token × ℕ
read_prop mem dt_strings cur =
    let len = cell mem cur in
    (prop len (dt_strings + cell mem (cur + 4)) (cur + 8), align_32 (cur + 8 + len))

-- The token at `cur` and where the next one starts.
unfoldable pub read_token : (ℕ → ℕ) → ℕ → ℕ → ℕ → Option (Token × ℕ)
read_token mem dt_strings limit cur =
    let token = cell mem cur in
    if token == 1
    then elim (skip_name mem limit (cur + 4)) [
      | none ↦ none
      | some next ↦ some (begin_node (cur + 4), align_32 next)
    ]
    else if token == 2
    then some (end_node, cur + 4)
    else if token == 3
    then some (read_prop mem dt_strings (cur + 4))
    else if token == 4
    then some (nop, cur + 4)
    else some (fdt_end, cur + 4)

-- What the body of a loop does with a token: it goes on, returns a value, or leaves the loop.
pub data Step (S R : Type 0) : Type 0 where
  go : S → Step S R
  return : R → Step S R
  break : S → Step S R

-- `unfinished`: the fuel or the limit on names has run out.
pub data Outcome (S R : Type 0) : Type 0 where
  found : R → Outcome S R
  ended : S → Outcome S R
  unfinished : Outcome S R

abbrev pub outcome : {S R : Type 0} → Step S R → (S → Outcome S R) → Outcome S R
outcome (go s) more = more s
outcome (return r) more = found r
outcome (break s) more = ended s

pub record Block : Type 0 where
  pub mem : ℕ → ℕ
  pub dt_strings : ℕ
  pub struct_end : ℕ
  pub limit : ℕ

-- `while (cur < struct_end)`
unfoldable pub walk : {S R : Type 0} → Block → (S → Token → Step S R) → ℕ → ℕ → S → Outcome S R
walk b step zero cur s = unfinished
walk b step (suc n) cur s =
    if ltb cur b.struct_end
    then elim (read_token b.mem b.dt_strings b.limit cur) [
      | none ↦ unfinished
      | some (t, next) ↦ outcome (step s t) (walk b step n next)
    ]
    else ended s
