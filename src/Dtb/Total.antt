-- ===== src/Dtb/Total.antt =====
-- The loops of kernel/src/dtb.c end: every round moves on by the four bytes of a token or more.
use osc.Common.{
  ℕ, zero, suc, ◌+◌, ◌-◌, ◌*◌, ◌^◌, ◌≤◌, ◌<◌, ◌≡◌, ◌≢◌, refl, ap, ◌∙◌, arith, Bool, true, false,
  List, none, some, inl, inr, eq_or_ne, ==_ne, lt_or_le, lt→ltb, le→ltb, if◌then◌else◌,
}
use osc.Dtb.{
  cell, align_32, skip_name, Token, begin_node, end_node, prop, nop, fdt_end, read_prop, read_token,
  Step, go, return, break, Outcome, outcome, found, ended, unfinished, Block, walk, FdtHeader,
  read_header,
}
use osc.Dtb.Cells.{cell-lt, align_32_lem}
use osc.Dtb.Getprop.{
  Search, no_node, dt_block, dt_struct, getprop_step, raw_getprop, value_of, dtb_getprop,
}
use osc.Dtb.Regions.{
  no_memory, not_reserved, memory_step, dtb_get_memory_region, reserved_step,
  dtb_walk_reserved_memory,
}

-- Each address of the block and of the token behind it has a zero byte within the limit.
abbrev pub NamesEnd : Block → Type 0
NamesEnd b = (a : ℕ) → a < b.struct_end + 4 → (z : ℕ) × (z < b.limit) × (b.mem (a + z) ≡ 0)

skip_name-zero :
    (mem : ℕ → ℕ) (n a z : ℕ)
    → z < n
    → mem (a + z) ≡ 0
    → (r : ℕ) × (skip_name mem n a ≡ some r) × (a < r) × (r ≤ a + n)
unfolding skip_name
skip_name-zero mem zero a z h e = absurd (omega arith)
skip_name-zero mem (suc n) a zero h e =
    let e0 : mem a ≡ 0 = ap mem (omega arith) ∙ e in (a + 1, rw e0 refl, omega arith, omega arith)
skip_name-zero mem (suc n) a (suc z) h e = elim (eq_or_ne (mem a) 0) [
  | inl e0 ↦ (a + 1, rw e0 refl, omega arith, omega arith)
  | inr ne ↦
      let r = skip_name-zero mem n (a + 1) z (omega arith) (ap mem (omega arith) ∙ e) in
      (r.0, rw (==_ne (mem a) 0 ne) r.1, omega (arith, r.2), omega (arith, r.3))
]

-- The next token is four bytes away or more.
read_token-next :
    (b : Block) (cur : ℕ)
    → NamesEnd b
    → b.struct_end + b.limit + 2 ^ 33 < 2 ^ 64
    → cur < b.struct_end
    → (t : Token) × (next : ℕ) × (read_token b.mem b.dt_strings b.limit cur ≡ some (t, next))
      × (cur + 4 ≤ next)
unfolding read_token read_prop
read_token-next b cur names bound h =
    let r = names (cur + 4) (omega arith) in
    let s = skip_name-zero b.mem b.limit (cur + 4) r.0 r.1 r.2 in
    let len = cell-lt b.mem (cur + 4) in
    let up = align_32_lem s.0 (omega (arith, s.2, s.3)) in
    let over = align_32_lem (cur + 4 + 8 + cell b.mem (cur + 4)) (omega (arith, len)) in
    elim (eq_or_ne (cell b.mem cur) 1) [
      | inl e ↦ (begin_node (cur + 4), align_32 s.0, rw (e, s.1) refl, omega (arith, s.2, up.0))
      | inr n1 ↦ elim (eq_or_ne (cell b.mem cur) 2) [
        | inl e ↦ (end_node, cur + 4, rw e refl, omega arith)
        | inr n2 ↦ elim (eq_or_ne (cell b.mem cur) 3) [
          | inl e ↦ (
            prop (cell b.mem (cur + 4)) (b.dt_strings + cell b.mem (cur + 4 + 4)) (cur + 4 + 8),
            align_32 (cur + 4 + 8 + cell b.mem (cur + 4)),
            rw e refl,
            omega (arith, over.0),
          )
          | inr n3 ↦ elim (eq_or_ne (cell b.mem cur) 4) [
            | inl e ↦ (nop, cur + 4, rw e refl, omega arith)
            | inr n4 ↦ (
              fdt_end,
              cur + 4,
              rw (==_ne _ 1 n1, ==_ne _ 2 n2, ==_ne _ 3 n3, ==_ne _ 4 n4) refl,
              omega arith,
            )
          ]
        ]
      ]
    ]

outcome-ne-unfinished :
    {S R : Type 0} (m : Step S R) (f : S → Outcome S R)
    → ((s : S) → f s ≢ unfinished)
    → outcome m f ≢ unfinished
outcome-ne-unfinished (go s) f h = h s
outcome-ne-unfinished (return r) f h = λ e. cc
outcome-ne-unfinished (break s) f h = λ e. cc

module _ (b : Block) (names : NamesEnd b) (bound : b.struct_end + b.limit + 2 ^ 33 < 2 ^ 64) where
  -- A quarter of the block's size is enough fuel for the rounds.
  pub walk-ne-unfinished :
      {S R : Type 0} (step : S → Token → Step S R) (n cur : ℕ) (s : S)
      → b.struct_end - cur ≤ 4 * n
      → walk b step (suc n) cur s ≢ unfinished
  unfolding walk
  walk-ne-unfinished step zero cur s h e =
      let e' = rw (le→ltb cur b.struct_end (omega arith)) at e in cc
  walk-ne-unfinished step (suc n) cur s h e = elim (lt_or_le cur b.struct_end) [
    | inr le ↦ let e' = rw (le→ltb cur b.struct_end le) at e in cc
    | inl lt ↦
        let r = read_token-next b cur names bound lt in
        outcome-ne-unfinished (step s r.0) (walk b step (suc n) r.1)
          (λ s'. walk-ne-unfinished step n r.1 s' (omega (arith, r.3)))
          (rw (lt→ltb cur b.struct_end lt, r.2) at e)
  ]

guarded-ne-unfinished :
    {S R : Type 0} (p q : Bool) (s : S) (w : Outcome S R)
    → w ≢ unfinished
    → (if p then ended s else if q then w else ended s) ≢ unfinished
guarded-ne-unfinished true q s w h = λ e. cc
guarded-ne-unfinished false true s w h = h
guarded-ne-unfinished false false s w h = λ e. cc

value_of-ne-none :
    (mem : ℕ → ℕ) (o : Outcome Search (ℕ × ℕ)) → o ≢ unfinished → value_of mem o ≢ none
value_of-ne-none mem (found r) h = λ e. cc
value_of-ne-none mem (ended s) h = λ e. cc
value_of-ne-none mem unfinished h = absurd (h refl)

block-bound :
    (mem : ℕ → ℕ) (dtb limit : ℕ)
    → dtb + limit + 3 * 2 ^ 33 < 2 ^ 64
    → Block.struct_end (dt_block mem dtb limit) + limit + 2 ^ 33 < 2 ^ 64
unfolding dt_block read_header
block-bound mem dtb limit h = omega (arith, cell-lt mem (dtb + 8), cell-lt mem (dtb + 36))

block-size :
    (mem : ℕ → ℕ) (dtb limit n : ℕ)
    → FdtHeader.size_dt_struct (read_header mem dtb) ≤ 4 * n
    → Block.struct_end (dt_block mem dtb limit) - dt_struct mem dtb ≤ 4 * n
unfolding dt_block dt_struct read_header
block-size mem dtb limit n h = omega arith

-- The three searches end on every blob at whose addresses a zero is near enough to end each name
-- and whose blocks lie below the end of the address space, with fuel for a quarter of its
-- structure block and one round more.
pub dtb-total :
    (mem : ℕ → ℕ) (dtb limit n : ℕ) (path prop_name : List ℕ)
    → NamesEnd (dt_block mem dtb limit)
    → dtb + limit + 3 * 2 ^ 33 < 2 ^ 64
    → FdtHeader.size_dt_struct (read_header mem dtb) ≤ 4 * n
    → (dtb_getprop mem dtb limit (suc n) path prop_name ≢ none)
      × (dtb_get_memory_region mem dtb limit (suc n) ≢ unfinished)
      × (dtb_walk_reserved_memory mem dtb limit (suc n) ≢ unfinished)
unfolding dtb_getprop raw_getprop dtb_get_memory_region dtb_walk_reserved_memory dt_block
dtb-total mem dtb limit n path prop_name names bound enough = (
  value_of-ne-none mem (raw_getprop mem dtb limit (suc n) path prop_name)
      (guarded-ne-unfinished _ _ no_node _ (ends (getprop_step mem path prop_name) no_node)),
  guarded-ne-unfinished _ _ no_memory _ (ends (memory_step mem) no_memory),
  guarded-ne-unfinished _ _ not_reserved _ (ends (reserved_step mem) not_reserved),
)
  where
    ends :
        {S R : Type 0} (step : S → Token → Step S R) (s : S)
        → walk (dt_block mem dtb limit) step (suc n) (dt_struct mem dtb) s ≢ unfinished
    ends step s =
        walk-ne-unfinished (dt_block mem dtb limit) names (block-bound mem dtb limit bound) step n
          (dt_struct mem dtb) s (block-size mem dtb limit n enough)
