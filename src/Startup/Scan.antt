-- ===== src/Startup/Scan.antt =====
-- `sa_find_first_free`: the gap found is free.
use osc.Common.{
  ℕ, ◌+◌, ◌%◌, ◌^◌, ◌≤◌, ◌<◌, ◌≡◌, inl, inr, refl, arith, true, false, List, [], ◌∷◌, leb, lt_or_le,
  u64, le→leb, lt→leb,
}
use osc.Common.All.{All, All-map}
use osc.Buddy.{page_size, page_up}
use osc.Startup.{Region, scan}
use osc.Startup.Sort.{Disjoint, Chain, Chain-starts}

-- A gap of `size` bytes at a page boundary.
pub record IsGap (lo hi size p : ℕ) (rs : List Region) : Type 0 where
  pub aligned : p % page_size ≡ 0
  pub above : lo ≤ p
  pub below : p + size ≤ hi
  pub free : All (Disjoint (p, p + size)) rs

-- On a chain of regions the scan returns a gap that meets none of them, or null.
pub scan_lem :
    (size hi cursor : ℕ) (rs : List Region)
    → hi + page_size + size < 2 ^ 64
    → cursor ≤ hi
    → Chain cursor hi rs
    → 0 < scan size hi cursor rs
    → IsGap cursor hi size (scan size hi cursor rs) rs
unfolding scan
scan_lem size hi cursor [] small le c pos = elim (lt_or_le hi (page_up cursor + size)) [
  | inl no_room ↦ absurd (ground arith)
  | inr room ↦
      let fit : leb (u64 (page_up cursor + size)) hi ≡ true = le→leb _ _ (omega arith) in
      rw fit (record { aligned = omega arith; above = omega arith; below = room; free = tt })
]
scan_lem size hi cursor (r ∷ rs) small le c pos = elim (lt_or_le r.0 (page_up cursor + size)) [
  | inl no_room ↦
      let miss : leb (u64 (page_up cursor + size)) r.0 ≡ false = lt→leb _ _ (omega (arith, c.0)) in
      let g = scan_lem size hi r.1 rs small (omega (arith, c.0)) c.1 (rw miss at pos) in
      rw miss (record {
        aligned = g.aligned;
        above = omega (arith, c.0, g.above);
        below = g.below;
        free = (inr g.above, g.free);
      })
  | inr room ↦
      let fit : leb (u64 (page_up cursor + size)) r.0 ≡ true = le→leb _ _ (omega (arith, c.0)) in
      rw fit (record {
        aligned = omega arith;
        above = omega arith;
        below = omega (arith, c.0);
        free = (
          inl room,
          All-map (λ q. r.1 ≤ q.0) (Disjoint (page_up cursor, page_up cursor + size)) rs
              (λ q h. inl (omega (arith, c.0))) (Chain-starts r.1 hi rs c.1),
        );
      })
]

-- A region inside another one: the scan goes back to the end of the inner region, and returns an
-- address inside the outer one.
pub scan_nested :
    (size hi cursor : ℕ) (outer inner : Region)
    → 0 < size
    → hi + page_size + size < 2 ^ 64
    → (cursor ≤ outer.0) × (outer.0 < cursor + size)
    → (outer.0 ≤ inner.0) × (inner.0 < inner.1) × (inner.1 < outer.1) × (outer.1 ≤ hi)
    → (inner.1 % page_size ≡ 0) × (inner.1 + size ≤ hi)
    → let p = scan size hi cursor (outer ∷ inner ∷ []) in
      (p ≡ inner.1) × ¬ Disjoint (p, p + size) outer
unfolding scan
scan_nested size hi cursor outer inner pos small before nested room =
    let miss₁ : leb (u64 (page_up cursor + size)) outer.0 ≡ false = lt→leb _ _ (omega arith) in
    let miss₂ : leb (u64 (page_up outer.1 + size)) inner.0 ≡ false = lt→leb _ _ (omega arith) in
    let fit : leb (u64 (page_up inner.1 + size)) hi ≡ true = le→leb _ _ (omega arith) in
    let at_end : page_up inner.1 ≡ inner.1 = omega arith in
    rw (miss₁, miss₂, fit, at_end) (refl, λ d. omega arith)
