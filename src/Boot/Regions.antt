-- ===== src/Boot/Regions.antt =====
-- Which pages the regions registered with the startup allocator of kernel/src/buddy.c leave alone.
use osc.Common.{
  ℕ, ◌+◌, ◌*◌, ◌%◌, ◌^◌, ◌≤◌, ◌<◌, ◌≡◌, ◌↔◌, refl, ◌∙◌, arith, List, [], ◌∷◌, ◌++◌, inl, inr,
  lt_or_le, le→leb, lt→leb, length, length-append,
}
use osc.Common.All.{All, All-append}
use osc.Buddy.{page_size, page_down, page_up, clamp_low, clamp_high}
use osc.Buddy.Reserve.{Apart, clamp_low_bounds, clamp_high_bounds}
use osc.Startup.{Region, Startup, max_reserves, buddy_startup_reserve}
use osc.Startup.Sort.{IsRegion}

-- Page `i` shares no byte with the region.
abbrev pub Clear : ℕ → ℕ → Region → Type 0
Clear base i r = Apart base r.0 r.1 i

-- A region that is not empty and does not reach the end of the address space.
abbrev pub IsRequest : Region → Type 0
IsRequest r = (r.0 < r.1) × (r.1 + page_size < 2 ^ 64)

-- The regions registered lie in the memory.
pub record IsFit (s : Startup) : Type 0 where
  pub order : s.mem_base ≤ s.mem_end
  pub regions : All (IsRegion s.mem_base s.mem_end) s.reserves

All-split : (P : Region → Type 0) (xs ys : List Region) → All P (xs ++ ys) → All P xs × All P ys
All-split P [] ys h = (tt, h)
All-split P (x ∷ xs) ys h = let (a, b) = All-split P xs ys h.1 in ((h.0, a), b)

-- A region that `buddy_startup_reserve` is called with, when there is room for one more.
module _ (s : Startup) (r : Region) (fit : IsFit s) (room : length s.reserves < max_reserves) where
  pub reserve-IsFit :
      let s' = buddy_startup_reserve r.0 r.1 s in
      IsFit s'
      × (length s'.reserves ≤ length s.reserves + 1)
      × (s'.mem_base ≡ s.mem_base)
      × (s'.mem_end ≡ s.mem_end)
  unfolding buddy_startup_reserve
  reserve-IsFit =
      let lo = clamp_low s.mem_base (page_down r.0) in
      let hi = clamp_high s.mem_end (page_up r.1) in
      rw (lt→leb max_reserves (length s.reserves) room) (elim (lt_or_le lo hi) [
        | inr none_left ↦ rw (le→leb hi lo none_left) (fit, omega arith, refl, refl)
        | inl some_left ↦ rw (lt→leb hi lo some_left) (
          record {
            order = fit.order;
            regions =
                All-append (IsRegion s.mem_base s.mem_end) s.reserves ((lo, hi) ∷ []) fit.regions
                  (ground arith, tt);
          },
          omega (arith, length-append s.reserves ((lo, hi) ∷ [])),
          refl,
          refl,
        )
      ])

  module _ (total i : ℕ) (al : s.mem_base % page_size ≡ 0)
      (inside : s.mem_base + total * page_size ≤ s.mem_end) (lim : s.mem_end < 2 ^ 64)
      (ask : IsRequest r) (lt : i < total) where
    abbrev lo : ℕ
    lo = clamp_low s.mem_base (page_down r.0)

    abbrev hi : ℕ
    hi = clamp_high s.mem_end (page_up r.1)

    clamped : lo < hi → Clear s.mem_base i (lo, hi) ↔ Clear s.mem_base i r
    clamped h =
        let l = clamp_low_bounds s.mem_base (page_down r.0) in
        let u = clamp_high_bounds s.mem_end (page_up r.1) in
        (
          (λ c. elim c [ inl below ↦ inl (omega (arith, l)) | inr above ↦ inr (omega (arith, u)) ]),
          (λ c. elim c [ inl below ↦ inl (omega (arith, l)) | inr above ↦ inr (omega (arith, u)) ]),
        )

    nothing_left : hi ≤ lo → Clear s.mem_base i r
    nothing_left h =
        let l = clamp_low_bounds s.mem_base (page_down r.0) in
        let u = clamp_high_bounds s.mem_end (page_up r.1) in
        elim (lt_or_le r.0 (s.mem_base + (i + 1) * page_size)) [
          | inr g ↦ inl g
          | inl g ↦ inr (omega (arith, l, u))
        ]

    pub reserve-Clear :
        All (Clear s.mem_base i) (buddy_startup_reserve r.0 r.1 s).reserves
        ↔ (All (Clear s.mem_base i) s.reserves × Clear s.mem_base i r)
    unfolding buddy_startup_reserve
    reserve-Clear = rw (lt→leb max_reserves (length s.reserves) room) (elim (lt_or_le lo hi) [
      | inr none_left ↦ rw (le→leb hi lo none_left) ((λ a. (a, nothing_left none_left)), (λ a. a.0))
      | inl some_left ↦
          let c = clamped some_left in
          rw (lt→leb hi lo some_left) (
            (λ a.
                let (old, new) = All-split (Clear s.mem_base i) s.reserves ((lo, hi) ∷ []) a in
                (old, c.0 new.0)),
            (λ a. All-append (Clear s.mem_base i) s.reserves ((lo, hi) ∷ []) a.0 (c.1 a.1, tt)),
          )
    ])

-- Calls of `buddy_startup_reserve`, one after another.
unfoldable pub reserve_all : List Region → Startup → Startup
reserve_all [] s = s
reserve_all (r ∷ rs) s = reserve_all rs (buddy_startup_reserve r.0 r.1 s)

pub reserve_all-IsFit :
    (rs : List Region) (s : Startup)
    → IsFit s
    → length s.reserves + length rs ≤ max_reserves
    → let s' = reserve_all rs s in
      IsFit s'
      × (length s'.reserves ≤ length s.reserves + length rs)
      × (s'.mem_base ≡ s.mem_base)
      × (s'.mem_end ≡ s.mem_end)
unfolding reserve_all
reserve_all-IsFit [] s fit few = (fit, omega arith, refl, refl)
reserve_all-IsFit (r ∷ rs) s fit few =
    let one = reserve-IsFit s r fit (omega arith) in
    let rest =
      reserve_all-IsFit rs (buddy_startup_reserve r.0 r.1 s) one.0 (omega (arith, one.1)) in
    (rest.0, omega (arith, rest.1, one.1), rest.2 ∙ one.2, rest.3 ∙ one.3)

-- The pages that the registered regions leave alone are those that the calls leave alone.
pub reserve_all-Clear :
    (total i : ℕ) (rs : List Region) (s : Startup)
    → IsFit s
    → length s.reserves + length rs ≤ max_reserves
    → s.mem_base % page_size ≡ 0
    → s.mem_base + total * page_size ≤ s.mem_end
    → s.mem_end < 2 ^ 64
    → All IsRequest rs
    → i < total
    → All (Clear s.mem_base i) (reserve_all rs s).reserves
      ↔ (All (Clear s.mem_base i) s.reserves × All (Clear s.mem_base i) rs)
unfolding reserve_all buddy_startup_reserve
reserve_all-Clear total i [] s fit few al inside lim ask lt = ((λ a. (a, tt)), (λ a. a.0))
reserve_all-Clear total i (r ∷ rs) s fit few al inside lim ask lt =
    let s₁ = buddy_startup_reserve r.0 r.1 s in
    let one = reserve-IsFit s r fit (omega arith) in
    let clear = reserve-Clear s r fit (omega arith) total i al inside lim ask.0 lt in
    let rest =
      reserve_all-Clear total i rs s₁ one.0 (omega (arith, one.1)) (omega (arith, one.2))
        (omega (arith, one.2, one.3)) (omega (arith, one.3)) ask.1 lt in
    let same : All (Clear s.mem_base i) (reserve_all rs s₁).reserves
        ↔ (All (Clear s.mem_base i) s₁.reserves × All (Clear s.mem_base i) rs) =
      rw one.2 at rest in
    (
      (λ a. let (old, new) = same.0 a in let (older, this) = clear.0 old in (older, (this, new))),
      (λ a. same.1 (clear.1 (a.0, a.1.0), a.1.1)),
    )
