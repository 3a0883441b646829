-- ===== src/Buddy/Reserve.antt =====
-- `buddy_init` and `buddy_reserve`: which frames are reserved before the lists are built.
use osc.Common.{
  ℕ, ◌+◌, ◌-◌, ◌*◌, ◌%◌, ◌^◌, ◌≤◌, ◌<◌, ◌≡◌, ◌⊎◌, inl, inr, refl, arith, [], lt_or_le, le→leb,
  lt→leb,
}
use osc.Common.Int.{ℤ}
use osc.Buddy.{
  Frames, Buddy, page_size, page_down, page_up, clamp_low, clamp_high, addr_to_idx, frame_free_part,
  frame_reserved, reserve_frames, buddy_init, buddy_reserve,
}
use osc.Buddy.Fill.{fill-inside, fill-outside}
use osc.Buddy.Inv.{max_pages}
use osc.Buddy.Build.{IsUnbuilt, IsRaw}

-- Page `i` of the region shares a byte with [start, end).
abbrev pub Overlaps : ℕ → ℕ → ℕ → ℕ → Type 0
Overlaps base start end_addr i =
    (start < base + (i + 1) * page_size) × (base + i * page_size < end_addr)

abbrev pub Apart : ℕ → ℕ → ℕ → ℕ → Type 0
Apart base start end_addr i =
    (base + (i + 1) * page_size ≤ start) ⊎ (end_addr ≤ base + i * page_size)

reserve_frames-inside :
    (first last i : ℕ) (s : Frames)
    → first ≤ i
    → i < last
    → (reserve_frames first last s).frame i ≡ frame_reserved
unfolding reserve_frames
reserve_frames-inside first last i s h k =
    fill-inside (last - first) first frame_reserved s.frame i h (omega arith)

reserve_frames-outside :
    (first last i : ℕ) (s : Frames)
    → (i < first) ⊎ (last ≤ i)
    → (reserve_frames first last s).frame i ≡ s.frame i
unfolding reserve_frames
reserve_frames-outside first last i s h =
    fill-outside (last - first) first frame_reserved s.frame i (out h)
  where
    out : (i < first) ⊎ (last ≤ i) → (i < first) ⊎ (first + (last - first) ≤ i)
    out h = omega arith

pub clamp_low_bounds :
    (lo x : ℕ)
    → (lo ≤ clamp_low lo x) × (x ≤ clamp_low lo x) × ((clamp_low lo x ≡ lo) ⊎ (clamp_low lo x ≡ x))
clamp_low_bounds lo x = ground arith

pub clamp_high_bounds :
    (hi x : ℕ)
    → (clamp_high hi x ≤ hi)
      × (clamp_high hi x ≤ x)
      × ((clamp_high hi x ≡ hi) ⊎ (clamp_high hi x ≡ x))
clamp_high_bounds hi x = ground arith

-- The arithmetic of the two page numbers, for the clamped ends `s` and `e`.
module _ (base limit total start end_addr i s e : ℕ) (al : base % page_size ≡ 0)
    (room : base + total * page_size ≤ limit) (lim : limit < 2 ^ 64) (order : start < end_addr)
    (small : end_addr + page_size < 2 ^ 64) (hi : i < total)
    (hs : (base ≤ s) × (page_down start ≤ s) × ((s ≡ base) ⊎ (s ≡ page_down start)))
    (he : (e ≤ limit) × (e ≤ page_up end_addr) × ((e ≡ limit) ⊎ (e ≡ page_up end_addr))) where
  nothing_left : e ≤ s → Apart base start end_addr i
  nothing_left h = elim (lt_or_le start (base + (i + 1) * page_size)) [
    | inr g ↦ inl g
    | inl l ↦ inr (omega arith)
  ]

  page_numbers :
      s < e
      → ((addr_to_idx base s ≤ i) × (i < addr_to_idx base e) × Overlaps base start end_addr i)
        ⊎ (((i < addr_to_idx base s) ⊎ (addr_to_idx base e ≤ i)) × Apart base start end_addr i)
  page_numbers h = elim (lt_or_le start (base + (i + 1) * page_size)) [
    | inr g ↦ inr (inl (omega arith), inl g)
    | inl l ↦ elim (lt_or_le (base + i * page_size) end_addr) [
      | inl k ↦ inl (omega arith, omega arith, (l, k))
      | inr g ↦ inr (inr (omega arith), inr g)
    ]
  ]

-- Reserving a range marks exactly the pages of the region that overlap it.
pub buddy_reserve_exact :
    (start end_addr : ℕ) (b : Buddy) (i : ℕ)
    → b.base % page_size ≡ 0
    → b.base + b.total_pages * page_size ≤ b.limit
    → b.limit < 2 ^ 64
    → start < end_addr
    → end_addr + page_size < 2 ^ 64
    → i < b.total_pages
    → let f = (buddy_reserve start end_addr b).frames.frame i in
      (Overlaps b.base start end_addr i × (f ≡ frame_reserved))
      ⊎ (Apart b.base start end_addr i × (f ≡ b.frames.frame i))
unfolding buddy_reserve
buddy_reserve_exact start end_addr b i al room lim order small hi =
    let s = clamp_low b.base (page_down start) in
    let e = clamp_high b.limit (page_up end_addr) in
    elim (lt_or_le s e) [
      | inr none_left ↦ rw (le→leb e s none_left) (
          inr (
            nothing_left b.base b.limit b.total_pages start end_addr i s e al room lim order small
                hi (clamp_low_bounds b.base (page_down start))
                (clamp_high_bounds b.limit (page_up end_addr)) none_left,
            refl,
          ))
      | inl some_left ↦
          rw (lt→leb e s some_left)
            (elim (page_numbers b.base b.limit b.total_pages start end_addr i s e al room lim order
              small hi (clamp_low_bounds b.base (page_down start))
              (clamp_high_bounds b.limit (page_up end_addr)) some_left) [
                | inl (h, k, o) ↦ inl (o, reserve_frames-inside _ _ i b.frames h k)
                | inr (h, a) ↦ inr (a, reserve_frames-outside _ _ i b.frames h)
              ])
    ]

-- `buddy_init` leaves every frame free as a part and the lists empty.
pub buddy_init-IsRaw :
    (base size count : ℕ) (ext : ℕ → ℤ)
    → 0 < base
    → base + size < 2 ^ 64
    → count * page_size ≤ size
    → count ≤ max_pages
    → IsRaw (buddy_init base size count ext)
unfolding buddy_init
buddy_init-IsRaw base size count ext pos top fits few = record {
  base_pos = pos;
  room = omega arith;
  limit_lt = omega arith;
  few = few;
  raw = λ i h. inl (fill-inside count 0 frame_free_part ext i (omega arith) (omega arith));
  empty = λ k. refl;
}

reserve_frames-raw :
    (first last i : ℕ) (s : Frames)
    → IsUnbuilt (s.frame i)
    → IsUnbuilt ((reserve_frames first last s).frame i)
reserve_frames-raw first last i s h = elim (lt_or_le i first) [
  | inl l ↦ rw (reserve_frames-outside first last i s (inl l)) h
  | inr g ↦ elim (lt_or_le i last) [
    | inl k ↦ inr (reserve_frames-inside first last i s g k)
    | inr m ↦ rw (reserve_frames-outside first last i s (inr m)) h
  ]
]

-- Reserving any range keeps the allocator ready for building the lists.
pub buddy_reserve-IsRaw :
    (start end_addr : ℕ) (b : Buddy) → IsRaw b → IsRaw (buddy_reserve start end_addr b)
unfolding buddy_reserve
buddy_reserve-IsRaw start end_addr b r =
    let s = clamp_low b.base (page_down start) in
    let e = clamp_high b.limit (page_up end_addr) in
    elim (lt_or_le s e) [
      | inr none_left ↦ rw (le→leb e s none_left) r
      | inl some_left ↦ rw (lt→leb e s some_left) (record {
        base_pos = r.base_pos;
        room = r.room;
        limit_lt = r.limit_lt;
        few = r.few;
        raw = λ i h. reserve_frames-raw _ _ i b.frames (r.raw i h);
        empty = λ k. kept k;
      })
    ]
  where
    kept :
        (k : ℕ)
        → (reserve_frames
              (addr_to_idx b.base (clamp_low b.base (page_down start)))
              (addr_to_idx b.base (clamp_high b.limit (page_up end_addr)))
              b.frames).free_list
            k
          ≡ []
    kept k = unfold reserve_frames in r.empty k
