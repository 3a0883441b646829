-- ===== src/Buddy/Api.antt =====
-- `buddy_alloc` as its callers see it.
use osc.Common.{
  ℕ, ◌+◌, ◌-◌, ◌*◌, ◌^◌, ◌≤◌, ◌<◌, ◌≡◌, ◌≢◌, ◌⊎◌, inl, inr, refl, ap, ◌∙◌, arith, [], Option, none,
  some, lt_or_le, eq_or_ne, Option-cases, lt→ltb, le→ltb, ==_ne,
}
use osc.Common.In.{In}
use osc.Buddy.{
  Buddy, page_size, max_order, idx_to_addr, pages_needed, order_loop, pages_to_order,
  first_nonempty, take_block, buddy_alloc,
}
use osc.Buddy.Order.{pow_pos, pages_to_order_lem}
use osc.Buddy.Inv.{InBlock, Nowhere, IsAllocated, IsValid}
use osc.Buddy.Search.{first_nonempty-some, first_nonempty-none}
use osc.Buddy.Alloc.{IsFreeFrame, take_block_lem}

-- What a caller gets with a pointer that is not null.
pub record Given (b : Buddy) (size ptr : ℕ) (b' : Buddy) (order idx : ℕ) : Type 0 where
  pub address : ptr ≡ b.base + idx * page_size
  pub region : (b'.base ≡ b.base) × (b'.limit ≡ b.limit) × (b'.total_pages ≡ b.total_pages)
  pub best_fit : order ≡ pages_to_order (pages_needed size)
  pub allocated : IsAllocated b.total_pages b'.frames Nowhere order idx
  pub was_free : (i : ℕ) → InBlock order idx i → IsFreeFrame (b.frames.frame i)
  pub others : (i : ℕ) → ¬ IsFreeFrame (b.frames.frame i) → b'.frames.frame i ≡ b.frames.frame i

-- The reasons for a null pointer.
pub data Refused (b : Buddy) (size : ℕ) : Type 0 where
  nothing_asked : size ≡ 0 → Refused b size
  too_large : max_order < pages_to_order (pages_needed size) → Refused b size
  out_of_memory :
      ((j : ℕ) → pages_to_order (pages_needed size) ≤ j → j ≤ max_order → b.frames.free_list j ≡ [])
      → Refused b size

data Outcome (b : Buddy) (size ptr : ℕ) (b' : Buddy) : Type 0 where
  refused : ptr ≡ 0 → b' ≡ b → Refused b size → Outcome b size ptr b'
  given :
      (order idx : ℕ) → 0 < ptr → IsValid b' → Given b size ptr b' order idx → Outcome b size ptr b'

module _ (b : Buddy) (v : IsValid b) (size : ℕ) where
  abbrev target : ℕ
  target = pages_to_order (pages_needed size)

  abbrev search : Option (ℕ × ℕ)
  search = first_nonempty (max_order + 1 - target) target b.frames.free_list

  found :
      (current idx : ℕ)
      → target ≤ current
      → In idx (b.frames.free_list current)
      → let b' = record b { frames = take_block target current idx b.frames } in
        Outcome b size (idx_to_addr b.base idx) b'
  found current idx le member =
      let t = take_block_lem b.total_pages b.frames target current idx v.inv member le in
      let inside : idx < b.total_pages = omega (arith, t.allocated.fits, pow_pos target) in
      let exact : idx_to_addr b.base idx ≡ b.base + idx * page_size =
        omega (arith, v.room, v.limit_lt) in
      given target idx (omega (arith, exact, v.base_pos))
        (record {
          base_pos = v.base_pos;
          room = v.room;
          limit_lt = v.limit_lt;
          few = v.few;
          inv = t.inv;
        })
        (record {
          address = exact;
          region = (refl, refl, refl);
          best_fit = refl;
          allocated = t.allocated;
          was_free = t.was_free;
          others = t.others;
        })

  alloc_nothing : size ≡ 0 → buddy_alloc size b ≡ (0, b)
  unfolding buddy_alloc
  alloc_nothing e = rw (e)

  alloc_too_large : size ≢ 0 → max_order < target → buddy_alloc size b ≡ (0, b)
  unfolding buddy_alloc
  alloc_too_large n big = rw (==_ne size 0 n, lt→ltb _ _ big)

  alloc_search :
      size ≢ 0
      → target ≤ max_order
      → buddy_alloc size b
        ≡ elim (first_nonempty (max_order + 1 - target) target b.frames.free_list) [
          | none ↦ (0, b)
          | some (current, idx) ↦
              (idx_to_addr b.base idx, record b { frames = take_block target current idx b.frames })
        ]
  unfolding buddy_alloc
  alloc_search n small = rw (==_ne size 0 n, le→ltb _ _ small)

  buddy_alloc-Outcome : let (p, b') = buddy_alloc size b in Outcome b size p b'
  buddy_alloc-Outcome = elim (eq_or_ne size 0) [
    | inl e ↦ rw (alloc_nothing e) (refused refl refl (nothing_asked e))
    | inr n ↦ elim (lt_or_le max_order target) [
      | inl big ↦ rw (alloc_too_large n big) (refused refl refl (too_large big))
      | inr small ↦ rw (alloc_search n small) (elim (Option-cases search) [
        | inl e ↦ rw e (
            refused refl refl (
              out_of_memory (λ j lo hi.
                first_nonempty-none (max_order + 1 - target) target b.frames.free_list e j lo
                  (omega arith))))
        | inr ((current, idx), e) ↦
            let (le, lt, member) =
              first_nonempty-some (max_order + 1 - target) target b.frames.free_list {c = current}
                {x = idx} e in
            rw e (found current idx le member)
      ])
    ]
  ]

-- Every call of `buddy_alloc` keeps the allocator valid, whatever it returns.
pub buddy_alloc-IsValid : (b : Buddy) (size : ℕ) → IsValid b → IsValid (buddy_alloc size b).1
buddy_alloc-IsValid b size v = elim (buddy_alloc-Outcome b v size) [
  | refused p e r ↦ rw e v
  | given order idx p v' g ↦ v'
]

-- What a pointer that is not null stands for, for every size.
pub buddy_alloc-Given :
    (b : Buddy) (size : ℕ)
    → IsValid b
    → 0 < (buddy_alloc size b).0
    → (order : ℕ) × (idx : ℕ) × Given b size (buddy_alloc size b).0 (buddy_alloc size b).1 order idx
buddy_alloc-Given b size v pos = elim (buddy_alloc-Outcome b v size) [
  | refused p e r ↦ absurd (omega arith)
  | given order idx p v' g ↦ (order, idx, g)
]

-- A null pointer comes only for size 0, for an order above the maximum, or when the lists of all
-- orders from the one wanted on are empty; and the allocator is left as it was.
pub buddy_alloc_null :
    (b : Buddy) (size : ℕ)
    → IsValid b
    → (buddy_alloc size b).0 ≡ 0
    → ((buddy_alloc size b).1 ≡ b) × Refused b size
buddy_alloc_null b size v null = elim (buddy_alloc-Outcome b v size) [
  | refused p e r ↦ (e, r)
  | given order idx p v' g ↦ absurd (omega arith)
]

-- The block is as large as the bytes asked for, if rounding them up to pages does not wrap.
pub buddy_alloc_size :
    (b : Buddy) (size order idx : ℕ)
    → size + (page_size - 1) < 2 ^ 64
    → Given b size (buddy_alloc size b).0 (buddy_alloc size b).1 order idx
    → size ≤ 2 ^ order * page_size
buddy_alloc_size b size order idx small g =
    omega
      (arith, (pages_to_order_lem (pages_needed size) (omega arith)).0, ap (λ k. 2 ^ k) g.best_fit)

-- No smaller block holds the bytes asked for, if rounding them up to pages does not wrap.
alloc_least :
    (b : Buddy) (size order idx : ℕ)
    → size + (page_size - 1) < 2 ^ 64
    → Given b size (buddy_alloc size b).0 (buddy_alloc size b).1 order idx
    → (order ≡ 0) ⊎ (2 ^ (order - 1) * page_size < size)
alloc_least b size order idx small g =
    elim (pages_to_order_lem (pages_needed size) (omega arith)).1 [
      | inl e ↦ inl (g.best_fit ∙ e)
      | inr lt ↦ inr (omega (arith, lt, ap (λ k. 2 ^ (k - 1)) g.best_fit))
    ]

-- If rounding the size up to pages does not wrap, a pointer that is not null is the address of a block
-- of 2^order pages that is as large as the size, while a block of half that many pages, if there is one,
-- is smaller than the size; all frames of the block carry its tag afterwards and were free before, and
-- every frame that was not free is as before.
pub buddy_alloc_block :
    (b : Buddy) (size : ℕ)
    → IsValid b
    → size + (page_size - 1) < 2 ^ 64
    → 0 < (buddy_alloc size b).0
    → (order : ℕ) × (idx : ℕ) × (size ≤ 2 ^ order * page_size)
      × ((order ≡ 0) ⊎ (2 ^ (order - 1) * page_size < size))
      × Given b size (buddy_alloc size b).0 (buddy_alloc size b).1 order idx
buddy_alloc_block b size v small pos =
    let (order, idx, g) = buddy_alloc-Given b size v pos in
    (order, idx, buddy_alloc_size b size order idx small g, alloc_least b size order idx small g, g)

order_of_none : pages_to_order 0 ≡ 0
unfolding pages_to_order order_loop
order_of_none = refl

-- The request is not refused while a block of an order from the one wanted on is free.
alloc_given :
    (b : Buddy) (size k x : ℕ)
    → IsValid b
    → size ≢ 0
    → pages_to_order (pages_needed size) ≤ k
    → k ≤ max_order
    → In x (b.frames.free_list k)
    → 0 < (buddy_alloc size b).0
alloc_given b size k x v n le small member = elim (buddy_alloc-Outcome b v size) [
  | given order idx p v' g ↦ p
  | refused p e (nothing_asked z) ↦ absurd (n z)
  | refused p e (too_large big) ↦ absurd (omega (arith, big, le, small))
  | refused p e (out_of_memory empty) ↦ absurd (rw (empty k le small) at member)
]

-- A size in the last 4095 bytes of the 64-bit range wraps to no pages at all: on a valid allocator with a
-- free block of any order, `buddy_alloc` does not refuse it but returns the address of a single page,
-- whose frame it tags as an allocated block of order 0, smaller than the size.
pub buddy_alloc_wraps :
    (b : Buddy) (size k x : ℕ)
    → IsValid b
    → 2 ^ 64 - page_size < size
    → size < 2 ^ 64
    → k ≤ max_order
    → In x (b.frames.free_list k)
    → (idx : ℕ) × (0 < (buddy_alloc size b).0)
      × ((buddy_alloc size b).0 ≡ b.base + idx * page_size)
      × IsAllocated b.total_pages (buddy_alloc size b).1.frames Nowhere 0 idx
      × (page_size < size)
buddy_alloc_wraps b size k x v lo hi small member =
    let e : pages_needed size ≡ 0 = omega arith in
    let zero_order : pages_to_order (pages_needed size) ≡ 0 = ap pages_to_order e ∙ order_of_none in
    let pos = alloc_given b size k x v (omega arith) (omega (arith, zero_order)) small member in
    let (order, idx, g) = buddy_alloc-Given b size v pos in
    let z : order ≡ 0 = g.best_fit ∙ zero_order in
    (idx, pos, g.address, rw z at g.allocated, omega arith)
