-- ===== src/Kmalloc/Refill.antt =====
-- A pool without free chunks takes a page of the page allocator and slices it.
use osc.Common.{
  ℕ, ◌+◌, ◌*◌, ◌/◌, ◌^◌, ◌<◌, ◌≡◌, ◌≢◌, ◌⊎◌, inl, inr, refl, sym, arith, List, [], lt_or_le,
  eq_or_ne, update, update_self, update-ne, ==_ne, true, false,
}
use osc.Common.Int.{pos}
use osc.Common.In.{In, Distinct}
use osc.Buddy.{Buddy, page_size, addr_to_idx, order_loop, pages_to_order, buddy_alloc}
use osc.Buddy.Order.{pow_pos}
use osc.Buddy.Alloc.{IsFreeFrame}
use osc.Buddy.Api.{Given, buddy_alloc-IsValid, buddy_alloc-Given, buddy_alloc_null}
use osc.Kmalloc.{Heap, num_pools, chunk_size, slice, refill}
use osc.Kmalloc.Slice.{slice-In, slice-Distinct, slice-ne-nil}
use osc.Kmalloc.Pools.{chunk_size_table}
use osc.Kmalloc.Inv.{IsPoolPage, IsChunk, Inv, IsPoolPage-keep, IsChunk_keep, multiple}

module _ (k : Heap) (live : ℕ → List ℕ) (inv : Inv k live) (pidx : ℕ)
    (pool : pidx < num_pools) where
  abbrev ptr : ℕ
  ptr = (buddy_alloc page_size k.buddy).0

  abbrev after : Buddy
  after = (buddy_alloc page_size k.buddy).1

  abbrev filled : Heap
  filled = record {
    buddy = after;
    page_pool_idx = update k.page_pool_idx (addr_to_idx after.base ptr) (pos pidx);
    pools =
        update k.pools pidx
          (slice (page_size / chunk_size pidx) 0 ptr (chunk_size pidx) (k.pools pidx));
  }

  module _ (order idx : ℕ) (g : Given k.buddy page_size ptr after order idx) where
    one_page : order ≡ 0
    unfolding pages_to_order order_loop
    one_page = g.best_fit

    at_idx : addr_to_idx after.base ptr ≡ idx
    at_idx = omega (
      arith,
      g.address,
      g.region,
      inv.valid.room,
      inv.valid.limit_lt,
      g.allocated.fits,
      pow_pos order,
    )

    -- Pages of the pools are in use, so the new page is none of them.
    old_page : (i pg : ℕ) → IsPoolPage k i pg → ¬ IsFreeFrame (k.buddy.frames.frame pg)
    old_page i pg p (inl e) = cc (p.tagged)
    old_page i pg p (inr (o, le, e)) = let t = p.tagged in absurd (ground arith)

    not_new : (i pg : ℕ) → IsPoolPage k i pg → pg ≢ idx
    not_new i pg p e =
        old_page i pg p (rw e (g.was_free idx (omega arith, omega (arith, pow_pos order))))

    keep : (i pg : ℕ) → IsPoolPage k i pg → IsPoolPage filled i pg
    keep i pg p =
        IsPoolPage-keep k filled i pg g.region.2
          (rw at_idx (update-ne k.page_pool_idx idx pg (pos pidx) (λ e. not_new i pg p (sym e))))
          (g.others pg (old_page i pg p)) p

    new_page : IsPoolPage filled pidx idx
    new_page = record {
      pool = pool;
      inside = omega (arith, g.region, g.allocated.fits, pow_pos order);
      owner = rw at_idx (update_self k.page_pool_idx idx (pos pidx));
      tagged = rw (← one_page) (g.allocated.tagged idx (omega (arith, pow_pos order)));
    }

    abbrev sz : ℕ
    sz = chunk_size pidx

    abbrev n : ℕ
    n = page_size / sz

    room : ptr + (0 + n) * sz < 2 ^ 64
    room = omega (
      arith,
      g.address,
      inv.valid.room,
      inv.valid.limit_lt,
      g.allocated.fits,
      pow_pos order,
      chunk_size_table pidx pool,
    )

    -- The chunks of the new page are no old ones.
    new_apart : (i x j : ℕ) → In x (k.pools i) ⊎ In x (live i) → j < 0 + n → x ≢ ptr + j * sz
    new_apart i x j h lt e =
        let c = inv.chunks i x h in
        let other : c.pg ≢ idx = not_new i c.pg c.page in
        omega (
          arith,
          c.address,
          c.inner,
          chunk_size_table i c.page.pool,
          chunk_size_table pidx pool,
          g.address,
          multiple j n sz (omega arith),
          other,
          e,
        )

    new_chunk : (x j : ℕ) → j < 0 + n → x ≡ ptr + j * sz → IsChunk filled pidx x
    new_chunk x j lt e = record {
      pg = idx;
      j = j;
      page = new_page;
      address = omega (arith, e, g.address, g.region);
      inner = omega (arith, multiple j n sz (omega arith), chunk_size_table pidx pool);
    }

    old_chunk : (i x : ℕ) → In x (k.pools i) ⊎ In x (live i) → IsChunk filled i x
    old_chunk i x h = IsChunk_keep k filled i x g.region.0 (keep i) (inv.chunks i x h)

    In-filled :
        (i x : ℕ)
        → In x (filled.pools i)
        → In x (k.pools i) ⊎ ((i ≡ pidx) × ((j : ℕ) × (j < 0 + n) × (x ≡ ptr + j * sz)))
    In-filled i x h = elim (eq_or_ne pidx i) [
      | inr other ↦ inl (rw (update-ne k.pools pidx i _ other) at h)
      | inl e ↦
          let h' = rw (← e, update_self k.pools pidx _) at h in
          elim (slice-In n 0 ptr sz x (k.pools pidx) room h') [
            | inl a ↦ inl (rw (← e) a)
            | inr (j, lo, hi, f) ↦ inr (sym e, (j, hi, f))
          ]
    ]

    filled_owned :
        (i pg : ℕ)
        → pg < filled.buddy.total_pages
        → filled.page_pool_idx pg ≡ pos i
        → IsPoolPage filled i pg
    filled_owned i pg lt e = elim (eq_or_ne idx pg) [
      | inl same ↦
          let f = rw (at_idx, ← same, update_self k.page_pool_idx idx (pos pidx)) at e in
          let which : pidx ≡ i = ground arith in rw (← which, ← same) new_page
      | inr other ↦
          let f = rw (at_idx, update-ne k.page_pool_idx idx pg (pos pidx) other) at e in
          keep i pg (inv.owned i pg (omega (arith, g.region, lt)) f)
    ]

    filled-Distinct : (i : ℕ) → Distinct (filled.pools i)
    filled-Distinct i = elim (eq_or_ne pidx i) [
      | inr other ↦
          rw (update-ne k.pools pidx i (slice n 0 ptr sz (k.pools pidx)) other) (inv.distinct i)
      | inl e ↦
          rw (← e, update_self k.pools pidx (slice n 0 ptr sz (k.pools pidx)))
            (slice-Distinct n 0 ptr sz (k.pools pidx) (omega (arith, chunk_size_table pidx pool))
              room (inv.distinct pidx)
              (λ j lo hi h. new_apart pidx (ptr + j * sz) j (inl h) hi refl))
    ]

    pub filled-Inv : Inv filled live
    filled-Inv = record {
      valid = buddy_alloc-IsValid k.buddy page_size inv.valid;
      base_aligned = rw (g.region.0) inv.base_aligned;
      chunks = λ i x h. elim h [
        | inl a ↦ elim (In-filled i x a) [
          | inl b ↦ old_chunk i x (inl b)
          | inr (e, (j, lt, f)) ↦ rw e (new_chunk x j lt f)
        ]
        | inr b ↦ old_chunk i x (inr b)
      ];
      distinct = filled-Distinct;
      exclusive = λ i x a b. elim (In-filled i x a) [
        | inl c ↦ inv.exclusive i x c b
        | inr (e, (j, lt, f)) ↦ new_apart i x j (inr b) lt f
      ];
      owned = filled_owned;
    }

-- Refilling keeps the invariant, whether or not there was a page.
pub refill-Inv :
    (k : Heap) (live : ℕ → List ℕ) (pidx : ℕ)
    → Inv k live
    → pidx < num_pools
    → Inv (refill pidx k).1 live
unfolding refill
refill-Inv k live pidx inv pool = elim (lt_or_le 0 (buddy_alloc page_size k.buddy).0) [
  | inl some_page ↦
      let (order, idx, g) = buddy_alloc-Given k.buddy page_size inv.valid some_page in
      rw (==_ne (buddy_alloc page_size k.buddy).0 0 (omega arith))
        (filled-Inv k live inv pidx pool order idx g)
  | inr null ↦
      let zero_ptr : (buddy_alloc page_size k.buddy).0 ≡ 0 = omega arith in
      let same = (buddy_alloc_null k.buddy page_size inv.valid zero_ptr).0 in
      rw (zero_ptr, same) inv
]

-- A pool that got a page has a free chunk.
pub refill-ne-nil :
    (k : Heap) (pidx : ℕ)
    → pidx < num_pools
    → (refill pidx k).0 ≡ true
    → (refill pidx k).1.pools pidx ≢ []
unfolding refill
refill-ne-nil k pidx pool got = elim (lt_or_le 0 (buddy_alloc page_size k.buddy).0) [
  | inl some_page ↦
      rw (==_ne (buddy_alloc page_size k.buddy).0 0 (omega arith), update_self)
        (slice-ne-nil (page_size / chunk_size pidx) 0 _ (chunk_size pidx) (k.pools pidx)
          (omega (arith, chunk_size_table pidx pool)))
  | inr null ↦
      let zero_ptr : (buddy_alloc page_size k.buddy).0 ≡ 0 = omega arith in
      let f : false ≡ true = rw zero_ptr at got in cc
]
