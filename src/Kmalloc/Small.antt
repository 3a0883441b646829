-- ===== src/Kmalloc/Small.antt =====
-- `kmalloc` of a small size: a chunk of a pool that nobody holds.
use osc.Common.{
  ℕ, ◌≤◌, ◌<◌, ◌≡◌, ◌≢◌, ◌⊎◌, inl, inr, refl, sym, arith, List, ◌∷◌, eq_or_ne, update, update_self,
  update-ne, List-cases, Option-cases, Bool-cases, some, ==_ne,
}
use osc.Common.In.{In}
use osc.Kmalloc.{Heap, num_pools, chunk_size, find_pool, refill, pop_chunk, kmalloc_small, kmalloc}
use osc.Kmalloc.Pools.{find_pool-some, find_pool-none, find_pool-least}
use osc.Kmalloc.Inv.{IsChunk, Inv, IsPoolPage-keep, IsChunk_keep}
use osc.Kmalloc.Refill.{refill-Inv, refill-ne-nil}

-- What a request served from pool `i` does: null and nothing handed out, or a chunk of the pool
-- that was not live and is live now.
pub data SmallOutcome (live : ℕ → List ℕ) (i ptr : ℕ) (k' : Heap) : Type 0 where
  out_of_memory : ptr ≡ 0 → Inv k' live → SmallOutcome live i ptr k'
  chunk :
      0 < ptr
      → IsChunk k' i ptr
      → ¬ In ptr (live i)
      → Inv k' (update live i (ptr ∷ live i))
      → SmallOutcome live i ptr k'

module _ (k : Heap) (live : ℕ → List ℕ) (inv : Inv k live) (pidx x : ℕ) (rest : List ℕ)
    (e : k.pools pidx ≡ x ∷ rest) where
  abbrev popped : Heap
  popped = record k { pools = update k.pools pidx rest }

  abbrev live' : ℕ → List ℕ
  live' = update live pidx (x ∷ live pidx)

  was_free : In x (k.pools pidx)
  was_free = rw e (inl refl)

  In-rest : (y : ℕ) → In y rest → In y (k.pools pidx)
  In-rest y h = rw e (inr h)

  In-pop :
      (i y : ℕ) → In y (popped.pools i) → ((i ≡ pidx) × In y rest) ⊎ ((pidx ≢ i) × In y (k.pools i))
  In-pop i y h = elim (eq_or_ne pidx i) [
    | inl f ↦ inl (sym f, rw (← f, update_self k.pools pidx rest) at h)
    | inr n ↦ inr (n, rw (update-ne k.pools pidx i rest n) at h)
  ]

  In-live : (i y : ℕ) → In y (live' i) → ((i ≡ pidx) × (y ≡ x)) ⊎ In y (live i)
  In-live i y h = elim (eq_or_ne pidx i) [
    | inl f ↦ elim (rw (← f, update_self live pidx (x ∷ live pidx)) at h) [
      | inl g ↦ inl (sym f, g)
      | inr g ↦ inr (rw (← f) g)
    ]
    | inr n ↦ inr (rw (update-ne live pidx i (x ∷ live pidx) n) at h)
  ]

  known : (i y : ℕ) → In y (popped.pools i) ⊎ In y (live' i) → In y (k.pools i) ⊎ In y (live i)
  known i y (inl h) = elim (In-pop i y h) [
    | inl (f, g) ↦ inl (rw f (In-rest y g))
    | inr (n, g) ↦ inl g
  ]
  known i y (inr h) = elim (In-live i y h) [ inl (f, g) ↦ inl (rw (f, g) was_free) | inr g ↦ inr g ]

  apart : (i y : ℕ) → In y (popped.pools i) → ¬ In y (live' i)
  apart i y a b = elim (In-pop i y a) [
    | inl (f, g) ↦ elim (In-live i y b) [
      | inl (f', g') ↦ (rw e at (inv.distinct pidx)).0 (rw g' at g)
      | inr h ↦ inv.exclusive pidx y (In-rest y g) (rw f at h)
    ]
    | inr (n, g) ↦ elim (In-live i y b) [
      | inl (f', g') ↦ n (sym f')
      | inr h ↦ inv.exclusive i y g h
    ]
  ]

  unchanged : (i y : ℕ) → IsChunk k i y → IsChunk popped i y
  unchanged i y c =
      IsChunk_keep k popped i y refl (λ pg p. IsPoolPage-keep k popped i pg refl refl refl p) c

  popped-Inv : Inv popped live'
  popped-Inv = record {
    valid = inv.valid;
    base_aligned = inv.base_aligned;
    chunks = λ i y h. unchanged i y (inv.chunks i y (known i y h));
    distinct = λ i. elim (eq_or_ne pidx i) [
      | inl f ↦ rw (← f, update_self k.pools pidx rest) (rw e at (inv.distinct pidx)).1
      | inr n ↦ rw (update-ne k.pools pidx i rest n) (inv.distinct i)
    ];
    exclusive = apart;
    owned = λ i pg lt f. IsPoolPage-keep k popped i pg refl refl refl (inv.owned i pg lt f);
  }

  -- The chunk popped is live afterwards.
  pop_chunk_lem : SmallOutcome live pidx (pop_chunk pidx k).0 (pop_chunk pidx k).1
  unfolding pop_chunk
  pop_chunk_lem =
      let c = inv.chunks pidx x (inl was_free) in
      rw (e, pop_chunk)
        (chunk (omega (arith, c.address, inv.valid.base_pos)) (unchanged pidx x c)
          (inv.exclusive pidx x was_free) popped-Inv)

kmalloc_small_lem :
    (k : Heap) (live : ℕ → List ℕ) (pidx : ℕ)
    → Inv k live
    → pidx < num_pools
    → SmallOutcome live pidx (kmalloc_small pidx k).0 (kmalloc_small pidx k).1
unfolding kmalloc_small
kmalloc_small_lem k live pidx inv pool = elim (List-cases (k.pools pidx)) [
  | inr (x, rest, e) ↦ rw e (pop_chunk_lem k live inv pidx x rest e)
  | inl nil ↦ elim (Bool-cases (refill pidx k).0) [
    | inr none_left ↦ rw (nil, none_left) (out_of_memory refl (refill-Inv k live pidx inv pool))
    | inl got ↦ elim (List-cases ((refill pidx k).1.pools pidx)) [
      | inl nil' ↦ absurd (refill-ne-nil k pidx pool got nil')
      | inr (x, rest, e) ↦
          rw (nil, got)
            (pop_chunk_lem (refill pidx k).1 live (refill-Inv k live pidx inv pool) pidx x rest e)
    ]
  ]
]

-- A request for which `find_pool` finds pool `i`: null, or a chunk of that pool.
pub kmalloc_small-found :
    (k : Heap) (live : ℕ → List ℕ) (size i : ℕ)
    → Inv k live
    → 0 < size
    → find_pool size ≡ some i
    → SmallOutcome live i (kmalloc size k).0 (kmalloc size k).1
unfolding kmalloc
kmalloc_small-found k live size i inv some_size found =
    let (pool, holds, best) = find_pool-some size i found in
    rw (==_ne size 0 (omega arith), found) (kmalloc_small_lem k live i inv pool)

-- A request of 1 to 2048 bytes is served from the pool whose chunks hold the size while those of every
-- smaller pool do not: what comes back is null, with nothing handed out, or a chunk of that pool that no
-- caller held; the chunk counts as live then, and the invariant holds on both branches.
pub kmalloc_small_request :
    (k : Heap) (live : ℕ → List ℕ) (size : ℕ)
    → Inv k live
    → 0 < size
    → size ≤ 2048
    → (i : ℕ) × (i < num_pools)
      × (size ≤ chunk_size i)
      × ((j : ℕ) → j < i → chunk_size j < size)
      × SmallOutcome live i (kmalloc size k).0 (kmalloc size k).1
kmalloc_small_request k live size inv some_size small = elim (Option-cases (find_pool size)) [
  | inl e ↦ absurd (omega (arith, (find_pool-none size).0 e))
  | inr (i, e) ↦
      let (pool, holds, best) = find_pool-some size i e in
      (
        i,
        pool,
        holds,
        (λ j lt. find_pool-least size i j e lt),
        kmalloc_small-found k live size i inv some_size e,
      )
]
