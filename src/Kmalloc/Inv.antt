-- ===== src/Kmalloc/Inv.antt =====
-- What holds of the chunk allocator between two calls. `live i` lists the chunks of pool `i` that
-- callers hold.
use osc.Common.{
  ℕ, ◌+◌, ◌*◌, ◌%◌, ◌≤◌, ◌<◌, ◌≡◌, ◌≢◌, ◌⊎◌, inl, inr, ap, ◌∙◌, arith, List, lt_or_le, eq_or_ne,
}
use osc.Common.Int.{pos}
use osc.Common.In.{In, Distinct}
use osc.Buddy.{page_size, alloc_tag}
use osc.Buddy.Inv.{IsValid}
use osc.Kmalloc.{Heap, num_pools, chunk_size}

-- Page `pg` belongs to pool `i`: it is a page of its own, handed out by the page allocator.
pub record IsPoolPage (k : Heap) (i pg : ℕ) : Type 0 where
  pub pool : i < num_pools
  pub inside : pg < k.buddy.total_pages
  pub owner : k.page_pool_idx pg ≡ pos i
  pub tagged : k.buddy.frames.frame pg ≡ alloc_tag pg 0

-- Address `x` is the `j`-th chunk of page `pg` of pool `i`.
pub record IsChunk (k : Heap) (i x : ℕ) : Type 0 where
  pub pg : ℕ
  pub j : ℕ
  pub page : IsPoolPage k i pg
  pub address : x ≡ k.buddy.base + pg * page_size + j * chunk_size i
  pub inner : j * chunk_size i + chunk_size i ≤ page_size

pub record Inv (k : Heap) (live : ℕ → List ℕ) : Type 0 where
  pub valid : IsValid k.buddy
  pub base_aligned : k.buddy.base % page_size ≡ 0
  -- Free and live chunks lie on pages of their pool.
  pub chunks : (i x : ℕ) → In x (k.pools i) ⊎ In x (live i) → IsChunk k i x
  -- No chunk is free twice, or free and live.
  pub distinct : (i : ℕ) → Distinct (k.pools i)
  pub exclusive : (i x : ℕ) → In x (k.pools i) → ¬ In x (live i)
  -- What `page_pool_idx` says of the pages in use.
  pub owned : (i pg : ℕ) → pg < k.buddy.total_pages → k.page_pool_idx pg ≡ pos i → IsPoolPage k i pg

pub multiple : (a b sz : ℕ) → a < b → a * sz + sz ≤ b * sz
multiple a b sz h = grind arith

same_page :
    (start sz j j' x y : ℕ)
    → x ≡ start + j * sz
    → y ≡ start + j' * sz
    → x ≢ y
    → (x + sz ≤ y) ⊎ (y + sz ≤ x)
same_page start sz j j' x y e f ne = elim (lt_or_le j j') [
  | inl l ↦ inl (omega (arith, multiple j j' sz l))
  | inr g ↦ elim (eq_or_ne j j') [
    | inl same ↦ absurd (ne (omega (arith, e, f, ap (λ (t : ℕ). t * sz) same)))
    | inr other ↦ inr (omega (arith, multiple j' j sz (omega arith)))
  ]
]

-- Two different chunks, of one pool or of two, share no byte.
pub chunks_disjoint :
    (k : Heap) (i i' x y : ℕ)
    → IsChunk k i x
    → IsChunk k i' y
    → (i ≢ i') ⊎ (x ≢ y)
    → (x + chunk_size i ≤ y) ⊎ (y + chunk_size i' ≤ x)
chunks_disjoint k i i' x y c d ne = elim (eq_or_ne c.pg d.pg) [
  | inr other ↦ omega (arith, c.address, d.address, c.inner, d.inner)
  | inl same ↦
      let own : k.page_pool_idx c.pg ≡ pos i' = rw same d.page.owner in
      let pool : i ≡ i' = cc (c.page.owner, own) in
      let differ : x ≢ y = elim ne [ inl n ↦ absurd (n pool) | inr n ↦ n ] in
      let here : y ≡ k.buddy.base + c.pg * page_size + d.j * chunk_size i =
        rw (pool, same) d.address in
      rw (← pool) (
        same_page (k.buddy.base + c.pg * page_size) (chunk_size i) c.j d.j x y c.address here
          differ)
]

-- A heap that differs only in what the invariant does not read keeps pool pages and chunks.
pub IsPoolPage-keep :
    (k k' : Heap) (i pg : ℕ)
    → k'.buddy.total_pages ≡ k.buddy.total_pages
    → k'.page_pool_idx pg ≡ k.page_pool_idx pg
    → k'.buddy.frames.frame pg ≡ k.buddy.frames.frame pg
    → IsPoolPage k i pg
    → IsPoolPage k' i pg
IsPoolPage-keep k k' i pg t o f p = record {
  pool = p.pool;
  inside = rw t p.inside;
  owner = o ∙ p.owner;
  tagged = f ∙ p.tagged;
}

pub IsChunk_keep :
    (k k' : Heap) (i x : ℕ)
    → k'.buddy.base ≡ k.buddy.base
    → ((pg : ℕ) → IsPoolPage k i pg → IsPoolPage k' i pg)
    → IsChunk k i x
    → IsChunk k' i x
IsChunk_keep k k' i x b f c = record {
  pg = c.pg;
  j = c.j;
  page = f c.pg c.page;
  address = rw b c.address;
  inner = c.inner;
}
