-- ===== src/Kmalloc/Release.antt =====
-- `kfree` of a chunk: it goes back to its pool.
use osc.Common.{
  ℕ, ◌≡◌, ◌≢◌, ◌⊎◌, inl, inr, refl, sym, arith, List, ◌∷◌, eq_or_ne, update, update_self, update-ne,
  ==_ne,
}
use osc.Common.In.{In, remove, In-remove, In-remove-ne}
use osc.Buddy.{page_down, addr_to_idx}
use osc.Kmalloc.{Heap, kfree}
use osc.Kmalloc.Pools.{chunk_size_table}
use osc.Kmalloc.Inv.{IsChunk, Inv, IsPoolPage-keep, IsChunk_keep}

module _ (k : Heap) (live : ℕ → List ℕ) (inv : Inv k live) (i p : ℕ) (held : In p (live i)) where
  c : IsChunk k i p
  c = inv.chunks i p (inr held)

  abbrev freed : Heap
  freed = record k { pools = update k.pools i (p ∷ k.pools i) }

  abbrev live' : ℕ → List ℕ
  live' = update live i (remove p (live i))

  -- The page number that `kfree` computes is that of the chunk's page.
  finds_pool : kfree p k ≡ freed
  unfolding kfree
  finds_pool =
      let not_null : p ≢ 0 = omega (arith, c.address, inv.valid.base_pos) in
      let page : addr_to_idx k.buddy.base (page_down p) ≡ c.pg = omega (
        arith,
        c.address,
        c.inner,
        inv.base_aligned,
        inv.valid.room,
        inv.valid.limit_lt,
        c.page.inside,
        chunk_size_table i c.page.pool,
      ) in
      rw (==_ne p 0 not_null, page, c.page.owner)

  In-freed : (j y : ℕ) → In y (freed.pools j) → ((j ≡ i) × (y ≡ p)) ⊎ In y (k.pools j)
  In-freed j y h = elim (eq_or_ne i j) [
    | inl f ↦ elim (rw (← f, update_self k.pools i (p ∷ k.pools i)) at h) [
      | inl g ↦ inl (sym f, g)
      | inr g ↦ inr (rw (← f) g)
    ]
    | inr n ↦ inr (rw (update-ne k.pools i j (p ∷ k.pools i) n) at h)
  ]

  In-live : (j y : ℕ) → In y (live' j) → In y (live j) × ((i ≢ j) ⊎ (p ≢ y))
  In-live j y h = elim (eq_or_ne i j) [
    | inl f ↦
        let g = rw (← f, update_self live i (remove p (live i))) at h in
        (rw (← f) (In-remove p y (live i) g), inr (In-remove-ne p y (live i) g))
    | inr n ↦ (rw (update-ne live i j (remove p (live i)) n) at h, inl n)
  ]

  unchanged : (j y : ℕ) → IsChunk k j y → IsChunk freed j y
  unchanged j y d =
      IsChunk_keep k freed j y refl (λ pg q. IsPoolPage-keep k freed j pg refl refl refl q) d

  freed_chunks : (j y : ℕ) → In y (freed.pools j) ⊎ In y (live' j) → IsChunk freed j y
  freed_chunks j y (inr h) = unchanged j y (inv.chunks j y (inr (In-live j y h).0))
  freed_chunks j y (inl h) = elim (In-freed j y h) [
    | inl (f, g) ↦ rw (f, g) (unchanged i p c)
    | inr g ↦ unchanged j y (inv.chunks j y (inl g))
  ]

  freed_exclusive : (j y : ℕ) → In y (freed.pools j) → ¬ In y (live' j)
  freed_exclusive j y a b =
      let (l, differs) = In-live j y b in
      elim (In-freed j y a) [
        | inl (f, g) ↦ elim differs [ inl n ↦ n (sym f) | inr n ↦ n (sym g) ]
        | inr g ↦ inv.exclusive j y g l
      ]

  freed-Inv : Inv freed live'
  freed-Inv = record {
    valid = inv.valid;
    base_aligned = inv.base_aligned;
    chunks = freed_chunks;
    distinct = λ j. elim (eq_or_ne i j) [
      | inl f ↦
          rw (← f, update_self k.pools i (p ∷ k.pools i))
            (λ h. inv.exclusive i p h held, inv.distinct i)
      | inr n ↦ rw (update-ne k.pools i j (p ∷ k.pools i) n) (inv.distinct j)
    ];
    exclusive = freed_exclusive;
    owned = λ j pg lt f. IsPoolPage-keep k freed j pg refl refl refl (inv.owned j pg lt f);
  }

  -- A live chunk that is freed goes to the front of its pool's list, is not live any more, and the
  -- invariant holds.
  pub kfree_chunk :
      (kfree p k).pools ≡ update k.pools i (p ∷ k.pools i)
      × Inv (kfree p k) (update live i (remove p (live i)))
  kfree_chunk = rw finds_pool (refl, freed-Inv)
