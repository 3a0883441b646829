-- ===== src/Boot/Metadata.antt =====
-- The allocations of the startup allocator of kernel/src/buddy.c, on any registered regions.
use osc.Common.{
  ℕ, zero, suc, sym, ◌%◌, true, false, le→leb, lt_or_le, ◌+◌, ◌*◌, ◌^◌, ◌≤◌, ◌<◌, ◌≡◌, ◌≢◌, ◌⊎◌,
  ◌↔◌, refl, ap, arith, List, [], ◌∷◌, ◌++◌, some, inl, inr, Bool-cases, lt→leb, leb, ltb, ==_ne,
  eq_or_ne, u64, length, length-append,
}
use osc.Common.All.{All, All-append}
use osc.Buddy.{page_size, page_up}
use osc.Startup.{
  Region, Startup, max_reserves, insert_back, sort_loop, unwind, sa_sort_reserves, scan,
  sa_find_first_free, buddy_startup_alloc,
}
use osc.Startup.Sort.{Disjoint, IsRegion, All-sa_sort_reserves, insert_back-All}
use osc.Boot.Regions.{IsFit, Clear}

length-insert_back : (k : Region) (rs : List Region) → length (insert_back k rs) ≡ suc (length rs)
unfolding insert_back
length-insert_back k [] = refl
length-insert_back k (r ∷ rs) = elim (Bool-cases (ltb k.0 r.0)) [
  | inl e ↦ rw e (ap suc (length-insert_back k rs))
  | inr e ↦ rw e refl
]

length-sort_loop : (done ks : List Region) → length (sort_loop done ks) ≡ length done + length ks
unfolding sort_loop
length-sort_loop done [] = omega arith
length-sort_loop done (k ∷ ks) =
    omega (arith, length-sort_loop (insert_back k done) ks, length-insert_back k done)

length-unwind : (rs acc : List Region) → length (unwind rs acc) ≡ length rs + length acc
unfolding unwind
length-unwind [] acc = omega arith
length-unwind (r ∷ rs) acc = omega (arith, length-unwind rs (r ∷ acc))

length-sa_sort_reserves : (rs : List Region) → length (sa_sort_reserves rs) ≡ length rs
unfolding sa_sort_reserves
length-sa_sort_reserves rs =
    omega (arith, length-unwind (sort_loop [] rs) [], length-sort_loop [] rs)

module _ (P : Region → Type 0) where
  sort_loop-All : (done ks : List Region) → All P done → All P ks → All P (sort_loop done ks)
  unfolding sort_loop
  sort_loop-All done [] h g = h
  sort_loop-All done (k ∷ ks) h g =
      sort_loop-All (insert_back k done) ks (insert_back-All P k done g.0 h) g.1

  unwind-All : (rs acc : List Region) → All P rs → All P acc → All P (unwind rs acc)
  unfolding unwind
  unwind-All [] acc h g = g
  unwind-All (r ∷ rs) acc h g = unwind-All rs (r ∷ acc) h.1 (h.0, g)

  sa_sort_reserves-All : (rs : List Region) → All P rs → All P (sa_sort_reserves rs)
  unfolding sa_sort_reserves
  sa_sort_reserves-All rs h = unwind-All (sort_loop [] rs) [] (sort_loop-All [] rs tt h) tt

  All-last : (xs : List Region) (r : Region) → All P (xs ++ (r ∷ [])) → All P xs × P r
  All-last [] r h = (tt, h.0)
  All-last (x ∷ xs) r h = let (a, b) = All-last xs r h.1 in ((h.0, a), b)

-- On regions of the memory the scan returns null or room inside the memory, at a page boundary.
scan-room :
    (size lo hi cursor : ℕ) (rs : List Region)
    → hi + page_size + size < 2 ^ 64
    → lo ≤ cursor
    → cursor ≤ hi
    → All (IsRegion lo hi) rs
    → (scan size hi cursor rs ≡ 0)
      ⊎ ((lo ≤ scan size hi cursor rs) × (scan size hi cursor rs + size ≤ hi))
unfolding scan
scan-room size lo hi cursor [] small low le h =
    elim (Bool-cases (leb (u64 (page_up cursor + size)) hi)) [
      | inl e ↦ rw e (inr (ground arith))
      | inr e ↦ rw e (inl refl)
    ]
scan-room size lo hi cursor (r ∷ rs) small low le h =
    elim (Bool-cases (leb (u64 (page_up cursor + size)) r.0)) [
      | inl e ↦ rw e (inr (ground arith))
      | inr e ↦
          rw e (scan-room size lo hi r.1 rs small (omega (arith, h.0)) (omega (arith, h.0)) h.1)
    ]

-- With free room for `size` bytes at a page boundary the scan returns an address, and none behind it.
scan-reaches :
    (size lo hi cursor p : ℕ) (rs : List Region)
    → hi + page_size + size < 2 ^ 64
    → 0 < lo
    → lo ≤ cursor
    → cursor ≤ p
    → p % page_size ≡ 0
    → p + size ≤ hi
    → All (IsRegion lo hi) rs
    → All (Disjoint (p, p + size)) rs
    → (0 < scan size hi cursor rs) × (scan size hi cursor rs ≤ p)
unfolding scan
scan-reaches size lo hi cursor p [] small pos low le al fits h d =
    let fit : leb (u64 (page_up cursor + size)) hi ≡ true = le→leb _ _ (omega arith) in
    rw fit (omega arith, omega arith)
scan-reaches size lo hi cursor p (r ∷ rs) small pos low le al fits h d =
    elim (lt_or_le r.0 (page_up cursor + size)) [
      | inr room ↦
          let fit : leb (u64 (page_up cursor + size)) r.0 ≡ true =
            le→leb _ _ (omega (arith, h.0)) in
          rw fit (omega arith, omega arith)
      | inl no_room ↦
          let miss : leb (u64 (page_up cursor + size)) r.0 ≡ false =
            lt→leb _ _ (omega (arith, h.0)) in
          rw miss (
            scan-reaches size lo hi r.1 p rs small pos (omega (arith, h.0))
              (omega (arith, d.0, h.0)) al fits h.1 d.1)
    ]

-- What a pointer that is not null stands for.
pub record IsTaken (size p : ℕ) (s s' : Startup) : Type 0 where
  pub place : p ≡ scan (page_up size) s.mem_end s.mem_base (sa_sort_reserves s.reserves)
  pub some_ptr : p ≢ 0
  pub fit : IsFit s'
  pub one_more : length s'.reserves ≡ length s.reserves + 1
  pub base_same : s'.mem_base ≡ s.mem_base
  pub end_same : s'.mem_end ≡ s.mem_end
  pub inside : (s.mem_base ≤ p) × (p + page_up size ≤ s.mem_end)
  pub clear :
      (i : ℕ)
      → All (Clear s.mem_base i) s'.reserves
        ↔ (All (Clear s.mem_base i) s.reserves × Clear s.mem_base i (p, p + page_up size))

-- A null pointer leaves the regions, in their new order.
pub record IsNull (size p : ℕ) (s s' : Startup) : Type 0 where
  pub place : p ≡ scan (page_up size) s.mem_end s.mem_base (sa_sort_reserves s.reserves)
  pub null : p ≡ 0
  pub fit : IsFit s'
  pub as_many : length s'.reserves ≡ length s.reserves
  pub end_same : s'.mem_end ≡ s.mem_end

-- The call returns, without a write past the end of the regions.
pub startup_alloc-IsTaken :
    (size : ℕ) (s : Startup)
    → IsFit s
    → length s.reserves < max_reserves
    → 0 < size
    → s.mem_end + size + 2 * page_size < 2 ^ 64
    → (p : ℕ) × (s' : Startup) × (buddy_startup_alloc size s ≡ some (p, s'))
      × (IsNull size p s s' ⊎ IsTaken size p s s')
unfolding buddy_startup_alloc sa_find_first_free
startup_alloc-IsTaken size s fit room pos small =
    let lo = s.mem_base in
    let hi = s.mem_end in
    let sorted = sa_sort_reserves s.reserves in
    let ret = scan (page_up size) hi lo sorted in
    let inner = sa_sort_reserves-All (IsRegion lo hi) s.reserves fit.regions in
    let none_left : ret ≡ 0 → IsNull size 0 s (record s { reserves = sorted }) = λ z. record {
      place = sym z;
      null = refl;
      fit = record { order = fit.order; regions = inner };
      as_many = length-sa_sort_reserves s.reserves;
      end_same = refl;
    } in
    elim (scan-room (page_up size) lo hi lo sorted (omega arith) (omega arith) fit.order inner) [
      | inl null ↦ (0, record s { reserves = sorted }, rw null refl, inl (none_left null))
      | inr (low, high) ↦ elim (eq_or_ne ret 0) [
        | inl null ↦ (0, record s { reserves = sorted }, rw null refl, inl (none_left null))
        | inr n ↦
            let exact : u64 (ret + page_up size) ≡ ret + page_up size = omega arith in
            (
              ret,
              record s { reserves = sorted ++ ((ret, ret + page_up size) ∷ []) },
              rw (==_ne ret 0 n, lt→leb max_reserves (length s.reserves) room, exact) refl,
              inr (record {
                place = refl;
                some_ptr = n;
                fit = record {
                  order = fit.order;
                  regions =
                      All-append (IsRegion lo hi) sorted ((ret, ret + page_up size) ∷ []) inner
                        (omega arith, tt);
                };
                one_more = omega (
                  arith,
                  length-append sorted ((ret, ret + page_up size) ∷ []),
                  length-sa_sort_reserves s.reserves,
                );
                base_same = refl;
                end_same = refl;
                inside = (low, high);
                clear = λ i. (
                  (λ a.
                      let (old, new) = All-last (Clear lo i) sorted (ret, ret + page_up size) a in
                      (All-sa_sort_reserves (Clear lo i) s.reserves old, new)),
                  (λ a.
                      All-append (Clear lo i) sorted ((ret, ret + page_up size) ∷ [])
                        (sa_sort_reserves-All (Clear lo i) s.reserves a.0) (a.1, tt)),
                );
              }),
            )
      ]
    ]

-- With free room at a page boundary the startup allocator does not return null, and nothing behind it.
pub startup_alloc-reaches :
    (size p : ℕ) (s : Startup)
    → IsFit s
    → s.mem_end + size + 2 * page_size < 2 ^ 64
    → 0 < s.mem_base
    → s.mem_base ≤ p
    → p % page_size ≡ 0
    → p + page_up size ≤ s.mem_end
    → All (Disjoint (p, p + page_up size)) s.reserves
    → let q = scan (page_up size) s.mem_end s.mem_base (sa_sort_reserves s.reserves) in
      (0 < q) × (q ≤ p)
startup_alloc-reaches size p s fit small pos low al fits free =
    scan-reaches (page_up size) s.mem_base s.mem_end s.mem_base p (sa_sort_reserves s.reserves)
      (omega arith) pos (omega arith) low al fits
      (sa_sort_reserves-All (IsRegion s.mem_base s.mem_end) s.reserves fit.regions)
      (sa_sort_reserves-All (Disjoint (p, p + page_up size)) s.reserves free)

-- A run of pages that each leave a region alone leaves it alone as a whole.
run-Disjoint :
    (base j n : ℕ) (r : Region)
    → r.0 < r.1
    → ((i : ℕ) → j ≤ i → i < j + suc n → Clear base i r)
    → Disjoint (base + j * page_size, base + j * page_size + suc n * page_size) r
run-Disjoint base j zero r some_byte h = elim (h j (omega arith) (omega arith)) [
  | inl a ↦ inl (omega (arith, a))
  | inr b ↦ inr (omega (arith, b))
]
run-Disjoint base j (suc n) r some_byte h =
    elim (run-Disjoint base j n r some_byte (λ i lo up. h i lo (omega (arith, up)))) [
      | inr b ↦ inr b
      | inl a ↦ elim (h (j + suc n) (omega arith) (omega arith)) [
        | inl c ↦ inl (omega (arith, c))
        | inr c ↦ absurd (omega (arith, a, c, some_byte))
      ]
    ]

pub run-All :
    (base j n lo hi : ℕ) (rs : List Region)
    → All (IsRegion lo hi) rs
    → ((i : ℕ) → j ≤ i → i < j + suc n → All (Clear base i) rs)
    → All (Disjoint (base + j * page_size, base + j * page_size + suc n * page_size)) rs
run-All base j n lo hi [] h c = tt
run-All base j n lo hi (r ∷ rs) h c = (
  run-Disjoint base j n r h.0.1 (λ i low up. (c i low up).0),
  run-All base j n lo hi rs h.1 (λ i low up. (c i low up).1),
)
