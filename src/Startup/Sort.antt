-- ===== src/Startup/Sort.antt =====
-- `sa_sort_reserves`: disjoint regions end up in the order of their addresses.
use osc.Common.{ℕ, ◌≤◌, ◌<◌, ◌⊎◌, inl, inr, arith, List, [], ◌∷◌, ◌++◌, lt_or_le, lt→ltb, le→ltb}
use osc.Common.All.{All, All-map, All-zip, All-append}
use osc.Startup.{Region, insert_back, sort_loop, unwind, sa_sort_reserves}

-- Two regions share no byte.
abbrev pub Disjoint : Region → Region → Type 0
Disjoint a b = (a.1 ≤ b.0) ⊎ (b.1 ≤ a.0)

-- A region that is not empty and lies in the memory.
abbrev pub IsRegion : ℕ → ℕ → Region → Type 0
IsRegion lo hi r = (lo ≤ r.0) × (r.0 < r.1) × (r.1 ≤ hi)

abbrev pub Separate : List Region → Type 0
Separate [] = Unit
Separate (r ∷ rs) = All (Disjoint r) rs × Separate rs

-- In the order of their addresses, from `lo` on, each ends before the next one starts.
abbrev pub Chain : ℕ → ℕ → List Region → Type 0
Chain lo hi [] = Unit
Chain lo hi (r ∷ rs) = IsRegion lo hi r × Chain r.1 hi rs

-- The same for a list given from its end.
abbrev BackChain : ℕ → ℕ → List Region → Type 0
BackChain lo hi [] = Unit
BackChain lo hi (r ∷ rs) = IsRegion lo hi r × BackChain lo r.0 rs

pub insert_back-All :
    (P : Region → Type 0) (k : Region) (rs : List Region)
    → P k
    → All P rs
    → All P (insert_back k rs)
unfolding insert_back
insert_back-All P k [] pk h = (pk, tt)
insert_back-All P k (r ∷ rs) pk h = elim (lt_or_le k.0 r.0) [
  | inl l ↦ rw (lt→ltb _ _ l) (h.0, insert_back-All P k rs pk h.1)
  | inr g ↦ rw (le→ltb _ _ g) (pk, h)
]

All-insert_back :
    (P : Region → Type 0) (k : Region) (rs : List Region)
    → All P (insert_back k rs)
    → P k × All P rs
unfolding insert_back
All-insert_back P k [] h = (h.0, tt)
All-insert_back P k (r ∷ rs) h = elim (lt_or_le k.0 r.0) [
  | inl l ↦
      let h' : P r × All P (insert_back k rs) = rw (lt→ltb _ _ l) at h in
      let (pk, rest) = All-insert_back P k rs h'.1 in (pk, (h'.0, rest))
  | inr g ↦ rw (le→ltb _ _ g) at h
]

insert_back-BackChain :
    (lo hi : ℕ) (k : Region) (rs : List Region)
    → IsRegion lo hi k
    → All (Disjoint k) rs
    → BackChain lo hi rs
    → BackChain lo hi (insert_back k rs)
unfolding insert_back
insert_back-BackChain lo hi k [] h d c = (h, tt)
insert_back-BackChain lo hi k (r ∷ rs) h d c = elim (lt_or_le k.0 r.0) [
  | inl l ↦
      rw (lt→ltb _ _ l)
        (c.0, insert_back-BackChain lo r.0 k rs (omega (arith, h, c.0, d.0)) d.1 c.1)
  | inr g ↦ rw (le→ltb _ _ g) (h, (omega (arith, h, c.0, d.0), c.1))
]

sort_loop-BackChain :
    (lo hi : ℕ) (done ks : List Region)
    → All (IsRegion lo hi) ks
    → All (λ k. All (Disjoint k) done) ks
    → Separate ks
    → BackChain lo hi done
    → BackChain lo hi (sort_loop done ks)
unfolding sort_loop
sort_loop-BackChain lo hi done [] h d s c = c
sort_loop-BackChain lo hi done (k ∷ ks) h d s c =
    sort_loop-BackChain lo hi (insert_back k done) ks h.1
      (All-zip (λ x. All (Disjoint x) done) (Disjoint k)
        (λ x. All (Disjoint x) (insert_back k done)) ks
        (λ x dx kx. insert_back-All (Disjoint x) k done (omega arith) dx) d.1 s.0)
      s.1 (insert_back-BackChain lo hi k done h.0 d.0 c)

Chain-from : (lo lo' hi : ℕ) (rs : List Region) → lo' ≤ lo → Chain lo hi rs → Chain lo' hi rs
Chain-from lo lo' hi [] h c = tt
Chain-from lo lo' hi (r ∷ rs) h c = (omega (arith, c.0), c.1)

unwind-Chain :
    (lo hi mid : ℕ) (rs acc : List Region)
    → lo ≤ mid
    → mid ≤ hi
    → BackChain lo mid rs
    → Chain mid hi acc
    → Chain lo hi (unwind rs acc)
unfolding unwind
unwind-Chain lo hi mid [] acc h k c d = Chain-from mid lo hi acc h d
unwind-Chain lo hi mid (r ∷ rs) acc h k c d =
    unwind-Chain lo hi r.0 rs (r ∷ acc) c.0.0 (omega (arith, c.0)) c.1
      (omega (arith, c.0), Chain-from mid r.1 hi acc c.0.2 d)

-- Separate regions are sorted into a chain.
pub sa_sort_reserves-Chain :
    (lo hi : ℕ) (rs : List Region)
    → lo ≤ hi
    → All (IsRegion lo hi) rs
    → Separate rs
    → Chain lo hi (sa_sort_reserves rs)
unfolding sa_sort_reserves
sa_sort_reserves-Chain lo hi rs le h s =
    unwind-Chain lo hi hi (sort_loop [] rs) [] le (omega arith)
      (sort_loop-BackChain lo hi [] rs h (nothing rs) s tt) tt
  where
    nothing : (ks : List Region) → All (λ k. All (Disjoint k) []) ks
    nothing [] = tt
    nothing (k ∷ ks) = (tt, nothing ks)

All-unwind :
    (P : Region → Type 0) (rs acc : List Region) → All P (unwind rs acc) → All P rs × All P acc
unfolding unwind
All-unwind P [] acc h = (tt, h)
All-unwind P (r ∷ rs) acc h = let (a, b) = All-unwind P rs (r ∷ acc) h in ((b.0, a), b.1)

All-sort_loop :
    (P : Region → Type 0) (done ks : List Region)
    → All P (sort_loop done ks)
    → All P done × All P ks
unfolding sort_loop
All-sort_loop P done [] h = (h, tt)
All-sort_loop P done (k ∷ ks) h =
    let (a, b) = All-sort_loop P (insert_back k done) ks h in
    let (c, d) = All-insert_back P k done a in (d, (c, b))

-- What holds of all sorted elements holds of all elements.
pub All-sa_sort_reserves :
    (P : Region → Type 0) (rs : List Region) → All P (sa_sort_reserves rs) → All P rs
unfolding sa_sort_reserves
All-sa_sort_reserves P rs h = (All-sort_loop P [] rs (All-unwind P (sort_loop [] rs) [] h).0).1

-- A chain consists of separate regions of the memory.
pub Chain-starts : (lo hi : ℕ) (rs : List Region) → Chain lo hi rs → All (λ r. lo ≤ r.0) rs
Chain-starts lo hi [] c = tt
Chain-starts lo hi (r ∷ rs) c = (
  c.0.0,
  All-map (λ q. r.1 ≤ q.0) (λ q. lo ≤ q.0) rs (λ q h. omega (arith, c.0))
      (Chain-starts r.1 hi rs c.1),
)

pub Chain-IsRegion : (lo hi : ℕ) (rs : List Region) → Chain lo hi rs → All (IsRegion lo hi) rs
Chain-IsRegion lo hi [] c = tt
Chain-IsRegion lo hi (r ∷ rs) c = (
  c.0,
  All-map (IsRegion r.1 hi) (IsRegion lo hi) rs (λ q h. omega (arith, c.0, h))
      (Chain-IsRegion r.1 hi rs c.1),
)

pub Chain-Separate : (lo hi : ℕ) (rs : List Region) → Chain lo hi rs → Separate rs
Chain-Separate lo hi [] c = tt
Chain-Separate lo hi (r ∷ rs) c = (
  All-map (λ q. r.1 ≤ q.0) (Disjoint r) rs (λ q h. inl h) (Chain-starts r.1 hi rs c.1),
  Chain-Separate r.1 hi rs c.1,
)

pub Separate-append :
    (rs : List Region) (k : Region) → All (Disjoint k) rs → Separate rs → Separate (rs ++ (k ∷ []))
Separate-append [] k d s = (tt, tt)
Separate-append (r ∷ rs) k d s =
    (All-append (Disjoint r) rs (k ∷ []) s.0 (omega (arith, d.0), tt), Separate-append rs k d.1 s.1)
