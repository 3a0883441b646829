-- ===== src/Buddy/Inv.antt =====
-- What holds of `frame_array` and the free lists between two calls, and, for the loops inside a
-- call, outside the region `R` of frames that the call has in hand.
use osc.Common.{ℕ, ◌+◌, ◌*◌, ◌^◌, ◌≤◌, ◌<◌, ◌≡◌}
use osc.Common.Int.{pos}
use osc.Common.In.{In, Distinct}
use osc.Buddy.{max_order, frame_free_part, alloc_tag, page_size, Frames, Buddy}

-- A block of order `k` starts at a multiple of its size.
abbrev pub Aligned : ℕ → ℕ → Type 0
Aligned k idx = (q : ℕ) × (idx ≡ q * 2 ^ k)

abbrev pub InBlock : ℕ → ℕ → ℕ → Type 0
InBlock k idx i = (idx ≤ i) × (i < idx + 2 ^ k)

-- Frame numbers fit the 22 bits of a tag.
abbrev pub max_pages : ℕ
max_pages = 2 ^ 22

-- Frame `idx` heads a free block of order `k`.
pub record IsFree (total : ℕ) (s : Frames) (R : ℕ → Type 0) (k idx : ℕ) : Type 0 where
  pub order_le : k ≤ max_order
  pub aligned : Aligned k idx
  pub fits : idx + 2 ^ k ≤ total
  pub head : s.frame idx ≡ pos k
  pub parts : (i : ℕ) → idx < i → i < idx + 2 ^ k → s.frame i ≡ frame_free_part
  pub outside : (i : ℕ) → InBlock k idx i → ¬ R i

-- Frame `j` starts an allocated block of order `o`.
pub record IsAllocated (total : ℕ) (s : Frames) (R : ℕ → Type 0) (o j : ℕ) : Type 0 where
  pub order_le : o ≤ max_order
  pub aligned : Aligned o j
  pub fits : j + 2 ^ o ≤ total
  pub tagged : (i : ℕ) → InBlock o j i → s.frame i ≡ alloc_tag j o
  pub outside : (i : ℕ) → InBlock o j i → ¬ R i

pub record InvOut (total : ℕ) (s : Frames) (R : ℕ → Type 0) : Type 0 where
  -- What a free list holds is a free block of that order.
  pub listed : (k idx : ℕ) → In idx (s.free_list k) → IsFree total s R k idx
  -- Every head of a free block is in the list of its order.
  pub heads :
      (k idx : ℕ)
      → k ≤ max_order
      → idx < total
      → ¬ R idx
      → s.frame idx ≡ pos k
      → In idx (s.free_list k)
  -- Every frame that is free as a part lies in a listed block: no page is lost.
  pub covered :
      (i : ℕ)
      → i < total
      → ¬ R i
      → s.frame i ≡ frame_free_part
      → (k : ℕ) × (idx : ℕ) × In idx (s.free_list k) × InBlock k idx i
  -- A tag stands in all frames of the block that it names.
  pub tags :
      (i j o : ℕ)
      → i < total
      → ¬ R i
      → j < max_pages
      → o < 256
      → s.frame i ≡ alloc_tag j o
      → InBlock o j i × IsAllocated total s R o j
  pub distinct : (k : ℕ) → Distinct (s.free_list k)

-- Nothing is in hand.
abbrev pub Nowhere : ℕ → Type 0
Nowhere _ = ⊥

abbrev pub Inv : ℕ → Frames → Type 0
Inv total s = InvOut total s Nowhere

-- The whole allocator: the region lies in the address space, above address 0, and frame numbers
-- fit a tag.
pub record IsValid (b : Buddy) : Type 0 where
  pub base_pos : 0 < b.base
  pub room : b.base + b.total_pages * page_size ≤ b.limit
  pub limit_lt : b.limit < 2 ^ 64
  pub few : b.total_pages ≤ max_pages
  pub inv : Inv b.total_pages b.frames
