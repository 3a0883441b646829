-- ===== src/Kmalloc/Slice.antt =====
-- Slicing a page into chunks.
use osc.Common.{
  ℕ, zero, suc, ◌+◌, ◌*◌, ◌^◌, ◌≤◌, ◌<◌, ◌≡◌, ◌≢◌, ◌⊎◌, inl, inr, ◌∙◌, arith, List, [], ◌∷◌, u64,
}
use osc.Common.In.{In, Distinct}
use osc.Kmalloc.{slice}
use osc.Kmalloc.Inv.{multiple}

exact : (n i page sz : ℕ) → page + (i + suc n) * sz < 2 ^ 64 → u64 (page + i * sz) ≡ page + i * sz
exact n i page sz room = omega arith

-- The chunks that slicing adds.
pub slice-In :
    (n i page sz x : ℕ) (list : List ℕ)
    → page + (i + n) * sz < 2 ^ 64
    → In x (slice n i page sz list)
    → In x list ⊎ ((j : ℕ) × (i ≤ j) × (j < i + n) × (x ≡ page + j * sz))
unfolding slice
slice-In zero i page sz x list room h = inl h
slice-In (suc n) i page sz x list room h =
    elim (slice-In n (i + 1) page sz x (u64 (page + i * sz) ∷ list) (omega arith) h) [
      | inl a ↦ elim a [
        | inl e ↦ inr (i, omega arith, omega arith, e ∙ exact n i page sz room)
        | inr b ↦ inl b
      ]
      | inr (j, lo, hi, e) ↦ inr (j, omega arith, omega arith, e)
    ]

pub slice-Distinct :
    (n i page sz : ℕ) (list : List ℕ)
    → 0 < sz
    → page + (i + n) * sz < 2 ^ 64
    → Distinct list
    → ((j : ℕ) → i ≤ j → j < i + n → ¬ In (page + j * sz) list)
    → Distinct (slice n i page sz list)
unfolding slice
slice-Distinct zero i page sz list some_size room d fresh = d
slice-Distinct (suc n) i page sz list some_size room d fresh =
    slice-Distinct n (i + 1) page sz (u64 (page + i * sz) ∷ list) some_size (omega arith)
      (rw (exact n i page sz room) (fresh i (omega arith) (omega arith), d)) later
  where
    later : (j : ℕ) → i + 1 ≤ j → j < i + 1 + n → ¬ In (page + j * sz) (u64 (page + i * sz) ∷ list)
    later j lo hi (inl e) =
        absurd (omega (arith, e, exact n i page sz room, multiple i j sz (omega arith)))
    later j lo hi (inr h) = fresh j (omega arith) (omega arith) h

grows : (n i page sz : ℕ) (list : List ℕ) → list ≢ [] → slice n i page sz list ≢ []
unfolding slice
grows zero i page sz list h = h
grows (suc n) i page sz list h = grows n (i + 1) page sz (u64 (page + i * sz) ∷ list) (λ e. cc)

pub slice-ne-nil : (n i page sz : ℕ) (list : List ℕ) → 0 < n → slice n i page sz list ≢ []
unfolding slice
slice-ne-nil zero i page sz list h = absurd (omega arith)
slice-ne-nil (suc n) i page sz list h =
    grows n (i + 1) page sz (u64 (page + i * sz) ∷ list) (λ e. cc)
