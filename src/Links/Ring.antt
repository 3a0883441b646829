-- ===== src/Links/Ring.antt =====
-- The sequence of nodes that a list head stands for.
use osc.Common.{ℕ, ◌≡◌, ◌⊎◌, inl, inr, refl, sym, ◌∙◌, ◌↔◌, true, List, [], ◌∷◌, ==_iff, ==_refl}
use osc.Common.In.{In, Distinct}
use osc.Links.{Links, init_list_head, list_empty}

-- From `a` the links go through `xs` to `b`, and back.
abbrev pub Seg : Links → ℕ → List ℕ → ℕ → Type 0
Seg m a [] b = (m.next a ≡ b) × (m.prev b ≡ a)
Seg m a (x ∷ xs) b = (m.next a ≡ x) × (m.prev x ≡ a) × Seg m x xs b

-- The list of `head` is the sequence `xs`.
pub record IsRing (m : Links) (head : ℕ) (xs : List ℕ) : Type 0 where
  pub seg : Seg m head xs head
  pub distinct : Distinct (head ∷ xs)

-- Writes elsewhere leave a segment as it is.
pub Seg-frame :
    (m m' : Links) (a : ℕ) (xs : List ℕ) (b : ℕ)
    → ((c : ℕ) → In c (a ∷ xs) → m'.next c ≡ m.next c)
    → ((c : ℕ) → In c xs ⊎ (c ≡ b) → m'.prev c ≡ m.prev c)
    → Seg m a xs b
    → Seg m' a xs b
Seg-frame m m' a [] b n p s = (n a (inl refl) ∙ s.0, p b (inr refl) ∙ s.1)
Seg-frame m m' a (x ∷ xs) b n p s = (
  n a (inl refl) ∙ s.0,
  p x (inl (inl refl)) ∙ s.1,
  Seg-frame m m' x xs b (λ c h. n c (inr h))
      (λ c h. elim h [ inl i ↦ p c (inl (inr i)) | inr e ↦ p c (inr e) ]) s.2,
)

-- What stands before the end of a segment, and after its start, is of the segment.
pub prev_end : (m : Links) (a : ℕ) (xs : List ℕ) (b : ℕ) → Seg m a xs b → In (m.prev b) (a ∷ xs)
prev_end m a [] b s = inl s.1
prev_end m a (x ∷ xs) b s = inr (prev_end m x xs b s.2)

pub next_start :
    (m : Links) (a : ℕ) (xs : List ℕ) (b : ℕ) → Seg m a xs b → In (m.next a) xs ⊎ (m.next a ≡ b)
next_start m a [] b s = inr s.0
next_start m a (x ∷ xs) b s = inl (inl s.0)

-- A head that is initialised stands for the empty sequence.
pub init_list_head-IsRing : (head : ℕ) (m : Links) → IsRing (init_list_head head m) head []
unfolding init_list_head
init_list_head-IsRing head m = record {
  seg = (rw (==_refl head), rw (==_refl head));
  distinct = ((λ h. h), tt);
}

-- `list_empty` tells whether the sequence is empty.
pub list_empty_lem :
    (m : Links) (head : ℕ) (xs : List ℕ) → IsRing m head xs → (list_empty head m ≡ true) ↔ (xs ≡ [])
unfolding list_empty
list_empty_lem m head [] r = ((λ _. refl), (λ _. (==_iff _ _).1 (r.seg.0)))
list_empty_lem m head (x ∷ xs) r = (
  (λ e. absurd (r.distinct.0 (inl (sym ((==_iff (m.next head) head).0 e) ∙ r.seg.0)))),
  (λ e. cc),
)
