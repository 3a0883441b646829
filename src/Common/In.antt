-- ===== src/Common/In.antt =====
-- Membership, absence of repetitions and removal, over lists of identifiers.
use osc.Common.Tests.{◌==◌, if◌then◌else◌}
use Prim.Native.Nat.{ℕ}
use mathlib.Core.Path.{◌≡◌, refl}
use mathlib.Core.Logic.{◌≢◌, ◌⊎◌, inl, inr}
use mathlib.Core.List.{List, [], ◌∷◌, ◌++◌}
use native.Mathlib.Omega.{arith}

abbrev pub In : ℕ → List ℕ → Type 0
In a [] = ⊥
In a (x ∷ xs) = (a ≡ x) ⊎ In a xs

abbrev pub Distinct : List ℕ → Type 0
Distinct [] = Unit
Distinct (x ∷ xs) = ¬ (In x xs) × Distinct xs

-- `list_del`: the node leaves the list that holds it.
abbrev pub remove : ℕ → List ℕ → List ℕ
remove a [] = []
remove a (x ∷ xs) = if a == x then remove a xs else x ∷ remove a xs

pub remove-In : (a b : ℕ) (xs : List ℕ) → In b xs → a ≢ b → In b (remove a xs)
remove-In a b [] h n = h
remove-In a b (x ∷ xs) (inl e) n = ground arith
remove-In a b (x ∷ xs) (inr h) n = ground (arith, remove-In a b xs h n)

pub In-remove : (a b : ℕ) (xs : List ℕ) → In b (remove a xs) → In b xs
In-remove a b [] h = h
In-remove a b (x ∷ xs) h = ground (arith, In-remove a b xs)

pub In-remove-ne : (a b : ℕ) (xs : List ℕ) → In b (remove a xs) → a ≢ b
In-remove-ne a b [] h = absurd h
In-remove-ne a b (x ∷ xs) h = ground (arith, In-remove-ne a b xs)

pub In-append-left : (a : ℕ) (xs ys : List ℕ) → In a xs → In a (xs ++ ys)
In-append-left a [] ys h = absurd h
In-append-left a (x ∷ xs) ys (inl e) = inl e
In-append-left a (x ∷ xs) ys (inr h) = inr (In-append-left a xs ys h)

pub In-append-right : (a : ℕ) (xs ys : List ℕ) → In a ys → In a (xs ++ ys)
In-append-right a [] ys h = h
In-append-right a (x ∷ xs) ys h = inr (In-append-right a xs ys h)

pub In-append : (a : ℕ) (xs ys : List ℕ) → In a (xs ++ ys) → In a xs ⊎ In a ys
In-append a [] ys h = inr h
In-append a (x ∷ xs) ys (inl e) = inl (inl e)
In-append a (x ∷ xs) ys (inr h) = elim (In-append a xs ys h) [ inl l ↦ inl (inr l) | inr r ↦ inr r ]

pub remove-Distinct : (a : ℕ) (xs : List ℕ) → Distinct xs → Distinct (remove a xs)
remove-Distinct a [] d = d
remove-Distinct a (x ∷ xs) d = ground (arith, remove-Distinct a xs d.1, In-remove a x xs)

pub append-Distinct : (xs : List ℕ) (a : ℕ) → Distinct xs → ¬ (In a xs) → Distinct (xs ++ (a ∷ []))
append-Distinct [] a d n = ((λ h. h), tt)
append-Distinct (x ∷ xs) a d n = (
  (λ h. elim (In-append x xs (a ∷ []) h) [
    | inl l ↦ d.0 l
    | inr r ↦ elim r [ inl e ↦ n (inl (sym e)) | inr f ↦ f ]
  ]),
  append-Distinct xs a d.1 (λ h. n (inr h)),
)
  where
    sym : {p q : ℕ} → p ≡ q → q ≡ p
    sym e = omega arith

pub remove_absent : (a : ℕ) (xs : List ℕ) → ¬ (In a xs) → remove a xs ≡ xs
remove_absent a [] n = refl
remove_absent a (x ∷ xs) n = ground (arith, remove_absent a xs (λ h. n (inr h)))
