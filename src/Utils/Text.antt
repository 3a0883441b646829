-- ===== src/Utils/Text.antt =====
-- String comparison of kernel/src/utils.c.
use osc.Common.{
  ℕ, ◌≡◌, ◌↔◌, refl, ap, inl, inr, true, false, List, [], ◌∷◌, ◌++◌, eq_or_ne, ==_refl, ==_ne,
}
use osc.Utils.{str_eq, str_startswith}

false_true : {A : Type 0} → false ≡ true → A
false_true e = cc

-- `str_eq` tells whether two strings are equal.
pub str_eq_lem : (a b : List ℕ) → (str_eq a b ≡ true) ↔ (a ≡ b)
unfolding str_eq
str_eq_lem [] [] = ((λ _. refl), (λ _. refl))
str_eq_lem [] (b ∷ ys) = ((λ e. false_true e), (λ e. cc))
str_eq_lem (a ∷ xs) [] = ((λ e. false_true e), (λ e. cc))
str_eq_lem (a ∷ xs) (b ∷ ys) = elim (eq_or_ne a b) [
  | inl e ↦ rw e (
      rw (==_refl b)
        ((λ h. ap (λ l. b ∷ l) ((str_eq_lem xs ys).0 h)), (λ h. (str_eq_lem xs ys).1 (cc))))
  | inr n ↦ rw (==_ne a b n) ((λ h. false_true h), (λ h. absurd (n (cc))))
]

-- `str_startswith` tells whether one string is another one with something behind it.
pub str_startswith_lem :
    (s p : List ℕ) → (str_startswith s p ≡ true) ↔ ((rest : List ℕ) × (s ≡ p ++ rest))
unfolding str_startswith
str_startswith_lem s [] = ((λ _. (s, refl)), (λ _. refl))
str_startswith_lem [] (p ∷ ps) = ((λ e. false_true e), (λ h. absurd (nil_cons h.1)))
  where
    nil_cons : {x : ℕ} {xs : List ℕ} → ¬ ([] ≡ x ∷ xs)
    nil_cons e = cc
str_startswith_lem (c ∷ cs) (p ∷ ps) = elim (eq_or_ne c p) [
  | inl e ↦ rw e (
      rw (==_refl p) (
        (λ h. let r = (str_startswith_lem cs ps).0 h in (r.0, ap (λ l. p ∷ l) r.1)),
        (λ h. (str_startswith_lem cs ps).1 (h.0, tail_eq h.1)),
      ))
  | inr n ↦ rw (==_ne c p n) ((λ h. false_true h), (λ h. absurd (n (head_eq h.1))))
]
  where
    head_eq : {x y : ℕ} {xs ys : List ℕ} → x ∷ xs ≡ y ∷ ys → x ≡ y
    head_eq e = cc

    tail_eq : {x y : ℕ} {xs ys : List ℕ} → x ∷ xs ≡ y ∷ ys → xs ≡ ys
    tail_eq e = cc
