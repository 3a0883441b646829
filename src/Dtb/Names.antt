-- ===== src/Dtb/Names.antt =====
-- The comparison of names in kernel/src/dtb.c.
use osc.Common.{
  ℕ, ◌+◌, ◌≡◌, ◌≢◌, ◌↔◌, refl, ap, true, List, [], ◌∷◌, inl, inr, ==_ne, ==_refl, eq_or_ne, ◌==◌,
  if◌then◌else◌,
}
use osc.Common.All.{All}
use osc.Utils.Memory.{CString}
use osc.Dtb.{node_name_match, name_eq}

-- A name without its unit address.
unfoldable pub base_name : List ℕ → List ℕ
base_name [] = []
base_name (c ∷ s) = let rest = base_name s in if c == 64 then [] else c ∷ rest

-- A node matches exactly the segment that is its name up to the `@`.
pub node_name_match_lem :
    (mem : ℕ → ℕ) (a : ℕ) (name seg : List ℕ)
    → CString mem a name
    → (node_name_match mem a seg ≡ true) ↔ (base_name name ≡ seg)
unfolding node_name_match base_name
node_name_match_lem mem a [] [] h = rw h ((λ e. refl), (λ e. refl))
node_name_match_lem mem a [] (d ∷ seg) h = rw h ((λ e. cc), (λ e. cc))
node_name_match_lem mem a (c ∷ name) [] h = elim (eq_or_ne c 64) [
  | inl e ↦ rw (h.0, e) ((λ e. refl), (λ e. refl))
  | inr n ↦ rw (h.0, ==_ne c 0 h.1, ==_ne c 64 n) ((λ e. cc), (λ e. cc))
]
node_name_match_lem mem a (c ∷ name) (d ∷ seg) h = elim (eq_or_ne c 64) [
  | inl e ↦ rw (h.0, e) ((λ e. cc), (λ e. cc))
  | inr n ↦
      let ih = node_name_match_lem mem (a + 1) name seg h.2 in
      rw (h.0, ==_ne c 0 h.1, ==_ne c 64 n)
        (elim (eq_or_ne c d) [
          | inl e ↦ rw (e, ==_refl d) ((λ t. ap (λ l. d ∷ l) (ih.0 t)), (λ t. ih.1 (cc)))
          | inr m ↦ rw (==_ne c d m) ((λ t. cc), (λ t. absurd (m (cc))))
        ])
]

-- A property is found under its whole name.
pub name_eq_lem :
    (mem : ℕ → ℕ) (a : ℕ) (name b : List ℕ)
    → CString mem a name
    → All (λ c. c ≢ 0) b
    → (name_eq mem a b ≡ true) ↔ (name ≡ b)
unfolding name_eq
name_eq_lem mem a [] [] h g = rw h ((λ e. refl), (λ e. refl))
name_eq_lem mem a [] (d ∷ b) h g = rw (h, ==_ne 0 d (λ e. g.0 (cc))) ((λ e. cc), (λ e. cc))
name_eq_lem mem a (c ∷ name) [] h g = rw (h.0, ==_ne c 0 h.1) ((λ e. cc), (λ e. cc))
name_eq_lem mem a (c ∷ name) (d ∷ b) h g =
    let ih = name_eq_lem mem (a + 1) name b h.2 g.1 in
    rw h.0 (elim (eq_or_ne c d) [
      | inl e ↦ rw (e, ==_refl d) ((λ t. ap (λ l. d ∷ l) (ih.0 t)), (λ t. ih.1 (cc)))
      | inr m ↦ rw (==_ne c d m) ((λ t. cc), (λ t. absurd (m (cc))))
    ])
