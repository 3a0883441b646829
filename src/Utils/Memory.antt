-- ===== src/Utils/Memory.antt =====
-- Strings in memory, for the comparison of kernel/src/utils.c and for uart_puts of kernel/src/uart.c.
use osc.Common.{
  ℕ, zero, suc, ◌+◌, ◌<◌, ◌≡◌, ◌≢◌, refl, ap, Bool, false, List, [], ◌∷◌, Option, none, some, arith,
  ◌==◌, ==_ne, if◌then◌else◌, length,
}
use osc.Common.All.{All}
use osc.Utils.{str_eq}

-- The bytes of `s` stand at `a`, with a zero behind them.
abbrev pub CString : (ℕ → ℕ) → ℕ → List ℕ → Type 0
CString mem a [] = mem a ≡ 0
CString mem a (c ∷ s) = (mem a ≡ c) × (c ≢ 0) × CString mem (a + 1) s

-- The bytes stand at `a`.
abbrev pub Stored : (ℕ → ℕ) → ℕ → List ℕ → Type 0
Stored mem a [] = Unit {0}
Stored mem a (c ∷ s) = (mem a ≡ c) × Stored mem (a + 1) s

-- `str_eq` of a string in memory and another one.
unfoldable pub str_eq_at : (ℕ → ℕ) → ℕ → List ℕ → Bool
str_eq_at mem a [] = mem a == 0
str_eq_at mem a (c ∷ b) = let rest = str_eq_at mem (a + 1) b in if mem a == c then rest else false

-- The bytes that `uart_puts` sends of a string of at most `limit` bytes.
unfoldable pub string_at : (ℕ → ℕ) → ℕ → ℕ → Option (List ℕ)
string_at mem zero a = none
string_at mem (suc limit) a =
    if mem a == 0
    then some []
    else elim (string_at mem limit (a + 1)) [ none ↦ none | some s ↦ some (mem a ∷ s) ]

-- `n` bytes from `a` on.
unfoldable pub bytes_at : (ℕ → ℕ) → ℕ → ℕ → List ℕ
bytes_at mem zero a = []
bytes_at mem (suc n) a = mem a ∷ bytes_at mem n (a + 1)

pub str_eq_at_lem :
    (mem : ℕ → ℕ) (a : ℕ) (s b : List ℕ)
    → CString mem a s
    → All (λ c. c ≢ 0) b
    → str_eq_at mem a b ≡ str_eq s b
unfolding str_eq_at str_eq
str_eq_at_lem mem a [] [] h g = rw h refl
str_eq_at_lem mem a [] (d ∷ b) h g = rw (h, ==_ne 0 d (λ e. g.0 (cc))) refl
str_eq_at_lem mem a (c ∷ s) [] h g = rw (h.0, ==_ne c 0 h.1) refl
str_eq_at_lem mem a (c ∷ s) (d ∷ b) h g = rw (h.0, str_eq_at_lem mem (a + 1) s b h.2 g.1) refl

pub string_at_lem :
    (mem : ℕ → ℕ) (limit a : ℕ) (s : List ℕ)
    → CString mem a s
    → length s < limit
    → string_at mem limit a ≡ some s
unfolding string_at
string_at_lem mem zero a s h lt = absurd (omega arith)
string_at_lem mem (suc limit) a [] h lt = rw h refl
string_at_lem mem (suc limit) a (c ∷ s) h lt =
    rw (h.0, ==_ne c 0 h.1, string_at_lem mem limit (a + 1) s h.2 (omega arith))
      (ap (λ x. some (x ∷ s)) h.0)
