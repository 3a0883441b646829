-- ===== src/Utils/Digits.antt =====
-- The digits that `print_dec_ulong` and `print_hex_ulong` of kernel/src/utils.c send.
use osc.Common.{
  ℕ, zero, suc, ◌+◌, ◌-◌, ◌*◌, ◌/◌, ◌%◌, ◌^◌, ◌<◌, ◌≡◌, refl, ap, ◌∙◌, inl, inr, arith, List, [],
  ◌∷◌, eq_or_ne, ==_ne, ltb, if◌then◌else◌, length,
}
use osc.Utils.{hex_digit, hex_digits, print_hex_ulong, dec_digits, print_dec_ulong}

-- The number that decimal digits stand for, behind those that make `acc`.
unfoldable pub dec_value : ℕ → List ℕ → ℕ
dec_value acc [] = acc
dec_value acc (c ∷ cs) = dec_value (acc * 10 + (c - 48)) cs

-- The value of a hexadecimal digit.
abbrev pub nibble_of : ℕ → ℕ
nibble_of c = if ltb c 58 then c - 48 else c - 87

unfoldable pub hex_value : ℕ → List ℕ → ℕ
hex_value acc [] = acc
hex_value acc (c ∷ cs) = hex_value (acc * 16 + nibble_of c) cs

nibble-hex_digit : (d : ℕ) → d < 16 → nibble_of (hex_digit d) ≡ d
nibble-hex_digit d h = ground arith

digit_step : (x : ℕ) → x / 16 * 16 + nibble_of (hex_digit (x % 16)) ≡ x
digit_step x = let d = nibble-hex_digit (x % 16) (omega arith) in omega (arith, d)

pub hex_digits-value :
    (n x : ℕ) (rest : List ℕ) → x < 16 ^ n → hex_value 0 (hex_digits n x rest) ≡ hex_value x rest
unfolding hex_digits hex_value
hex_digits-value zero x rest h = ap (λ a. hex_value a rest) (omega (arith, h))
hex_digits-value (suc n) x rest h =
    hex_digits-value n (x / 16) (hex_digit (x % 16) ∷ rest) (omega (arith, h))
    ∙ ap (λ a. hex_value a rest) (digit_step x)

dec_digits-value :
    (n x : ℕ) (rest : List ℕ) → x < 10 ^ n → dec_value 0 (dec_digits n x rest) ≡ dec_value x rest
unfolding dec_digits dec_value
dec_digits-value zero x rest h = ap (λ a. dec_value a rest) (omega (arith, h))
dec_digits-value (suc n) x rest h = elim (eq_or_ne x 0) [
  | inl e ↦ rw e refl
  | inr k ↦ rw (==_ne x 0 k) (
      dec_digits-value n (x / 10) ((48 + x % 10) ∷ rest) (omega (arith, h))
      ∙ ap (λ a. dec_value a rest) (omega arith))
]

pub length-hex_digits : (n x : ℕ) (rest : List ℕ) → length (hex_digits n x rest) ≡ n + length rest
unfolding hex_digits
length-hex_digits zero x rest = omega arith
length-hex_digits (suc n) x rest =
    length-hex_digits n (x / 16) (hex_digit (x % 16) ∷ rest) ∙ omega arith

-- `print_hex_ulong` sends 16 digits, and they stand for the number printed.
pub print_hex_ulong_lem :
    (x : ℕ) → x < 2 ^ 64 → (length (print_hex_ulong x) ≡ 16) × (hex_value 0 (print_hex_ulong x) ≡ x)
unfolding print_hex_ulong hex_value
print_hex_ulong_lem x h = (length-hex_digits 16 x [], hex_digits-value 16 x [] (omega (arith, h)))

-- The digits that `print_dec_ulong` sends stand for the number printed: its buffer is long enough for
-- every 64-bit word.
pub print_dec_ulong_lem : (x : ℕ) → x < 2 ^ 64 → dec_value 0 (print_dec_ulong x) ≡ x
unfolding print_dec_ulong dec_value
print_dec_ulong_lem x h = elim (eq_or_ne x 0) [
  | inl e ↦ rw e refl
  | inr n ↦ rw (==_ne x 0 n) (dec_digits-value 32 x [] (omega (arith, h)))
]
