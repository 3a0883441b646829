-- ===== src/Utils.antt =====
-- Strings and the printing of numbers, kernel/src/utils.c and kernel/include/utils.h. A C string is
-- the list of its bytes before the zero; what is printed is the list of the bytes sent.
pub mod Text
pub mod Digits
pub mod Memory
pub mod Copy
use osc.Common.{
  ℕ, zero, suc, ◌+◌, ◌-◌, ◌*◌, ◌/◌, ◌%◌, Bool, true, false, List, [], ◌∷◌, ◌++◌, ◌==◌, ltb,
  if◌then◌else◌, update,
}

unfoldable pub str_eq : List ℕ → List ℕ → Bool
str_eq [] [] = true
str_eq [] (b ∷ ys) = false
str_eq (a ∷ xs) [] = false
str_eq (a ∷ xs) (b ∷ ys) = let rest = str_eq xs ys in if a == b then rest else false

unfoldable pub str_startswith : List ℕ → List ℕ → Bool
str_startswith str [] = true
str_startswith [] (p ∷ ps) = false
str_startswith (c ∷ cs) (p ∷ ps) = let rest = str_startswith cs ps in if c == p then rest else false

-- Byte by byte, from the first on.
unfoldable pub mem_cpy : ℕ → ℕ → ℕ → (ℕ → ℕ) → ℕ → ℕ
mem_cpy dst src zero mem = mem
mem_cpy dst src (suc n) mem = mem_cpy (dst + 1) (src + 1) n (update mem dst (mem src))

-- `'0' + nibble` or `'a' + (nibble - 10)`
abbrev pub hex_digit : ℕ → ℕ
hex_digit nibble = if ltb nibble 10 then 48 + nibble else 97 + (nibble - 10)

-- The loop that fills `buf` from its end: `n` digits are left, `rest` is filled.
unfoldable pub hex_digits : ℕ → ℕ → List ℕ → List ℕ
hex_digits zero x rest = rest
hex_digits (suc n) x rest = hex_digits n (x / 16) (hex_digit (x % 16) ∷ rest)

unfoldable pub print_hex_ulong : ℕ → List ℕ
print_hex_ulong x = hex_digits 16 x []

unfoldable pub print_hex_u32 : ℕ → List ℕ
print_hex_u32 x = hex_digits 8 x []

-- `while (x > 0 && i < 32)`, `n` places are left; the digits are sent from the last one on.
unfoldable pub dec_digits : ℕ → ℕ → List ℕ → List ℕ
dec_digits zero x rest = rest
dec_digits (suc n) x rest =
    let more = dec_digits n (x / 10) ((48 + x % 10) ∷ rest) in if x == 0 then rest else more

unfoldable pub print_dec_ulong : ℕ → List ℕ
print_dec_ulong x = if x == 0 then 48 ∷ [] else dec_digits 32 x []
