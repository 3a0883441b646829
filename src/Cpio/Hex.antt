-- ===== src/Cpio/Hex.antt =====
-- The numbers in the headers of kernel/src/cpio.c are those that kernel/src/utils.c prints.
use osc.Common.{
  ℕ, zero, suc, ◌+◌, ◌*◌, ◌/◌, ◌%◌, sym, ◌^◌, ◌<◌, ◌≡◌, refl, ap, ◌∙◌, arith, List, [], ◌∷◌, length,
  u64,
}
use osc.Common.All.{All}
use osc.Utils.{hex_digit, hex_digits, print_hex_u32}
use osc.Utils.Digits.{nibble_of, hex_value, hex_digits-value, length-hex_digits}
use osc.Utils.Memory.{Stored}
use osc.Cpio.{digit, hex_loop, hex2int}

abbrev IsLowerHex : ℕ → Type 0
IsLowerHex c = digit c ≡ nibble_of c

hex_digit-IsLowerHex : (d : ℕ) → d < 16 → IsLowerHex (hex_digit d)
unfolding digit
hex_digit-IsLowerHex d h = ground arith

hex_digits-IsLowerHex :
    (n x : ℕ) (rest : List ℕ) → All IsLowerHex rest → All IsLowerHex (hex_digits n x rest)
unfolding hex_digits
hex_digits-IsLowerHex zero x rest h = h
hex_digits-IsLowerHex (suc n) x rest h =
    hex_digits-IsLowerHex n (x / 16) (hex_digit (x % 16) ∷ rest)
      (hex_digit-IsLowerHex (x % 16) (omega arith), h)

-- The loop computes the value of the digits modulo the size of a word.
hex_loop-value :
    (mem : ℕ → ℕ) (cs : List ℕ) (hex val : ℕ)
    → All IsLowerHex cs
    → Stored mem hex cs
    → hex_loop mem (length cs) hex (u64 val) ≡ u64 (hex_value val cs)
unfolding hex_loop hex_value
hex_loop-value mem [] hex val h s = refl
hex_loop-value mem (c ∷ cs) hex val h s =
    ap (λ v. hex_loop mem (length cs) (hex + 1) v)
      (word val (digit (mem hex)) (nibble_of c) (ap digit s.0 ∙ h.0))
    ∙ hex_loop-value mem cs (hex + 1) (val * 16 + nibble_of c) h.1 s.1
  where
    word : (v d e : ℕ) → d ≡ e → u64 (u64 (u64 v * 16) + d) ≡ u64 (v * 16 + e)
    word v d e h = omega arith

-- `hex2int` reads back the digits that `print_hex_u32` prints.
pub hex2int-print_hex_u32 :
    (mem : ℕ → ℕ) (a x : ℕ) → x < 2 ^ 32 → Stored mem a (print_hex_u32 x) → hex2int mem a 8 ≡ x
unfolding hex2int print_hex_u32 hex_value
hex2int-print_hex_u32 mem a x h s =
    let value = hex_digits-value 8 x [] (omega (arith, h)) in
    let loop = hex_loop-value mem (hex_digits 8 x []) a 0 (hex_digits-IsLowerHex 8 x [] tt) s in
    ap (λ n. hex_loop mem n a 0) (sym (length-hex_digits 8 x []))
    ∙ loop
    ∙ ap (λ v. u64 v) value
    ∙ omega arith
