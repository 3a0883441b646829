-- ===== src/Shell/Args/Numbers.antt =====
-- The numbers that the commands of kernel/src/shell.c read are those that print_dec_ulong prints.
use osc.Common.{
  ℕ, zero, suc, ◌+◌, ◌-◌, ◌*◌, ◌/◌, ◌%◌, ◌^◌, ◌≤◌, ◌<◌, ◌≡◌, ◌≢◌, refl, ap, ◌∙◌, arith, true, false,
  List, [], ◌∷◌, ◌++◌, some, inl, inr, Bool-cases, eq_or_ne, ==_ne, ◌==◌, u32, length,
}
use osc.Common.Int.{pos}
use osc.Common.All.{All}
use osc.Utils.{dec_digits, print_dec_ulong}
use osc.Utils.Digits.{dec_value, print_dec_ulong_lem}
use osc.Shell.{skip_spaces}
use osc.Shell.Args.{is_digit, Number, read_digits, kill_args}

abbrev Digits : List ℕ → Type 0
Digits = All (λ c. is_digit c ≡ true)

dec_digits-Digits : (n x : ℕ) (rest : List ℕ) → Digits rest → Digits (dec_digits n x rest)
unfolding dec_digits
dec_digits-Digits zero x rest h = h
dec_digits-Digits (suc n) x rest h = elim (Bool-cases (x == 0)) [
  | inl e ↦ rw e h
  | inr e ↦ rw e (dec_digits-Digits n (x / 10) ((48 + x % 10) ∷ rest) (ground arith, h))
]

print_dec_ulong-Digits : (x : ℕ) → Digits (print_dec_ulong x)
unfolding print_dec_ulong
print_dec_ulong-Digits x = elim (Bool-cases (x == 0)) [
  | inl e ↦ rw e (refl, tt)
  | inr e ↦ rw e (dec_digits-Digits 32 x [] tt)
]

length-dec_digits : (n x : ℕ) (rest : List ℕ) → length rest ≤ length (dec_digits n x rest)
unfolding dec_digits
length-dec_digits zero x rest = omega arith
length-dec_digits (suc n) x rest = elim (Bool-cases (x == 0)) [
  | inl e ↦ rw e (omega arith)
  | inr e ↦ rw e (omega (arith, length-dec_digits n (x / 10) ((48 + x % 10) ∷ rest)))
]

first_digit : (n x : ℕ) → x ≢ 0 → 0 < length (dec_digits (suc n) x [])
unfolding dec_digits
first_digit n x h =
    rw (==_ne x 0 h) (omega (arith, length-dec_digits n (x / 10) ((48 + x % 10) ∷ [])))

length-print_dec_ulong : (x : ℕ) → 0 < length (print_dec_ulong x)
unfolding print_dec_ulong
length-print_dec_ulong x = elim (eq_or_ne x 0) [
  | inl e ↦ rw e (omega arith)
  | inr n ↦ rw (==_ne x 0 n) (first_digit 31 x n)
]

-- The reader stops at what is no digit, and has computed the value modulo 2 ^ 32.
abbrev Stops : List ℕ → Type 0
Stops [] = Unit {0}
Stops (c ∷ p) = is_digit c ≡ false

number_eq :
    (b b' k k' : ℕ) (rest : List ℕ)
    → b ≡ b'
    → k ≡ k'
    → ◌≡◌ {A = Number}
        (record { bits = b; digits = k; rest = rest })
        (record { bits = b'; digits = k'; rest = rest })
number_eq b b' k k' rest e g = rw (e, g) refl

read_digits-append :
    (ds rest : List ℕ) (n k : ℕ)
    → Digits ds
    → Stops rest
    → read_digits (u32 n) k (ds ++ rest)
      ≡ record { bits = u32 (dec_value n ds); digits = k + length ds; rest = rest }
unfolding read_digits dec_value
read_digits-append [] [] n k h s = number_eq (u32 n) (u32 n) k (k + 0) [] refl (omega arith)
read_digits-append [] (c ∷ p) n k h s =
    rw s (number_eq (u32 n) (u32 n) k (k + 0) (c ∷ p) refl (omega arith))
read_digits-append (d ∷ ds) rest n k h s = rw h.0 (
    ap (λ v. read_digits v (k + 1) (ds ++ rest)) (word n (d - 48))
    ∙ read_digits-append ds rest (n * 10 + (d - 48)) (k + 1) h.1 s
    ∙ number_eq _ _ _ _ rest refl (omega arith))
  where
    word : (n d : ℕ) → u32 (u32 n * 10 + d) ≡ u32 (n * 10 + d)
    word n d = omega arith

skip_spaces-Digits :
    (ds rest : List ℕ) → Digits ds → 0 < length ds → skip_spaces (ds ++ rest) ≡ ds ++ rest
unfolding skip_spaces
skip_spaces-Digits [] rest h lt = absurd (omega arith)
skip_spaces-Digits (d ∷ ds) rest h lt = rw (==_ne d 32 (not_space d h.0)) refl
  where
    not_space : (d : ℕ) → is_digit d ≡ true → d ≢ 32
    not_space d h = ground arith

read_printed :
    (x : ℕ) (rest : List ℕ)
    → x < 2 ^ 31
    → Stops rest
    → read_digits 0 0 (skip_spaces (print_dec_ulong x ++ rest))
      ≡ record { bits = x; digits = length (print_dec_ulong x); rest = rest }
read_printed x rest h s =
    rw
      (skip_spaces-Digits (print_dec_ulong x) rest (print_dec_ulong-Digits x)
        (length-print_dec_ulong x))
      (read_digits-append (print_dec_ulong x) rest 0 0 (print_dec_ulong-Digits x) s
        ∙ number_eq _ x _ (length (print_dec_ulong x)) rest
            (ap (λ v. u32 v) (print_dec_ulong_lem x (omega arith)) ∙ omega arith) (omega arith))

read_behind_space :
    (x : ℕ) (rest : List ℕ)
    → x < 2 ^ 31
    → Stops rest
    → read_digits 0 0 (skip_spaces (32 ∷ (print_dec_ulong x ++ rest)))
      ≡ record { bits = x; digits = length (print_dec_ulong x); rest = rest }
unfolding skip_spaces
read_behind_space x rest h s = read_printed x rest h s

-- The arguments of `kill` are read back as a pid below 2 ^ 31 and a signal from 1 to 31 that
-- `print_dec_ulong` has printed, with a space between them; what follows the second number does
-- not matter if it does not start with a digit.
pub kill_args-print_dec_ulong :
    (pid signum : ℕ) (rest : List ℕ)
    → pid < 2 ^ 31
    → 0 < signum
    → signum < 32
    → Stops rest
    → kill_args (print_dec_ulong pid ++ (32 ∷ (print_dec_ulong signum ++ rest)))
      ≡ some (pos pid, pos signum)
unfolding kill_args
kill_args-print_dec_ulong pid signum rest hp h0 hs s =
    rw (read_printed pid (32 ∷ (print_dec_ulong signum ++ rest)) hp refl) (
      rw (read_behind_space signum rest (omega arith) s)
        (ground (arith, length-print_dec_ulong pid, length-print_dec_ulong signum)))
