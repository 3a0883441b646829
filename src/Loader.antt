-- ===== src/Loader.antt =====
-- The command `load` of the boot loader: shell_load_kernel of bootloader/src/shell.c. `uart_getc` and
-- `uart_getc_raw` of bootloader/src/uart.c both wait for the device, so the state is the list of what the
-- device has yet to give: a byte, or -1 for a receive error.
use osc.Common.{
  ℕ, zero, suc, ◌+◌, ◌-◌, ◌*◌, ◌/◌, ◌%◌, ◌^◌, ◌<◌, ◌≡◌, ◌≢◌, refl, sym, ap, ◌∙◌, arith, Bool, true,
  false, ◌||◌, List, [], ◌∷◌, ◌++◌, Option, none, some, map, ◌==◌, ==_ne, if◌then◌else◌, length,
  length-append,
}
use mathlib.Core.List.{append-nil}
use osc.Common.Int.{ℤ, pos, negsuc}
use osc.Common.All.{All}
use osc.Uart.{byte_of}

abbrev pub boot_magic : ℕ
boot_magic = 1414483778

-- `c == '\r' ? '\n' : c`
abbrev pub cr_to_nl : ℤ → ℤ
cr_to_nl (pos c) = if c == 13 then pos 10 else pos c
cr_to_nl (negsuc n) = negsuc n

abbrev pub is_error : ℤ → Bool
is_error (pos c) = false
is_error (negsuc n) = true

-- `a | b << 8 | c << 16 | d << 24` of the bytes or -1, whose bits are all ones: the bytes from an
-- error on are 255.
unfoldable pub le_word : ℤ → ℤ → ℤ → ℤ → ℕ
le_word a b c d =
    let e0 = is_error a in
    let e1 = e0 || is_error b in
    let e2 = e1 || is_error c in
    let e3 = e2 || is_error d in
    (if e0 then 255 else byte_of a)
    + (if e1 then 255 else byte_of b) * 2 ^ 8
    + (if e2 then 255 else byte_of c) * 2 ^ 16
    + (if e3 then 255 else byte_of d) * 2 ^ 24

-- C leaves the order of the four calls of `uart_getc` in a word to the compiler: `order` has what the
-- device gives, in the order of time, and returns what the calls get, from the left to the right.
abbrev pub Order : Type 0
Order = ℤ → ℤ → ℤ → ℤ → ℤ × ℤ × ℤ × ℤ

-- A compiler that makes the calls from the left to the right.
abbrev pub LeftToRight : Order → Type 0
LeftToRight order = (a b c d : ℤ) → order a b c d ≡ (a, b, c, d)

-- Four calls of `uart_getc`; none waits for more bytes.
unfoldable pub load_word : Order → List ℤ → Option (ℕ × List ℤ)
load_word order (a ∷ b ∷ c ∷ d ∷ rest) =
    let (w, x, y, z) = order a b c d in
    some (le_word (cr_to_nl w) (cr_to_nl x) (cr_to_nl y) (cr_to_nl z), rest)
load_word order _ = none

-- `for (i = 0; i < size; ++i) dst[i] = uart_getc_raw();`, the bytes stored.
unfoldable pub load_bytes : ℕ → List ℤ → Option (List ℕ)
load_bytes zero cs = some []
load_bytes (suc n) [] = none
load_bytes (suc n) (c ∷ cs) = elim (load_bytes n cs) [ none ↦ none | some l ↦ some (byte_of c ∷ l) ]

pub data Loaded : Type 0 where
  bad_magic : Loaded
  image : List ℕ → Loaded

abbrev pub image_of : Option (List ℕ) → Option Loaded
image_of none = none
image_of (some l) = some (image l)

-- `none` waits for more bytes.
unfoldable pub shell_load_kernel : Order → List ℤ → Option Loaded
shell_load_kernel order cs = elim (load_word order cs) [
  | none ↦ none
  | some (magic, rest) ↦ elim (load_word order rest) [
    | none ↦ none
    | some (size, body) ↦
        if magic == boot_magic then image_of (load_bytes size body) else some bad_magic
  ]
]

-- The four bytes of a word, and a transfer: magic number, size, and bytes.
abbrev pub le_bytes : ℕ → List ℤ
le_bytes x =
    pos (x % 256) ∷ pos (x / 2 ^ 8 % 256) ∷ pos (x / 2 ^ 16 % 256) ∷ pos (x / 2 ^ 24 % 256) ∷ []

abbrev pub transfer : List ℕ → List ℤ
transfer bytes = le_bytes boot_magic ++ (le_bytes (length bytes) ++ map pos bytes)

abbrev pub IsByte : ℕ → Type 0
IsByte c = c < 256

load_bytes_lem :
    (xs ys : List ℕ) → All IsByte xs → load_bytes (length xs) (map pos (xs ++ ys)) ≡ some xs
unfolding load_bytes
load_bytes_lem [] ys h = refl
load_bytes_lem (x ∷ xs) ys h =
    rw (load_bytes_lem xs ys h.1) (ap (λ b. some (b ∷ xs)) (omega (arith, h.0)))

le_word-bytes :
    (a b c d : ℕ)
    → a < 256
    → b < 256
    → c < 256
    → d < 256
    → a ≢ 13
    → b ≢ 13
    → c ≢ 13
    → d ≢ 13
    → le_word (cr_to_nl (pos a)) (cr_to_nl (pos b)) (cr_to_nl (pos c)) (cr_to_nl (pos d))
      ≡ a + b * 2 ^ 8 + c * 2 ^ 16 + d * 2 ^ 24
unfolding le_word
le_word-bytes a b c d ha hb hc hd na nb nc nd =
    rw (==_ne a 13 na, ==_ne b 13 nb, ==_ne c 13 nc, ==_ne d 13 nd) (omega arith)

-- The three upper bytes of the size are no carriage returns.
abbrev pub UpperHasNoCr : ℕ → Type 0
UpperHasNoCr n = (n / 2 ^ 8 % 256 ≢ 13) × (n / 2 ^ 16 % 256 ≢ 13) × (n / 2 ^ 24 % 256 ≢ 13)

module _ (order : Order) (left : LeftToRight order) where
  load_word-magic :
      (rest : List ℤ) → load_word order (le_bytes boot_magic ++ rest) ≡ some (boot_magic, rest)
  unfolding load_word le_word
  load_word-magic rest = rw (left (pos 66) (pos 79) (pos 79) (pos 84)) refl

  -- What is loaded if the size is read as `k`.
  load_transfer :
      (bytes : List ℕ) (k : ℕ)
      → load_word order (le_bytes (length bytes) ++ map pos bytes) ≡ some (k, map pos bytes)
      → shell_load_kernel order (transfer bytes) ≡ image_of (load_bytes k (map pos bytes))
  unfolding shell_load_kernel
  load_transfer bytes k e =
      rw (load_word-magic (le_bytes (length bytes) ++ map pos bytes), shell_load_kernel, e) refl

  -- A word of a number whose bytes are known.
  load_word_lem :
      (n : ℕ) (rest : List ℤ)
      → load_word order (le_bytes n ++ rest)
        ≡ some (
          le_word
              (cr_to_nl (pos (n % 256)))
              (cr_to_nl (pos (n / 2 ^ 8 % 256)))
              (cr_to_nl (pos (n / 2 ^ 16 % 256)))
              (cr_to_nl (pos (n / 2 ^ 24 % 256))),
          rest,
        )
  unfolding load_word
  load_word_lem n rest =
      rw
        (left (pos (n % 256)) (pos (n / 2 ^ 8 % 256)) (pos (n / 2 ^ 16 % 256))
          (pos (n / 2 ^ 24 % 256)))
        refl

  load_word-size :
      (n : ℕ) (rest : List ℤ)
      → n < 2 ^ 32
      → n % 256 ≢ 13
      → UpperHasNoCr n
      → load_word order (le_bytes n ++ rest) ≡ some (n, rest)
  load_word-size n rest h n0 up =
      load_word_lem n rest
      ∙ ap (λ k. some (k, rest))
          (le_word-bytes (n % 256) (n / 2 ^ 8 % 256) (n / 2 ^ 16 % 256) (n / 2 ^ 24 % 256)
              (omega arith) (omega arith) (omega arith) (omega arith) n0 up.0 up.1 up.2
            ∙ omega (arith, h))

  load_word-cr :
      (n : ℕ) (rest : List ℤ)
      → n < 2 ^ 32
      → n % 256 ≡ 13
      → UpperHasNoCr n
      → load_word order (le_bytes n ++ rest) ≡ some (n - 3, rest)
  load_word-cr n rest h e up =
      load_word_lem n rest
      ∙ rw e (
          ap (λ k. some (k, rest))
            (le_word-bytes 10 (n / 2 ^ 8 % 256) (n / 2 ^ 16 % 256) (n / 2 ^ 24 % 256) (omega arith)
                (omega arith) (omega arith) (omega arith) (λ c. omega arith) up.0 up.1 up.2
              ∙ omega (arith, h, e)))

  -- With a compiler that makes the calls from the left to the right, a transfer of less than 2 ^ 32 bytes
  -- in whose size none of the four bytes is 13 is loaded as it was sent.
  pub shell_load_kernel_lem :
      (bytes : List ℕ)
      → length bytes < 2 ^ 32
      → All IsByte bytes
      → length bytes % 256 ≢ 13
      → UpperHasNoCr (length bytes)
      → shell_load_kernel order (transfer bytes) ≡ some (image bytes)
  shell_load_kernel_lem bytes h b n up =
      load_transfer bytes (length bytes) (load_word-size (length bytes) (map pos bytes) h n up)
      ∙ ap image_of (
          ap (λ l. load_bytes (length bytes) (map pos l)) (sym (append-nil bytes))
          ∙ load_bytes_lem bytes [] b)

  -- With a compiler that makes the calls from the left to the right, in a transfer of less than 2 ^ 32
  -- bytes, if the lowest byte of the size is 13 and no other byte of it is, the last three bytes are not
  -- loaded: `uart_getc` turns the 13 into 10.
  pub shell_load_kernel-cr :
      (xs ys : List ℕ)
      → length ys ≡ 3
      → length (xs ++ ys) < 2 ^ 32
      → All IsByte xs
      → length (xs ++ ys) % 256 ≡ 13
      → UpperHasNoCr (length (xs ++ ys))
      → shell_load_kernel order (transfer (xs ++ ys)) ≡ some (image xs)
  shell_load_kernel-cr xs ys three h b e up =
      load_transfer (xs ++ ys) (length (xs ++ ys) - 3)
        (load_word-cr (length (xs ++ ys)) (map pos (xs ++ ys)) h e up)
      ∙ ap image_of (
          ap (λ k. load_bytes k (map pos (xs ++ ys))) (omega (arith, length-append xs ys))
          ∙ load_bytes_lem xs ys b)
