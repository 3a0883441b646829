-- ===== src/Cpio/Agree.antt =====
-- cpio_cat and cpio_find of kernel/src/cpio.c on every memory.
use osc.Common.{
  ℕ, zero, suc, ◌+◌, ◌-◌, ◌<◌, ◌≢◌, ◌⊎◌, ap, ◌∙◌, arith, [], ◌∷◌, length, eq_or_ne, lt→ltb, ==_ne,
  get_or, ◌≡◌, refl, Bool, true, false, List, ◌++◌, Option, none, some, inl, inr, Bool-cases, ◌==◌,
}
use osc.Common.Strings.{codes}
use osc.Utils.Memory.{str_eq_at, bytes_at}
use osc.Cpio.{
  has_magic, filename, file_data, filesize, next_hdr, trailer, Answer, success, failure, unfinished,
  find_loop, cpio_find, cat_file, cat_loop, cpio_cat,
}

-- The output for a file: its bytes in the order of memory, and then a newline if and only if the file
-- is not empty and its last byte is none.
pub record IsPrinted (mem : ℕ → ℕ) (start size : ℕ) (out : List ℕ) : Type 0 where
  pub shown : List ℕ
  pub exact : length shown ≡ size
  pub each : (i : ℕ) → i < size → get_or shown i 0 ≡ mem (start + i)
  pub ending :
      ((out ≡ shown) × ((size ≡ 0) ⊎ (mem (start + size - 1) ≡ 10)))
      ⊎ ((out ≡ shown ++ (10 ∷ [])) × (0 < size) × (mem (start + size - 1) ≢ 10))

-- What is printed for an answer, and whether 0 is returned; a message for a failure.
abbrev pub Agrees : (ℕ → ℕ) → Answer (ℕ × ℕ) → Option (List ℕ × Bool) → Type 0
Agrees mem (success r) o = (out : List ℕ) × (o ≡ some (out, true)) × IsPrinted mem r.0 r.1 out
Agrees mem failure o = (s : List ℕ) × (o ≡ some (s, false))
Agrees mem unfinished o = o ≡ none

bytes-length : (mem : ℕ → ℕ) (size start : ℕ) → length (bytes_at mem size start) ≡ size
unfolding bytes_at
bytes-length mem zero start = refl
bytes-length mem (suc size) start = ap suc (bytes-length mem size (start + 1))

bytes-each :
    (mem : ℕ → ℕ) (size start i : ℕ)
    → i < size
    → get_or (bytes_at mem size start) i 0 ≡ mem (start + i)
unfolding bytes_at
bytes-each mem zero start i h = absurd (omega (arith, h))
bytes-each mem (suc size) start zero h = ap mem (omega arith)
bytes-each mem (suc size) start (suc i) h =
    bytes-each mem size (start + 1) i (omega (arith, h)) ∙ ap mem (omega arith)

cat_file-IsPrinted :
    (mem : ℕ → ℕ) (start size : ℕ) → IsPrinted mem start size (cat_file mem start size)
unfolding cat_file
cat_file-IsPrinted mem start size = record {
  shown = bytes_at mem size start;
  exact = bytes-length mem size start;
  each = bytes-each mem size start;
  ending = elim (eq_or_ne size 0) [
    | inl z ↦ rw (z) (inl (refl, inl refl))
    | inr n ↦ elim (eq_or_ne (mem (start + size - 1)) 10) [
      | inl e ↦ rw (lt→ltb 0 size (omega (arith, n)), e) (inl (refl, inr refl))
      | inr m ↦
          rw (lt→ltb 0 size (omega (arith, n)), ==_ne (mem (start + size - 1)) 10 m)
            (inr (refl, omega (arith, n), m))
    ]
  ];
}

loops_agree :
    (mem : ℕ → ℕ) (target : List ℕ) (fuel ptr : ℕ)
    → Agrees mem (find_loop mem target fuel ptr) (cat_loop mem target fuel ptr)
unfolding find_loop cat_loop
loops_agree mem target zero ptr = refl
loops_agree mem target (suc fuel) ptr = elim (Bool-cases (has_magic mem ptr)) [
  | inr e ↦ rw e (codes "cpio: Invalid magic.\n", refl)
  | inl e ↦ rw e (elim (Bool-cases (str_eq_at mem (filename ptr) trailer)) [
    | inl t ↦ rw t (codes "cat: " ++ (target ++ codes ": No such file or directory\n"), refl)
    | inr t ↦ rw t (elim (Bool-cases (str_eq_at mem (filename ptr) target)) [
      | inl s ↦ rw s (
        cat_file mem (file_data mem ptr) (filesize mem ptr),
        refl,
        cat_file-IsPrinted mem (file_data mem ptr) (filesize mem ptr),
      )
      | inr s ↦ rw s (loops_agree mem target fuel (next_hdr mem ptr))
    ])
  ])
]

-- Where `cpio_find` finds a file, `cpio_cat` returns 0 and prints the bytes of that file, with a newline
-- behind them if they do not end in one; where it fails `cpio_cat` prints a message and fails, and where
-- the fuel is not enough for one it is not for the other; all this whatever the memory holds.
pub cpio_cat-cpio_find :
    (mem : ℕ → ℕ) (archive fuel : ℕ) (target : List ℕ)
    → Agrees mem (cpio_find mem archive target fuel) (cpio_cat mem archive target fuel)
unfolding cpio_find cpio_cat
cpio_cat-cpio_find mem archive fuel target = elim (Bool-cases (archive == 0)) [
  | inl e ↦ rw e (codes "cpio: No initrd found.\n", refl)
  | inr e ↦ rw e (loops_agree mem target fuel archive)
]
