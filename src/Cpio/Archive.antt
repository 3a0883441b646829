-- ===== src/Cpio/Archive.antt =====
-- The loops of kernel/src/cpio.c on an archive of files, and their agreement on every memory.
use osc.Common.{
  ℕ, zero, suc, ◌+◌, ◌*◌, ◌/◌, ◌^◌, ◌<◌, ◌≡◌, ◌≢◌, refl, ◌∙◌, arith, true, false, List, [], ◌∷◌,
  ◌++◌, Option, none, some, inl, inr, Bool-cases, ==_ne, if◌then◌else◌, length,
}
use osc.Common.All.{All}
use osc.Common.Strings.{codes}
use osc.Utils.{str_eq}
use osc.Utils.Text.{str_eq_lem}
use osc.Utils.Memory.{CString, str_eq_at, str_eq_at_lem, string_at_lem}
use osc.Cpio.{
  align_4, has_magic, filesize, namesize, filename, file_data, next_hdr, trailer, Answer, success,
  failure, find_loop, cpio_find, ls_line, ls_loop, cpio_ls,
}

pub record ArchiveFile : Type 0 where
  pub name : List ℕ
  pub size : ℕ

abbrev pub up_4 : ℕ → ℕ
up_4 n = (n + 3) / 4 * 4

-- Where the data of a file stands whose header is at `hdr`, and where the next header is.
abbrev pub data_at : ℕ → ArchiveFile → ℕ
data_at hdr f = up_4 (hdr + 110 + length f.name + 1)

abbrev pub next_at : ℕ → ArchiveFile → ℕ
next_at hdr f = up_4 (data_at hdr f + f.size)

pub record IsFile (mem : ℕ → ℕ) (hdr : ℕ) (f : ArchiveFile) : Type 0 where
  pub magic : has_magic mem hdr ≡ true
  pub named : CString mem (filename hdr) f.name
  pub name_length : namesize mem hdr ≡ length f.name + 1
  pub sized : filesize mem hdr ≡ f.size
  pub fits : data_at hdr f + f.size + 3 < 2 ^ 64
  pub not_trailer : f.name ≢ trailer

-- The files stand one after another from `ptr` on, with the trailer behind the last one.
abbrev pub IsArchive : (ℕ → ℕ) → ℕ → List ArchiveFile → Type 0
IsArchive mem ptr [] = (has_magic mem ptr ≡ true) × CString mem (filename ptr) trailer
IsArchive mem ptr (f ∷ fs) = IsFile mem ptr f × IsArchive mem (next_at ptr f) fs

-- The data of the first file with the name.
unfoldable pub lookup_file : List ℕ → ℕ → List ArchiveFile → Option (ℕ × ℕ)
lookup_file target ptr [] = none
lookup_file target ptr (f ∷ fs) =
    if str_eq f.name target
    then some (data_at ptr f, f.size)
    else lookup_file target (next_at ptr f) fs

-- The names of the files but `.`, a line for each.
unfoldable pub listing : List ArchiveFile → List ℕ
listing [] = []
listing (f ∷ fs) = (if str_eq f.name (codes ".") then [] else f.name ++ (10 ∷ [])) ++ listing fs

abbrev pub answer_of : Option (ℕ × ℕ) → Answer (ℕ × ℕ)
answer_of none = failure
answer_of (some r) = success r

trailer_nonzero : All (λ c. c ≢ 0) trailer
trailer_nonzero = omega arith

str_eq-ne : (s t : List ℕ) → s ≢ t → str_eq s t ≡ false
str_eq-ne s t n = elim (Bool-cases (str_eq s t)) [
  | inl e ↦ absurd (n ((str_eq_lem s t).0 e))
  | inr e ↦ e
]

module _ (mem : ℕ → ℕ) where
  at_trailer :
      (ptr : ℕ) → CString mem (filename ptr) trailer → str_eq_at mem (filename ptr) trailer ≡ true
  at_trailer ptr h =
      str_eq_at_lem mem (filename ptr) trailer trailer h trailer_nonzero
      ∙ (str_eq_lem trailer trailer).1 refl

  module _ (ptr : ℕ) (f : ArchiveFile) (file : IsFile mem ptr f) where
    not_at_trailer : str_eq_at mem (filename ptr) trailer ≡ false
    not_at_trailer =
        str_eq_at_lem mem (filename ptr) f.name trailer file.named trailer_nonzero
        ∙ str_eq-ne f.name trailer file.not_trailer

    file_data-data_at : file_data mem ptr ≡ data_at ptr f
    unfolding file_data align_4
    file_data-data_at = omega (arith, file.name_length, file.fits)

    next_hdr-next_at : next_hdr mem ptr ≡ next_at ptr f
    unfolding next_hdr align_4
    next_hdr-next_at = omega (arith, file_data-data_at, file.sized, file.fits)

  find_loop_lem :
      (target : List ℕ) (fs : List ArchiveFile) (fuel ptr : ℕ)
      → All (λ c. c ≢ 0) target
      → IsArchive mem ptr fs
      → length fs < fuel
      → find_loop mem target fuel ptr ≡ answer_of (lookup_file target ptr fs)
  unfolding find_loop lookup_file
  find_loop_lem target fs zero ptr t h lt = absurd (omega arith)
  find_loop_lem target [] (suc fuel) ptr t h lt = rw (h.0, at_trailer ptr h.1) refl
  find_loop_lem target (f ∷ fs) (suc fuel) ptr t h lt =
      rw
        (
          h.0.magic,
          not_at_trailer ptr f h.0,
          str_eq_at_lem mem (filename ptr) f.name target h.0.named t,
          next_hdr-next_at ptr f h.0,
          find_loop_lem target fs fuel (next_at ptr f) t h.1 (omega arith),
        )
        (elim (Bool-cases (str_eq f.name target)) [
          | inl e ↦ rw (e, file_data-data_at ptr f h.0, h.0.sized) refl
          | inr e ↦ rw e refl
        ])

  ls_loop_lem :
      (limit : ℕ) (fs : List ArchiveFile) (fuel ptr : ℕ)
      → IsArchive mem ptr fs
      → All (λ f. length f.name < limit) fs
      → length fs < fuel
      → ls_loop mem limit fuel ptr ≡ some (listing fs)
  unfolding ls_loop ls_line listing
  ls_loop_lem limit fs zero ptr h short lt = absurd (omega arith)
  ls_loop_lem limit [] (suc fuel) ptr h short lt = rw (h.0, at_trailer ptr h.1) refl
  ls_loop_lem limit (f ∷ fs) (suc fuel) ptr h short lt =
      rw
        (
          h.0.magic,
          not_at_trailer ptr f h.0,
          str_eq_at_lem mem (filename ptr) f.name (codes ".") h.0.named (omega arith),
          string_at_lem mem limit (filename ptr) f.name h.0.named short.0,
          next_hdr-next_at ptr f h.0,
          ls_loop_lem limit fs fuel (next_at ptr f) h.1 short.1 (omega arith),
        )
        (elim (Bool-cases (str_eq f.name (codes "."))) [ inl e ↦ rw e refl | inr e ↦ rw e refl ])

-- In an archive at an address that is not null whose files end in the trailer, the search for a
-- name without zeros, with fuel for a round for each file and one more, finds the first file with
-- the name and fails if there is none.
pub cpio_find_lem :
    (mem : ℕ → ℕ) (archive fuel : ℕ) (target : List ℕ) (fs : List ArchiveFile)
    → archive ≢ 0
    → All (λ c. c ≢ 0) target
    → IsArchive mem archive fs
    → length fs < fuel
    → cpio_find mem archive target fuel ≡ answer_of (lookup_file target archive fs)
unfolding cpio_find
cpio_find_lem mem archive fuel target fs n t h lt =
    rw (==_ne archive 0 n) (find_loop_lem mem target fs fuel archive t h lt)

-- The listing has a line for each file but `.`, in the order of the archive.
pub cpio_ls_lem :
    (mem : ℕ → ℕ) (limit archive fuel : ℕ) (fs : List ArchiveFile)
    → archive ≢ 0
    → IsArchive mem archive fs
    → All (λ f. length f.name < limit) fs
    → length fs < fuel
    → cpio_ls mem limit archive fuel ≡ some (listing fs)
unfolding cpio_ls
cpio_ls_lem mem limit archive fuel fs n h short lt =
    rw (==_ne archive 0 n) (ls_loop_lem mem limit fs fuel archive h short lt)
