-- ===== src/Cpio.antt =====
-- The archive of the initial ramdisk, kernel/src/cpio.c: headers, and the loops of cpio_ls, cpio_cat and
-- cpio_find. Memory is a function from addresses to bytes; the loops run on fuel, and `limit` bounds
-- the names that cpio_ls prints.
pub mod Archive
pub mod Agree
pub mod Hex
use osc.Common.{
  ℕ, zero, suc, ◌+◌, ◌-◌, ◌*◌, ◌/◌, ◌%◌, Bool, true, false, ◌&&◌, not, List, [], ◌∷◌, ◌++◌, Option,
  none, some, ◌==◌, ltb, leb, if◌then◌else◌, u64,
}
use osc.Common.Strings.{codes}
use osc.Utils.Memory.{str_eq_at, string_at, bytes_at}

-- What is added to `val` for a character; nothing for one that is no digit.
unfoldable pub digit : ℕ → ℕ
digit c =
    if leb 48 c && leb c 57
    then c - 48
    else if leb 65 c && leb c 70
    then c - 65 + 10
    else if leb 97 c && leb c 102
    then c - 97 + 10
    else 0

-- `for (i = 0; i < len; i++)`, at `hex + i`
unfoldable pub hex_loop : (ℕ → ℕ) → ℕ → ℕ → ℕ → ℕ
hex_loop mem zero hex val = val
hex_loop mem (suc len) hex val = hex_loop mem len (hex + 1) (u64 (u64 (val * 16) + digit (mem hex)))

unfoldable pub hex2int : (ℕ → ℕ) → ℕ → ℕ → ℕ
hex2int mem hex len = hex_loop mem len hex 0

unfoldable pub align_4 : ℕ → ℕ
align_4 addr = u64 (addr + 3) / 4 * 4

-- The fields of the header that the code reads: the magic number, at 0, the file's size, at 54, and the
-- name's, at 94; the name stands behind the 110 bytes of the header.
unfoldable pub has_magic : (ℕ → ℕ) → ℕ → Bool
has_magic mem hdr =
    mem hdr == 48
    && mem (hdr + 1) == 55
    && mem (hdr + 2) == 48
    && mem (hdr + 3) == 55
    && mem (hdr + 4) == 48
    && mem (hdr + 5) == 49

unfoldable pub filesize : (ℕ → ℕ) → ℕ → ℕ
filesize mem hdr = hex2int mem (hdr + 54) 8

unfoldable pub namesize : (ℕ → ℕ) → ℕ → ℕ
namesize mem hdr = hex2int mem (hdr + 94) 8

abbrev pub filename : ℕ → ℕ
filename hdr = hdr + 110

unfoldable pub file_data : (ℕ → ℕ) → ℕ → ℕ
file_data mem hdr = align_4 (u64 (filename hdr + namesize mem hdr))

unfoldable pub next_hdr : (ℕ → ℕ) → ℕ → ℕ
next_hdr mem hdr = align_4 (u64 (file_data mem hdr + filesize mem hdr))

abbrev pub trailer : List ℕ
trailer = codes "TRAILER!!!"

-- The answer of a search: a value, -1, or no answer with the fuel given.
pub data Answer (A : Type 0) : Type 0 where
  success : A → Answer A
  failure : Answer A
  unfinished : Answer A

-- The address and the size of the file.
unfoldable pub find_loop : (ℕ → ℕ) → List ℕ → ℕ → ℕ → Answer (ℕ × ℕ)
find_loop mem target zero ptr = unfinished
find_loop mem target (suc fuel) ptr =
    let rest = find_loop mem target fuel (next_hdr mem ptr) in
    if has_magic mem ptr
    then if str_eq_at mem (filename ptr) trailer
      then failure
      else if str_eq_at mem (filename ptr) target
      then success (file_data mem ptr, filesize mem ptr)
      else rest
    else failure

-- A null archive is 0.
unfoldable pub cpio_find : (ℕ → ℕ) → ℕ → List ℕ → ℕ → Answer (ℕ × ℕ)
cpio_find mem archive target fuel =
    if archive == 0 then failure else find_loop mem target fuel archive

-- The bytes of a file with a newline behind them if they do not end in one.
unfoldable pub cat_file : (ℕ → ℕ) → ℕ → ℕ → List ℕ
cat_file mem start size =
    if ltb 0 size && not (mem (start + size - 1) == 10)
    then bytes_at mem size start ++ (10 ∷ [])
    else bytes_at mem size start

-- What is sent to the UART, and whether 0 is returned.
unfoldable pub cat_loop : (ℕ → ℕ) → List ℕ → ℕ → ℕ → Option (List ℕ × Bool)
cat_loop mem target zero ptr = none
cat_loop mem target (suc fuel) ptr =
    let rest = cat_loop mem target fuel (next_hdr mem ptr) in
    if has_magic mem ptr
    then if str_eq_at mem (filename ptr) trailer
      then some (codes "cat: " ++ (target ++ codes ": No such file or directory\n"), false)
      else if str_eq_at mem (filename ptr) target
      then some (cat_file mem (file_data mem ptr) (filesize mem ptr), true)
      else rest
    else some (codes "cpio: Invalid magic.\n", false)

unfoldable pub cpio_cat : (ℕ → ℕ) → ℕ → List ℕ → ℕ → Option (List ℕ × Bool)
cpio_cat mem archive target fuel =
    if archive == 0
    then some (codes "cpio: No initrd found.\n", false)
    else cat_loop mem target fuel archive

-- The line of a file, none for the current directory.
unfoldable pub ls_line : (ℕ → ℕ) → ℕ → ℕ → Option (List ℕ)
ls_line mem limit name =
    if str_eq_at mem name (codes ".")
    then some []
    else elim (string_at mem limit name) [ none ↦ none | some s ↦ some (s ++ (10 ∷ [])) ]

abbrev pub append_line : Option (List ℕ) → Option (List ℕ) → Option (List ℕ)
append_line none rest = none
append_line (some l) none = none
append_line (some l) (some rest) = some (l ++ rest)

unfoldable pub ls_loop : (ℕ → ℕ) → ℕ → ℕ → ℕ → Option (List ℕ)
ls_loop mem limit zero ptr = none
ls_loop mem limit (suc fuel) ptr =
    let rest = ls_loop mem limit fuel (next_hdr mem ptr) in
    if has_magic mem ptr
    then if str_eq_at mem (filename ptr) trailer
      then some []
      else append_line (ls_line mem limit (filename ptr)) rest
    else some (codes "cpio: Invalid magic.\n")

unfoldable pub cpio_ls : (ℕ → ℕ) → ℕ → ℕ → ℕ → Option (List ℕ)
cpio_ls mem limit archive fuel =
    if archive == 0 then some (codes "cpio: No initrd found.\n") else ls_loop mem limit fuel archive
