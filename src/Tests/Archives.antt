-- ===== src/Tests/Archives.antt =====
-- A newc archive of kernel/src/cpio.c, byte by byte.
use osc.Common.{ℕ, ◌-◌, ◌≡◌, refl, arith, List, [], ◌∷◌, ◌++◌}
use osc.Common.Lists.{get_or}
use osc.Common.Strings.{codes}
use osc.Utils.{str_eq}
use osc.Cpio.{digit, hex_loop, hex2int, has_magic, filesize, namesize, success, cpio_find, cpio_cat}
use osc.Cpio.Archive.{ArchiveFile, IsArchive, lookup_file, cpio_find_lem}
use osc.Cpio.Agree.{Agrees, cpio_cat-cpio_find}

abbrev zeros : List ℕ
zeros = codes "00000000"

-- The header of a file: only the sizes of the data and of the name are read.
abbrev header : List ℕ → List ℕ → List ℕ
header size name =
    codes "070701"
    ++ (zeros
        ++ (zeros
            ++ (zeros
                ++ (zeros
                    ++ (zeros
                        ++ (zeros
                            ++ (size
                                ++ (zeros
                                    ++ (zeros ++ (zeros ++ (zeros ++ (name ++ zeros))))))))))))

-- The file `hi` with five bytes, and the trailer.
abbrev bytes : List ℕ
bytes =
    header (codes "00000005") (codes "00000003")
    ++ (codes "hi"
        ++ (0
            ∷ 0
            ∷ 0
            ∷ 0
            ∷ (codes "olleh"
                ++ (0
                    ∷ 0
                    ∷ 0
                    ∷ (header zeros (codes "0000000b") ++ (codes "TRAILER!!!" ++ (0 ∷ [])))))))

abbrev memory : ℕ → ℕ
memory a = get_or bytes (a - 4096) 0

abbrev files : List ArchiveFile
files = record { name = codes "hi"; size = 5 } ∷ []

is_archive : IsArchive memory 4096 files
unfolding has_magic filesize namesize hex2int hex_loop digit
is_archive = (
  record {
    magic = refl;
    named = omega arith;
    name_length = refl;
    sized = refl;
    fits = omega arith;
    not_trailer = λ e. cc;
  },
  (refl, omega arith),
)

cpio_find_example : cpio_find memory 4096 (codes "hi") 2 ≡ success (4212, 5)
unfolding lookup_file str_eq
cpio_find_example =
    cpio_find_lem memory 4096 2 (codes "hi") files (λ e. omega arith) (omega arith) is_archive
      (omega arith)

cpio_cat-cpio_find_example :
    Agrees memory (cpio_find memory 4096 (codes "hi") 2) (cpio_cat memory 4096 (codes "hi") 2)
cpio_cat-cpio_find_example = cpio_cat-cpio_find memory 4096 2 (codes "hi")
