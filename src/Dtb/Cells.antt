-- ===== src/Dtb/Cells.antt =====
-- The cells of the blob of kernel/src/dtb.c: byte orders and alignment.
use osc.Common.{ℕ, ◌+◌, ◌*◌, ◌%◌, ◌^◌, ◌≤◌, ◌<◌, ◌≡◌, arith}
use osc.Dtb.{bswap_32, align_32, load_32, cell}

abbrev pub IsBytes : (ℕ → ℕ) → Type 0
IsBytes mem = (a : ℕ) → mem a < 256

-- A cell is read with its upper byte first.
pub cell_lem :
    (mem : ℕ → ℕ) (a : ℕ)
    → IsBytes mem
    → cell mem a ≡ ((mem a * 256 + mem (a + 1)) * 256 + mem (a + 2)) * 256 + mem (a + 3)
unfolding cell bswap_32 load_32
cell_lem mem a h = omega (arith, h a, h (a + 1), h (a + 2), h (a + 3))

pub bswap_32-involutive : (x : ℕ) → x < 2 ^ 32 → bswap_32 (bswap_32 x) ≡ x
unfolding bswap_32
bswap_32-involutive x h = omega arith

pub cell-lt : (mem : ℕ → ℕ) (a : ℕ) → cell mem a < 2 ^ 32
unfolding cell bswap_32
cell-lt mem a = omega arith

pub align_32_lem :
    (a : ℕ) → a + 3 < 2 ^ 64 → (a ≤ align_32 a) × (align_32 a < a + 4) × (align_32 a % 4 ≡ 0)
unfolding align_32
align_32_lem a h = omega arith
