-- ===== src/Video.antt =====
-- The framebuffer, kernel/src/video.c, and `sys_display` of kernel/src/syscall.c. Memory is a function from
-- addresses to bytes; the data cache is not part of it.
pub mod Blit
use osc.Common.{ℕ, zero, suc, ◌+◌, ◌-◌, ◌*◌, ◌/◌, Bool, ◌||◌, ◌==◌, ltb, if◌then◌else◌, u64}
use osc.Common.Int.{ℤ, pos, negsuc}
use osc.Buddy.{Buddy}
use osc.Utils.{mem_cpy}
use osc.Process.{in_user_range}

abbrev pub fb_width : ℕ
fb_width = 1920

abbrev pub fb_height : ℕ
fb_height = 1080

abbrev pub fb_size : ℕ
fb_size = 8294400

-- The address of the pixel at `x` in the line `y` of a buffer `width` pixels wide.
abbrev pub pixel : ℕ → ℕ → ℕ → ℕ → ℕ
pixel buf width y x = buf + (y * width + x) * 4

-- `for (y = 0; y < height; y++)`, `n` lines are left; the image starts at `start_x` and `start_y`.
unfoldable pub blit : ℕ → ℕ → ℕ → ℕ → ℕ → ℕ → ℕ → (ℕ → ℕ) → ℕ → ℕ
blit fb bmp width start_x start_y zero y mem = mem
blit fb bmp width start_x start_y (suc n) y mem =
    blit fb bmp width start_x start_y n (y + 1)
      (mem_cpy (pixel fb fb_width (start_y + y) start_x) (pixel bmp width y 0) (width * 4) mem)

-- The width and the height are at most those of the framebuffer, which is at `fb`.
unfoldable pub video_bmp_display : ℕ → ℕ → ℕ → ℕ → (ℕ → ℕ) → ℕ → ℕ
video_bmp_display fb bmp width height mem =
    blit fb bmp width ((fb_width - width) / 2) ((fb_height - height) / 2) height 0 mem

-- 0 or -1, and the memory.
unfoldable pub sys_display : ℕ → ℕ → ℕ → ℕ → Buddy → (ℕ → ℕ) → ℤ × (ℕ → ℕ)
sys_display fb bmp w h b mem =
    if w == 0 || h == 0 || ltb fb_width w || ltb fb_height h
    then (negsuc 0, mem)
    else if in_user_range bmp (u64 (w * h * 4)) b
    then (pos 0, video_bmp_display fb bmp w h mem)
    else (negsuc 0, mem)
