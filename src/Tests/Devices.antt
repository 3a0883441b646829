-- ===== src/Tests/Devices.antt =====
-- The interrupt controller, the framebuffer and the console.
use osc.Common.{
  ℕ, ◌+◌, ◌-◌, ◌*◌, ◌/◌, ◌%◌, ◌≤◌, ◌<◌, ◌≡◌, ◌⊎◌, refl, arith, true, Option, none, some, inl, [],
  ◌∷◌,
}
use osc.Common.Int.{ℤ, pos}
use osc.Common.Strings.{codes}
use osc.Uart.{Uart}
use osc.Uart.Console.{uart_puts, Sends, cooked, uart_puts_lem}
use osc.Buddy.{buddy_build_free_lists, buddy_reserve, buddy_init}
use osc.Process.{in_user_range}
use osc.Process.Io.{sys_uart_read}
use osc.Process.Read.{getc, IsRead, sys_uart_read-full}
use osc.Plic.{Plic, plic_init, IsEnabled, plic_init-IsEnabled}
use osc.Video.{fb_width, fb_height, fb_size, pixel, video_bmp_display}
use osc.Video.Blit.{video_bmp_display_lem}
use osc.Tests.Bytes.{uart, ring-IsBounded}
use osc.Tests.Pages.{built}

abbrev plic : Plic
plic = record { base = 0; ctx = 0; regs = λ a. 1 }

plic_init_example : IsEnabled 201326592 10 1 plic (plic_init 201326592 10 1 plic)
plic_init_example = plic_init-IsEnabled 201326592 10 1 plic (omega arith) (omega arith)

abbrev screen : ℕ → ℕ
screen a = a % 256

video_bmp_display_example :
    ((r x : ℕ)
      → r < 2
      → x < 3 * 4
      → video_bmp_display 8388608 4096 3 2 screen
          (pixel 8388608 fb_width ((fb_height - 2) / 2 + r) ((fb_width - 3) / 2) + x)
        ≡ screen (pixel 4096 3 r 0 + x))
    × ((a : ℕ)
        → (a < 8388608) ⊎ (8388608 + fb_size ≤ a)
        → video_bmp_display 8388608 4096 3 2 screen a ≡ screen a)
video_bmp_display_example =
    video_bmp_display_lem 8388608 4096 3 2 screen (omega arith) (omega arith) (inl (omega arith))

-- A read of the two bytes in the receive ring.
abbrev chars : ℕ → Uart → Option (ℤ × Uart)
chars = getc (λ u. u) (pos 0)

sys_uart_read_example :
    ((v : Uart) × (mem' : ℕ → ℕ) × (sys_uart_read
          (chars 1)
          (λ u. u)
          3
          65536
          (pos 2)
          built
          uart
          screen
        ≡ some (pos 2, v, mem'))
      × IsRead 65536 0 (255 ∷ 0 ∷ []) [] screen v mem')
    × ((w f : ℕ) (u' : Uart) (m : ℕ → ℕ)
        → (sys_uart_read (chars w) (λ u. u) f 65536 (pos 2) built u' m ≡ none)
          ⊎ ((v : Uart) × (m' : ℕ → ℕ) × (sys_uart_read
                  (chars w)
                  (λ u. u)
                  f
                  65536
                  (pos 2)
                  built
                  u'
                  m
                ≡ some (pos 2, v, m'))))
unfolding in_user_range buddy_build_free_lists buddy_reserve buddy_init
sys_uart_read_example =
    sys_uart_read-full (λ u. u) (λ u. u) (pos 0) 2 65536 0 3 built uart (255 ∷ 0 ∷ []) [] screen
      (omega arith) refl ring-IsBounded refl refl (omega arith)

uart_puts_example :
    (v : Uart) × (uart_puts (λ u. u) true 3 (codes "ok\n") uart ≡ some v)
    × Sends uart v (cooked (codes "ok\n"))
uart_puts_example = uart_puts_lem (λ u. u) 2 (codes "ok\n") uart (omega arith) (omega arith)
