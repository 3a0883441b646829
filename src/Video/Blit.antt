-- ===== src/Video/Blit.antt =====
-- What kernel/src/video.c shows: the image in the middle of the framebuffer.
use osc.Common.{
  ℕ, zero, suc, ◌+◌, ◌-◌, ◌*◌, ◌/◌, ◌≤◌, ◌<◌, ◌≡◌, ◌⊎◌, inl, inr, refl, ap, ◌∙◌, arith, eq_or_ne,
}
use osc.Utils.{mem_cpy}
use osc.Utils.Copy.{mem_cpy-outside, mem_cpy-inside}
use osc.Video.{fb_width, fb_height, fb_size, pixel, blit, video_bmp_display}

line_end : (y h w : ℕ) → y < h → (y * w + 0) * 4 + w * 4 ≤ h * w * 4
line_end y h w lt = grind arith

-- The image and the framebuffer do not overlap.
abbrev pub Apart : ℕ → ℕ → ℕ → ℕ → Type 0
Apart fb bmp w h = (bmp + h * w * 4 ≤ fb) ⊎ (fb + fb_size ≤ bmp)

module _ (fb bmp w h sx sy : ℕ) (in_x : sx + w ≤ fb_width) (in_y : sy + h ≤ fb_height) where
  -- Lines above those that are left stay, and so does what is outside the framebuffer.
  blit-above :
      (n y : ℕ) (mem : ℕ → ℕ) (a : ℕ)
      → a < pixel fb fb_width (sy + y) sx
      → blit fb bmp w sx sy n y mem a ≡ mem a
  unfolding blit
  blit-above zero y mem a lt = refl
  blit-above (suc n) y mem a lt =
      blit-above n (y + 1) _ a (omega arith)
      ∙ mem_cpy-outside (pixel fb fb_width (sy + y) sx) (pixel bmp w y 0) (w * 4) mem a (inl lt)

  blit-outside :
      (n y : ℕ) (mem : ℕ → ℕ) (a : ℕ)
      → y + n ≡ h
      → (a < fb) ⊎ (fb + fb_size ≤ a)
      → blit fb bmp w sx sy n y mem a ≡ mem a
  unfolding blit
  blit-outside zero y mem a e out = refl
  blit-outside (suc n) y mem a e (inl p) =
      blit-outside n (y + 1) _ a (omega arith) (inl p)
      ∙ mem_cpy-outside (pixel fb fb_width (sy + y) sx) (pixel bmp w y 0) (w * 4) mem a
          (inl (omega arith))
  blit-outside (suc n) y mem a e (inr p) =
      blit-outside n (y + 1) _ a (omega arith) (inr p)
      ∙ mem_cpy-outside (pixel fb fb_width (sy + y) sx) (pixel bmp w y 0) (w * 4) mem a
          (inr (omega arith))

  blit-line :
      Apart fb bmp w h
      → (n y r x : ℕ) (mem : ℕ → ℕ) → y + n ≡ h
      → y ≤ r
      → r < h
      → x < w * 4
      → blit fb bmp w sx sy n y mem (pixel fb fb_width (sy + r) sx + x) ≡ mem (pixel bmp w r 0 + x)
  unfolding blit
  blit-line apart zero y r x mem e le lt hx = absurd (omega arith)
  blit-line apart (suc n) y r x mem e le lt hx = elim (eq_or_ne y r) [
    | inl h ↦
        let at : pixel fb fb_width (sy + r) sx ≡ pixel fb fb_width (sy + y) sx = omega arith in
        ap (λ a. blit fb bmp w sx sy n (y + 1) mem₁ (a + x)) at
        ∙ blit-above n (y + 1) mem₁ (pixel fb fb_width (sy + y) sx + x) (omega arith)
        ∙ mem_cpy-inside (pixel fb fb_width (sy + y) sx) (pixel bmp w y 0) (w * 4) mem x hx
            (lines_apart apart y (omega arith))
        ∙ ap (λ k. mem (pixel bmp w k 0 + x)) h
    | inr ne ↦
        blit-line apart n (y + 1) r x mem₁ (omega arith) (omega arith) lt hx
        ∙ mem_cpy-outside (pixel fb fb_width (sy + y) sx) (pixel bmp w y 0) (w * 4) mem
            (pixel bmp w r 0 + x) (source_outside apart y r (omega arith) lt)
  ]
    where
      mem₁ : ℕ → ℕ
      mem₁ = mem_cpy (pixel fb fb_width (sy + y) sx) (pixel bmp w y 0) (w * 4) mem

      lines_apart :
          Apart fb bmp w h
          → (y : ℕ) → y < h
          → (pixel bmp w y 0 + w * 4 ≤ pixel fb fb_width (sy + y) sx)
            ⊎ (pixel fb fb_width (sy + y) sx + w * 4 ≤ pixel bmp w y 0)
      lines_apart (inl p) y lt = inl (omega (arith, line_end y h w lt))
      lines_apart (inr p) y lt = inr (omega arith)

      source_outside :
          Apart fb bmp w h
          → (y r : ℕ) → y < h
          → r < h
          → (pixel bmp w r 0 + x < pixel fb fb_width (sy + y) sx)
            ⊎ (pixel fb fb_width (sy + y) sx + w * 4 ≤ pixel bmp w r 0 + x)
      source_outside (inl p) y r hy lt = inl (omega (arith, line_end r h w lt))
      source_outside (inr p) y r hy lt = inr (omega arith)

-- An image that fits in the framebuffer and lies outside it stands in the middle of the
-- framebuffer afterwards, line by line, and nothing outside the framebuffer has changed.
pub video_bmp_display_lem :
    (fb bmp w h : ℕ) (mem : ℕ → ℕ)
    → w ≤ fb_width
    → h ≤ fb_height
    → Apart fb bmp w h
    → ((r x : ℕ)
        → r < h
        → x < w * 4
        → video_bmp_display fb bmp w h mem
            (pixel fb fb_width ((fb_height - h) / 2 + r) ((fb_width - w) / 2) + x)
          ≡ mem (pixel bmp w r 0 + x))
      × ((a : ℕ) → (a < fb) ⊎ (fb + fb_size ≤ a) → video_bmp_display fb bmp w h mem a ≡ mem a)
unfolding video_bmp_display
video_bmp_display_lem fb bmp w h mem hw hh apart = (
  λ r x hr hx.
      blit-line fb bmp w h ((fb_width - w) / 2) ((fb_height - h) / 2) (omega arith) (omega arith)
        apart h 0 r x mem (omega arith) (omega arith) hr hx,
  λ a out.
      blit-outside fb bmp w h ((fb_width - w) / 2) ((fb_height - h) / 2) (omega arith) (omega arith)
        h 0 mem a (omega arith) out,
)
