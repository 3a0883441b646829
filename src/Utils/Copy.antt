-- ===== src/Utils/Copy.antt =====
-- `mem_cpy` of kernel/src/utils.c.
use osc.Common.{
  ℕ, zero, suc, ◌+◌, ◌≤◌, ◌<◌, ◌≡◌, ◌⊎◌, inl, inr, refl, ap, ◌∙◌, arith, update, update_self,
  update-ne,
}
use osc.Utils.{mem_cpy}

-- The bytes outside the destination stay.
pub mem_cpy-outside :
    (dst src n : ℕ) (mem : ℕ → ℕ) (a : ℕ)
    → (a < dst) ⊎ (dst + n ≤ a)
    → mem_cpy dst src n mem a ≡ mem a
unfolding mem_cpy
mem_cpy-outside dst src zero mem a h = refl
mem_cpy-outside dst src (suc n) mem a (inl h) =
    mem_cpy-outside (dst + 1) (src + 1) n (update mem dst (mem src)) a (inl (omega arith))
    ∙ update-ne mem dst a (mem src) (λ e. omega arith)
mem_cpy-outside dst src (suc n) mem a (inr h) =
    mem_cpy-outside (dst + 1) (src + 1) n (update mem dst (mem src)) a (inr (omega arith))
    ∙ update-ne mem dst a (mem src) (λ e. omega arith)

-- The destination holds what the source held, if they do not overlap.
pub mem_cpy-inside :
    (dst src n : ℕ) (mem : ℕ → ℕ) (i : ℕ)
    → i < n
    → (src + n ≤ dst) ⊎ (dst + n ≤ src)
    → mem_cpy dst src n mem (dst + i) ≡ mem (src + i)
unfolding mem_cpy
mem_cpy-inside dst src zero mem i lt h = absurd (omega arith)
mem_cpy-inside dst src (suc n) mem zero lt h =
    ap (mem_cpy (dst + 1) (src + 1) n (update mem dst (mem src))) (omega arith)
    ∙ mem_cpy-outside (dst + 1) (src + 1) n (update mem dst (mem src)) dst (inl (omega arith))
    ∙ update_self mem dst (mem src)
    ∙ ap mem (omega arith)
mem_cpy-inside dst src (suc n) mem (suc i) lt h =
    ap (mem_cpy (dst + 1) (src + 1) n (update mem dst (mem src))) {y = dst + 1 + i} (omega arith)
    ∙ mem_cpy-inside (dst + 1) (src + 1) n (update mem dst (mem src)) i (omega arith) (shifted h)
    ∙ update-ne mem dst (src + 1 + i) (mem src) (λ e. apart h e)
    ∙ ap mem (omega arith)
  where
    shifted :
        (src + suc n ≤ dst) ⊎ (dst + suc n ≤ src)
        → (src + 1 + n ≤ dst + 1) ⊎ (dst + 1 + n ≤ src + 1)
    shifted (inl p) = inl (omega arith)
    shifted (inr p) = inr (omega arith)

    apart : (src + suc n ≤ dst) ⊎ (dst + suc n ≤ src) → dst ≡ src + 1 + i → ⊥
    apart (inl p) e = omega arith
    apart (inr p) e = omega arith
