-- ===== src/Plic.antt =====
-- The interrupt controller, kernel/src/plic.c. Its registers are a function of the address.
use osc.Common.{
  ℕ, ◌+◌, ◌*◌, ◌/◌, ◌%◌, ◌<◌, ◌≡◌, ◌≢◌, refl, sym, ap, ◌∙◌, arith, true, update, update_self,
  update-ne,
}
use osc.Signal.{bit_set, set_bit}
use osc.Signal.Bits.{bit-set_bit, bit-set_bit-ne}

abbrev pub plic_enable_off : ℕ
plic_enable_off = 0x2000

abbrev pub plic_threshold_off : ℕ
plic_threshold_off = 0x200000

abbrev pub plic_claim_off : ℕ
plic_claim_off = 0x200004

abbrev pub plic_enable_stride : ℕ
plic_enable_stride = 0x80

abbrev pub plic_context_stride : ℕ
plic_context_stride = 0x1000

-- `g_plic_base`, `g_plic_ctx` and the registers.
pub record Plic : Type 0 where
  pub base : ℕ
  pub ctx : ℕ
  pub regs : ℕ → ℕ

abbrev pub enable_reg : ℕ → ℕ → ℕ → ℕ
enable_reg base ctx irq = base + plic_enable_off + plic_enable_stride * ctx + 4 * (irq / 32)

abbrev pub threshold_reg : ℕ → ℕ → ℕ
threshold_reg base ctx = base + plic_threshold_off + plic_context_stride * ctx

abbrev pub claim_reg : ℕ → ℕ → ℕ
claim_reg base ctx = base + plic_claim_off + plic_context_stride * ctx

unfoldable pub plic_init : ℕ → ℕ → ℕ → Plic → Plic
plic_init base irq ctx p =
    let r₁ = update p.regs (base + 4 * irq) 1 in
    let e = enable_reg base ctx irq in
    let r₂ = update r₁ e (set_bit (irq % 32) (r₁ e)) in
    record { base = base; ctx = ctx; regs = update r₂ (threshold_reg base ctx) 0 }

unfoldable pub plic_claim : Plic → ℕ
plic_claim p = p.regs (claim_reg p.base p.ctx)

unfoldable pub plic_complete : ℕ → Plic → Plic
plic_complete irq p = record p { regs = update p.regs (claim_reg p.base p.ctx) irq }

-- The registers as plic.h lists them: `priority`, the word of `enable` that has the bit of a source for a
-- context, and `threshold`.
abbrev pub priority_at : ℕ → ℕ → ℕ
priority_at base irq = base + 4 * irq

abbrev pub enable_at : ℕ → ℕ → ℕ → ℕ
enable_at base ctx irq = base + 0x002000 + 0x80 * ctx + 4 * (irq / 32)

abbrev pub threshold_at : ℕ → ℕ → ℕ
threshold_at base ctx = base + 0x200000 + 0x1000 * ctx

-- What `plic_init` has set.
pub record IsEnabled (base irq ctx : ℕ) (p p' : Plic) : Type 0 where
  pub kept : (p'.base ≡ base) × (p'.ctx ≡ ctx)
  pub priority : p'.regs (priority_at base irq) ≡ 1
  pub open_source : bit_set (irq % 32) (p'.regs (enable_at base ctx irq)) ≡ true
  pub other_bits :
      (i : ℕ)
      → i ≢ irq % 32
      → bit_set i (p'.regs (enable_at base ctx irq)) ≡ bit_set i (p.regs (enable_at base ctx irq))
  pub threshold : p'.regs (threshold_at base ctx) ≡ 0
  pub others :
      (a : ℕ)
      → a ≢ priority_at base irq
      → a ≢ enable_at base ctx irq
      → a ≢ threshold_at base ctx
      → p'.regs a ≡ p.regs a

module _ (base irq ctx : ℕ) (p : Plic) (hi : irq < 1024) (hc : ctx < 512) where
  abbrev e : ℕ
  e = enable_reg base ctx irq

  abbrev r₁ : ℕ → ℕ
  r₁ = update p.regs (base + 4 * irq) 1

  abbrev r₂ : ℕ → ℕ
  r₂ = update r₁ e (set_bit (irq % 32) (r₁ e))

  abbrev r₃ : ℕ → ℕ
  r₃ = update r₂ (threshold_reg base ctx) 0

  at_priority : r₃ (base + 4 * irq) ≡ 1
  at_priority =
      update-ne r₂ (threshold_reg base ctx) (base + 4 * irq) 0 (λ h. omega arith)
      ∙ update-ne r₁ e (base + 4 * irq) (set_bit (irq % 32) (r₁ e)) (λ h. omega arith)
      ∙ update_self p.regs (base + 4 * irq) 1

  -- The enable register of the source, and that of another source.
  at_enable : r₃ e ≡ set_bit (irq % 32) (p.regs e)
  at_enable =
      update-ne r₂ (threshold_reg base ctx) e 0 (λ h. omega arith)
      ∙ update_self r₁ e (set_bit (irq % 32) (r₁ e))
      ∙ ap (set_bit (irq % 32)) (update-ne p.regs (base + 4 * irq) e 1 (λ h. omega arith))

  at_other : (a : ℕ) → a ≢ base + 4 * irq → a ≢ e → a ≢ threshold_reg base ctx → r₃ a ≡ p.regs a
  at_other a np ne nt =
      update-ne r₂ (threshold_reg base ctx) a 0 (λ h. nt (sym h))
      ∙ update-ne r₁ e a (set_bit (irq % 32) (r₁ e)) (λ h. ne (sym h))
      ∙ update-ne p.regs (base + 4 * irq) a 1 (λ h. np (sym h))

-- For a source below 1024 and a context below 512, on the register map of plic.h: the priority of the
-- source is 1, its bit in the enable word of the context is set and the other bits of that word are as
-- before, the threshold of the context is 0, and every other register is as before; base and context are
-- kept for `plic_claim` and `plic_complete`.
pub plic_init-IsEnabled :
    (base irq ctx : ℕ) (p : Plic)
    → irq < 1024
    → ctx < 512
    → IsEnabled base irq ctx p (plic_init base irq ctx p)
unfolding plic_init
plic_init-IsEnabled base irq ctx p hi hc = record {
  kept = (refl, refl);
  priority = at_priority base irq ctx p hi hc;
  open_source =
      ap (bit_set (irq % 32)) (at_enable base irq ctx p hi hc)
      ∙ bit-set_bit (irq % 32) (p.regs (enable_reg base ctx irq));
  other_bits = λ i n.
      ap (bit_set i) (at_enable base irq ctx p hi hc)
      ∙ bit-set_bit-ne (irq % 32) i (p.regs (enable_reg base ctx irq)) (λ e. n (sym e));
  threshold = update_self (r₂ base irq ctx p hi hc) (threshold_reg base ctx) 0;
  others = at_other base irq ctx p hi hc;
}
