-- ===== src/Kmalloc/Init.antt =====
-- `kmalloc_init` of kernel/src/kmalloc.c establishes the invariant.
use osc.Common.{ℕ, ◌≡◌, ◌%◌, inl, inr, sym, ◌∙◌, arith, []}
use osc.Common.Int.{ℤ, pos, negsuc}
use osc.Buddy.{Buddy, page_size}
use osc.Buddy.Fill.{fill-inside}
use osc.Buddy.Inv.{IsValid}
use osc.Kmalloc.{kmalloc_init}
use osc.Kmalloc.Inv.{Inv}

-- On a valid page allocator with an aligned base, `kmalloc_init` leaves all pools empty and no page
-- owned by one, which is the invariant with no chunk live.
pub kmalloc_init-Inv :
    (b : Buddy) (ext : ℕ → ℤ)
    → IsValid b
    → b.base % page_size ≡ 0
    → Inv (kmalloc_init b b.total_pages ext) (λ _. [])
unfolding kmalloc_init
kmalloc_init-Inv b ext v al = record {
  valid = v;
  base_aligned = al;
  chunks = λ i x h. absurd (elim h [ inl e ↦ e | inr e ↦ e ]);
  distinct = λ i. tt;
  exclusive = λ i x h. absurd h;
  owned = λ i pg lt e. absurd (
      negsuc_pos (
        sym (fill-inside b.total_pages 0 (negsuc 0) ext pg (omega arith) (omega (arith, lt))) ∙ e));
}
  where
    negsuc_pos : {n m : ℕ} → ¬ (negsuc n ≡ pos m)
    negsuc_pos e = cc
