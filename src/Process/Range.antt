-- ===== src/Process/Range.antt =====
-- `in_user_range` of kernel/src/syscall.c.
use osc.Common.{ℕ, ◌+◌, ◌*◌, ◌^◌, ◌≤◌, ◌<◌, ◌≡◌, ◌↔◌, arith, true}
use osc.Buddy.{Buddy, page_size}
use osc.Buddy.Inv.{IsValid}
use osc.Process.{in_user_range}

-- A range passes exactly if it lies in the memory of the page allocator, whoever owns that memory;
-- a range that wraps does not pass.
pub in_user_range_lem :
    (p n : ℕ) (b : Buddy)
    → p < 2 ^ 64
    → n < 2 ^ 64
    → IsValid b
    → (in_user_range p n b ≡ true) ↔ ((b.base ≤ p) × (p + n ≤ b.base + b.total_pages * page_size))
unfolding in_user_range
in_user_range_lem p n b hp hn v =
    let r = v.room in let l = v.limit_lt in ground (arith, hp, hn, r, l)
