-- ===== src/Uart/Ring.antt =====
-- The bytes that a ring of kernel/src/uart.c holds.
use osc.Common.{
  ℕ, zero, suc, ◌+◌, ◌-◌, ◌%◌, ◌<◌, ◌≡◌, refl, ap, ◌∙◌, arith, List, [], ◌∷◌, ◌++◌, length, update,
  update_self, update-ne,
}
use osc.Uart.{UartRing, uart_buf_size}

-- `n` bytes from index `t` on, round the end of the buffer.
abbrev pub slots : (ℕ → ℕ) → ℕ → ℕ → List ℕ
slots buf t zero = []
slots buf t (suc n) = buf t ∷ slots buf ((t + 1) % uart_buf_size) n

abbrev pub count : UartRing → ℕ
count r = (r.head + uart_buf_size - r.tail) % uart_buf_size

-- The bytes in the ring, the oldest one first.
abbrev pub contents : UartRing → List ℕ
contents r = slots r.buf r.tail (count r)

-- Both indices are in the buffer.
pub record IsBounded (r : UartRing) : Type 0 where
  pub head_lt : r.head < uart_buf_size
  pub tail_lt : r.tail < uart_buf_size

pub length-slots : (buf : ℕ → ℕ) (t n : ℕ) → length (slots buf t n) ≡ n
length-slots buf t zero = refl
length-slots buf t (suc n) = ap suc (length-slots buf ((t + 1) % uart_buf_size) n)

-- A byte written behind the last one joins the sequence at its end.
pub slots-update :
    (buf : ℕ → ℕ) (t n h c : ℕ)
    → t < uart_buf_size
    → n < uart_buf_size
    → h ≡ (t + n) % uart_buf_size
    → slots (update buf h c) t (suc n) ≡ slots buf t n ++ (c ∷ [])
slots-update buf t zero h c ht hn e =
    ap (λ v. v ∷ []) (ap (update buf h c) (omega (arith, e, ht)) ∙ update_self buf h c)
slots-update buf t (suc n) h c ht hn e =
    ap (λ v. v ∷ slots (update buf h c) ((t + 1) % uart_buf_size) (suc n))
      (update-ne buf h t c (λ p. omega (arith, e, p, ht, hn)))
    ∙ ap (λ l. buf t ∷ l)
        (slots-update buf ((t + 1) % uart_buf_size) n h c (omega arith) (omega (arith, hn))
          (omega (arith, e, ht, hn)))
