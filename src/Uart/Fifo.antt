-- ===== src/Uart/Fifo.antt =====
-- The rings of kernel/src/uart.c are queues of at most 255 bytes.
use osc.Common.{
  ℕ, suc, ◌+◌, ◌-◌, ◌%◌, ◌<◌, ◌≡◌, ◌⊎◌, inl, inr, refl, ap, ◌∙◌, arith, [], ◌∷◌, ◌++◌, length,
  eq_or_ne, ==_iff, ==_ne, update,
}
use osc.Common.Int.{pos, negsuc}
use osc.Uart.{UartRing, uart_buf_size, next_index, ring_push, ring_pop}
use osc.Uart.Ring.{slots, count, contents, IsBounded, length-slots, slots-update}

-- A byte pushed on a ring of fewer than 255 bytes joins it at its end; a ring of 255 bytes is full
-- and left as it is.
pub ring_push_lem :
    (c : ℕ) (r : UartRing)
    → IsBounded r
    → IsBounded (ring_push c r)
      × (((length (contents r) < 255) × (contents (ring_push c r) ≡ contents r ++ (c ∷ [])))
          ⊎ ((length (contents r) ≡ 255) × (ring_push c r ≡ r)))
unfolding ring_push
ring_push_lem c r b = elim (eq_or_ne (next_index r.head) r.tail) [
  | inl e ↦
      rw ((==_iff (next_index r.head) r.tail).1 e) (
        b,
        inr (length-slots r.buf r.tail (count r) ∙ omega (arith, e, b.head_lt, b.tail_lt), refl),
      )
  | inr n ↦ rw (==_ne (next_index r.head) r.tail n) (
    record { head_lt = omega arith; tail_lt = b.tail_lt },
    inl (
      omega (arith, length-slots r.buf r.tail (count r), n, b.head_lt, b.tail_lt),
      ap (slots (update r.buf r.head c) r.tail) {y = suc (count r)}
            (omega (arith, n, b.head_lt, b.tail_lt))
          ∙ slots-update r.buf r.tail (count r) r.head c b.tail_lt (omega arith)
              (omega (arith, b.head_lt, b.tail_lt)),
    ),
  )
]

-- An empty ring gives -1 and is left as it is; any other gives its oldest byte and holds the rest.
pub ring_pop_lem :
    (r : UartRing)
    → IsBounded r
    → IsBounded (ring_pop r).1
      × (((contents r ≡ []) × (ring_pop r ≡ (negsuc 0, r)))
          ⊎ ((c : ℕ) × ((ring_pop r).0 ≡ pos c) × (contents r ≡ c ∷ contents (ring_pop r).1)))
unfolding ring_pop
ring_pop_lem r b = elim (eq_or_ne r.head r.tail) [
  | inl e ↦
      rw ((==_iff r.head r.tail).1 e)
        (b, inl (ap (slots r.buf r.tail) {y = 0} (omega (arith, e, b.tail_lt)), refl))
  | inr n ↦ rw (==_ne r.head r.tail n) (
    record { head_lt = b.head_lt; tail_lt = omega arith },
    inr (
      r.buf r.tail,
      refl,
      ap (slots r.buf r.tail) {y = suc left} (omega (arith, n, b.head_lt, b.tail_lt))
          ∙ ap (λ t. r.buf r.tail ∷ slots r.buf t left) (omega (arith, b.tail_lt)),
    ),
  )
]
  where
    left : ℕ
    left = (r.head + uart_buf_size - next_index r.tail) % uart_buf_size
