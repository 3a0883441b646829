-- ===== src/Uart/Console.antt =====
-- The functions of kernel/src/uart.c that wait: uart_getc, uart_getc_raw, uart_putc and uart_puts.
use osc.Common.{
  ℕ, zero, suc, ◌+◌, ◌/◌, ◌%◌, ◌≤◌, ◌<◌, ◌≡◌, refl, sym, ap, ◌∙◌, arith, Bool, true, false, List,
  [], ◌∷◌, ◌++◌, Option, none, some, inl, inr, ◌==◌, ==_ne, Bool-cases, if◌then◌else◌, length,
  length-append,
}
use mathlib.Core.List.{append_assoc, append-nil}
use osc.Common.Int.{ℤ, pos, negsuc}
use osc.Uart.{UartRing, Uart, ring_empty, ring_full, ring_push, ring_pop, next_index}
use osc.Uart.Ring.{contents, count, IsBounded, length-slots}
use osc.Uart.Fifo.{ring_push_lem}

-- The last value of LSR read, whose data bit is set, and that of RBR. OE, PE, FE and BI are bits 1 to 4.
unfoldable pub uart_getc_raw : ℕ → ℕ → ℤ
uart_getc_raw lsr rbr = if lsr / 2 % 16 == 0 then pos (rbr % 256) else negsuc 0

abbrev pub cr_to_nl : ℤ → ℤ
cr_to_nl (pos c) = if c == 13 then pos 10 else pos c
cr_to_nl (negsuc n) = negsuc n

-- `others` is what the interrupt handler and the other threads do while the caller waits; each wait
-- takes at most `fuel` rounds, and `none` says that they were not enough. `irq_mode` is `g_uart_irq_mode`,
-- and `raw` what `uart_getc_raw` returns when it is called.
module _ (others : Uart → Uart) (irq_mode : Bool) where
  unfoldable pub wait_rx : ℕ → Uart → Option Uart
  wait_rx zero u = none
  wait_rx (suc fuel) u =
      let rest = wait_rx fuel (others u) in if ring_empty u.rx_buf then rest else some u

  unfoldable pub wait_tx : ℕ → Uart → Option Uart
  wait_tx zero u = none
  wait_tx (suc fuel) u =
      let rest = wait_tx fuel (others u) in if ring_full u.tx_buf then rest else some u

  unfoldable pub uart_getc : ℕ → ℤ → Uart → Option (ℤ × Uart)
  uart_getc fuel raw u =
      if irq_mode
      then elim (wait_rx fuel u) [
        | none ↦ none
        | some v ↦
            some (cr_to_nl (ring_pop v.rx_buf).0, record v { rx_buf = (ring_pop v.rx_buf).1 })
      ]
      else some (cr_to_nl raw, u)

  -- A byte that is no newline, or the two that are sent for one.
  unfoldable pub put_byte : ℕ → ℕ → Uart → Option Uart
  put_byte fuel c u =
      if irq_mode
      then elim (wait_tx fuel u) [
        | none ↦ none
        | some v ↦ some (record v { tx_buf = ring_push c v.tx_buf; tie = true })
      ]
      else some (record u { sent = u.sent ++ (c ∷ []) })

  unfoldable pub uart_putc : ℕ → ℕ → Uart → Option Uart
  uart_putc fuel c u =
      if c == 10
      then elim (put_byte fuel 13 u) [ none ↦ none | some v ↦ put_byte fuel c v ]
      else put_byte fuel c u

  unfoldable pub uart_puts : ℕ → List ℕ → Uart → Option Uart
  uart_puts fuel [] u = some u
  uart_puts fuel (c ∷ str) u = elim (uart_putc fuel c u) [
    | none ↦ none
    | some v ↦ uart_puts fuel str v
  ]

-- What is sent for a byte and for a text: a carriage return goes before each newline.
abbrev pub cook : ℕ → List ℕ
cook c = if c == 10 then 13 ∷ (c ∷ []) else c ∷ []

abbrev pub cooked : List ℕ → List ℕ
cooked [] = []
cooked (c ∷ s) = cook c ++ cooked s

-- The bytes on their way: those handed to the transmitter and those in the ring.
abbrev pub stream : Uart → List ℕ
stream u = u.sent ++ contents u.tx_buf

-- `bs` has joined the stream, and nothing has been received.
pub record Sends (u v : Uart) (bs : List ℕ) : Type 0 where
  pub streamed : stream v ≡ stream u ++ bs
  pub bounded : IsBounded v.tx_buf
  pub queued : length (contents v.tx_buf) ≤ length (contents u.tx_buf) + length bs
  pub rx : v.rx_buf ≡ u.rx_buf

Sends-trans : (u v w : Uart) (bs cs : List ℕ) → Sends u v bs → Sends v w cs → Sends u w (bs ++ cs)
Sends-trans u v w bs cs p q = record {
  streamed = q.streamed ∙ ap (λ l. l ++ cs) p.streamed ∙ append_assoc (stream u) bs cs;
  bounded = q.bounded;
  queued = omega (arith, p.queued, q.queued, length-append bs cs);
  rx = q.rx ∙ p.rx;
}

not_full : (r : UartRing) → IsBounded r → length (contents r) < 255 → ring_full r ≡ false
unfolding ring_full
not_full r b h =
    ==_ne (next_index r.head) r.tail
      (λ e. omega (arith, length-slots r.buf r.tail (count r), b.head_lt, b.tail_lt))

push_Sends :
    (c : ℕ) (u : Uart)
    → IsBounded u.tx_buf
    → length (contents u.tx_buf) < 255
    → Sends u (record u { tx_buf = ring_push c u.tx_buf; tie = true }) (c ∷ [])
push_Sends c u b room = elim (ring_push_lem c u.tx_buf b).1 [
  | inl p ↦ record {
    streamed = ap (λ l. u.sent ++ l) p.1 ∙ sym (append_assoc u.sent (contents u.tx_buf) (c ∷ []));
    bounded = (ring_push_lem c u.tx_buf b).0;
    queued = omega (arith, ap length p.1, length-append (contents u.tx_buf) (c ∷ []));
    rx = refl;
  }
  | inr p ↦ absurd (omega (arith, p.0))
]

module _ (others : Uart → Uart) (fuel : ℕ) where
  wait_tx-now : (u : Uart) → ring_full u.tx_buf ≡ false → wait_tx others true (suc fuel) u ≡ some u
  unfolding wait_tx
  wait_tx-now u e = rw e refl

  put_byte_lem :
      (c : ℕ) (u : Uart)
      → IsBounded u.tx_buf
      → length (contents u.tx_buf) < 255
      → (v : Uart) × (put_byte others true (suc fuel) c u ≡ some v) × Sends u v (c ∷ [])
  unfolding put_byte
  put_byte_lem c u b room = (
    record u { tx_buf = ring_push c u.tx_buf; tie = true },
    rw (wait_tx-now u (not_full u.tx_buf b room), put_byte) refl,
    push_Sends c u b room,
  )

  putc_plain :
      (c : ℕ) (u : Uart)
      → c == 10 ≡ false
      → uart_putc others true (suc fuel) c u ≡ put_byte others true (suc fuel) c u
  unfolding uart_putc
  putc_plain c u e = rw e refl

  putc_newline :
      (c : ℕ) (u v : Uart)
      → c == 10 ≡ true
      → put_byte others true (suc fuel) 13 u ≡ some v
      → uart_putc others true (suc fuel) c u ≡ put_byte others true (suc fuel) c v
  unfolding uart_putc
  putc_newline c u v e p = rw (e, p, uart_putc) refl

  uart_putc_lem :
      (c : ℕ) (u : Uart)
      → IsBounded u.tx_buf
      → length (contents u.tx_buf) + length (cook c) ≤ 255
      → (v : Uart) × (uart_putc others true (suc fuel) c u ≡ some v) × Sends u v (cook c)
  uart_putc_lem c u b room = elim (Bool-cases (c == 10)) [
    | inr e ↦
        let room' : length (contents u.tx_buf) + 1 ≤ 255 = rw e at room in
        let p = put_byte_lem c u b (omega arith) in rw e (p.0, putc_plain c u e ∙ p.1, p.2)
    | inl e ↦
        let room' : length (contents u.tx_buf) + 2 ≤ 255 = rw e at room in
        let p = put_byte_lem 13 u b (omega arith) in
        let q = put_byte_lem c p.0 p.2.bounded (omega (arith, p.2.queued)) in
        rw e
          (q.0, putc_newline c u p.0 e p.1 ∙ q.1, Sends-trans u p.0 q.0 (13 ∷ []) (c ∷ []) p.2 q.2)
  ]

  -- In the mode with interrupts, with room for the text in the ring and at least one round for
  -- each wait, `uart_puts` returns without waiting, and the text joins the stream behind what was
  -- there, with a carriage return before each newline.
  pub uart_puts_lem :
      (str : List ℕ) (u : Uart)
      → IsBounded u.tx_buf
      → length (contents u.tx_buf) + length (cooked str) ≤ 255
      → (v : Uart) × (uart_puts others true (suc fuel) str u ≡ some v) × Sends u v (cooked str)
  unfolding uart_puts
  uart_puts_lem [] u b room = (
    u,
    refl,
    record { streamed = sym (append-nil (stream u)); bounded = b; queued = omega arith; rx = refl },
  )
  uart_puts_lem (c ∷ str) u b room =
      let p = uart_putc_lem c u b (omega (arith, length-append (cook c) (cooked str))) in
      let q =
        uart_puts_lem str p.0 p.2.bounded
          (omega (arith, p.2.queued, length-append (cook c) (cooked str))) in
      (q.0, rw (p.1, uart_puts) q.1, Sends-trans u p.0 q.0 (cook c) (cooked str) p.2 q.2)
