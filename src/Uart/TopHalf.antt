-- ===== src/Uart/TopHalf.antt =====
-- `uart_top_half` of kernel/src/uart.c.
use osc.Common.{
  ℕ, zero, suc, ◌+◌, ◌%◌, ◌<◌, ◌≤◌, ◌≡◌, inl, inr, refl, sym, ap, ◌∙◌, arith, true, false, List, [],
  ◌∷◌, ◌++◌, map, length, length-append, Bool-cases, ==_iff,
}
use osc.Common.All.{All}
use osc.Uart.{
  UartRing, Uart, byte_of, ring_empty, ring_push, ring_pop, receive, transmit, uart_top_half,
}
use osc.Uart.Ring.{count, contents, IsBounded, length-slots}
use osc.Uart.Fifo.{ring_push_lem, ring_pop_lem}

append_assoc : (xs ys zs : List ℕ) → (xs ++ ys) ++ zs ≡ xs ++ (ys ++ zs)
append_assoc [] ys zs = refl
append_assoc (x ∷ xs) ys zs = ap (λ l. x ∷ l) (append_assoc xs ys zs)

append_nil : (xs : List ℕ) → xs ++ [] ≡ xs
append_nil [] = refl
append_nil (x ∷ xs) = ap (λ l. x ∷ l) (append_nil xs)

receive_lem :
    (cs : List ℕ) (r : UartRing)
    → IsBounded r
    → length (contents r) + length cs ≤ 255
    → contents (receive cs r) ≡ contents r ++ map (λ c. c % 256) cs
unfolding receive
receive_lem [] r b h = sym (append_nil (contents r))
receive_lem (c ∷ cs) r b h = elim (ring_push_lem (c % 256) r b).1 [
  | inl p ↦
      receive_lem cs (ring_push (c % 256) r) (ring_push_lem (c % 256) r b).0 (room p.1)
      ∙ ap (λ l. l ++ map (λ d. d % 256) cs) p.1
      ∙ append_assoc (contents r) (c % 256 ∷ []) (map (λ d. d % 256) cs)
  | inr p ↦ absurd (omega (arith, h, p.0))
]
  where
    room :
        contents (ring_push (c % 256) r) ≡ contents r ++ (c % 256 ∷ [])
        → length (contents (ring_push (c % 256) r)) + length cs ≤ 255
    room e = omega (arith, h, ap length e, length-append (contents r) (c % 256 ∷ []))

transmit_stop :
    (room : ℕ) (r : UartRing) (sent : List ℕ)
    → ring_empty r ≡ true
    → transmit (suc room) r sent ≡ (r, sent)
unfolding transmit
transmit_stop room r sent e = rw e refl

transmit_step :
    (room : ℕ) (r : UartRing) (sent : List ℕ)
    → ring_empty r ≡ false
    → transmit (suc room) r sent
      ≡ transmit room (ring_pop r).1 (sent ++ (byte_of (ring_pop r).0 ∷ []))
unfolding transmit
transmit_step room r sent e = rw e refl

not_empty : (r : UartRing) → IsBounded r → ring_empty r ≡ false → contents r ≡ [] → ⊥
unfolding ring_empty
not_empty r b e c = false_true (
    sym e
    ∙ (==_iff r.head r.tail).1
        (omega (arith, ap length c, length-slots r.buf r.tail (count r), b.head_lt, b.tail_lt)))
  where
    false_true : {A : Type 0} → false ≡ true → A
    false_true e = cc

transmit_zero :
    (r : UartRing) (sent : List ℕ)
    → (transmit 0 r sent).1 ++ contents (transmit 0 r sent).0 ≡ sent ++ contents r
unfolding transmit
transmit_zero r sent = refl

-- What is sent and what is still in the ring is, in this order, what was there before.
transmit_lem :
    (room : ℕ) (r : UartRing) (sent : List ℕ)
    → IsBounded r
    → All (λ c. c < 256) (contents r)
    → let (r', sent') = transmit room r sent in sent' ++ contents r' ≡ sent ++ contents r
transmit_lem zero r sent b a = transmit_zero r sent
transmit_lem (suc room) r sent b a = elim (Bool-cases (ring_empty r)) [
  | inl e ↦ rw (transmit_stop room r sent e) refl
  | inr e ↦ elim (ring_pop_lem r b).1 [
    | inl p ↦ absurd (not_empty r b e p.0)
    | inr p ↦ rw (transmit_step room r sent e) (
        transmit_lem room (ring_pop r).1 (sent ++ (byte_of (ring_pop r).0 ∷ []))
          (ring_pop_lem r b).0 (tail_all p.0 (contents r) (contents (ring_pop r).1) p.2 a).1
        ∙ append_assoc sent (byte_of (ring_pop r).0 ∷ []) (contents (ring_pop r).1)
        ∙ ap (λ v. sent ++ (v ∷ contents (ring_pop r).1))
            (ap byte_of p.1
              ∙ small p.0 (tail_all p.0 (contents r) (contents (ring_pop r).1) p.2 a).0)
        ∙ ap (λ l. sent ++ l) (sym p.2))
  ]
]
  where
    small : (c : ℕ) → c < 256 → c % 256 ≡ c
    small c h = omega (arith, h)

    tail_all :
        (c : ℕ) (xs ys : List ℕ)
        → xs ≡ c ∷ ys
        → All (λ d. d < 256) xs
        → (c < 256) × All (λ d. d < 256) ys
    tail_all c xs ys e a = rw e at a

-- The bytes received join the ring behind those that it holds, in the order of their arrival, if
-- there is room for them all.
pub uart_top_half-rx :
    (cb room irq : ℕ) (received : List ℕ) (u : Uart)
    → IsBounded u.rx_buf
    → length (contents u.rx_buf) + length received ≤ 255
    → contents (uart_top_half cb received room irq u).rx_buf
      ≡ contents u.rx_buf ++ map (λ c. c % 256) received
unfolding uart_top_half
uart_top_half-rx cb room irq received u b h = receive_lem received u.rx_buf b h

-- The bytes handed to the transmitter and those still queued are together, in their order, the bytes
-- that were handed over and queued before: none is lost, doubled or overtaken.
pub uart_top_half-tx :
    (cb room irq : ℕ) (received : List ℕ) (u : Uart)
    → IsBounded u.tx_buf
    → All (λ c. c < 256) (contents u.tx_buf)
    → let v = uart_top_half cb received room irq u in
      v.sent ++ contents v.tx_buf ≡ u.sent ++ contents u.tx_buf
unfolding uart_top_half
uart_top_half-tx cb room irq received u b a = transmit_lem room u.tx_buf u.sent b a
