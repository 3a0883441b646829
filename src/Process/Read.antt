-- ===== src/Process/Read.antt =====
-- sys_uart_read of kernel/src/syscall.c over uart_getc of kernel/src/uart.c in the mode with interrupts.
use osc.Common.{
  ℕ, zero, suc, ◌+◌, ◌%◌, ◌≤◌, ◌<◌, ◌≡◌, ◌≢◌, ◌⊎◌, refl, sym, ap, ◌∙◌, arith, true, false, List, [],
  ◌∷◌, ◌++◌, Option, none, some, inl, inr, ◌==◌, ==_ne, update, update_self, update-ne, lt→ltb,
  le→ltb, lt_or_le, length, get_or, Bool-cases, if◌then◌else◌,
}
use osc.Common.Int.{ℤ, pos}
use osc.Buddy.{Buddy}
use osc.Uart.{UartRing, Uart, ring_empty, ring_pop}
use osc.Uart.Ring.{contents, IsBounded}
use osc.Uart.Fifo.{ring_pop_lem}
use osc.Uart.Console.{wait_rx, uart_getc}
use osc.Process.{in_user_range}
use osc.Process.Io.{read_loop, sys_uart_read}

-- The byte that a process finds for a byte received: a newline for a carriage return.
abbrev pub seen : ℕ → ℕ
seen c = if c == 13 then 10 else c % 256

nonempty : (r : UartRing) (c : ℕ) → (ring_pop r).0 ≡ pos c → ring_empty r ≡ false
unfolding ring_pop ring_empty
nonempty r c e = ground (arith, e)

-- The byte that the pop of a ring that is not empty gives.
popped : (r : UartRing) → ring_empty r ≡ false → (c : ℕ) × ((ring_pop r).0 ≡ pos c)
unfolding ring_pop ring_empty
popped r e = rw e (r.buf r.tail, refl)

nil-cons : {c : ℕ} {l : List ℕ} → [] ≢ c ∷ l
nil-cons e = cc

cons-cons : {c d : ℕ} {l k : List ℕ} → c ∷ l ≡ d ∷ k → (c ≡ d) × (l ≡ k)
cons-cons e = (cc, cc)

-- `getc` of the loop: `uart_getc` in the mode with interrupts, at most `wait` rounds for a wait.
abbrev pub getc : (Uart → Uart) → ℤ → ℕ → Uart → Option (ℤ × Uart)
getc others raw wait u = uart_getc others true wait raw u

-- What a read of the bytes `bs` to the places from `i` on leaves behind.
pub record IsRead (buf i : ℕ) (bs rest : List ℕ) (mem : ℕ → ℕ) (v : Uart) (mem' : ℕ → ℕ)
    : Type 0 where
  pub ring : (IsBounded v.rx_buf) × (contents v.rx_buf ≡ rest)
  pub stored : (j : ℕ) → j < length bs → mem' (buf + i + j) ≡ seen (get_or bs j 0)
  pub before : (a : ℕ) → a < buf + i → mem' a ≡ mem a
  pub behind : (a : ℕ) → buf + i + length bs ≤ a → mem' a ≡ mem a

module _ (others : Uart → Uart) (yielded : Uart → Uart) (raw : ℤ) (count buf : ℕ) where
  -- With a byte in the ring `uart_getc` returns it at once.
  getc-now :
      (wait : ℕ) (u : Uart) (c : ℕ)
      → (ring_pop u.rx_buf).0 ≡ pos c
      → (d : ℕ) × (getc others raw (suc wait) u
          ≡ some (pos d, record u { rx_buf = (ring_pop u.rx_buf).1 }))
        × (d % 256 ≡ seen c)
  unfolding uart_getc wait_rx
  getc-now wait u c e = elim (Bool-cases (c == 13)) [
    | inl z ↦ (10, rw (nonempty u.rx_buf c e, uart_getc, e, z) refl, rw z refl)
    | inr n ↦ (c, rw (nonempty u.rx_buf c e, uart_getc, e, n) refl, rw n refl)
  ]

  wait_rx-some :
      (wait : ℕ) (u : Uart)
      → (wait_rx others true wait u ≡ none)
        ⊎ ((v : Uart) × (wait_rx others true wait u ≡ some v) × (ring_empty v.rx_buf ≡ false))
  unfolding wait_rx
  wait_rx-some zero u = inl refl
  wait_rx-some (suc wait) u = elim (Bool-cases (ring_empty u.rx_buf)) [
    | inl e ↦ rw e (wait_rx-some wait (others u))
    | inr e ↦ inr (u, rw e refl, e)
  ]

  -- It never returns a negative result.
  getc-cases :
      (wait : ℕ) (u : Uart)
      → (getc others raw wait u ≡ none)
        ⊎ ((d : ℕ) × (v : Uart) × (getc others raw wait u ≡ some (pos d, v)))
  unfolding uart_getc
  getc-cases wait u = elim (wait_rx-some wait u) [
    | inl e ↦ inl (rw (e, uart_getc) refl)
    | inr (v, e, some_byte) ↦
        let (c, p) = popped v.rx_buf some_byte in
        let left : Uart = record v { rx_buf = (ring_pop v.rx_buf).1 } in
        elim (Bool-cases (c == 13)) [
          | inl z ↦ inr (10, left, rw (e, uart_getc, p, z) refl)
          | inr n ↦ inr (c, left, rw (e, uart_getc, p, n) refl)
        ]
  ]

  -- Whatever the ring holds, the loop goes on until all bytes are there.
  read_loop-whole :
      (wait fuel i : ℕ) (u : Uart) (mem : ℕ → ℕ)
      → i ≤ count
      → (read_loop (getc others raw wait) yielded count buf fuel i u mem ≡ none)
        ⊎ ((v : Uart) × (mem' : ℕ → ℕ) × (read_loop
                (getc others raw wait)
                yielded
                count
                buf
                fuel
                i
                u
                mem
              ≡ some (count, v, mem')))
  unfolding read_loop
  read_loop-whole wait zero i u mem le = inl refl
  read_loop-whole wait (suc fuel) i u mem le = elim (lt_or_le i count) [
    | inr h ↦
        let e : i ≡ count = omega arith in
        inr (u, mem, rw (le→ltb i count h) (ap (λ n. some (n, u, mem)) e))
    | inl h ↦ elim (getc-cases wait u) [
      | inl e ↦ inl (rw (lt→ltb i count h, e) refl)
      | inr (d, v, e) ↦
          elim (read_loop-whole wait fuel (i + 1) v (update mem (buf + i) (d % 256))
            (omega arith)) [
              | inl n ↦ inl (rw (lt→ltb i count h, e) n)
              | inr (w, mem', s) ↦ inr (w, mem', rw (lt→ltb i count h, e) s)
            ]
    ]
  ]

  -- The first byte read is in its place when the others are.
  first-IsRead :
      (i c d : ℕ) (bs rest : List ℕ) (mem : ℕ → ℕ) (v : Uart) (mem' : ℕ → ℕ)
      → d % 256 ≡ seen c
      → IsRead buf (i + 1) bs rest (update mem (buf + i) (d % 256)) v mem'
      → IsRead buf i (c ∷ bs) rest mem v mem'
  first-IsRead i c d bs rest mem v mem' e r = record {
    ring = r.ring;
    stored = at_place;
    before = λ a h.
        r.before a (omega (arith, h))
        ∙ update-ne mem (buf + i) a (d % 256) (λ z. omega (arith, z, h));
    behind = λ a h.
        r.behind a (omega (arith, h))
        ∙ update-ne mem (buf + i) a (d % 256) (λ z. omega (arith, z, h));
  }
    where
      at_place : (j : ℕ) → j < suc (length bs) → mem' (buf + i + j) ≡ seen (get_or (c ∷ bs) j 0)
      at_place zero h =
          ap mem' {y = buf + i} (omega arith)
          ∙ r.before (buf + i) (omega arith)
          ∙ update_self mem (buf + i) (d % 256)
          ∙ e
      at_place (suc j) h = ap mem' (omega arith) ∙ r.stored j (omega (arith, h))

  loop-IsRead :
      (wait fuel i : ℕ) (bs rest : List ℕ) (u : Uart) (mem : ℕ → ℕ)
      → IsBounded u.rx_buf
      → contents u.rx_buf ≡ bs ++ rest
      → i + length bs ≡ count
      → length bs < fuel
      → (v : Uart) × (mem' : ℕ → ℕ) × (read_loop
            (getc others raw (suc wait))
            yielded
            count
            buf
            fuel
            i
            u
            mem
          ≡ some (count, v, mem'))
        × IsRead buf i bs rest mem v mem'
  unfolding read_loop
  loop-IsRead wait zero i bs rest u mem b e all h = absurd (omega (arith, h))
  loop-IsRead wait (suc fuel) i [] rest u mem b e all h = (
    u,
    mem,
    rw (le→ltb i count (omega (arith, all))) (ap (λ n. some (n, u, mem)) (omega (arith, all))),
    record {
      ring = (b, e);
      stored = λ j lt. absurd (omega (arith, lt));
      before = λ a lt. refl;
      behind = λ a le. refl;
    },
  )
  loop-IsRead wait (suc fuel) i (c ∷ bs) rest u mem b e all h = elim (ring_pop_lem u.rx_buf b).1 [
    | inl p ↦ absurd (nil-cons (sym p.0 ∙ e))
    | inr (x, p, q) ↦
        let same = cons-cons (sym q ∙ e) in
        let (d, now, is_seen) = getc-now wait u c (p ∙ ap pos same.0) in
        let left : Uart = record u { rx_buf = (ring_pop u.rx_buf).1 } in
        let (v, mem', r, all_read) =
          loop-IsRead wait fuel (i + 1) bs rest left (update mem (buf + i) (d % 256))
            (ring_pop_lem u.rx_buf b).0 same.1 (omega (arith, all)) (omega (arith, h)) in
        (
          v,
          mem',
          rw (lt→ltb i count (omega (arith, all)), now) r,
          first-IsRead i c d bs rest mem v mem' is_seen all_read,
        )
  ]

  read_eq :
      (wait fuel : ℕ) (b : Buddy) (u : Uart) (mem : ℕ → ℕ) (n : ℕ) (v : Uart) (mem' : ℕ → ℕ)
      → 0 < count
      → in_user_range buf count b ≡ true
      → read_loop (getc others raw wait) yielded count buf fuel 0 u mem ≡ some (n, v, mem')
      → sys_uart_read (getc others raw wait) yielded fuel buf (pos count) b u mem
        ≡ some (pos n, v, mem')
  unfolding sys_uart_read
  read_eq wait fuel b u mem n v mem' some_byte range e =
      rw (==_ne count 0 (λ z. omega (arith, z, some_byte)), range, e, sys_uart_read) refl

  read_none :
      (wait fuel : ℕ) (b : Buddy) (u : Uart) (mem : ℕ → ℕ)
      → 0 < count
      → in_user_range buf count b ≡ true
      → read_loop (getc others raw wait) yielded count buf fuel 0 u mem ≡ none
      → sys_uart_read (getc others raw wait) yielded fuel buf (pos count) b u mem ≡ none
  unfolding sys_uart_read
  read_none wait fuel b u mem some_byte range e =
      rw (==_ne count 0 (λ z. omega (arith, z, some_byte)), range, e, sys_uart_read) refl

  -- In the mode with interrupts, for a positive count and a range that passes the check: if the receive
  -- ring holds the bytes `bs`, as many as the count, before others, then with one round for a wait and
  -- fuel for a round for each byte and one more `sys_uart_read` returns the count; the bytes are in the
  -- buffer in their order, 10 in place of 13, the rest of the memory is as before, and the ring holds
  -- the others. And whatever the ring holds, and whatever the handler and the other threads do, no read
  -- returns with less than the count: it returns the whole count or is still waiting.
  pub sys_uart_read-full :
      (wait fuel : ℕ) (b : Buddy) (u : Uart) (bs rest : List ℕ) (mem : ℕ → ℕ)
      → 0 < count
      → in_user_range buf count b ≡ true
      → IsBounded u.rx_buf
      → contents u.rx_buf ≡ bs ++ rest
      → length bs ≡ count
      → count < fuel
      → ((v : Uart) × (mem' : ℕ → ℕ) × (sys_uart_read
              (getc others raw (suc wait))
              yielded
              fuel
              buf
              (pos count)
              b
              u
              mem
            ≡ some (pos count, v, mem'))
          × IsRead buf 0 bs rest mem v mem')
        × ((w f : ℕ) (u' : Uart) (m : ℕ → ℕ)
            → (sys_uart_read (getc others raw w) yielded f buf (pos count) b u' m ≡ none)
              ⊎ ((v : Uart) × (m' : ℕ → ℕ) × (sys_uart_read
                      (getc others raw w)
                      yielded
                      f
                      buf
                      (pos count)
                      b
                      u'
                      m
                    ≡ some (pos count, v, m'))))
  sys_uart_read-full wait fuel b u bs rest mem some_byte range bounded e all h =
      let (v, mem', r, all_read) =
        loop-IsRead wait fuel 0 bs rest u mem bounded e (omega (arith, all))
          (omega (arith, all, h)) in
      (
        (v, mem', read_eq (suc wait) fuel b u mem count v mem' some_byte range r, all_read),
        (λ w f u' m. elim (read_loop-whole w f 0 u' m (omega arith)) [
          | inl n ↦ inl (read_none w f b u' m some_byte range n)
          | inr (v', m', s) ↦ inr (v', m', read_eq w f b u' m count v' m' some_byte range s)
        ]),
      )
