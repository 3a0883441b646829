-- ===== src/Uart.antt =====
-- The ring buffers of the UART driver, kernel/src/uart.c, and what its interrupt handler does with
-- them. What the device has received, and how many bytes its transmitter takes, are arguments.
pub mod Ring
pub mod Fifo
pub mod TopHalf
pub mod Console
use osc.Common.{
  ℕ, zero, suc, ◌+◌, ◌-◌, ◌%◌, Bool, true, false, List, [], ◌∷◌, ◌++◌, ◌==◌, if◌then◌else◌, u32,
  update,
}
use osc.Common.Int.{ℤ, pos, negsuc, eqb}
use osc.Task.{TaskState, add_task}

abbrev pub uart_buf_size : ℕ
uart_buf_size = 256

abbrev pub uart_task_prio : ℤ
uart_task_prio = pos 1

-- `struct uart_ring`
pub record UartRing : Type 0 where
  pub buf : ℕ → ℕ
  pub head : ℕ
  pub tail : ℕ

-- `(i + 1U) & UART_BUF_MASK`
abbrev pub next_index : ℕ → ℕ
next_index i = u32 (i + 1) % uart_buf_size

unfoldable pub ring_empty : UartRing → Bool
ring_empty r = r.head == r.tail

unfoldable pub ring_full : UartRing → Bool
ring_full r = next_index r.head == r.tail

unfoldable pub ring_push : ℕ → UartRing → UartRing
ring_push c r =
    if next_index r.head == r.tail
    then r
    else record r { buf = update r.buf r.head c; head = next_index r.head }

-- The byte, or -1.
unfoldable pub ring_pop : UartRing → ℤ × UartRing
ring_pop r =
    if r.head == r.tail
    then (negsuc 0, r)
    else (pos (r.buf r.tail), record r { tail = next_index r.tail })

-- `rx_buf`, `tx_buf`, the bytes handed to the transmitter, IER.TIE, and the PLIC sources completed.
pub record Uart : Type 0 where
  pub rx_buf : UartRing
  pub tx_buf : UartRing
  pub sent : List ℕ
  pub tie : Bool
  pub completed : List ℕ
  pub tasks : TaskState

-- `while (LSR & LSR_DR)`, over the bytes received.
unfoldable pub receive : List ℕ → UartRing → UartRing
receive [] r = r
receive (c ∷ cs) r = receive cs (ring_push (c % 256) r)

-- `(unsigned char)c`
abbrev pub byte_of : ℤ → ℕ
byte_of (pos c) = c % 256
byte_of (negsuc n) = 255 - n % 256

-- `while (!ring_empty(&tx_buf) && (LSR & LSR_TDRQ))`, while the transmitter takes `room` bytes.
unfoldable pub transmit : ℕ → UartRing → List ℕ → UartRing × List ℕ
transmit zero r sent = (r, sent)
transmit (suc room) r sent =
    let (c, r') = ring_pop r in
    let rest = transmit room r' (sent ++ (byte_of c ∷ [])) in
    if ring_empty r then (r, sent) else rest

-- `cb` is the address of `uart_bottom_half`.
unfoldable pub uart_top_half : ℕ → List ℕ → ℕ → ℕ → Uart → Uart
uart_top_half cb received room irq u =
    let (tx, sent) = transmit room u.tx_buf u.sent in
    let (r, tasks) = add_task cb irq uart_task_prio u.tasks in
    record u {
      rx_buf = receive received u.rx_buf;
      tx_buf = tx;
      sent = sent;
      tie = if ring_empty tx then false else u.tie;
      completed = if eqb r (pos 0) then u.completed else irq ∷ u.completed;
      tasks = tasks;
    }
