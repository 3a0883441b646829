-- ===== src/Tests/Bytes.antt =====
-- The printing of numbers in kernel/src/utils.c and the rings of kernel/src/uart.c.
use osc.Common.{◌≡◌, refl, arith, true, [], ◌∷◌, ◌++◌}
use osc.Utils.{hex_digits, print_hex_u32, dec_digits, print_dec_ulong}
use osc.Uart.{UartRing, Uart, ring_empty, ring_pop, transmit, uart_top_half}
use osc.Uart.Ring.{contents, IsBounded}
use osc.Uart.TopHalf.{uart_top_half-tx}
use osc.Tests.Bottom.{state}

-- "305" and "000000ff"
printed_305 : print_dec_ulong 305 ≡ 51 ∷ 48 ∷ 53 ∷ []
unfolding dec_digits print_dec_ulong
printed_305 = refl

printed_255 : print_hex_u32 255 ≡ 48 ∷ 48 ∷ 48 ∷ 48 ∷ 48 ∷ 48 ∷ 102 ∷ 102 ∷ []
unfolding hex_digits print_hex_u32
printed_255 = refl

-- Two bytes, the second past the end of the buffer.
abbrev pub ring : UartRing
ring = record { buf = λ i. i; head = 1; tail = 255 }

ring-contents : contents ring ≡ 255 ∷ 0 ∷ []
ring-contents = refl

pub ring-IsBounded : IsBounded ring
ring-IsBounded = record { head_lt = omega arith; tail_lt = omega arith }

abbrev pub uart : Uart
uart = record {
  rx_buf = ring;
  tx_buf = ring;
  sent = 66 ∷ [];
  tie = true;
  completed = [];
  tasks = state;
}

uart_top_half-tx_example :
    (uart_top_half 9 (72 ∷ 105 ∷ []) 1 10 uart).sent
      ++ contents (uart_top_half 9 (72 ∷ 105 ∷ []) 1 10 uart).tx_buf
    ≡ (66 ∷ []) ++ contents ring
uart_top_half-tx_example =
    uart_top_half-tx 9 1 10 (72 ∷ 105 ∷ []) uart ring-IsBounded (omega arith, (omega arith, tt))

-- One byte is sent.
sent_one : (transmit 1 ring (66 ∷ [])).1 ≡ 66 ∷ 255 ∷ []
unfolding ring_empty ring_pop transmit
sent_one = refl
