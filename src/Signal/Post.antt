-- ===== src/Signal/Post.antt =====
-- `signal_post` of kernel/src/signal.c.
use osc.Common.{
  ℕ, ◌≡◌, ◌≢◌, ap, ◌∙◌, arith, true, false, ◌≤◌, ◌<◌, ◌^◌, ==_ne, update_self, update-ne,
}
use osc.Common.Int.{pos}
use osc.Sched.{Sched}
use osc.Signal.{nsig, bit_set, set_bit, signal_post, out_of_range}
use osc.Signal.Bits.{bit-set_bit, bit-set_bit-ne, set_bit_lt}

abbrev pub pending_of : Sched → ℕ → ℕ
pending_of s t = (s.threads t).sig.pending

-- Only the signals from 1 to `NSIG - 1` are pending.
pub record IsPending (p : ℕ) : Type 0 where
  pub bound : p < 2 ^ nsig
  pub not_zero : bit_set 0 p ≡ false

in_range : (n : ℕ) → 1 ≤ n → n < nsig → out_of_range (pos n) ≡ false
in_range n h k = ground arith

own :
    (t n : ℕ) (s : Sched)
    → t ≢ 0
    → 1 ≤ n
    → n < nsig
    → pending_of (signal_post t (pos n) s) t ≡ set_bit n (pending_of s t)
unfolding signal_post
own t n s h l k =
    rw (==_ne t 0 h) (rw (in_range n l k) (ap (λ v. v.sig.pending) (update_self s.threads t _)))

other :
    (t n : ℕ) (s : Sched)
    → t ≢ 0
    → 1 ≤ n
    → n < nsig
    → (u : ℕ) → t ≢ u
    → pending_of (signal_post t (pos n) s) u ≡ pending_of s u
unfolding signal_post
other t n s h l k u d =
    rw (==_ne t 0 h) (rw (in_range n l k) (ap (λ v. v.sig.pending) (update-ne s.threads t u _ d)))

-- A signal number from 1 to `NSIG - 1` posted to a thread is pending for it, and the other signals
-- are pending as before, for it and for all other threads; no signal but those is ever pending.
pub signal_post_lem :
    (t n : ℕ) (s : Sched)
    → t ≢ 0
    → 1 ≤ n
    → n < nsig
    → IsPending (pending_of s t)
    → (bit_set n (pending_of (signal_post t (pos n) s) t) ≡ true)
      × ((j : ℕ)
          → n ≢ j
          → bit_set j (pending_of (signal_post t (pos n) s) t) ≡ bit_set j (pending_of s t))
      × ((u : ℕ) → t ≢ u → pending_of (signal_post t (pos n) s) u ≡ pending_of s u)
      × IsPending (pending_of (signal_post t (pos n) s) t)
signal_post_lem t n s h l k i = (
  rw e (bit-set_bit n (pending_of s t)),
  (λ j d. rw e (bit-set_bit-ne n j (pending_of s t) d)),
  other t n s h l k,
  rw e bounded,
)
  where
    e : pending_of (signal_post t (pos n) s) t ≡ set_bit n (pending_of s t)
    e = own t n s h l k

    bounded : IsPending (set_bit n (pending_of s t))
    bounded = record {
      bound = set_bit_lt n nsig (pending_of s t) k i.bound;
      not_zero = bit-set_bit-ne n 0 (pending_of s t) (λ z. omega (arith, z, l)) ∙ i.not_zero;
    }
