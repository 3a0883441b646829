-- ===== src/Signal/Bits.antt =====
-- The bitmap of pending signals: `lowest_bit_index` of kernel/src/signal.c, and the setting and
-- clearing of a bit.
use osc.Common.{
  ℕ, zero, suc, ◌≡◌, ◌≢◌, refl, ap, ◌∙◌, arith, true, false, some, ◌+◌, ◌*◌, ◌/◌, ◌%◌, ◌^◌, ◌<◌,
  ◌≤◌, ◌==◌, ==_iff, ==_ne, eq_or_ne, inl, inr,
}
use osc.Signal.{lowest_bit_from, bit_set, set_bit, clear_bit}

halves : (a y x : ℕ) → y ≡ (x / 2) → (a * 2 + x % 2) / 2 ≡ a
halves a y x h = omega arith

pub bit-set_bit : (i x : ℕ) → bit_set i (set_bit i x) ≡ true
bit-set_bit zero x = ground arith
bit-set_bit (suc i) x =
    ap (bit_set i) (halves (set_bit i (x / 2)) (x / 2) x refl) ∙ bit-set_bit i (x / 2)

pub bit-set_bit-ne : (i j x : ℕ) → i ≢ j → bit_set j (set_bit i x) ≡ bit_set j x
bit-set_bit-ne zero zero x h = absurd (h refl)
bit-set_bit-ne zero (suc j) x h = ap (bit_set j) (omega arith)
bit-set_bit-ne (suc i) zero x h = ap (λ r. r == 1) (omega arith)
bit-set_bit-ne (suc i) (suc j) x h =
    ap (bit_set j) (halves (set_bit i (x / 2)) (x / 2) x refl)
    ∙ bit-set_bit-ne i j (x / 2) (λ e. h (ap suc e))

pub bit-clear_bit : (i x : ℕ) → bit_set i (clear_bit i x) ≡ false
bit-clear_bit zero x = ground arith
bit-clear_bit (suc i) x =
    ap (bit_set i) (halves (clear_bit i (x / 2)) (x / 2) x refl) ∙ bit-clear_bit i (x / 2)

pub bit-clear_bit-ne : (i j x : ℕ) → i ≢ j → bit_set j (clear_bit i x) ≡ bit_set j x
bit-clear_bit-ne zero zero x h = absurd (h refl)
bit-clear_bit-ne zero (suc j) x h = ap (bit_set j) (omega arith)
bit-clear_bit-ne (suc i) zero x h = ap (λ r. r == 1) (omega arith)
bit-clear_bit-ne (suc i) (suc j) x h =
    ap (bit_set j) (halves (clear_bit i (x / 2)) (x / 2) x refl)
    ∙ bit-clear_bit-ne i j (x / 2) (λ e. h (ap suc e))

-- Setting a bit below bit `n` leaves a number of `n` bits.
pub set_bit_lt : (i n x : ℕ) → i < n → x < 2 ^ n → set_bit i x < 2 ^ n
set_bit_lt zero zero x h k = elim h [ ]
set_bit_lt (suc i) zero x h k = elim h [ ]
set_bit_lt zero (suc n) x h k = omega (arith, k)
set_bit_lt (suc i) (suc n) x h k =
    omega (arith, set_bit_lt i n (x / 2) (omega (arith, h)) (omega (arith, k)))

-- What the loop finds in a number of at most `n` bits that is not 0: the lowest bit that is set.
pub record IsLowest (n x i : ℕ) : Type 0 where
  pub bound : i < n
  pub found : bit_set i x ≡ true
  pub below : (j : ℕ) → j < i → bit_set j x ≡ false

pub lowest_bit_lem :
    (n fuel x idx : ℕ)
    → x ≢ 0
    → x < 2 ^ n
    → n ≤ fuel
    → (i : ℕ) × (lowest_bit_from fuel x idx ≡ some (idx + i)) × IsLowest n x i
unfolding lowest_bit_from
lowest_bit_lem zero fuel x idx h k l = absurd (h (omega (arith, k)))
lowest_bit_lem (suc n) zero x idx h k l = elim l [ ]
lowest_bit_lem (suc n) (suc fuel) x idx h k l = elim (eq_or_ne (x % 2) 0) [
  | inl e ↦
      let r =
        lowest_bit_lem n fuel (x / 2) (idx + 1) (λ z. h (omega (arith, e, z))) (omega (arith, k))
          (omega (arith, l)) in
      (
        suc r.0,
        rw ((==_iff (x % 2) 0).1 e) (r.1 ∙ ap some (omega arith)),
        record {
          bound = omega (arith, r.2.bound);
          found = r.2.found;
          below = below x e r.0 r.2.below;
        },
      )
  | inr e ↦ (
    0,
    rw (==_ne (x % 2) 0 e) (ap some (omega arith)),
    record {
      bound = omega arith;
      found = (==_iff (x % 2) 1).1 (omega (arith, e));
      below = λ j g. elim g [ ];
    },
  )
]
  where
    below :
        (x : ℕ)
        → x % 2 ≡ 0
        → (i : ℕ) → ((j : ℕ) → j < i → bit_set j (x / 2) ≡ false)
        → (j : ℕ) → j < suc i
        → bit_set j x ≡ false
    below x e i f zero g = rw e refl
    below x e i f (suc j) g = f j (omega (arith, g))
