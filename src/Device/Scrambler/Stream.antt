-- ===== src/Device/Scrambler/Stream.antt =====
-- The register of the scrambler, the numbers it puts out, and the way back.
use native.Mathlib.Nat.{pow-suc, pow-le-pow_right, mod-eq_of_lt}
use wbsata.Common.{ℕ, zero, suc, ◌+◌, ◌*◌, ◌/◌, ◌^◌, ◌≤◌, ◌<◌, bit_or, bit_xor}
use wbsata.Common.{◌≡◌, ap, ◌∙◌, inl, inr, arith, u32}
use wbsata.Common.Xor.{and_ones, xor_bit, bit_cases}
use wbsata.Common.Fields.{and_two_pow, or_disjoint, or_comm, two_pow_next}
use wbsata.Device.Scrambler.{
  fill_msb, fill_step, scramble_loop, scramble_function, prn_of, next_fill,
}

-- A register value from which the scrambler never gets stuck.
abbrev pub IsLive : ℕ → Type 0
IsLive fill = (0 < fill) × (fill < 2 ^ 16)

pub fill_msb_lem : (f : ℕ) → f < 2 ^ 16 → fill_msb f ≡ f / 2 ^ 15
unfolding fill_msb
fill_msb_lem f h = omega (arith, and_ones 1 (f / 2 ^ 15))

pub fill_step-IsLive : (f : ℕ) → IsLive f → IsLive (fill_step f)
unfolding fill_step
fill_step-IsLive f h = ground (
  arith,
  and_two_pow 15 f,
  and_ones 16 (f * 2),
  and_ones 16 (bit_xor (f * 2) 0xa011),
  xor_bit (f * 2) 0xa011,
)

-- The bits that `n` rounds put out, the first of them lowest.
pub stream : ℕ → ℕ → ℕ
stream zero f = 0
stream (suc n) f = fill_msb f + stream n (fill_step f) * 2

pub rounds : ℕ → ℕ → ℕ
rounds zero f = f
rounds (suc n) f = rounds n (fill_step f)

pub rounds-IsLive : (n f : ℕ) → IsLive f → IsLive (rounds n f)
unfolding rounds
rounds-IsLive zero f h = h
rounds-IsLive (suc n) f h = rounds-IsLive n (fill_step f) (fill_step-IsLive f h)

pub stream-lt : (n f : ℕ) → IsLive f → stream n f < 2 ^ n
unfolding stream
stream-lt zero f h = omega arith
stream-lt (suc n) f h =
    omega (arith, pow-suc 2 n, fill_msb_lem f h.1, stream-lt n (fill_step f) (fill_step-IsLive f h))

-- One round puts its bit at place `k`, above those that are there.
or_bit : (k b p : ℕ) → k < 32 → b < 2 → p < 2 ^ k → bit_or p (u32 (b * 2 ^ k)) ≡ p + b * 2 ^ k
or_bit k b p hk hb hp =
    ap (bit_or p) fits ∙ or_comm p (b * 2 ^ k) ∙ or_disjoint k b p hp ∙ omega arith
  where
    small : 2 ^ k ≤ 2 ^ 31
    small = pow-le-pow_right {n = 2} (omega arith) {j = 31} (omega arith)

    fits : u32 (b * 2 ^ k) ≡ b * 2 ^ k
    fits =
        mod-eq_of_lt (elim (bit_cases b hb) [
          | inl e ↦ rw e (omega arith)
          | inr e ↦ rw e (omega (arith, small))
        ])

scramble_loop_lem :
    (n k f p : ℕ)
    → k + n ≤ 32
    → IsLive f
    → p < 2 ^ k
    → scramble_loop n k f p ≡ record { s_prn = p + stream n f * 2 ^ k; s_fill = rounds n f }
unfolding scramble_loop stream rounds
scramble_loop_lem zero k f p hk h hp = λ i. record { s_prn = done i; s_fill = f }
  where
    done : p ≡ p + 0 * 2 ^ k
    done = omega arith
scramble_loop_lem (suc n) k f p hk h hp = rw (or_bit k (fill_msb f) p (omega arith) bit hp) (
    scramble_loop_lem n (k + 1) (fill_step f) (p + fill_msb f * 2 ^ k) (omega arith)
      (fill_step-IsLive f h) (omega (arith, two_pow_next k, step))
    ∙ (λ i. record { s_prn = sum i; s_fill = rounds n (fill_step f) }))
  where
    bit : fill_msb f < 2
    bit = omega (arith, fill_msb_lem f h.1)

    step : fill_msb f * 2 ^ k ≤ 2 ^ k
    step = elim (bit_cases (fill_msb f) bit) [
      | inl e ↦ rw e (omega arith)
      | inr e ↦ rw e (omega arith)
    ]

    sum :
        p + fill_msb f * 2 ^ k + stream n (fill_step f) * 2 ^ (k + 1)
        ≡ p + (fill_msb f + stream n (fill_step f) * 2) * 2 ^ k
    sum = rw two_pow_next (omega arith)

-- What the 48-bit result packs: the 32 bits put out, and the register 32 rounds on.
scramble_function_lem :
    (f : ℕ) → IsLive f → scramble_function f ≡ stream 32 f * 2 ^ 16 + rounds 32 f
unfolding scramble_function
scramble_function_lem f h =
    rw (scramble_loop_lem 32 0 f 0 (omega arith) h (omega arith))
      (rw (tidy) (or_disjoint 16 (stream 32 f) (rounds 32 f) (rounds-IsLive 32 f h).1))
  where
    tidy : 0 + stream 32 f * 2 ^ 0 ≡ stream 32 f
    tidy = omega arith

-- From a live register, one call of the scrambler puts out the 32 most significant bits that the
-- register shows over 32 rounds, the first of them lowest, and leaves the register 32 rounds on.
pub scramble_halves : (f : ℕ) → IsLive f → (prn_of f ≡ stream 32 f) × (next_fill f ≡ rounds 32 f)
unfolding prn_of next_fill
scramble_halves f h = (
  omega (arith, scramble_function_lem f h, stream-lt 32 f h, rounds-IsLive 32 f h),
  omega (
    arith,
    and_ones 16 (scramble_function f),
    scramble_function_lem f h,
    stream-lt 32 f h,
    rounds-IsLive 32 f h,
  ),
)

-- The scrambler's register never reaches zero, where it would put out zeros for ever.
pub next_fill-IsLive : (f : ℕ) → IsLive f → IsLive (next_fill f)
next_fill-IsLive f h = rw (scramble_halves f h).1 (rounds-IsLive 32 f h)
