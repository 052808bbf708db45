-- ===== src/Device/Crc/Register.antt =====
-- The register of the CRC: one call is 32 rounds of a bijection, applied to the exclusive or of
-- the register and the word.
use native.Mathlib.Nat.{mod-eq_of_lt, one-le-pow, mul-div-mul_right}
use wbsata.Common.{ℕ, zero, suc, ◌+◌, ◌-◌, ◌*◌, ◌/◌, ◌%◌, ◌^◌, ◌≤◌, ◌<◌, bit_and, bit_xor}
use wbsata.Common.{◌≡◌, refl, sym, ap, ◌∙◌, Bool, true, false, arith, u32, ◌==◌, if◌then◌else◌}
use wbsata.Common.Xor.{
  and_ones, xor_bit, xor_cancel, xor_self, xor-lt, xor-mod, xor-div, xor-double,
}
use wbsata.Common.Xor.{xor_right_comm, xor_comm, xor-zero}
use wbsata.Common.Fields.{two_pow_next, two_pow_add}
use wbsata.Device.Crc.{bits_differ, sreg_step, advance_loop, advance_crc, crc_polynomial}

abbrev pub IsWord : ℕ → Type 0
IsWord w = w < 2 ^ 32

-- The most significant bit of a word.
abbrev msb : ℕ → ℕ
msb w = w / 2 ^ 31 % 2

-- One round with no data bit.
shift : ℕ → ℕ
shift w = if msb w == 0 then u32 (w * 2) else bit_xor (u32 (w * 2)) crc_polynomial

pub shifts : ℕ → ℕ → ℕ
shifts zero w = w
shifts (suc n) w = shifts n (shift w)

shift-IsWord : (w : ℕ) → IsWord (shift w)
unfolding shift
shift-IsWord w = ground (arith, xor-lt 32 (u32 (w * 2)) crc_polynomial)

shift_injective : (v w : ℕ) → IsWord v → IsWord w → shift v ≡ shift w → v ≡ w
unfolding shift
shift_injective v w hv hw e = ground (
  arith,
  xor_bit (u32 (v * 2)) crc_polynomial,
  xor_bit (u32 (w * 2)) crc_polynomial,
  xor_cancel (u32 (v * 2)) crc_polynomial,
  xor_cancel (u32 (w * 2)) crc_polynomial,
)

msb_xor : (v w : ℕ) → msb (bit_xor v w) ≡ (msb v + msb w) % 2
msb_xor v w = ap (λ t. t % 2) (xor-div 31 v w) ∙ xor_bit (v / 2 ^ 31) (w / 2 ^ 31) ∙ omega arith

double_xor : (v w : ℕ) → u32 (bit_xor v w * 2) ≡ bit_xor (u32 (v * 2)) (u32 (w * 2))
double_xor v w = ap u32 (sym (xor-double v w)) ∙ xor-mod 32 (v * 2) (w * 2)

sreg_step-true : (s : ℕ) → sreg_step true s ≡ bit_xor (u32 (s * 2)) crc_polynomial
unfolding sreg_step
sreg_step-true s =
    and_ones 32 (bit_xor (u32 (s * 2)) crc_polynomial)
    ∙ mod-eq_of_lt (xor-lt 32 (u32 (s * 2)) crc_polynomial (omega arith) (omega arith))

sreg_step-false : (s : ℕ) → sreg_step false s ≡ u32 (s * 2)
unfolding sreg_step
sreg_step-false s = omega (arith, and_ones 32 (u32 (s * 2)))

-- A round with the data bit of `e` is a round of the exclusive or, less what is still to come.
round_xor :
    (s e : ℕ)
    → bit_xor (sreg_step (bits_differ (bit_and (s / 2 ^ 31) 0x1) (msb e)) s) (u32 (e * 2))
      ≡ shift (bit_xor s e)
unfolding bits_differ shift
round_xor s e = ground (
  arith,
  and_ones 1 (s / 2 ^ 31),
  msb_xor s e,
  double_xor s e,
  sreg_step-true s,
  sreg_step-false s,
  xor_right_comm (u32 (s * 2)) crc_polynomial (u32 (e * 2)),
)

sreg_step-IsWord : (b : Bool) (s : ℕ) → IsWord (sreg_step b s)
unfolding sreg_step
sreg_step-IsWord true s = omega (arith, and_ones 32 (bit_xor (u32 (s * 2)) crc_polynomial))
sreg_step-IsWord false s = omega (arith, and_ones 32 (u32 (s * 2)))

-- What is left of a word after its first `k` bits, at the top.
abbrev rest : ℕ → ℕ → ℕ
rest k d = u32 (d * 2 ^ k)

rest_next : (k d : ℕ) → rest (k + 1) d ≡ u32 (rest k d * 2)
rest_next k d = rw two_pow_next (omega arith)

msb-rest : (k d : ℕ) → k ≤ 31 → bit_and (d / 2 ^ (31 - k)) 0x1 ≡ msb (rest k d)
msb-rest k d h = omega (arith, and_ones 1 (d / 2 ^ (31 - k)), quotient)
  where
    whole : 2 ^ (31 - k) * 2 ^ k ≡ 2 ^ 31
    whole = let e : 31 - k + k ≡ 31 = omega arith in rw (two_pow_add, e)

    quotient : d * 2 ^ k / 2 ^ 31 ≡ d / 2 ^ (31 - k)
    quotient =
        ap (λ t. d * 2 ^ k / t) (sym whole)
        ∙ mul-div-mul_right d (2 ^ (31 - k)) (one-le-pow k 2 (omega arith))

advance_loop_lem :
    (n k s d : ℕ) → k + n ≡ 32 → advance_loop n k s d ≡ shifts n (bit_xor s (rest k d))
unfolding advance_loop shifts
advance_loop_lem zero k s d e = sym (ap (bit_xor s) gone ∙ xor-zero s)
  where
    gone : rest k d ≡ 0
    gone = let e' : k ≡ 32 = omega arith in rw e' (omega arith)
advance_loop_lem (suc n) k s d e = rw (msb-rest k d (omega arith)) (
    advance_loop_lem n (k + 1) _ d (omega arith)
    ∙ ap (shifts n) (ap (bit_xor _) (rest_next k d) ∙ round_xor s (rest k d)))

-- One call of `advance_crc` is 32 rounds, without data, of the exclusive or.
pub advance_crc_lem : (c d : ℕ) → IsWord d → advance_crc c d ≡ shifts 32 (bit_xor c d)
unfolding advance_crc
advance_crc_lem c d hd =
    advance_loop_lem 32 0 c d (omega arith) ∙ ap (λ t. shifts 32 (bit_xor c t)) (omega arith)

shifts-IsWord : (n w : ℕ) → IsWord w → IsWord (shifts n w)
unfolding shifts
shifts-IsWord zero w h = h
shifts-IsWord (suc n) w h = shifts-IsWord n (shift w) (shift-IsWord w)

shifts_injective : (n v w : ℕ) → IsWord v → IsWord w → shifts n v ≡ shifts n w → v ≡ w
unfolding shifts
shifts_injective zero v w hv hw e = e
shifts_injective (suc n) v w hv hw e =
    shift_injective v w hv hw
      (shifts_injective n (shift v) (shift w) (shift-IsWord v) (shift-IsWord w) e)

pub advance_crc-IsWord : (c d : ℕ) → IsWord c → IsWord d → IsWord (advance_crc c d)
advance_crc-IsWord c d hc hd =
    rw (advance_crc_lem c d hd) (shifts-IsWord 32 (bit_xor c d) (xor-lt 32 c d hc hd))

xor_left_injective : (c v w : ℕ) → bit_xor c v ≡ bit_xor c w → v ≡ w
xor_left_injective c v w e =
    sym (xor_cancel v c) ∙ ap (λ t. bit_xor t c) (xor_comm v c ∙ e ∙ xor_comm c w) ∙ xor_cancel w c

-- From one register, two different words give two different registers.
pub advance_crc_injective :
    (c v w : ℕ) → IsWord c → IsWord v → IsWord w → advance_crc c v ≡ advance_crc c w → v ≡ w
advance_crc_injective c v w hc hv hw e = xor_left_injective c v w (
    shifts_injective 32 (bit_xor c v) (bit_xor c w) (xor-lt 32 c v hc hv) (xor-lt 32 c w hc hw)
      (sym (advance_crc_lem c v hv) ∙ e ∙ advance_crc_lem c w hw))

-- The register and the word play the same part.
pub advance_crc_comm : (c d : ℕ) → IsWord c → IsWord d → advance_crc c d ≡ advance_crc d c
advance_crc_comm c d hc hd =
    advance_crc_lem c d hd ∙ ap (shifts 32) (xor_comm c d) ∙ sym (advance_crc_lem d c hc)

shifts-zero : (n : ℕ) → shifts n 0 ≡ 0
unfolding shifts shift
shifts-zero zero = refl
shifts-zero (suc n) = shifts-zero n

-- The register after its own value is zero.
pub advance_crc_self : (c : ℕ) → IsWord c → advance_crc c c ≡ 0
advance_crc_self c h = advance_crc_lem c c h ∙ ap (shifts 32) (xor_self c) ∙ shifts-zero 32

advance_loop-IsWord : (n k c d : ℕ) → IsWord c → IsWord (advance_loop n k c d)
unfolding advance_loop
advance_loop-IsWord zero k c d h = h
advance_loop-IsWord (suc n) k c d h =
    advance_loop-IsWord n (k + 1) _ d (sreg_step-IsWord (bits_differ _ _) c)

-- The register fits 32 bits after any call, whatever it and the word were.
pub advance_crc-fits : (c d : ℕ) → IsWord (advance_crc c d)
unfolding advance_crc
advance_crc-fits c d = advance_loop-IsWord 31 1 _ d (sreg_step-IsWord (bits_differ _ _) c)
