-- ===== src/Common/Bytes.antt =====
-- The bytes of a word, under the operations that work bit by bit.
use Prim.Native.Nat.{ℕ, zero, suc, ◌+◌, ◌*◌, ◌/◌, ◌%◌, ◌^◌, ◌<◌, min, max, bit_and, bit_or}
use mathlib.Core.Path.{◌≡◌, ap, ap₂, ◌∙◌}
use native.Mathlib.Nat.{mod-one, div-one}
use native.Mathlib.Omega.{arith}
use wbsata.Common.Xor.{bit_and_step, bit_or_step, mod_two_pow_suc, div_two_pow_suc, and_ones}

-- The byte at place `i`, 0 for the lowest.
abbrev pub byte : ℕ → ℕ → ℕ
byte i w = w / 2 ^ (8 * i) % 256

-- An operation that halves into itself, and has its lowest bit from the lowest bits.
module _ (op bit : ℕ → ℕ → ℕ)
    (step : (a b : ℕ) → op a b ≡ op (a / 2) (b / 2) * 2 + bit (a % 2) (b % 2))
    (small : (a b : ℕ) → bit (a % 2) (b % 2) < 2) where
  op-half : (a b : ℕ) → op a b / 2 ≡ op (a / 2) (b / 2)
  op-half a b = omega (arith, step a b, small a b)

  op-div : (k a b : ℕ) → op a b / 2 ^ k ≡ op (a / 2 ^ k) (b / 2 ^ k)
  op-div zero a b = simp div-one
  op-div (suc k) a b =
      rw (div_two_pow_suc (op a b) k, op-half a b, div_two_pow_suc a k, div_two_pow_suc b k)
        (op-div k (a / 2) (b / 2))

  op-mod : (k a b : ℕ) → op a b % 2 ^ k ≡ op (a % 2 ^ k) (b % 2 ^ k)
  op-mod zero a b = simp mod-one (omega (arith, step 0 0, small 0 0))
  op-mod (suc k) a b = omega (
    arith,
    mod_two_pow_suc (op a b) k,
    ap (λ t. t % 2 ^ k) (op-half a b),
    op-mod k (a / 2) (b / 2),
    step a b,
    small a b,
    step (a % 2 ^ suc k) (b % 2 ^ suc k),
    ap₂ op (halves a) (halves b),
    ap₂ bit (last a) (last b),
  )
    where
      halves : (c : ℕ) → c % 2 ^ suc k / 2 ≡ c / 2 % 2 ^ k
      halves c = omega (arith, mod_two_pow_suc c k)

      last : (c : ℕ) → c % 2 ^ suc k % 2 ≡ c % 2
      last c = omega (arith, mod_two_pow_suc c k)

  byte-op : (i a b : ℕ) → byte i (op a b) ≡ op (byte i a) (byte i b)
  byte-op i a b =
      ap (λ t. t % 256) (op-div (8 * i) a b) ∙ op-mod 8 (a / 2 ^ (8 * i)) (b / 2 ^ (8 * i))

pub byte-and : (i a b : ℕ) → byte i (bit_and a b) ≡ bit_and (byte i a) (byte i b)
byte-and i a b = byte-op bit_and min bit_and_step (λ a b. omega arith) i a b

pub byte-or : (i a b : ℕ) → byte i (bit_or a b) ≡ bit_or (byte i a) (byte i b)
byte-or i a b = byte-op bit_or max bit_or_step (λ a b. omega arith) i a b

pub and_byte : (b : ℕ) → b < 256 → bit_and b 255 ≡ b
and_byte b h = omega (arith, and_ones 8 b)
