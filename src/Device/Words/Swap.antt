-- ===== src/Device/Words/Swap.antt =====
-- The byte order of a word: `swap_endian`.
use wbsata.Common.{ℕ, ◌+◌, ◌*◌, ◌/◌, ◌^◌, ◌<◌, bit_and, bit_or, ◌≡◌, ap, ap₂, ◌∙◌, arith, u32}
use wbsata.Common.Xor.{and_ones}
use wbsata.Common.Bytes.{byte}
use wbsata.Common.Fields.{and_shifted, or_above}
use wbsata.Device.Words.{swap_endian}

mask3 : (w : ℕ) → bit_and w 0xFF000000 ≡ byte 3 w * 2 ^ 24
mask3 w = omega (arith, and_shifted 24 w 255, and_ones 8 (w / 2 ^ 24))

mask2 : (w : ℕ) → bit_and w 0x00FF0000 ≡ byte 2 w * 2 ^ 16
mask2 w = omega (arith, and_shifted 16 w 255, and_ones 8 (w / 2 ^ 16))

mask1 : (w : ℕ) → bit_and w 0x0000FF00 ≡ byte 1 w * 2 ^ 8
mask1 w = omega (arith, and_shifted 8 w 255, and_ones 8 (w / 2 ^ 8))

mask0 : (w : ℕ) → bit_and w 0x000000FF ≡ byte 0 w
mask0 w = omega (arith, and_ones 8 w)

-- The four bytes of the swapped word are those of the word in the other order.
pub swap_endian_sum :
    (w : ℕ) → swap_endian w ≡ byte 3 w + byte 2 w * 2 ^ 8 + byte 1 w * 2 ^ 16 + byte 0 w * 2 ^ 24
unfolding swap_endian
swap_endian_sum w =
    ap₂ bit_or (ap₂ bit_or (ap₂ bit_or low second) third) top
    ∙ ap (λ t. bit_or (bit_or t (byte 1 w * 2 ^ 16)) (byte 0 w * 2 ^ 24))
        (or_above 8 (byte 3 w) (byte 2 w) (omega arith))
    ∙ ap (λ t. bit_or t (byte 0 w * 2 ^ 24))
        (or_above 16 (byte 3 w + byte 2 w * 2 ^ 8) (byte 1 w) (omega arith))
    ∙ or_above 24 (byte 3 w + byte 2 w * 2 ^ 8 + byte 1 w * 2 ^ 16) (byte 0 w) (omega arith)
  where
    low : bit_and w 0xFF000000 / 2 ^ 24 ≡ byte 3 w
    low = omega (arith, mask3 w)

    second : bit_and w 0x00FF0000 / 2 ^ 8 ≡ byte 2 w * 2 ^ 8
    second = omega (arith, mask2 w)

    third : u32 (bit_and w 0x0000FF00 * 2 ^ 8) ≡ byte 1 w * 2 ^ 16
    third = omega (arith, mask1 w)

    top : u32 (bit_and w 0x000000FF * 2 ^ 24) ≡ byte 0 w * 2 ^ 24
    top = omega (arith, mask0 w)

pub swap_endian-lt : (w : ℕ) → swap_endian w < 2 ^ 32
swap_endian-lt w = omega (arith, swap_endian_sum w)

-- Swapping the byte order of a word puts byte `i` at place `3 - i`.
pub swap_endian_bytes :
    (w : ℕ)
    → (byte 0 (swap_endian w) ≡ byte 3 w)
      × (byte 1 (swap_endian w) ≡ byte 2 w)
      × (byte 2 (swap_endian w) ≡ byte 1 w)
      × (byte 3 (swap_endian w) ≡ byte 0 w)
swap_endian_bytes w = omega (arith, swap_endian_sum w)

-- Swapping the byte order of a 32-bit word twice gives the word back.
pub swap_endian_twice : (w : ℕ) → w < 2 ^ 32 → swap_endian (swap_endian w) ≡ w
swap_endian_twice w h = omega (arith, swap_endian_sum w, swap_endian_sum (swap_endian w))
