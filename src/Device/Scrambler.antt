-- ===== src/Device/Scrambler.antt =====
-- `SATASIM::scramble_function` of bench/cpp/satasim.cpp: 32 rounds of a 16-bit feedback register.
pub mod Stream
use wbsata.Common.{ℕ, zero, suc, ◌+◌, ◌*◌, ◌/◌, ◌^◌, bit_and, bit_or, bit_xor}
use wbsata.Common.{◌==◌, if◌then◌else◌, u16, u32}

abbrev pub scrambler_polynomial : ℕ
scrambler_polynomial = 0xa011

abbrev pub scrambler_initial : ℕ
scrambler_initial = 0xffff

-- `(s_fill >> 15) & 0x1`, the bit that a round puts out.
unfoldable pub fill_msb : ℕ → ℕ
fill_msb s_fill = bit_and (s_fill / 2 ^ 15) 0x1

-- The branch that moves the register; `<<` is done in `int`, so only the mask cuts bits off.
unfoldable pub fill_step : ℕ → ℕ
fill_step s_fill =
    if bit_and s_fill 0x8000 == 0
    then bit_and (s_fill * 2) 0xFFFF
    else bit_and (bit_xor (s_fill * 2) scrambler_polynomial) 0xFFFF

pub record Scrambled : Type 0 where
  pub s_prn : ℕ
  pub s_fill : ℕ

-- The loop at index `k`, with `32 - k` rounds left.
unfoldable pub scramble_loop : ℕ → ℕ → ℕ → ℕ → Scrambled
scramble_loop zero k s_fill s_prn = record { s_prn = s_prn; s_fill = s_fill }
scramble_loop (suc left) k s_fill s_prn =
    scramble_loop left (k + 1) (fill_step s_fill) (bit_or s_prn (u32 (fill_msb s_fill * 2 ^ k)))

-- The 48-bit result: 32 bits of pseudo-random number over 16 bits of register.
unfoldable pub scramble_function : ℕ → ℕ
scramble_function prior =
    let out = scramble_loop 32 0 prior 0 in bit_or (out.s_prn * 2 ^ 16) out.s_fill

-- The two halves of the result, as `scramble_data` takes them out of it.
unfoldable pub prn_of : ℕ → ℕ
prn_of fill = u32 (scramble_function fill / 2 ^ 16)

unfoldable pub next_fill : ℕ → ℕ
next_fill fill = u16 (bit_and (scramble_function fill) 0xFFFF)
