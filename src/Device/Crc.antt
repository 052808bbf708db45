-- ===== src/Device/Crc.antt =====
-- `SATASIM::advance_crc` of bench/cpp/satasim.cpp: 32 rounds of a 32-bit feedback register.
pub mod Register
use wbsata.Common.{ℕ, zero, suc, ◌+◌, ◌-◌, ◌*◌, ◌/◌, ◌^◌, bit_and, bit_xor}
use wbsata.Common.{Bool, not, ◌==◌, if◌then◌else◌, u32}

abbrev pub crc_polynomial : ℕ
crc_polynomial = 0x04c11db7

abbrev pub crc_initial : ℕ
crc_initial = 0x52325032

-- `bit ^ data_bit` on two `bool`s.
unfoldable pub bits_differ : ℕ → ℕ → Bool
bits_differ bit data_bit = not (bit == data_bit)

-- The branch of a round.
unfoldable pub sreg_step : Bool → ℕ → ℕ
sreg_step feed sreg =
    if feed
    then bit_and (bit_xor (u32 (sreg * 2)) crc_polynomial) 0xFFFFFFFF
    else bit_and (u32 (sreg * 2)) 0xFFFFFFFF

-- The loop at index `k`, with `32 - k` rounds left; `31 - k` is exact there.
unfoldable pub advance_loop : ℕ → ℕ → ℕ → ℕ → ℕ
unfolding bits_differ sreg_step
advance_loop zero k sreg input = sreg
advance_loop (suc left) k sreg input =
    let bit = bit_and (sreg / 2 ^ 31) 0x1 in
    let data_bit = bit_and (input / 2 ^ (31 - k)) 0x1 in
    advance_loop left (k + 1) (sreg_step (bits_differ bit data_bit) sreg) input

unfoldable pub advance_crc : ℕ → ℕ → ℕ
unfolding advance_loop
advance_crc prior dword = advance_loop 32 0 prior dword
