-- ===== src/Examples/Words.antt =====
-- One word, at the scrambler, the CRC and the PHY.
use wbsata.Common.{refl, ℕ, bit_xor, ◌≡◌, arith}
use wbsata.Device.Scrambler.{prn_of, next_fill, scrambler_initial}
use wbsata.Device.Scrambler.Stream.{stream, rounds, scramble_halves}
use wbsata.Device.Crc.{advance_crc, crc_initial}
use wbsata.Device.Crc.Register.{shifts, advance_crc_lem, advance_crc_injective}

scramble_halves_example :
    (prn_of scrambler_initial ≡ stream 32 scrambler_initial)
    × (next_fill scrambler_initial ≡ rounds 32 scrambler_initial)
scramble_halves_example = scramble_halves scrambler_initial (omega arith, omega arith)

advance_crc_lem_example : advance_crc crc_initial 0x46 ≡ shifts 32 (bit_xor crc_initial 0x46)
advance_crc_lem_example = advance_crc_lem crc_initial 0x46 (omega arith)

abbrev data_header : ℕ
data_header = 0x46

advance_crc_injective_example : data_header ≡ data_header
advance_crc_injective_example =
    advance_crc_injective crc_initial data_header data_header (omega arith) (omega arith)
      (omega arith) refl
