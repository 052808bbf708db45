-- ===== src/Device/Words.antt =====
-- The words of a frame: byte order, scrambling and the running CRC, sent and received.
-- `swap_endian`, `scramble_data`, `calculate_crc`, `device_link_sends` and `device_link_receives`
-- of bench/cpp/satasim.cpp.
pub mod Swap
use wbsata.Common.{ℕ, ◌+◌, ◌-◌, ◌*◌, ◌/◌, ◌^◌, bit_and, bit_or, bit_xor, u32}
use wbsata.Common.{Bool, true, false, not, ◌&&◌, Option, none, some, ◌>>=◌}
use wbsata.Common.{List, length, set, ltb, ◌==◌, if◌then◌else◌}
use wbsata.Device.Scrambler.{prn_of, next_fill}
use wbsata.Device.Crc.{advance_crc}
use wbsata.Device.State.{SataSim, reset_data_buffer}
use wbsata.Device.Phy.{device_phy_sends}

unfoldable pub swap_endian : ℕ → ℕ
swap_endian w =
    bit_or
      (bit_or (bit_or (bit_and w 0xFF000000 / 2 ^ 24) (bit_and w 0x00FF0000 / 2 ^ 8))
        (u32 (bit_and w 0x0000FF00 * 2 ^ 8)))
      (u32 (bit_and w 0x000000FF * 2 ^ 24))

unfoldable pub scramble_data : ℕ → SataSim → SataSim × ℕ
scramble_data w s =
    (record s { scrambler_fill = next_fill s.scrambler_fill }, bit_xor w (prn_of s.scrambler_fill))

unfoldable pub calculate_crc : ℕ → SataSim → SataSim
calculate_crc w s = record s { crc = advance_crc s.crc w }

unfoldable pub device_link_sends : ℕ → Bool → SataSim → SataSim
unfolding scramble_data calculate_crc device_phy_sends
device_link_sends w is_last s =
    if not is_last
    then (let (s', scrambled) = scramble_data w s in
        device_phy_sends (swap_endian scrambled) false (calculate_crc w s'))
    else (let (s', scrambled) = scramble_data s.crc s in
        device_phy_sends (swap_endian scrambled) false s')

abbrev pub fis_type_reg_h2d : ℕ
fis_type_reg_h2d = 0x27

abbrev pub fis_type_data : ℕ
fis_type_data = 0x46

abbrev pub fis_type_dma_read : ℕ
fis_type_dma_read = 0xC8

abbrev pub fis_type_dma_write : ℕ
fis_type_dma_write = 0xCA

abbrev pub fis_type_pio_read_buffer : ℕ
fis_type_pio_read_buffer = 0xE4

abbrev pub fis_type_pio_write_buffer : ℕ
fis_type_pio_write_buffer = 0xE8

-- The command flags that the first word of a frame sets.
unfoldable pub set_command_flags : ℕ → ℕ → SataSim → SataSim
set_command_flags fis_type cmd_type s =
    if fis_type == fis_type_dma_write && cmd_type == fis_type_reg_h2d
    then record s { dma_act = true }
    else (if fis_type == fis_type_dma_read && cmd_type == fis_type_reg_h2d
        then record s { dma_read = true }
        else (if fis_type == fis_type_pio_write_buffer && cmd_type == fis_type_reg_h2d
            then record s { pio_setup = true }
            else (if fis_type == fis_type_pio_read_buffer && cmd_type == fis_type_reg_h2d
                then record s { pio_setup = true; pio_read = true }
                else (if cmd_type == fis_type_data then record s { data_response = true } else s))))

-- `m_received_data[m_data_count-1] = word; m_data_count++`. `none` is a write past the array.
unfoldable pub store_word : ℕ → SataSim → Option SataSim
store_word word s =
    if ltb (s.data_count - 1) (length s.received_data)
    then some (record s {
      received_data = set s.received_data (s.data_count - 1) word;
      data_count = s.data_count + 1;
    })
    else none

-- The first word of a frame.
unfoldable pub receive_first : SataSim → SataSim
unfolding reset_data_buffer scramble_data calculate_crc
receive_first s0 =
    let (s, raw_data) = scramble_data (swap_endian s0.txphy_data) (reset_data_buffer s0) in
    let fis_type = bit_and (raw_data / 2 ^ 16) 0xFF in
    let cmd_type = bit_and raw_data 0xFF in
    let counted = record s {
      lba = bit_and (raw_data / 2 ^ 8) 0xFF;
      data_count = s.data_count + 1;
    } in
    set_command_flags fis_type cmd_type (calculate_crc raw_data counted)

-- A later word.
unfoldable pub receive_next : SataSim → Option SataSim
unfolding scramble_data calculate_crc store_word
receive_next s0 =
    let (s, raw_data) = scramble_data (swap_endian s0.txphy_data) s0 in
    let matched = raw_data == s.crc in
    let checked = calculate_crc raw_data (record s { crc_matched = matched }) in
    if not matched && s.data_response
    then store_word (swap_endian raw_data) checked
    else some checked

unfoldable pub device_link_receives : SataSim → Option SataSim
unfolding receive_first receive_next
device_link_receives s =
    if not s.txphy_primitive
    then (if s.data_count == 0 then some (receive_first s) else receive_next s)
    else some s
