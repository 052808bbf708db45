-- ===== src/Bench/Heard.antt =====
-- What the device makes of the command word that the bench has given the controller.
use wbsata.Common.{
  refl, ap, true, ◌∙◌, bit_and, false, ℕ, ◌+◌, ◌/◌, ◌%◌, ◌^◌, ◌<◌, ◌≡◌, ◌||◌, some, ◌==◌, arith,
}
use wbsata.Common.Xor.{and_ones}
use wbsata.Device.State.{SataSim, reset_data_buffer}
use wbsata.Device.Words.{
  calculate_crc, set_command_flags, fis_type_dma_write, fis_type_dma_read,
  fis_type_pio_write_buffer, fis_type_pio_read_buffer,
}
use wbsata.Device.Phy.{process_tx_signals, device_phy_sends}
use wbsata.Device.Scrambler.{next_fill, scrambler_initial}
use wbsata.Device.Primitive
use wbsata.Device.Frame.{clock, signals}
use wbsata.Device.Frame.Verdict.{IsWaiting, first, first_line, clock-first}
use wbsata.Bench.Commands.{fis_cmd, fis_cmd_lem}

-- The flags after a command.
record IsTold (operation : ℕ) (s t : SataSim) : Type 0 where
  dma_act : t.dma_act ≡ (operation == fis_type_dma_write || s.dma_act)
  dma_read : t.dma_read ≡ (operation == fis_type_dma_read || s.dma_read)
  pio_setup : t.pio_setup ≡ (
      operation == fis_type_pio_write_buffer
      || operation == fis_type_pio_read_buffer
      || s.pio_setup)
  pio_read : t.pio_read ≡ (operation == fis_type_pio_read_buffer || s.pio_read)
  data_response : t.data_response ≡ s.data_response
  lba : t.lba ≡ s.lba
  data_count : t.data_count ≡ s.data_count

set_command_flags-IsTold :
    (operation : ℕ) (s : SataSim) → IsTold operation s (set_command_flags operation 39 s)
unfolding set_command_flags
set_command_flags-IsTold operation s = ground arith

-- The device as `first` has it before the flags.
begun : ℕ → SataSim → SataSim
unfolding process_tx_signals device_phy_sends reset_data_buffer calculate_crc
begun w s0 =
    let captured = (process_tx_signals (signals false (first_line w)) s0).0 in
    let s = reset_data_buffer (device_phy_sends Primitive.r_ip_p true captured) in
    calculate_crc w (record s {
      scrambler_fill = next_fill scrambler_initial;
      lba = bit_and (w / 2 ^ 8) 0xFF;
      data_count = 1;
    })

-- A waiting device that hears the command word of `operation`, scrambled as the first word of a
-- frame, sets the flags of that operation and no others: an activation for a DMA write, data to send
-- for a DMA read, a set-up for either PIO operation, and with it data to send for a PIO read. Of the
-- sector's number it keeps the four bits that the word holds, with the LBA bit above them.
pub fis_cmd-heard :
    (operation lba : ℕ) (s : SataSim)
    → IsWaiting s
    → operation < 256
    → (t : SataSim) × (clock false (first_line (fis_cmd operation lba)) s ≡ some t)
      × (t.dma_act ≡ (operation == fis_type_dma_write || s.dma_act))
      × (t.dma_read ≡ (operation == fis_type_dma_read || s.dma_read))
      × (t.pio_setup ≡ (
          operation == fis_type_pio_write_buffer
          || operation == fis_type_pio_read_buffer
          || s.pio_setup))
      × (t.pio_read ≡ (operation == fis_type_pio_read_buffer || s.pio_read))
      × (t.data_response ≡ s.data_response)
      × (t.lba ≡ 64 + lba / 2 ^ 24 % 16)
      × (t.data_count ≡ 1)
unfolding first begun
fis_cmd-heard operation lba s waiting small =
    let fields = fis_cmd_lem operation lba small in
    let run = clock-first (fis_cmd operation lba) s waiting (omega (arith, fields)) in
    let type = and_ones 8 (fis_cmd operation lba) in
    let command = and_ones 8 (fis_cmd operation lba / 2 ^ 16) in
    let device = and_ones 8 (fis_cmd operation lba / 2 ^ 8) in
    let is_type : bit_and (fis_cmd operation lba) 0xFF ≡ 39 = omega arith in
    let is_command : bit_and (fis_cmd operation lba / 2 ^ 16) 0xFF ≡ operation = omega arith in
    let is_device : bit_and (fis_cmd operation lba / 2 ^ 8) 0xFF ≡ 64 + lba / 2 ^ 24 % 16 =
      omega arith in
    let word = fis_cmd operation lba in
    let t = set_command_flags operation 39 (begun word s) in
    let told = set_command_flags-IsTold operation (begun word s) in
    let same : first (first_line word) word s ≡ t = rw (is_command, is_type) refl in
    (
      t,
      run ∙ ap some same,
      told.dma_act,
      told.dma_read,
      told.pio_setup,
      told.pio_read,
      told.data_response,
      told.lba ∙ is_device,
      told.data_count,
    )
