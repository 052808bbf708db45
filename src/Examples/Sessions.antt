-- ===== src/Examples/Sessions.antt =====
-- A resting device, told to write a sector and to read it back.
use wbsata.Common.{
  ◌^◌, ◌<◌, ℕ, ◌≡◌, ◌∷◌, [], refl, arith, true, false, Bool, Bool-cases, inl, inr, some, none, List,
  replicate, map, zero, suc, ◌==◌, if◌then◌else◌, ==_iff, sym, ◌∙◌,
}
use wbsata.Device.State.{SataSim, new, idle}
use wbsata.Device.Crc.{advance_crc, crc_initial}
use wbsata.Device.Words.{swap_endian}
use wbsata.Device.Link.{dma_act_fis_response, d2h_reg_fis_response}
use wbsata.Device.Frame.{AreWords, spoken}
use wbsata.Device.Frame.Store.{NoClash}
use wbsata.Device.Session.{Pace}
use wbsata.Device.Session.Exchange.{
  IsResting, IsCommand, IsPayload, write_exchange, read_exchange, read_frames, filled,
  write_exchange_rests, read_exchange_rests,
}
use wbsata.Bench.Transfer.{save_sectors, load_sectors}
use wbsata.Bench.Transfer.Returned.{written_sector_returns}

abbrev pace : Pace
pace = record { asking = 3; settling = 2; silent = 1; judging = 0 }

abbrev resting : SataSim
unfolding new
resting = record new { oob_done = true; link_state = idle }

abbrev empty_buffer : List ℕ
empty_buffer = replicate 512 0

resting-IsResting : IsResting none empty_buffer resting
unfolding resting new
resting-IsResting = record {
  in_state = refl;
  holds = record {
    up = refl;
    dma_act = refl;
    dma_read = refl;
    pio_setup = refl;
    pio_read = refl;
    data_response = refl;
    sent_is = refl;
    received = refl;
  };
}

abbrev sector : List ℕ
sector = replicate 128 0x01020304

sector-AreWords : (n w : ℕ) → w < 2 ^ 32 → AreWords (replicate n w)
sector-AreWords zero w h = tt
sector-AreWords (suc n) w h = (h, sector-AreWords n w h)

is_clear : ℕ → List ℕ → Bool
is_clear c [] = true
is_clear c (w ∷ ws) = let rest = is_clear (advance_crc c w) ws in if w == c then false else rest

is_clear-NoClash : (c : ℕ) (ws : List ℕ) → is_clear c ws ≡ true → NoClash c ws
unfolding is_clear
is_clear-NoClash c [] e = tt
is_clear-NoClash c (w ∷ ws) e = elim (Bool-cases (w == c)) [
  | inl same ↦ absurd (cc (rw same at e))
  | inr other ↦ (
    λ eq. cc (sym other ∙ (==_iff w c).1 eq),
    is_clear-NoClash (advance_crc c w) ws (rw other at e),
  )
]

sector-IsPayload : IsPayload 0x46 sector
unfolding is_clear advance_crc
sector-IsPayload = record {
  type = refl;
  word = omega arith;
  words = sector-AreWords 128 0x01020304 (omega arith);
  short = omega arith;
  clear = is_clear-NoClash (advance_crc crc_initial 0x46) sector refl;
}

dma_write-IsCommand : IsCommand 0xCA 0x00CA8027
dma_write-IsCommand = record { type = refl; command = refl; word = omega arith }

pio_read-IsCommand : IsCommand 0xE4 0x00E48027
pio_read-IsCommand = record { type = refl; command = refl; word = omega arith }

abbrev rest_of_command : List ℕ
rest_of_command = 7 ∷ 0 ∷ 1 ∷ 0 ∷ []

rest_of_command-AreWords : AreWords rest_of_command
rest_of_command-AreWords = (omega arith, (omega arith, (omega arith, (omega arith, tt))))

write_exchange_rests_example :
    (t : SataSim) × (write_exchange pace 3 (0x00CA8027 ∷ rest_of_command) (0x46 ∷ sector) resting
      ≡ some (t, spoken dma_act_fis_response ∷ spoken d2h_reg_fis_response ∷ []))
    × IsResting none (filled sector empty_buffer) t
write_exchange_rests_example =
    write_exchange_rests none empty_buffer refl pace false 0x00CA8027 rest_of_command 0x46 sector
      resting resting-IsResting dma_write-IsCommand rest_of_command-AreWords (omega arith)
      sector-IsPayload

abbrev loaded : SataSim
unfolding resting new
loaded = record resting { sent_data = some sector }

loaded-IsResting : IsResting (some sector) empty_buffer loaded
unfolding loaded resting new
loaded-IsResting = record {
  in_state = refl;
  holds = record {
    up = refl;
    dma_act = refl;
    dma_read = refl;
    pio_setup = refl;
    pio_read = refl;
    data_response = refl;
    sent_is = refl;
    received = refl;
  };
}

read_exchange_rests_example :
    (t : SataSim) × (read_exchange pace true (0x00E48027 ∷ rest_of_command) loaded
      ≡ some (t, read_frames sector true))
    × IsResting (some sector) empty_buffer t
read_exchange_rests_example =
    read_exchange_rests sector empty_buffer refl (omega arith) pace true 0x00E48027 rest_of_command
      loaded loaded-IsResting pio_read-IsCommand rest_of_command-AreWords (omega arith)

abbrev image : List ℕ
image = replicate 600 1

written_sector_returns_example :
    (t : SataSim) × (disk : List ℕ) × (u : SataSim) × (v : SataSim) × (write_exchange pace 3
        (0x00CA8027 ∷ rest_of_command)
        (0x46 ∷ sector)
        resting
      ≡ some (t, spoken dma_act_fis_response ∷ spoken d2h_reg_fis_response ∷ []))
    × (save_sectors 7 1 t (some image) ≡ some (some disk))
    × (load_sectors 7 1 (some disk) t ≡ some u)
    × (read_exchange pace true (0x00E48027 ∷ rest_of_command) u
        ≡ some (v, read_frames (map swap_endian sector) true))
    × IsResting (some (map swap_endian sector)) (filled sector empty_buffer) v
written_sector_returns_example =
    written_sector_returns none empty_buffer pace pace false true 0x00CA8027 0x00E48027
      rest_of_command rest_of_command 0x46 sector 7 image resting refl
      (sector-AreWords 512 0 (omega arith)) resting-IsResting dma_write-IsCommand
      rest_of_command-AreWords (omega arith) sector-IsPayload refl pio_read-IsCommand
      rest_of_command-AreWords (omega arith) (omega arith)
