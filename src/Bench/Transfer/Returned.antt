-- ===== src/Bench/Transfer/Returned.antt =====
-- A sector on its way from the controller to the disk image and back.
use wbsata.Common.{
  ℕ, ◌+◌, ◌*◌, ◌^◌, ◌<◌, ◌≤◌, Bool, some, List, [], ◌∷◌, ◌++◌, map, length, take, drop, ◌≡◌, refl,
  ap, ◌∙◌, arith, length-append, zero, suc,
}
use wbsata.Disk.{sector_size}
use wbsata.Disk.Sectors.{read_from_disk-write_to_disk}
use wbsata.Device.State.{SataSim, set_sent_data}
use wbsata.Device.Words.{swap_endian}
use wbsata.Device.Words.Swap.{swap_endian-lt}
use wbsata.Device.Link.{d2h_reg_fis_response}
use wbsata.Device.Frame.{AreWords, spoken}
use wbsata.Device.Frame.Deliver.{length-map}
use wbsata.Device.Session.{Pace}
use wbsata.Device.Session.Exchange.{
  IsResting, IsCommand, IsPayload, write_command, read_command, go_ahead, filled, write_exchange,
  read_exchange, read_frames, write_exchange_rests, read_exchange_rests,
}
use wbsata.Bench.Transfer.{Option, save_sectors, load_sectors}

swapped-AreWords : (ws : List ℕ) → AreWords (map swap_endian ws)
swapped-AreWords [] = tt
swapped-AreWords (w ∷ ws) = (swap_endian-lt w, swapped-AreWords ws)

drop-AreWords : (n : ℕ) (ws : List ℕ) → AreWords ws → AreWords (drop n ws)
drop-AreWords zero ws h = h
drop-AreWords (suc n) [] h = tt
drop-AreWords (suc n) (w ∷ ws) h = drop-AreWords n ws h.1

append-AreWords : (xs ys : List ℕ) → AreWords xs → AreWords ys → AreWords (xs ++ ys)
append-AreWords [] ys hx hy = hy
append-AreWords (x ∷ xs) ys hx hy = (hx.0, append-AreWords xs ys hx.1 hy)

take-all : (xs ys : List ℕ) → take (length xs) (xs ++ ys) ≡ xs
take-all [] ys = refl
take-all (x ∷ xs) ys = ap (λ l. x ∷ l) (take-all xs ys)

length-drop : (n : ℕ) (xs : List ℕ) → n ≤ length xs → length (drop n xs) + n ≡ length xs
length-drop zero xs le = omega arith
length-drop (suc n) [] le = absurd (omega arith)
length-drop (suc n) (x ∷ xs) le = let rest = length-drop n xs (omega arith) in omega arith

length-filled :
    (payload buffer : List ℕ)
    → length payload ≤ length buffer
    → length (filled payload buffer) ≡ length buffer
length-filled payload buffer le =
    let swapped = length-map payload in
    let rest = length-drop (length (map swap_endian payload)) buffer (omega arith) in
    let both =
      length-append (map swap_endian payload) (drop (length (map swap_endian payload)) buffer) in
    omega arith

loads-IsResting :
    (sent : Option (List ℕ)) (words buffer : List ℕ) (s : SataSim)
    → IsResting sent buffer s
    → IsResting (some words) buffer (set_sent_data words s)
unfolding set_sent_data
loads-IsResting sent words buffer s h = ground (arith, h)

-- A sector of 128 words, none of which equals the CRC of the words before it, that the controller
-- writes to a resting device with a buffer of 512 words, by DMA or by PIO, is what the device gives
-- back when the sector is saved to an open disk image, loaded again and read, by DMA or by PIO; and
-- the device rests. Each word comes back with its bytes in the other order. The command frames have
-- at most 512 words, and the place of the sector in the image fits 64 bits.
pub written_sector_returns :
    (sent : Option (List ℕ)) (buffer : List ℕ) (pace pace' : Pace) (pio pio' : Bool) (w w' : ℕ)
    (ws ws' : List ℕ) (header : ℕ) (payload : List ℕ) (lba : ℕ) (file : List ℕ) (s : SataSim)
    → length buffer ≡ 512
    → AreWords buffer
    → IsResting sent buffer s
    → IsCommand (write_command pio) w
    → AreWords ws
    → length ws < 512
    → IsPayload header payload
    → length payload ≡ 128
    → IsCommand (read_command pio') w'
    → AreWords ws'
    → length ws' < 512
    → lba * sector_size < 2 ^ 64
    → (t : SataSim) × (disk : List ℕ) × (u : SataSim) × (v : SataSim) × (write_exchange pace
          (length (go_ahead pio) + 2)
          (w ∷ ws)
          (header ∷ payload)
          s
        ≡ some (t, spoken (go_ahead pio) ∷ spoken d2h_reg_fis_response ∷ []))
      × (save_sectors lba 1 t (some file) ≡ some (some disk))
      × (load_sectors lba 1 (some disk) t ≡ some u)
      × (read_exchange pace' pio' (w' ∷ ws') u
          ≡ some (v, read_frames (map swap_endian payload) pio'))
      × IsResting (some (map swap_endian payload)) (filled payload buffer) v
unfolding save_sectors load_sectors
written_sector_returns sent buffer pace pace' pio pio' w w' ws ws' header payload lba file s room
      fits rests cmd hw short p size cmd' hw' short' low =
    let full = filled payload buffer in
    let sector = map swap_endian payload in
    let swapped = length-map payload in
    let (t, wrote, ht) =
      write_exchange_rests sent buffer room pace pio w ws header payload s rests cmd hw short p in
    let words =
      append-AreWords sector (drop (length sector) buffer) (swapped-AreWords payload)
        (drop-AreWords (length sector) buffer fits) in
    let whole : length full ≡ 512 = length-filled payload buffer (omega arith) ∙ room in
    let (disk, saved, back, _) =
      read_from_disk-write_to_disk lba 1 full file words (omega arith) (omega arith) low in
    let first : take (1 * 128) full ≡ sector =
      let count : 1 * 128 ≡ length sector = omega arith in
      ap (λ n. take n full) count ∙ take-all sector (drop (length sector) buffer) in
    let u = set_sent_data sector t in
    let (v, read, hv) =
      read_exchange_rests sector full whole (omega arith) pace' pio' w' ws' u
        (loads-IsResting sent sector full t ht) cmd' hw' short' in
    (t, disk, u, v, wrote, simp (ht.holds.received, saved), simp (back, first), read, hv)
