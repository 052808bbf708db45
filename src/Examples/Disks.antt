-- ===== src/Examples/Disks.antt =====
-- A sector on a short disk image, and a device that has received it.
use wbsata.Common.{
  ◌^◌, ℕ, ◌+◌, ◌*◌, ◌<◌, ◌≤◌, ◌≡◌, ◌⊎◌, arith, some, none, List, length, replicate, take, get_elem?,
  zero, suc, ◌^◌,
}
use wbsata.Disk.{sector_size, write_to_disk, read_from_disk}
use wbsata.Disk.Sectors.{read_from_disk-write_to_disk}
use wbsata.Device.State.{new, set_sent_data}
use wbsata.Device.Frame.{AreWords}
use wbsata.Device.Link.Reach.{begin}
use wbsata.Device.Link.Total.{HasRoom}
use wbsata.Bench.Transfer.{save_sectors, load_sectors}
use wbsata.Bench.Transfer.Sectors.{load_sectors-save_sectors}

abbrev image : List ℕ
image = replicate 600 1

abbrev sector_data : List ℕ
sector_data = replicate 128 0x01020304

replicate-AreWords : (n w : ℕ) → w < 2 ^ 32 → AreWords (replicate n w)
replicate-AreWords zero w h = tt
replicate-AreWords (suc n) w h = (h, replicate-AreWords n w h)

read_from_disk-write_to_disk_example :
    (file : List ℕ) × (write_to_disk 1 sector_data 1 (some image) ≡ some (some file))
    × (read_from_disk 1 1 (some file) ≡ some (some (take (1 * 128) sector_data)))
    × ((q : ℕ)
        → q < length image
        → (q < 1 * sector_size) ⊎ ((1 + 1) * sector_size ≤ q)
        → get_elem? file q ≡ get_elem? image q)
read_from_disk-write_to_disk_example =
    read_from_disk-write_to_disk 1 1 sector_data image
      (replicate-AreWords 128 0x01020304 (omega arith)) (omega arith) (omega arith) (omega arith)

load_sectors-save_sectors_example :
    (2 ≤ 4
      → (disk : List ℕ) × (save_sectors 7 2 new (some image) ≡ some (some disk))
        × (load_sectors 7 2 (some disk) new
            ≡ some (set_sent_data (take (2 * 128) new.received_data) new))
        × (1 ≤ 2
            → new.data_count ≤ 512
            → HasRoom (set_sent_data (take (2 * 128) new.received_data) new)))
    × (4 < 2 → save_sectors 7 2 new (some image) ≡ none)
load_sectors-save_sectors_example =
    load_sectors-save_sectors 7 2 new new image begin (omega arith) (omega arith)
