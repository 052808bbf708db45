-- ===== src/Bench/Transfer/Sectors.antt =====
-- The sectors that the bench keeps of one command, and gives to the device for another.
use wbsata.Common.{ℕ, ◌*◌, ◌^◌, ◌<◌, ◌≤◌, ◌≡◌, refl, none, some, List, take, length-take, arith}
use wbsata.Disk.{sector_size, write_to_disk}
use wbsata.Disk.Sectors.{read_from_disk-write_to_disk}
use wbsata.Device.State.{SataSim, set_sent_data}
use wbsata.Device.Link.Widths.{Reach-HasWidths}
use wbsata.Device.Link.Reach.{Reach, Reach-IsSound}
use wbsata.Device.Link.Total.{HasRoom}
use wbsata.Bench.Transfer.{save_sectors, load_sectors}

-- For a count below 2 ^ 25, and a first sector whose place in the image fits 64 bits: what a reachable
-- device has received, at most 4 sectors of it, is saved to an open disk image and is what any device
-- then has to send when the same sectors are loaded; with a sector or more, one that is not in the
-- middle of a frame from the controller has room for its next call. A count of more than 4 sectors
-- reads past the device's buffer.
pub load_sectors-save_sectors :
    (lba count : ℕ) (from to : SataSim) (file : List ℕ)
    → Reach from
    → lba * sector_size < 2 ^ 64
    → count * 128 < 2 ^ 32
    → (count ≤ 4
        → (disk : List ℕ) × (save_sectors lba count from (some file) ≡ some (some disk))
          × (load_sectors lba count (some disk) to
              ≡ some (set_sent_data (take (count * 128) from.received_data) to))
          × (1 ≤ count
              → to.data_count ≤ 512
              → HasRoom (set_sent_data (take (count * 128) from.received_data) to)))
      × (4 < count → save_sectors lba count from (some file) ≡ none)
unfolding save_sectors load_sectors
load_sectors-save_sectors lba count from to file reach low few =
    let buffer = (Reach-IsSound reach).buffer in
    let words = (Reach-HasWidths reach).words in
    (
      λ small.
          let (disk, saved, back, _) =
            read_from_disk-write_to_disk lba count from.received_data file words (omega arith) few
              low in
          let size = length-take (count * 128) from.received_data (omega arith) in
          (
            disk,
            saved,
            simp back,
            λ one counted.
                unfold set_sent_data in
                record {
                  sector = λ state reads.
                      (take (count * 128) from.received_data, refl, omega (arith, size));
                  space = λ state. counted;
                },
          ),
      λ many. unfold write_to_disk in ground arith,
    )
