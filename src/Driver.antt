-- ===== src/Driver.antt =====
-- The software driver: sw/satadrv.c over the registers of sw/satadrv.h, on a machine whose pointers
-- have 32 bits. The device behind the registers is a parameter, and so are the numbers that the code
-- takes from headers outside the repository: SDIO_BUSY, and the commands of `sdio_ioctl`. The status
-- register that the code calls `sd_cmd` is read as `s_cmd`; `sata_read`, which names two variables that
-- it does not declare, is read with the declarations of `sata_write`.
pub mod Commands
use wbsata.Common.{
  ℕ, zero, suc, ◌/◌, ◌^◌, bit_and, bit_or, Bool, true, false, Option, none, some, ◌>>=◌,
}
use wbsata.Common.{◌==◌, if◌then◌else◌}

-- The places of the members of `SATA`, in words.
abbrev pub s_cmd : ℕ
s_cmd = 0

abbrev pub s_lbalo : ℕ
s_lbalo = 1

abbrev pub s_lbahi : ℕ
s_lbahi = 2

abbrev pub s_count : ℕ
s_count = 3

abbrev pub s_dma : ℕ
s_dma = 6

abbrev pub sata_dma_write : ℕ
sata_dma_write = 0x00ca4027

abbrev pub sata_dma_read : ℕ
sata_dma_read = 0x00c84027

-- Those of the results of diskio.h that the driver returns.
pub data Dresult : Type 0 where
  res_ok res_error res_parerr : Dresult

-- A device behind volatile registers: a load may change it.
pub record Port : Type 1 where
  pub State : Type 0
  pub store : ℕ → ℕ → State → State
  pub load : ℕ → State → State × ℕ

pub record Settings : Type 0 where
  pub sdio_busy : ℕ
  pub ctrl_sync : ℕ
  pub get_sector_count : ℕ
  pub get_sector_size : ℕ

-- `SATADRV`, and the device it points to.
pub record SataDrv (D : Port) : Type 0 where
  pub dev : D.State
  pub sector_count : ℕ
  pub block_size : ℕ

module _ (D : Port) (H : Settings) where
  -- `none` is fuel that has run out.
  unfoldable pub sata_wait_while_busy : ℕ → D.State → Option D.State
  sata_wait_while_busy zero s = none
  sata_wait_while_busy (suc fuel) s =
      let (s', st) = D.load s_cmd s in
      let rest = sata_wait_while_busy fuel s' in
      if bit_and st H.sdio_busy == 0 then some s' else rest

  -- `allocated` is whether `malloc` gives memory; `none` is the null pointer.
  unfoldable pub sata_init : Bool → D.State → Option (SataDrv D)
  sata_init allocated dev =
      if allocated then some (record { dev = dev; sector_count = 0; block_size = 0 }) else none

  -- The stores that start a command; `code` is its word without the sector.
  unfoldable pub start : ℕ → ℕ → ℕ → ℕ → D.State → D.State
  start code sector count buf s =
      let s1 = D.store s_count count s in
      let s2 = D.store s_dma buf s1 in
      let s3 = D.store s_lbalo (bit_and sector 0x0ffffff) s2 in
      let s4 = D.store s_lbahi 0 s3 in
      D.store s_cmd (bit_or code (bit_and (sector / 2 ^ 16) 0x0f00)) s4

  -- The status is read in the end, and `err` stays 0.
  unfoldable pub transfer : ℕ → ℕ → ℕ → ℕ → ℕ → SataDrv D → Option (SataDrv D × Dresult)
  unfolding sata_wait_while_busy start
  transfer fuel code sector count buf s = if count == 0 then some (s, res_ok) else (do
    dev ← sata_wait_while_busy fuel (start code sector count buf s.dev)
    let (dev', dev_stat) = D.load s_cmd dev
    let err : ℕ = 0
    some (record s { dev = dev' }, if err == 0 then res_ok else res_error))

  unfoldable pub sata_write : ℕ → ℕ → ℕ → ℕ → SataDrv D → Option (SataDrv D × Dresult)
  unfolding transfer
  sata_write fuel = transfer fuel sata_dma_write

  unfoldable pub sata_read : ℕ → ℕ → ℕ → ℕ → SataDrv D → Option (SataDrv D × Dresult)
  unfolding transfer
  sata_read fuel = transfer fuel sata_dma_read

  -- The value that is written to the caller's buffer, where one is.
  unfoldable pub sdio_ioctl : ℕ → ℕ → SataDrv D → Option (SataDrv D × Option ℕ × Dresult)
  unfolding sata_wait_while_busy
  sdio_ioctl fuel cmd s =
      if cmd == H.ctrl_sync
      then (do dev ← sata_wait_while_busy fuel s.dev; some (record s { dev = dev }, none, res_ok))
      else (if cmd == H.get_sector_count
          then some (s, some s.sector_count, res_ok)
          else (if cmd == H.get_sector_size
              then some (s, some 512, res_ok)
              else some (s, none, res_parerr)))
