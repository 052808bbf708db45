-- ===== src/Driver/Commands.antt =====
-- The driver gives the same commands as the bench.
use wbsata.Common.{
  ==_iff, all_below, all_below_at, ℕ, zero, suc, ◌+◌, ◌*◌, ◌/◌, ◌%◌, ◌^◌, ◌<◌, ◌≡◌, ◌≢◌, refl, ap,
  ◌∙◌, arith, bit_and, bit_or, some, true,
}
use wbsata.Common.{◌==◌, if◌then◌else◌}
use wbsata.Common.Xor.{and_ones}
use wbsata.Common.Fields.{and_shifted}
use wbsata.Device.Words.{fis_type_dma_write, fis_type_dma_read}
use wbsata.Bus.{Bus, WbTb}
use wbsata.Common.{sym}
use wbsata.Bus.Registers.{IsRegisterFile}
use wbsata.Bench.Commands.{command_word, issued, issue, issue-registers}
use wbsata.Driver.{
  s_cmd, res_ok, Port, Settings, SataDrv, sata_wait_while_busy, start, transfer, sata_write,
  sata_read, sata_dma_write, sata_dma_read,
}

-- The command word, where the constant holds the command's fields without the sector's.
abbrev IsCode : ℕ → ℕ → Type 0
IsCode code operation =
    all_below 16 (λ n. bit_or code (n * 2 ^ 8) == operation * 2 ^ 16 + (64 + n) * 2 ^ 8 + 39) ≡ true

with_sector :
    (code operation sector : ℕ)
    → IsCode code operation
    → bit_or code (bit_and (sector / 2 ^ 16) 0x0f00) ≡ command_word operation sector
with_sector code operation sector is_code =
    let nibble = sector / 2 ^ 24 % 16 in
    let masked : bit_and (sector / 2 ^ 16) 0x0f00 ≡ nibble * 2 ^ 8 =
      and_shifted 8 (sector / 2 ^ 16) 15
      ∙ ap (λ t. t * 2 ^ 8) (and_ones 4 (sector / 2 ^ 16 / 2 ^ 8))
      ∙ omega arith in
    let word = all_below_at 16 nibble _ is_code (omega arith) in
    ap (bit_or code) masked ∙ (==_iff _ _).0 word

module _ (D : Port) (H : Settings) where
  -- `written s x` is what was stored last at place `x`; a load changes nothing there.
  pub record IsPort (written : D.State → ℕ → ℕ) : Type 0 where
    pub stores :
        (a v : ℕ) (s : D.State) (x : ℕ)
        → written (D.store a v s) x ≡ (if x == a then v else written s x)
    pub loads : (a : ℕ) (s : D.State) (x : ℕ) → written (D.load a s).0 x ≡ written s x

  -- The device is busy for `k` loads of its status, and not at the next.
  abbrev pub IsBusyFor : ℕ → D.State → Type 0
  IsBusyFor zero s = bit_and (D.load s_cmd s).1 H.sdio_busy ≡ 0
  IsBusyFor (suc k) s =
      (bit_and (D.load s_cmd s).1 H.sdio_busy ≢ 0) × IsBusyFor k (D.load s_cmd s).0

  waited :
      (written : D.State → ℕ → ℕ) (port : IsPort written) (fuel k : ℕ) (s : D.State)
      → IsBusyFor k s
      → k < fuel
      → (t : D.State) × (sata_wait_while_busy D H fuel s ≡ some t)
        × ((x : ℕ) → written t x ≡ written s x)
  unfolding sata_wait_while_busy
  waited written port zero k s busy lt = absurd (omega arith)
  waited written port (suc fuel) zero s busy lt =
      ((D.load s_cmd s).0, ground (arith, busy), port.loads s_cmd s)
  waited written port (suc fuel) (suc k) s (busy, later) lt =
      let (t, run, same) = waited written port fuel k (D.load s_cmd s).0 later (omega arith) in
      (t, ground (arith, busy, run), λ x. same x ∙ port.loads s_cmd s x)

  transfer-issued :
      (written : D.State → ℕ → ℕ) (fuel code operation sector count dma_addr k : ℕ) (s : SataDrv D)
      → IsPort written
      → IsCode code operation
      → count ≢ 0
      → count < 256
      → dma_addr * 4 < 2 ^ 32
      → IsBusyFor k (start D H code sector count (dma_addr * 4) s.dev)
      → k < fuel
      → (t : SataDrv D) × (transfer D H fuel code sector count (dma_addr * 4) s ≡ some (t, res_ok))
        × ((x : ℕ)
            → x ≢ 7
            → written t.dev x ≡ issued operation sector count dma_addr (written s.dev) x)
  unfolding transfer start
  transfer-issued written fuel code operation sector count dma_addr k s port is_code some_sectors
        few low busy lt =
      let (dev, run, kept) =
        waited written port fuel k (start D H code sector count (dma_addr * 4) s.dev) busy lt in
      let s1 = D.store 3 count s.dev in
      let s2 = D.store 6 (dma_addr * 4) s1 in
      let s3 = D.store 1 (bit_and sector 0x0ffffff) s2 in
      let s4 = D.store 2 0 s3 in
      let word = with_sector code operation sector is_code in
      (
        record s { dev = (D.load s_cmd dev).0 },
        ground (arith, run),
        λ x ne.
            port.loads s_cmd dev x
            ∙ kept x
            ∙ rw
                (
                  port.stores 0 _ s4 x,
                  port.stores 2 0 s3 x,
                  port.stores 1 _ s2 x,
                  port.stores 6 _ s1 x,
                  port.stores 3 count s.dev x,
                  word,
                  and_ones 24 sector,
                )
                ground arith,
      )

  -- A DMA write of some sectors, by the driver, to a device that is busy for fewer loads of its status
  -- than the fuel: the driver waits for it and answers that all is well. What it has stored last in
  -- the registers, the upper half of the address apart, is what the bench writes for the same sectors,
  -- where the count fits 8 bits and the address 32.
  pub sata_write-issued :
      (written : D.State → ℕ → ℕ) (fuel sector count dma_addr k : ℕ) (s : SataDrv D)
      → IsPort written
      → count ≢ 0
      → count < 256
      → dma_addr * 4 < 2 ^ 32
      → IsBusyFor k (start D H sata_dma_write sector count (dma_addr * 4) s.dev)
      → k < fuel
      → (t : SataDrv D) × (sata_write D H fuel sector count (dma_addr * 4) s ≡ some (t, res_ok))
        × ((x : ℕ)
            → x ≢ 7
            → written t.dev x ≡ issued fis_type_dma_write sector count dma_addr (written s.dev) x)
  unfolding sata_write
  sata_write-issued written fuel sector count dma_addr k s port =
      transfer-issued written fuel sata_dma_write fis_type_dma_write sector count dma_addr k s port
        (unfold all_below in refl)

  -- The same for a DMA read.
  pub sata_read-issued :
      (written : D.State → ℕ → ℕ) (fuel sector count dma_addr k : ℕ) (s : SataDrv D)
      → IsPort written
      → count ≢ 0
      → count < 256
      → dma_addr * 4 < 2 ^ 32
      → IsBusyFor k (start D H sata_dma_read sector count (dma_addr * 4) s.dev)
      → k < fuel
      → (t : SataDrv D) × (sata_read D H fuel sector count (dma_addr * 4) s ≡ some (t, res_ok))
        × ((x : ℕ)
            → x ≢ 7
            → written t.dev x ≡ issued fis_type_dma_read sector count dma_addr (written s.dev) x)
  unfolding sata_read
  sata_read-issued written fuel sector count dma_addr k s port =
      transfer-issued written fuel sata_dma_read fis_type_dma_read sector count dma_addr k s port
        (unfold all_below in refl)

  -- The driver and the bench start a DMA write alike. The bench writes over a bus to a file of
  -- registers; the driver stores to a device that holds the same words, and that is busy for fewer
  -- loads of its status than the fuel. With a count from 1 to 255 and an address below 2 ^ 30, in
  -- words, both return, the bench without alarm and the driver with RES_OK. Then the last word at each
  -- place is the same, except for the upper half of the address, which the driver leaves alone.
  pub sata_write-issue :
      (B : Bus) (regs : B.Core → ℕ → ℕ) (tb : WbTb B) (written : D.State → ℕ → ℕ)
      (fuel sector count dma_addr k : ℕ) (s : SataDrv D)
      → IsRegisterFile B regs
      → IsPort written
      → ((x : ℕ) → written s.dev x ≡ regs tb.core x)
      → count ≢ 0
      → count < 256
      → dma_addr < 2 ^ 30
      → IsBusyFor k (start D H sata_dma_write sector count (dma_addr * 4) s.dev)
      → k < fuel
      → (t : SataDrv D) × (u : WbTb B) × (sata_write D H fuel sector count (dma_addr * 4) s
          ≡ some (t, res_ok))
        × (issue B fis_type_dma_write sector count dma_addr tb ≡ some u)
        × (u.bomb ≡ tb.bomb)
        × ((x : ℕ) → x ≢ 7 → written t.dev x ≡ regs u.core x)
  sata_write-issue B regs tb written fuel sector count dma_addr k s file port same some_sectors few
        low busy lt =
      let (t, run, left) =
        sata_write-issued written fuel sector count dma_addr k s port some_sectors few (omega arith)
          busy lt in
      let (u, issues, quiet, right) =
        issue-registers B regs fis_type_dma_write sector count dma_addr tb file (omega arith) in
      (
        t,
        u,
        run,
        issues,
        quiet,
        λ x ne.
            left x ne
            ∙ (λ i. issued fis_type_dma_write sector count dma_addr (λ y. same y i) x)
            ∙ sym (right x),
      )
