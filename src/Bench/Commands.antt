-- ===== src/Bench/Commands.antt =====
-- The commands that the bench gives the controller over its bus: the register writes of `dma_write`,
-- `dma_read`, `pio_write` and `pio_read` of bench/cpp/tb_sata.cpp.
use wbsata.Common.{ℕ, ◌+◌, ◌*◌, ◌/◌, ◌%◌, ◌^◌, ◌<◌, ◌≡◌, refl, ap, ◌∙◌, arith, bit_and, bit_or, u32}
use wbsata.Common.{Option, ◌>>=◌, some, ◌==◌, if◌then◌else◌}
use wbsata.Common.Xor.{and_ones}
use wbsata.Common.Fields.{or_disjoint, zero-or}
use wbsata.Device.Words.{fis_type_reg_h2d}
use wbsata.Bus.{Bus, WbTb, wb_write}
use wbsata.Bus.Registers.{IsRegisterFile, wb_write-registers}

-- The registers' addresses.
abbrev pub sata_cmd_addr : ℕ
sata_cmd_addr = 0

abbrev pub sata_lbalo_addr : ℕ
sata_lbalo_addr = 1

abbrev pub sata_lbahi_addr : ℕ
sata_lbahi_addr = 2

abbrev pub sata_count_addr : ℕ
sata_count_addr = 3

abbrev pub sata_dma_addr_lo : ℕ
sata_dma_addr_lo = 6

abbrev pub sata_dma_addr_hi : ℕ
sata_dma_addr_hi = 7

-- The first word of the command FIS; `operation` is its command byte.
unfoldable pub fis_cmd : ℕ → ℕ → ℕ
fis_cmd operation lba = u32 (
    bit_or
      (bit_or (bit_or (0 * 2 ^ 24) (operation * 2 ^ 16))
        (bit_or 0x40 (bit_and (lba / 2 ^ 24) 0x0F) * 2 ^ 8))
      fis_type_reg_h2d)

-- The fields of the command word, next to each other.
abbrev pub command_word : ℕ → ℕ → ℕ
command_word operation lba = operation * 2 ^ 16 + (64 + lba / 2 ^ 24 % 16) * 2 ^ 8 + 39

pub fis_cmd_lem :
    (operation lba : ℕ) → operation < 256 → fis_cmd operation lba ≡ command_word operation lba
unfolding fis_cmd
fis_cmd_lem operation lba small = rw (device, type, upper, whole) (omega arith)
  where
    nibble : ℕ
    nibble = lba / 2 ^ 24 % 16

    device : bit_or 0x40 (bit_and (lba / 2 ^ 24) 0x0F) ≡ 64 + nibble
    device =
        ap (bit_or 0x40) (and_ones 4 (lba / 2 ^ 24))
        ∙ or_disjoint 6 1 nibble (omega arith)
        ∙ omega arith

    type : bit_or (0 * 2 ^ 24) (operation * 2 ^ 16) ≡ operation * 2 ^ 16
    type = zero-or (operation * 2 ^ 16)

    upper :
        bit_or (operation * 2 ^ 16) ((64 + nibble) * 2 ^ 8)
        ≡ (operation * 2 ^ 8 + 64 + nibble) * 2 ^ 8
    upper = or_disjoint 16 operation ((64 + nibble) * 2 ^ 8) (omega arith) ∙ omega arith

    whole :
        bit_or ((operation * 2 ^ 8 + 64 + nibble) * 2 ^ 8) 39
        ≡ (operation * 2 ^ 8 + 64 + nibble) * 2 ^ 8 + 39
    whole = or_disjoint 8 (operation * 2 ^ 8 + 64 + nibble) 39 (omega arith)

-- The register at each address after a command.
abbrev pub issued : ℕ → ℕ → ℕ → ℕ → (ℕ → ℕ) → ℕ → ℕ
issued operation lba count dma_addr before x =
    if x == 0
    then command_word operation lba
    else (if x == 7
        then 0
        else (if x == 6
            then dma_addr * 4 % 2 ^ 32
            else (if x == 3
                then count % 2 ^ 8
                else (if x == 1 then lba % 2 ^ 24 else (if x == 2 then 0 else before x)))))

module _ (B : Bus) where
  -- The writes that the four operations share, each with its own command.
  unfoldable pub issue : ℕ → ℕ → ℕ → ℕ → WbTb B → Option (WbTb B)
  unfolding fis_cmd
  issue operation lba count dma_addr s0 = do
    s1 ← wb_write B sata_lbahi_addr 0 s0
    s2 ← wb_write B sata_lbalo_addr (bit_and lba 0xFFFFFF) s1
    s3 ← wb_write B sata_count_addr (bit_and count 0xFF) s2
    s4 ← wb_write B sata_dma_addr_lo (u32 (dma_addr * 4)) s3
    s5 ← wb_write B sata_dma_addr_hi 0 s4
    wb_write B sata_cmd_addr (fis_cmd operation lba) s5

  -- On a file of registers, the writes of a command return without alarm. The registers then hold the
  -- low 24 bits of the sector's number, with the 4 above them in the command word beside the command
  -- and the type of the FIS, the low 8 bits of the count, and the byte address of the data; no other
  -- register has changed.
  pub issue-registers :
      (regs : B.Core → ℕ → ℕ) (operation lba count dma_addr : ℕ) (s : WbTb B)
      → IsRegisterFile B regs
      → operation < 256
      → (t : WbTb B) × (issue operation lba count dma_addr s ≡ some t)
        × (t.bomb ≡ s.bomb)
        × ((x : ℕ) → regs t.core x ≡ issued operation lba count dma_addr (regs s.core) x)
  unfolding issue
  issue-registers regs operation lba count dma_addr s file small =
      let (s1, e1, b1, r1) = wb_write-registers B regs file 2 0 s in
      let (s2, e2, b2, r2) = wb_write-registers B regs file 1 (bit_and lba 0xFFFFFF) s1 in
      let (s3, e3, b3, r3) = wb_write-registers B regs file 3 (bit_and count 0xFF) s2 in
      let (s4, e4, b4, r4) = wb_write-registers B regs file 6 (u32 (dma_addr * 4)) s3 in
      let (s5, e5, b5, r5) = wb_write-registers B regs file 7 0 s4 in
      let (s6, e6, b6, r6) = wb_write-registers B regs file 0 (fis_cmd operation lba) s5 in
      (
        s6,
        simp (e1, e2, e3, e4, e5) e6,
        b6 ∙ b5 ∙ b4 ∙ b3 ∙ b2 ∙ b1,
        λ x.
            rw
              (
                r6 x,
                r5 x,
                r4 x,
                r3 x,
                r2 x,
                r1 x,
                fis_cmd_lem operation lba small,
                and_ones 24 lba,
                and_ones 8 count,
              )
              refl,
      )
