-- ===== src/Bench/Transfer.antt =====
-- The operations of `SATA_TB`, bench/cpp/tb_sata.cpp, from the resets to `main`. `none` is an
-- assertion that fails, an access outside an array, or a value that nothing has set.
pub mod Sectors
pub mod Returned
pub mod Started
pub mod Verify
use wbsata.Common.{
  ℕ, zero, suc, ◌+◌, ◌*◌, ◌/◌, u32, bit_and, Bool, true, false, not, ◌&&◌, ◌||◌, Option, none, some,
  ◌>>=◌,
}
use wbsata.Common.{List, [], ◌∷◌, ltb, leb, ◌==◌, if◌then◌else◌}
use wbsata.Disk.{sector_size, write_to_disk, read_from_disk}
use wbsata.Device.State.{SataSim, new, reset, set_sent_data}
use wbsata.Device.Words.{
  fis_type_dma_write, fis_type_dma_read, fis_type_pio_write_buffer, fis_type_pio_read_buffer,
}
use wbsata.Memory.{MemSim, get}
use wbsata.Memory.Load.{load_bytes, as_bytes}
use wbsata.Bus.{Master, Bus, WbTb}
use wbsata.Clock
use wbsata.Clock.Tick.{Clocks, started}
use wbsata.Memory
use wbsata.Bench.{Verilated, Bench, Inputs, Outputs, tick, set_reset, bench_bus}
use wbsata.Bench.Commands.{issue}

-- The word of the pattern at `i`, and the words from there on.
unfoldable pub pattern : ℕ → ℕ → ℕ → List ℕ
pattern base i zero = []
pattern base i (suc n) = u32 (base + i) ∷ pattern base (i + 1) n

-- The loop of `verify_data`.
unfoldable pub same_words : ℕ → ℕ → ℕ → ℕ → MemSim → Bool
same_words w_addr r_addr i zero mem = true
same_words w_addr r_addr i (suc n) mem =
    let rest = same_words w_addr r_addr (i + 1) n mem in
    if get (u32 (r_addr + i)) mem == get (u32 (w_addr + i)) mem then rest else false

unfoldable pub verify_data : ℕ → ℕ → MemSim → Bool
unfolding same_words
verify_data w_addr r_addr mem = same_words w_addr r_addr 0 (sector_size / 4) mem

-- What `dma_write` and `pio_write` do when their command is over.
unfoldable pub save_sectors : ℕ → ℕ → SataSim → Option (List ℕ) → Option (Option (List ℕ))
save_sectors lba count sata disk = write_to_disk lba sata.received_data count disk

-- What `dma_read` and `pio_read` do after their command. An image that does not open leaves the words
-- of a new array unset.
unfoldable pub load_sectors : ℕ → ℕ → Option (List ℕ) → SataSim → Option SataSim
load_sectors lba count disk sata = do
  read ← read_from_disk lba count disk
  words ← read
  some (set_sent_data words sata)

-- The inputs of a new core, besides those of its bus.
abbrev pub first_inputs : Inputs
first_inputs = record {
  i_clk = 0;
  i_rxphy_clk = 0;
  i_txphy_clk = 0;
  i_reset = false;
  i_dma_stall = false;
  i_dma_ack = 0;
  i_dma_data = 0;
  i_rxphy_cominit = false;
  i_rxphy_comwake = false;
  i_rxphy_elecidle = false;
  i_rxphy_valid = false;
  i_rxphy_data = 0;
  i_phy_ready = false;
  i_txphy_comfinish = false;
  i_txphy_ready = false;
}

-- The bus of a new core.
abbrev pub first_master : Master
first_master = record {
  wb_cyc = false;
  wb_stb = false;
  wb_we = false;
  wb_addr = 0;
  wb_data = 0;
  wb_sel = 0;
}

module _ (V : Verilated) (fuel : ℕ) where
  -- `fuel` bounds the ticks of a loop of `tick_clk`.
  pub record SataTb : Type 0 where
    pub tb : WbTb (bench_bus V fuel)
    pub disk : Option (List ℕ)

  unfoldable pub tick_tb : SataTb → Option SataTb
  tick_tb s = do
    core ← tick V s.tb.master s.tb.core
    some (record s { tb = record s.tb { core = core } })

  unfoldable pub wait : ℕ → SataTb → Option SataTb
  unfolding tick_tb
  wait zero s = some s
  wait (suc n) s = do s' ← tick_tb s; wait n s'

  -- `while(!test && --timeout > 0) tick();`, where `left` is one less than the timeout. A timeout is
  -- only reported.
  unfoldable pub wait_until : (Outputs → Bool) → ℕ → SataTb → Option SataTb
  unfolding tick_tb
  wait_until test zero s = some s
  wait_until test (suc left) s =
      let rest = tick_tb s >>= wait_until test left in
      if test (V.outputs s.tb.core.state) then some s else rest

  unfoldable pub wait_for_int : SataTb → Option SataTb
  wait_for_int = wait_until (λ o. o.o_int) 9999

  unfoldable pub wait_while_link_ready : SataTb → Option SataTb
  wait_while_link_ready = wait_until (λ o. o.o_lnk_ready) 9999

  unfoldable pub with_sata : SataSim → SataTb → SataTb
  with_sata sata s = record s { tb = record s.tb { core = record s.tb.core { sata = sata } } }

  unfoldable pub with_reset : Bool → SataTb → SataTb
  unfolding set_reset
  with_reset level s = record s { tb = record s.tb { core = set_reset V level s.tb.core } }

  unfoldable pub reset_controller : SataTb → Option SataTb
  unfolding with_sata with_reset wait tick_tb
  reset_controller s0 = do
    s1 ← wait 100 (with_reset true (with_sata (reset s0.tb.core.sata) s0))
    tick_tb (with_reset false s1)

  unfoldable pub write_sectors : ℕ → ℕ → ℕ → ℕ → SataTb → Option SataTb
  unfolding save_sectors wait_for_int
  write_sectors operation lba count dma_addr s0 = do
    tb ← issue (bench_bus V fuel) operation lba count dma_addr s0.tb
    s1 ← wait_for_int (record s0 { tb = tb })
    disk ← save_sectors lba count s1.tb.core.sata s1.disk
    some (record s1 { disk = disk })

  unfoldable pub read_sectors : ℕ → ℕ → ℕ → ℕ → SataTb → Option SataTb
  unfolding load_sectors wait_for_int with_sata
  read_sectors operation lba count dma_addr s0 = do
    tb ← issue (bench_bus V fuel) operation lba count dma_addr s0.tb
    sata ← load_sectors lba count s0.disk tb.core.sata
    wait_for_int (with_sata sata (record s0 { tb = tb }))

  unfoldable pub dma_write : ℕ → ℕ → ℕ → SataTb → Option SataTb
  dma_write = write_sectors fis_type_dma_write

  unfoldable pub dma_read : ℕ → ℕ → ℕ → SataTb → Option SataTb
  dma_read = read_sectors fis_type_dma_read

  unfoldable pub pio_write : ℕ → ℕ → ℕ → SataTb → Option SataTb
  pio_write = write_sectors fis_type_pio_write_buffer

  unfoldable pub pio_read : ℕ → ℕ → ℕ → SataTb → Option SataTb
  pio_read = read_sectors fis_type_pio_read_buffer

  unfoldable pub write_memory : ℕ → List ℕ → SataTb → Option SataTb
  write_memory addr words s = do
    mem ← load_bytes addr (as_bytes words) s.tb.core.mem
    some (record s { tb = record s.tb { core = record s.tb.core { mem = mem } } })

  -- The array of `dma_test` has 128 words whatever the count.
  unfoldable pub dma_test : ℕ → ℕ → ℕ → SataTb → Option (SataTb × Bool)
  unfolding dma_write dma_read write_memory wait verify_data pattern
  dma_test lba count dma_addr s0 =
      let r_addr = u32 (dma_addr + sector_size) in
      let words = u32 (count * (sector_size / 4)) in
      if leb words (sector_size / 4) && leb count 1
      then (do
        s1 ← write_memory dma_addr (pattern 0xA0000000 0 words) s0
        s2 ← dma_write lba count dma_addr s1
        s3 ← wait 1000 s2
        s4 ← dma_read lba count r_addr s3
        some (s4, verify_data dma_addr r_addr s4.tb.core.mem))
      else none

  -- Bytes past the end of the array are read where the size of the array has wrapped around.
  unfoldable pub pio_test : ℕ → ℕ → ℕ → SataTb → Option (SataTb × Bool)
  unfolding pio_write pio_read write_memory wait verify_data pattern
  pio_test lba count dma_addr s0 =
      let r_addr = u32 (dma_addr + sector_size) in
      let words = u32 (count * (sector_size / 4)) in
      if words == count * (sector_size / 4)
      then (do
        s1 ← write_memory dma_addr (pattern 0xB0000000 0 words) s0
        s2 ← pio_write lba count dma_addr s1
        s3 ← wait 1000 s2
        s4 ← pio_read lba count r_addr s3
        some (s4, verify_data dma_addr r_addr s4.tb.core.mem))
      else none

  -- The constructors of `TESTB`, `WB_TB` and `SATA_TB`, where the core starts with its inputs at 0.
  unfoldable pub create : V.State → Option (List ℕ) → Option SataTb
  create state disk = do
    let clock = Clock.new
    clocks ← started 10000 26666 26668 (record { clk = clock; rx = clock; tx = clock; time_ps = 0 })
    mem ← Memory.new (1024 * 1024) 10
    let core : Bench V = record {
      inputs = first_inputs;
      state = state;
      clocks = clocks;
      sata = new;
      mem = mem;
      draws = 0;
    }
    some (record { tb = record { core = core; master = first_master; bomb = false }; disk = disk })

  -- `main`, from the new bench on: whether it exits with 0.
  unfoldable pub run_tests : ℕ → SataTb → Option Bool
  run_tests dma_addr s0 = do
    s1 ← reset_controller s0
    s2 ← wait_while_link_ready s1
    s3 ← wait 1000 s2
    (s4, dma) ← dma_test 0 1 dma_addr s3
    if dma
        then (do
          s5 ← wait 1000 s4
          (s6, pio) ← pio_test sector_size 1 0 s5
          s7 ← wait 1000 s6
          some pio)
        else some false
