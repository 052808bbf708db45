-- ===== src/Examples/Buses.antt =====
-- A file of registers behind a bus, and a driver's device.
use wbsata.Common.{
  ◌<◌, ap, ℕ, ◌+◌, ◌*◌, ◌≡◌, ◌≢◌, ◌≤◌, ◌⊎◌, refl, arith, Bool, true, false, ◌&&◌, ◌||◌, some, none,
  [], ◌∷◌, ◌++◌, drop, replicate, ◌==◌, if◌then◌else◌,
}
use mathlib.Core.Option.{some-injective}
use wbsata.Common.{sym, ap}
use wbsata.Bus.{Master, Bus, WbTb, wb_read, wb_write}
use wbsata.Bus.Bounds.{Ticks, IsTotal, wb_read_bounded}
use wbsata.Bus.Registers.{IsRegisterFile, wb_read-wb_write}
use wbsata.Bus.Blocks.{read_block, write_block}
use wbsata.Bus.Blocks.Registers.{read_block-write_block}
use wbsata.Bench.Commands.{issue}
use wbsata.Device.Words.{fis_type_dma_write}
use wbsata.Driver.{start, res_ok, Port, Settings, SataDrv, sata_write}
use wbsata.Driver.Commands.{IsPort, sata_write-issue}

record File : Type 0 where
  ack : Bool
  word : ℕ
  regs : ℕ → ℕ

abbrev file_bus : Bus
file_bus = record {
  Core = File;
  wb_stall = λ c. false;
  wb_ack = λ c. c.ack;
  wb_word = λ c. c.word;
  tick_clk = λ m c. some (record {
    ack = m.wb_cyc && m.wb_stb;
    word = c.regs m.wb_addr;
    regs = λ x. if m.wb_cyc && m.wb_stb && m.wb_we && x == m.wb_addr then m.wb_data else c.regs x;
  });
}

abbrev regs_of : File → ℕ → ℕ
regs_of c = c.regs

file_bus-IsTotal : IsTotal file_bus
file_bus-IsTotal m c = (_, refl)

-- The core after a clock.
next_file : {c d : File} → some c ≡ some d → d ≡ c
next_file {c} {d} e = sym (some-injective c d e)

file_bus-IsRegisterFile : IsRegisterFile file_bus regs_of
file_bus-IsRegisterFile = record {
  ticks = λ m c. (_, refl);
  ready = λ c. refl;
  acks = λ m c d e. ap (λ f. f.ack) (next_file e);
  reads = λ m c d e r. ap (λ f. f.word) (next_file e);
  holds = λ m c d x e. ap (λ f. f.regs x) (next_file e);
}

abbrev pub idle : Master
idle = record {
  wb_cyc = false;
  wb_stb = false;
  wb_we = false;
  wb_addr = 0;
  wb_data = 0;
  wb_sel = 0;
}

abbrev tb : WbTb file_bus
tb = record { core = record { ack = false; word = 0; regs = λ x. 0 }; master = idle; bomb = false }

wb_read-wb_write_example :
    (t : WbTb file_bus) × (u : WbTb file_bus) × (wb_write file_bus 3 77 tb ≡ some t)
    × (wb_read file_bus 3 t ≡ some (u, 77))
    × (u.bomb ≡ false)
wb_read-wb_write_example = wb_read-wb_write file_bus regs_of file_bus-IsRegisterFile 3 77 3 tb

read_block-write_block_example :
    (t : WbTb file_bus) × (u : WbTb file_bus) × (write_block file_bus 4 (7 ∷ 8 ∷ []) 1 tb ≡ some t)
    × (read_block file_bus 4 2 (replicate 3 0) 1 t
        ≡ some (u, (7 ∷ 8 ∷ []) ++ drop 2 (replicate 3 0)))
    × (u.bomb ≡ false)
    × ((x : ℕ) → (x < 4) ⊎ (4 + 2 ≤ x) → regs_of u.core x ≡ 0)
read_block-write_block_example =
    read_block-write_block file_bus regs_of file_bus-IsRegisterFile 4 7 (8 ∷ []) (replicate 3 0) tb
      (omega arith) (omega arith)

wb_read_bounded_example :
    (n : ℕ) × (c : File) × (n ≤ 34)
    × Ticks file_bus n tb.core c
    × (((c.ack || false) ≡ true) → wb_read file_bus 3 tb ≡ none)
    × (((c.ack || false) ≡ false)
        → (t : WbTb file_bus) × (word : ℕ) × (wb_read file_bus 3 tb ≡ some (t, word))
          × (t.core ≡ c)
          × (((d : File) → d.ack ≡ false) → t.bomb ≡ true))
wb_read_bounded_example = wb_read_bounded file_bus 3 tb file_bus-IsTotal

-- A device that is busy until its status is loaded for the second time.
record Drive : Type 0 where
  regs : ℕ → ℕ
  loads : ℕ

abbrev port : Port
port = record {
  State = Drive;
  store = λ a v s. record s { regs = λ x. if x == a then v else s.regs x };
  load = λ a s. (record s { loads = s.loads + 1 }, if s.loads == 0 then 1 else 0);
}

abbrev settings : Settings
settings = record { sdio_busy = 1; ctrl_sync = 0; get_sector_count = 1; get_sector_size = 2 }

abbrev drive : SataDrv port
drive = record { dev = record { regs = λ x. 0; loads = 0 }; sector_count = 0; block_size = 0 }

port-IsPort : IsPort port settings (λ s. s.regs)
port-IsPort = record { stores = λ a v s x. refl; loads = λ a s x. refl }

sata_write-issue_example :
    (t : SataDrv port) × (u : WbTb file_bus) × (sata_write port settings 2 9 1 (64 * 4) drive
      ≡ some (t, res_ok))
    × (issue file_bus fis_type_dma_write 9 1 64 tb ≡ some u)
    × (u.bomb ≡ false)
    × ((x : ℕ) → x ≢ 7 → t.dev.regs x ≡ regs_of u.core x)
sata_write-issue_example =
    sata_write-issue port settings file_bus regs_of tb (λ s. s.regs) 2 9 1 64 1 drive
      file_bus-IsRegisterFile port-IsPort (λ x. refl) (omega arith) (omega arith) (omega arith)
      (unfold start in ((omega arith), refl)) (omega arith)
