-- ===== src/Bench.antt =====
-- `SATA_TB` of bench/cpp/tb_sata.cpp and `TESTB::tick` of bench/cpp/testb.h: the Verilated core, its
-- clocks, the simulated device and the simulated memory, as one machine. The core is a parameter: the
-- model that Verilator makes of the design. The trace and the messages are left out.
pub mod Tick
pub mod Steps
pub mod Boot
pub mod Period
pub mod Commands
pub mod Heard
pub mod Transfer
use wbsata.Common.{ℕ, zero, suc, ◌+◌, Bool, true, false, not, Option, none, some, ◌>>=◌, List}
use wbsata.Common.{◌==◌, if◌then◌else◌}
use wbsata.Clock.Tick.{Clocks, Edges, tick as tick_clocks}
use wbsata.Device.State.{SataSim, set_oob_done}
use wbsata.Device.Phy.{
  tx_clock, process_oob, process_rx_signals, process_tx_signals, TxSignals, TxReply, RxSignals,
}
use wbsata.Device.Link.{link_layer_model}
use wbsata.Memory.{MemSim, Request, Answer, apply}
use wbsata.Bus.{Master, Bus, WbTb}

-- The core's inputs besides those of its bus. `i_dma_data` keeps its word where the memory gives none.
pub record Inputs : Type 0 where
  pub i_clk : ℕ
  pub i_rxphy_clk : ℕ
  pub i_txphy_clk : ℕ
  pub i_reset : Bool
  pub i_dma_stall : Bool
  pub i_dma_ack : ℕ
  pub i_dma_data : ℕ
  pub i_rxphy_cominit : Bool
  pub i_rxphy_comwake : Bool
  pub i_rxphy_elecidle : Bool
  pub i_rxphy_valid : Bool
  pub i_rxphy_data : ℕ
  pub i_phy_ready : Bool
  pub i_txphy_comfinish : Bool
  pub i_txphy_ready : Bool

-- The core's outputs.
pub record Outputs : Type 0 where
  pub o_wb_stall : Bool
  pub o_wb_ack : Bool
  pub o_wb_data : ℕ
  pub o_int : Bool
  pub o_lnk_ready : Bool
  pub o_dma : Request
  pub o_txphy_cominit : Bool
  pub o_txphy_comwake : Bool
  pub o_txphy_elecidle : Bool
  pub o_txphy_primitive : Bool
  pub o_txphy_data : ℕ

-- The data lines after `apply`.
unfoldable pub data_lines : Option ℕ → ℕ → ℕ
data_lines none before = before
data_lines (some word) before = word

-- The Verilated core: `eval` and what its outputs are after it; and `random`, what `rand` gives in
-- each call of `apply`.
pub record Verilated : Type 1 where
  pub State : Type 0
  pub eval : Master → Inputs → State → State
  pub outputs : State → Outputs
  pub random : ℕ → ℕ

module _ (V : Verilated) where
  open V use {State, eval, outputs, random}

  pub record Bench : Type 0 where
    pub inputs : Inputs
    pub state : State
    pub clocks : Clocks
    pub sata : SataSim
    pub mem : MemSim
    pub draws : ℕ  -- the calls of `apply` so far

  -- `deploy_test_data`, all that `sim_clk_tick` does.
  unfoldable pub deploy_test_data : Bench → Option Bench
  unfolding data_lines
  deploy_test_data s = do
    (mem, a) ← apply (random s.draws) (outputs s.state).o_dma s.mem
    some (record s {
      mem = mem;
      draws = s.draws + 1;
      inputs = record s.inputs {
        i_dma_stall = a.o_stall;
        i_dma_ack = a.o_ack;
        i_dma_data = data_lines a.o_data s.inputs.i_dma_data;
      };
    })

  -- What the device gives the core.
  unfoldable pub with_rx : RxSignals → SataSim → Bench → Bench
  with_rx rx sata s = record s {
    sata = sata;
    inputs = record s.inputs {
      i_rxphy_cominit = rx.cominit;
      i_rxphy_comwake = rx.comwake;
      i_rxphy_elecidle = rx.elecidle;
      i_rxphy_valid = rx.valid;
      i_rxphy_data = rx.word;
      i_phy_ready = rx.phy_ready;
    };
  }

  -- The signals are read before the link layer moves.
  unfoldable pub sim_rx_clk_tick : Bench → Option Bench
  unfolding with_rx
  sim_rx_clk_tick s = do
    sata ← link_layer_model s.sata
    some (with_rx (process_rx_signals s.sata) sata s)

  unfoldable pub tx_signals : Bench → TxSignals
  tx_signals s =
      let o = outputs s.state in
      record {
        reset = s.inputs.i_reset;
        cominit = o.o_txphy_cominit;
        comwake = o.o_txphy_comwake;
        elecidle = o.o_txphy_elecidle;
        primitive = o.o_txphy_primitive;
        word = o.o_txphy_data;
        link_ready = o.o_lnk_ready;
      }

  unfoldable pub sim_tx_clk_tick : Bench → Bench
  unfolding tx_clock tx_signals
  sim_tx_clk_tick s =
      let (sata, reply) = tx_clock (tx_signals s) s.sata in
      record s {
        sata = sata;
        inputs = record s.inputs {
          i_txphy_comfinish = reply.comfinish;
          i_txphy_ready = reply.ready;
        };
      }

  -- `eval`, the clocks' new levels, and `eval` again.
  unfoldable pub evaluate : Master → Clocks → Edges → Bench → Bench
  evaluate m clocks edges s =
      let inputs = record s.inputs {
        i_clk = edges.i_clk;
        i_rxphy_clk = edges.i_rxphy_clk;
        i_txphy_clk = edges.i_txphy_clk;
      } in
      record s { inputs = inputs; clocks = clocks; state = eval m inputs (eval m s.inputs s.state) }

  -- The callbacks of the falling edges.
  unfoldable pub callbacks : Edges → Bench → Option Bench
  callbacks edges s0 = do
    s1 ← if edges.sim_clk then deploy_test_data s0 else some s0
    s2 ← if edges.sim_rx_clk then sim_rx_clk_tick s1 else some s1
    some (if edges.sim_tx_clk then sim_tx_clk_tick s2 else s2)

  unfoldable pub tick : Master → Bench → Option Bench
  tick m s = do (clocks, edges) ← tick_clocks s.clocks; callbacks edges (evaluate m clocks edges s)

  -- `while(m_core->i_clk != level) tick();`; `none` is also fuel that has run out.
  unfoldable pub tick_until : ℕ → ℕ → Master → Bench → Option Bench
  unfolding tick
  tick_until zero level m s = none
  tick_until (suc fuel) level m s =
      let rest = tick m s >>= tick_until fuel level m in
      if s.inputs.i_clk == level then some s else rest

  unfoldable pub tick_clk : ℕ → Master → Bench → Option Bench
  unfolding tick_until
  tick_clk fuel m s = do s' ← tick_until fuel 1 m s; tick_until fuel 0 m s'

  unfoldable pub set_reset : Bool → Bench → Bench
  set_reset level s = record s { inputs = record s.inputs { i_reset = level } }

  -- `TESTB::reset`.
  unfoldable pub reset : ℕ → Master → Bench → Option Bench
  unfolding set_reset tick tick_until
  reset fuel m s0 = do
    s1 ← tick m (set_reset true s0)
    s2 ← tick_until fuel 1 m s1
    some (set_reset false s2)

  -- The bench as the bus master sees it.
  abbrev pub bench_bus : ℕ → Bus
  bench_bus fuel = record {
    Core = Bench;
    wb_stall = λ s. (outputs s.state).o_wb_stall;
    wb_ack = λ s. (outputs s.state).o_wb_ack;
    wb_word = λ s. (outputs s.state).o_wb_data;
    tick_clk = tick_clk fuel;
  }
