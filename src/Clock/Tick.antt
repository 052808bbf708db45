-- ===== src/Clock/Tick.antt =====
-- The time that `TESTB::tick` of bench/cpp/testb.h spends on its three clocks: the system clock and
-- the receive and transmit clocks of the PHY. `eval` and the trace are not modelled; the levels go
-- to the Verilated core, the callbacks are the falling edges that call them.
use wbsata.Common.{◌+◌, ◌>>=◌}
use wbsata.Clock.{
  u64, some, u32, none, ltb, Bool, if◌then◌else◌, ℕ, Option, TbClock, time_to_edge, advance,
  falling_edge, init,
}

pub record Clocks : Type 0 where
  pub clk : TbClock
  pub rx : TbClock
  pub tx : TbClock
  pub time_ps : ℕ

-- What `tick` gives the core, and which of the callbacks it makes.
pub record Edges : Type 0 where
  pub i_clk : ℕ
  pub i_rxphy_clk : ℕ
  pub i_txphy_clk : ℕ
  pub sim_clk : Bool
  pub sim_rx_clk : Bool
  pub sim_tx_clk : Bool

unfoldable pub least : ℕ → ℕ → ℕ
least a b = if ltb a b then a else b

-- `mintime`, an `unsigned` of 32 bits.
unfoldable pub min_time : Clocks → Option ℕ
unfolding least
min_time t = do
  a ← time_to_edge t.clk
  b ← time_to_edge t.rx
  c ← time_to_edge t.tx
  let ab = u32 (least b (u32 a))
  some (u32 (least c ab))

-- `m_clk`, `m_rx` and `m_tx` as the constructor of `TESTB` sets them.
unfoldable pub started : ℕ → ℕ → ℕ → Clocks → Option Clocks
unfolding init
started a b c t = do
  clk ← init a t.clk
  rx ← init b t.rx
  tx ← init c t.tx
  some (record { clk = clk; rx = rx; tx = tx; time_ps = 0 })

unfoldable pub advance_clocks : ℕ → Clocks → Option (Clocks × Edges)
unfolding advance falling_edge
advance_clocks mintime t = do
  (clk, i_clk) ← advance mintime t.clk
  (rx, i_rx) ← advance mintime t.rx
  (tx, i_tx) ← advance mintime t.tx
  some (
    record { clk = clk; rx = rx; tx = tx; time_ps = u64 (t.time_ps + mintime) },
    record {
      i_clk = i_clk;
      i_rxphy_clk = i_rx;
      i_txphy_clk = i_tx;
      sim_clk = falling_edge clk;
      sim_rx_clk = falling_edge rx;
      sim_tx_clk = falling_edge tx;
    },
  )

unfoldable pub tick : Clocks → Option (Clocks × Edges)
unfolding min_time advance_clocks
tick t = do mintime ← min_time t; if ltb 1 mintime then advance_clocks mintime t else none
