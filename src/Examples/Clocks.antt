-- ===== src/Examples/Clocks.antt =====
-- The clocks of the test bench, at their intervals.
use wbsata.Common.{List, [], ◌∷◌, suc, none, ◌*◌, ◌/◌, ◌^◌, ◌<◌}
use wbsata.Clock.Frequency.{set_frequency_hz-close}
use wbsata.Clock.Trace.{TestB, new, Call, ticks, opens, closes, pauses, asks_done, calls}
use wbsata.Clock.Trace.Times.{IsOpen, AreClosed, calls-rising}
use wbsata.Common.{◌⊎◌, ◌≤◌, ◌+◌, u64, ℕ, ◌≡◌, refl, true, false, some, arith}
use wbsata.Clock.{set_frequency_hz, set_interval_ps, TbClock, time_to_edge, falling_edge}
use wbsata.Clock.Edges.{IsValid, stepped, wave}
use wbsata.Clock.Tick.{Clocks, Edges, tick, started}
use wbsata.Clock.Steady.{tick_lem}
use wbsata.Clock.Run.{tick_n, started-tick_n}

abbrev system_clock : TbClock
system_clock = record { increment_ps = 5000; now_ps = 5001; last_posedge_ps = 0; ticks = 0 }

abbrev receive_clock : TbClock
receive_clock = record { increment_ps = 13332; now_ps = 13333; last_posedge_ps = 0; ticks = 0 }

abbrev transmit_clock : TbClock
transmit_clock = record { increment_ps = 13334; now_ps = 13335; last_posedge_ps = 0; ticks = 0 }

abbrev clocks : Clocks
clocks = record { clk = system_clock; rx = receive_clock; tx = transmit_clock; time_ps = 0 }

system_clock-IsValid : IsValid system_clock
system_clock-IsValid = record {
  positive = omega arith;
  even = refl;
  even_edge = refl;
  past = omega arith;
  current = omega arith;
  room = omega arith;
}

receive_clock-IsValid : IsValid receive_clock
receive_clock-IsValid = record {
  positive = omega arith;
  even = refl;
  even_edge = refl;
  past = omega arith;
  current = omega arith;
  room = omega arith;
}

transmit_clock-IsValid : IsValid transmit_clock
transmit_clock-IsValid = record {
  positive = omega arith;
  even = refl;
  even_edge = refl;
  past = omega arith;
  current = omega arith;
  room = omega arith;
}

started-tick_n_example :
    (t' : Clocks) × (t'' : Clocks) × (started 10000 26666 26668 clocks ≡ some t')
    × (tick_n 1001 t' ≡ some t'')
started-tick_n_example =
    started-tick_n 10000 26666 26668 1000 clocks (omega arith) (omega arith) (omega arith)
      (omega arith) (omega arith) (omega arith) (omega arith)

tick_lem_example :
    (m : ℕ) × (e : Edges) × (tick clocks
      ≡ some (
        record {
          clk = stepped m system_clock;
          rx = stepped m receive_clock;
          tx = stepped m transmit_clock;
          time_ps = u64 (0 + m);
        },
        e,
      ))
    × (m ≤ 4999)
    × (m ≤ 13331)
    × (m ≤ 13333)
    × ((m ≡ 4999) ⊎ (m ≡ 13331) ⊎ (m ≡ 13333))
    × (e.i_clk ≡ wave (stepped m system_clock))
    × (e.i_rxphy_clk ≡ wave (stepped m receive_clock))
    × (e.i_txphy_clk ≡ wave (stepped m transmit_clock))
    × (e.sim_clk ≡ falling_edge (stepped m system_clock))
    × (e.sim_rx_clk ≡ falling_edge (stepped m receive_clock))
    × (e.sim_tx_clk ≡ falling_edge (stepped m transmit_clock))
tick_lem_example =
    tick_lem clocks 4999 13331 13333
      (record { valid = system_clock-IsValid; short = omega arith; time = omega arith })
      (record { valid = receive_clock-IsValid; short = omega arith; time = omega arith })
      (record { valid = transmit_clock-IsValid; short = omega arith; time = omega arith })
      (unfold time_to_edge in refl) (unfold time_to_edge in refl) (unfold time_to_edge in refl)
      (omega arith) (omega arith) (omega arith)

-- A trace that is paused, goes on, and is closed for another.
abbrev session : List Call
session =
    ticks
    ∷ opens
    ∷ ticks
    ∷ pauses true
    ∷ ticks
    ∷ pauses false
    ∷ ticks
    ∷ closes
    ∷ opens
    ∷ ticks
    ∷ asks_done true
    ∷ []

calls-rising_example :
    (s : TestB) × (t : TestB) × (new ≡ some s)
    × (calls session s ≡ some t)
    × IsOpen (suc t.clocks.time_ps) t.trace
    × AreClosed (suc t.clocks.time_ps) t.closed
calls-rising_example = calls-rising session (omega arith)

abbrev interval_of : ℕ → ℕ
interval_of f = 10 ^ 12 / f

-- 150 MHz, with a quotient that drops its fraction.
set_frequency_hz-close_example :
    (set_frequency_hz interval_of 150000000 system_clock ≡ set_interval_ps 6666 system_clock)
    × (4 ≤ 6666
        → (d : TbClock) × (set_frequency_hz interval_of 150000000 system_clock ≡ some d)
          × (2 * d.increment_ps ≤ 6666)
          × (6666 < 2 * d.increment_ps + 4)
          × (d.now_ps ≡ 5001)
          × (d.last_posedge_ps ≡ 0))
    × (6666 < 4 → set_frequency_hz interval_of 150000000 system_clock ≡ none)
set_frequency_hz-close_example =
    set_frequency_hz-close interval_of (λ f pos small. refl) 150000000 system_clock (omega arith)
      (omega arith)
