-- ===== src/Examples/Benches.antt =====
-- A bench whose core does nothing, its link up.
use wbsata.Device.Phy.{handshake, tx_clock}
use wbsata.Common.{none, replicate, ◌*◌}
use wbsata.Bench.Transfer.{SataTb, create, reset_controller}
use wbsata.Bench.Transfer.Started.{reset_controller-create}
use wbsata.Common.{◌%◌, ◌^◌, ℕ, ◌<◌, ◌≤◌, ◌≡◌, refl, arith, true, false, some}
use wbsata.Bus.{Master}
use wbsata.Clock.{TbClock}
use wbsata.Clock.Edges.{stepped, wave}
use wbsata.Clock.Period.{edge_in}
use wbsata.Clock.Run.{HasTime, IsSteady, even-IsSteady}
use wbsata.Device.State.{SataSim, new, rcv_data, send_align}
use wbsata.Device.Link.Reach.{begin}
use wbsata.Device.Link.Total.{HasRoom}
use wbsata.Device.Frame.{clock}
use wbsata.Device.Frame.Verdict.{IsWaiting, first_line}
use wbsata.Bench.{
  callbacks, evaluate, with_rx, deploy_test_data, sim_tx_clk_tick, sim_rx_clk_tick, Verilated,
  Bench, Inputs, Outputs, tick, tick_clk,
}
use mathlib.Core.Path.{subst}
use mathlib.Core.Option.{some-injective}
use wbsata.Common.{Option-cases, Bool-cases, inl, inr, if◌then◌else◌}
use wbsata.Clock.Tick.{Edges, tick as tick_clocks}
use wbsata.Device.Link.{link_layer_model}
use wbsata.Device.Phy.{handshake, tx_clock, process_tx_signals}
use wbsata.Bench.Tick.{IsWhole, tick-IsWhole}
use wbsata.Bench.Period.{IsGoing, tick_clk-IsGoing}
use wbsata.Bench.Commands.{fis_cmd}
use wbsata.Bench.Heard.{fis_cmd-heard}
use wbsata.Examples.Buses.{idle}
use wbsata.Examples.Memories.{memory, memory-IsValid, write}

abbrev outputs_up : Outputs
outputs_up = record {
  o_wb_stall = false;
  o_wb_ack = false;
  o_wb_data = 0;
  o_int = false;
  o_lnk_ready = true;
  o_dma = write;
  o_txphy_cominit = false;
  o_txphy_comwake = false;
  o_txphy_elecidle = false;
  o_txphy_primitive = false;
  o_txphy_data = 0;
}

abbrev pub still : Verilated
still = record { State = Unit; eval = λ m i s. s; outputs = λ s. outputs_up; random = λ n. n }

abbrev inputs_low : Inputs
inputs_low = record {
  i_clk = 0;
  i_rxphy_clk = 0;
  i_txphy_clk = 0;
  i_reset = false;
  i_dma_stall = false;
  i_dma_ack = 0;
  i_dma_data = 0;
  i_rxphy_cominit = false;
  i_rxphy_comwake = false;
  i_rxphy_elecidle = false;
  i_rxphy_valid = false;
  i_rxphy_data = 0;
  i_phy_ready = false;
  i_txphy_comfinish = false;
  i_txphy_ready = false;
}

abbrev half_way : ℕ → TbClock
half_way inc = record { increment_ps = inc; now_ps = inc; last_posedge_ps = 0; ticks = 0 }

abbrev bench : Bench still
bench = record {
  inputs = inputs_low;
  state = tt;
  clocks = record { clk = half_way 5000; rx = half_way 13332; tx = half_way 13334; time_ps = 0 };
  sata = new;
  mem = memory;
  draws = 0;
}

bench-IsWhole : IsWhole still bench
bench-IsWhole = record { device = begin; memory = memory-IsValid }

new-HasRoom : HasRoom new
unfolding new
new-HasRoom = record { sector = λ st read. cc; space = λ st. cc }

has_time : (inc n : ℕ) → 0 < inc → inc < 2 ^ 31 → inc % 2 ≡ 0 → n < 20000 → HasTime n (half_way inc)
has_time inc n pos short even small = record {
  valid = record {
    positive = pos;
    even = even;
    even_edge = refl;
    past = omega arith;
    current = omega arith;
    room = omega arith;
  };
  short = short;
  time = omega arith;
}

bench-IsSteady : (n : ℕ) → n < 20000 → IsSteady n bench.clocks
bench-IsSteady n small =
    even-IsSteady n bench.clocks (has_time 5000 n (omega arith) (omega arith) refl small)
      (has_time 13332 n (omega arith) (omega arith) refl small)
      (has_time 13334 n (omega arith) (omega arith) refl small) refl refl refl

tick-IsWhole_example :
    (t : Bench still) × (k : ℕ) × (tick still idle bench ≡ some t)
    × IsWhole still t
    × IsSteady 5 t.clocks
    × (1 < k)
    × (k ≤ edge_in (half_way 5000))
    × (t.clocks.clk ≡ stepped k (half_way 5000))
    × (t.inputs.i_clk ≡ wave t.clocks.clk)
tick-IsWhole_example =
    tick-IsWhole still 5 idle bench bench-IsWhole new-HasRoom (bench-IsSteady 6 (omega arith))

-- The device waits for the handshake, which never comes.
abbrev pub Sleeps : Bench still → Type 0
Sleeps s = (s.sata.oob_done ≡ false) × (s.sata.link_state ≡ send_align)

pub Sleeps-HasRoom : (s : Bench still) → Sleeps s → HasRoom s.sata
Sleeps-HasRoom s (asleep, start) = record { sector = λ st read. cc; space = λ st. cc }

deploy-Sleeps : (s t : Bench still) → Sleeps s → deploy_test_data still s ≡ some t → Sleeps t
unfolding deploy_test_data
deploy-Sleeps s t h e = ground (arith, h, e)

rx-Sleeps : (s t : Bench still) → Sleeps s → sim_rx_clk_tick still s ≡ some t → Sleeps t
unfolding sim_rx_clk_tick with_rx link_layer_model
rx-Sleeps s t h e = ground (arith, h, e)

tx-Sleeps : (s : Bench still) → Sleeps s → Sleeps (sim_tx_clk_tick still s)
unfolding sim_tx_clk_tick tx_clock handshake process_tx_signals
tx-Sleeps s h = h

callbacks-Sleeps :
    (e : Edges) (s t : Bench still) → Sleeps s → callbacks still e s ≡ some t → Sleeps t
unfolding callbacks
callbacks-Sleeps e s t h run =
    elim (Option-cases (if e.sim_clk then deploy_test_data still s else some s)) [
      | inl fault ↦ absurd (cc (rw fault at run))
      | inr (s1, first) ↦
          elim (Option-cases (if e.sim_rx_clk then sim_rx_clk_tick still s1 else some s1)) [
            | inl fault ↦ absurd (cc (rw (first, fault) at run))
            | inr (s2, second) ↦
                let asleep1 : Sleeps s1 = elim (Bool-cases e.sim_clk) [
                  | inl fell ↦ deploy-Sleeps s s1 h (rw fell at first)
                  | inr held ↦ subst Sleeps (some-injective s s1 (rw held at first)) h
                ] in
                let asleep2 : Sleeps s2 = elim (Bool-cases e.sim_rx_clk) [
                  | inl fell ↦ rx-Sleeps s1 s2 asleep1 (rw fell at second)
                  | inr held ↦ subst Sleeps (some-injective s1 s2 (rw held at second)) asleep1
                ] in
                let end = some-injective _ t (rw (first, second) at run) in
                elim (Bool-cases e.sim_tx_clk) [
                  | inl fell ↦ subst Sleeps (rw fell at end) (tx-Sleeps s2 asleep2)
                  | inr held ↦ subst Sleeps (rw held at end) asleep2
                ]
          ]
    ]

pub tick-Sleeps : (m : Master) (s t : Bench still) → Sleeps s → tick still m s ≡ some t → Sleeps t
unfolding tick
tick-Sleeps m s t h e = elim (Option-cases (tick_clocks s.clocks)) [
  | inl fault ↦ absurd (cc (rw fault at e))
  | inr ((clocks, edges), run) ↦
      callbacks-Sleeps edges (evaluate still m clocks edges s) t (unfold evaluate in h)
        (rw run at e)
]

bench-IsGoing : IsGoing still idle Sleeps Sleeps-HasRoom (tick-Sleeps idle) 5001 10003 bench
unfolding new wave
bench-IsGoing = record {
  whole = bench-IsWhole;
  steady = bench-IsSteady 10003 (omega arith);
  phase = refl;
  fast = omega arith;
  runs = (refl, refl);
}

tick_clk-IsGoing_example :
    (t : Bench still) × (tick_clk still 5001 idle bench ≡ some t)
    × IsGoing still idle Sleeps Sleeps-HasRoom (tick-Sleeps idle) 5001 1 t
    × (t.inputs.i_clk ≡ 0)
tick_clk-IsGoing_example =
    tick_clk-IsGoing still idle Sleeps Sleeps-HasRoom (tick-Sleeps idle) 5001 1 bench bench-IsGoing

abbrev waiting : SataSim
unfolding new
waiting = record new { oob_done = true; link_state = rcv_data }

waiting-IsWaiting : IsWaiting waiting
unfolding new waiting
waiting-IsWaiting = record { in_state = refl; up = refl; fresh = refl; room = refl }

fis_cmd-heard_example :
    (t : SataSim) × (clock false (first_line (fis_cmd 0xC8 0x3000009)) waiting ≡ some t)
    × (t.dma_act ≡ false)
    × (t.dma_read ≡ true)
    × (t.pio_setup ≡ false)
    × (t.pio_read ≡ false)
    × (t.data_response ≡ false)
    × (t.lba ≡ 67)
    × (t.data_count ≡ 1)
unfolding new waiting
fis_cmd-heard_example = fis_cmd-heard 0xC8 0x3000009 waiting waiting-IsWaiting (omega arith)

reset_controller-create_example :
    (s : SataTb still 5001) × (t : SataTb still 5001) × (create still 5001 tt none ≡ some s)
    × (s.tb.core.sata ≡ new)
    × (wave s.tb.core.clocks.clk ≡ s.tb.core.inputs.i_clk)
    × (s.tb.core.clocks.clk.increment_ps ≤ 5000)
    × (1024 * 1024 ≤ s.tb.core.mem.len)
    × (s.tb.core.mem.mem ≡ replicate s.tb.core.mem.len 0)
    × (reset_controller still 5001 s ≡ some t)
    × IsWhole still t.tb.core
    × IsSteady 1000000 t.tb.core.clocks
    × (t.disk ≡ none)
reset_controller-create_example = reset_controller-create still 5001 1000000 tt none (omega arith)
