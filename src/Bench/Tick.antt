-- ===== src/Bench/Tick.antt =====
-- What holds of the bench over its ticks, whatever its core does.
use wbsata.Device.Phy.{handshake, tx_clock}
use wbsata.Common.{ℕ, suc, ◌+◌, ◌<◌, ◌≤◌, ◌≡◌, refl, sym, ◌∙◌, ap, inl, inr, some, true, false}
use wbsata.Common.{Bool, Bool-cases, if◌then◌else◌}
use wbsata.Device.State.{SataSim}
use wbsata.Device.Phy.{handshake, process_rx_signals}
use wbsata.Device.Link.Reach.{Reach, next, tx, oob, rx}
use wbsata.Device.Link.Total.{HasRoom, link_layer_model_total}
use wbsata.Memory.Indices.{IsValid}
use wbsata.Memory.Apply.{apply-IsValid}
use wbsata.Clock.Tick.{Clocks, Edges}
use wbsata.Clock.Edges.{stepped, wave}
use wbsata.Clock.Period.{edge_in, time_to_edge-eq}
use wbsata.Clock.Run.{IsSteady, IsSteady-tick}
use wbsata.Bus.{Master}
use wbsata.Bench.{
  tx_clock, Verilated, Bench, data_lines, with_rx, deploy_test_data, sim_rx_clk_tick,
  sim_tx_clk_tick, tx_signals, evaluate, callbacks, tick,
}

module _ (V : Verilated) where
  -- The device is one that calls can lead to, and the memory is valid.
  pub record IsWhole (s : Bench V) : Type 0 where
    pub device : Reach s.sata
    pub memory : IsValid s.mem

  deploy-IsWhole :
      (s : Bench V)
      → IsWhole s
      → (t : Bench V) × (deploy_test_data V s ≡ some t)
        × IsWhole t
        × (t.sata ≡ s.sata)
        × (t.clocks ≡ s.clocks)
        × (t.inputs.i_clk ≡ s.inputs.i_clk)
  unfolding deploy_test_data
  deploy-IsWhole s h =
      let (mem, a, run, valid) =
        apply-IsValid (V.random s.draws) (V.outputs s.state).o_dma s.mem h.memory in
      let t : Bench V = record s {
        mem = mem;
        draws = s.draws + 1;
        inputs = record s.inputs {
          i_dma_stall = a.o_stall;
          i_dma_ack = a.o_ack;
          i_dma_data = data_lines a.o_data s.inputs.i_dma_data;
        };
      } in
      (t, simp run, record { device = h.device; memory = valid }, refl, refl, refl)

  rx-IsWhole :
      (s : Bench V)
      → IsWhole s
      → HasRoom s.sata
      → (t : Bench V) × (sim_rx_clk_tick V s ≡ some t)
        × IsWhole t
        × (t.clocks ≡ s.clocks)
        × (t.inputs.i_clk ≡ s.inputs.i_clk)
  unfolding sim_rx_clk_tick with_rx
  rx-IsWhole s h room =
      let (sata, run) = link_layer_model_total h.device room in
      let t = with_rx V (process_rx_signals s.sata) sata s in
      (t, simp run, record { device = next h.device (rx run); memory = h.memory }, refl, refl)

  handshake-Reach : (link_ready : Bool) (s : SataSim) → Reach s → Reach (handshake link_ready s)
  unfolding handshake
  handshake-Reach true s r = r
  handshake-Reach false s r = next r (oob s)

  tx-IsWhole : (s : Bench V) → IsWhole s → IsWhole (sim_tx_clk_tick V s)
  unfolding sim_tx_clk_tick tx_clock
  tx-IsWhole s h = record {
    device = next (handshake-Reach _ s.sata h.device) (tx (tx_signals V s) _);
    memory = h.memory;
  }

  evaluated :
      (m : Master) (c : Clocks) (e : Edges) (s : Bench V) → IsWhole s → IsWhole (evaluate V m c e s)
  unfolding evaluate
  evaluated m c e s h = record { device = h.device; memory = h.memory }

  callbacks-IsWhole :
      (e : Edges) (s : Bench V)
      → IsWhole s
      → HasRoom s.sata
      → (t : Bench V) × (callbacks V e s ≡ some t)
        × IsWhole t
        × (t.clocks ≡ s.clocks)
        × (t.inputs.i_clk ≡ s.inputs.i_clk)
  unfolding callbacks sim_tx_clk_tick
  callbacks-IsWhole e s h room =
      let (s1, run1, whole1, sata1, clocks1, level1) = first in
      let (s2, run2, whole2, clocks2, level2) = second s1 whole1 (rw sata1 room) in
      let (whole3, clocks3, level3) = third s2 whole2 in
      (
        if e.sim_tx_clk then sim_tx_clk_tick V s2 else s2,
        simp (run1, run2),
        whole3,
        clocks3 ∙ clocks2 ∙ clocks1,
        level3 ∙ level2 ∙ level1,
      )
    where
      first :
          (t : Bench V) × ((if e.sim_clk then deploy_test_data V s else some s) ≡ some t)
          × IsWhole t
          × (t.sata ≡ s.sata)
          × (t.clocks ≡ s.clocks)
          × (t.inputs.i_clk ≡ s.inputs.i_clk)
      first = elim (Bool-cases e.sim_clk) [
        | inl fell ↦ rw fell (deploy-IsWhole s h)
        | inr not_fell ↦ rw not_fell (s, refl, h, refl, refl, refl)
      ]

      second :
          (s1 : Bench V)
          → IsWhole s1
          → HasRoom s1.sata
          → (t : Bench V) × ((if e.sim_rx_clk then sim_rx_clk_tick V s1 else some s1) ≡ some t)
            × IsWhole t
            × (t.clocks ≡ s1.clocks)
            × (t.inputs.i_clk ≡ s1.inputs.i_clk)
      second s1 h1 room1 = elim (Bool-cases e.sim_rx_clk) [
        | inl fell ↦ rw fell (rx-IsWhole s1 h1 room1)
        | inr not_fell ↦ rw not_fell (s1, refl, h1, refl, refl)
      ]

      third :
          (s2 : Bench V)
          → IsWhole s2
          → IsWhole (if e.sim_tx_clk then sim_tx_clk_tick V s2 else s2)
            × ((if e.sim_tx_clk then sim_tx_clk_tick V s2 else s2).clocks ≡ s2.clocks)
            × ((if e.sim_tx_clk then sim_tx_clk_tick V s2 else s2).inputs.i_clk ≡ s2.inputs.i_clk)
      third s2 h2 = elim (Bool-cases e.sim_tx_clk) [
        | inl fell ↦ rw fell (tx-IsWhole s2 h2, refl, refl)
        | inr not_fell ↦ rw not_fell (h2, refl, refl)
      ]

  -- A tick of the bench returns, whatever its core does: where the device is reachable and has room
  -- for the word it hears or the sector it sends, the memory is valid, and the clocks are steady, no
  -- assertion fails and no index leaves its array. It leaves a bench of the same kind, whose core has
  -- the level of the system clock, which has moved by more than 1 ps and not past its next edge.
  pub tick-IsWhole :
      (n : ℕ) (m : Master) (s : Bench V)
      → IsWhole s
      → HasRoom s.sata
      → IsSteady (suc n) s.clocks
      → (t : Bench V) × (k : ℕ) × (tick V m s ≡ some t)
        × IsWhole t
        × IsSteady n t.clocks
        × (1 < k)
        × (k ≤ edge_in s.clocks.clk)
        × (t.clocks.clk ≡ stepped k s.clocks.clk)
        × (t.inputs.i_clk ≡ wave t.clocks.clk)
  unfolding tick
  tick-IsWhole n m s h room steady =
      let (k, clocks, e, run, left, pos, le, clk, level, _) = IsSteady-tick n s.clocks steady in
      let before = evaluate V m clocks e s in
      let (t, called, whole, same, high) =
        callbacks-IsWhole e before (evaluated m clocks e s h) (unfold evaluate in room) in
      let clocks_at : t.clocks ≡ clocks = unfold evaluate in same in
      let level_at : t.inputs.i_clk ≡ e.i_clk = unfold evaluate in high in
      (
        t,
        k,
        simp (run, called),
        whole,
        rw clocks_at left,
        pos,
        le (edge_in s.clocks.clk) (time_to_edge-eq s.clocks.clk steady.clk.valid),
        ap (λ c. c.clk) clocks_at ∙ clk,
        level_at ∙ level ∙ ap (λ c. wave c.clk) (sym clocks_at),
      )
