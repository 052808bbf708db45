-- ===== src/Bench/Boot.antt =====
-- The ticks of the bench in which its device still sends ALIGNs, whatever the core does.
use mathlib.Core.Path.{subst}
use mathlib.Core.Option.{some-injective}
use wbsata.Device.Phy.{handshake, tx_clock}
use wbsata.Common.{
  ℕ, suc, ◌+◌, ◌≤◌, ◌≡◌, refl, sym, ◌⊎◌, inl, inr, some, true, false, Bool, Bool-cases,
  Option-cases, arith, ap,
}
use wbsata.Device.State.{SataSim, send_align, idle, set_oob_done}
use wbsata.Device.Phy.{
  handshake, process_tx_signals, process_oob, detect_coms, send_cominit, send_comwake,
}
use wbsata.Device.Link.{link_layer_model, link_case}
use wbsata.Device.Link.Total.{HasRoom}
use wbsata.Clock.Run.{IsSteady}
use wbsata.Memory.{apply}
use wbsata.Bus.{Master}
use wbsata.Bench.{
  tx_clock, Verilated, Bench, deploy_test_data, sim_rx_clk_tick, sim_tx_clk_tick, tx_signals,
  with_rx, evaluate, tick,
}
use wbsata.Bench.Steps.{IsCalled, tick-IsCalled}
use wbsata.Bench.Tick.{IsWhole, tick-IsWhole}

-- A device that leaves room for `n` more calls: at most 101 after the ALIGNs begin, so that it does
-- not yet send or hear a frame before any of them.
pub IsBooting : ℕ → SataSim → Type 0
IsBooting n d =
    ((d.link_state ≡ send_align) × (d.align_cnt + n ≤ 101))
    ⊎ ((d.link_state ≡ idle) × (n ≤ 1))
    ⊎ (n ≡ 0)

pub first-IsBooting : (d : SataSim) → d.link_state ≡ send_align → d.align_cnt ≡ 0 → IsBooting 101 d
unfolding IsBooting
first-IsBooting d at count = inl (at, omega arith)

pub IsBooting-HasRoom : (n : ℕ) (d : SataSim) → IsBooting (suc n) d → HasRoom d
unfolding IsBooting
IsBooting-HasRoom n d (inl (at, le)) = record { sector = λ st read. cc; space = λ st. cc }
IsBooting-HasRoom n d (inr (inl (at, le))) = record { sector = λ st read. cc; space = λ st. cc }
IsBooting-HasRoom n d (inr (inr none_left)) = absurd (omega arith)

-- What keeps the state and the count of the link layer.
IsBooting-same :
    (n : ℕ) (d e : SataSim)
    → e.link_state ≡ d.link_state
    → e.align_cnt ≡ d.align_cnt
    → IsBooting n d
    → IsBooting n e
unfolding IsBooting
IsBooting-same n d e st count h = ground (arith, h)

IsBooting-less : (n : ℕ) (d : SataSim) → IsBooting (suc n) d → IsBooting n d
unfolding IsBooting
IsBooting-less n d h = ground (arith, h)

aligned :
    (n : ℕ) (d e : SataSim)
    → d.link_state ≡ send_align
    → d.align_cnt + suc n ≤ 101
    → link_case send_align d ≡ some e
    → IsBooting n e
unfolding IsBooting link_case
aligned n d e at le run = ground arith

link-IsBooting :
    (n : ℕ) (d e : SataSim) → IsBooting (suc n) d → link_layer_model d ≡ some e → IsBooting n e
unfolding link_layer_model IsBooting
link-IsBooting n d e h run = elim (Bool-cases d.oob_done) [
  | inl up ↦ elim h [
    | inl (at, le) ↦
        let case_run : link_case d.link_state d ≡ some e = ground arith in
        aligned n d e at le (subst (λ st. link_case st d ≡ some e) at case_run)
    | inr (inl (at, le)) ↦ inr (inr (omega arith))
    | inr (inr z) ↦ absurd (omega arith)
  ]
  | inr down ↦ let same : d ≡ e = ground arith in subst (IsBooting n) same (IsBooting-less n d h)
]

oob_fields :
    (d : SataSim)
    → ((set_oob_done (process_oob d).1 (process_oob d).0).link_state ≡ d.link_state)
      × ((set_oob_done (process_oob d).1 (process_oob d).0).align_cnt ≡ d.align_cnt)
unfolding set_oob_done process_oob detect_coms send_cominit send_comwake
oob_fields d = ground arith

module _ (V : Verilated) where
  rx-IsBooting :
      (n : ℕ) (s t : Bench V)
      → IsBooting (suc n) s.sata
      → sim_rx_clk_tick V s ≡ some t
      → IsBooting n t.sata
  unfolding sim_rx_clk_tick with_rx
  rx-IsBooting n s t h run = elim (Option-cases (link_layer_model s.sata)) [
    | inl fault ↦ absurd (cc (rw fault at run))
    | inr (d, got) ↦
        let same = some-injective _ t (rw got at run) in
        subst (λ b. IsBooting n b.sata) same (link-IsBooting n s.sata d h got)
  ]

  tx-IsBooting : (n : ℕ) (s : Bench V) → IsBooting n s.sata → IsBooting n (sim_tx_clk_tick V s).sata
  unfolding sim_tx_clk_tick tx_clock handshake process_tx_signals
  tx-IsBooting n s h = go (V.outputs s.state).o_lnk_ready
    where
      go :
          (ready : Bool)
          → IsBooting n (process_tx_signals (tx_signals V s) (handshake ready s.sata)).0
      go true = IsBooting-same n s.sata _ refl refl h
      go false = let (st, count) = oob_fields s.sata in IsBooting-same n s.sata _ st count h

  deploy-same : (s t : Bench V) → deploy_test_data V s ≡ some t → t.sata ≡ s.sata
  unfolding deploy_test_data
  deploy-same s t run =
      elim (Option-cases (apply (V.random s.draws) (V.outputs s.state).o_dma s.mem)) [
        | inl fault ↦ absurd (cc (rw fault at run))
        | inr ((mem, a), got) ↦ sym (ap (λ b. b.sata) (some-injective _ t (rw got at run)))
      ]

  called-IsBooting :
      (n : ℕ) (s t : Bench V) → IsCalled V s t → IsBooting (suc n) s.sata → IsBooting n t.sata
  called-IsBooting n s t c h = elim c.transmit [
    | inl sends ↦ rw sends (tx-IsBooting n c.second second)
    | inr quiet ↦ rw quiet second
  ]
    where
      first : IsBooting (suc n) c.first.sata
      first = elim c.memory [
        | inl deployed ↦ subst (IsBooting (suc n)) (sym (deploy-same s c.first deployed)) h
        | inr same ↦ rw same h
      ]

      second : IsBooting n c.second.sata
      second = elim c.receive [
        | inl received ↦ rx-IsBooting n c.first c.second first received
        | inr same ↦ rw same (IsBooting-less n c.first.sata first)
      ]

  tick-IsBooting :
      (n : ℕ) (m : Master) (s t : Bench V)
      → IsBooting (suc n) s.sata
      → tick V m s ≡ some t
      → IsBooting n t.sata
  tick-IsBooting n m s t h run =
      let (clocks, e, called) = tick-IsCalled V m s t run in
      called-IsBooting n (evaluate V m clocks e s) t called (unfold evaluate in h)

  -- A whole bench with steady clocks, with time for `n + k` ticks and a device that leaves room for `n`.
  pub record IsBootable (n k : ℕ) (s : Bench V) : Type 0 where
    pub whole : IsWhole V s
    pub steady : IsSteady (n + k) s.clocks
    pub booting : IsBooting n s.sata

  pub tick-IsBootable :
      (n k : ℕ) (m : Master) (s : Bench V)
      → IsBootable (suc n) k s
      → (t : Bench V) × (tick V m s ≡ some t) × IsBootable n k t
  tick-IsBootable n k m s h =
      let count : suc n + k ≡ suc (n + k) = omega arith in
      let (t, _, run, whole, steady, _, _, _, _) =
        tick-IsWhole V (n + k) m s h.whole (IsBooting-HasRoom n s.sata h.booting)
          (rw count at h.steady) in
      (
        t,
        run,
        record { whole = whole; steady = steady; booting = tick-IsBooting n m s t h.booting run },
      )
