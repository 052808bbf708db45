-- ===== src/Bench/Steps.antt =====
-- The callbacks that a tick of the bench makes, one after the other.
use mathlib.Core.Option.{some-injective}
use wbsata.Common.{◌≡◌, sym, ◌⊎◌, inl, inr, some, Bool-cases, Option-cases, if◌then◌else◌}
use wbsata.Clock.Tick.{Clocks, Edges, tick as tick_clocks}
use wbsata.Bus.{Master}
use wbsata.Bench.{
  Verilated, Bench, deploy_test_data, sim_rx_clk_tick, sim_tx_clk_tick, evaluate, callbacks, tick,
}

module _ (V : Verilated) where
  -- Each callback is made, or not.
  pub record IsCalled (s t : Bench V) : Type 0 where
    pub first : Bench V
    pub second : Bench V
    pub memory : (deploy_test_data V s ≡ some first) ⊎ (first ≡ s)
    pub receive : (sim_rx_clk_tick V first ≡ some second) ⊎ (second ≡ first)
    pub transmit : (t ≡ sim_tx_clk_tick V second) ⊎ (t ≡ second)

  callbacks-IsCalled : (e : Edges) (s t : Bench V) → callbacks V e s ≡ some t → IsCalled s t
  unfolding callbacks
  callbacks-IsCalled e s t run =
      elim (Option-cases (if e.sim_clk then deploy_test_data V s else some s)) [
        | inl fault ↦ absurd (cc (rw fault at run))
        | inr (s1, one) ↦
            elim (Option-cases (if e.sim_rx_clk then sim_rx_clk_tick V s1 else some s1)) [
              | inl fault ↦ absurd (cc (rw (one, fault) at run))
              | inr (s2, two) ↦
                  let end = sym (some-injective _ t (rw (one, two) at run)) in
                  record {
                    first = s1;
                    second = s2;
                    memory = elim (Bool-cases e.sim_clk) [
                      | inl fell ↦ inl (rw fell at one)
                      | inr held ↦ inr (sym (some-injective s s1 (rw held at one)))
                    ];
                    receive = elim (Bool-cases e.sim_rx_clk) [
                      | inl fell ↦ inl (rw fell at two)
                      | inr held ↦ inr (sym (some-injective s1 s2 (rw held at two)))
                    ];
                    transmit = elim (Bool-cases e.sim_tx_clk) [
                      | inl fell ↦ inl (rw fell at end)
                      | inr held ↦ inr (rw held at end)
                    ];
                  }
            ]
      ]

  -- A tick evaluates the core and makes the callbacks.
  pub tick-IsCalled :
      (m : Master) (s t : Bench V)
      → tick V m s ≡ some t
      → (clocks : Clocks) × (e : Edges) × IsCalled (evaluate V m clocks e s) t
  unfolding tick
  tick-IsCalled m s t run = elim (Option-cases (tick_clocks s.clocks)) [
    | inl fault ↦ absurd (cc (rw fault at run))
    | inr ((clocks, e), got) ↦
        (clocks, e, callbacks-IsCalled e (evaluate V m clocks e s) t (rw got at run))
  ]
