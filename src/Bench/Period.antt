-- ===== src/Bench/Period.antt =====
-- `tick_clk` on the whole bench: that its loops end.
use wbsata.Common.{
  sym, ◌∙◌, ==_iff, ap, ◌==◌, Bool-cases, ℕ, zero, suc, ◌+◌, ◌<◌, ◌≡◌, ◌⊎◌, inl, inr, some, arith,
}
use wbsata.Device.Link.Total.{HasRoom}
use wbsata.Clock.Edges.{stepped_fields, wave}
use wbsata.Clock.Edges.{stepped_fields}
use wbsata.Common.{◌≢◌, ap, sym, ◌∙◌, Bool-cases, ==_iff, ◌==◌}
use wbsata.Clock.Period.{wave-lt, edge_in, edge_in_bound, stepped-wave}
use wbsata.Clock.Run.{IsSteady, IsSteady-less}
use wbsata.Bus.{Master}
use wbsata.Bench.{Verilated, Bench, tick, tick_until, tick_clk}
use wbsata.Bench.Tick.{IsWhole, tick-IsWhole}

module _ (V : Verilated) (m : Master) (Runs : Bench V → Type 0)
    (room : (s : Bench V) → Runs s → HasRoom s.sata)
    (stays : (s t : Bench V) → Runs s → tick V m s ≡ some t → Runs t) where
  -- A bench with time for `n` ticks, in phase with its clock, whose half period is below `fuel` ps.
  pub record IsGoing (fuel n : ℕ) (s : Bench V) : Type 0 where
    pub whole : IsWhole V s
    pub steady : IsSteady n s.clocks
    pub phase : s.inputs.i_clk ≡ wave s.clocks.clk
    pub fast : s.clocks.clk.increment_ps < fuel
    pub runs : Runs s

  pub tick-IsGoing :
      (fuel n : ℕ) (s : Bench V)
      → IsGoing fuel (suc n) s
      → (t : Bench V) × (tick V m s ≡ some t)
        × IsGoing fuel n t
        × ((t.inputs.i_clk + s.inputs.i_clk ≡ 1)
            ⊎ ((t.inputs.i_clk ≡ s.inputs.i_clk) × (edge_in t.clocks.clk < edge_in s.clocks.clk)))
  tick-IsGoing fuel n s h =
      let (t, k, run, whole, steady, pos, le, clk, level) =
        tick-IsWhole V n m s h.whole (room s h.runs) h.steady in
      let moved = stepped-wave k s.clocks.clk h.steady.clk.valid pos le in
      let (now, inc) = stepped_fields k s.clocks.clk in
      (
        t,
        run,
        record {
          whole = whole;
          steady = steady;
          phase = level;
          fast = omega (arith, h.fast, inc, ap (λ c. c.increment_ps) clk);
          runs = stays s t h.runs run;
        },
        elim moved [
          | inl (flip, _) ↦ inl (omega (arith, flip, h.phase, level, ap wave clk))
          | inr (same, near) ↦
              inr
                (level ∙ ap wave clk ∙ same ∙ sym h.phase, omega (arith, near, pos, ap edge_in clk))
        ],
      )

  IsGoing-less : (fuel n k : ℕ) (s : Bench V) → IsGoing fuel (k + n) s → IsGoing fuel n s
  IsGoing-less fuel n k s h = record {
    whole = h.whole;
    steady = IsSteady-less n k s.clocks h.steady;
    phase = h.phase;
    fast = h.fast;
    runs = h.runs;
  }

  until_lem :
      (left fuel n level : ℕ) (s : Bench V)
      → IsGoing fuel (left + n) s
      → level < 2
      → 0 < left
      → (s.inputs.i_clk ≡ level) ⊎ (edge_in s.clocks.clk < left)
      → (t : Bench V) × (tick_until V left level m s ≡ some t)
        × IsGoing fuel n t
        × (t.inputs.i_clk ≡ level)
  unfolding tick_until
  until_lem zero fuel n level s h two pos enough = absurd (omega arith)
  until_lem (suc left) fuel n level s h two pos enough =
      elim (Bool-cases (s.inputs.i_clk == level)) [
        | inl there ↦ (s, simp there, IsGoing-less fuel n (suc left) s h, (==_iff _ _).0 there)
        | inr away ↦
            let count : suc left + n ≡ suc (left + n) = omega arith in
            let (u, run, going, moved) = tick-IsGoing fuel (left + n) s (rw (← count) h) in
            let two_levels : s.inputs.i_clk < 2 = rw h.phase (wave-lt s.clocks.clk) in
            let differ : s.inputs.i_clk ≢ level = λ e. cc (sym away ∙ (==_iff _ _).1 e) in
            let ahead = edge_in_bound s.clocks.clk h.steady.clk.valid in
            let soon : edge_in s.clocks.clk < suc left = elim enough [
              | inl e ↦ absurd (differ e)
              | inr lt ↦ lt
            ] in
            let later : 0 < left = omega (arith, soon, ahead) in
            let near : (u.inputs.i_clk ≡ level) ⊎ (edge_in u.clocks.clk < left) = elim moved [
              | inl flip ↦ inl (omega (arith, flip, differ, two, two_levels))
              | inr (same, nearer) ↦ inr (omega (arith, nearer, soon))
            ] in
            let (t, rest, over, at) = until_lem left fuel n level u going two later near in
            (t, simp (away, run) rest, over, at)
      ]

  -- `tick_clk` returns: on a bench that ticks keep, and keep with room in its device, in phase with its
  -- clock, and with time for two times `fuel` ticks, where `fuel` is above the clock's half period in
  -- ps, both loops end within `fuel` ticks, and the core's clock is low.
  pub tick_clk-IsGoing :
      (fuel n : ℕ) (s : Bench V)
      → IsGoing fuel (fuel + (fuel + n)) s
      → (t : Bench V) × (tick_clk V fuel m s ≡ some t) × IsGoing fuel n t × (t.inputs.i_clk ≡ 0)
  unfolding tick_clk
  tick_clk-IsGoing fuel n s h =
      let at_s = edge_in_bound s.clocks.clk h.steady.clk.valid in
      let fast_s = h.fast in
      let (u, run1, going, high) =
        until_lem fuel fuel (fuel + n) 1 s h (omega arith) (omega arith) (inr (omega arith)) in
      let at_u = edge_in_bound u.clocks.clk going.steady.clk.valid in
      let fast_u = going.fast in
      let (t, run2, over, low) =
        until_lem fuel fuel n 0 u going (omega arith) (omega arith) (inr (omega arith)) in
      (t, simp (run1, run2), over, low)
