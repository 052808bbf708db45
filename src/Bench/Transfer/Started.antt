-- ===== src/Bench/Transfer/Started.antt =====
-- The start of the test bench: its constructors, and `SATA_TB::reset_controller`.
use wbsata.Common.{
  replicate, ℕ, zero, suc, ◌+◌, ◌*◌, ◌^◌, ◌≤◌, ◌≡◌, refl, true, false, Option, some, List, ◌∙◌,
  arith,
}
use wbsata.Device.State.{new, reset}
use wbsata.Device.Link.Reach.{begin, next, restart}
use wbsata.Memory.Apply.{new-IsValid}
use wbsata.Clock
use wbsata.Clock.Edges.{wave}
use wbsata.Clock.Run.{IsSteady, started-IsSteady}
use wbsata.Bench.{Bench, Verilated, set_reset}
use wbsata.Bench.Tick.{IsWhole}
use wbsata.Bench.Boot.{IsBooting, first-IsBooting, IsBootable, tick-IsBootable}
use wbsata.Bench.Transfer.{
  SataTb, first_inputs, first_master, tick_tb, wait, with_sata, with_reset, reset_controller,
  create,
}

module _ (V : Verilated) (fuel : ℕ) where
  -- The core of the bench has time, and room, for `n` ticks, and time for `k` more.
  abbrev IsReady : ℕ → ℕ → SataTb V fuel → Type 0
  IsReady n k s = IsBootable V n k s.tb.core

  tick_tb-IsReady :
      (n k : ℕ) (s : SataTb V fuel)
      → IsReady (suc n) k s
      → (t : SataTb V fuel) × (tick_tb V fuel s ≡ some t) × IsReady n k t × (t.disk ≡ s.disk)
  unfolding tick_tb
  tick_tb-IsReady n k s h =
      let (core, run, ready) = tick-IsBootable V n k s.tb.master s.tb.core h in
      (record s { tb = record s.tb { core = core } }, simp run, ready, refl)

  wait-IsReady :
      (n j k : ℕ) (s : SataTb V fuel)
      → IsReady (n + j) k s
      → (t : SataTb V fuel) × (wait V fuel n s ≡ some t) × IsReady j k t × (t.disk ≡ s.disk)
  unfolding wait
  wait-IsReady zero j k s h = let count : 0 + j ≡ j = omega arith in (s, refl, rw count at h, refl)
  wait-IsReady (suc n) j k s h =
      let count : suc n + j ≡ suc (n + j) = omega arith in
      let (u, run, hu, du) = tick_tb-IsReady (n + j) k s (rw count at h) in
      let (t, rest, ht, dt) = wait-IsReady n j k u hu in (t, simp (run, rest), ht, dt ∙ du)

  reset_controller-IsReady :
      (n : ℕ) (s : SataTb V fuel)
      → IsWhole V s.tb.core
      → IsSteady (101 + n) s.tb.core.clocks
      → IsBooting 101 (reset s.tb.core.sata)
      → (t : SataTb V fuel) × (reset_controller V fuel s ≡ some t)
        × IsReady 0 n t
        × (t.disk ≡ s.disk)
  unfolding reset_controller with_sata with_reset set_reset
  reset_controller-IsReady n s whole steady booting =
      let s1 = with_reset V fuel true (with_sata V fuel (reset s.tb.core.sata) s) in
      let (u, waited, hu, du) = wait-IsReady 100 1 n s1 (record {
        whole = record {
          device = next whole.device (restart s.tb.core.sata);
          memory = whole.memory;
        };
        steady = steady;
        booting = booting;
      }) in
      let (t, last, ht, dt) = tick_tb-IsReady 0 n (with_reset V fuel false u) (record {
        whole = record { device = hu.whole.device; memory = hu.whole.memory };
        steady = hu.steady;
        booting = hu.booting;
      }) in
      (t, simp (waited, last), ht, dt ∙ du)

  -- The new device, reset, has room for 101 calls.
  reset-IsBooting : IsBooting 101 (reset new)
  unfolding reset new
  reset-IsBooting = first-IsBooting (reset new) refl refl

  -- The constructors of the bench end.
  pub create_lem :
      (n : ℕ) (state : V.State) (disk : Option (List ℕ))
      → n ≤ 2 ^ 32
      → (s : SataTb V fuel) × (create V fuel state disk ≡ some s)
        × (s.tb.core.sata ≡ new)
        × (wave s.tb.core.clocks.clk ≡ s.tb.core.inputs.i_clk)
        × (s.tb.core.clocks.clk.increment_ps ≤ 5000)
        × (1024 * 1024 ≤ s.tb.core.mem.len)
        × (s.tb.core.mem.mem ≡ replicate s.tb.core.mem.len 0)
        × (s.disk ≡ disk)
        × IsWhole V s.tb.core
        × IsSteady (suc n) s.tb.core.clocks
  unfolding create
  create_lem n state disk few =
      let (clocks, start, steady, fast, low, _) =
        started-IsSteady 10000 26666 26668 n
          (record { clk = Clock.new; rx = Clock.new; tx = Clock.new; time_ps = 0 }) (omega arith)
          (omega arith) (omega arith) (omega arith) (omega arith) (omega arith) few in
      let (mem, made, valid, size, empty) =
        new-IsValid (1024 * 1024) 10 (omega arith) (omega arith) in
      let core : Bench V = record {
        inputs = first_inputs;
        state = state;
        clocks = clocks;
        sata = new;
        mem = mem;
        draws = 0;
      } in
      (
        record { tb = record { core = core; master = first_master; bomb = false }; disk = disk },
        simp (start, made),
        refl,
        low,
        omega (arith, fast),
        size,
        empty,
        refl,
        record { device = begin; memory = valid },
        steady,
      )

  -- Whatever the core does, and whatever it starts from, the constructors of the bench end: the device
  -- is new, the system clock is low, with a half period of at most 5000 ps, and the memory has at least 1 MB,
  -- is valid and is empty. `reset_controller` then ends too, its 101 ticks failing no assertion: it
  -- leaves a device that calls can lead to, a valid memory and clocks with time for `n` more ticks, for any
  -- `n` up to 2 ^ 31, and keeps the disk image.
  pub reset_controller-create :
      (n : ℕ) (state : V.State) (disk : Option (List ℕ))
      → n ≤ 2 ^ 31
      → (s : SataTb V fuel) × (t : SataTb V fuel) × (create V fuel state disk ≡ some s)
        × (s.tb.core.sata ≡ new)
        × (wave s.tb.core.clocks.clk ≡ s.tb.core.inputs.i_clk)
        × (s.tb.core.clocks.clk.increment_ps ≤ 5000)
        × (1024 * 1024 ≤ s.tb.core.mem.len)
        × (s.tb.core.mem.mem ≡ replicate s.tb.core.mem.len 0)
        × (reset_controller V fuel s ≡ some t)
        × IsWhole V t.tb.core
        × IsSteady n t.tb.core.clocks
        × (t.disk ≡ disk)
  reset_controller-create n state disk few =
      let (s, made, fresh, low, fast, size, empty, image, whole, steady) =
        create_lem (100 + n) state disk (omega arith) in
      let count : suc (100 + n) ≡ 101 + n = omega arith in
      let (t, run, ht, same) =
        reset_controller-IsReady n s whole (rw count at steady) (rw fresh reset-IsBooting) in
      let none_left : 0 + n ≡ n = omega arith in
      (
        s,
        t,
        made,
        fresh,
        low,
        fast,
        size,
        empty,
        run,
        ht.whole,
        rw none_left at ht.steady,
        same ∙ image,
      )
