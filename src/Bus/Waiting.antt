-- ===== src/Bus/Waiting.antt =====
-- How long the bus master waits, and what it has read or written when its core answers.
use wbsata.Common.{
  ap, ◌≤◌, ◌∙◌, ◌||◌, ◌-◌, arith, ◌+◌, ◌<◌, ◌≡◌, zero, suc, true, false, some, refl,
}
use wbsata.Bus.{
  leb, not, ℕ, Bool, Master, Bus, WbTb, bombcount, tick, wait_while, wait_for_stall, wait_for_ack,
  assert_idle, wb_read, wb_write,
}

pub or_false : (b : Bool) → (b || false) ≡ b
or_false true = refl
or_false false = refl

-- The inputs of a request, those after it is accepted, and those in the end.
abbrev pub reading : ℕ → Master → Master
reading a m = record m { wb_cyc = true; wb_stb = true; wb_we = false; wb_addr = a }

abbrev pub writing : ℕ → ℕ → Master
writing a v = record {
  wb_cyc = true;
  wb_stb = true;
  wb_we = true;
  wb_addr = a;
  wb_data = v;
  wb_sel = 0x0f;
}

abbrev pub accepted : Master → Master
accepted m = record m { wb_stb = false }

abbrev pub released : Master → Master
released m = record m { wb_cyc = false; wb_stb = false }

-- The counter after the wait for a core that stalls for `j` clocks.
abbrev pub stalled : ℕ → ℕ
stalled zero = 0
stalled (suc j) = j + 2

module _ (B : Bus) where
  open B use {Core, wb_stall, wb_ack, wb_word, tick_clk}

  -- From `c` to `d` in `k` clocks with the inputs `m`, each of which starts where the test holds; and
  -- it does not hold at `d`.
  abbrev pub Runs : Master → (Core → Bool) → ℕ → Core → Core → Type 0
  Runs m test zero c d = (d ≡ c) × (test c ≡ false)
  Runs m test (suc k) c d =
      (test c ≡ true) × ((e : Core) × (tick_clk m c ≡ some e) × Runs m test k e d)

  wait_while_lem :
      (test : Core → Bool) (left errcount k : ℕ) (s : WbTb B) (d : Core)
      → Runs s.master test k s.core d
      → k < left
      → wait_while B test left errcount s ≡ some (record s { core = d }, errcount + k + 1)
  unfolding wait_while tick
  wait_while_lem test zero errcount k s d run lt = absurd (omega arith)
  wait_while_lem test (suc left) errcount zero s d (same, stop) lt =
      let e : errcount + 0 + 1 ≡ errcount + 1 = omega arith in simp (stop, e, same)
  wait_while_lem test (suc left) errcount (suc k) s d (go, (e, ticked, run)) lt =
      let later =
        wait_while_lem test left (errcount + 1) k (record s { core = e }) d run (omega arith) in
      let count : errcount + suc k + 1 ≡ errcount + 1 + k + 1 = omega arith in
      rw count (simp (go, ticked) later)

  -- The end of a run.
  Runs-stop :
      (m : Master) (test : Core → Bool) (k : ℕ) (c d : Core) → Runs m test k c d → test d ≡ false
  Runs-stop m test zero c d (same, stop) = rw same stop
  Runs-stop m test (suc k) c d (go, (e, ticked, run)) = Runs-stop m test k e d run

  stalled_bound : (j : ℕ) → j ≤ stalled j
  stalled_bound zero = omega arith
  stalled_bound (suc j) = omega arith

  wait_for_stall_lem :
      (j : ℕ) (s : WbTb B) (d : Core)
      → Runs s.master wb_stall j s.core d
      → j < bombcount
      → wait_for_stall B s ≡ some (record s { core = d }, stalled j)
  unfolding wait_for_stall
  wait_for_stall_lem zero s d (same, stop) lt = simp (stop, same)
  wait_for_stall_lem (suc j) s d run lt =
      let count : 0 + suc j + 1 ≡ j + 2 = omega arith in
      let loop = wait_while_lem wb_stall bombcount 0 (suc j) s d run lt in
      simp (run.0) (loop ∙ ap (λ t. some (record s { core = d }, t)) count)

  wait_for_ack_lem :
      (errcount k : ℕ) (s : WbTb B) (d : Core)
      → Runs s.master (λ c. not (wb_ack c)) k s.core d
      → errcount + k < bombcount
      → wait_for_ack B errcount s ≡ some (record s { core = d }, errcount + k + 1)
  unfolding wait_for_ack
  wait_for_ack_lem errcount k s d run lt =
      wait_while_lem (λ c. not (wb_ack c)) (bombcount - errcount) errcount k s d run (omega arith)

  -- A read of a core that stalls for `j` clocks, accepts, gives its word `k` clocks after the next,
  -- and is idle a clock later: where the clocks waited stay below the limit, `wb_read` returns that
  -- word, has ended the cycle, and has raised no alarm.
  pub wb_read_lem :
      (a j k : ℕ) (s : WbTb B) (c1 c2 c3 c4 : Core)
      → Runs (reading a s.master) wb_stall j s.core c1
      → tick_clk (reading a s.master) c1 ≡ some c2
      → Runs (accepted (reading a s.master)) (λ c. not (wb_ack c)) k c2 c3
      → tick_clk (released (reading a s.master)) c3 ≡ some c4
      → (wb_ack c4 || wb_stall c4) ≡ false
      → stalled j + k + 1 < bombcount
      → wb_read B a s
        ≡ some (
          record { core = c4; master = released (reading a s.master); bomb = s.bomb },
          wb_word c3,
        )
  unfolding wb_read tick assert_idle
  wb_read_lem a j k s c1 c2 c3 c4 stall accept wait last quiet few =
      let s0 : WbTb B = record s { master = reading a s.master } in
      let s2 : WbTb B = record {
        core = c2;
        master = accepted (reading a s.master);
        bomb = s.bomb;
      } in
      let first = wait_for_stall_lem j s0 c1 stall (omega (arith, stalled_bound j)) in
      let second = wait_for_ack_lem (stalled j) k s2 c3 wait (omega arith) in
      let ack : not (wb_ack c3) ≡ false = Runs-stop _ (λ c. not (wb_ack c)) k c2 c3 wait in
      let in_time : leb bombcount (stalled j + k + 1) ≡ false = ground arith in
      simp (first, accept, second, ack, in_time, last, quiet, or_false s.bomb)

  -- A write to a core that stalls for `j` clocks, accepts, and acknowledges `k` clocks after the next:
  -- where the clocks waited stay below the limit, and the core is idle two clocks later, `wb_write`
  -- returns, has ended the cycle, and has raised no alarm.
  pub wb_write_lem :
      (a v j k : ℕ) (s : WbTb B) (c1 c2 c3 c4 c5 : Core)
      → Runs (writing a v) wb_stall j s.core c1
      → tick_clk (writing a v) c1 ≡ some c2
      → Runs (accepted (writing a v)) (λ c. not (wb_ack c)) k c2 c3
      → tick_clk (accepted (writing a v)) c3 ≡ some c4
      → tick_clk (released (writing a v)) c4 ≡ some c5
      → (wb_ack c5 || wb_stall c5) ≡ false
      → stalled j + k + 1 < bombcount
      → wb_write B a v s
        ≡ some (record { core = c5; master = released (writing a v); bomb = s.bomb })
  unfolding wb_write tick assert_idle
  wb_write_lem a v j k s c1 c2 c3 c4 c5 stall accept wait more last quiet few =
      let s0 : WbTb B = record s { master = writing a v } in
      let s2 : WbTb B = record { core = c2; master = accepted (writing a v); bomb = s.bomb } in
      let first = wait_for_stall_lem j s0 c1 stall (omega (arith, stalled_bound j)) in
      let second = wait_for_ack_lem (stalled j) k s2 c3 wait (omega arith) in
      let in_time : leb bombcount (stalled j + k + 1) ≡ false = ground arith in
      simp (first, accept, second, more, in_time, last, quiet, or_false s.bomb)
