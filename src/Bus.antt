-- ===== src/Bus.antt =====
-- The Wishbone master of bench/cpp/wb_tb.h: `wb_read`, `wb_write` and their block forms, over any
-- core. `none` is an assertion that fails, a `TICK` that does not return, or an access outside the
-- caller's buffer. An error counter never leaves the range of an `int`.
pub mod Waiting
pub mod Registers
pub mod Bounds
pub mod Blocks
use wbsata.Common.{ℕ, zero, suc, ◌+◌, ◌-◌, ◌*◌, bit_and, u32}
use wbsata.Common.{Bool, true, false, not, ◌&&◌, ◌||◌, Option, none, some, ◌>>=◌}
use wbsata.Common.{List, [], ◌∷◌, length, set, ltb, leb, if◌then◌else◌}

-- The inputs of the core's bus.
pub record Master : Type 0 where
  pub wb_cyc : Bool
  pub wb_stb : Bool
  pub wb_we : Bool
  pub wb_addr : ℕ
  pub wb_data : ℕ
  pub wb_sel : ℕ

-- The core as its bus sees it: its outputs, and `tick_clk`, which runs the bench to the next falling
-- edge of the bus clock while the inputs stay.
pub record Bus : Type 1 where
  pub Core : Type 0
  pub wb_stall : Core → Bool
  pub wb_ack : Core → Bool
  pub wb_word : Core → ℕ
  pub tick_clk : Master → Core → Option Core

abbrev pub bombcount : ℕ
bombcount = 32

module _ (B : Bus) where
  open B use {Core, wb_stall, wb_ack, wb_word, tick_clk}

  -- The members of `WB_TB` and of its core.
  pub record WbTb : Type 0 where
    pub core : Core
    pub master : Master
    pub bomb : Bool

  unfoldable pub tick : WbTb → Option WbTb
  tick s = do core ← tick_clk s.master s.core; some (record s { core = core })

  -- `while((errcount++ < BOMBCOUNT)&&(test)) TICK();`, with `left` rounds before BOMBCOUNT; and the
  -- counter after it.
  unfoldable pub wait_while : (Core → Bool) → ℕ → ℕ → WbTb → Option (WbTb × ℕ)
  unfolding tick
  wait_while test zero errcount s = some (s, errcount + 1)
  wait_while test (suc left) errcount s =
      let rest = tick s >>= wait_while test left (errcount + 1) in
      if test s.core then rest else some (s, errcount + 1)

  -- The request that is not accepted while the core stalls.
  unfoldable pub wait_for_stall : WbTb → Option (WbTb × ℕ)
  wait_for_stall s = if wb_stall s.core then wait_while wb_stall bombcount 0 s else some (s, 0)

  unfoldable pub wait_for_ack : ℕ → WbTb → Option (WbTb × ℕ)
  wait_for_ack errcount s = wait_while (λ c. not (wb_ack c)) (bombcount - errcount) errcount s

  -- The bus is idle in the end.
  unfoldable pub assert_idle : WbTb → Option WbTb
  assert_idle s = if wb_ack s.core || wb_stall s.core then none else some s

  unfoldable pub wb_read : ℕ → WbTb → Option (WbTb × ℕ)
  unfolding tick assert_idle
  wb_read a s0 = do
    let reading = record s0.master { wb_cyc = true; wb_stb = true; wb_we = false; wb_addr = a }
    (s1, stalled) ← wait_for_stall (record s0 { master = reading })
    s2 ← tick s1
    (s3, errcount) ← wait_for_ack stalled (record s2 { master = record reading { wb_stb = false } })
    let released = record reading { wb_cyc = false; wb_stb = false }
    let failed = leb bombcount errcount || not (wb_ack s3.core)
    s4 ← tick (record s3 { master = released; bomb = s3.bomb || failed })
    s5 ← assert_idle s4
    some (s5, wb_word s3.core)

  unfoldable pub wb_write : ℕ → ℕ → WbTb → Option WbTb
  unfolding tick assert_idle
  wb_write a v s0 = do
    let writing : Master = record {
      wb_cyc = true;
      wb_stb = true;
      wb_we = true;
      wb_addr = a;
      wb_data = v;
      wb_sel = 0x0f;
    }
    (s1, stalled) ← wait_for_stall (record s0 { master = writing })
    s2 ← tick s1
    (s3, errcount) ← wait_for_ack stalled (record s2 { master = record writing { wb_stb = false } })
    s4 ← tick s3
    let released = record writing { wb_cyc = false; wb_stb = false }
    s5 ← tick (record s4 { master = released; bomb = s4.bomb || leb bombcount errcount })
    assert_idle s5
