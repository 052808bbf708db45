-- ===== src/Clock/Steady.antt =====
-- One call of `TESTB::tick`, bench/cpp/testb.h, on three clocks with time to spare before 2 ^ 64 ps.
use wbsata.Common.{◌≤◌, ◌⊎◌, refl, arith, ◌*◌, ◌+◌, ◌≡◌, ◌^◌, ◌<◌, ◌%◌}
use wbsata.Clock.Edges.{IsValid, time_to_edge_lem, stepped, wave, advance_lem}
use wbsata.Clock.Tick.{Clocks, Edges, least, min_time, advance_clocks, tick}
use wbsata.Clock.{true, ltb, u32, u64, some, ◌%◌, ℕ, TbClock, time_to_edge, advance, falling_edge}

-- A valid clock with a half period below 2 ^ 31 ps, and time for two more periods.
pub record IsRunning (c : TbClock) : Type 0 where
  pub valid : IsValid c
  pub short : c.increment_ps < 2 ^ 31
  pub time : c.now_ps + 4 * c.increment_ps < 2 ^ 64

-- The smallest of three.
pub min3 : ℕ → ℕ → ℕ → ℕ
min3 a b c = least c (least b a)

u32-small : (n : ℕ) → n < 2 ^ 32 → u32 n ≡ n
u32-small n h = omega arith

least-bound : (a b n : ℕ) → a < n → b < n → least a b < n
unfolding least
least-bound a b n h i = ground arith

min_time_lem :
    (t : Clocks) (a b c : ℕ)
    → time_to_edge t.clk ≡ some a
    → time_to_edge t.rx ≡ some b
    → time_to_edge t.tx ≡ some c
    → a < 2 ^ 31
    → b < 2 ^ 31
    → c < 2 ^ 31
    → min_time t ≡ some (min3 a b c)
unfolding min_time min3
min_time_lem t a b c e f g h i j = simp (
  e,
  f,
  g,
  u32-small a (omega arith),
  u32-small (least b a) (omega (arith, least-bound b a (2 ^ 31) i h)),
  u32-small (least c (least b a))
      (omega (arith, least-bound c (least b a) (2 ^ 31) j (least-bound b a (2 ^ 31) i h))),
)

advance_clocks_lem :
    (m : ℕ) (t : Clocks)
    → advance m t.clk ≡ some (stepped m t.clk, wave (stepped m t.clk))
    → advance m t.rx ≡ some (stepped m t.rx, wave (stepped m t.rx))
    → advance m t.tx ≡ some (stepped m t.tx, wave (stepped m t.tx))
    → (e : Edges) × (advance_clocks m t
        ≡ some (
          record {
            clk = stepped m t.clk;
            rx = stepped m t.rx;
            tx = stepped m t.tx;
            time_ps = u64 (t.time_ps + m);
          },
          e,
        ))
      × (e.i_clk ≡ wave (stepped m t.clk))
      × (e.i_rxphy_clk ≡ wave (stepped m t.rx))
      × (e.i_txphy_clk ≡ wave (stepped m t.tx))
      × (e.sim_clk ≡ falling_edge (stepped m t.clk))
      × (e.sim_rx_clk ≡ falling_edge (stepped m t.rx))
      × (e.sim_tx_clk ≡ falling_edge (stepped m t.tx))
unfolding advance_clocks
advance_clocks_lem m t e f g = (_, simp (e, f, g), refl, refl, refl, refl, refl, refl)

-- The time to the next edge of a clock at an even time is even, so at least 2 ps.
pub to_edge :
    (c : TbClock)
    → IsRunning c
    → (d : ℕ) × (time_to_edge c ≡ some d)
      × (0 < d)
      × (d < 2 ^ 31)
      × (((c.now_ps + d ≡ c.last_posedge_ps + c.increment_ps)
          ⊎ (c.now_ps + d ≡ c.last_posedge_ps + 2 * c.increment_ps)))
      × (d ≤ c.increment_ps)
to_edge c h =
    let (d, e, pos, le, at) = time_to_edge_lem c h.valid in (d, e, pos, omega arith, at, le)

pub edge_is_even :
    (c : TbClock) (d : ℕ)
    → IsRunning c
    → (c.now_ps + d ≡ c.last_posedge_ps + c.increment_ps)
      ⊎ (c.now_ps + d ≡ c.last_posedge_ps + 2 * c.increment_ps)
    → (c.now_ps + d) % 2 ≡ 0
edge_is_even c d h at = ground arith

min3-bounds :
    (a b c : ℕ)
    → (min3 a b c ≤ a)
      × (min3 a b c ≤ b)
      × (min3 a b c ≤ c)
      × ((min3 a b c ≡ a) ⊎ (min3 a b c ≡ b) ⊎ (min3 a b c ≡ c))
unfolding min3 least
min3-bounds a b c = ground arith

-- Where every clock is valid, its half period below 2 ^ 31 ps and its time 4 half periods short of
-- 2 ^ 64, and the next edge is more than 1 ps away on each, no assertion of `tick` fails. The three
-- clocks and the time advance by one amount, the smallest time to an edge, so that no clock passes
-- an edge and one of them arrives at its own; the levels are those of the clocks' waves, and the
-- callbacks those of the clocks at their falling edges.
pub tick_lem :
    (t : Clocks) (a b c : ℕ)
    → IsRunning t.clk
    → IsRunning t.rx
    → IsRunning t.tx
    → time_to_edge t.clk ≡ some a
    → time_to_edge t.rx ≡ some b
    → time_to_edge t.tx ≡ some c
    → 1 < a
    → 1 < b
    → 1 < c
    → (m : ℕ) × (e : Edges) × (tick t
        ≡ some (
          record {
            clk = stepped m t.clk;
            rx = stepped m t.rx;
            tx = stepped m t.tx;
            time_ps = u64 (t.time_ps + m);
          },
          e,
        ))
      × (m ≤ a)
      × (m ≤ b)
      × (m ≤ c)
      × ((m ≡ a) ⊎ (m ≡ b) ⊎ (m ≡ c))
      × (e.i_clk ≡ wave (stepped m t.clk))
      × (e.i_rxphy_clk ≡ wave (stepped m t.rx))
      × (e.i_txphy_clk ≡ wave (stepped m t.tx))
      × (e.sim_clk ≡ falling_edge (stepped m t.clk))
      × (e.sim_rx_clk ≡ falling_edge (stepped m t.rx))
      × (e.sim_tx_clk ≡ falling_edge (stepped m t.tx))
unfolding tick
tick_lem t a b c hc hr ht ea eb ec la lb lc =
    let (a', ea', _, ab, _, ainc) = to_edge t.clk hc in
    let (b', eb', _, bb, _, binc) = to_edge t.rx hr in
    let (c', ec', _, cb, _, cinc) = to_edge t.tx ht in
    let sa : a < 2 ^ 31 = ground arith in
    let sb : b < 2 ^ 31 = ground arith in
    let sc : c < 2 ^ 31 = ground arith in
    let (ma, mb, mc, one) = min3-bounds a b c in
    let m = min3 a b c in
    let small : ltb 1 (min3 a b c) ≡ true = ground arith in
    let (e, adv, r1, r2, r3, r4, r5, r6) =
      advance_clocks_lem m t (advance_lem m a t.clk hc.valid ea ma (ground arith))
        (advance_lem m b t.rx hr.valid eb mb (ground arith))
        (advance_lem m c t.tx ht.valid ec mc (ground arith)) in
    (
      m,
      e,
      simp (min_time_lem t a b c ea eb ec sa sb sc, small, adv),
      ma,
      mb,
      mc,
      one,
      r1,
      r2,
      r3,
      r4,
      r5,
      r6,
    )
