-- ===== src/Clock/Run.antt =====
-- Any number of calls of `TESTB::tick` in a row.
use wbsata.Common.{◌/◌, refl, ◌*◌, ◌+◌, ◌≤◌, ◌≡◌, ◌^◌, suc, arith, ◌<◌, ◌%◌}
use wbsata.Clock.Edges.{
  IsValid, init-IsValid, time_to_edge_lem, wave, stepped, stepped-IsValid, stepped_fields,
}
use wbsata.Clock.Tick.{Clocks, Edges, tick, started}
use wbsata.Clock.Steady.{IsRunning, to_edge, edge_is_even, tick_lem}
use wbsata.Common.{zero, ◌>>=◌}
use wbsata.Clock.{u64, some, ◌%◌, Option, ℕ, TbClock, time_to_edge, init}

unfoldable pub tick_n : ℕ → Clocks → Option Clocks
unfolding tick
tick_n zero t = some t
tick_n (suc n) t = do (t', _) ← tick t; tick_n n t'

-- A valid clock, with a half period below 2 ^ 31 ps, with time for `n` ticks before 2 ^ 64 ps.
pub record HasTime (n : ℕ) (c : TbClock) : Type 0 where
  pub valid : IsValid c
  pub short : c.increment_ps < 2 ^ 31
  pub time : c.now_ps + (n + 4) * 2 ^ 31 < 2 ^ 64

-- Three clocks at times of one parity, with time for `n` ticks, none of them within 1 ps of its next
-- edge.
pub record IsSteady (n : ℕ) (t : Clocks) : Type 0 where
  pub clk : HasTime n t.clk
  pub rx : HasTime n t.rx
  pub tx : HasTime n t.tx
  pub parity_rx : t.clk.now_ps % 2 ≡ t.rx.now_ps % 2
  pub parity_tx : t.clk.now_ps % 2 ≡ t.tx.now_ps % 2
  pub apart_clk : (d : ℕ) → time_to_edge t.clk ≡ some d → 1 < d
  pub apart_rx : (d : ℕ) → time_to_edge t.rx ≡ some d → 1 < d
  pub apart_tx : (d : ℕ) → time_to_edge t.tx ≡ some d → 1 < d

HasTime-less : (n k : ℕ) (c : TbClock) → HasTime (k + n) c → HasTime n c
HasTime-less n k c h = record {
  valid = h.valid;
  short = h.short;
  time = let t = h.time in omega arith;
}

-- Time for more ticks is time for fewer.
pub IsSteady-less : (n k : ℕ) (t : Clocks) → IsSteady (k + n) t → IsSteady n t
IsSteady-less n k t h = record {
  clk = HasTime-less n k t.clk h.clk;
  rx = HasTime-less n k t.rx h.rx;
  tx = HasTime-less n k t.tx h.tx;
  parity_rx = h.parity_rx;
  parity_tx = h.parity_tx;
  apart_clk = h.apart_clk;
  apart_rx = h.apart_rx;
  apart_tx = h.apart_tx;
}

HasTime-IsRunning : (n : ℕ) (c : TbClock) → HasTime n c → IsRunning c
HasTime-IsRunning n c h = record {
  valid = h.valid;
  short = h.short;
  time = let s = h.short in let t = h.time in omega arith;
}

stepped-HasTime :
    (n m d : ℕ) (c : TbClock)
    → HasTime (suc n) c
    → time_to_edge c ≡ some d
    → m ≤ d
    → HasTime n (stepped m c)
stepped-HasTime n m d c h e le =
    let (d', e', _, small, _, _) = to_edge c (HasTime-IsRunning (suc n) c h) in
    let (now, inc) = stepped_fields m c in
    let s = h.short in
    let t = h.time in
    let ms : m < 2 ^ 31 = ground arith in
    record {
      valid = stepped-IsValid m d c h.valid e le (omega arith);
      short = omega (arith, inc);
      time = omega (arith, now);
    }

even_at : (c : TbClock) (d : ℕ) → IsRunning c → time_to_edge c ≡ some d → (c.now_ps + d) % 2 ≡ 0
even_at c d r e =
    let (d', e', _, _, at, _) = to_edge c r in let even = edge_is_even c d' r at in ground arith

even_edge_apart :
    (n : ℕ) (c : TbClock) (d : ℕ) → HasTime n c → c.now_ps % 2 ≡ 0 → time_to_edge c ≡ some d → 1 < d
even_edge_apart n c d h even e =
    let r = HasTime-IsRunning n c h in
    let at = even_at c d r e in let (d', e', pos, _, _) = time_to_edge_lem c h.valid in ground arith

-- Clocks at even times are steady: their edges are at even times too.
pub even-IsSteady :
    (n : ℕ) (t : Clocks)
    → HasTime n t.clk
    → HasTime n t.rx
    → HasTime n t.tx
    → t.clk.now_ps % 2 ≡ 0
    → t.rx.now_ps % 2 ≡ 0
    → t.tx.now_ps % 2 ≡ 0
    → IsSteady n t
even-IsSteady n t hc hr ht ec er et = record {
  clk = hc;
  rx = hr;
  tx = ht;
  parity_rx = omega arith;
  parity_tx = omega arith;
  apart_clk = λ d e. even_edge_apart n t.clk d hc ec e;
  apart_rx = λ d e. even_edge_apart n t.rx d hr er e;
  apart_tx = λ d e. even_edge_apart n t.tx d ht et e;
}

-- A tick of steady clocks: it moves the system clock by more than 1 ps, and no further than its edge.
pub IsSteady-tick :
    (n : ℕ) (t : Clocks)
    → IsSteady (suc n) t
    → (m : ℕ) × (t' : Clocks) × (e : Edges) × (tick t ≡ some (t', e))
      × IsSteady n t'
      × (1 < m)
      × ((d : ℕ) → time_to_edge t.clk ≡ some d → m ≤ d)
      × (t'.clk ≡ stepped m t.clk)
      × (e.i_clk ≡ wave t'.clk)
      × (t'.time_ps ≡ u64 (t.time_ps + m))
IsSteady-tick n t h =
    let (a, ea, _, _, _) = time_to_edge_lem t.clk h.clk.valid in
    let (b, eb, _, _, _) = time_to_edge_lem t.rx h.rx.valid in
    let (c, ec, _, _, _) = time_to_edge_lem t.tx h.tx.valid in
    let rc = HasTime-IsRunning (suc n) t.clk h.clk in
    let rr = HasTime-IsRunning (suc n) t.rx h.rx in
    let rt = HasTime-IsRunning (suc n) t.tx h.tx in
    let la = h.apart_clk a ea in
    let lb = h.apart_rx b eb in
    let lc = h.apart_tx c ec in
    let (m, e, go, ma, mb, mc, one, level, _, _, _, _, _) =
      tick_lem t a b c rc rr rt ea eb ec la lb lc in
    let ca = even_at t.clk a rc ea in
    let cb = even_at t.rx b rr eb in
    let cc = even_at t.tx c rt ec in
    let pr = h.parity_rx in
    let pt = h.parity_tx in
    let even : (t.clk.now_ps + m) % 2 ≡ 0 = ground arith in
    (
      m,
      _,
      e,
      go,
      even-IsSteady n _ (stepped-HasTime n m a t.clk h.clk ea ma)
          (stepped-HasTime n m b t.rx h.rx eb mb) (stepped-HasTime n m c t.tx h.tx ec mc)
          (omega (arith, (stepped_fields m t.clk).0)) (omega (arith, (stepped_fields m t.rx).0))
          (omega (arith, (stepped_fields m t.tx).0)),
      ground arith,
      λ d ed. ground arith,
      refl,
      level,
      refl,
    )

-- From three steady clocks, each valid, with a half period below 2 ^ 31 ps and with time for `n`
-- ticks before 2 ^ 64 ps, `n` calls of `tick` in a row end, with no assertion that fails: the
-- next edge is never 1 ps or less away, on any of the clocks.
pub tick_n-succeeds : (n : ℕ) (t : Clocks) → IsSteady n t → (t' : Clocks) × (tick_n n t ≡ some t')
unfolding tick_n
tick_n-succeeds zero t h = (t, refl)
tick_n-succeeds (suc n) t h =
    let (_, t', e, go, steady, _, _, _, _, _) = IsSteady-tick n t h in
    let (t'', gone) = tick_n-succeeds n t' steady in (t'', simp (go, gone))

fresh :
    (n iv : ℕ) (c : TbClock)
    → 8 ≤ iv
    → iv < 2 ^ 31
    → n ≤ 2 ^ 32
    → (d : TbClock) × (init iv c ≡ some d)
      × HasTime (suc n) d
      × (d.now_ps % 2 ≡ 1)
      × (d.increment_ps ≤ iv / 2)
      × (wave d ≡ 0)
      × ((e : ℕ) → time_to_edge d ≡ some e → 1 < e)
unfolding wave
fresh n iv c lo hi few =
    let (d, e, valid, inc, now, last) = init-IsValid iv c (omega arith) (omega arith) in
    let (m, em, pos, le, at) = time_to_edge_lem d valid in
    (
      d,
      e,
      record { valid = valid; short = omega arith; time = omega arith },
      omega arith,
      omega arith,
      ground arith,
      λ e' ee. ground arith,
    )

-- The clocks as the constructor of `TESTB` starts them, with intervals of at least 8 ps and below
-- 2 ^ 31 ps, are steady; the system clock is low, with a half period of at most half its interval.
pub started-IsSteady :
    (iv iv_rx iv_tx n : ℕ) (t : Clocks)
    → 8 ≤ iv
    → iv < 2 ^ 31
    → 8 ≤ iv_rx
    → iv_rx < 2 ^ 31
    → 8 ≤ iv_tx
    → iv_tx < 2 ^ 31
    → n ≤ 2 ^ 32
    → (t' : Clocks) × (started iv iv_rx iv_tx t ≡ some t')
      × IsSteady (suc n) t'
      × (t'.clk.increment_ps ≤ iv / 2)
      × (wave t'.clk ≡ 0)
      × (t'.time_ps ≡ 0)
unfolding started
started-IsSteady iv iv_rx iv_tx n t l1 s1 l2 s2 l3 s3 few =
    let (c, init_c, time_c, now_c, less, low, apart_c) = fresh n iv t.clk l1 s1 few in
    let (r, init_r, time_r, now_r, _, _, apart_r) = fresh n iv_rx t.rx l2 s2 few in
    let (x, init_x, time_x, now_x, _, _, apart_x) = fresh n iv_tx t.tx l3 s3 few in
    (
      record { clk = c; rx = r; tx = x; time_ps = 0 },
      simp (init_c, init_r, init_x),
      record {
        clk = time_c;
        rx = time_r;
        tx = time_x;
        parity_rx = omega arith;
        parity_tx = omega arith;
        apart_clk = apart_c;
        apart_rx = apart_r;
        apart_tx = apart_x;
      },
      less,
      low,
      refl,
    )

-- The clocks as the constructor of `TESTB` starts them, with intervals of at least 8 ps and below
-- 2 ^ 31 ps: the first tick, and `n` more, fail no assertion, for any `n` up to 2 ^ 32.
pub started-tick_n :
    (iv iv_rx iv_tx n : ℕ) (t : Clocks)
    → 8 ≤ iv
    → iv < 2 ^ 31
    → 8 ≤ iv_rx
    → iv_rx < 2 ^ 31
    → 8 ≤ iv_tx
    → iv_tx < 2 ^ 31
    → n ≤ 2 ^ 32
    → (t' : Clocks) × (t'' : Clocks) × (started iv iv_rx iv_tx t ≡ some t')
      × (tick_n (suc n) t' ≡ some t'')
started-tick_n iv iv_rx iv_tx n t l1 s1 l2 s2 l3 s3 few =
    let (t', start, steady, _, _, _) = started-IsSteady iv iv_rx iv_tx n t l1 s1 l2 s2 l3 s3 few in
    let (t'', gone) = tick_n-succeeds (suc n) t' steady in (t', t'', start, gone)
