-- ===== src/Clock/Edges.antt =====
-- A clock between two edges.
use wbsata.Common.{ℕ, ◌+◌, ◌-◌, ◌*◌, ◌/◌, ◌%◌, ◌≤◌, ◌<◌, ◌^◌, bit_and, true, false, some}
use wbsata.Common.{◌≡◌, refl, ◌⊎◌, arith, u64, if◌then◌else◌}
use wbsata.Common.Xor.{and_ones}
use wbsata.Common.Fields.{and_shifted}
use wbsata.Clock.{leb, ltb, TbClock, init, time_to_edge, advance, rising_edge, falling_edge}

-- A clock whose half period is even, whose last rising edge lies less than a period back, and
-- whose time stays below 2 ^ 64 for a period.
pub record IsValid (c : TbClock) : Type 0 where
  pub positive : 0 < c.increment_ps
  pub even : c.increment_ps % 2 ≡ 0
  pub even_edge : c.last_posedge_ps % 2 ≡ 0
  pub past : c.last_posedge_ps ≤ c.now_ps
  pub current : c.now_ps < c.last_posedge_ps + 2 * c.increment_ps
  pub room : c.now_ps + 2 * c.increment_ps < 2 ^ 64

pub half_lem : (iv : ℕ) → iv < 2 ^ 64 → bit_and (iv / 2) (2 ^ 64 - 2) ≡ 2 * (iv / 4)
half_lem iv h = omega (arith, and_shifted 1 (iv / 2) (2 ^ 63 - 1), and_ones 63 (iv / 2 / 2))

-- Where the interval is at least 4 ps and below 2 ^ 62, `init` passes its assertion, and leaves a
-- clock with half that interval, rounded down to an even number, waiting 1 ps past a falling edge.
pub init-IsValid :
    (iv : ℕ) (c : TbClock)
    → 4 ≤ iv
    → iv < 2 ^ 62
    → (d : TbClock) × (init iv c ≡ some d)
      × IsValid d
      × (d.increment_ps ≡ 2 * (iv / 4))
      × (d.now_ps ≡ d.increment_ps + 1)
      × (d.last_posedge_ps ≡ 0)
unfolding init
init-IsValid iv c lo hi = (
  record c { increment_ps = 2 * (iv / 4); now_ps = 2 * (iv / 4) + 1; last_posedge_ps = 0 },
  ground (arith, half_lem iv),
  omega arith,
  refl,
  refl,
  refl,
)

-- On a valid clock `time_to_edge` passes its assertions, and gives the time to the next edge: a
-- positive time of at most half a period, after which the clock stands on the half or the whole
-- period.
pub time_to_edge_lem :
    (c : TbClock)
    → IsValid c
    → (d : ℕ) × (time_to_edge c ≡ some d)
      × (0 < d)
      × (d ≤ c.increment_ps)
      × ((c.now_ps + d ≡ c.last_posedge_ps + c.increment_ps)
          ⊎ (c.now_ps + d ≡ c.last_posedge_ps + 2 * c.increment_ps))
unfolding time_to_edge
time_to_edge_lem c h = (
  if ltb c.now_ps (c.last_posedge_ps + c.increment_ps)
      then c.last_posedge_ps + c.increment_ps - c.now_ps
      else c.last_posedge_ps + 2 * c.increment_ps - c.now_ps,
  ground arith,
  ground arith,
  ground arith,
  ground arith,
)

-- The clock `i` ps later, no further than its next edge.
unfoldable pub stepped : ℕ → TbClock → TbClock
stepped i c =
    if leb (c.last_posedge_ps + 2 * c.increment_ps) (c.now_ps + i)
    then record c {
      now_ps = c.now_ps + i;
      last_posedge_ps = c.last_posedge_ps + 2 * c.increment_ps;
      ticks = u64 (c.ticks + 1);
    }
    else record c { now_ps = c.now_ps + i }

-- High in the first half of a period, low in the second.
unfoldable pub wave : TbClock → ℕ
wave c = if ltb (c.now_ps - c.last_posedge_ps) c.increment_ps then 1 else 0

pub advance_lem :
    (i d : ℕ) (c : TbClock)
    → IsValid c
    → time_to_edge c ≡ some d
    → i ≤ d
    → c.now_ps + i + 2 * c.increment_ps < 2 ^ 64
    → advance i c ≡ some (stepped i c, wave (stepped i c))
unfolding advance time_to_edge stepped wave
advance_lem i d c h e le room = ground arith

pub stepped-IsValid :
    (i d : ℕ) (c : TbClock)
    → IsValid c
    → time_to_edge c ≡ some d
    → i ≤ d
    → c.now_ps + i + 2 * c.increment_ps < 2 ^ 64
    → IsValid (stepped i c)
unfolding time_to_edge stepped
stepped-IsValid i d c h e le room = ground arith

pub stepped_fields :
    (i : ℕ) (c : TbClock)
    → ((stepped i c).now_ps ≡ c.now_ps + i) × ((stepped i c).increment_ps ≡ c.increment_ps)
unfolding stepped
stepped_fields i c = ground arith

edge_lem :
    (d : ℕ) (c : TbClock)
    → IsValid c
    → time_to_edge c ≡ some d
    → c.now_ps + d + 2 * c.increment_ps < 2 ^ 64
    → ((rising_edge (stepped d c) ≡ true)
        × (falling_edge (stepped d c) ≡ false)
        × (wave (stepped d c) ≡ 1)
        × ((stepped d c).ticks ≡ u64 (c.ticks + 1)))
      ⊎ ((rising_edge (stepped d c) ≡ false)
          × (falling_edge (stepped d c) ≡ true)
          × (wave (stepped d c) ≡ 0)
          × ((stepped d c).ticks ≡ c.ticks))
unfolding time_to_edge stepped wave rising_edge falling_edge
edge_lem d c h e small = ground arith

-- A valid clock, advanced to its next edge, is valid, stands on an edge, rising or falling and not
-- both, has counted a tick exactly when the edge is a rising one, and is high exactly then.
pub advance_to_edge :
    (c : TbClock)
    → IsValid c
    → c.now_ps + 4 * c.increment_ps < 2 ^ 64
    → (d : ℕ) × (c' : TbClock) × (level : ℕ) × (time_to_edge c ≡ some d)
      × (advance d c ≡ some (c', level))
      × IsValid c'
      × (c'.now_ps ≡ c.now_ps + d)
      × (((rising_edge c' ≡ true)
            × (falling_edge c' ≡ false)
            × (level ≡ 1)
            × (c'.ticks ≡ u64 (c.ticks + 1)))
          ⊎ ((rising_edge c' ≡ false)
              × (falling_edge c' ≡ true)
              × (level ≡ 0)
              × (c'.ticks ≡ c.ticks)))
advance_to_edge c h room =
    let (d, e, pos, le, at) = time_to_edge_lem c h in
    let small : c.now_ps + d + 2 * c.increment_ps < 2 ^ 64 = omega arith in
    (
      d,
      stepped d c,
      wave (stepped d c),
      e,
      advance_lem d d c h e (omega arith) small,
      stepped-IsValid d d c h e (omega arith) small,
      (stepped_fields d c).0,
      edge_lem d c h e small,
    )
