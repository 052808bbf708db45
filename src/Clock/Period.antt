-- ===== src/Clock/Period.antt =====
-- How the level of the system clock follows its edges.
use wbsata.Common.{ℕ, ◌+◌, ◌-◌, ◌*◌, ◌≤◌, ◌<◌, ◌≡◌, ◌⊎◌, arith, some, if◌then◌else◌}
use wbsata.Clock.{TbClock, ltb, time_to_edge}
use wbsata.Clock.Edges.{IsValid, stepped, wave}

-- The time to the next edge.
pub edge_in : TbClock → ℕ
edge_in c =
    if ltb (c.now_ps - c.last_posedge_ps) c.increment_ps
    then c.last_posedge_ps + c.increment_ps - c.now_ps
    else c.last_posedge_ps + 2 * c.increment_ps - c.now_ps

pub edge_in_bound : (c : TbClock) → IsValid c → (0 < edge_in c) × (edge_in c ≤ c.increment_ps)
unfolding edge_in
edge_in_bound c h = ground arith

pub time_to_edge-eq : (c : TbClock) → IsValid c → time_to_edge c ≡ some (edge_in c)
unfolding edge_in time_to_edge
time_to_edge-eq c h = ground arith

-- A step that stays at or below the next edge changes the level at the edge, or comes nearer to it.
pub stepped-wave :
    (m : ℕ) (c : TbClock)
    → IsValid c
    → 1 < m
    → m ≤ edge_in c
    → ((wave (stepped m c) + wave c ≡ 1) × (m ≡ edge_in c))
      ⊎ ((wave (stepped m c) ≡ wave c) × (edge_in (stepped m c) + m ≡ edge_in c))
unfolding edge_in stepped wave
stepped-wave m c h pos le = ground arith

pub wave-lt : (c : TbClock) → wave c < 2
unfolding wave
wave-lt c = ground arith
