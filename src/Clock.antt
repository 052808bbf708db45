-- ===== src/Clock.antt =====
-- `TBCLOCK` of bench/cpp/tbclock.h, and the time that `TESTB::tick` of bench/cpp/testb.h spends.
-- An `unsigned long` has 64 bits; `none` is an assertion that fails.
pub mod Edges
pub mod Tick
pub mod Steady
pub mod Run
pub mod Period
pub mod Frequency
pub mod Trace
use wbsata.Common.{
  ℕ, ◌+◌, ◌-◌, ◌*◌, ◌/◌, ◌%◌, ◌^◌, bit_and, Bool, true, false, Option, none, some, ◌>>=◌,
}
use wbsata.Common.{ltb, leb, ◌==◌, if◌then◌else◌, u32, u64}

pub record TbClock : Type 0 where
  pub increment_ps : ℕ
  pub now_ps : ℕ
  pub last_posedge_ps : ℕ
  pub ticks : ℕ

-- The default constructor.
unfoldable pub new : TbClock
new = record { increment_ps = 10000; now_ps = 10001; last_posedge_ps = 0; ticks = 0 }

-- `(interval_ps>>1)&-2l`
unfoldable pub set_interval_ps : ℕ → TbClock → Option TbClock
set_interval_ps interval_ps c =
    let half = bit_and (interval_ps / 2) (2 ^ 64 - 2) in
    if ltb 0 half then some (record c { increment_ps = half }) else none

unfoldable pub init : ℕ → TbClock → Option TbClock
unfolding set_interval_ps
init interval_ps c = do
  c' ← set_interval_ps interval_ps c
  some (record c' { now_ps = u64 (c'.increment_ps + 1); last_posedge_ps = 0 })

-- The constructor from an interval. `unset` is what the members hold before it, of which `m_ticks`
-- stays.
unfoldable pub of_interval : ℕ → TbClock → Option TbClock
unfolding init
of_interval interval_ps unset = init interval_ps unset

-- `interval_of` is the `double` quotient of 1e12 by the frequency, converted to an `unsigned long`.
unfoldable pub set_frequency_hz : (ℕ → ℕ) → ℕ → TbClock → Option TbClock
set_frequency_hz interval_of frequency_hz c =
    let half = bit_and (interval_of frequency_hz / 2) (2 ^ 64 - 2) in
    if ltb 0 half then some (record c { increment_ps = half }) else none

unfoldable pub time_to_edge : TbClock → Option ℕ
time_to_edge c =
    let half = u64 (c.last_posedge_ps + c.increment_ps) in
    let full = u64 (c.last_posedge_ps + 2 * c.increment_ps) in
    if ltb c.now_ps c.last_posedge_ps
    then none
    else (if ltb c.now_ps half
        then some (half - c.now_ps)
        else (if ltb c.now_ps full then some (full - c.now_ps) else none))

-- The level of the clock after a step, 1 or 0.
unfoldable pub advance : ℕ → TbClock → Option (TbClock × ℕ)
advance itime c =
    let now = u64 (c.now_ps + itime) in
    let half = u64 (c.last_posedge_ps + c.increment_ps) in
    let full = u64 (c.last_posedge_ps + 2 * c.increment_ps) in
    if leb itime c.increment_ps
    then (if leb full now
        then some (record c { now_ps = now; last_posedge_ps = full; ticks = u64 (c.ticks + 1) }, 1)
        else (if leb half now
            then some (record c { now_ps = now }, 0)
            else some (record c { now_ps = now }, 1)))
    else none

unfoldable pub rising_edge : TbClock → Bool
rising_edge c = c.now_ps == c.last_posedge_ps

unfoldable pub falling_edge : TbClock → Bool
falling_edge c = c.now_ps == u64 (c.last_posedge_ps + c.increment_ps)
