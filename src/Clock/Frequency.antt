-- ===== src/Clock/Frequency.antt =====
-- `TBCLOCK::set_frequency_hz` of bench/cpp/tbclock.h.
use native.Mathlib.Nat.{div-le_self}
use wbsata.Common.{ℕ, ◌+◌, ◌*◌, ◌/◌, ◌^◌, ◌<◌, ◌≤◌, ◌≡◌, refl, none, some, arith}
use wbsata.Clock.{TbClock, set_interval_ps, set_frequency_hz}
use wbsata.Clock.Edges.{half_lem}

-- Where the quotient of 1e12 by a frequency below 2 ^ 53 is exact up to the conversion, which drops
-- its fraction, setting a frequency other than 0 is setting the interval of that many ps. If the interval is
-- 4 ps or more, the period of the clock is at most that interval and less than 4 ps below it, and the
-- time of the clock stays; if not, the assertion fails.
pub set_frequency_hz-close :
    (interval_of : ℕ → ℕ)
    → ((f : ℕ) → 0 < f → f < 2 ^ 53 → interval_of f ≡ 10 ^ 12 / f)
    → (frequency_hz : ℕ) (c : TbClock) → 0 < frequency_hz
    → frequency_hz < 2 ^ 53
    → let interval_ps = 10 ^ 12 / frequency_hz in
      (set_frequency_hz interval_of frequency_hz c ≡ set_interval_ps interval_ps c)
      × (4 ≤ interval_ps
          → (d : TbClock) × (set_frequency_hz interval_of frequency_hz c ≡ some d)
            × (2 * d.increment_ps ≤ interval_ps)
            × (interval_ps < 2 * d.increment_ps + 4)
            × (d.now_ps ≡ c.now_ps)
            × (d.last_posedge_ps ≡ c.last_posedge_ps))
      × (interval_ps < 4 → set_frequency_hz interval_of frequency_hz c ≡ none)
unfolding set_frequency_hz set_interval_ps
set_frequency_hz-close interval_of exact f c pos small =
    let at = exact f pos small in
    let low = div-le_self (10 ^ 12) f in
    let half = half_lem (10 ^ 12 / f) (omega (arith, low)) in
    (
      simp at,
      λ four. (
        record c { increment_ps = 2 * (10 ^ 12 / f / 4) },
        ground (arith, at, half),
        omega arith,
        omega arith,
        refl,
        refl,
      ),
      λ few. ground (arith, at, half),
    )
