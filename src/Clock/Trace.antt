-- ===== src/Clock/Trace.antt =====
-- The trace of `TESTB`, bench/cpp/testb.h: `opentrace`, `pausetrace`, `closetrace` and the times at
-- which `tick` records the core; and `done`. A file of a trace is the list of its times, the last one first.
pub mod Times
use wbsata.Common.{
  ℕ, ◌+◌, Bool, true, false, not, ◌&&◌, Option, none, some, ◌>>=◌, List, [], ◌∷◌, u64,
  if◌then◌else◌,
}
use wbsata.Clock
use wbsata.Clock.Tick.{Clocks, started, tick as tick_clocks}

pub record TestB : Type 0 where
  pub clocks : Clocks
  pub trace : Option (List ℕ)  -- `none` is the null pointer
  pub paused_trace : Bool
  pub is_done : Bool
  pub closed : List (List ℕ)  -- the files that are closed

-- The constructor of `TESTB`.
unfoldable pub new : Option TestB
new = do
  let clock = Clock.new
  clocks ← started 10000 26666 26668 (record { clk = clock; rx = clock; tx = clock; time_ps = 0 })
  some
      (record { clocks = clocks; trace = none; paused_trace = false; is_done = false; closed = [] })

unfoldable pub open_file : Option (List ℕ) → TestB → TestB
open_file none s = record s { trace = some []; paused_trace = false }
open_file (some times) s = s

-- `opentrace`, and `trace`.
unfoldable pub opentrace : TestB → TestB
unfolding open_file
opentrace s = open_file s.trace s

unfoldable pub pausetrace : Bool → TestB → TestB
pausetrace paused s = record s { paused_trace = paused }

unfoldable pub close_file : Option (List ℕ) → TestB → TestB
close_file none s = s
close_file (some times) s = record s { trace = none; closed = times ∷ s.closed }

unfoldable pub closetrace : TestB → TestB
unfolding close_file
closetrace s = close_file s.trace s

-- A time in the file that is open.
unfoldable pub write_time : ℕ → Option (List ℕ) → Option (List ℕ)
write_time time none = none
write_time time (some times) = some (time ∷ times)

-- `if (m_trace && !m_paused_trace) m_trace->dump(time)`
unfoldable pub dump : ℕ → TestB → TestB
unfolding write_time
dump time s = if s.paused_trace then s else record s { trace = write_time time s.trace }

-- `tick`: a time before the clocks move, and one after.
unfoldable pub tick : TestB → Option TestB
unfolding dump
tick s = do
  (clocks, _) ← tick_clocks s.clocks
  some (dump clocks.time_ps (record (dump (u64 (s.clocks.time_ps + 1)) s) { clocks = clocks }))

-- `finished` is what `Verilated::gotFinish` gives. The value returned is `is_done` of the new bench.
unfoldable pub done : Bool → TestB → TestB
done finished s = if s.is_done then s else (if finished then record s { is_done = true } else s)

-- What a program may do with the bench.
pub data Call : Type 0 where
  ticks opens closes : Call
  pauses : Bool → Call
  asks_done : Bool → Call

unfoldable pub call : Call → TestB → Option TestB
unfolding opentrace closetrace pausetrace tick done
call ticks s = tick s
call opens s = some (opentrace s)
call closes s = some (closetrace s)
call (pauses paused) s = some (pausetrace paused s)
call (asks_done finished) s = some (done finished s)

unfoldable pub calls : List Call → TestB → Option TestB
unfolding call
calls [] s = some s
calls (c ∷ cs) s = do s' ← call c s; calls cs s'
