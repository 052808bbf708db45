-- ===== src/Clock/Trace/Times.antt =====
-- The times that the trace of `TESTB` records, bench/cpp/testb.h.
use wbsata.Common.{
  ◌∙◌, ap, ℕ, suc, ◌+◌, ◌^◌, ◌<◌, ◌≤◌, ◌≡◌, refl, Bool, false, Option, none, some, List, [], ◌∷◌,
  length, arith, u64, Bool-cases, inl, inr,
}
use wbsata.Clock
use wbsata.Clock.Edges.{stepped_fields}
use wbsata.Clock.Run.{IsSteady, IsSteady-tick, IsSteady-less, started-IsSteady}
use wbsata.Clock.Trace.{
  TestB, new, opentrace, open_file, closetrace, close_file, pausetrace, write_time, dump, tick,
  done, Call, ticks, opens, closes, pauses, asks_done, call, calls,
}

-- The times of a file, the last one first, fall, and are all below `bound`.
abbrev pub AreFalling : ℕ → List ℕ → Type 0
AreFalling bound [] = Unit
AreFalling bound (t ∷ ts) = (t < bound) × AreFalling t ts

abbrev pub IsOpen : ℕ → Option (List ℕ) → Type 0
IsOpen bound none = Unit
IsOpen bound (some times) = AreFalling bound times

-- Files that are closed by the time `now`.
abbrev pub AreClosed : ℕ → List (List ℕ) → Type 0
AreClosed bound [] = Unit
AreClosed bound (file ∷ files) = AreFalling bound file × AreClosed bound files

AreFalling-more : (a b : ℕ) (ts : List ℕ) → a ≤ b → AreFalling a ts → AreFalling b ts
AreFalling-more a b [] le h = tt
AreFalling-more a b (t ∷ ts) le h = (omega (arith, h.0), h.1)

IsOpen-more : (a b : ℕ) (o : Option (List ℕ)) → a ≤ b → IsOpen a o → IsOpen b o
IsOpen-more a b none le h = tt
IsOpen-more a b (some ts) le h = AreFalling-more a b ts le h

AreClosed-more : (a b : ℕ) (fs : List (List ℕ)) → a ≤ b → AreClosed a fs → AreClosed b fs
AreClosed-more a b [] le h = tt
AreClosed-more a b (f ∷ fs) le h = (AreFalling-more a b f le h.0, AreClosed-more a b fs le h.1)

-- A bench with time for `n` ticks, whose files hold rising times, none of them later than now.
pub record IsTraced (n : ℕ) (s : TestB) : Type 0 where
  pub steady : IsSteady n s.clocks
  pub early : s.clocks.time_ps ≤ s.clocks.clk.now_ps
  pub open_times : IsOpen (suc s.clocks.time_ps) s.trace
  pub closed_times : AreClosed (suc s.clocks.time_ps) s.closed

written :
    (t bound : ℕ) (o : Option (List ℕ)) → t < bound → IsOpen t o → IsOpen bound (write_time t o)
unfolding write_time
written t bound none lt h = tt
written t bound (some ts) lt h = (lt, h)

dump_lem :
    (t bound : ℕ) (s : TestB)
    → t < bound
    → IsOpen t s.trace
    → IsOpen bound (dump t s).trace
      × ((dump t s).clocks ≡ s.clocks)
      × ((dump t s).closed ≡ s.closed)
unfolding dump
dump_lem t bound s lt h = elim (Bool-cases s.paused_trace) [
  | inl paused ↦ simp paused (IsOpen-more t bound s.trace (omega arith) h, refl, refl)
  | inr runs ↦ simp runs (written t bound s.trace lt h, refl, refl)
]

tick-IsTraced :
    (n : ℕ) (s : TestB) → IsTraced (suc n) s → (t : TestB) × (tick s ≡ some t) × IsTraced n t
unfolding tick
tick-IsTraced n s h =
    let (m, clocks, e, run, steady, pos, _, moved, _, time) = IsSteady-tick n s.clocks h.steady in
    let later = (stepped_fields m s.clocks.clk).0 in
    let at_clk : clocks.clk.now_ps ≡ s.clocks.clk.now_ps + m = ap (λ c. c.now_ps) moved ∙ later in
    let room = steady.clk.time in
    let early = h.early in
    let at : clocks.time_ps ≡ s.clocks.time_ps + m = omega arith in
    let before = u64 (s.clocks.time_ps + 1) in
    let first : before ≡ suc s.clocks.time_ps = omega arith in
    let (open1, _, closed1) =
      dump_lem before clocks.time_ps s (omega arith) (rw first h.open_times) in
    let s1 : TestB = record (dump before s) { clocks = clocks } in
    let (open2, clocks2, closed2) =
      dump_lem clocks.time_ps (suc clocks.time_ps) s1 (omega arith) open1 in
    (
      dump clocks.time_ps s1,
      simp run,
      record {
        steady = rw clocks2 steady;
        early = rw clocks2 (omega arith);
        open_times = rw clocks2 open2;
        closed_times =
            rw (clocks2, closed2, closed1)
              (AreClosed-more (suc s.clocks.time_ps) (suc clocks.time_ps) s.closed (omega arith)
                h.closed_times);
      },
    )

open_file-IsTraced :
    (n : ℕ) (o : Option (List ℕ)) (s : TestB)
    → IsTraced n s
    → s.trace ≡ o
    → IsTraced n (open_file o s)
unfolding open_file
open_file-IsTraced n none s h e = record {
  steady = h.steady;
  early = h.early;
  open_times = tt;
  closed_times = h.closed_times;
}
open_file-IsTraced n (some times) s h e = h

open-IsTraced : (n : ℕ) (s : TestB) → IsTraced n s → IsTraced n (opentrace s)
unfolding opentrace
open-IsTraced n s h = open_file-IsTraced n s.trace s h refl

close_file-IsTraced :
    (n : ℕ) (o : Option (List ℕ)) (s : TestB)
    → IsTraced n s
    → s.trace ≡ o
    → IsTraced n (close_file o s)
unfolding close_file
close_file-IsTraced n none s h e = h
close_file-IsTraced n (some times) s h e = record {
  steady = h.steady;
  early = h.early;
  open_times = tt;
  closed_times = (rw e at h.open_times, h.closed_times);
}

close-IsTraced : (n : ℕ) (s : TestB) → IsTraced n s → IsTraced n (closetrace s)
unfolding closetrace
close-IsTraced n s h = close_file-IsTraced n s.trace s h refl

done-IsTraced : (n : ℕ) (finished : Bool) (s : TestB) → IsTraced n s → IsTraced n (done finished s)
unfolding done
done-IsTraced n finished s h = ground arith

IsTraced-less : (n : ℕ) (s : TestB) → IsTraced (suc n) s → IsTraced n s
IsTraced-less n s h =
    let count : suc n ≡ 1 + n = omega arith in
    record {
      steady = IsSteady-less n 1 s.clocks (rw count at h.steady);
      early = h.early;
      open_times = h.open_times;
      closed_times = h.closed_times;
    }

call-IsTraced :
    (n : ℕ) (c : Call) (s : TestB)
    → IsTraced (suc n) s
    → (t : TestB) × (call c s ≡ some t) × IsTraced n t
unfolding call
call-IsTraced n ticks s h = tick-IsTraced n s h
call-IsTraced n opens s h = (opentrace s, refl, open-IsTraced n s (IsTraced-less n s h))
call-IsTraced n closes s h = (closetrace s, refl, close-IsTraced n s (IsTraced-less n s h))
call-IsTraced n (pauses paused) s h =
    let less = IsTraced-less n s h in
    (
      pausetrace paused s,
      refl,
      unfold pausetrace in
          record {
            steady = less.steady;
            early = less.early;
            open_times = less.open_times;
            closed_times = less.closed_times;
          },
    )
call-IsTraced n (asks_done finished) s h =
    (done finished s, refl, done-IsTraced n finished s (IsTraced-less n s h))

calls-IsTraced :
    (cs : List Call) (s : TestB)
    → IsTraced (length cs) s
    → (t : TestB) × (calls cs s ≡ some t) × IsTraced 0 t
unfolding calls
calls-IsTraced [] s h = (s, refl, h)
calls-IsTraced (c ∷ cs) s h =
    let (u, run, hu) = call-IsTraced (length cs) c s h in
    let (t, rest, ht) = calls-IsTraced cs u hu in (t, simp (run, rest), ht)

-- From the constructor of `TESTB`, any calls of `tick`, `opentrace`, `closetrace`, `pausetrace` and
-- `done`, at most 2 ^ 32 of them, end with no assertion that fails; and the times in each file of the
-- trace, the one that is open and those that are closed, strictly rise, and none is later than now.
pub calls-rising :
    (cs : List Call)
    → length cs ≤ 2 ^ 32
    → (s : TestB) × (t : TestB) × (new ≡ some s)
      × (calls cs s ≡ some t)
      × IsOpen (suc t.clocks.time_ps) t.trace
      × AreClosed (suc t.clocks.time_ps) t.closed
unfolding new
calls-rising cs few =
    let (clocks, start, steady, _, _, time) =
      started-IsSteady 10000 26666 26668 (length cs)
        (record { clk = Clock.new; rx = Clock.new; tx = Clock.new; time_ps = 0 }) (omega arith)
        (omega arith) (omega arith) (omega arith) (omega arith) (omega arith) few in
    let s : TestB = record {
      clocks = clocks;
      trace = none;
      paused_trace = false;
      is_done = false;
      closed = [];
    } in
    let (t, run, h) = calls-IsTraced cs s (
      IsTraced-less (length cs) s (record {
        steady = steady;
        early = omega (arith, time);
        open_times = tt;
        closed_times = tt;
      })) in
    (s, t, simp start, run, h.open_times, h.closed_times)
