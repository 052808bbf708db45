-- ===== src/Device/Session.antt =====
-- Whole conversations of the device with a controller that keeps the protocol: frames that the
-- device takes, frames that it gives, and the exchanges that carry out a command.
pub mod Quiet
pub mod Taken
pub mod Given
pub mod Exchange
use wbsata.Common.{ℕ, zero, suc, Bool, true, false, Option, none, some, ◌>>=◌, List, [], ◌∷◌}
use wbsata.Device.State.{SataSim}
use wbsata.Device.Primitive
use wbsata.Device.Frame.{clock, deliver, say, frame}

-- For how many clocks more than one the controller holds a primitive: its request, its verdict on
-- nothing heard yet, its readiness, and its own verdict.
pub record Pace : Type 0 where
  pub asking : ℕ
  pub settling : ℕ
  pub silent : ℕ
  pub judging : ℕ

-- One primitive, for a number of clocks.
unfoldable pub hold : ℕ → ℕ → SataSim → Option SataSim
hold zero p s = some s
hold (suc n) p s = do s' ← clock true p s; hold n p s'

-- The device takes a frame of the controller: the controller asks for the line, sends SOF, the words
-- and their CRC, and EOF; then it waits for the verdict, and goes back to SYNC.
unfoldable pub take_frame : Pace → List ℕ → SataSim → Option SataSim
unfolding hold
take_frame pace words s0 = do
  s1 ← hold (suc pace.asking) Primitive.xrdy_p s0
  s2 ← clock true Primitive.sof_p s1
  s3 ← deliver (frame words) true Primitive.wtrm_p s2
  s4 ← hold pace.settling Primitive.wtrm_p s3
  clock true Primitive.sync_p s4

-- The device gives a frame of `n` clocks: it asks for the line, the controller is silent and then
-- ready, the device says its words, and the controller answers that all is well.
unfoldable pub give_frame : Pace → ℕ → SataSim → Option (SataSim × List (Bool × ℕ))
unfolding hold
give_frame pace n s0 = do
  s1 ← hold (suc pace.silent) Primitive.sync_p s0
  s2 ← clock true Primitive.rrdy_p s1
  (s3, out) ← say n s2
  s4 ← hold (suc pace.judging) Primitive.r_ip_p s3
  s5 ← clock true Primitive.ok_p s4
  some (s5, out)
