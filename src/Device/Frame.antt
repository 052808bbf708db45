-- ===== src/Device/Frame.antt =====
-- A frame as its specification: the payload and its CRC, scrambled word by word and put in the
-- byte order of the line; and what a device says and hears over a run of clocks.
pub mod Receive
pub mod Verdict
pub mod Store
pub mod Deliver
pub mod Overrun
pub mod Detect
pub mod Send
pub mod Serving
pub mod Responses
pub mod Training
use wbsata.Common.{
  map, ℕ, zero, suc, ◌<◌, ◌^◌, bit_xor, Bool, true, false, Option, none, some, ◌>>=◌,
}
use wbsata.Common.{List, [], ◌∷◌, ◌++◌}
use wbsata.Device.Scrambler.{prn_of, next_fill, scrambler_initial}
use wbsata.Device.Crc.{advance_crc, crc_initial}
use wbsata.Device.State.{SataSim}
use wbsata.Device.Phy.{TxSignals, process_tx_signals}
use wbsata.Device.Primitive
use wbsata.Device.Words.{swap_endian}
use wbsata.Device.Link.{link_layer_model}

-- Every word fits 32 bits.
abbrev pub AreWords : List ℕ → Type 0
AreWords [] = Unit
AreWords (w ∷ ws) = (w < 2 ^ 32) × AreWords ws

unfoldable pub crc_words : ℕ → List ℕ → ℕ
crc_words c [] = c
crc_words c (w ∷ ws) = crc_words (advance_crc c w) ws

-- The words of a frame on the line.
unfoldable pub wire : ℕ → List ℕ → List ℕ
wire fill [] = []
wire fill (w ∷ ws) = swap_endian (bit_xor w (prn_of fill)) ∷ wire (next_fill fill) ws

unfoldable pub frame : List ℕ → List ℕ
frame ws = wire scrambler_initial (ws ++ crc_words crc_initial ws ∷ [])

-- What the controller drives while it sends a data word, or a primitive.
abbrev pub signals : Bool → ℕ → TxSignals
signals primitive word = record {
  reset = false;
  cominit = false;
  comwake = false;
  elecidle = false;
  primitive = primitive;
  word = word;
  link_ready = true;
}

-- One clock: the controller's word is captured, and the link layer moves.
unfoldable pub clock : Bool → ℕ → SataSim → Option SataSim
unfolding process_tx_signals
clock primitive word s = link_layer_model (process_tx_signals (signals primitive word) s).0

-- One data word after the other.
unfoldable pub hear : List ℕ → SataSim → Option SataSim
hear [] s = some s
hear (w ∷ ws) s = do s' ← clock false w s; hear ws s'

-- A frame on the line, the EOF primitive after it, and one more clock, whatever it brings.
unfoldable pub deliver : List ℕ → Bool → ℕ → SataSim → Option SataSim
deliver line primitive word s = do
  heard ← hear line s
  ended ← clock true Primitive.eof_p heard
  clock primitive word ended

-- The words that the device puts on the line over a number of clocks, each beside its primitive
-- bit, when the controller's signals stay as they are.
unfoldable pub say : ℕ → SataSim → Option (SataSim × List (Bool × ℕ))
say zero s = some (s, [])
say (suc n) s = do
  s' ← link_layer_model s
  (t, out) ← say n s'
  some (t, (s'.rxphy_primitive, s'.rxphy_data) ∷ out)

-- A frame behind its SOF primitive, as `say` shows it.
abbrev pub spoken : List ℕ → List (Bool × ℕ)
spoken ws = (true, Primitive.sof_p) ∷ map (λ w. (false, w)) (frame ws)
