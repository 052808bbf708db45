-- ===== src/Device/Frame/Receive.antt =====
-- What the device makes of a frame that it hears.
use wbsata.Common.{ℕ, ◌+◌, ◌-◌, ◌≤◌, ◌<◌, ◌^◌, bit_xor, true, false, some, ◌>>=◌}
use wbsata.Common.{
  ◌≡◌, refl, ap, ◌∙◌, List, [], ◌∷◌, ◌++◌, length, set, length-set, not, ◌&&◌, arith,
}
use wbsata.Common.{◌==◌, if◌then◌else◌}
use wbsata.Common.Xor.{xor_cancel, xor-lt}
use wbsata.Device.Scrambler.{prn_of, next_fill}
use wbsata.Device.Crc.{advance_crc}
use wbsata.Device.State.{SataSim, rcv_data}
use wbsata.Device.Phy
use wbsata.Device.Primitive
use wbsata.Device.Words.{swap_endian, device_link_receives}
use wbsata.Device.Words.Swap.{swap_endian_twice}
use wbsata.Device.Link.{link_layer_model}
use wbsata.Device.Frame.{AreWords, crc_words, wire, signals, clock, hear}

-- A device in the middle of a frame.
pub record IsHearing (s : SataSim) : Type 0 where
  pub in_state : s.link_state ≡ rcv_data
  pub up : s.oob_done ≡ true
  pub begun : 0 < s.data_count
  pub room : length s.received_data ≡ 512

prn_of-lt : (f : ℕ) → prn_of f < 2 ^ 32
unfolding prn_of
prn_of-lt f = omega arith

-- Descrambling undoes what the sender has done to a word.
pub unscramble :
    (f w : ℕ)
    → w < 2 ^ 32
    → bit_xor (swap_endian (swap_endian (bit_xor w (prn_of f)))) (prn_of f) ≡ w
unscramble f w h =
    rw (swap_endian_twice (bit_xor w (prn_of f)) (xor-lt 32 w (prn_of f) h (prn_of-lt f)))
      (xor_cancel w (prn_of f))

-- The device after a later word `w` of a frame, which stood as `line` on the line.
unfoldable pub after : ℕ → ℕ → SataSim → SataSim
unfolding Phy.process_tx_signals Phy.device_phy_sends
after line w s0 =
    let captured = (Phy.process_tx_signals (signals false line) s0).0 in
    let s = Phy.device_phy_sends Primitive.r_ip_p true captured in
    let checked = record s {
      scrambler_fill = next_fill s.scrambler_fill;
      crc = advance_crc s.crc w;
      crc_matched = w == s.crc;
    } in
    if not (w == s.crc) && s.data_response
    then record checked {
      received_data = set s.received_data (s.data_count - 1) (swap_endian w);
      data_count = s.data_count + 1;
    }
    else checked

unfoldable pub line_of : ℕ → SataSim → ℕ
line_of w s = swap_endian (bit_xor w (prn_of s.scrambler_fill))

pub clock_word :
    (w : ℕ) (s : SataSim)
    → IsHearing s
    → s.data_count ≤ 512
    → w < 2 ^ 32
    → clock false (line_of w s) s ≡ some (after (line_of w s) w s)
unfolding clock link_layer_model device_link_receives after line_of
clock_word w s h lt hw = ground (arith, unscramble s.scrambler_fill w hw)

-- The device after the words `ws`.
unfoldable pub after_all : List ℕ → SataSim → SataSim
after_all [] s = s
after_all (w ∷ ws) s = after_all ws (after (line_of w s) w s)

-- The fields that one word changes, and how.
pub record IsNext (w : ℕ) (s s' : SataSim) : Type 0 where
  pub hearing : IsHearing s → IsHearing s'
  pub next_count : s'.data_count ≤ s.data_count + 1
  pub fill_moves : s'.scrambler_fill ≡ next_fill s.scrambler_fill
  pub crc_moves : s'.crc ≡ advance_crc s.crc w
  pub compared : s'.crc_matched ≡ (w == s.crc)
  pub responds : s'.data_response ≡ s.data_response

pub after-IsNext : (line w : ℕ) (s : SataSim) → IsNext w s (after line w s)
unfolding after
after-IsNext line w s = record {
  hearing = λ h. ground (arith, length-set s.received_data (s.data_count - 1) (swap_endian w));
  next_count = ground arith;
  fill_moves = ground arith;
  crc_moves = ground arith;
  compared = ground arith;
  responds = ground arith;
}

pub hear_lem :
    (ws : List ℕ) (s : SataSim)
    → IsHearing s
    → s.data_count + length ws ≤ 513
    → AreWords ws
    → hear (wire s.scrambler_fill ws) s ≡ some (after_all ws s)
unfolding hear wire after_all
hear_lem [] s h lt a = refl
hear_lem (w ∷ ws) s h lt a =
    let next = after-IsNext (line_of w s) w s in
    ap (λ o. o >>= hear (wire (next_fill s.scrambler_fill) ws)) (step h lt a)
    ∙ (rw (← next.fill_moves)
        (hear_lem ws (after (line_of w s) w s) (next.hearing h) (omega arith) a.1))
  where
    step :
        IsHearing s
        → s.data_count + length (w ∷ ws) ≤ 513
        → AreWords (w ∷ ws)
        → clock false (swap_endian (bit_xor w (prn_of s.scrambler_fill))) s
          ≡ some (after (line_of w s) w s)
    step h lt a = unfold line_of in clock_word w s h (omega arith) a.0

pub after_all-IsHearing : (ws : List ℕ) (s : SataSim) → IsHearing s → IsHearing (after_all ws s)
unfolding after_all
after_all-IsHearing [] s h = h
after_all-IsHearing (w ∷ ws) s h =
    after_all-IsHearing ws (after (line_of w s) w s) ((after-IsNext (line_of w s) w s).hearing h)

-- The comparison that the last word leaves.
pub after_all_matched :
    (ws : List ℕ) (c : ℕ) (s : SataSim)
    → (after_all (ws ++ c ∷ []) s).crc_matched ≡ (c == crc_words s.crc ws)
unfolding after_all crc_words
after_all_matched [] c s = (after-IsNext (line_of c s) c s).compared
after_all_matched (w ∷ ws) c s =
    rw (← (after-IsNext (line_of w s) w s).crc_moves)
      (after_all_matched ws c (after (line_of w s) w s))

pub after_all-append :
    (ws : List ℕ) (c : ℕ) (s : SataSim)
    → after_all (ws ++ c ∷ []) s ≡ after (line_of c (after_all ws s)) c (after_all ws s)
unfolding after_all
after_all-append [] c s = refl
after_all-append (w ∷ ws) c s = after_all-append ws c (after (line_of w s) w s)
