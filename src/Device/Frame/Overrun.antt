-- ===== src/Device/Frame/Overrun.antt =====
-- A data frame too long for the device's buffer: `device_link_receives` of bench/cpp/satasim.cpp.
use wbsata.Common.{
  ◌>>=◌, ap, ◌∙◌, false, none, some, ℕ, ◌+◌, ◌<◌, ◌^◌, ◌%◌, true, ◌≡◌, ◌≢◌, bit_xor, Bool, List, [],
  ◌∷◌, ◌++◌, length, arith,
}
use wbsata.Device.Crc.{advance_crc, crc_initial}
use wbsata.Device.Scrambler.{prn_of, next_fill, scrambler_initial}
use wbsata.Device.State.{SataSim}
use wbsata.Device.Words.{device_link_receives, swap_endian}
use wbsata.Device.Frame.{AreWords, clock, crc_words, deliver, hear, wire}
use wbsata.Device.Link.{link_layer_model}
use wbsata.Device.Frame.Receive.{IsHearing, unscramble, line_of, after, after-IsNext, clock_word}
use wbsata.Device.Frame.Verdict.{
  IsWaiting, first, first_line, first-IsFirst, first_responds, clock-first,
}
use wbsata.Device.Frame.Store.{NoClash, after_stores}

-- The next word that is stored has no place in a full buffer.
full_faults :
    (w : ℕ) (s : SataSim)
    → IsHearing s
    → s.data_response ≡ true
    → 512 < s.data_count
    → w < 2 ^ 32
    → w ≢ s.crc
    → clock false (line_of w s) s ≡ none
unfolding clock link_layer_model device_link_receives line_of
full_faults w s h on full hw ne = ground (arith, unscramble s.scrambler_fill w hw)

overrun :
    (pre : List ℕ) (x : ℕ) (post : List ℕ) (s : SataSim)
    → IsHearing s
    → s.data_response ≡ true
    → s.data_count + length pre ≡ 513
    → AreWords pre
    → NoClash s.crc pre
    → x < 2 ^ 32
    → x ≢ crc_words s.crc pre
    → hear (wire s.scrambler_fill (pre ++ x ∷ post)) s ≡ none
unfolding hear wire crc_words
overrun [] x post s h on count words clear hx ne =
    let fault : clock false (swap_endian (bit_xor x (prn_of s.scrambler_fill))) s ≡ none =
      unfold line_of in full_faults x s h on (omega arith) hx ne in
    ap (λ o. o >>= hear (wire (next_fill s.scrambler_fill) post)) fault
overrun (w ∷ pre) x post s h on count (hw, words) (differs, clear) hx ne =
    let t = after (line_of w s) w s in
    let next = after-IsNext (line_of w s) w s in
    let (buffer, counted) = after_stores (line_of w s) w s on differs in
    let step : clock false (swap_endian (bit_xor w (prn_of s.scrambler_fill))) s ≡ some t =
      unfold line_of in clock_word w s h (omega arith) hw in
    ap (λ o. o >>= hear (wire (next_fill s.scrambler_fill) (pre ++ x ∷ post))) step
    ∙ (rw (← next.fill_moves) (
        overrun pre x post t (next.hearing h) (next.responds ∙ on) (omega arith) words
          (rw next.crc_moves clear) hx (rw next.crc_moves ne)))

-- A data frame with more than 512 payload words, of which none of the first 512 equals the CRC of
-- the words before it, nor does the one after them, is not received by a waiting device: that word
-- is written outside the device's buffer, whatever the rest of the frame is.
pub long_frame_faults :
    (w : ℕ) (pre : List ℕ) (x : ℕ) (post : List ℕ) (primitive : Bool) (word : ℕ) (s : SataSim)
    → IsWaiting s
    → w % 256 ≡ 0x46
    → w < 2 ^ 32
    → AreWords pre
    → length pre ≡ 512
    → NoClash (advance_crc crc_initial w) pre
    → x < 2 ^ 32
    → x ≢ crc_words crc_initial (w ∷ pre)
    → deliver (wire scrambler_initial (w ∷ pre ++ x ∷ post)) primitive word s ≡ none
unfolding deliver hear wire crc_words
long_frame_faults w pre x post primitive word s waiting is_data hw words full clear hx ne =
    let begun = first-IsFirst (first_line w) w s waiting in
    let start = first (first_line w) w s in
    let opened : clock false (swap_endian (bit_xor w (prn_of scrambler_initial))) s ≡ some start =
      unfold first_line in clock-first w s waiting hw in
    let later : hear (wire (next_fill scrambler_initial) (pre ++ x ∷ post)) start ≡ none =
      rw (← begun.fill_is) (
        overrun pre x post start begun.hearing (first_responds (first_line w) w s is_data)
          (omega (arith, begun.one)) words (rw begun.crc_is clear) hx (rw begun.crc_is ne)) in
    simp (opened, later)
