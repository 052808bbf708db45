-- ===== src/Device/Frame/Verdict.antt =====
-- The device's verdict on a whole frame: from the first word to GOODEND or BADEND.
use wbsata.Device.Words.{receive_first}
use wbsata.Common.{refl, ◌%◌, ℕ, ◌<◌, ◌/◌, ◌^◌, bit_xor, bit_and, Bool, true, false, some, ◌>>=◌}
use wbsata.Common.{◌≡◌, ap, ◌∙◌, List, [], ◌∷◌, ◌++◌, length, length-append, arith}
use wbsata.Common.{◌==◌, if◌then◌else◌}
use wbsata.Common.Xor.{and_ones}
use wbsata.Device.Scrambler.{prn_of, next_fill, scrambler_initial}
use wbsata.Device.Crc.{advance_crc, crc_initial}
use wbsata.Device.State.{SataSim, rcv_data, rcveof, goodend, badend, reset_data_buffer}
use wbsata.Device.Phy
use wbsata.Device.Primitive
use wbsata.Device.Words.{swap_endian, device_link_receives, set_command_flags, calculate_crc}
use wbsata.Device.Link.{wait_for_primitive, link_case, link_layer_model}
use wbsata.Device.Frame.{AreWords, crc_words, wire, signals, clock, hear, deliver}
use wbsata.Device.Frame.Receive.{
  IsHearing, unscramble, after_all, hear_lem, after_all-IsHearing, after_all_matched,
}

-- A device that waits for the first word of a frame.
pub record IsWaiting (s : SataSim) : Type 0 where
  pub in_state : s.link_state ≡ rcv_data
  pub up : s.oob_done ≡ true
  pub fresh : s.data_count ≡ 0
  pub room : length s.received_data ≡ 512

-- The device after the first word `w`, which stood as `line` on the line.
unfoldable pub first : ℕ → ℕ → SataSim → SataSim
unfolding Phy.process_tx_signals Phy.device_phy_sends reset_data_buffer calculate_crc
first line w s0 =
    let captured = (Phy.process_tx_signals (signals false line) s0).0 in
    let s = reset_data_buffer (Phy.device_phy_sends Primitive.r_ip_p true captured) in
    let counted = record s {
      scrambler_fill = next_fill scrambler_initial;
      lba = bit_and (w / 2 ^ 8) 0xFF;
      data_count = 1;
    } in
    set_command_flags (bit_and (w / 2 ^ 16) 0xFF) (bit_and w 0xFF) (calculate_crc w counted)

unfoldable pub first_line : ℕ → ℕ
first_line w = swap_endian (bit_xor w (prn_of scrambler_initial))

receive_first_lem :
    (w : ℕ) (s : SataSim)
    → w < 2 ^ 32
    → receive_first (
        Phy.device_phy_sends Primitive.r_ip_p true
          (Phy.process_tx_signals (signals false (first_line w)) s).0)
      ≡ first (first_line w) w s
unfolding receive_first first first_line
receive_first_lem w s0 hw =
    let captured = (Phy.process_tx_signals (signals false (first_line w)) s0).0 in
    let s = reset_data_buffer (Phy.device_phy_sends Primitive.r_ip_p true captured) in
    ap
      (λ x. set_command_flags (bit_and (x / 2 ^ 16) 0xFF) (bit_and x 0xFF) (
        calculate_crc x (record s {
          scrambler_fill = next_fill scrambler_initial;
          lba = bit_and (x / 2 ^ 8) 0xFF;
          data_count = 1;
        })))
      (unscramble scrambler_initial w hw)

hears_first :
    (s : SataSim)
    → s.data_count ≡ 0
    → s.txphy_primitive ≡ false
    → device_link_receives (Phy.device_phy_sends Primitive.r_ip_p true s)
      ≡ some (receive_first (Phy.device_phy_sends Primitive.r_ip_p true s))
unfolding device_link_receives Phy.device_phy_sends
hears_first s fresh line = simp (fresh, line)

-- A data word leaves the device in the state that listens.
case_heard :
    (s u : SataSim)
    → device_link_receives (Phy.device_phy_sends Primitive.r_ip_p true s) ≡ some u
    → u.txphy_primitive ≡ false
    → link_case rcv_data s ≡ some u
unfolding link_case wait_for_primitive
case_heard s u e line = ground arith

first-primitive : (line w : ℕ) (s : SataSim) → (first line w s).txphy_primitive ≡ false
unfolding first set_command_flags
first-primitive line w s = ground arith

modelled : (s : SataSim) → s.oob_done ≡ true → link_layer_model s ≡ link_case s.link_state s
unfolding link_layer_model
modelled s up = ap (λ b. if b then link_case s.link_state s else some s) up

pub clock-first :
    (w : ℕ) (s : SataSim)
    → IsWaiting s
    → w < 2 ^ 32
    → clock false (first_line w) s ≡ some (first (first_line w) w s)
unfolding clock
clock-first w s h hw =
    let captured = (Phy.process_tx_signals (signals false (first_line w)) s).0 in
    let fresh : captured.data_count ≡ 0 = unfold Phy.process_tx_signals in h.fresh in
    let line : captured.txphy_primitive ≡ false = unfold Phy.process_tx_signals in refl in
    let up : captured.oob_done ≡ true = unfold Phy.process_tx_signals in h.up in
    let state : captured.link_state ≡ rcv_data = unfold Phy.process_tx_signals in h.in_state in
    let heard = hears_first captured fresh line ∙ ap some (receive_first_lem w s hw) in
    let case = case_heard captured _ heard (first-primitive (first_line w) w s) in
    modelled captured up ∙ ap (λ l. link_case l captured) state ∙ case

-- The fields that the first word leaves.
pub record IsFirst (w : ℕ) (s s' : SataSim) : Type 0 where
  pub hearing : IsHearing s'
  pub one : s'.data_count ≡ 1
  pub fill_is : s'.scrambler_fill ≡ next_fill scrambler_initial
  pub crc_is : s'.crc ≡ advance_crc crc_initial w
  pub buffer_is : s'.received_data ≡ s.received_data

pub first-IsFirst : (line w : ℕ) (s : SataSim) → IsWaiting s → IsFirst w s (first line w s)
unfolding first set_command_flags
first-IsFirst line w s h = ground arith

-- The device after a frame of the words `w ∷ ws` and a last word `c`.
unfoldable pub heard_frame : ℕ → List ℕ → ℕ → SataSim → SataSim
heard_frame w ws c s = after_all (ws ++ c ∷ []) (first (first_line w) w s)

words-append : (ws : List ℕ) (c : ℕ) → AreWords ws → c < 2 ^ 32 → AreWords (ws ++ c ∷ [])
words-append [] c a h = (h, tt)
words-append (w ∷ ws) c a h = (a.0, words-append ws c a.1 h)

module _ (w : ℕ) (ws : List ℕ) (c : ℕ) (s : SataSim) (waiting : IsWaiting s) where
  pub hear_frame :
      w < 2 ^ 32
      → AreWords ws
      → c < 2 ^ 32
      → length ws < 512
      → hear (wire scrambler_initial (w ∷ ws ++ c ∷ [])) s ≡ some (heard_frame w ws c s)
  unfolding hear wire heard_frame
  hear_frame hw hws hc short =
      let begun = first-IsFirst (first_line w) w s waiting in
      ap (λ o. o >>= hear (wire (next_fill scrambler_initial) (ws ++ c ∷ []))) start
      ∙ rw (← begun.fill_is) (
          hear_lem (ws ++ c ∷ []) (first (first_line w) w s) begun.hearing
            (omega (arith, length-append ws (c ∷ []), begun.one)) (words-append ws c hws hc))
    where
      start :
          clock false (swap_endian (bit_xor w (prn_of scrambler_initial))) s
          ≡ some (first (first_line w) w s)
      start = unfold first_line in clock-first w s waiting hw

  pub heard_frame-IsHearing : IsHearing (heard_frame w ws c s)
  unfolding heard_frame
  heard_frame-IsHearing =
      after_all-IsHearing (ws ++ c ∷ []) _ (first-IsFirst (first_line w) w s waiting).hearing

  pub heard_frame_matched :
      (heard_frame w ws c s).crc_matched ≡ (c == crc_words crc_initial (w ∷ ws))
  unfolding heard_frame crc_words
  heard_frame_matched =
      rw (← (first-IsFirst (first_line w) w s waiting).crc_is)
        (after_all_matched ws c (first (first_line w) w s))

-- The device after the EOF primitive, and after the clock that follows it.
ended : SataSim → SataSim
unfolding Phy.process_tx_signals Phy.device_phy_sends
ended s0 =
    let captured = (Phy.process_tx_signals (signals true Primitive.eof_p) s0).0 in
    let s = Phy.device_phy_sends Primitive.r_ip_p true captured in
    record s { data_complete = true; link_state = rcveof }

judged : Bool → ℕ → SataSim → SataSim
unfolding Phy.process_tx_signals Phy.device_phy_sends
judged primitive word s0 =
    let captured = (Phy.process_tx_signals (signals primitive word) s0).0 in
    let s = Phy.device_phy_sends Primitive.r_ip_p true captured in
    record s { link_state = if s.crc_matched then goodend else badend }

clock_eof : (s : SataSim) → IsHearing s → clock true Primitive.eof_p s ≡ some (ended s)
unfolding clock link_layer_model device_link_receives ended
clock_eof s h = ground arith

clock-judged :
    (s : SataSim) (primitive : Bool) (word : ℕ)
    → IsHearing s
    → clock primitive word (ended s) ≡ some (judged primitive word (ended s))
unfolding clock link_layer_model ended judged
clock-judged s primitive word h = ground arith

-- The device after a whole frame of the words `w ∷ ws` and `c`, EOF and one more clock.
pub verdict : ℕ → List ℕ → ℕ → Bool → ℕ → SataSim → SataSim
verdict w ws c primitive word s = judged primitive word (ended (heard_frame w ws c s))

module _ (w : ℕ) (ws : List ℕ) (c : ℕ) (primitive : Bool) (word : ℕ) (s : SataSim)
    (waiting : IsWaiting s) where
  pub deliver_lem :
      w < 2 ^ 32
      → AreWords ws
      → c < 2 ^ 32
      → length ws < 512
      → deliver (wire scrambler_initial (w ∷ ws ++ c ∷ [])) primitive word s
        ≡ some (verdict w ws c primitive word s)
  unfolding deliver verdict
  deliver_lem hw hws hc short =
      let hearing = heard_frame-IsHearing w ws c s waiting in
      rw (hear_frame w ws c s waiting hw hws hc short, clock_eof (heard_frame w ws c s) hearing)
        (clock-judged (heard_frame w ws c s) primitive word hearing)

  pub verdict_state :
      (verdict w ws c primitive word s).link_state
      ≡ (if c == crc_words crc_initial (w ∷ ws) then goodend else badend)
  unfolding verdict judged ended
  verdict_state = ap (λ b. if b then goodend else badend) (heard_frame_matched w ws c s waiting)

  pub verdict_keeps :
      ((verdict w ws c primitive word s).received_data ≡ (heard_frame w ws c s).received_data)
      × ((verdict w ws c primitive word s).data_response ≡ (heard_frame w ws c s).data_response)
  unfolding verdict judged ended
  verdict_keeps = (refl, refl)

-- What a device has to do, and to do it with.
pub record IsTold (s t : SataSim) : Type 0 where
  pub up : t.oob_done ≡ s.oob_done
  pub dma_act : t.dma_act ≡ s.dma_act
  pub dma_read : t.dma_read ≡ s.dma_read
  pub pio_setup : t.pio_setup ≡ s.pio_setup
  pub pio_read : t.pio_read ≡ s.pio_read
  pub sent_is : t.sent_data ≡ s.sent_data

pub verdict-IsTold :
    (w : ℕ) (ws : List ℕ) (c : ℕ) (primitive : Bool) (word : ℕ) (s : SataSim)
    → IsTold (heard_frame w ws c s) (verdict w ws c primitive word s)
unfolding verdict judged ended
verdict-IsTold w ws c primitive word s = ground arith

-- The first word of a data frame makes the device answer.
pub first_responds :
    (line w : ℕ) (s : SataSim) → w % 256 ≡ 0x46 → (first line w s).data_response ≡ true
unfolding first set_command_flags
first_responds line w s e = ground (arith, and_ones 8 w)

-- A frame of up to 512 words between SOF and CRC, heard by a waiting device, is judged by its last
-- word alone: after EOF and one more clock the device is in GOODEND exactly when that word is the
-- CRC of the words before it, and in BADEND otherwise. No access outside the buffer is made.
pub frame_verdict :
    (w : ℕ) (ws : List ℕ) (c : ℕ) (primitive : Bool) (word : ℕ) (s : SataSim)
    → IsWaiting s
    → w < 2 ^ 32
    → AreWords ws
    → c < 2 ^ 32
    → length ws < 512
    → (t : SataSim) × (deliver (wire scrambler_initial (w ∷ ws ++ c ∷ [])) primitive word s
        ≡ some t)
      × (t.link_state ≡ (if c == crc_words crc_initial (w ∷ ws) then goodend else badend))
frame_verdict w ws c primitive word s waiting hw hws hc short = (
  verdict w ws c primitive word s,
  deliver_lem w ws c primitive word s waiting hw hws hc short,
  verdict_state w ws c primitive word s waiting,
)
