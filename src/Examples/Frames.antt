-- ===== src/Examples/Frames.antt =====
-- A device that waits for a frame hears one of two payload words.
use wbsata.Common.{
  ◌<◌, length, arith, drop, none, ℕ, List, map, ◌++◌, if◌then◌else◌, ◌≡◌, ◌==◌, refl, true, [], ◌∷◌,
  some,
}
use wbsata.Device.State.{SataSim, new, rcv_data, goodend, badend}
use wbsata.Device.Scrambler.{scrambler_initial}
use wbsata.Device.Crc.{advance_crc, crc_initial}
use wbsata.Device.Words.{swap_endian}
use wbsata.Device.Primitive
use wbsata.Device.Frame.{crc_words, wire, frame, deliver}
use wbsata.Device.Frame.Verdict.{IsWaiting, frame_verdict}
use wbsata.Device.Frame.Overrun.{long_frame_faults}
use wbsata.Device.Frame.Store.{NoClash}
use wbsata.Common.{zero, suc, ap, ◌≢◌, ◌^◌}
use wbsata.Device.Frame.{AreWords}
use wbsata.Device.Frame.Deliver.{data_frame_delivered, clash_loses_words}
use wbsata.Device.Frame.Detect.{one_word_error_refused}

abbrev listening : SataSim
unfolding new
listening = record new { link_state = rcv_data; oob_done = true }

listening-IsWaiting : IsWaiting listening
unfolding new
listening-IsWaiting = record { in_state = refl; up = refl; fresh = refl; room = refl }

-- A payload word, and the CRC that the device has after the header of a data frame.
abbrev payload : ℕ
payload = 0x01020304

abbrev header : ℕ
header = 0x46

data_frame_delivered_example :
    let stored = map swap_endian (payload ∷ []) in
    (t : SataSim) × (deliver (frame (header ∷ payload ∷ [])) true Primitive.sync_p listening
      ≡ some t)
    × (t.link_state ≡ goodend)
    × (t.received_data ≡ stored ++ drop (length stored) listening.received_data)
    × (t.data_response ≡ true)
unfolding advance_crc
data_frame_delivered_example =
    data_frame_delivered header (payload ∷ []) true Primitive.sync_p listening listening-IsWaiting
      refl (omega arith) (omega arith, tt) (omega arith) (λ e. absurd (omega arith), tt)

frame_verdict_example :
    (t : SataSim) × (deliver
        (wire scrambler_initial (header ∷ (payload ∷ []) ++ 7 ∷ []))
        true
        Primitive.sync_p
        listening
      ≡ some t)
    × (t.link_state
        ≡ (if 7 == crc_words crc_initial (header ∷ payload ∷ []) then goodend else badend))
frame_verdict_example =
    frame_verdict header (payload ∷ []) 7 true Primitive.sync_p listening listening-IsWaiting
      (omega arith) (omega arith, tt) (omega arith) (omega arith)

one_word_error_refused_example :
    (t : SataSim) × (deliver
        (wire scrambler_initial
          (((header ∷ []) ++ 7 ∷ []) ++ crc_words crc_initial ((header ∷ []) ++ payload ∷ []) ∷ []))
        true
        Primitive.sync_p
        listening
      ≡ some t)
    × (t.link_state ≡ badend)
one_word_error_refused_example =
    one_word_error_refused (header ∷ []) payload 7 [] true Primitive.sync_p listening
      listening-IsWaiting (omega arith, tt) (omega arith) (omega arith) tt
      (λ e. absurd (omega arith)) (omega arith)

abbrev clash : ℕ
unfolding advance_crc
clash = advance_crc crc_initial header

clash_loses_words_example :
    (t : SataSim) × (stored : List ℕ) × (deliver
        (frame (header ∷ clash ∷ []))
        true
        Primitive.sync_p
        listening
      ≡ some t)
    × (t.link_state ≡ goodend)
    × (t.received_data ≡ stored ++ drop (length stored) listening.received_data)
    × (length stored < 1)
unfolding clash advance_crc
clash_loses_words_example =
    clash_loses_words header (clash ∷ []) true Primitive.sync_p listening listening-IsWaiting refl
      (omega arith) (omega arith, tt) (omega arith) (λ h. h.0 refl)

-- Words that are 0, or 1 where the CRC of the words before them is 0.
unlike : ℕ → ℕ → List ℕ
unlike c zero = []
unlike c (suc n) = let w = if c == 0 then 1 else 0 in w ∷ unlike (advance_crc c w) n

length-unlike : (c n : ℕ) → length (unlike c n) ≡ n
unfolding unlike
length-unlike c zero = refl
length-unlike c (suc n) = ap suc (length-unlike (advance_crc c (if c == 0 then 1 else 0)) n)

unlike-lt : (c : ℕ) → (if c == 0 then 1 else 0) < 2 ^ 32
unlike-lt c = ground arith

unlike-AreWords : (c n : ℕ) → AreWords (unlike c n)
unfolding unlike
unlike-AreWords c zero = tt
unlike-AreWords c (suc n) =
    (unlike-lt c, unlike-AreWords (advance_crc c (if c == 0 then 1 else 0)) n)

unlike-ne : (c : ℕ) → (if c == 0 then 1 else 0) ≢ c
unlike-ne c = ground arith

unlike-NoClash : (c n : ℕ) → NoClash c (unlike c n)
unfolding unlike
unlike-NoClash c zero = tt
unlike-NoClash c (suc n) = (unlike-ne c, unlike-NoClash (advance_crc c (if c == 0 then 1 else 0)) n)

abbrev full_payload : List ℕ
unfolding unlike
full_payload = unlike (advance_crc crc_initial header) 512

abbrev extra : ℕ
extra = if crc_words crc_initial (header ∷ full_payload) == 0 then 1 else 0

long_frame_faults_example :
    deliver
      (wire scrambler_initial (header ∷ full_payload ++ extra ∷ 5 ∷ []))
      true
      Primitive.sync_p
      listening
    ≡ none
unfolding full_payload unlike
long_frame_faults_example =
    long_frame_faults header full_payload extra (5 ∷ []) true Primitive.sync_p listening
      listening-IsWaiting refl (omega arith) (unlike-AreWords (advance_crc crc_initial header) 512)
      (length-unlike (advance_crc crc_initial header) 512)
      (unlike-NoClash (advance_crc crc_initial header) 512)
      (unlike-lt (crc_words crc_initial (header ∷ full_payload)))
      (unlike-ne (crc_words crc_initial (header ∷ full_payload)))
