-- ===== src/Device/Frame/Deliver.antt =====
-- A data frame, from the line to the device's buffer.
use wbsata.Common.{
  suc, ap₂, ℕ, ◌≤◌, ◌<◌, ◌%◌, ◌^◌, Bool, true, some, ◌≡◌, refl, sym, ap, ◌∙◌, arith,
}
use wbsata.Common.{List, [], ◌∷◌, ◌++◌, map, length, drop, ◌==◌, ==_iff, if◌then◌else◌}
use wbsata.Device.Crc.{advance_crc, crc_initial}
use wbsata.Device.State.{SataSim, goodend, badend}
use wbsata.Device.Words.{swap_endian}
use wbsata.Device.Frame.{AreWords, crc_words, frame, deliver}
use wbsata.Device.Frame.Receive.{after_all, line_of, after-IsNext, after_all-append}
use wbsata.Device.Frame.Verdict.{
  IsWaiting, first, first_line, first-IsFirst, first_responds, heard_frame, verdict, deliver_lem,
  verdict_state, verdict_keeps,
}
use wbsata.Device.Frame.Store.{
  NoClash, kept, kept_all, length-kept, length-kept_clash, sets, sets-zero, after_skips, stored,
}
use wbsata.Device.Frame.Detect.{crc_words-IsWord}

pub length-map : (xs : List ℕ) → length (map swap_endian xs) ≡ length xs
length-map [] = refl
length-map (x ∷ xs) = ap suc (length-map xs)

length-map-kept : (c : ℕ) (ws : List ℕ) → length (map swap_endian (kept c ws)) ≤ length ws
length-map-kept c ws = omega (arith, length-map (kept c ws), length-kept c ws)

module _ (w : ℕ) (ws : List ℕ) (s : SataSim) (waiting : IsWaiting s)
    (is_data : w % 256 ≡ 0x46) where
  abbrev crc_of : ℕ
  crc_of = crc_words crc_initial (w ∷ ws)

  -- What the device has stored when the CRC has passed.
  frame_stored :
      ((heard_frame w ws crc_of s).received_data
        ≡ sets 0 (map swap_endian (kept (advance_crc crc_initial w) ws)) s.received_data)
      × ((heard_frame w ws crc_of s).data_response ≡ true)
  unfolding heard_frame crc_words
  frame_stored =
      let begun = first-IsFirst (first_line w) w s waiting in
      let start = first (first_line w) w s in
      let body = stored ws 0 start (first_responds (first_line w) w s is_data) begun.one in
      let c = crc_words (advance_crc crc_initial w) ws in
      let end = after_all ws start in
      let agrees : c ≡ end.crc = sym (body.crc_is ∙ ap (λ d. crc_words d ws) begun.crc_is) in
      let skipped = after_skips (line_of c end) c end agrees in
      rw (after_all-append ws c start) (
        skipped.0
            ∙ body.buffer
            ∙ ap₂ (λ d buffer. sets 0 (map swap_endian (kept d ws)) buffer) begun.crc_is
                begun.buffer_is,
        (after-IsNext (line_of c end) c end).responds ∙ body.responds,
      )

-- A data frame under its CRC, heard by a waiting device, is accepted, and makes the device answer.
-- Its payload is stored from the start of the buffer, in the host's byte order and without those
-- words that equal the CRC of the words before them; the rest of the buffer is as it was.
pub data_frame-stored :
    (w : ℕ) (ws : List ℕ) (primitive : Bool) (word : ℕ) (s : SataSim)
    → IsWaiting s
    → w % 256 ≡ 0x46
    → w < 2 ^ 32
    → AreWords ws
    → length ws < 512
    → let stored = map swap_endian (kept (advance_crc crc_initial w) ws) in
      (t : SataSim) × (deliver (frame (w ∷ ws)) primitive word s ≡ some t)
      × (t.link_state ≡ goodend)
      × (t.received_data ≡ stored ++ drop (length stored) s.received_data)
      × (t.data_response ≡ true)
unfolding frame
data_frame-stored w ws primitive word s waiting is_data hw hws short =
    let c = crc_words crc_initial (w ∷ ws) in
    let stored = map swap_endian (kept (advance_crc crc_initial w) ws) in
    let (buffer, responds) = frame_stored w ws s waiting is_data in
    let keeps = verdict_keeps w ws c primitive word s waiting in
    (
      verdict w ws c primitive word s,
      deliver_lem w ws c primitive word s waiting hw hws
          (crc_words-IsWord crc_initial (w ∷ ws) (omega arith) (hw, hws)) short,
      verdict_state w ws c primitive word s waiting ∙ ap (λ b. if b then goodend else badend) same,
      keeps.0
          ∙ buffer
          ∙ sets-zero stored s.received_data
              (omega (arith, waiting.room, length-map-kept (advance_crc crc_initial w) ws)),
      keeps.1 ∙ responds,
    )
  where
    same : (crc_words crc_initial (w ∷ ws) == crc_words crc_initial (w ∷ ws)) ≡ true
    same = (==_iff _ _).1 refl

-- A data frame of fewer than 512 payload words under its CRC arrives whole at a waiting device where
-- no payload word equals the CRC of the words before it: the device accepts it, makes ready to answer, and its buffer begins with the payload
-- in the host's byte order and is otherwise as it was.
pub data_frame_delivered :
    (w : ℕ) (ws : List ℕ) (primitive : Bool) (word : ℕ) (s : SataSim)
    → IsWaiting s
    → w % 256 ≡ 0x46
    → w < 2 ^ 32
    → AreWords ws
    → length ws < 512
    → NoClash (advance_crc crc_initial w) ws
    → let stored = map swap_endian ws in
      (t : SataSim) × (deliver (frame (w ∷ ws)) primitive word s ≡ some t)
      × (t.link_state ≡ goodend)
      × (t.received_data ≡ stored ++ drop (length stored) s.received_data)
      × (t.data_response ≡ true)
data_frame_delivered w ws primitive word s waiting is_data hw hws short clear =
    rw (kept_all (advance_crc crc_initial w) ws clear) at
      (data_frame-stored w ws primitive word s waiting is_data hw hws short)

-- A data frame of fewer than 512 payload words, under its CRC, in which some payload word equals the
-- CRC of the words before it is accepted by a waiting device as well, though the device stores fewer
-- words than were sent.
pub clash_loses_words :
    (w : ℕ) (ws : List ℕ) (primitive : Bool) (word : ℕ) (s : SataSim)
    → IsWaiting s
    → w % 256 ≡ 0x46
    → w < 2 ^ 32
    → AreWords ws
    → length ws < 512
    → ¬ (NoClash (advance_crc crc_initial w) ws)
    → (t : SataSim) × (stored : List ℕ) × (deliver (frame (w ∷ ws)) primitive word s ≡ some t)
      × (t.link_state ≡ goodend)
      × (t.received_data ≡ stored ++ drop (length stored) s.received_data)
      × (length stored < length ws)
clash_loses_words w ws primitive word s waiting is_data hw hws short clash =
    let (t, run, state, buffer, responds) =
      data_frame-stored w ws primitive word s waiting is_data hw hws short in
    (
      t,
      map swap_endian (kept (advance_crc crc_initial w) ws),
      run,
      state,
      buffer,
      omega (
        arith,
        length-map (kept (advance_crc crc_initial w) ws),
        length-kept_clash (advance_crc crc_initial w) ws clash,
      ),
    )
