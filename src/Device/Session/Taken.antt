-- ===== src/Device/Session/Taken.antt =====
-- Frames that the device takes, from IDLE to IDLE.
use wbsata.Common.{
  ℕ, ◌/◌, ◌%◌, ◌^◌, ◌<◌, true, false, ◌||◌, Option, some, List, [], ◌∷◌, ◌++◌, map, length, drop,
  ◌≡◌, refl, sym, ap, ◌∙◌, arith, ◌==◌, if◌then◌else◌,
}
use wbsata.Common.Xor.{and_ones}
use wbsata.Device.State.{SataSim, idle, rcv_chkrdy, rcv_data, goodend}
use wbsata.Device.Crc.{crc_initial, advance_crc}
use wbsata.Device.Primitive
use wbsata.Device.Words.{
  swap_endian, set_command_flags, fis_type_dma_write, fis_type_dma_read, fis_type_pio_write_buffer,
  fis_type_pio_read_buffer,
}
use wbsata.Device.Frame.{AreWords, crc_words, deliver, frame}
use wbsata.Device.Frame.Receive.{after, after_all, line_of}
use wbsata.Device.Frame.Verdict.{
  IsWaiting, IsTold, first, first_line, heard_frame, verdict, verdict-IsTold, verdict_keeps,
  deliver_lem, verdict_state,
}
use mathlib.Core.Option.{some-injective}
use wbsata.Common.{==_iff}
use wbsata.Device.State.{badend}
use wbsata.Device.Frame.Store.{NoClash}
use wbsata.Device.Frame.Detect.{crc_words-IsWord}
use wbsata.Device.Frame.Deliver.{data_frame_delivered}
use wbsata.Device.Session.{Pace, take_frame}
use wbsata.Device.Session.Quiet.{
  Marks, Holds, IsIn, IsFreshIn, idle_request, request_held, frame_starts, verdict_held, turn_ends,
  hold_keeps, hold_enters,
}

IsTold-trans : (s t u : SataSim) → IsTold s t → IsTold t u → IsTold s u
IsTold-trans s t u p q = record {
  up = q.up ∙ p.up;
  dma_act = q.dma_act ∙ p.dma_act;
  dma_read = q.dma_read ∙ p.dma_read;
  pio_setup = q.pio_setup ∙ p.pio_setup;
  pio_read = q.pio_read ∙ p.pio_read;
  sent_is = q.sent_is ∙ p.sent_is;
}

after-IsTold : (line w : ℕ) (s : SataSim) → IsTold s (after line w s)
unfolding after
after-IsTold line w s = ground arith

after_all-IsTold : (ws : List ℕ) (s : SataSim) → IsTold s (after_all ws s)
unfolding after_all
after_all-IsTold [] s = ground arith
after_all-IsTold (w ∷ ws) s =
    IsTold-trans s (after (line_of w s) w s) _ (after-IsTold (line_of w s) w s)
      (after_all-IsTold ws (after (line_of w s) w s))

-- A device that expects no data stores none.
after_discards :
    (line w : ℕ) (s : SataSim)
    → s.data_response ≡ false
    → ((after line w s).received_data ≡ s.received_data) × ((after line w s).data_response ≡ false)
unfolding after
after_discards line w s e = ground arith

after_all_discards :
    (ws : List ℕ) (s : SataSim)
    → s.data_response ≡ false
    → ((after_all ws s).received_data ≡ s.received_data) × ((after_all ws s).data_response ≡ false)
unfolding after_all
after_all_discards [] s e = (refl, e)
after_all_discards (w ∷ ws) s e =
    let (same, still) = after_discards (line_of w s) w s e in
    let (all, end) = after_all_discards ws (after (line_of w s) w s) still in (all ∙ same, end)

-- The marks after a command.
abbrev pub told : ℕ → Marks → Marks
told operation m = record {
  dma_act = operation == fis_type_dma_write || m.dma_act;
  dma_read = operation == fis_type_dma_read || m.dma_read;
  pio_setup =
      operation == fis_type_pio_write_buffer
      || operation == fis_type_pio_read_buffer
      || m.pio_setup;
  pio_read = operation == fis_type_pio_read_buffer || m.pio_read;
  data_response = m.data_response;
}

module _ (m : Marks) (sent : Option (List ℕ)) (buffer : List ℕ) where
  first_command :
      (line w operation : ℕ) (s : SataSim)
      → Holds m sent buffer s
      → w % 256 ≡ 0x27
      → w / 2 ^ 16 % 256 ≡ operation
      → Holds (told operation m) sent buffer (first line w s)
  unfolding first set_command_flags
  first_command line w operation s h type command =
      ground (arith, and_ones 8 w, and_ones 8 (w / 2 ^ 16), h)

  first_data :
      (line w : ℕ) (s : SataSim)
      → Holds m sent buffer s
      → w % 256 ≡ 0x46
      → Holds (record m { data_response = true }) sent buffer (first line w s)
  unfolding first set_command_flags
  first_data line w s h type = ground (arith, and_ones 8 w, h)

  waits_for_frame :
      (s : SataSim) → IsFreshIn m sent buffer rcv_data s → length buffer ≡ 512 → IsWaiting s
  waits_for_frame s h room = record {
    in_state = h.in_state;
    up = h.holds.up;
    fresh = h.fresh.count;
    room = ap length h.holds.received ∙ room;
  }

  take_lem :
      (m' : Marks) (buffer' : List ℕ) (pace : Pace) (words : List ℕ) (s : SataSim)
      → IsIn m sent buffer idle s
      → ((u : SataSim)
          → IsFreshIn m sent buffer rcv_data u
          → (t : SataSim) × (deliver (frame words) true Primitive.wtrm_p u ≡ some t)
            × IsIn m' sent buffer' goodend t)
      → (t : SataSim) × (take_frame pace words s ≡ some t) × IsIn m' sent buffer' idle t
  unfolding take_frame
  take_lem m' buffer' pace words s h delivers =
      let (s1, run1, h1) =
        hold_enters (IsIn m sent buffer idle) (IsFreshIn m sent buffer rcv_chkrdy) Primitive.xrdy_p
          (idle_request m sent buffer) (request_held m sent buffer) pace.asking s h in
      let (s2, run2, h2) = frame_starts m sent buffer s1 h1 in
      let (s3, run3, h3) = delivers s2 h2 in
      let (s4, run4, h4) =
        hold_keeps (IsIn m' sent buffer' goodend) Primitive.wtrm_p (verdict_held m' sent buffer')
          pace.settling s3 h3 in
      let (s5, run5, h5) = turn_ends m' sent buffer' s4 h4 in
      (s5, simp (run1, run2, run3, run4) run5, h5)

  -- What a frame leaves of the marks of its first word.
  verdict-Holds :
      (m' : Marks) (buffer' : List ℕ) (w : ℕ) (ws : List ℕ) (c : ℕ) (s t : SataSim)
      → Holds m' sent buffer (first (first_line w) w s)
      → t ≡ verdict w ws c true Primitive.wtrm_p s
      → t.received_data ≡ buffer'
      → t.data_response ≡ m'.data_response
      → Holds m' sent buffer' t
  unfolding heard_frame
  verdict-Holds m' buffer' w ws c s t h same stored response =
      let start = first (first_line w) w s in
      let body = after_all-IsTold (ws ++ c ∷ []) start in
      let end = verdict-IsTold w ws c true Primitive.wtrm_p s in
      let all = IsTold-trans start (heard_frame w ws c s) _ body end in
      record {
        up = ap (λ u. u.oob_done) same ∙ all.up ∙ h.up;
        dma_act = ap (λ u. u.dma_act) same ∙ all.dma_act ∙ h.dma_act;
        dma_read = ap (λ u. u.dma_read) same ∙ all.dma_read ∙ h.dma_read;
        pio_setup = ap (λ u. u.pio_setup) same ∙ all.pio_setup ∙ h.pio_setup;
        pio_read = ap (λ u. u.pio_read) same ∙ all.pio_read ∙ h.pio_read;
        data_response = response;
        sent_is = ap (λ u. u.sent_data) same ∙ all.sent_is ∙ h.sent_is;
        received = stored;
      }

  -- A command frame sets the marks of its command.
  pub takes_command :
      (pace : Pace) (w : ℕ) (ws : List ℕ) (operation : ℕ) (s : SataSim)
      → IsIn m sent buffer idle s
      → length buffer ≡ 512
      → w % 256 ≡ 0x27
      → w / 2 ^ 16 % 256 ≡ operation
      → w < 2 ^ 32
      → AreWords ws
      → length ws < 512
      → m.data_response ≡ false
      → (t : SataSim) × (take_frame pace (w ∷ ws) s ≡ some t)
        × IsIn (told operation m) sent buffer idle t
  unfolding frame heard_frame
  takes_command pace w ws operation s h room type command hw hws short quiet =
      take_lem (told operation m) buffer pace (w ∷ ws) s h (λ u hu.
        let c = crc_words crc_initial (w ∷ ws) in
        let waiting = waits_for_frame u hu room in
        let begun = first_command (first_line w) w operation u hu.holds type command in
        let (kept, still) =
          after_all_discards (ws ++ c ∷ []) (first (first_line w) w u)
            (begun.data_response ∙ quiet) in
        let (same, answers) = verdict_keeps w ws c true Primitive.wtrm_p u waiting in
        let t = verdict w ws c true Primitive.wtrm_p u in
        (
          t,
          deliver_lem w ws c true Primitive.wtrm_p u waiting hw hws
              (crc_words-IsWord crc_initial (w ∷ ws) (omega arith) (hw, hws)) short,
          record {
            in_state = good w ws u waiting;
            holds =
                verdict-Holds (told operation m) buffer w ws c u t begun refl
                  (same ∙ kept ∙ begun.received) (answers ∙ still ∙ sym quiet);
          },
        ))
    where
      good :
          (w : ℕ) (ws : List ℕ) (u : SataSim)
          → IsWaiting u
          → (verdict w ws (crc_words crc_initial (w ∷ ws)) true Primitive.wtrm_p u).link_state
            ≡ goodend
      good w ws u waiting =
          let c = crc_words crc_initial (w ∷ ws) in
          let passes : (c == c) ≡ true = (==_iff c c).1 refl in
          verdict_state w ws c true Primitive.wtrm_p u waiting
          ∙ ap (λ b. if b then goodend else badend) passes

  -- A data frame fills the buffer from its start, and makes the status due.
  pub takes_data :
      (pace : Pace) (w : ℕ) (ws : List ℕ) (s : SataSim)
      → IsIn m sent buffer idle s
      → length buffer ≡ 512
      → w % 256 ≡ 0x46
      → w < 2 ^ 32
      → AreWords ws
      → length ws < 512
      → NoClash (advance_crc crc_initial w) ws
      → (t : SataSim) × (take_frame pace (w ∷ ws) s ≡ some t)
        × IsIn
            (record m { data_response = true })
            sent
            (map swap_endian ws ++ drop (length (map swap_endian ws)) buffer)
            idle
            t
  takes_data pace w ws s h room type hw hws short clear =
      let buffer' = map swap_endian ws ++ drop (length (map swap_endian ws)) buffer in
      let m' = record m { data_response = true } in
      take_lem m' buffer' pace (w ∷ ws) s h (λ u hu.
        let c = crc_words crc_initial (w ∷ ws) in
        let waiting = waits_for_frame u hu room in
        let (t, run, state, stored, responds) =
          data_frame_delivered w ws true Primitive.wtrm_p u waiting type hw hws short clear in
        let same : verdict w ws c true Primitive.wtrm_p u ≡ t = some-injective _ _ (
          sym (
            deliver_lem w ws c true Primitive.wtrm_p u waiting hw hws
              (crc_words-IsWord crc_initial (w ∷ ws) (omega arith) (hw, hws)) short)
          ∙ unfold frame in run) in
        let filled =
          stored
          ∙ ap (λ b. map swap_endian ws ++ drop (length (map swap_endian ws)) b)
              hu.holds.received in
        (
          t,
          run,
          record {
            in_state = state;
            holds =
                verdict-Holds m' buffer' w ws c u t (first_data (first_line w) w u hu.holds type)
                  (sym same) filled responds;
          },
        ))
