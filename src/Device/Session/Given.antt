-- ===== src/Device/Session/Given.antt =====
-- Frames that the device gives, from IDLE to IDLE.
use wbsata.Common.{
  ℕ, suc, Bool, true, false, ◌||◌, Option, some, List, [], ◌∷◌, length, ◌≤◌, ◌≡◌, ap₂, ◌∙◌, arith,
  length-take,
}
use wbsata.Device.State.{idle, send_chkrdy, send_data, send_eof, wait, SataSim}
use wbsata.Device.Phy.{device_phy_sends}
use wbsata.Device.Words.{device_link_sends}
use wbsata.Device.Primitive
use wbsata.Device.Link.{
  start_frame, frame_word, end_frame, dma_act_fis_response, pio_setup_fis_response,
  d2h_reg_fis_response,
}
use wbsata.Device.Frame.{say, spoken}
use wbsata.Device.Frame.Send.{Serves, words_sent, said, say_frame}
use wbsata.Device.Frame.Serving.{
  ServesDma, ServesPio, ServesData, ServesD2h, dma_done, pio_done, data_done, d2h_done, dma-Serves,
  pio-Serves, d2h-Serves, data-Serves, data_words,
}
use wbsata.Device.Session.{Pace, give_frame}
use wbsata.Device.Session.Quiet.{
  Marks, Holds, IsIn, IsFreshIn, answer_due, answer_held, answer_starts, answer_ends,
  judgement_held, judgement_good, hold_enters,
}

module _ (m : Marks) (sent : Option (List ℕ)) (buffer : List ℕ) where
  words_sent-Holds :
      (ws : List ℕ) (s : SataSim) → Holds m sent buffer s → Holds m sent buffer (words_sent ws s)
  unfolding words_sent frame_word device_link_sends
  words_sent-Holds [] s h = h
  words_sent-Holds (w ∷ ws) s h = words_sent-Holds ws (frame_word w s) (ground (arith, h))

  start_frame-Holds : (s : SataSim) → Holds m sent buffer s → Holds m sent buffer (start_frame s)
  unfolding start_frame device_phy_sends
  start_frame-Holds s h = ground (arith, h)

  -- A frame, where the device at the start of a frame says it and has then the marks `m'`.
  give_lem :
      (m' : Marks) (pace : Pace) (n : ℕ) (out : List (Bool × ℕ)) (s : SataSim)
      → (m.dma_act || m.dma_read || m.pio_setup || m.pio_read || m.data_response) ≡ true
      → IsIn m sent buffer idle s
      → ((u : SataSim)
          → IsFreshIn m sent buffer send_data u
          → (t : SataSim) × (say n u ≡ some (t, out)) × IsIn m' sent buffer send_eof t)
      → (t : SataSim) × (give_frame pace n s ≡ some (t, out)) × IsIn m' sent buffer idle t
  unfolding give_frame
  give_lem m' pace n out s due h says =
      let (s1, run1, h1) =
        hold_enters (IsIn m sent buffer idle) (IsFreshIn m sent buffer send_chkrdy) Primitive.sync_p
          (λ u hu. answer_due m sent buffer u hu due) (answer_held m sent buffer) pace.silent s h in
      let (s2, run2, h2) = answer_starts m sent buffer s1 h1 in
      let (s3, run3, h3) = says s2 h2 in
      let (s4, run4, h4) =
        hold_enters (IsIn m' sent buffer send_eof) (IsIn m' sent buffer wait) Primitive.r_ip_p
          (answer_ends m' sent buffer) (judgement_held m' sent buffer) pace.judging s3 h3 in
      let (s5, run5, h5) = judgement_good m' sent buffer s4 h4 in
      (s5, simp (run1, run2, run3, run4, run5), h5)

  end_frame-Holds : (s : SataSim) → Holds m sent buffer s → Holds m sent buffer (end_frame s)
  unfolding end_frame device_link_sends
  end_frame-Holds s h = ground (arith, h)

module _ (sent : Option (List ℕ)) (buffer : List ℕ) where
  says_lem :
      (m m' : Marks) (words : List ℕ) (P : SataSim → Type 0) (done : SataSim → SataSim)
      → Serves words P done
      → ((v : SataSim) → Holds m sent buffer v → Holds m' sent buffer (done v))
      → (u : SataSim) → IsFreshIn m sent buffer send_data u
      → P u
      → (t : SataSim) × (say (suc (suc (length words))) u ≡ some (t, spoken words))
        × IsIn m' sent buffer send_eof t
  unfolding said
  says_lem m m' words P done serving effect u h p =
      let (run, state) =
        say_frame words P done serving u p h.fresh.count h.fresh.fill_is h.fresh.crc_is in
      let before =
        words_sent-Holds m sent buffer words (start_frame u)
          (start_frame-Holds m sent buffer u h.holds) in
      (
        said words P done serving words (start_frame u),
        run,
        record { in_state = state; holds = end_frame-Holds m' sent buffer _ (effect _ before) },
      )

  -- A DMA activation is given before anything else.
  pub gives_dma_activate :
      (m : Marks) (pace : Pace) (s : SataSim)
      → IsIn m sent buffer idle s
      → m.dma_act ≡ true
      → (t : SataSim) × (give_frame pace 3 s ≡ some (t, spoken dma_act_fis_response))
        × IsIn (record m { dma_act = false }) sent buffer idle t
  unfolding dma_done
  gives_dma_activate m pace s h act =
      give_lem m sent buffer (record m { dma_act = false }) pace 3 (spoken dma_act_fis_response) s
        (ground (arith, act)) h
        (λ u hu.
          says_lem m (record m { dma_act = false }) dma_act_fis_response ServesDma dma_done
            dma-Serves (λ v hv. ground (arith, hv)) u hu
            ((hu.in_state, hu.holds.up), hu.holds.dma_act ∙ act))

  -- Then a PIO set-up.
  pub gives_pio_setup :
      (m : Marks) (pace : Pace) (s : SataSim)
      → IsIn m sent buffer idle s
      → m.dma_act ≡ false
      → m.pio_setup ≡ true
      → (t : SataSim) × (give_frame pace 7 s ≡ some (t, spoken pio_setup_fis_response))
        × IsIn (record m { pio_setup = false }) sent buffer idle t
  unfolding pio_done
  gives_pio_setup m pace s h no_act setup =
      give_lem m sent buffer (record m { pio_setup = false }) pace 7 (spoken pio_setup_fis_response)
        s (ground (arith, setup)) h
        (λ u hu.
          says_lem m (record m { pio_setup = false }) pio_setup_fis_response ServesPio pio_done
            pio-Serves (λ v hv. ground (arith, hv)) u hu
            ((hu.in_state, hu.holds.up), hu.holds.dma_act ∙ no_act, hu.holds.pio_setup ∙ setup))

  -- Last the status.
  pub gives_status :
      (m : Marks) (pace : Pace) (s : SataSim)
      → IsIn m sent buffer idle s
      → m.dma_act ≡ false
      → m.pio_setup ≡ false
      → (m.dma_read || m.pio_read) ≡ false
      → m.data_response ≡ true
      → (t : SataSim) × (give_frame pace 6 s ≡ some (t, spoken d2h_reg_fis_response))
        × IsIn (record m { data_response = false }) sent buffer idle t
  unfolding d2h_done
  gives_status m pace s h no_act no_setup no_read answer =
      give_lem m sent buffer (record m { data_response = false }) pace 6
        (spoken d2h_reg_fis_response) s (ground (arith, answer)) h
        (λ u hu.
          says_lem m (record m { data_response = false }) d2h_reg_fis_response ServesD2h d2h_done
            d2h-Serves (λ v hv. ground (arith, hv)) u hu
            (
              (hu.in_state, hu.holds.up),
              hu.holds.dma_act ∙ no_act,
              hu.holds.pio_setup ∙ no_setup,
              ap₂ (◌||◌) hu.holds.dma_read hu.holds.pio_read ∙ no_read,
              hu.holds.data_response ∙ answer,
            ))

-- The sector goes between the two.
pub gives_sector :
    (words buffer : List ℕ) (m : Marks) (pace : Pace) (s : SataSim)
    → IsIn m (some words) buffer idle s
    → 128 ≤ length words
    → m.dma_act ≡ false
    → m.pio_setup ≡ false
    → (m.dma_read || m.pio_read) ≡ true
    → (t : SataSim) × (give_frame pace 131 s ≡ some (t, spoken (data_words words)))
      × IsIn
          (record m { dma_read = false; pio_read = false; data_response = true })
          (some words)
          buffer
          idle
          t
unfolding data_done
gives_sector words buffer m pace s h long no_act no_setup reads =
    let m' = record m { dma_read = false; pio_read = false; data_response = true } in
    give_lem m (some words) buffer m' pace 131 (spoken (data_words words)) s (ground (arith, reads))
      h
      (λ u hu.
        let count : suc (suc (length (data_words words))) ≡ 131 =
          omega (arith, length-take 128 words long) in
        rw count at (
          says_lem (some words) buffer m m' (data_words words) (ServesData words) data_done
            (data-Serves words long) (λ v hv. ground (arith, hv)) u hu
            (
              (hu.in_state, hu.holds.up),
              hu.holds.dma_act ∙ no_act,
              hu.holds.pio_setup ∙ no_setup,
              ap₂ (◌||◌) hu.holds.dma_read hu.holds.pio_read ∙ reads,
              hu.holds.sent_is,
            )))
