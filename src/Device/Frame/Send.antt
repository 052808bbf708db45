-- ===== src/Device/Frame/Send.antt =====
-- How a response of the device becomes a frame on the line, for any of the four responses.
use mathlib.Core.List.{append_assoc}
use wbsata.Common.{
  length-append, sym, ℕ, suc, ◌+◌, bit_xor, Bool, true, false, some, ◌≡◌, refl, ap, ◌∙◌, arith,
}
use wbsata.Common.{List, [], ◌∷◌, ◌++◌, map, length, get_elem?}
use wbsata.Device.Scrambler.{prn_of, next_fill, scrambler_initial}
use wbsata.Device.Crc.{advance_crc, crc_initial}
use wbsata.Device.State.{SataSim, send_data, send_eof}
use wbsata.Device.Primitive
use wbsata.Device.Words.{swap_endian, device_link_sends}
use wbsata.Device.Phy.{device_phy_sends}
use wbsata.Device.Link.{link_layer_model, respond, start_frame, frame_word, end_frame}
use wbsata.Device.Frame.{crc_words, wire, frame, say, spoken}

-- What a response does in SEND_DATA, count by count, for devices in the condition `P`.
pub record Serves (words : List ℕ) (P : SataSim → Type 0) (done : SataSim → SataSim) : Type 0 where
  pub sending : (s : SataSim) → P s → (s.link_state ≡ send_data) × (s.oob_done ≡ true)
  pub starts : (s : SataSim) → P s → s.data_count ≡ 0 → respond s ≡ some (start_frame s)
  pub serves :
      (i w : ℕ) (s : SataSim)
      → P s
      → s.data_count ≡ suc i
      → get_elem? words i ≡ some w
      → respond s ≡ some (frame_word w s)
  pub ends :
      (s : SataSim)
      → P s
      → s.data_count ≡ suc (length words)
      → respond s ≡ some (end_frame (done s))
  pub keeps_start : (s : SataSim) → P s → P (start_frame s)
  pub keeps_word : (w : ℕ) (s : SataSim) → P s → P (frame_word w s)
  pub done_registers :
      (s : SataSim) → ((done s).scrambler_fill ≡ s.scrambler_fill) × ((done s).crc ≡ s.crc)

link_respond :
    (s : SataSim) → s.link_state ≡ send_data → s.oob_done ≡ true → link_layer_model s ≡ respond s
unfolding link_layer_model
link_respond s e u = ground arith

-- The device after the words of a frame.
unfoldable pub words_sent : List ℕ → SataSim → SataSim
words_sent [] s = s
words_sent (w ∷ ws) s = words_sent ws (frame_word w s)

frame_word_lem :
    (w : ℕ) (s : SataSim)
    → ((frame_word w s).rxphy_primitive ≡ false)
      × ((frame_word w s).rxphy_data ≡ swap_endian (bit_xor w (prn_of s.scrambler_fill)))
      × ((frame_word w s).scrambler_fill ≡ next_fill s.scrambler_fill)
      × ((frame_word w s).crc ≡ advance_crc s.crc w)
      × ((frame_word w s).data_count ≡ s.data_count + 1)
unfolding frame_word device_link_sends
frame_word_lem w s = (refl, refl, refl, refl, refl)

end_frame_lem :
    (s : SataSim)
    → ((end_frame s).rxphy_primitive ≡ false)
      × ((end_frame s).rxphy_data ≡ swap_endian (bit_xor s.crc (prn_of s.scrambler_fill)))
      × ((end_frame s).link_state ≡ send_eof)
unfolding end_frame device_link_sends
end_frame_lem s = (refl, refl, refl)

start_frame_lem :
    (s : SataSim)
    → ((start_frame s).rxphy_primitive ≡ true)
      × ((start_frame s).rxphy_data ≡ Primitive.sof_p)
      × ((start_frame s).scrambler_fill ≡ s.scrambler_fill)
      × ((start_frame s).crc ≡ s.crc)
      × ((start_frame s).data_count ≡ s.data_count + 1)
unfolding start_frame device_phy_sends
start_frame_lem s = (refl, refl, refl, refl, refl)

abbrev spoken_words : List ℕ → List (Bool × ℕ)
spoken_words ws = map (λ w. (false, w)) ws

pub say_step :
    (n : ℕ) (s s' t : SataSim) (out : List (Bool × ℕ))
    → link_layer_model s ≡ some s'
    → say n s' ≡ some (t, out)
    → say (suc n) s ≡ some (t, (s'.rxphy_primitive, s'.rxphy_data) ∷ out)
unfolding say
say_step n s s' t out e f = rw (e, f) refl

get_elem?-middle :
    (pre : List ℕ) (w : ℕ) (ws : List ℕ) → get_elem? (pre ++ w ∷ ws) (length pre) ≡ some w
get_elem?-middle [] w ws = refl
get_elem?-middle (x ∷ pre) w ws = get_elem?-middle pre w ws

module _ (words : List ℕ) (P : SataSim → Type 0) (done : SataSim → SataSim)
    (serving : Serves words P done) where
  -- The device after the whole response.
  unfoldable pub said : List ℕ → SataSim → SataSim
  said ws s = end_frame (done (words_sent ws s))

  say_words :
      (pre ws : List ℕ) (s : SataSim)
      → pre ++ ws ≡ words
      → P s
      → s.data_count ≡ suc (length pre)
      → say (suc (length ws)) s
        ≡ some (said ws s, spoken_words (wire s.scrambler_fill (ws ++ crc_words s.crc ws ∷ [])))
  unfolding said words_sent wire crc_words
  say_words pre [] s e p count =
      let (sending, up) = serving.sending s p in
      let full : length words ≡ length pre =
        ap length (sym e) ∙ length-append pre [] ∙ omega arith in
      let step = link_respond s sending up ∙ serving.ends s p (omega arith) in
      let (fill, crc) = serving.done_registers s in
      let (primitive, word, state) = end_frame_lem (done s) in
      say_step 0 s (end_frame (done s)) (end_frame (done s)) [] step (unfold say in refl)
      ∙ rw (primitive, word, fill, crc) refl
  say_words pre (w ∷ ws) s e p count =
      let (sending, up) = serving.sending s p in
      let here = ap (λ l. get_elem? l (length pre)) (sym e) ∙ get_elem?-middle pre w ws in
      let step = link_respond s sending up ∙ serving.serves (length pre) w s p count here in
      let (primitive, word, fill, crc, counted) = frame_word_lem w s in
      let rest =
        say_words (pre ++ w ∷ []) ws (frame_word w s) (append_assoc pre (w ∷ []) ws ∙ e)
          (serving.keeps_word w s p) (omega (arith, length-append pre (w ∷ []), counted)) in
      say_step (suc (length ws)) s (frame_word w s) _ _ step rest
      ∙ rw (primitive, word, fill, crc) refl

  pub say_frame :
      (s : SataSim)
      → P s
      → s.data_count ≡ 0
      → s.scrambler_fill ≡ scrambler_initial
      → s.crc ≡ crc_initial
      → (say (suc (suc (length words))) s ≡ some (said words (start_frame s), spoken words))
        × ((said words (start_frame s)).link_state ≡ send_eof)
  unfolding said frame
  say_frame s p count fill crc =
      let (sending, up) = serving.sending s p in
      let step = link_respond s sending up ∙ serving.starts s p count in
      let (primitive, word, fill', crc', counted) = start_frame_lem s in
      let rest =
        say_words [] words (start_frame s) refl (serving.keeps_start s p)
          (omega (arith, counted)) in
      (
        say_step (suc (length words)) s (start_frame s) _ _ step rest
            ∙ rw (primitive, word, fill', crc', fill, crc) refl,
        (end_frame_lem (done (words_sent words (start_frame s)))).2,
      )
