-- ===== src/Device/Frame/Detect.antt =====
-- What the CRC of a frame finds: every error that is confined to one word.
use wbsata.Common.{
  ℕ, ◌+◌, ◌<◌, ◌^◌, Bool, false, some, ◌≡◌, ◌≢◌, ap, ◌∙◌, List, [], ◌∷◌, ◌++◌, length,
  length-append, arith,
}
use wbsata.Common.{◌==◌, if◌then◌else◌}
use wbsata.Device.Scrambler.{scrambler_initial}
use wbsata.Device.Crc.{advance_crc, crc_initial}
use wbsata.Device.Crc.Register.{IsWord, advance_crc-IsWord, advance_crc_injective, advance_crc_comm}
use wbsata.Device.State.{SataSim, goodend, badend}
use wbsata.Device.Frame.{AreWords, crc_words, wire, deliver}
use wbsata.Device.Frame.Verdict.{IsWaiting, frame_verdict}

pub crc_words-IsWord : (c : ℕ) (ws : List ℕ) → IsWord c → AreWords ws → IsWord (crc_words c ws)
unfolding crc_words
crc_words-IsWord c [] h a = h
crc_words-IsWord c (w ∷ ws) h a =
    crc_words-IsWord (advance_crc c w) ws (advance_crc-IsWord c w h a.0) a.1

crc_words_injective :
    (c d : ℕ) (ws : List ℕ)
    → IsWord c
    → IsWord d
    → AreWords ws
    → crc_words c ws ≡ crc_words d ws
    → c ≡ d
unfolding crc_words
crc_words_injective c d [] hc hd a e = e
crc_words_injective c d (w ∷ ws) hc hd a e =
    let before =
      crc_words_injective (advance_crc c w) (advance_crc d w) ws (advance_crc-IsWord c w hc a.0)
        (advance_crc-IsWord d w hd a.0) a.1 e in
    advance_crc_injective w c d a.0 hc hd
      (advance_crc_comm w c a.0 hc ∙ before ∙ advance_crc_comm d w hd a.0)

-- Two frames that differ in one word have different CRCs.
pub crc_words_detects :
    (c : ℕ) (pre : List ℕ) (v w : ℕ) (post : List ℕ)
    → IsWord c
    → AreWords pre
    → IsWord v
    → IsWord w
    → AreWords post
    → crc_words c (pre ++ v ∷ post) ≡ crc_words c (pre ++ w ∷ post)
    → v ≡ w
unfolding crc_words
crc_words_detects c [] v w post hc hp hv hw hq e = advance_crc_injective c v w hc hv hw (
    crc_words_injective (advance_crc c v) (advance_crc c w) post (advance_crc-IsWord c v hc hv)
      (advance_crc-IsWord c w hc hw) hq e)
crc_words_detects c (x ∷ pre) v w post hc hp hv hw hq e =
    crc_words_detects (advance_crc c x) pre v w post (advance_crc-IsWord c x hc hp.0) hp.1 hv hw hq
      e

AreWords-append : (xs ys : List ℕ) → AreWords xs → AreWords ys → AreWords (xs ++ ys)
AreWords-append [] ys a b = b
AreWords-append (x ∷ xs) ys a b = (a.0, AreWords-append xs ys a.1 b)

length_middle :
    (xs : List ℕ) (y : ℕ) (ys : List ℕ) → length (xs ++ y ∷ ys) ≡ length xs + length ys + 1
length_middle xs y ys = omega (arith, length-append xs (y ∷ ys))

-- A frame whose last word is not its CRC.
refused :
    (w : ℕ) (ws : List ℕ) (c : ℕ) (primitive : Bool) (word : ℕ) (s : SataSim)
    → IsWaiting s
    → w < 2 ^ 32
    → AreWords ws
    → c < 2 ^ 32
    → length ws < 512
    → c ≢ crc_words crc_initial (w ∷ ws)
    → (t : SataSim) × (deliver (wire scrambler_initial (w ∷ ws ++ c ∷ [])) primitive word s
        ≡ some t)
      × (t.link_state ≡ badend)
refused w ws c primitive word s waiting hw hws hc short ne =
    let (t, run, state) = frame_verdict w ws c primitive word s waiting hw hws hc short in
    (t, run, state ∙ ap (λ b. if b then goodend else badend) differs)
  where
    differs : (c == crc_words crc_initial (w ∷ ws)) ≡ false
    differs = ground arith

-- A frame of at most 512 words before its CRC, the header among them, in which one word has been
-- replaced by another, under the CRC of the frame as it was, is refused by a waiting device: after EOF and one more clock it is in BADEND.
pub one_word_error_refused :
    (pre : List ℕ) (v w : ℕ) (post : List ℕ) (primitive : Bool) (word : ℕ) (s : SataSim)
    → IsWaiting s
    → AreWords pre
    → v < 2 ^ 32
    → w < 2 ^ 32
    → AreWords post
    → v ≢ w
    → length pre + length post < 512
    → (t : SataSim) × (deliver
          (wire scrambler_initial
            ((pre ++ w ∷ post) ++ crc_words crc_initial (pre ++ v ∷ post) ∷ []))
          primitive
          word
          s
        ≡ some t)
      × (t.link_state ≡ badend)
one_word_error_refused [] v w post primitive word s waiting hp hv hw hq ne short =
    refused w post (crc_words crc_initial (v ∷ post)) primitive word s waiting hw hq
      (crc_words-IsWord crc_initial (v ∷ post) (omega arith) (hv, hq)) (omega arith)
      (λ e. ne (crc_words_detects crc_initial [] v w post (omega arith) tt hv hw hq e))
one_word_error_refused (x ∷ pre) v w post primitive word s waiting hp hv hw hq ne short =
    refused x (pre ++ w ∷ post) (crc_words crc_initial (x ∷ pre ++ v ∷ post)) primitive word s
      waiting hp.0 (AreWords-append pre (w ∷ post) hp.1 (hw, hq))
      (crc_words-IsWord crc_initial (x ∷ pre ++ v ∷ post) (omega arith)
        (hp.0, AreWords-append pre (v ∷ post) hp.1 (hv, hq)))
      (omega (arith, length_middle pre w post))
      (λ e. ne (crc_words_detects crc_initial (x ∷ pre) v w post (omega arith) hp hv hw hq e))
