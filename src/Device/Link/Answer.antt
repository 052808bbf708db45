-- ===== src/Device/Link/Answer.antt =====
-- SEND_DATA: every call of a response keeps the device sound.
use mathlib.Core.Path.{sym, subst}
use wbsata.Common.{
  get_elem?, ◌==◌, Bool-cases, ◌-◌, ℕ, ◌≤◌, ◌<◌, true, false, ◌||◌, Option, none, some, ◌>>=◌,
}
use wbsata.Common.{◌≡◌, refl, inl, inr, length, arith}
use wbsata.Device.Scrambler.Stream.{IsLive, next_fill-IsLive}
use wbsata.Device.Crc.Register.{IsWord, advance_crc-fits}
use wbsata.Device.State.{send_data, SataSim}
use wbsata.Device.Words.{device_link_sends}
use wbsata.Device.Phy.{device_phy_sends}
use wbsata.Device.Link.{
  d2h_reg_fis_response, get_sent_data, has_response, respond, dma_activate, pio_setup_response,
  data_send, pio_setup_fis_response, d2h_response, start_frame, frame_word, end_frame,
}
use wbsata.Device.Link.Safety.{IsSound, last_count}

-- The three things that a response does keep the device sound.
start-IsSound :
    (s : SataSim)
    → IsSound s
    → s.link_state ≡ send_data
    → s.data_count ≡ 0
    → IsSound (start_frame s)
unfolding start_frame device_phy_sends has_response
start-IsSound s h st e = ground arith

word-IsSound :
    (w : ℕ) (s : SataSim)
    → IsSound s
    → s.link_state ≡ send_data
    → s.data_count < last_count s
    → IsSound (frame_word w s)
unfolding frame_word device_link_sends has_response
word-IsSound w s h st e =
    ground (arith, next_fill-IsLive s.scrambler_fill, advance_crc-fits s.crc w)

end-IsSound :
    (s : SataSim)
    → IsLive s.scrambler_fill
    → IsWord s.crc
    → length s.received_data ≡ 512
    → s.align_cnt ≤ 100
    → IsSound (end_frame s)
unfolding end_frame device_link_sends
end-IsSound s a b c d = ground (arith, next_fill-IsLive s.scrambler_fill)

-- What one call of a response comes to.
pub data Responded (last : ℕ) (s t : SataSim) : Type 0 where
  started : s.data_count ≡ 0 → t ≡ start_frame s → Responded last s t
  sent : (w : ℕ) → s.data_count < last → t ≡ frame_word w s → Responded last s t
  ended :
      (u : SataSim)
      → u.scrambler_fill ≡ s.scrambler_fill
      → u.crc ≡ s.crc
      → u.received_data ≡ s.received_data
      → u.align_cnt ≡ s.align_cnt
      → u.lba ≡ s.lba
      → t ≡ end_frame u
      → Responded last s t

chosen :
    (last : ℕ) (o : Option ℕ) (s t : SataSim)
    → s.data_count < last
    → (do word ← o; some (frame_word word s)) ≡ some t
    → Responded last s t
chosen last none s t h e = cc
chosen last (some w) s t h e = sent w h (cc)

pio_Responded : (s t : SataSim) → s.data_count ≤ 6 → pio_setup_response s ≡ some t → Responded 6 s t
unfolding pio_setup_response
pio_Responded s t h e = elim (Bool-cases (s.data_count == 0)) [
  | inl z ↦ started (ground arith) (ground arith)
  | inr z ↦ elim (Bool-cases (s.data_count == 6)) [
    | inl y ↦ ended (record s { pio_setup = false }) refl refl refl refl refl (ground arith)
    | inr y ↦
        chosen 6 (get_elem? pio_setup_fis_response (s.data_count - 1)) s t (ground arith)
          (rw (z, y) at e)
  ]
]

dma_Responded : (s t : SataSim) → s.data_count ≤ 2 → dma_activate s ≡ some t → Responded 2 s t
unfolding dma_activate
dma_Responded s t h e = elim (Bool-cases (s.data_count == 0)) [
  | inl z ↦ started (ground arith) (ground arith)
  | inr z ↦ elim (Bool-cases (s.data_count == 1)) [
    | inl y ↦ sent 0x39 (ground arith) (ground arith)
    | inr y ↦ ended (record s { dma_act = false }) refl refl refl refl refl (ground arith)
  ]
]

d2h_Responded : (s t : SataSim) → s.data_count ≤ 5 → d2h_response s ≡ some t → Responded 5 s t
unfolding d2h_response
d2h_Responded s t h e = elim (Bool-cases (s.data_count == 0)) [
  | inl z ↦ started (ground arith) (ground arith)
  | inr z ↦ elim (Bool-cases (s.data_count == 5)) [
    | inl y ↦ ended (record s { data_response = false }) refl refl refl refl refl (ground arith)
    | inr y ↦
        chosen 5 (get_elem? d2h_reg_fis_response (s.data_count - 1)) s t (ground arith)
          (rw (z, y) at e)
  ]
]

data_Responded : (s t : SataSim) → s.data_count ≤ 130 → data_send s ≡ some t → Responded 130 s t
unfolding data_send
data_Responded s t h e = elim (Bool-cases (s.data_count == 0)) [
  | inl z ↦ started (ground arith) (ground arith)
  | inr z ↦ elim (Bool-cases (s.data_count == 1)) [
    | inl y ↦ sent 0x46 (ground arith) (ground arith)
    | inr y ↦ elim (Bool-cases (s.data_count == 130)) [
      | inl x ↦
          ended (record s { dma_read = false; pio_read = false; data_response = true }) refl refl
            refl refl refl (ground arith)
      | inr x ↦
          chosen 130 (get_sent_data (s.data_count - 2) s) s t (ground arith) (rw (z, y, x) at e)
    ]
  ]
]

Responded-IsSound :
    (last : ℕ) (s t : SataSim)
    → IsSound s
    → s.link_state ≡ send_data
    → last ≡ last_count s
    → Responded last s t
    → IsSound t
Responded-IsSound last s t h st e (started z eq) = subst IsSound (sym eq) (start-IsSound s h st z)
Responded-IsSound last s t h st e (sent w lt eq) =
    subst IsSound (sym eq) (word-IsSound w s h st (rw (← e) lt))
Responded-IsSound last s t h st e (ended u a b c d l eq) =
    subst IsSound (sym eq)
      (end-IsSound u (rw a h.live) (rw b h.crc_word) (rw c h.buffer) (rw d h.aligned))

pub respond_cases :
    (s t : SataSim)
    → s.data_count ≤ last_count s
    → has_response s ≡ true
    → respond s ≡ some t
    → Responded (last_count s) s t
unfolding respond has_response
respond_cases s t h due e = elim (Bool-cases s.dma_act) [
  | inl dma ↦
      let last : 2 ≡ last_count s = ground arith in
      let run : dma_activate s ≡ some t = ground arith in
      subst (λ n. Responded n s t) last (dma_Responded s t (omega arith) run)
  | inr no_dma ↦ elim (Bool-cases s.pio_setup) [
    | inl pio ↦
        let last : 6 ≡ last_count s = ground arith in
        let run : pio_setup_response s ≡ some t = ground arith in
        subst (λ n. Responded n s t) last (pio_Responded s t (omega arith) run)
    | inr no_pio ↦ elim (Bool-cases (s.dma_read || s.pio_read)) [
      | inl read ↦
          let last : 130 ≡ last_count s = ground arith in
          let run : data_send s ≡ some t = ground arith in
          subst (λ n. Responded n s t) last (data_Responded s t (omega arith) run)
      | inr no_read ↦
          let last : 5 ≡ last_count s = ground arith in
          let run : d2h_response s ≡ some t = ground arith in
          subst (λ n. Responded n s t) last (d2h_Responded s t (omega arith) run)
    ]
  ]
]

pub case_send_data :
    (s t : SataSim) → IsSound s → s.link_state ≡ send_data → respond s ≡ some t → IsSound t
case_send_data s t h st e =
    Responded-IsSound (last_count s) s t h st refl
      (respond_cases s t (h.counted st) (h.pending (rw st refl)) e)
