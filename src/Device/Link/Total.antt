-- ===== src/Device/Link/Total.antt =====
-- Where the link layer stays inside its arrays, and where it does not.
use wbsata.Common.{get_elem?-eq-get_or, ℕ, ◌-◌, ◌≤◌, ◌<◌, true, ◌||◌, none, some, List, length}
use wbsata.Common.{◌≡◌, ◌≢◌, refl, inl, inr, Bool-cases, Option-cases, ◌==◌, arith}
use wbsata.Device.State.{
  LinkState, send_align, idle, send_chkrdy, send_data, send_eof, wait, rcv_chkrdy, rcv_data, rcveof,
  goodend, badend, SataSim, get_sent_data,
}
use wbsata.Device.Phy.{device_phy_sends}
use wbsata.Device.Primitive
use wbsata.Device.Words.{device_link_receives, receive_next}
use wbsata.Device.Link.{
  pio_setup_fis_response, d2h_reg_fis_response, link_layer_model, link_case, respond, dma_activate,
  pio_setup_response, data_send, d2h_response,
}
use wbsata.Device.Link.Safety.{IsSound}
use wbsata.Device.Link.Reach.{Reach, Reach-IsSound}

-- What a call needs of the test bench: a buffer of a sector when it sends one, and at most 512
-- words counted when it hears one.
pub record HasRoom (s : SataSim) : Type 0 where
  pub sector :
      s.link_state ≡ send_data
      → (s.dma_read || s.pio_read) ≡ true
      → (words : List ℕ) × (s.sent_data ≡ some words) × (128 ≤ length words)
  pub space : s.link_state ≡ rcv_data → s.data_count ≤ 512

dma_total : (s : SataSim) → dma_activate s ≢ none
unfolding dma_activate
dma_total s e = ground arith

pio_total : (s : SataSim) → s.data_count ≤ 6 → pio_setup_response s ≢ none
unfolding pio_setup_response
pio_total s h e = ground (arith, get_elem?-eq-get_or pio_setup_fis_response (s.data_count - 1) 0)

d2h_total : (s : SataSim) → s.data_count ≤ 5 → d2h_response s ≢ none
unfolding d2h_response
d2h_total s h e = ground (arith, get_elem?-eq-get_or d2h_reg_fis_response (s.data_count - 1) 0)

read_total :
    (i : ℕ) (s : SataSim) (words : List ℕ)
    → s.sent_data ≡ some words
    → i < length words
    → get_sent_data i s ≢ none
unfolding get_sent_data
read_total i s words e h f = ground (arith, get_elem?-eq-get_or words i 0 h)

data_total :
    (s : SataSim) (words : List ℕ)
    → s.data_count ≤ 130
    → s.sent_data ≡ some words
    → 128 ≤ length words
    → data_send s ≢ none
unfolding data_send
data_total s words h e long f = ground (arith, read_total (s.data_count - 2) s words e)

respond_total : (s : SataSim) → IsSound s → HasRoom s → s.link_state ≡ send_data → respond s ≢ none
unfolding respond
respond_total s h room st e = elim (Bool-cases s.dma_act) [
  | inl dma ↦ dma_total s (let run : dma_activate s ≡ none = ground arith in run)
  | inr no_dma ↦ elim (Bool-cases s.pio_setup) [
    | inl pio ↦
        let bound : s.data_count ≤ 6 = ground (arith, h.counted st) in
        pio_total s bound (let run : pio_setup_response s ≡ none = ground arith in run)
    | inr no_pio ↦ elim (Bool-cases (s.dma_read || s.pio_read)) [
      | inl read ↦
          let bound : s.data_count ≤ 130 = ground (arith, h.counted st) in
          let (words, sent, long) = room.sector st read in
          data_total s words bound sent long (let run : data_send s ≡ none = ground arith in run)
      | inr no_read ↦
          let bound : s.data_count ≤ 5 = ground (arith, h.counted st) in
          d2h_total s bound (ground arith)
    ]
  ]
]

receive_next_total :
    (s : SataSim)
    → length s.received_data ≡ 512
    → s.data_count ≤ 512
    → s.data_count ≢ 0
    → receive_next s ≢ none
unfolding receive_next
receive_next_total s room h ne e = ground arith

receive_total :
    (s : SataSim)
    → length s.received_data ≡ 512
    → s.data_count ≤ 512
    → device_link_receives s ≢ none
unfolding device_link_receives
receive_total s room h e = elim (Bool-cases s.txphy_primitive) [
  | inl primitive ↦ ground arith
  | inr word ↦ elim (Bool-cases (s.data_count == 0)) [
    | inl first ↦ ground arith
    | inr later ↦
        receive_next_total s room h (ground arith)
          (let run : receive_next s ≡ none = ground arith in run)
  ]
]

case_total :
    (state : LinkState) (s : SataSim)
    → s.link_state ≡ state
    → IsSound s
    → HasRoom s
    → link_case state s ≢ none
unfolding link_case
case_total send_align s st h room e = cc
case_total idle s st h room e = cc
case_total send_chkrdy s st h room e = cc
case_total send_data s st h room e = respond_total s h room st e
case_total send_eof s st h room e = cc
case_total wait s st h room e = cc
case_total rcv_chkrdy s st h room e = cc
case_total rcv_data s st h room e =
    elim (Option-cases (device_link_receives (device_phy_sends Primitive.r_ip_p true s))) [
      | inl fault ↦
          receive_total (device_phy_sends Primitive.r_ip_p true s)
            (unfold device_phy_sends in h.buffer) (unfold device_phy_sends in room.space st) fault
      | inr (u, got) ↦ cc (rw got at e)
    ]
case_total rcveof s st h room e = cc
case_total goodend s st h room e = cc
case_total badend s st h room e = cc

-- A call of `link_layer_model` on a reachable device returns, and makes no access outside an array
-- or through the null pointer, if a buffer of at least 128 words has been set when a sector is to be
-- sent and at most 512 words are counted when one is heard.
pub link_layer_model_total :
    {s : SataSim} → Reach s → HasRoom s → (t : SataSim) × (link_layer_model s ≡ some t)
unfolding link_layer_model
link_layer_model_total {s} r room = elim (Option-cases (link_layer_model s)) [
  | inl fault ↦ absurd (never fault)
  | inr (t, run) ↦ (t, run)
]
  where
    never : link_layer_model s ≢ none
    never e = elim (Bool-cases s.oob_done) [
      | inl up ↦
          case_total s.link_state s refl (Reach-IsSound r) room
            (let run : link_case s.link_state s ≡ none = ground arith in run)
      | inr down ↦ ground arith
    ]
