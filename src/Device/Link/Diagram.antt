-- ===== src/Device/Link/Diagram.antt =====
-- The state diagram of the link layer, and what it takes to move along it.

use wbsata.Common.{◌⊎◌, ℕ, true, false, some}
use wbsata.Common.{
  ◌≡◌, ◌≢◌, refl, ap, ◌∙◌, ◌⊎◌, inl, inr, Bool-cases, Option-cases, if◌then◌else◌, arith,
}
use wbsata.Device.State.{
  LinkState, send_align, idle, send_chkrdy, send_data, send_eof, wait, rcv_chkrdy, rcv_data, rcveof,
  goodend, badend, SataSim,
}
use wbsata.Device.Phy.{device_phy_sends}
use wbsata.Device.Primitive
use wbsata.Device.Words.{device_link_receives, device_link_sends}
use wbsata.Device.Link.{
  link_layer_model, link_case, wait_for_primitive, has_response, end_frame, start_frame, frame_word,
}
use wbsata.Device.Link.Safety.{IsSound, last_count}
use wbsata.Device.Link.Reach.{Reach, Reach-IsSound}
use wbsata.Device.Link.Answer.{Responded, started, sent, ended, respond_cases}
use wbsata.Device.Link.Listen.{IsReceived, device_link_receives-IsReceived}

-- The controller sends the primitive `p`.
abbrev pub Hears : ℕ → SataSim → Type 0
Hears p s = (s.txphy_data ≡ p) × (s.txphy_primitive ≡ true)

-- The states that may follow a state, each with what it takes.
abbrev pub Follows : LinkState → SataSim → LinkState → Type 0
Follows send_align s l = ((l ≡ send_align) × (s.align_cnt ≢ 99)) ⊎ ((l ≡ idle) × (s.align_cnt ≡ 99))
Follows idle s l =
    ((l ≡ idle) × (has_response s ≡ false))
    ⊎ ((l ≡ rcv_chkrdy) × Hears Primitive.xrdy_p s)
    ⊎ ((l ≡ send_chkrdy) × (has_response s ≡ true))
Follows send_chkrdy s l =
    (l ≡ send_chkrdy)
    ⊎ ((l ≡ send_data) × Hears Primitive.rrdy_p s)
    ⊎ ((l ≡ rcv_chkrdy) × Hears Primitive.xrdy_p s)
Follows send_data s l = (l ≡ send_data) ⊎ (l ≡ send_eof)
Follows send_eof s l = l ≡ wait
Follows wait s l =
    (l ≡ wait)
    ⊎ ((l ≡ idle) × (Hears Primitive.sync_p s ⊎ Hears Primitive.ok_p s ⊎ Hears Primitive.err_p s))
Follows rcv_chkrdy s l = (l ≡ rcv_chkrdy) ⊎ ((l ≡ rcv_data) × Hears Primitive.sof_p s)
Follows rcv_data s l =
    (l ≡ rcv_data)
    ⊎ ((l ≡ rcveof) × Hears Primitive.eof_p s)
    ⊎ ((l ≡ badend) × Hears Primitive.wtrm_p s)
Follows rcveof s l =
    ((l ≡ goodend) × (s.crc_matched ≡ true)) ⊎ ((l ≡ badend) × (s.crc_matched ≡ false))
Follows goodend s l = (l ≡ goodend) ⊎ ((l ≡ idle) × Hears Primitive.sync_p s)
Follows badend s l = (l ≡ badend) ⊎ ((l ≡ idle) × Hears Primitive.sync_p s)

respond_follows :
    (last : ℕ) (s t : SataSim)
    → s.link_state ≡ send_data
    → Responded last s t
    → (t.link_state ≡ send_data) ⊎ (t.link_state ≡ send_eof)
unfolding start_frame frame_word end_frame device_link_sends device_phy_sends
respond_follows last s t st (started z eq) = inl (ap (λ u. u.link_state) eq ∙ st)
respond_follows last s t st (sent w lt eq) = inl (ap (λ u. u.link_state) eq ∙ st)
respond_follows last s t st (ended u a b c d l eq) = inr (ap (λ u. u.link_state) eq)

listen-Follows :
    (s u t : SataSim)
    → IsReceived s u
    → s.link_state ≡ rcv_data
    → (if wait_for_primitive Primitive.eof_p u
        then record u { data_complete = true; link_state = rcveof }
        else (if wait_for_primitive Primitive.wtrm_p u
            then record u { link_state = badend }
            else u))
      ≡ t
    → Follows rcv_data s t.link_state
unfolding wait_for_primitive
listen-Follows s u t r st e = ground arith

case_Follows :
    (state : LinkState) (s t : SataSim)
    → s.link_state ≡ state
    → IsSound s
    → link_case state s ≡ some t
    → Follows state s t.link_state
unfolding link_case has_response
case_Follows send_align s t st h e = ground arith
case_Follows idle s t st h e = ground arith
case_Follows send_chkrdy s t st h e = ground arith
case_Follows send_data s t st h e =
    respond_follows (last_count s) s t st
      (respond_cases s t (h.counted st) (h.pending (rw st refl)) e)
case_Follows send_eof s t st h e = ground arith
case_Follows wait s t st h e = ground arith
case_Follows rcv_chkrdy s t st h e = ground arith
case_Follows rcv_data s t st h e =
    elim (Option-cases (device_link_receives (device_phy_sends Primitive.r_ip_p true s))) [
      | inl fault ↦ cc (rw fault at e)
      | inr (u, got) ↦
          let here = device_phy_sends Primitive.r_ip_p true s in
          listen-Follows here u t (device_link_receives-IsReceived here u h.live h.crc_word got)
            (unfold device_phy_sends in st) (let found : some _ ≡ some t = rw got at e in cc)
    ]
case_Follows rcveof s t st h e = ground arith
case_Follows goodend s t st h e = ground arith
case_Follows badend s t st h e = ground arith

-- A reachable device moves along the diagram: where `link_layer_model` returns, the state either
-- stays as it was because the out-of-band handshake is not done, or follows from the old one under
-- the condition that `Follows` gives for the two.
pub link_layer_model-Follows :
    {s t : SataSim}
    → Reach s
    → link_layer_model s ≡ some t
    → ((s.oob_done ≡ false) × (t ≡ s)) ⊎ ((s.oob_done ≡ true) × Follows s.link_state s t.link_state)
unfolding link_layer_model
link_layer_model-Follows {s} {t} r e = elim (Bool-cases s.oob_done) [
  | inl up ↦
      let run : link_case s.link_state s ≡ some t = ground arith in
      inr (up, case_Follows s.link_state s t refl (Reach-IsSound r) run)
  | inr down ↦ let same : t ≡ s = ground arith in inl (down, same)
]
