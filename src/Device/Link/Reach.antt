-- ===== src/Device/Link/Reach.antt =====
-- Every device that calls from the test bench can lead to.
use mathlib.Core.Path.{subst}
use wbsata.Common.{
  ℕ, Bool, true, false, some, List, ◌≡◌, refl, arith, inl, inr, Bool-cases, if◌then◌else◌,
}
use wbsata.Device.State.{
  LinkState, send_align, idle, send_chkrdy, send_data, send_eof, wait, rcv_chkrdy, rcv_data, rcveof,
  goodend, badend, SataSim, new, reset, set_oob_done, set_sent_data,
}
use wbsata.Device.Phy.{
  TxSignals, process_tx_signals, process_oob, detect_coms, send_cominit, send_comwake,
}
use wbsata.Device.Link.{link_layer_model, link_case, has_response}
use wbsata.Device.Link.Safety.{
  IsSound, case_send_align, case_idle, case_send_chkrdy, case_rcv_chkrdy, case_send_eof, case_wait,
  case_rcveof, case_goodend, case_badend,
}
use wbsata.Device.Link.Answer.{case_send_data}
use wbsata.Device.Link.Listen.{case_rcv_data}

-- One call: the controller's signals, the out-of-band handshake, the link layer, a buffer to send,
-- or a reset.
pub data Step : SataSim → SataSim → Type 0 where
  tx : (t : TxSignals) (s : SataSim) → Step s (process_tx_signals t s).0
  oob : (s : SataSim) → Step s (set_oob_done (process_oob s).1 (process_oob s).0)
  rx : {s t : SataSim} → link_layer_model s ≡ some t → Step s t
  load : (words : List ℕ) (s : SataSim) → Step s (set_sent_data words s)
  restart : (s : SataSim) → Step s (reset s)

pub data Reach : SataSim → Type 0 where
  begin : Reach new
  next : {s t : SataSim} → Reach s → Step s t → Reach t

new-IsSound : IsSound new
unfolding new has_response
new-IsSound = ground arith

tx-IsSound : (t : TxSignals) (s : SataSim) → IsSound s → IsSound (process_tx_signals t s).0
unfolding process_tx_signals has_response
tx-IsSound t s h = ground arith

detect_coms-IsSound : (s : SataSim) → IsSound s → IsSound (detect_coms s)
unfolding detect_coms has_response
detect_coms-IsSound s h = ground arith

send_cominit-IsSound : (s : SataSim) → IsSound s → IsSound (send_cominit s)
unfolding send_cominit has_response
send_cominit-IsSound s h = ground arith

send_comwake-IsSound : (s : SataSim) → IsSound s → IsSound (send_comwake s)
unfolding send_comwake has_response
send_comwake-IsSound s h = ground arith

finish-IsSound :
    (coms_done : Bool) (s : SataSim)
    → IsSound s
    → IsSound
        (set_oob_done coms_done (if coms_done then record s { rxphy_elecidle = false } else s))
unfolding set_oob_done has_response
finish-IsSound true s h = ground arith
finish-IsSound false s h = ground arith

oob-IsSound : (s : SataSim) → IsSound s → IsSound (set_oob_done (process_oob s).1 (process_oob s).0)
unfolding process_oob
oob-IsSound s h =
    finish-IsSound _ (send_comwake (send_cominit (detect_coms s)))
      (send_comwake-IsSound _ (send_cominit-IsSound _ (detect_coms-IsSound s h)))

load-IsSound : (words : List ℕ) (s : SataSim) → IsSound s → IsSound (set_sent_data words s)
unfolding set_sent_data has_response
load-IsSound words s h = ground arith

restart-IsSound : (s : SataSim) → IsSound s → IsSound (reset s)
unfolding reset has_response
restart-IsSound s h = ground arith

case-IsSound :
    (state : LinkState) (s t : SataSim)
    → s.link_state ≡ state
    → IsSound s
    → link_case state s ≡ some t
    → IsSound t
case-IsSound send_align s t e h r = case_send_align s t h e r
case-IsSound idle s t e h r = case_idle s t h r
case-IsSound send_chkrdy s t e h r = case_send_chkrdy s t h e r
case-IsSound send_data s t e h r = case_send_data s t h e (unfold link_case in r)
case-IsSound send_eof s t e h r = case_send_eof s t h r
case-IsSound wait s t e h r = case_wait s t h e r
case-IsSound rcv_chkrdy s t e h r = case_rcv_chkrdy s t h e r
case-IsSound rcv_data s t e h r = case_rcv_data s t h e r
case-IsSound rcveof s t e h r = case_rcveof s t h r
case-IsSound goodend s t e h r = case_goodend s t h e r
case-IsSound badend s t e h r = case_badend s t h e r

rx-IsSound : (s t : SataSim) → IsSound s → link_layer_model s ≡ some t → IsSound t
unfolding link_layer_model
rx-IsSound s t h e = elim (Bool-cases s.oob_done) [
  | inl up ↦
      let run : link_case s.link_state s ≡ some t = ground arith in
      case-IsSound s.link_state s t refl h run
  | inr down ↦ let same : s ≡ t = ground arith in subst IsSound same h
]

-- Every reachable device is sound: its scrambler is never stuck, its CRC fits 32 bits, its buffer
-- keeps its 512 words, it has sent at most 100 ALIGNs and fewer while it still sends them, it
-- checks readiness with fresh registers, it answers only when a response is due, and then never
-- counts past the last word of that response.
pub Reach-IsSound : {s : SataSim} → Reach s → IsSound s
Reach-IsSound begin = new-IsSound
Reach-IsSound (next r (tx t s)) = tx-IsSound t s (Reach-IsSound r)
Reach-IsSound (next r (oob s)) = oob-IsSound s (Reach-IsSound r)
Reach-IsSound (next r (rx {s} {t} e)) = rx-IsSound s t (Reach-IsSound r) e
Reach-IsSound (next r (load words s)) = load-IsSound words s (Reach-IsSound r)
Reach-IsSound (next r (restart s)) = restart-IsSound s (Reach-IsSound r)
