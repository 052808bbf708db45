-- ===== src/Device/Link/Widths.antt =====
-- The members of the device stay in the range of their C types: `m_rxphy_data`, `m_lba` and
-- the words of `m_received_data` of bench/cpp/satasim.h.
use mathlib.Core.Path.{subst, sym}
use wbsata.Common.{
  ℕ, Bool, true, false, some, List, [], ◌∷◌, set, replicate, ◌==◌, ◌-◌, ◌^◌, ◌<◌, ◌≡◌, refl, arith,
  inl, inr, Bool-cases, Option-cases, if◌then◌else◌, zero, suc, bit_and, bit_xor,
}
use wbsata.Common.Xor.{and_ones}
use wbsata.Device.State.{
  SataSim, LinkState, send_align, idle, send_chkrdy, send_data, send_eof, wait, rcv_chkrdy,
  rcv_data, rcveof, goodend, badend, new, reset, set_oob_done, set_sent_data,
}
use wbsata.Device.Scrambler.{prn_of}
use wbsata.Device.Phy.{
  TxSignals, process_tx_signals, process_oob, detect_coms, send_cominit, send_comwake,
  device_phy_sends,
}
use wbsata.Device.Words.{
  swap_endian, device_link_sends, set_command_flags, receive_first, receive_next,
  device_link_receives,
}
use wbsata.Device.Link.{
  link_layer_model, link_case, wait_for_primitive, start_frame, frame_word, end_frame,
}
use wbsata.Device.Link.Safety.{IsSound, last_count}
use wbsata.Device.Primitive
use wbsata.Device.Words.Swap.{swap_endian-lt}
use wbsata.Device.Frame.{AreWords}
use wbsata.Device.Link.Reach.{Reach, tx, oob, rx, load, restart, begin, next, Reach-IsSound}
use wbsata.Device.Link.Answer.{Responded, started, sent, ended, respond_cases}

pub record HasWidths (s : SataSim) : Type 0 where
  pub words : AreWords s.received_data
  pub sent_word : s.rxphy_data < 2 ^ 32
  pub address : s.lba < 2 ^ 8

set-AreWords : (ws : List ℕ) (n w : ℕ) → AreWords ws → w < 2 ^ 32 → AreWords (set ws n w)
set-AreWords [] n w h lt = h
set-AreWords (x ∷ ws) zero w h lt = (lt, h.1)
set-AreWords (x ∷ ws) (suc n) w h lt = (h.0, set-AreWords ws n w h.1 lt)

zeros-AreWords : (n : ℕ) → AreWords (replicate n 0)
zeros-AreWords zero = tt
zeros-AreWords (suc n) = (omega arith, zeros-AreWords n)

low_byte : (w : ℕ) → bit_and w 0xFF < 2 ^ 8
low_byte w = omega (arith, and_ones 8 w)

new-HasWidths : HasWidths new
unfolding new
new-HasWidths = record {
  words = zeros-AreWords 512;
  sent_word = omega arith;
  address = omega arith;
}

tx-HasWidths : (t : TxSignals) (s : SataSim) → HasWidths s → HasWidths (process_tx_signals t s).0
unfolding process_tx_signals
tx-HasWidths t s h = ground (arith, h)

detect_coms-HasWidths : (s : SataSim) → HasWidths s → HasWidths (detect_coms s)
unfolding detect_coms
detect_coms-HasWidths s h = ground arith

send_cominit-HasWidths : (s : SataSim) → HasWidths s → HasWidths (send_cominit s)
unfolding send_cominit
send_cominit-HasWidths s h = ground arith

send_comwake-HasWidths : (s : SataSim) → HasWidths s → HasWidths (send_comwake s)
unfolding send_comwake
send_comwake-HasWidths s h = ground arith

finish-HasWidths :
    (coms_done : Bool) (s : SataSim)
    → HasWidths s
    → HasWidths
        (set_oob_done coms_done (if coms_done then record s { rxphy_elecidle = false } else s))
unfolding set_oob_done
finish-HasWidths true s h = ground arith
finish-HasWidths false s h = ground arith

oob-HasWidths :
    (s : SataSim) → HasWidths s → HasWidths (set_oob_done (process_oob s).1 (process_oob s).0)
unfolding process_oob
oob-HasWidths s h =
    finish-HasWidths _ (send_comwake (send_cominit (detect_coms s)))
      (send_comwake-HasWidths _ (send_cominit-HasWidths _ (detect_coms-HasWidths s h)))

load-HasWidths : (ws : List ℕ) (s : SataSim) → HasWidths s → HasWidths (set_sent_data ws s)
unfolding set_sent_data
load-HasWidths ws s h = ground arith

restart-HasWidths : (s : SataSim) → HasWidths s → HasWidths (reset s)
unfolding reset
restart-HasWidths s h = ground arith

set_command_flags_widths :
    (fis_type cmd_type : ℕ) (s : SataSim)
    → HasWidths s
    → HasWidths (set_command_flags fis_type cmd_type s)
unfolding set_command_flags
set_command_flags_widths fis_type cmd_type s h = ground arith

receive_first-HasWidths : (s : SataSim) → HasWidths s → HasWidths (receive_first s)
unfolding receive_first
receive_first-HasWidths s h =
    set_command_flags_widths _ _ _
      (record { words = h.words; sent_word = h.sent_word; address = low_byte _ })

receive_next-HasWidths : (s t : SataSim) → HasWidths s → receive_next s ≡ some t → HasWidths t
unfolding receive_next
receive_next-HasWidths s t h e =
    let raw = bit_xor (swap_endian s.txphy_data) (prn_of s.scrambler_fill) in
    let stored =
      set-AreWords s.received_data (s.data_count - 1) (swap_endian raw) h.words
        (swap_endian-lt raw) in
    ground (arith, stored)

device_link_receives-HasWidths :
    (s t : SataSim) → HasWidths s → device_link_receives s ≡ some t → HasWidths t
unfolding device_link_receives
device_link_receives-HasWidths s t h e = elim (Bool-cases s.txphy_primitive) [
  | inl primitive ↦ let same : s ≡ t = ground arith in subst HasWidths same h
  | inr word_in ↦ elim (Bool-cases (s.data_count == 0)) [
    | inl first ↦
        let same : receive_first s ≡ t = ground arith in
        subst HasWidths same (receive_first-HasWidths s h)
    | inr later ↦
        receive_next-HasWidths s t h (let same : receive_next s ≡ some t = ground arith in same)
  ]
]

listened-HasWidths :
    (u t : SataSim)
    → HasWidths u
    → (if wait_for_primitive Primitive.eof_p u
        then record u { data_complete = true; link_state = rcveof }
        else (if wait_for_primitive Primitive.wtrm_p u
            then record u { link_state = badend }
            else u))
      ≡ t
    → HasWidths t
listened-HasWidths u t h e = ground arith

rcv_data-HasWidths : (s t : SataSim) → HasWidths s → link_case rcv_data s ≡ some t → HasWidths t
unfolding link_case device_phy_sends
rcv_data-HasWidths s t h e =
    elim (Option-cases (device_link_receives (device_phy_sends Primitive.r_ip_p true s))) [
      | inl fault ↦ cc (rw fault at e)
      | inr (u, got) ↦
          listened-HasWidths u t
            (device_link_receives-HasWidths (device_phy_sends Primitive.r_ip_p true s) u
              (record { words = h.words; sent_word = omega arith; address = h.address }) got)
            (let found : some _ ≡ some t = rw got at e in cc)
    ]

Responded-HasWidths : (last : ℕ) (s t : SataSim) → HasWidths s → Responded last s t → HasWidths t
unfolding start_frame frame_word end_frame device_phy_sends device_link_sends
Responded-HasWidths last s t h (started z eq) =
    subst HasWidths (sym eq)
      (record { words = h.words; sent_word = omega arith; address = h.address })
Responded-HasWidths last s t h (sent w lt eq) =
    subst HasWidths (sym eq)
      (record { words = h.words; sent_word = swap_endian-lt _; address = h.address })
Responded-HasWidths last s t h (ended u a b c d l eq) =
    subst HasWidths (sym eq)
      (record { words = rw c h.words; sent_word = swap_endian-lt _; address = rw l h.address })

-- The cases of the switch other than SEND_DATA and RCV_DATA send one primitive.
case-HasWidths :
    (state : LinkState) (s t : SataSim)
    → s.link_state ≡ state
    → IsSound s
    → HasWidths s
    → link_case state s ≡ some t
    → HasWidths t
unfolding link_case
case-HasWidths send_data s t st sound h e =
    Responded-HasWidths (last_count s) s t h
      (respond_cases s t (sound.counted st) (sound.pending (rw st refl)) e)
case-HasWidths rcv_data s t st sound h e = rcv_data-HasWidths s t h e
case-HasWidths send_align s t st sound h e = ground arith
case-HasWidths idle s t st sound h e = ground arith
case-HasWidths send_chkrdy s t st sound h e = ground arith
case-HasWidths send_eof s t st sound h e = ground arith
case-HasWidths wait s t st sound h e = ground arith
case-HasWidths rcv_chkrdy s t st sound h e = ground arith
case-HasWidths rcveof s t st sound h e = ground arith
case-HasWidths goodend s t st sound h e = ground arith
case-HasWidths badend s t st sound h e = ground arith

rx-HasWidths : (s t : SataSim) → IsSound s → HasWidths s → link_layer_model s ≡ some t → HasWidths t
unfolding link_layer_model
rx-HasWidths s t sound h e = elim (Bool-cases s.oob_done) [
  | inl up ↦
      let run : link_case s.link_state s ≡ some t = ground arith in
      case-HasWidths s.link_state s t refl sound h run
  | inr down ↦ let same : s ≡ t = ground arith in subst HasWidths same h
]

-- In every reachable device the word that it sends and the words that it has received fit 32 bits,
-- and the logical block address fits 8.
pub Reach-HasWidths : {s : SataSim} → Reach s → HasWidths s
Reach-HasWidths begin = new-HasWidths
Reach-HasWidths (next r (tx t s)) = tx-HasWidths t s (Reach-HasWidths r)
Reach-HasWidths (next r (oob s)) = oob-HasWidths s (Reach-HasWidths r)
Reach-HasWidths (next r (rx {s} {t} e)) = rx-HasWidths s t (Reach-IsSound r) (Reach-HasWidths r) e
Reach-HasWidths (next r (load words s)) = load-HasWidths words s (Reach-HasWidths r)
Reach-HasWidths (next r (restart s)) = restart-HasWidths s (Reach-HasWidths r)
