-- ===== src/Device/Link/Listen.antt =====
-- RCV_DATA: what a received word leaves alone.
use mathlib.Core.Path.{subst}
use wbsata.Common.{Option-cases, ◌==◌, Bool-cases, ◌-◌, bit_xor, ℕ, true, some}
use wbsata.Common.{◌≡◌, refl, inl, inr, length, length-set, arith, if◌then◌else◌}
use wbsata.Device.Scrambler.{scrambler_initial, prn_of}
use wbsata.Device.Scrambler.Stream.{IsLive, next_fill-IsLive}
use wbsata.Device.Crc.{crc_initial}
use wbsata.Device.Crc.Register.{IsWord, advance_crc-fits}
use wbsata.Device.State.{rcv_data, rcveof, badend, SataSim}
use wbsata.Device.Primitive
use wbsata.Device.Words.{
  receive_first, receive_next, set_command_flags, receive_first, receive_next, set_command_flags,
  device_link_receives, swap_endian,
}
use wbsata.Device.Phy.{device_phy_sends}
use wbsata.Device.Link.{wait_for_primitive, link_case}
use wbsata.Device.Link.Safety.{IsSound}

-- What `device_link_receives` leaves alone, and the ranges it keeps.
pub record IsReceived (s t : SataSim) : Type 0 where
  pub live : IsLive t.scrambler_fill
  pub crc_word : IsWord t.crc
  pub buffer : length t.received_data ≡ length s.received_data
  pub same_state : t.link_state ≡ s.link_state
  pub same_count : t.align_cnt ≡ s.align_cnt
  pub same_word : t.txphy_data ≡ s.txphy_data
  pub same_primitive : t.txphy_primitive ≡ s.txphy_primitive

set_command_flags_keeps :
    (fis_type cmd_type : ℕ) (s : SataSim)
    → let t = set_command_flags fis_type cmd_type s in
      (t.scrambler_fill ≡ s.scrambler_fill)
      × (t.crc ≡ s.crc)
      × (t.received_data ≡ s.received_data)
      × (t.link_state ≡ s.link_state)
      × (t.align_cnt ≡ s.align_cnt)
      × (t.txphy_data ≡ s.txphy_data)
      × (t.txphy_primitive ≡ s.txphy_primitive)
unfolding set_command_flags
set_command_flags_keeps fis_type cmd_type s = ground arith

flags-IsReceived :
    (fis_type cmd_type : ℕ) (s u : SataSim)
    → IsReceived s u
    → IsReceived s (set_command_flags fis_type cmd_type u)
flags-IsReceived fis_type cmd_type s u h =
    let (fill, crc, buffer, state, count, word, primitive) =
      set_command_flags_keeps fis_type cmd_type u in
    record {
      live = rw fill h.live;
      crc_word = rw crc h.crc_word;
      buffer = rw buffer h.buffer;
      same_state = rw state h.same_state;
      same_count = rw count h.same_count;
      same_word = rw word h.same_word;
      same_primitive = rw primitive h.same_primitive;
    }

receive_first-IsReceived : (s : SataSim) → IsReceived s (receive_first s)
unfolding receive_first
receive_first-IsReceived s = flags-IsReceived _ _ s _ (record {
  live = next_fill-IsLive scrambler_initial (omega arith);
  crc_word = advance_crc-fits crc_initial _;
  buffer = refl;
  same_state = refl;
  same_count = refl;
  same_word = refl;
  same_primitive = refl;
})

receive_next-IsReceived :
    (s t : SataSim) → IsLive s.scrambler_fill → receive_next s ≡ some t → IsReceived s t
unfolding receive_next
receive_next-IsReceived s t live e =
    let raw = bit_xor (swap_endian s.txphy_data) (prn_of s.scrambler_fill) in
    ground (
      arith,
      next_fill-IsLive s.scrambler_fill live,
      advance_crc-fits s.crc raw,
      length-set s.received_data (s.data_count - 1) (swap_endian raw),
    )

pub device_link_receives-IsReceived :
    (s t : SataSim)
    → IsLive s.scrambler_fill
    → IsWord s.crc
    → device_link_receives s ≡ some t
    → IsReceived s t
unfolding device_link_receives
device_link_receives-IsReceived s t live word e = elim (Bool-cases s.txphy_primitive) [
  | inl primitive ↦
      let same : s ≡ t = ground arith in
      subst (IsReceived s) same (record {
        live = live;
        crc_word = word;
        buffer = refl;
        same_state = refl;
        same_count = refl;
        same_word = refl;
        same_primitive = refl;
      })
  | inr word_in ↦ elim (Bool-cases (s.data_count == 0)) [
    | inl first ↦
        let same : receive_first s ≡ t = ground arith in
        subst (IsReceived s) same (receive_first-IsReceived s)
    | inr later ↦
        receive_next-IsReceived s t live (let same : receive_next s ≡ some t = ground arith in same)
  ]
]

listened :
    (s u t : SataSim)
    → IsReceived s u
    → IsSound s
    → s.link_state ≡ rcv_data
    → (if wait_for_primitive Primitive.eof_p u
        then record u { data_complete = true; link_state = rcveof }
        else (if wait_for_primitive Primitive.wtrm_p u
            then record u { link_state = badend }
            else u))
      ≡ t
    → IsSound t
listened s u t r h st e = ground arith

pub case_rcv_data :
    (s t : SataSim)
    → IsSound s
    → s.link_state ≡ rcv_data
    → link_case rcv_data s ≡ some t
    → IsSound t
unfolding link_case device_phy_sends
case_rcv_data s t h st e =
    elim (Option-cases (device_link_receives (device_phy_sends Primitive.r_ip_p true s))) [
      | inl fault ↦ cc (rw fault at e)
      | inr (u, got) ↦
          listened (device_phy_sends Primitive.r_ip_p true s) u t
            (device_link_receives-IsReceived (device_phy_sends Primitive.r_ip_p true s) u h.live
              h.crc_word got)
            (ground arith) st (let found : some _ ≡ some t = rw got at e in cc)
    ]
