-- ===== src/Device/Link/Safety.antt =====
-- What holds of the device between two calls, whatever the controller sends.
use wbsata.Common.{ℕ, ◌≤◌, ◌<◌, Bool, true, false, ◌||◌, some}
use wbsata.Common.{◌≡◌, length, arith, if◌then◌else◌}
use wbsata.Device.Scrambler.{scrambler_initial}
use wbsata.Device.Scrambler.Stream.{IsLive}
use wbsata.Device.Crc.{crc_initial}
use wbsata.Device.Crc.Register.{IsWord}
use wbsata.Device.State.{
  LinkState, send_align, idle, send_chkrdy, send_data, send_eof, wait, rcv_chkrdy, rcveof, goodend,
  badend, SataSim,
}
use wbsata.Device.Link.{has_response, link_case}

-- The states in which the buffer and its registers are fresh.
abbrev pub is_checking : LinkState → Bool
is_checking send_chkrdy = true
is_checking rcv_chkrdy = true
is_checking _ = false

-- The states in which a response is due.
abbrev pub is_answering : LinkState → Bool
is_answering send_chkrdy = true
is_answering send_data = true
is_answering _ = false

-- The count at which the response that is due sends its CRC.
abbrev pub last_count : SataSim → ℕ
last_count s =
    if s.dma_act
    then 2
    else (if s.pio_setup then 6 else (if s.dma_read || s.pio_read then 130 else 5))

pub record IsSound (s : SataSim) : Type 0 where
  pub live : IsLive s.scrambler_fill
  pub crc_word : IsWord s.crc
  pub buffer : length s.received_data ≡ 512
  pub aligned : s.align_cnt ≤ 100
  pub aligning : s.link_state ≡ send_align → s.align_cnt < 100
  pub fresh :
      is_checking s.link_state ≡ true
      → (s.data_count ≡ 0) × (s.scrambler_fill ≡ scrambler_initial) × (s.crc ≡ crc_initial)
  pub pending : is_answering s.link_state ≡ true → has_response s ≡ true
  pub counted : s.link_state ≡ send_data → s.data_count ≤ last_count s

pub case_send_align :
    (s t : SataSim)
    → IsSound s
    → s.link_state ≡ send_align
    → link_case send_align s ≡ some t
    → IsSound t
unfolding link_case has_response
case_send_align s t h st e = ground arith

pub case_idle : (s t : SataSim) → IsSound s → link_case idle s ≡ some t → IsSound t
unfolding link_case has_response
case_idle s t h e = ground arith

pub case_send_chkrdy :
    (s t : SataSim)
    → IsSound s
    → s.link_state ≡ send_chkrdy
    → link_case send_chkrdy s ≡ some t
    → IsSound t
unfolding link_case has_response
case_send_chkrdy s t h st e = ground arith

pub case_rcv_chkrdy :
    (s t : SataSim)
    → IsSound s
    → s.link_state ≡ rcv_chkrdy
    → link_case rcv_chkrdy s ≡ some t
    → IsSound t
unfolding link_case
case_rcv_chkrdy s t h st e = ground arith

pub case_send_eof : (s t : SataSim) → IsSound s → link_case send_eof s ≡ some t → IsSound t
unfolding link_case
case_send_eof s t h e = ground arith

pub case_wait :
    (s t : SataSim) → IsSound s → s.link_state ≡ wait → link_case wait s ≡ some t → IsSound t
unfolding link_case
case_wait s t h st e = ground arith

pub case_rcveof : (s t : SataSim) → IsSound s → link_case rcveof s ≡ some t → IsSound t
unfolding link_case
case_rcveof s t h e = ground arith

pub case_goodend :
    (s t : SataSim) → IsSound s → s.link_state ≡ goodend → link_case goodend s ≡ some t → IsSound t
unfolding link_case
case_goodend s t h st e = ground arith

pub case_badend :
    (s t : SataSim) → IsSound s → s.link_state ≡ badend → link_case badend s ≡ some t → IsSound t
unfolding link_case
case_badend s t h st e = ground arith
