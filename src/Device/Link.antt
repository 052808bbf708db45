-- ===== src/Device/Link.antt =====
-- The link layer of the device: the four responses and `link_layer_model` of
-- bench/cpp/satasim.cpp. `none` is an access outside an array, or through the null pointer.
pub mod Safety
pub mod Answer
pub mod Listen
pub mod Reach
pub mod Diagram
pub mod Total
pub mod Widths
use wbsata.Common.{ℕ, ◌+◌, ◌-◌, ◌/◌, Bool, true, false, ◌&&◌, ◌||◌, Option, some, ◌>>=◌}
use wbsata.Common.{List, [], ◌∷◌, get_elem?, ◌==◌, if◌then◌else◌}
use wbsata.Device.Primitive
use wbsata.Device.State.{
  LinkState, send_align, idle, send_chkrdy, send_data, send_eof, wait, rcv_chkrdy, rcv_data, rcveof,
  goodend, badend, SataSim, reset_data_buffer, get_sent_data,
}
use wbsata.Device.Phy.{device_phy_sends}
use wbsata.Device.Words.{device_link_sends, device_link_receives}

-- The printed log is left out, so only the test is left of `wait_for_primitive`.
unfoldable pub wait_for_primitive : ℕ → SataSim → Bool
wait_for_primitive primitive s = s.txphy_data == primitive && s.txphy_primitive

abbrev pub sata_sector_size : ℕ
sata_sector_size = 512

abbrev pub d2h_reg_fis_response : List ℕ
d2h_reg_fis_response = 0x00770034 ∷ 0x00000000 ∷ 0x00000000 ∷ 0x00000000 ∷ []

abbrev pub dma_act_fis_response : List ℕ
dma_act_fis_response = 0x00000039 ∷ []

abbrev pub data_fis_response : List ℕ
data_fis_response = 0x00000046 ∷ []

abbrev pub pio_setup_fis_response : List ℕ
pio_setup_fis_response = 0x0000005F ∷ 0x00000000 ∷ 0x00000000 ∷ 0x01000000 ∷ 0x00020000 ∷ []

-- The start of each response: SOF, and the count.
unfoldable pub start_frame : SataSim → SataSim
start_frame s =
    let s' = device_phy_sends Primitive.sof_p true s in record s' { data_count = s'.data_count + 1 }

-- The end of each response: the CRC, and the next state.
unfoldable pub end_frame : SataSim → SataSim
end_frame s = let s' = device_link_sends 0 true s in record s' { link_state = send_eof }

-- A word of a response, and the count.
unfoldable pub frame_word : ℕ → SataSim → SataSim
frame_word word s =
    let s' = device_link_sends word false s in record s' { data_count = s'.data_count + 1 }

unfoldable pub dma_activate : SataSim → Option SataSim
dma_activate s =
    if s.data_count == 0
    then some (start_frame s)
    else (if s.data_count == 1
        then (do word ← get_elem? dma_act_fis_response 0; some (frame_word word s))
        else (if s.data_count == 2
            then some (end_frame (record s { dma_act = false }))
            else some s))

unfoldable pub pio_setup_response : SataSim → Option SataSim
pio_setup_response s =
    if s.data_count == 0
    then some (start_frame s)
    else (if s.data_count == 6 then some (end_frame (record s { pio_setup = false })) else (do
      word ← get_elem? pio_setup_fis_response (s.data_count - 1)
      some (frame_word word s)))

unfoldable pub data_send : SataSim → Option SataSim
data_send s =
    if s.data_count == 0
    then some (start_frame s)
    else (if s.data_count == 1
        then (do word ← get_elem? data_fis_response 0; some (frame_word word s))
        else (if s.data_count == sata_sector_size / 4 + 2
            then some
                (end_frame (record s { dma_read = false; pio_read = false; data_response = true }))
            else (do word ← get_sent_data (s.data_count - 2) s; some (frame_word word s))))

unfoldable pub d2h_response : SataSim → Option SataSim
d2h_response s =
    if s.data_count == 0
    then some (start_frame s)
    else (if s.data_count == 5 then some (end_frame (record s { data_response = false })) else (do
      word ← get_elem? d2h_reg_fis_response (s.data_count - 1)
      some (frame_word word s)))

-- `case SEND_DATA`: the first pending response.
unfoldable pub respond : SataSim → Option SataSim
respond s =
    if s.dma_act
    then dma_activate s
    else (if s.pio_setup
        then pio_setup_response s
        else (if s.dma_read || s.pio_read
            then data_send s
            else (if s.data_response then d2h_response s else some s)))

unfoldable pub has_response : SataSim → Bool
has_response s = s.dma_act || s.dma_read || s.pio_setup || s.pio_read || s.data_response

-- The cases of the switch, by the state.
unfoldable pub link_case : LinkState → SataSim → Option SataSim
unfolding device_phy_sends wait_for_primitive reset_data_buffer has_response
link_case send_align s0 =
    let s1 = record s0 { align_cnt = s0.align_cnt + 1 } in
    let s = device_phy_sends Primitive.align_p true s1 in
    some (if s.align_cnt == 100 then record s { link_state = idle } else s)
link_case idle s0 =
    let s = device_phy_sends Primitive.sync_p true (reset_data_buffer s0) in
    some (
      if wait_for_primitive Primitive.xrdy_p s
      then record s { link_state = rcv_chkrdy }
      else (if has_response s then record s { link_state = send_chkrdy } else s))
link_case send_chkrdy s0 =
    let s = device_phy_sends Primitive.xrdy_p true s0 in
    some (
      if wait_for_primitive Primitive.rrdy_p s
      then record s { link_state = send_data }
      else (if wait_for_primitive Primitive.xrdy_p s
          then record s { link_state = rcv_chkrdy }
          else s))
link_case send_data s = respond s
link_case send_eof s0 =
    let s = device_phy_sends Primitive.eof_p true s0 in some (record s { link_state = wait })
link_case rcv_chkrdy s0 =
    let s = device_phy_sends Primitive.rrdy_p true s0 in
    some (if wait_for_primitive Primitive.sof_p s then record s { link_state = rcv_data } else s)
link_case rcv_data s0 = do
  s ← device_link_receives (device_phy_sends Primitive.r_ip_p true s0)
  some (
      if wait_for_primitive Primitive.eof_p s
      then record s { data_complete = true; link_state = rcveof }
      else (if wait_for_primitive Primitive.wtrm_p s then record s { link_state = badend } else s))
link_case rcveof s0 =
    let s = device_phy_sends Primitive.r_ip_p true s0 in
    some (record s { link_state = if s.crc_matched then goodend else badend })
link_case wait s0 =
    let s = device_phy_sends Primitive.wtrm_p true s0 in
    some (
      if wait_for_primitive Primitive.sync_p s
      then record s { link_state = idle }
      else (if wait_for_primitive Primitive.ok_p s
          then record s { link_state = idle }
          else (if wait_for_primitive Primitive.err_p s
              then record s { link_state = idle }
              else s)))
link_case goodend s0 =
    let s = device_phy_sends Primitive.ok_p true s0 in
    some (if wait_for_primitive Primitive.sync_p s then record s { link_state = idle } else s)
link_case badend s0 =
    let s = device_phy_sends Primitive.err_p true s0 in
    some (if wait_for_primitive Primitive.sync_p s then record s { link_state = idle } else s)

-- The value returned is the `link_state` of the new device.
unfoldable pub link_layer_model : SataSim → Option SataSim
unfolding link_case
link_layer_model s = if s.oob_done then link_case s.link_state s else some s
