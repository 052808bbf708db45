-- ===== src/Device/State.antt =====
-- The members of `SATASIM`, its constructor and its resets: bench/cpp/satasim.h, satasim.cpp.
-- A member is named without its `m_`, and `m_reset` is `in_reset`. The function-local statics of
-- `send_coms` and `link_layer_model` are fields too: there is one device. Left out are the members
-- that nothing reads and the constructor does not set.
use wbsata.Common.{ℕ, Bool, true, false, Option, none, some, List, replicate, get_elem?, ◌>>=◌}
use wbsata.Device.Scrambler.{scrambler_initial}
use wbsata.Device.Crc.{crc_initial}

pub data LinkState : Type 0 where
  send_align idle send_chkrdy send_data send_eof wait : LinkState
  rcv_chkrdy rcv_data rcveof goodend badend : LinkState

abbrev pub max_data_words : ℕ
max_data_words = 512

pub record SataSim : Type 0 where
  pub busy : Bool
  pub in_reset : Bool
  pub link_ready : Bool
  pub rxphy_cominit : Bool
  pub rxphy_comwake : Bool
  pub rxphy_elecidle : Bool
  pub rxphy_valid : Bool
  pub rxphy_primitive : Bool
  pub rxphy_data : ℕ
  pub txphy_cominit : Bool
  pub txphy_comwake : Bool
  pub txphy_comfinish : Bool
  pub txphy_elecidle : Bool
  pub txphy_primitive : Bool
  pub txphy_data : ℕ
  pub ready : Bool
  pub phy_ready : Bool
  pub txphy_ready : Bool
  pub link_state : LinkState
  pub oob_done : Bool
  pub dma_act : Bool
  pub dma_read : Bool
  pub pio_setup : Bool
  pub pio_read : Bool
  pub data_response : Bool
  pub scrambler_fill : ℕ
  pub crc : ℕ
  pub lba : ℕ
  pub received_data : List ℕ
  pub sent_data : Option (List ℕ)  -- `none` is the null pointer
  pub data_count : ℕ
  pub crc_matched : Bool
  pub data_complete : Bool
  pub cominit_sent : Bool  -- static in `send_coms`
  pub comwake_sent : Bool  -- static in `send_coms`
  pub align_cnt : ℕ  -- static in `link_layer_model`

unfoldable pub reset_data_buffer : SataSim → SataSim
reset_data_buffer s = record s {
  scrambler_fill = scrambler_initial;
  crc = crc_initial;
  data_count = 0;
  crc_matched = false;
  data_complete = false;
}

-- The constructor; the statics are false and 0 when the program starts.
unfoldable pub new : SataSim
new = record {
  busy = false;
  in_reset = false;
  link_ready = false;
  rxphy_cominit = false;
  rxphy_comwake = false;
  rxphy_elecidle = true;
  rxphy_valid = false;
  rxphy_primitive = false;
  rxphy_data = 0;
  txphy_cominit = false;
  txphy_comwake = false;
  txphy_comfinish = false;
  txphy_elecidle = true;
  txphy_primitive = false;
  txphy_data = 0;
  ready = false;
  phy_ready = false;
  txphy_ready = false;
  link_state = send_align;
  oob_done = false;
  dma_act = false;
  dma_read = false;
  pio_setup = false;
  pio_read = false;
  data_response = false;
  scrambler_fill = scrambler_initial;
  crc = crc_initial;
  lba = 0;
  received_data = replicate max_data_words 0;
  sent_data = none;
  data_count = 0;
  crc_matched = false;
  data_complete = false;
  cominit_sent = false;
  comwake_sent = false;
  align_cnt = 0;
}

unfoldable pub reset : SataSim → SataSim
unfolding reset_data_buffer
reset s = reset_data_buffer (record s {
  busy = false;
  rxphy_elecidle = true;
  rxphy_cominit = false;
  rxphy_comwake = false;
  txphy_comfinish = false;
  ready = false;
  rxphy_valid = false;
  rxphy_primitive = false;
  rxphy_data = 0;
  phy_ready = false;
  txphy_ready = false;
  oob_done = false;
  scrambler_fill = scrambler_initial;
  crc = crc_initial;
})

unfoldable pub is_busy : SataSim → Bool
is_busy s = s.busy

unfoldable pub set_oob_done : Bool → SataSim → SataSim
set_oob_done done s = record s { oob_done = done }

unfoldable pub set_sent_data : List ℕ → SataSim → SataSim
set_sent_data words s = record s { sent_data = some words }

-- `m_sent_data[index]`; `none` is a read through the null pointer or past the array.
unfoldable pub get_sent_data : ℕ → SataSim → Option ℕ
get_sent_data index s = do words ← s.sent_data; get_elem? words index
