-- ===== src/Device/Phy.antt =====
-- The signals between the device and the controller, and the out-of-band handshake that starts
-- the link: `detect_coms`, `send_coms`, `process_oob`, `process_rx_signals`,
-- `process_tx_signals` and `device_phy_sends` of bench/cpp/satasim.cpp.
pub mod Handshake
pub mod Bus
use wbsata.Common.{ℕ, ◌+◌, ◌^◌, bit_and, bit_or}
use wbsata.Common.{Bool, true, false, not, ◌&&◌, ◌||◌, if◌then◌else◌}
use wbsata.Device.State.{SataSim, set_oob_done}

unfoldable pub detect_coms : SataSim → SataSim
detect_coms s =
    if s.txphy_cominit || s.txphy_comwake
    then record s { txphy_comfinish = true }
    else record s { txphy_comfinish = false }

-- The first half of `send_coms`: COMINIT is driven while the static flag is unset.
unfoldable pub send_cominit : SataSim → SataSim
send_cominit s =
    if s.txphy_comfinish && not s.cominit_sent
    then record s { rxphy_cominit = true }
    else (if s.rxphy_cominit then record s { cominit_sent = true; rxphy_cominit = false } else s)

-- The second half, which reads what the first has written.
unfoldable pub send_comwake : SataSim → SataSim
send_comwake s =
    if s.txphy_comfinish && not s.comwake_sent && s.cominit_sent
    then record s { rxphy_comwake = true }
    else (if s.rxphy_comwake then record s { comwake_sent = true; rxphy_comwake = false } else s)

unfoldable pub send_coms : SataSim → SataSim × Bool
unfolding send_cominit send_comwake
send_coms s = let s' = send_comwake (send_cominit s) in (s', s'.cominit_sent && s'.comwake_sent)

unfoldable pub process_oob : SataSim → SataSim × Bool
unfolding detect_coms send_coms
process_oob s =
    let (s', coms_done) = send_coms (detect_coms s) in
    (if coms_done then record s' { rxphy_elecidle = false } else s', coms_done)

-- The controller's inputs on the RX clock.
pub record RxSignals : Type 0 where
  pub cominit : Bool
  pub comwake : Bool
  pub elecidle : Bool
  pub valid : Bool
  pub primitive : Bool
  pub word : ℕ  -- `rxphy_data`, 33 bits
  pub phy_ready : Bool

unfoldable pub process_rx_signals : SataSim → RxSignals
process_rx_signals s =
    let low = bit_and s.rxphy_data 0xFFFFFFFF in
    record {
      cominit = s.rxphy_cominit;
      comwake = s.rxphy_comwake;
      elecidle = s.rxphy_elecidle;
      valid = s.rxphy_valid;
      primitive = s.rxphy_primitive;
      word = if s.rxphy_primitive then bit_or low (2 ^ 32) else low;
      phy_ready = s.phy_ready;
    }

-- The controller's outputs on the TX clock.
pub record TxSignals : Type 0 where
  pub reset : Bool
  pub cominit : Bool
  pub comwake : Bool
  pub elecidle : Bool
  pub primitive : Bool
  pub word : ℕ  -- `txphy_data`
  pub link_ready : Bool

pub record TxReply : Type 0 where
  pub comfinish : Bool
  pub ready : Bool

unfoldable pub process_tx_signals : TxSignals → SataSim → SataSim × TxReply
process_tx_signals t s =
    let up = not t.reset in
    (
      record s {
        in_reset = t.reset;
        link_ready = t.link_ready;
        txphy_ready = up;
        phy_ready = up;
        txphy_cominit = t.cominit;
        txphy_comwake = t.comwake;
        txphy_elecidle = t.elecidle;
        txphy_primitive = t.primitive;
        txphy_data = t.word;
      },
      record { comfinish = s.txphy_comfinish; ready = up },
    )

-- The handshake runs while the core's link is down.
unfoldable pub handshake : Bool → SataSim → SataSim
unfolding process_oob set_oob_done
handshake link_ready s =
    if link_ready then s else (let (s', oob_done) = process_oob s in set_oob_done oob_done s')

-- What `sim_tx_clk_tick` of bench/cpp/tb_sata.cpp does with the device: the handshake reads the
-- signals that the clock before has captured.
unfoldable pub tx_clock : TxSignals → SataSim → SataSim × TxReply
unfolding handshake process_tx_signals
tx_clock t s = process_tx_signals t (handshake t.link_ready s)

unfoldable pub device_phy_sends : ℕ → Bool → SataSim → SataSim
device_phy_sends word primitive s = record s {
  rxphy_valid = true;
  rxphy_primitive = primitive;
  rxphy_data = word;
}
