-- ===== src/Examples/Handshakes.antt =====
-- A new device and a controller that pulses COMINIT and then COMWAKE.
use wbsata.Common.{◌≡◌, [], ◌∷◌, refl, true, false}
use wbsata.Device.State.{SataSim, new, reset, idle}
use wbsata.Device.Phy.{TxSignals, tx_clock}
use wbsata.Device.Phy.Handshake.{
  quiet, Tells, tx_clocks, tx_clock_refines, handshake_completes, reset_skips_handshake,
}

abbrev pub silence : TxSignals
silence = record {
  reset = false;
  cominit = false;
  comwake = false;
  elecidle = true;
  primitive = false;
  word = 0;
  link_ready = false;
}

abbrev pub cominit : TxSignals
cominit = record silence { cominit = true }

abbrev pub comwake : TxSignals
comwake = record silence { comwake = true }

tx_clock_refines_example : Tells quiet cominit new (tx_clock cominit new)
tx_clock_refines_example =
    tx_clock_refines quiet cominit new (unfold new in (refl, refl, refl, refl))

handshake_completes_example :
    (tx_clock silence
      (tx_clocks (silence ∷ cominit ∷ silence ∷ comwake ∷ silence ∷ []) new)).0.oob_done
    ≡ true
handshake_completes_example =
    handshake_completes 1 0 0 0 (silence ∷ cominit ∷ silence ∷ comwake ∷ silence ∷ []) silence
      (refl, (refl, (refl, (refl, (refl, tt))))) refl refl

-- A device that has been through the handshake.
abbrev woken : SataSim
unfolding new
woken = record new { cominit_sent = true; comwake_sent = true; oob_done = true; link_state = idle }

reset_skips_handshake_example :
    let s' = (tx_clock silence (tx_clocks (cominit ∷ []) (reset woken))).0 in
    (s'.rxphy_cominit ≡ false)
    × (s'.rxphy_comwake ≡ false)
    × (silence.link_ready ≡ false → s'.oob_done ≡ true)
reset_skips_handshake_example =
    reset_skips_handshake (cominit ∷ []) silence woken (unfold new in (refl, refl, refl, refl))
