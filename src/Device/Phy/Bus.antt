-- ===== src/Device/Phy/Bus.antt =====
-- The 33-bit word that the controller receives.
use wbsata.Common.{
  ℕ, ◌+◌, ◌/◌, ◌%◌, ◌<◌, ◌^◌, bit_and, bit_or, Bool, true, false, ◌≡◌, refl, ap, ◌∙◌, if◌then◌else◌,
  arith,
}
use wbsata.Common.Xor.{and_ones}
use wbsata.Common.Fields.{or_above}
use wbsata.Device.State.{SataSim}
use wbsata.Device.Phy.{process_rx_signals, device_phy_sends}

-- A 32-bit word that the device sends reaches the controller as valid, in the low 32 bits of the
-- word on the bus, with the primitive bit above it, both there and on its own wire.
pub device_phy_sends_seen :
    (w : ℕ) (primitive : Bool) (s : SataSim)
    → w < 2 ^ 32
    → let r = process_rx_signals (device_phy_sends w primitive s) in
      (r.valid ≡ true)
      × (r.primitive ≡ primitive)
      × (r.word % 2 ^ 32 ≡ w)
      × (r.word / 2 ^ 32 ≡ (if primitive then 1 else 0))
unfolding process_rx_signals device_phy_sends
device_phy_sends_seen w true s h = (refl, refl, omega (arith, whole), omega (arith, whole))
  where
    whole : bit_or (bit_and w 0xFFFFFFFF) (2 ^ 32) ≡ w + 2 ^ 32
    whole = ap (λ t. bit_or t (2 ^ 32)) low ∙ or_above 32 w 1 h
      where
        low : bit_and w 0xFFFFFFFF ≡ w
        low = omega (arith, and_ones 32 w)
device_phy_sends_seen w false s h =
    (refl, refl, omega (arith, and_ones 32 w), omega (arith, and_ones 32 w))
