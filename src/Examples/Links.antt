-- ===== src/Examples/Links.antt =====
-- A device that has come out of the handshake, and its first ALIGN.
use wbsata.Device.Link.Widths.{HasWidths, Reach-HasWidths}
use wbsata.Common.{[], ◌∷◌, Bool, arith, ◌⊎◌, ◌≡◌, refl, true, false, some, replicate}
use wbsata.Device.State.{SataSim, new, idle}
use wbsata.Device.Phy.{TxSignals, handshake, tx_clock, device_phy_sends}
use wbsata.Device.Phy.Handshake.{tx_clocks}
use wbsata.Device.Primitive
use wbsata.Device.Link.{link_layer_model, link_case}
use wbsata.Device.Link.Safety.{IsSound}
use wbsata.Device.Link.Reach.{tx, oob, rx, Reach, begin, next, Reach-IsSound}
use wbsata.Device.Link.Diagram.{Follows, link_layer_model-Follows}
use wbsata.Device.Link.Total.{HasRoom, link_layer_model_total}
use wbsata.Device.Frame.{say}
use wbsata.Device.Frame.Training.{training_ends}
use wbsata.Examples.Handshakes.{silence, cominit, comwake}

shaken : (link_ready : Bool) {s : SataSim} → Reach s → Reach (handshake link_ready s)
unfolding handshake
shaken true r = r
shaken false {s} r = next r (oob s)

clocked : (t : TxSignals) {s : SataSim} → Reach s → Reach (tx_clock t s).0
unfolding tx_clock
clocked t {s} r = next (shaken t.link_ready r) (tx t (handshake t.link_ready s))

abbrev awakened : SataSim
unfolding new tx_clocks tx_clock
awakened = tx_clocks (cominit ∷ silence ∷ comwake ∷ silence ∷ silence ∷ []) new

Reach-awakened : Reach awakened
unfolding awakened tx_clocks
Reach-awakened =
    clocked silence (clocked silence (clocked comwake (clocked silence (clocked cominit begin))))

-- The same device after one ALIGN.
abbrev aligned_once : SataSim
unfolding awakened new tx_clocks tx_clock device_phy_sends
aligned_once = record (device_phy_sends Primitive.align_p true awakened) { align_cnt = 1 }

first_align : link_layer_model awakened ≡ some aligned_once
unfolding link_layer_model link_case awakened aligned_once new tx_clock device_phy_sends
first_align = refl

Reach-IsSound_example : IsSound aligned_once
Reach-IsSound_example = Reach-IsSound {s = aligned_once} (next Reach-awakened (rx first_align))

link_layer_model-Follows_example :
    ((awakened.oob_done ≡ false) × (aligned_once ≡ awakened))
    ⊎ ((awakened.oob_done ≡ true) × Follows awakened.link_state awakened aligned_once.link_state)
link_layer_model-Follows_example =
    link_layer_model-Follows {s = awakened} {t = aligned_once} Reach-awakened first_align

awakened-HasRoom : HasRoom awakened
unfolding awakened new tx_clocks tx_clock
awakened-HasRoom = record { sector = λ st read. cc; space = λ st. cc }

link_layer_model_total_example : (t : SataSim) × (link_layer_model awakened ≡ some t)
link_layer_model_total_example =
    link_layer_model_total {s = awakened} Reach-awakened awakened-HasRoom

abbrev training : SataSim
unfolding new
training = record new { oob_done = true; align_cnt = 98 }

training_ends_example :
    (t : SataSim) × (say 2 training ≡ some (t, replicate 2 (true, Primitive.align_p)))
    × (t.link_state ≡ idle)
training_ends_example =
    training_ends 1 98 training
      (unfold new in record { in_state = refl; up = refl; count_is = refl }) (omega arith)

Reach-HasWidths_example : HasWidths aligned_once
Reach-HasWidths_example = Reach-HasWidths {s = aligned_once} (next Reach-awakened (rx first_align))
