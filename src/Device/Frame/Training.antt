-- ===== src/Device/Frame/Training.antt =====
-- The ALIGN primitives at the start of the link.
use mathlib.Core.Path.{subst}
use wbsata.Common.{ℕ, zero, suc, ◌+◌, ◌<◌, true, some, [], replicate}
use wbsata.Common.{◌≡◌, refl, arith}
use wbsata.Device.State.{SataSim, send_align, idle}
use wbsata.Device.Phy.{device_phy_sends}
use wbsata.Device.Primitive
use wbsata.Device.Link.{link_layer_model}
use wbsata.Device.Frame.{say}
use wbsata.Device.Frame.Send.{say_step}

-- A device that trains the link, with `sent` ALIGNs behind it.
pub record IsTraining (sent : ℕ) (s : SataSim) : Type 0 where
  pub in_state : s.link_state ≡ send_align
  pub up : s.oob_done ≡ true
  pub count_is : s.align_cnt ≡ sent

aligned : SataSim → SataSim
unfolding device_phy_sends
aligned s = device_phy_sends Primitive.align_p true (record s { align_cnt = s.align_cnt + 1 })

IsTraining-step :
    (sent : ℕ) (s : SataSim)
    → IsTraining sent s
    → sent + 1 < 100
    → (link_layer_model s ≡ some (aligned s)) × IsTraining (sent + 1) (aligned s)
unfolding link_layer_model aligned
IsTraining-step sent s h lt = (ground arith, ground arith)

training_last :
    (s : SataSim)
    → IsTraining 99 s
    → link_layer_model s ≡ some (record (aligned s) { link_state = idle })
unfolding link_layer_model aligned
training_last s h = ground arith

aligned_word :
    (s : SataSim)
    → ((aligned s).rxphy_primitive ≡ true) × ((aligned s).rxphy_data ≡ Primitive.align_p)
unfolding aligned
aligned_word s = (refl, refl)

-- A device that trains the link and has sent fewer than 100 ALIGNs says, in as many clocks as are
-- left to 100, one ALIGN primitive in each, and is then in IDLE.
pub training_ends :
    (n sent : ℕ) (s : SataSim)
    → IsTraining sent s
    → sent + suc n ≡ 100
    → (t : SataSim) × (say (suc n) s ≡ some (t, replicate (suc n) (true, Primitive.align_p)))
      × (t.link_state ≡ idle)
unfolding aligned
training_ends zero sent s h e =
    let full : sent ≡ 99 = omega arith in
    let last = training_last s (subst (λ k. IsTraining k s) full h) in
    (record (aligned s) { link_state = idle }, say_step 0 s _ _ [] last (unfold say in refl), refl)
training_ends (suc n) sent s h e =
    let (step, more) = IsTraining-step sent s h (omega arith) in
    let (t, run, done) = training_ends n (sent + 1) (aligned s) more (omega arith) in
    (t, say_step (suc n) s (aligned s) t _ step run, done)
