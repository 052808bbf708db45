-- ===== src/Device/Session/Quiet.antt =====
-- The states between two frames, and what a primitive of the controller does there.
use wbsata.Common.{ℕ, zero, suc, Bool, true, ◌||◌, Option, some, List, ◌≡◌, refl, arith}
use wbsata.Device.State.{
  LinkState, idle, send_chkrdy, send_data, send_eof, wait, rcv_chkrdy, rcv_data, goodend, SataSim,
  reset_data_buffer,
}
use wbsata.Device.Scrambler.{scrambler_initial}
use wbsata.Device.Crc.{crc_initial}
use wbsata.Device.Phy.{process_tx_signals, device_phy_sends}
use wbsata.Device.Primitive
use wbsata.Device.Link.{link_layer_model, link_case, wait_for_primitive, has_response}
use wbsata.Device.Frame.{signals, clock}
use wbsata.Device.Session.{hold}

-- What a device has to do.
pub record Marks : Type 0 where
  pub dma_act : Bool
  pub dma_read : Bool
  pub pio_setup : Bool
  pub pio_read : Bool
  pub data_response : Bool

-- What lasts from frame to frame: the marks, the buffers, and that the link is up.
pub record Holds (m : Marks) (sent : Option (List ℕ)) (buffer : List ℕ) (s : SataSim) : Type 0 where
  pub up : s.oob_done ≡ true
  pub dma_act : s.dma_act ≡ m.dma_act
  pub dma_read : s.dma_read ≡ m.dma_read
  pub pio_setup : s.pio_setup ≡ m.pio_setup
  pub pio_read : s.pio_read ≡ m.pio_read
  pub data_response : s.data_response ≡ m.data_response
  pub sent_is : s.sent_data ≡ sent
  pub received : s.received_data ≡ buffer

-- The registers are those of a new frame.
pub record IsFresh (s : SataSim) : Type 0 where
  pub count : s.data_count ≡ 0
  pub fill_is : s.scrambler_fill ≡ scrambler_initial
  pub crc_is : s.crc ≡ crc_initial

-- The device with the primitive that the controller sends.
hears : ℕ → SataSim → SataSim
unfolding process_tx_signals
hears p s = (process_tx_signals (signals true p) s).0

module _ (m : Marks) (sent : Option (List ℕ)) (buffer : List ℕ) where
  -- In a state between frames.
  pub record IsIn (l : LinkState) (s : SataSim) : Type 0 where
    pub in_state : s.link_state ≡ l
    pub holds : Holds m sent buffer s

  pub record IsFreshIn (l : LinkState) (s : SataSim) : Type 0 where
    pub in_state : s.link_state ≡ l
    pub holds : Holds m sent buffer s
    pub fresh : IsFresh s

  waits : (l : LinkState) (s : SataSim) → IsFreshIn l s → IsIn l s
  waits l s h = record { in_state = h.in_state; holds = h.holds }

  clock_in :
      (l : LinkState) (p : ℕ) (s : SataSim) → IsIn l s → clock true p s ≡ link_case l (hears p s)
  unfolding clock link_layer_model hears
  clock_in l p s h = ground arith

  -- IDLE hears a request.
  pub idle_request :
      (s : SataSim)
      → IsIn idle s
      → (t : SataSim) × (clock true Primitive.xrdy_p s ≡ some t) × IsFreshIn rcv_chkrdy t
  unfolding link_case hears wait_for_primitive device_phy_sends reset_data_buffer
  idle_request s h = (_, clock_in idle Primitive.xrdy_p s h, ground (arith, h))

  pub request_held :
      (s : SataSim)
      → IsFreshIn rcv_chkrdy s
      → (t : SataSim) × (clock true Primitive.xrdy_p s ≡ some t) × IsFreshIn rcv_chkrdy t
  unfolding link_case hears wait_for_primitive device_phy_sends
  request_held s h =
      (_, clock_in rcv_chkrdy Primitive.xrdy_p s (waits rcv_chkrdy s h), ground (arith, h))

  pub frame_starts :
      (s : SataSim)
      → IsFreshIn rcv_chkrdy s
      → (t : SataSim) × (clock true Primitive.sof_p s ≡ some t) × IsFreshIn rcv_data t
  unfolding link_case hears wait_for_primitive device_phy_sends
  frame_starts s h =
      (_, clock_in rcv_chkrdy Primitive.sof_p s (waits rcv_chkrdy s h), ground (arith, h))

  -- GOODEND waits for the end of the controller's turn.
  pub verdict_held :
      (s : SataSim)
      → IsIn goodend s
      → (t : SataSim) × (clock true Primitive.wtrm_p s ≡ some t) × IsIn goodend t
  unfolding link_case hears wait_for_primitive device_phy_sends
  verdict_held s h = (_, clock_in goodend Primitive.wtrm_p s h, ground (arith, h))

  pub turn_ends :
      (s : SataSim)
      → IsIn goodend s
      → (t : SataSim) × (clock true Primitive.sync_p s ≡ some t) × IsIn idle t
  unfolding link_case hears wait_for_primitive device_phy_sends
  turn_ends s h = (_, clock_in goodend Primitive.sync_p s h, ground (arith, h))

  -- IDLE with something to say.
  pub answer_due :
      (s : SataSim)
      → IsIn idle s
      → (m.dma_act || m.dma_read || m.pio_setup || m.pio_read || m.data_response) ≡ true
      → (t : SataSim) × (clock true Primitive.sync_p s ≡ some t) × IsFreshIn send_chkrdy t
  unfolding link_case hears wait_for_primitive device_phy_sends reset_data_buffer has_response
  answer_due s h due = (_, clock_in idle Primitive.sync_p s h, ground (arith, h, due))

  pub answer_held :
      (s : SataSim)
      → IsFreshIn send_chkrdy s
      → (t : SataSim) × (clock true Primitive.sync_p s ≡ some t) × IsFreshIn send_chkrdy t
  unfolding link_case hears wait_for_primitive device_phy_sends
  answer_held s h =
      (_, clock_in send_chkrdy Primitive.sync_p s (waits send_chkrdy s h), ground (arith, h))

  pub answer_starts :
      (s : SataSim)
      → IsFreshIn send_chkrdy s
      → (t : SataSim) × (clock true Primitive.rrdy_p s ≡ some t) × IsFreshIn send_data t
  unfolding link_case hears wait_for_primitive device_phy_sends
  answer_starts s h =
      (_, clock_in send_chkrdy Primitive.rrdy_p s (waits send_chkrdy s h), ground (arith, h))

  -- The device's own frame has ended, and its verdict comes.
  pub answer_ends :
      (s : SataSim)
      → IsIn send_eof s
      → (t : SataSim) × (clock true Primitive.r_ip_p s ≡ some t) × IsIn wait t
  unfolding link_case hears wait_for_primitive device_phy_sends
  answer_ends s h = (_, clock_in send_eof Primitive.r_ip_p s h, ground (arith, h))

  pub judgement_held :
      (s : SataSim)
      → IsIn wait s
      → (t : SataSim) × (clock true Primitive.r_ip_p s ≡ some t) × IsIn wait t
  unfolding link_case hears wait_for_primitive device_phy_sends
  judgement_held s h = (_, clock_in wait Primitive.r_ip_p s h, ground (arith, h))

  pub judgement_good :
      (s : SataSim)
      → IsIn wait s
      → (t : SataSim) × (clock true Primitive.ok_p s ≡ some t) × IsIn idle t
  unfolding link_case hears wait_for_primitive device_phy_sends
  judgement_good s h = (_, clock_in wait Primitive.ok_p s h, ground (arith, h))

-- A condition that a primitive keeps, kept while the controller holds it.
pub hold_keeps :
    (P : SataSim → Type 0) (p : ℕ)
    → ((s : SataSim) → P s → (t : SataSim) × (clock true p s ≡ some t) × P t)
    → (n : ℕ) (s : SataSim) → P s
    → (t : SataSim) × (hold n p s ≡ some t) × P t
unfolding hold
hold_keeps P p keeps zero s h = (s, refl, h)
hold_keeps P p keeps (suc n) s h =
    let (u, run, hu) = keeps s h in
    let (t, rest, ht) = hold_keeps P p keeps n u hu in (t, simp run rest, ht)

-- The first clock of a primitive leads where it then keeps the device.
pub hold_enters :
    (P Q : SataSim → Type 0) (p : ℕ)
    → ((s : SataSim) → P s → (t : SataSim) × (clock true p s ≡ some t) × Q t)
    → ((s : SataSim) → Q s → (t : SataSim) × (clock true p s ≡ some t) × Q t)
    → (n : ℕ) (s : SataSim) → P s
    → (t : SataSim) × (hold (suc n) p s ≡ some t) × Q t
unfolding hold
hold_enters P Q p enters keeps n s h =
    let (u, run, hu) = enters s h in
    let (t, rest, ht) = hold_keeps Q p keeps n u hu in (t, simp run rest, ht)
