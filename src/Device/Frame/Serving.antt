-- ===== src/Device/Frame/Serving.antt =====
-- What each of the four responses does, count by count: DMA activate, PIO setup, data, and register
-- device-to-host.
use wbsata.Common.{
  ◌<◌, get_elem?-take, get_elem?-lt, length-take, ◌-◌, ℕ, zero, suc, ◌≤◌, true, false, ◌||◌, some,
  ◌≡◌, refl, ◌∙◌, arith,
}
use wbsata.Common.{List, ◌∷◌, length, get_elem?, take}
use wbsata.Device.Scrambler.{scrambler_initial}
use wbsata.Device.Crc.{crc_initial}
use wbsata.Device.State.{SataSim, send_data, get_sent_data}
use wbsata.Device.Words.{device_link_sends}
use wbsata.Device.Phy.{device_phy_sends}
use wbsata.Device.Link.{
  respond, start_frame, frame_word, end_frame, dma_activate, pio_setup_response, data_send,
  d2h_response, dma_act_fis_response, pio_setup_fis_response, d2h_reg_fis_response,
}
use wbsata.Device.Frame.Send.{Serves}

-- A device in SEND_DATA at the start of a frame.
pub record IsReady (s : SataSim) : Type 0 where
  pub in_state : s.link_state ≡ send_data
  pub up : s.oob_done ≡ true
  pub fresh : s.data_count ≡ 0
  pub fill_is : s.scrambler_fill ≡ scrambler_initial
  pub crc_is : s.crc ≡ crc_initial

abbrev pub Sends : SataSim → Type 0
Sends s = (s.link_state ≡ send_data) × (s.oob_done ≡ true)

-- The condition of each response, in the order in which they are tried.
abbrev pub ServesDma : SataSim → Type 0
ServesDma s = Sends s × (s.dma_act ≡ true)

abbrev pub ServesPio : SataSim → Type 0
ServesPio s = Sends s × (s.dma_act ≡ false) × (s.pio_setup ≡ true)

abbrev pub ServesData : List ℕ → SataSim → Type 0
ServesData buffer s =
    Sends s
    × (s.dma_act ≡ false)
    × (s.pio_setup ≡ false)
    × ((s.dma_read || s.pio_read) ≡ true)
    × (s.sent_data ≡ some buffer)

abbrev pub ServesD2h : SataSim → Type 0
ServesD2h s =
    Sends s
    × (s.dma_act ≡ false)
    × (s.pio_setup ≡ false)
    × ((s.dma_read || s.pio_read) ≡ false)
    × (s.data_response ≡ true)

-- The marks that each response leaves when it has sent its last word.
unfoldable pub dma_done : SataSim → SataSim
dma_done s = record s { dma_act = false }

unfoldable pub pio_done : SataSim → SataSim
pio_done s = record s { pio_setup = false }

unfoldable pub data_done : SataSim → SataSim
data_done s = record s { dma_read = false; pio_read = false; data_response = true }

unfoldable pub d2h_done : SataSim → SataSim
d2h_done s = record s { data_response = false }

dma_word :
    (i w : ℕ) (s : SataSim)
    → s.dma_act ≡ true
    → s.data_count ≡ suc i
    → get_elem? dma_act_fis_response i ≡ some w
    → respond s ≡ some (frame_word w s)
unfolding respond dma_activate
dma_word zero w s p e g = let h : 0x39 ≡ w = cc in rw (← h) (ground arith)
dma_word (suc i) w s p e g = cc

pub dma-Serves : Serves dma_act_fis_response ServesDma dma_done
unfolding respond dma_activate start_frame frame_word device_link_sends device_phy_sends dma_done
dma-Serves = record {
  sending = λ s p. p.0;
  starts = λ s p e. ground arith;
  serves = λ i w s p e g. dma_word i w s p.1 e g;
  ends = λ s p e. ground arith;
  keeps_start = λ s p. p;
  keeps_word = λ w s p. p;
  done_registers = λ s. (refl, refl);
}

pio_word :
    (i w : ℕ) (s : SataSim)
    → s.dma_act ≡ false
    → s.pio_setup ≡ true
    → s.data_count ≡ suc i
    → get_elem? pio_setup_fis_response i ≡ some w
    → respond s ≡ some (frame_word w s)
unfolding respond pio_setup_response
pio_word i w s p q e g =
    let index : s.data_count - 1 ≡ i = omega arith in
    ground (arith, get_elem?-lt pio_setup_fis_response i g, index)

pub pio-Serves : Serves pio_setup_fis_response ServesPio pio_done
unfolding respond pio_setup_response start_frame frame_word device_link_sends device_phy_sends
    pio_done
pio-Serves = record {
  sending = λ s p. p.0;
  starts = λ s p e. ground arith;
  serves = λ i w s p e g. pio_word i w s p.1 p.2 e g;
  ends = λ s p e. ground arith;
  keeps_start = λ s p. p;
  keeps_word = λ w s p. p;
  done_registers = λ s. (refl, refl);
}

d2h_word :
    (i w : ℕ) (s : SataSim)
    → ServesD2h s
    → s.data_count ≡ suc i
    → get_elem? d2h_reg_fis_response i ≡ some w
    → respond s ≡ some (frame_word w s)
unfolding respond d2h_response
d2h_word i w s p e g =
    let index : s.data_count - 1 ≡ i = omega arith in
    ground (arith, get_elem?-lt d2h_reg_fis_response i g, index)

pub d2h-Serves : Serves d2h_reg_fis_response ServesD2h d2h_done
unfolding respond d2h_response start_frame frame_word device_link_sends device_phy_sends d2h_done
d2h-Serves = record {
  sending = λ s p. p.0;
  starts = λ s p e. ground arith;
  serves = λ i w s p e g. d2h_word i w s p e g;
  ends = λ s p e. ground arith;
  keeps_start = λ s p. p;
  keeps_word = λ w s p. p;
  done_registers = λ s. (refl, refl);
}

-- The words of a data frame: the header and a sector.
abbrev pub data_words : List ℕ → List ℕ
data_words buffer = 0x46 ∷ take 128 buffer

respond-data : (buffer : List ℕ) (s : SataSim) → ServesData buffer s → respond s ≡ data_send s
unfolding respond
respond-data buffer s p = ground arith

read_sent :
    (buffer : List ℕ) (i w : ℕ) (s : SataSim)
    → s.sent_data ≡ some buffer
    → get_elem? buffer i ≡ some w
    → get_sent_data i s ≡ some w
unfolding get_sent_data
read_sent buffer i w s e g = rw e g

data_send_word :
    (i w : ℕ) (s : SataSim)
    → s.data_count ≡ suc (suc i)
    → i < 128
    → get_sent_data (s.data_count - 2) s ≡ some w
    → data_send s ≡ some (frame_word w s)
unfolding data_send
data_send_word i w s e short g = ground arith

data_send_header : (s : SataSim) → s.data_count ≡ 1 → data_send s ≡ some (frame_word 0x46 s)
unfolding data_send
data_send_header s e = ground arith

data_send_end : (s : SataSim) → s.data_count ≡ 130 → data_send s ≡ some (end_frame (data_done s))
unfolding data_send data_done
data_send_end s e = ground arith

data_word :
    (buffer : List ℕ) (i w : ℕ) (s : SataSim)
    → s.sent_data ≡ some buffer
    → s.data_count ≡ suc i
    → get_elem? (data_words buffer) i ≡ some w
    → data_send s ≡ some (frame_word w s)
data_word buffer zero w s p e g = let h : 0x46 ≡ w = cc in rw (← h) (data_send_header s e)
data_word buffer (suc i) w s p e g =
    let (there, below) = get_elem?-take 128 buffer i g in
    let index : s.data_count - 2 ≡ i = omega arith in
    data_send_word i w s e below (rw index (read_sent buffer i w s p there))

pub data-Serves :
    (buffer : List ℕ)
    → 128 ≤ length buffer
    → Serves (data_words buffer) (ServesData buffer) data_done
unfolding data_send start_frame frame_word device_link_sends device_phy_sends data_done
data-Serves buffer long = record {
  sending = λ s p. p.0;
  starts = λ s p e. respond-data buffer s p ∙ starts s e;
  serves = λ i w s p e g. respond-data buffer s p ∙ data_word buffer i w s p.4 e g;
  ends = λ s p e.
      respond-data buffer s p ∙ data_send_end s (omega (arith, length-take 128 buffer long));
  keeps_start = λ s p. p;
  keeps_word = λ w s p. p;
  done_registers = λ s. (refl, refl);
}
  where
    starts : (s : SataSim) → s.data_count ≡ 0 → data_send s ≡ some (start_frame s)
    starts s e = unfold data_send in ground arith
