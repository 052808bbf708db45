-- ===== src/Device/Frame/Responses.antt =====
-- The frames of the four responses: DMA activate, PIO setup, data, and register device-to-host.
use wbsata.Common.{
  sym, length-take, ℕ, suc, ◌≤◌, Bool, true, false, ◌||◌, Option, some, ◌≡◌, refl, ap, ◌∙◌, arith,
}
use wbsata.Common.{List, length}
use wbsata.Device.State.{SataSim, send_eof}
use wbsata.Device.Words.{device_link_sends}
use wbsata.Device.Phy.{device_phy_sends}
use wbsata.Device.Link.{
  start_frame, end_frame, dma_act_fis_response, pio_setup_fis_response, d2h_reg_fis_response,
}
use wbsata.Device.Frame.{say, spoken}
use wbsata.Device.Frame.Send.{said, say_frame}
use wbsata.Device.Frame.Serving.{
  IsReady, ServesDma, ServesPio, ServesData, ServesD2h, dma_done, pio_done, data_done, d2h_done,
  dma-Serves, pio-Serves, d2h-Serves, data-Serves, data_words,
}

-- Told to activate a DMA transfer, a device at the start of a frame says in three clocks SOF and
-- the frame of the DMA activate word, goes on to SEND_EOF, and has done with that response.
pub dma_activate_frame :
    (s : SataSim)
    → IsReady s
    → s.dma_act ≡ true
    → (t : SataSim) × (say 3 s ≡ some (t, spoken dma_act_fis_response))
      × (t.link_state ≡ send_eof)
      × (t.dma_act ≡ false)
unfolding said end_frame device_link_sends device_phy_sends dma_done
dma_activate_frame s h dma =
    let spoke =
      say_frame dma_act_fis_response ServesDma dma_done dma-Serves s ((h.in_state, h.up), dma)
        h.fresh h.fill_is h.crc_is in
    (
      said dma_act_fis_response ServesDma dma_done dma-Serves dma_act_fis_response (start_frame s),
      spoke.0,
      spoke.1,
      refl,
    )

-- Told to set up a PIO transfer, and with no DMA activation pending, a device at the start of a
-- frame says in seven clocks SOF and the frame of the five PIO setup words, goes on to SEND_EOF,
-- and has done with that response.
pub pio_setup_frame :
    (s : SataSim)
    → IsReady s
    → s.dma_act ≡ false
    → s.pio_setup ≡ true
    → (t : SataSim) × (say 7 s ≡ some (t, spoken pio_setup_fis_response))
      × (t.link_state ≡ send_eof)
      × (t.pio_setup ≡ false)
unfolding said end_frame device_link_sends device_phy_sends pio_done
pio_setup_frame s h no_dma pio =
    let spoke =
      say_frame pio_setup_fis_response ServesPio pio_done pio-Serves s
        ((h.in_state, h.up), no_dma, pio) h.fresh h.fill_is h.crc_is in
    (
      said pio_setup_fis_response ServesPio pio_done pio-Serves pio_setup_fis_response
          (start_frame s),
      spoke.0,
      spoke.1,
      refl,
    )

-- Told to answer with its register frame, and with no other response pending, a device at the
-- start of a frame says in six clocks SOF and the frame of the four register words, goes on to
-- SEND_EOF, and has done with that response.
pub d2h_frame :
    (s : SataSim)
    → IsReady s
    → s.dma_act ≡ false
    → s.pio_setup ≡ false
    → (s.dma_read || s.pio_read) ≡ false
    → s.data_response ≡ true
    → (t : SataSim) × (say 6 s ≡ some (t, spoken d2h_reg_fis_response))
      × (t.link_state ≡ send_eof)
      × (t.data_response ≡ false)
unfolding said end_frame device_link_sends device_phy_sends d2h_done
d2h_frame s h no_dma no_pio no_read answer =
    let spoke =
      say_frame d2h_reg_fis_response ServesD2h d2h_done d2h-Serves s
        ((h.in_state, h.up), no_dma, no_pio, no_read, answer) h.fresh h.fill_is h.crc_is in
    (
      said d2h_reg_fis_response ServesD2h d2h_done d2h-Serves d2h_reg_fis_response (start_frame s),
      spoke.0,
      spoke.1,
      refl,
    )

-- Told to send a sector, with neither a DMA activation nor a PIO setup pending and a buffer of at
-- least 128 words to send, a device at the start of a frame says in 131 clocks SOF and the frame of
-- the data header and the first 128 words of the buffer, goes on to SEND_EOF, has done with that
-- response, and makes ready to answer with its register frame. It reads nothing outside the buffer.
pub sector_frame :
    (buffer : List ℕ) (s : SataSim)
    → IsReady s
    → s.dma_act ≡ false
    → s.pio_setup ≡ false
    → (s.dma_read || s.pio_read) ≡ true
    → s.sent_data ≡ some buffer
    → 128 ≤ length buffer
    → (t : SataSim) × (say 131 s ≡ some (t, spoken (data_words buffer)))
      × (t.link_state ≡ send_eof)
      × (t.dma_read ≡ false)
      × (t.pio_read ≡ false)
      × (t.data_response ≡ true)
unfolding said end_frame device_link_sends device_phy_sends data_done
sector_frame buffer s h no_dma no_pio read sent long =
    let spoke =
      say_frame (data_words buffer) (ServesData buffer) data_done (data-Serves buffer long) s
        ((h.in_state, h.up), no_dma, no_pio, read, sent) h.fresh h.fill_is h.crc_is in
    (
      said (data_words buffer) (ServesData buffer) data_done (data-Serves buffer long)
          (data_words buffer) (start_frame s),
      clocks spoke.0,
      spoke.1,
      refl,
      refl,
      refl,
    )
  where
    clocks :
        {o : Option (SataSim × List (Bool × ℕ))}
        → say (suc (suc (length (data_words buffer)))) s ≡ o
        → say 131 s ≡ o
    clocks e = ap (λ n. say n s) (sym count) ∙ e
      where
        count : suc (suc (length (data_words buffer))) ≡ 131
        count = omega (arith, length-take 128 buffer long)
