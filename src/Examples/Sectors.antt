-- ===== src/Examples/Sectors.antt =====
-- A device that answers, once for each kind of response.
use wbsata.Common.{arith, ℕ, ◌≡◌, List, refl, true, false, some, replicate}
use wbsata.Device.State.{SataSim, new, send_data, send_eof}
use wbsata.Device.Link.{pio_setup_fis_response}
use wbsata.Device.Frame.{say, spoken}
use wbsata.Device.Frame.Serving.{data_words}
use wbsata.Device.Frame.Responses.{pio_setup_frame, sector_frame}

abbrev ready : SataSim
unfolding new
ready = record new { link_state = send_data; oob_done = true }

abbrev setting_up : SataSim
unfolding ready
setting_up = record ready { pio_setup = true }

abbrev sector : List ℕ
sector = replicate 128 7

abbrev reading : SataSim
unfolding ready
reading = record ready { dma_read = true; sent_data = some sector }

pio_setup_frame_example :
    (t : SataSim) × (say 7 setting_up ≡ some (t, spoken pio_setup_fis_response))
    × (t.link_state ≡ send_eof)
    × (t.pio_setup ≡ false)
unfolding setting_up ready new
pio_setup_frame_example =
    pio_setup_frame setting_up
      (record { in_state = refl; up = refl; fresh = refl; fill_is = refl; crc_is = refl }) refl refl

sector_frame_example :
    (t : SataSim) × (say 131 reading ≡ some (t, spoken (data_words sector)))
    × (t.link_state ≡ send_eof)
    × (t.dma_read ≡ false)
    × (t.pio_read ≡ false)
    × (t.data_response ≡ true)
unfolding reading ready new
sector_frame_example =
    sector_frame sector reading
      (record { in_state = refl; up = refl; fresh = refl; fill_is = refl; crc_is = refl }) refl refl
      refl refl (omega arith)
