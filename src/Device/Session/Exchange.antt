-- ===== src/Device/Session/Exchange.antt =====
-- The exchanges that carry out the four commands: DMA write, PIO write, DMA read and PIO read.
use mathlib.Core.Path.{subst}
use wbsata.Common.{
  ◌+◌, ◌||◌, ℕ, ◌/◌, ◌%◌, ◌^◌, ◌<◌, ◌≤◌, Bool, true, false, Option, some, ◌>>=◌, List, [], ◌∷◌,
  ◌++◌, map, length, drop, ◌≡◌, refl, if◌then◌else◌,
}
use wbsata.Device.State.{SataSim, idle}
use wbsata.Device.Crc.{crc_initial, advance_crc}
use wbsata.Device.Words.{
  swap_endian, fis_type_dma_write, fis_type_dma_read, fis_type_pio_write_buffer,
  fis_type_pio_read_buffer,
}
use wbsata.Device.Link.{dma_act_fis_response, pio_setup_fis_response, d2h_reg_fis_response}
use wbsata.Device.Frame.{AreWords, spoken}
use wbsata.Device.Frame.Serving.{data_words}
use wbsata.Device.Frame.Store.{NoClash}
use wbsata.Device.Session.{Pace, take_frame, give_frame}
use wbsata.Device.Session.Quiet.{Marks, IsIn}
use wbsata.Device.Session.Taken.{takes_command, takes_data}
use wbsata.Device.Session.Given.{gives_dma_activate, gives_pio_setup, gives_status, gives_sector}

-- Nothing to do.
abbrev pub at_rest : Marks
at_rest = record {
  dma_act = false;
  dma_read = false;
  pio_setup = false;
  pio_read = false;
  data_response = false;
}

-- A device in IDLE, its link up, with nothing to do, its 512 words received and its words to send.
abbrev pub IsResting : Option (List ℕ) → List ℕ → SataSim → Type 0
IsResting sent buffer s = IsIn at_rest sent buffer idle s

-- The first word of a command frame.
pub record IsCommand (operation w : ℕ) : Type 0 where
  pub type : w % 256 ≡ 0x27
  pub command : w / 2 ^ 16 % 256 ≡ operation
  pub word : w < 2 ^ 32

-- A write: the command, the device's go-ahead of `n` clocks, the data, and the status.
unfoldable pub write_exchange :
    Pace → ℕ → List ℕ → List ℕ → SataSim → Option (SataSim × List (List (Bool × ℕ)))
write_exchange pace n command payload s0 = do
  s1 ← take_frame pace command s0
  (s2, go_ahead) ← give_frame pace n s1
  s3 ← take_frame pace payload s2
  (s4, status) ← give_frame pace 6 s3
  some (s4, go_ahead ∷ status ∷ [])

-- A read: the command, the set-up of a PIO transfer, the data, and the status.
unfoldable pub read_exchange :
    Pace → Bool → List ℕ → SataSim → Option (SataSim × List (List (Bool × ℕ)))
read_exchange pace false command s0 = do
  s1 ← take_frame pace command s0
  (s2, sector) ← give_frame pace 131 s1
  (s3, status) ← give_frame pace 6 s2
  some (s3, sector ∷ status ∷ [])
read_exchange pace true command s0 = do
  s1 ← take_frame pace command s0
  (s2, setup) ← give_frame pace 7 s1
  (s3, sector) ← give_frame pace 131 s2
  (s4, status) ← give_frame pace 6 s3
  some (s4, setup ∷ sector ∷ status ∷ [])

-- The buffer after a data frame.
abbrev pub filled : List ℕ → List ℕ → List ℕ
filled payload buffer = map swap_endian payload ++ drop (length (map swap_endian payload)) buffer

-- The command of a write and of a read, and the device's go-ahead for a write.
abbrev pub write_command : Bool → ℕ
write_command pio = if pio then fis_type_pio_write_buffer else fis_type_dma_write

abbrev pub read_command : Bool → ℕ
read_command pio = if pio then fis_type_pio_read_buffer else fis_type_dma_read

abbrev pub go_ahead : Bool → List ℕ
go_ahead pio = if pio then pio_setup_fis_response else dma_act_fis_response

-- The data header and a payload that fits the device's buffer, no word of which equals the CRC of
-- those before it.
pub record IsPayload (header : ℕ) (payload : List ℕ) : Type 0 where
  pub type : header % 256 ≡ 0x46
  pub word : header < 2 ^ 32
  pub words : AreWords payload
  pub short : length payload < 512
  pub clear : NoClash (advance_crc crc_initial header) payload

module _ (sent : Option (List ℕ)) (buffer : List ℕ) (room : length buffer ≡ 512) (pace : Pace) where
  -- From the go-ahead on.
  write_goes_on :
      (m : Marks) (header : ℕ) (payload : List ℕ) (s : SataSim)
      → IsIn m sent buffer idle s
      → m ≡ at_rest
      → IsPayload header payload
      → (t : SataSim) × (u : SataSim) × (take_frame pace (header ∷ payload) s ≡ some t)
        × (give_frame pace 6 t ≡ some (u, spoken d2h_reg_fis_response))
        × IsResting sent (filled payload buffer) u
  write_goes_on m header payload s h rest p =
      let (t, takes, ht) =
        takes_data at_rest sent buffer pace header payload s
          (subst (λ n. IsIn n sent buffer idle s) rest h) room p.type p.word p.words p.short
          p.clear in
      let (u, gives, hu) =
        gives_status sent (filled payload buffer) (record at_rest { data_response = true }) pace t
          ht refl refl refl refl in
      (t, u, takes, gives, hu)

  -- A resting device, with a buffer of 512 words, is told to write, by DMA or by PIO, in a command
  -- frame of at most 512 words, and given a data frame of fewer than 512 words after its header,
  -- none of which equals the CRC of those before it. Whatever the pace of the controller, the
  -- device gives the DMA activation or the PIO set-up, takes the payload to the start of its buffer
  -- in the host's byte order, gives the status, and rests. The words to send and the rest of the
  -- buffer stay.
  pub write_exchange_rests :
      (pio : Bool) (w : ℕ) (ws : List ℕ) (header : ℕ) (payload : List ℕ) (s : SataSim)
      → IsResting sent buffer s
      → IsCommand (write_command pio) w
      → AreWords ws
      → length ws < 512
      → IsPayload header payload
      → (t : SataSim) × (write_exchange pace
            (length (go_ahead pio) + 2)
            (w ∷ ws)
            (header ∷ payload)
            s
          ≡ some (t, spoken (go_ahead pio) ∷ spoken d2h_reg_fis_response ∷ []))
        × IsResting sent (filled payload buffer) t
  unfolding write_exchange
  write_exchange_rests false w ws header payload s rests cmd hw short p =
      let (s1, run1, h1) =
        takes_command at_rest sent buffer pace w ws fis_type_dma_write s rests room cmd.type
          cmd.command cmd.word hw short refl in
      let (s2, run2, h2) = gives_dma_activate sent buffer _ pace s1 h1 refl in
      let (s3, s4, run3, run4, h4) = write_goes_on _ header payload s2 h2 refl p in
      (s4, simp (run1, run2, run3, run4), h4)
  write_exchange_rests true w ws header payload s rests cmd hw short p =
      let (s1, run1, h1) =
        takes_command at_rest sent buffer pace w ws fis_type_pio_write_buffer s rests room cmd.type
          cmd.command cmd.word hw short refl in
      let (s2, run2, h2) = gives_pio_setup sent buffer _ pace s1 h1 refl refl in
      let (s3, s4, run3, run4, h4) = write_goes_on _ header payload s2 h2 refl p in
      (s4, simp (run1, run2, run3, run4), h4)

-- What a read says after the command.
abbrev pub read_frames : List ℕ → Bool → List (List (Bool × ℕ))
read_frames words pio =
    let sector = spoken (data_words words) ∷ spoken d2h_reg_fis_response ∷ [] in
    if pio then spoken pio_setup_fis_response ∷ sector else sector

module _ (words buffer : List ℕ) (room : length buffer ≡ 512) (long : 128 ≤ length words)
    (pace : Pace) where
  -- From the sector on.
  read_goes_on :
      (m : Marks) (s : SataSim)
      → IsIn m (some words) buffer idle s
      → m.dma_act ≡ false
      → m.pio_setup ≡ false
      → (m.dma_read || m.pio_read) ≡ true
      → (t : SataSim) × (u : SataSim) × (give_frame pace 131 s
          ≡ some (t, spoken (data_words words)))
        × (give_frame pace 6 t ≡ some (u, spoken d2h_reg_fis_response))
        × IsIn
            (record m { dma_read = false; pio_read = false; data_response = false })
            (some words)
            buffer
            idle
            u
  read_goes_on m s h no_act no_setup reads =
      let (t, first, ht) = gives_sector words buffer m pace s h long no_act no_setup reads in
      let (u, last, hu) =
        gives_status (some words) buffer
          (record m { dma_read = false; pio_read = false; data_response = true }) pace t ht no_act
          no_setup refl refl in
      (t, u, first, last, hu)

  -- A resting device, with a buffer of 512 words and a sector to send, is told to read, by DMA or
  -- by PIO, in a command frame of at most 512 words. Whatever the pace of the controller, the
  -- device gives the PIO set-up where it is one, then the first 128 words that it has to send, then
  -- the status, and rests. Its buffer and its words to send stay.
  pub read_exchange_rests :
      (pio : Bool) (w : ℕ) (ws : List ℕ) (s : SataSim)
      → IsResting (some words) buffer s
      → IsCommand (read_command pio) w
      → AreWords ws
      → length ws < 512
      → (t : SataSim) × (read_exchange pace pio (w ∷ ws) s ≡ some (t, read_frames words pio))
        × IsResting (some words) buffer t
  unfolding read_exchange
  read_exchange_rests false w ws s rests cmd hw short =
      let (s1, run1, h1) =
        takes_command at_rest (some words) buffer pace w ws fis_type_dma_read s rests room cmd.type
          cmd.command cmd.word hw short refl in
      let (s2, s3, run2, run3, h3) = read_goes_on _ s1 h1 refl refl refl in
      (s3, simp (run1, run2, run3), h3)
  read_exchange_rests true w ws s rests cmd hw short =
      let (s1, run1, h1) =
        takes_command at_rest (some words) buffer pace w ws fis_type_pio_read_buffer s rests room
          cmd.type cmd.command cmd.word hw short refl in
      let (s2, run2, h2) = gives_pio_setup (some words) buffer _ pace s1 h1 refl refl in
      let (s3, s4, run3, run4, h4) = read_goes_on _ s2 h2 refl refl refl in
      (s4, simp (run1, run2, run3, run4), h4)
