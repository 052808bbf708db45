-- ===== src/Disk/Sectors.antt =====
-- Sectors that are written to the disk image, and read again.
use wbsata.Common.{
  sym, length-take, leb, u64, u32, take, bit_or, ◌*◌, ap, ◌≢◌, ◌∙◌, get_elem?-lt, ◌/◌, ◌⊎◌, ◌^◌,
  ◌+◌, bit_and, ◌<◌, if◌then◌else◌, ◌==◌, ltb,
}
use wbsata.Common.{
  arith, ◌≤◌, ◌≡◌, length, get_elem?, List, ℕ, zero, suc, [], ◌∷◌, some, none, refl, true, inl,
}
use wbsata.Common.Xor.{and_ones}
use wbsata.Common.Fields.{or_above, zero-or}
use wbsata.Device.Frame.{AreWords}
use wbsata.Disk.{
  write_byte, write_word, write_words, write_to_disk, read_word, read_words, read_from_disk,
  sector_size,
}

get_elem?-none : (q : ℕ) (file : List ℕ) → length file ≤ q → get_elem? file q ≡ none
get_elem?-none q [] h = refl
get_elem?-none zero (x ∷ file) h = absurd (omega arith)
get_elem?-none (suc q) (x ∷ file) h = get_elem?-none q file (omega arith)

get_elem?-write_byte :
    (pos q b : ℕ) (file : List ℕ)
    → get_elem? (write_byte pos b file) q ≡ (
        if q == pos
        then some b
        else (if ltb q (length file)
            then get_elem? file q
            else (if ltb q pos then some 0 else none)))
unfolding write_byte
get_elem?-write_byte zero zero b [] = refl
get_elem?-write_byte zero (suc q) b [] = ground arith
get_elem?-write_byte zero zero b (x ∷ file) = ground arith
get_elem?-write_byte zero (suc q) b (x ∷ file) = ground (arith, get_elem?-none q file)
get_elem?-write_byte (suc pos) zero b [] = ground arith
get_elem?-write_byte (suc pos) (suc q) b [] = ground (arith, get_elem?-write_byte pos q b [])
get_elem?-write_byte (suc pos) zero b (x ∷ file) = ground arith
get_elem?-write_byte (suc pos) (suc q) b (x ∷ file) =
    ground (arith, get_elem?-write_byte pos q b file)

-- A byte apart from the one written, within the file.
write_byte_apart :
    (pos q b : ℕ) (file : List ℕ)
    → q < length file
    → q ≢ pos
    → get_elem? (write_byte pos b file) q ≡ get_elem? file q
write_byte_apart pos q b file within apart = ground (arith, get_elem?-write_byte pos q b file)

write_byte_here : (pos b : ℕ) (file : List ℕ) → get_elem? (write_byte pos b file) pos ≡ some b
write_byte_here pos b file = ground (arith, get_elem?-write_byte pos pos b file)

write_byte_grows :
    (pos b : ℕ) (file : List ℕ)
    → (length file ≤ length (write_byte pos b file)) × (pos < length (write_byte pos b file))
unfolding write_byte
write_byte_grows zero b [] = omega arith
write_byte_grows zero b (x ∷ file) = omega arith
write_byte_grows (suc pos) b [] = omega (arith, write_byte_grows pos b [])
write_byte_grows (suc pos) b (x ∷ file) = omega (arith, write_byte_grows pos b file)

-- A byte stays under a write at a higher place.
stays :
    (p q b c : ℕ) (file : List ℕ)
    → q < p
    → get_elem? file q ≡ some c
    → get_elem? (write_byte p b file) q ≡ some c
stays p q b c file lt e =
    write_byte_apart p q b file (get_elem?-lt file q e) (λ same. absurd (omega arith)) ∙ e

-- The bytes of a word that has been written.
write_word_bytes :
    (pos word : ℕ) (file : List ℕ)
    → let file' = write_word pos word file in
      (get_elem? file' pos ≡ some (bit_and word 0xFF))
      × (get_elem? file' (pos + 1) ≡ some (bit_and (word / 2 ^ 8) 0xFF))
      × (get_elem? file' (pos + 2) ≡ some (bit_and (word / 2 ^ 16) 0xFF))
      × (get_elem? file' (pos + 3) ≡ some (bit_and (word / 2 ^ 24) 0xFF))
unfolding write_word
write_word_bytes pos word file =
    let b0 = bit_and word 0xFF in
    let b1 = bit_and (word / 2 ^ 8) 0xFF in
    let b2 = bit_and (word / 2 ^ 16) 0xFF in
    let b3 = bit_and (word / 2 ^ 24) 0xFF in
    let f1 = write_byte pos b0 file in
    let f2 = write_byte (pos + 1) b1 f1 in
    let f3 = write_byte (pos + 2) b2 f2 in
    (
      stays (pos + 3) pos b3 b0 f3 (omega arith) (
          stays (pos + 2) pos b2 b0 f2 (omega arith)
            (stays (pos + 1) pos b1 b0 f1 (omega arith) (write_byte_here pos b0 file))),
      stays (pos + 3) (pos + 1) b3 b1 f3 (omega arith)
          (stays (pos + 2) (pos + 1) b2 b1 f2 (omega arith) (write_byte_here (pos + 1) b1 f1)),
      stays (pos + 3) (pos + 2) b3 b2 f3 (omega arith) (write_byte_here (pos + 2) b2 f2),
      write_byte_here (pos + 3) b3 f3,
    )

write_word_grows :
    (pos word : ℕ) (file : List ℕ)
    → (length file ≤ length (write_word pos word file))
      × (pos + 3 < length (write_word pos word file))
unfolding write_word
write_word_grows pos word file =
    let f1 = write_byte pos (bit_and word 0xFF) file in
    let f2 = write_byte (pos + 1) (bit_and (word / 2 ^ 8) 0xFF) f1 in
    let f3 = write_byte (pos + 2) (bit_and (word / 2 ^ 16) 0xFF) f2 in
    omega (
      arith,
      write_byte_grows pos (bit_and word 0xFF) file,
      write_byte_grows (pos + 1) (bit_and (word / 2 ^ 8) 0xFF) f1,
      write_byte_grows (pos + 2) (bit_and (word / 2 ^ 16) 0xFF) f2,
      write_byte_grows (pos + 3) (bit_and (word / 2 ^ 24) 0xFF) f3,
    )

write_word_apart :
    (pos q word : ℕ) (file : List ℕ)
    → q < length file
    → (q < pos) ⊎ (pos + 4 ≤ q)
    → get_elem? (write_word pos word file) q ≡ get_elem? file q
unfolding write_word
write_word_apart pos q word file within apart =
    let f1 = write_byte pos (bit_and word 0xFF) file in
    let f2 = write_byte (pos + 1) (bit_and (word / 2 ^ 8) 0xFF) f1 in
    let f3 = write_byte (pos + 2) (bit_and (word / 2 ^ 16) 0xFF) f2 in
    let g1 = write_byte_grows pos (bit_and word 0xFF) file in
    let g2 = write_byte_grows (pos + 1) (bit_and (word / 2 ^ 8) 0xFF) f1 in
    let g3 = write_byte_grows (pos + 2) (bit_and (word / 2 ^ 16) 0xFF) f2 in
    write_byte_apart (pos + 3) q _ f3 (omega arith) (λ e. absurd (ground arith))
    ∙ write_byte_apart (pos + 2) q _ f2 (omega arith) (λ e. absurd (ground arith))
    ∙ write_byte_apart (pos + 1) q _ f1 (omega arith) (λ e. absurd (ground arith))
    ∙ write_byte_apart pos q _ file within (λ e. absurd (ground arith))

write_words_apart :
    (pos q : ℕ) (words file : List ℕ)
    → q < length file
    → (q < pos) ⊎ (pos + 4 * length words ≤ q)
    → get_elem? (write_words pos words file) q ≡ get_elem? file q
unfolding write_words
write_words_apart pos q [] file within apart = refl
write_words_apart pos q (w ∷ words) file within apart =
    write_words_apart (pos + 4) q words (write_word pos w file)
      (omega (arith, write_word_grows pos w file)) (ground arith)
    ∙ write_word_apart pos q w file within (ground arith)

joined :
    (w : ℕ)
    → w < 2 ^ 32
    → bit_or
        (bit_or
          (bit_or (bit_or 0 (bit_and w 0xFF)) (bit_and (w / 2 ^ 8) 0xFF * 2 ^ 8))
          (bit_and (w / 2 ^ 16) 0xFF * 2 ^ 16))
        (bit_and (w / 2 ^ 24) 0xFF * 2 ^ 24)
      ≡ w
joined w h =
    let b0 = and_ones 8 w in
    let b1 = and_ones 8 (w / 2 ^ 8) in
    let b2 = and_ones 8 (w / 2 ^ 16) in
    let b3 = and_ones 8 (w / 2 ^ 24) in
    let c0 = bit_and w 0xFF in
    let c1 = bit_and (w / 2 ^ 8) 0xFF in
    let c2 = bit_and (w / 2 ^ 16) 0xFF in
    let c3 = bit_and (w / 2 ^ 24) 0xFF in
    ap (λ t. bit_or (bit_or (bit_or t (c1 * 2 ^ 8)) (c2 * 2 ^ 16)) (c3 * 2 ^ 24)) (zero-or c0)
    ∙ ap (λ t. bit_or (bit_or t (c2 * 2 ^ 16)) (c3 * 2 ^ 24)) (or_above 8 c0 c1 (omega arith))
    ∙ ap (λ t. bit_or t (c3 * 2 ^ 24)) (or_above 16 (c0 + c1 * 2 ^ 8) c2 (omega arith))
    ∙ or_above 24 (c0 + c1 * 2 ^ 8 + c2 * 2 ^ 16) c3 (omega arith)
    ∙ omega arith

-- A word is read where its four bytes stand.
read_word_lem :
    (pos w : ℕ) (file : List ℕ)
    → w < 2 ^ 32
    → (get_elem? file pos ≡ some (bit_and w 0xFF))
      × (get_elem? file (pos + 1) ≡ some (bit_and (w / 2 ^ 8) 0xFF))
      × (get_elem? file (pos + 2) ≡ some (bit_and (w / 2 ^ 16) 0xFF))
      × (get_elem? file (pos + 3) ≡ some (bit_and (w / 2 ^ 24) 0xFF))
    → read_word pos file ≡ some w
unfolding read_word
read_word_lem pos w file h (e0, e1, e2, e3) = simp (e0, e1, e2, e3) (ap some (joined w h))

-- Words that are written to a file are read back from the same place.
pub read_words-write_words :
    (pos : ℕ) (words file : List ℕ)
    → AreWords words
    → read_words pos (length words) (write_words pos words file) ≡ some words
unfolding read_words write_words
read_words-write_words pos [] file h = refl
read_words-write_words pos (w ∷ words) file h =
    let file' = write_word pos w file in
    let (b0, b1, b2, b3) = write_word_bytes pos w file in
    let keep = λ (q : ℕ) (lt : q < pos + 4) (in_file : q < length file').
      write_words_apart (pos + 4) q words file' in_file (inl lt) in
    let grown = write_word_grows pos w file in
    let first = read_word_lem pos w (write_words (pos + 4) words file') h.0 (
      keep pos (omega arith) (omega arith) ∙ b0,
      keep (pos + 1) (omega arith) (omega arith) ∙ b1,
      keep (pos + 2) (omega arith) (omega arith) ∙ b2,
      keep (pos + 3) (omega arith) (omega arith) ∙ b3,
    ) in
    simp (first, read_words-write_words (pos + 4) words file' h.1)

AreWords-take : (n : ℕ) (ws : List ℕ) → AreWords ws → AreWords (take n ws)
AreWords-take zero ws h = tt
AreWords-take (suc n) [] h = tt
AreWords-take (suc n) (w ∷ ws) h = (h.0, AreWords-take n ws h.1)

-- Sectors that are written to the disk image are read back from the same address, and the bytes of
-- the image outside them stay as they were. The buffer has all the words of the sectors, each of 32
-- bits, and neither the words nor the bytes before the sectors are too many to count.
pub read_from_disk-write_to_disk :
    (lba count : ℕ) (buffer file : List ℕ)
    → AreWords buffer
    → count * 128 ≤ length buffer
    → count * 128 < 2 ^ 32
    → lba * sector_size < 2 ^ 64
    → (file' : List ℕ) × (write_to_disk lba buffer count (some file) ≡ some (some file'))
      × (read_from_disk lba count (some file') ≡ some (some (take (count * 128) buffer)))
      × ((q : ℕ)
          → q < length file
          → (q < lba * sector_size) ⊎ ((lba + count) * sector_size ≤ q)
          → get_elem? file' q ≡ get_elem? file q)
unfolding write_to_disk read_from_disk
read_from_disk-write_to_disk lba count buffer file words long few low =
    let n : u32 (count * (sector_size / 4)) ≡ count * 128 = omega arith in
    let at : u64 (lba * sector_size) ≡ lba * sector_size = omega arith in
    let fits : leb (count * 128) (length buffer) ≡ true = ground arith in
    let sectors = take (count * 128) buffer in
    let size : length sectors ≡ count * 128 = length-take (count * 128) buffer long in
    let back =
      read_words-write_words (lba * sector_size) sectors file
        (AreWords-take (count * 128) buffer words) in
    let file' = write_words (lba * sector_size) sectors file in
    (
      file',
      simp (n, at, fits),
      simp (n, at, ap (λ t. read_words (lba * sector_size) t file') (sym size) ∙ back),
      λ q within apart.
          write_words_apart (lba * sector_size) q sectors file within (ground (arith, size)),
    )
