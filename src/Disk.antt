-- ===== src/Disk.antt =====
-- The disk image of the test bench: `write_to_disk` and `read_from_disk` of bench/cpp/tb_sata.cpp. A
-- file is the list of its bytes, and `none` a file that does not open. A byte written beyond the end
-- fills the gap with 0, as the host's files do.
pub mod Sectors
use wbsata.Common.{ℕ, zero, suc, ◌+◌, ◌*◌, ◌/◌, ◌^◌, bit_and, bit_or, u32, u64}
use wbsata.Common.{
  Option, none, some, ◌>>=◌, List, [], ◌∷◌, length, get_elem?, take, leb, if◌then◌else◌,
}

abbrev pub sector_size : ℕ
sector_size = 512

unfoldable pub write_byte : ℕ → ℕ → List ℕ → List ℕ
write_byte zero b [] = b ∷ []
write_byte zero b (x ∷ file) = b ∷ file
write_byte (suc pos) b [] = 0 ∷ write_byte pos b []
write_byte (suc pos) b (x ∷ file) = x ∷ write_byte pos b file

-- The loop over the bytes of a word, the lowest first.
unfoldable pub write_word : ℕ → ℕ → List ℕ → List ℕ
unfolding write_byte
write_word pos word file = write_byte (pos + 3) (bit_and (word / 2 ^ 24) 0xFF) (
    write_byte (pos + 2) (bit_and (word / 2 ^ 16) 0xFF) (
      write_byte (pos + 1) (bit_and (word / 2 ^ 8) 0xFF) (write_byte pos (bit_and word 0xFF) file)))

unfoldable pub write_words : ℕ → List ℕ → List ℕ → List ℕ
unfolding write_word
write_words pos [] file = file
write_words pos (word ∷ words) file = write_words (pos + 4) words (write_word pos word file)

-- `none` is a read past the end of the array that holds the sectors.
unfoldable pub write_to_disk : ℕ → List ℕ → ℕ → Option (List ℕ) → Option (Option (List ℕ))
unfolding write_words
write_to_disk lba buffer count none = some none
write_to_disk lba buffer count (some file) =
    let words_to_write = u32 (count * (sector_size / 4)) in
    if leb words_to_write (length buffer)
    then some (some (write_words (u64 (lba * sector_size)) (take words_to_write buffer) file))
    else none

-- The loop over the bytes of a word. `none` is the value of a variable that no read has set.
unfoldable pub read_word : ℕ → List ℕ → Option ℕ
read_word pos file = do
  b0 ← get_elem? file pos
  b1 ← get_elem? file (pos + 1)
  b2 ← get_elem? file (pos + 2)
  b3 ← get_elem? file (pos + 3)
  some (bit_or (bit_or (bit_or (bit_or 0 b0) (b1 * 2 ^ 8)) (b2 * 2 ^ 16)) (b3 * 2 ^ 24))

unfoldable pub read_words : ℕ → ℕ → List ℕ → Option (List ℕ)
unfolding read_word
read_words pos zero file = some []
read_words pos (suc n) file = do
  word ← read_word pos file
  words ← read_words (pos + 4) n file
  some (word ∷ words)

-- The words that are read into the caller's array, which has a place for each; `some none` leaves
-- that array as it was.
unfoldable pub read_from_disk : ℕ → ℕ → Option (List ℕ) → Option (Option (List ℕ))
unfolding read_words
read_from_disk lba count none = some none
read_from_disk lba count (some file) = do
  words ← read_words (u64 (lba * sector_size)) (u32 (count * (sector_size / 4))) file
  some (some words)
