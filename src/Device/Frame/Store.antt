-- ===== src/Device/Frame/Store.antt =====
-- What the device keeps of a data frame.
use wbsata.Common.{ℕ, suc, ◌+◌, ◌-◌, ◌≤◌, ◌<◌, true, ◌≡◌, ◌≢◌, refl, sym, ap, ◌∙◌, arith}
use wbsata.Common.{
  List, [], ◌∷◌, ◌++◌, map, length, set, drop, inl, inr, Bool-cases, ==_iff, ◌==◌, if◌then◌else◌,
}
use wbsata.Device.Crc.{advance_crc}
use wbsata.Device.State.{SataSim}
use wbsata.Device.Words.{swap_endian}
use wbsata.Device.Frame.{crc_words}
use wbsata.Device.Frame.Receive.{line_of, after, after_all, after-IsNext}

-- No word equals the CRC of the words before it.
abbrev pub NoClash : ℕ → List ℕ → Type 0
NoClash c [] = Unit
NoClash c (w ∷ ws) = (w ≢ c) × NoClash (advance_crc c w) ws

-- Successive writes, from index `i` on.
unfoldable pub sets : ℕ → List ℕ → List ℕ → List ℕ
sets i [] buf = buf
sets i (x ∷ xs) buf = sets (suc i) xs (set buf i x)

sets-suc : (i : ℕ) (xs : List ℕ) (b : ℕ) (bs : List ℕ) → sets (suc i) xs (b ∷ bs) ≡ b ∷ sets i xs bs
unfolding sets
sets-suc i [] b bs = refl
sets-suc i (x ∷ xs) b bs = sets-suc (suc i) xs b (set bs i x)

pub sets-zero :
    (xs buf : List ℕ) → length xs ≤ length buf → sets 0 xs buf ≡ xs ++ drop (length xs) buf
unfolding sets
sets-zero [] buf h = refl
sets-zero (x ∷ xs) [] h = absurd (omega arith)
sets-zero (x ∷ xs) (b ∷ bs) h = sets-suc 0 xs x bs ∙ ap (◌∷◌ x) (sets-zero xs bs (omega arith))

pub after_stores :
    (line w : ℕ) (s : SataSim)
    → s.data_response ≡ true
    → w ≢ s.crc
    → ((after line w s).received_data ≡ set s.received_data (s.data_count - 1) (swap_endian w))
      × ((after line w s).data_count ≡ s.data_count + 1)
unfolding after
after_stores line w s r ne = ground arith

pub after_skips :
    (line w : ℕ) (s : SataSim)
    → w ≡ s.crc
    → ((after line w s).received_data ≡ s.received_data)
      × ((after line w s).data_count ≡ s.data_count)
unfolding after
after_skips line w s e = ground arith

-- The words that the device keeps: those that differ from the CRC of the words before them.
pub kept : ℕ → List ℕ → List ℕ
kept c [] = []
kept c (w ∷ ws) = let rest = kept (advance_crc c w) ws in if w == c then rest else w ∷ rest

pub kept_all : (c : ℕ) (ws : List ℕ) → NoClash c ws → kept c ws ≡ ws
unfolding kept
kept_all c [] h = refl
kept_all c (w ∷ ws) h = ground (arith, kept_all (advance_crc c w) ws h.1)

pub length-kept : (c : ℕ) (ws : List ℕ) → length (kept c ws) ≤ length ws
unfolding kept
length-kept c [] = omega arith
length-kept c (w ∷ ws) = ground (arith, length-kept (advance_crc c w) ws)

pub length-kept_clash : (c : ℕ) (ws : List ℕ) → ¬ (NoClash c ws) → length (kept c ws) < length ws
unfolding kept
length-kept_clash c [] h = absurd (h tt)
length-kept_clash c (w ∷ ws) h = elim (Bool-cases (w == c)) [
  | inl same ↦ rw same (omega (arith, length-kept (advance_crc c w) ws))
  | inr other ↦ rw other (
      omega (
        arith,
        length-kept_clash (advance_crc c w) ws
            (λ clear. h ((λ e. cc (sym other ∙ (==_iff w c).1 e)), clear)),
      ))
]

-- What the words of a data frame leave in the device.
pub record IsStored (n : ℕ) (ws : List ℕ) (s t : SataSim) : Type 0 where
  pub buffer : t.received_data ≡ sets n (map swap_endian (kept s.crc ws)) s.received_data
  pub crc_is : t.crc ≡ crc_words s.crc ws
  pub responds : t.data_response ≡ true

stored-cons :
    (w : ℕ) (ws : List ℕ) (n : ℕ) (s t : SataSim)
    → s.data_response ≡ true
    → s.data_count ≡ suc n
    → ((m : ℕ)
        → (after (line_of w s) w s).data_count ≡ suc m
        → IsStored m ws (after (line_of w s) w s) t)
    → IsStored n (w ∷ ws) s t
unfolding kept sets crc_words
stored-cons w ws n s t r e h = elim (Bool-cases (w == s.crc)) [
  | inl same ↦
      let (buffer, count) = after_skips (line_of w s) w s ((==_iff w s.crc).0 same) in
      let rest = h n (count ∙ e) in
      ground (arith, rest, buffer, (after-IsNext (line_of w s) w s).crc_moves)
  | inr other ↦
      let (buffer, count) =
        after_stores (line_of w s) w s r (λ q. cc (sym other ∙ (==_iff w s.crc).1 q)) in
      let rest = h (suc n) (omega arith) in
      let index : s.data_count - 1 ≡ n = omega arith in
      ground (arith, rest, buffer, index, (after-IsNext (line_of w s) w s).crc_moves)
]

pub stored :
    (ws : List ℕ) (n : ℕ) (s : SataSim)
    → s.data_response ≡ true
    → s.data_count ≡ suc n
    → IsStored n ws s (after_all ws s)
unfolding after_all
stored [] n s r e =
    unfold kept sets crc_words in record { buffer = refl; crc_is = refl; responds = r }
stored (w ∷ ws) n s r e = stored-cons w ws n s (after_all ws (after (line_of w s) w s)) r e (λ m e'.
    stored ws m (after (line_of w s) w s) ((after-IsNext (line_of w s) w s).responds ∙ r) e')
