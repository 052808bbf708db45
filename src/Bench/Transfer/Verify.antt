-- ===== src/Bench/Transfer/Verify.antt =====
-- What the comparison of two sectors in the memory shows: `verify_data` of bench/cpp/tb_sata.cpp.
use wbsata.Common.{
  ℕ, zero, suc, ◌+◌, ◌<◌, ◌≤◌, ◌≡◌, ◌≢◌, ◌↔◌, inl, inr, arith, u32, true, false, sym, ◌∙◌,
  Bool-cases, ==_iff, ◌==◌,
}
use wbsata.Common.{length, get_or, some, ap, refl, leb, ltb, ◌-◌, ◌^◌}
use mathlib.Core.Option.{some-injective}
use wbsata.Device.Frame.{AreWords}
use wbsata.Memory.Indices.{IsValid}
use wbsata.Memory.Load.{load_bytes, as_bytes, load_bytes-get}
use wbsata.Memory.{MemSim, get, byte_swap}
use wbsata.Bench.Transfer.{pattern, same_words, verify_data}

same_words_all :
    (w_addr r_addr i n : ℕ) (mem : MemSim)
    → same_words w_addr r_addr i n mem ≡ true
    → (k : ℕ) → i ≤ k
    → k < i + n
    → get (u32 (r_addr + k)) mem ≡ get (u32 (w_addr + k)) mem
unfolding same_words
same_words_all w_addr r_addr i zero mem e k lo hi = absurd (omega arith)
same_words_all w_addr r_addr i (suc n) mem e k lo hi =
    elim (Bool-cases (get (u32 (r_addr + i)) mem == get (u32 (w_addr + i)) mem)) [
      | inl same ↦ elim (Bool-cases (k == i)) [
        | inl here ↦ rw ((==_iff k i).0 here) ((==_iff _ _).0 same)
        | inr later ↦
            let past : k ≢ i = λ q. cc (sym later ∙ (==_iff k i).1 q) in
            same_words_all w_addr r_addr (i + 1) n mem (rw same at e) k (omega arith) (omega arith)
      ]
      | inr other ↦ absurd (cc (rw other at e))
    ]

-- Where it fails, a word differs.
same_words_differ :
    (w_addr r_addr i n : ℕ) (mem : MemSim)
    → same_words w_addr r_addr i n mem ≡ false
    → (k : ℕ) × (i ≤ k) × (k < i + n) × (get (u32 (r_addr + k)) mem ≢ get (u32 (w_addr + k)) mem)
unfolding same_words
same_words_differ w_addr r_addr i zero mem e = absurd (ground arith)
same_words_differ w_addr r_addr i (suc n) mem e =
    elim (Bool-cases (get (u32 (r_addr + i)) mem == get (u32 (w_addr + i)) mem)) [
      | inl same ↦
          let (k, lo, hi, ne) = same_words_differ w_addr r_addr (i + 1) n mem (rw same at e) in
          (k, omega arith, omega arith, ne)
      | inr other ↦ (i, omega arith, omega arith, λ q. cc (sym other ∙ (==_iff _ _).1 q))
    ]

-- `verify_data` passes exactly where each of the 128 words of the second sector equals the word at its
-- place in the first, and where it does not pass, two words at one place differ.
pub verify_data_lem :
    (w_addr r_addr : ℕ) (mem : MemSim)
    → ((verify_data w_addr r_addr mem ≡ true)
        ↔ ((k : ℕ) → k < 128 → get (u32 (r_addr + k)) mem ≡ get (u32 (w_addr + k)) mem))
      × ((verify_data w_addr r_addr mem ≡ false)
          → (k : ℕ) × (k < 128) × (get (u32 (r_addr + k)) mem ≢ get (u32 (w_addr + k)) mem))
unfolding verify_data
verify_data_lem w_addr r_addr mem = (
  (
    (λ e k lt. same_words_all w_addr r_addr 0 128 mem e k (omega arith) (omega arith)),
    λ all. elim (Bool-cases (same_words w_addr r_addr 0 128 mem)) [
      | inl same ↦ same
      | inr other ↦
          let (k, lo, hi, ne) = same_words_differ w_addr r_addr 0 128 mem other in
          absurd (ne (all k (omega arith)))
    ],
  ),
  λ e. let (k, lo, hi, ne) = same_words_differ w_addr r_addr 0 128 mem e in (k, omega arith, ne),
)

length-pattern : (base i n : ℕ) → length (pattern base i n) ≡ n
unfolding pattern
length-pattern base i zero = refl
length-pattern base i (suc n) = ap suc (length-pattern base (i + 1) n)

pattern-AreWords : (base i n : ℕ) → AreWords (pattern base i n)
unfolding pattern
pattern-AreWords base i zero = tt
pattern-AreWords base i (suc n) = (omega arith, pattern-AreWords base (i + 1) n)

get_or-pattern : (base i n k : ℕ) → k < n → get_or (pattern base i n) k 0 ≡ u32 (base + (i + k))
unfolding pattern
get_or-pattern base i zero k h = absurd (omega arith)
get_or-pattern base i (suc n) zero h = let e : i + 0 ≡ i = omega arith in rw e refl
get_or-pattern base i (suc n) (suc k) h =
    let e : i + suc k ≡ i + 1 + k = omega arith in
    rw e (get_or-pattern base (i + 1) n k (omega arith))

-- The pattern in the memory that it has been loaded to.
get-pattern :
    (base dma_addr k : ℕ) (m n : MemSim)
    → IsValid m
    → dma_addr + 128 ≤ m.len
    → load_bytes dma_addr (as_bytes (pattern base 0 128)) m ≡ some n
    → k < 128
    → get (dma_addr + k) n ≡ byte_swap (u32 (base + k))
get-pattern base dma_addr k m n h fits run lt =
    let ws = pattern base 0 128 in
    let size = length-pattern base 0 128 in
    let (loaded, e, valid, word) =
      (load_bytes-get dma_addr (dma_addr + k) ws m h (pattern-AreWords base 0 128) (omega arith)).0
        (omega arith) in
    let same : n ≡ loaded = some-injective n loaded (sym run ∙ e) in
    let low : leb dma_addr (dma_addr + k) ≡ true = ground arith in
    let high : ltb (dma_addr + k) (dma_addr + length ws) ≡ true = ground arith in
    let place : dma_addr + k - dma_addr ≡ k = omega arith in
    let start : 0 + k ≡ k = omega arith in
    ap (get (dma_addr + k)) same
    ∙ word
    ∙ simp (low, high, place, get_or-pattern base 0 128 k lt, start)

-- The check of a test, where the pattern of 128 words that it has loaded into a valid memory still
-- stands there and its addresses fit 32 bits: it passes exactly where the sector that has been read
-- back holds the words of that pattern with their bytes in the other order.
pub verify_data-pattern :
    (base dma_addr r_addr : ℕ) (m n later : MemSim)
    → IsValid m
    → dma_addr + 128 ≤ m.len
    → dma_addr + 128 ≤ 2 ^ 32
    → load_bytes dma_addr (as_bytes (pattern base 0 128)) m ≡ some n
    → ((k : ℕ) → k < 128 → get (dma_addr + k) later ≡ get (dma_addr + k) n)
    → (verify_data dma_addr r_addr later ≡ true)
      ↔ ((k : ℕ) → k < 128 → get (u32 (r_addr + k)) later ≡ byte_swap (u32 (base + k)))
verify_data-pattern base dma_addr r_addr m n later h fits small run stands =
    let (both, differ) = verify_data_lem dma_addr r_addr later in
    let written : (k : ℕ) → k < 128 → get (u32 (dma_addr + k)) later ≡ byte_swap (u32 (base + k)) =
      λ k lt.
        let e : u32 (dma_addr + k) ≡ dma_addr + k = omega arith in
        ap (λ a. get a later) e ∙ stands k lt ∙ get-pattern base dma_addr k m n h fits run lt in
    (
      λ passed k lt. both.0 passed k lt ∙ written k lt,
      λ back. both.1 (λ k lt. back k lt ∙ sym (written k lt)),
    )
