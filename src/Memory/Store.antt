-- ===== src/Memory/Store.antt =====
-- The words of the simulated memory after a write.
use wbsata.Common.{some, all_below_at, zero, suc}
use wbsata.Common.{
  ap, ==_iff, ap₂, all_below_at, ◌%◌, ◌/◌, not, ◌&&◌, all_below, Bool, sym, ◌-◌, ◌∙◌, ◌^◌, ◌<◌,
  bit_or, ◌≢◌, ◌≡◌, bit_and, ℕ, inl, inr, refl, true, false, set, get_or, length, Bool-cases, arith,
}
use wbsata.Common.{if◌then◌else◌, ◌==◌, get_or-set_self, get_or-set_ne, sym}
use wbsata.Common.Bytes.{byte, byte-and, byte-or, and_byte}
use wbsata.Common.Xor.{and_ones, and-zero}
use wbsata.Common.Fields.{zero-or, or-zero}
use wbsata.Memory.{MemSim, Request, get, store, select_mask}
use wbsata.Memory.Within.{stored, store_lem}
use wbsata.Memory.Indices.{IsValid, masked-lt}

-- The mask of a byte, where its select is set and where it is not.
lane : Bool → ℕ
lane true = 255
lane false = 0

-- Whether `wb_sel` selects the byte at place `i`.
abbrev pub selects : ℕ → ℕ → Bool
selects i sel = not (sel / 2 ^ i % 2 == 0)

-- Every value of the four byte selects, at each place.
masks_table :
    all_below 16 (λ d. all_below 4 (λ i.
      (byte i (select_mask d) == lane (selects i d))
      && (byte i (2 ^ 32 - 1 - select_mask d) == lane (not (selects i d)))))
    ≡ true
unfolding all_below lane select_mask
masks_table = refl

mask-byte :
    (d i : ℕ)
    → d < 16
    → i < 4
    → (byte i (select_mask d) ≡ lane (selects i d))
      × (byte i (2 ^ 32 - 1 - select_mask d) ≡ lane (not (selects i d)))
mask-byte d i hd hi =
    let both =
      all_below_at 4 i
        (λ i.
          (byte i (select_mask d) == lane (selects i d))
          && (byte i (2 ^ 32 - 1 - select_mask d) == lane (not (selects i d))))
        (all_below_at 16 d _ masks_table hd) hi in
    ground (
      arith,
      ==_iff (byte i (select_mask d)) (lane (selects i d)),
      ==_iff (byte i (2 ^ 32 - 1 - select_mask d)) (lane (not (selects i d))),
    )

merge_lanes :
    (b : Bool) (x y : ℕ)
    → x < 256
    → y < 256
    → bit_or (bit_and x (lane (not b))) (bit_and y (lane b)) ≡ (if b then y else x)
unfolding lane
merge_lanes true x y hx hy = simp (and-zero, and_byte y hy) (zero-or y)
merge_lanes false x y hx hy = simp (and-zero, and_byte x hx) (or-zero x)

-- A byte of the word with which `store` replaces `old`.
merged-byte :
    (d i old new : ℕ)
    → d < 16
    → i < 4
    → byte i (bit_or (bit_and old (2 ^ 32 - 1 - select_mask d)) (bit_and new (select_mask d)))
      ≡ (if selects i d then byte i new else byte i old)
merged-byte d i old new hd hi =
    let (mask, rest) = mask-byte d i hd hi in
    byte-or i (bit_and old (2 ^ 32 - 1 - select_mask d)) (bit_and new (select_mask d))
    ∙ ap₂ bit_or (byte-and i old (2 ^ 32 - 1 - select_mask d) ∙ ap (bit_and (byte i old)) rest)
        (byte-and i new (select_mask d) ∙ ap (bit_and (byte i new)) mask)
    ∙ merge_lanes (selects i d) (byte i old) (byte i new) (omega arith) (omega arith)

low_bit : (i sel : ℕ) → i < 4 → sel % 16 / 2 ^ i % 2 ≡ sel / 2 ^ i % 2
low_bit zero sel h = omega arith
low_bit (suc zero) sel h = omega arith
low_bit (suc (suc zero)) sel h = omega arith
low_bit (suc (suc (suc zero))) sel h = omega arith
low_bit (suc (suc (suc (suc i)))) sel h = absurd (omega arith)

selects-low : (i sel : ℕ) → i < 4 → selects i (bit_and sel 15) ≡ selects i sel
selects-low i sel h =
    ap (λ t. not (t == 0)) (ap (λ t. t / 2 ^ i % 2) (and_ones 4 sel) ∙ low_bit i sel h)

all_selected : (i sel : ℕ) → i < 4 → bit_and sel 15 ≡ 15 → selects i sel ≡ true
all_selected i sel h e =
    sym (selects-low i sel h)
    ∙ ap (selects i) e
    ∙ all_below_at 4 i (λ i. selects i 15) (unfold all_below in refl) h

stored-mem :
    (r : Request) (m : MemSim)
    → (v : ℕ) × ((stored r m).mem ≡ set m.mem (bit_and r.wb_addr m.mask) v)
      × ((stored r m).mask ≡ m.mask)
      × ((i : ℕ)
          → i < 4
          → byte i v ≡ (if selects i r.wb_sel then byte i r.wb_data else byte i (get r.wb_addr m)))
unfolding stored get
stored-mem r m =
    let place = bit_and r.wb_addr m.mask in
    let d = bit_and r.wb_sel 15 in
    let old = get_or m.mem place 0 in
    let word =
      bit_or (bit_and old (2 ^ 32 - 1 - select_mask d)) (bit_and r.wb_data (select_mask d)) in
    let small : d < 16 = omega (arith, and_ones 4 r.wb_sel) in
    elim (Bool-cases (d == 15)) [
      | inl all ↦ (
        r.wb_data,
        simp all,
        simp all,
        λ i h. let every = all_selected i r.wb_sel h ((==_iff d 15).0 all) in rw every refl,
      )
      | inr part ↦ (
        word,
        simp part,
        simp part,
        λ i h.
            merged-byte d i old r.wb_data small h
            ∙ ap (λ b. if b then byte i r.wb_data else byte i old) (selects-low i r.wb_sel h),
      )
    ]

-- A write to a valid memory stays within it. It replaces, in the word at its address, the bytes that
-- `wb_sel` selects by those of its own word, and leaves the other bytes of that word and all other
-- words as they were.
pub get-store :
    (r : Request) (m : MemSim) (addr i : ℕ)
    → IsValid m
    → i < 4
    → (n : MemSim) × (store r m ≡ some n)
      × (bit_and addr m.mask ≡ bit_and r.wb_addr m.mask
          → byte i (get addr n)
            ≡ (if selects i r.wb_sel then byte i r.wb_data else byte i (get addr m)))
      × (bit_and addr m.mask ≢ bit_and r.wb_addr m.mask → get addr n ≡ get addr m)
unfolding get
get-store r m addr i h small =
    let (v, mem, same, bytes) = stored-mem r m in
    let place = bit_and r.wb_addr m.mask in
    let lt : place < 2 ^ h.mem_bits = rw h.mask (masked-lt h.mem_bits r.wb_addr) in
    let within : place < length m.mem = omega (arith, h.mem) in
    (
      stored r m,
      store_lem r m h,
      λ at.
          rw (mem, same, at) (ap (byte i) (get_or-set_self m.mem place v 0 within) ∙ bytes i small),
      λ apart.
          rw (mem, same) (get_or-set_ne m.mem place (bit_and addr m.mask) v 0 (λ e. apart (sym e))),
    )
