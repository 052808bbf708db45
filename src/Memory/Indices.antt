-- ===== src/Memory/Indices.antt =====
-- The indices of the memory and of its queue of answers.
use wbsata.Common.{
  get_elem?-eq-get_or, ◌%◌, ap, get_or, refl, ltb→lt, ◌==◌, ◌*◌, u32, length, ◌⊎◌, ltb, ◌∙◌,
  Bool-cases, ◌≡◌, ◌+◌, some, ◌-◌, arith, ◌≤◌, ◌<◌, ◌^◌,
}
use wbsata.Common.{inl, inr, true, false, zero, suc}
use native.Mathlib.Nat.{one-le-pow, mod-lt, mod-eq_of_lt, mod_self, pow-le-pow_right}
use wbsata.Common.Xor.{and_ones}
use wbsata.Common.Fields.{two_pow_next}
use wbsata.Memory.{bit_and, if◌then◌else◌, ◌^◌, ℕ, Bool, MemSim, next_power, behind, ack_waits}

-- The array sizes are powers of two, their masks are one less, and `head` is an index of the queue.
pub record IsValid (m : MemSim) : Type 0 where
  pub mem_bits : ℕ
  pub fifo_bits : ℕ
  pub small_fifo : fifo_bits ≤ 31
  pub len : m.len ≡ 2 ^ mem_bits
  pub mask : m.mask ≡ 2 ^ mem_bits - 1
  pub delay_mask : m.delay_mask ≡ 2 ^ fifo_bits - 1
  pub mem : length m.mem ≡ 2 ^ mem_bits
  pub fifo_ack : length m.fifo_ack ≡ 2 ^ fifo_bits
  pub fifo_data : length m.fifo_data ≡ 2 ^ fifo_bits
  pub head : m.head < 2 ^ fifo_bits
  pub tail : m.tail < 2 ^ fifo_bits
  pub delay : m.delay ≤ 2 ^ fifo_bits

pub two_pow_pos : (k : ℕ) → 1 ≤ 2 ^ k
two_pow_pos k = one-le-pow k 2 (omega arith)

pub two_pow_31 : (k : ℕ) → k ≤ 31 → 2 ^ k ≤ 2 ^ 31
two_pow_31 k h = pow-le-pow_right {n = 2} (omega arith) h

-- A masked number is an index.
pub masked-lt : (k x : ℕ) → bit_and x (2 ^ k - 1) < 2 ^ k
masked-lt k x = omega (arith, and_ones k x, mod-lt x (two_pow_pos k))

pub behind-lt : (k head delay : ℕ) → behind head delay (2 ^ k - 1) < 2 ^ k
unfolding behind
behind-lt k head delay = masked-lt k (u32 (head + 2 ^ 32 - delay))

pub masked_small : (k x : ℕ) → x < 2 ^ k → bit_and x (2 ^ k - 1) ≡ x
masked_small k x h = and_ones k x ∙ mod-eq_of_lt h

exponent-lt : (i : ℕ) → i ≤ 31 → 2 ^ i < 2 ^ 31 → i < 31
exponent-lt i h below = elim (Bool-cases (ltb i 31)) [
  | inl lt ↦ ltb→lt i 31 lt
  | inr ge ↦
      let e : i ≡ 31 = ground arith in
      absurd (let same : 2 ^ i ≡ 2 ^ 31 = ap (λ t. 2 ^ t) e in omega arith)
]

if_some : (b : Bool) (x y : Bool) → (if b then some x else some y) ≡ some (if b then x else y)
if_some true x y = refl
if_some false x y = refl

-- The place after `k`, around the end of the queue.
pub next_index :
    (b k : ℕ) (m : MemSim)
    → b ≤ 31
    → m.delay_mask ≡ 2 ^ b - 1
    → k < 2 ^ b
    → (n : ℕ) × (bit_and (u32 (k + 1)) m.delay_mask ≡ n)
      × (n < 2 ^ b)
      × ((n ≡ k + 1) ⊎ ((n ≡ 0) × (k + 1 ≡ 2 ^ b)))
next_index b k m small dm h =
    let fits = two_pow_31 b small in
    let word : u32 (k + 1) ≡ k + 1 = omega arith in
    elim (Bool-cases (ltb (k + 1) (2 ^ b))) [
      | inl lt ↦
          let below : k + 1 < 2 ^ b = ltb→lt (k + 1) (2 ^ b) lt in
          (k + 1, rw (dm, word) (masked_small b (k + 1) below), below, inl refl)
      | inr ge ↦
          let last : k + 1 ≡ 2 ^ b = ground arith in
          (
            0,
            rw (dm, word) (and_ones b (k + 1) ∙ ap (λ t. t % 2 ^ b) last ∙ mod_self (2 ^ b)),
            two_pow_pos b,
            inr (refl, last),
          )
    ]

-- The loop that doubles `nxt` ends within 33 rounds where `n` is at most 2 ^ 31, with the first power
-- of two, from `nxt` on, that is `n` or more.
pub next_power_lem :
    (fuel i n : ℕ)
    → i ≤ 31
    → 32 ≤ fuel + i
    → n ≤ 2 ^ 31
    → (j : ℕ) × (next_power fuel (2 ^ i) n ≡ some (2 ^ j)) × (j ≤ 31) × (n ≤ 2 ^ j)
unfolding next_power
next_power_lem zero i n small enough le = absurd (omega arith)
next_power_lem (suc fuel) i n small enough le = elim (Bool-cases (ltb (2 ^ i) n)) [
  | inr done ↦ (i, simp done, small, ground arith)
  | inl more ↦
      let below : 2 ^ i < 2 ^ 31 = ground arith in
      let short : i < 31 = exponent-lt i small below in
      let doubled : u32 (2 ^ i * 2) ≡ 2 ^ (i + 1) = omega (arith, two_pow_next i) in
      let (j, e, js, ns) = next_power_lem fuel (i + 1) n (omega arith) (omega arith) le in
      (j, simp (more, doubled, e), js, ns)
]

-- The scan of the queue for a waiting acknowledgment ends within one more round than the places from
-- `k` to `head`, around the end of the queue.
pub ack_waits_total :
    (b fuel k : ℕ) (m : MemSim)
    → b ≤ 31
    → m.delay_mask ≡ 2 ^ b - 1
    → length m.fifo_ack ≡ 2 ^ b
    → m.head < 2 ^ b
    → k < 2 ^ b
    → ((k ≤ m.head) × (m.head < fuel + k)) ⊎ ((m.head < k) × (m.head + 2 ^ b < fuel + k))
    → (w : Bool) × (ack_waits fuel k m ≡ some w)
unfolding ack_waits
ack_waits_total b zero k m small dm whole hd kk room = absurd (ground arith)
ack_waits_total b (suc fuel) k m small dm whole hd kk room =
    let at : bit_and m.head m.delay_mask ≡ m.head = rw dm (masked_small b m.head hd) in
    let (next, e, next_lt, ends) = next_index b k m small dm kk in
    elim (Bool-cases (k == m.head)) [
      | inl here ↦ (false, simp (at, here))
      | inr later ↦
          let (w, f) = ack_waits_total b fuel next m small dm whole hd next_lt (ground arith) in
          (
            if get_or m.fifo_ack k 0 == 0 then w else true,
            simp (
              at,
              later,
              e,
              f,
              get_elem?-eq-get_or m.fifo_ack k 0 (omega arith),
              if_some (get_or m.fifo_ack k 0 == 0) w true,
            ),
          )
    ]
