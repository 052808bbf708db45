-- ===== src/Common/Xor.antt =====
-- The bitwise operations at variables: laws for every width, from the law of the lowest digit.
use Prim.Native.Nat.{ℕ, zero, suc, ◌+◌, ◌-◌, ◌*◌, ◌/◌, ◌%◌, ◌^◌, ◌≤◌, ◌<◌, min, max}
use Prim.Native.Nat.{bit_and, bit_or, bit_xor, digits, bitwise, differ}
use Prim.Native.Nat.{bit_and-bitwise, bit_or-bitwise, bit_xor-bitwise}
use mathlib.Core.Path.{◌≡◌, refl, ap, ap₂, ◌∙◌, sym}
use mathlib.Core.Logic.{◌⊎◌, inl, inr}
use native.Mathlib.Nat.{
  pow-suc, one-le-pow, le_refl, mul_comm, mod-one, div-one, mod-lt, mod-eq_of_lt,
}
use native.Mathlib.Nat.{div-add-mod', add-mul-mod_self_right, div-div-eq-div-mul}
use native.Mathlib.Omega.{arith}

module _ (last : ℕ → ℕ) (op : ℕ → ℕ → ℕ) where
  -- A round more than there are digits changes nothing.
  digits_more : (n x y : ℕ) → x ≤ n → digits last op (suc n) x y ≡ digits last op n x y
  digits_more zero zero y h = refl
  digits_more (suc n) zero y h = refl
  digits_more zero (suc x) y h = absurd (omega arith)
  digits_more (suc n) (suc x) y h =
      ap (λ t. t * 2 + op (suc x % 2) (y % 2)) (digits_more n (suc x / 2) (y / 2) (omega arith))

  digits_add : (k n x y : ℕ) → x ≤ n → digits last op (k + n) x y ≡ digits last op n x y
  digits_add zero n x y h = ap (λ t. digits last op t x y) (omega arith)
  digits_add (suc k) n x y h =
      ap (λ t. digits last op t x y) {y = suc (k + n)} (omega arith)
      ∙ digits_more (k + n) x y (omega arith)
      ∙ digits_add k n x y h

  bitwise-suc :
      (x y : ℕ)
      → op (suc x % 2) (y % 2) + bitwise last op (suc x / 2) (y / 2) * 2 ≡ bitwise last op (suc x) y
  bitwise-suc x y =
      let half = suc x / 2 in
      let spare : x - half + half ≡ x = omega arith in
      let shorter = digits_add (x - half) half half (y / 2) (le_refl half) in
      let same = ap (λ t. digits last op t half (y / 2)) spare in omega (arith, shorter, same)

pub bit_cases : (c : ℕ) → c < 2 → (c ≡ 0) ⊎ (c ≡ 1)
bit_cases zero h = inl refl
bit_cases (suc zero) h = inr refl
bit_cases (suc (suc c)) h = absurd (omega arith)

differ_table : (c d : ℕ) → c < 2 → d < 2 → differ c d ≡ (c + d) % 2
differ_table c d p q = elim (bit_cases c p) [
  | inl e ↦ elim (bit_cases d q) [ inl k ↦ rw (e, k) | inr k ↦ rw (e, k) ]
  | inr e ↦ elim (bit_cases d q) [ inl k ↦ rw (e, k) | inr k ↦ rw (e, k) ]
]

differ_bits : (a b : ℕ) → differ (a % 2) (b % 2) ≡ (a + b) % 2
differ_bits a b = differ_table (a % 2) (b % 2) (omega arith) (omega arith) ∙ omega arith

pub bit_xor_step : (a b : ℕ) → bit_xor a b ≡ bit_xor (a / 2) (b / 2) * 2 + (a + b) % 2
bit_xor_step zero b = simp bit_xor-bitwise (omega arith)
bit_xor_step (suc a) b =
    simp bit_xor-bitwise (omega (arith, differ_bits (suc a) b, bitwise-suc (λ t. t) differ a b))

pub bit_and_step : (x y : ℕ) → bit_and x y ≡ bit_and (x / 2) (y / 2) * 2 + min (x % 2) (y % 2)
bit_and_step zero y = simp bit_and-bitwise (omega arith)
bit_and_step (suc x) y = simp bit_and-bitwise (omega (arith, bitwise-suc (λ t. zero) min x y))

pub bit_or_step : (x y : ℕ) → bit_or x y ≡ bit_or (x / 2) (y / 2) * 2 + max (x % 2) (y % 2)
bit_or_step zero y = simp bit_or-bitwise (omega arith)
bit_or_step (suc x) y = simp bit_or-bitwise (omega (arith, bitwise-suc (λ t. t) max x y))

-- Induction on a bound halves the operands.
zero-xor_below : (n a : ℕ) → a ≤ n → bit_xor 0 a ≡ a
zero-xor_below zero a h = let p : a ≡ 0 = omega arith in rw p
zero-xor_below (suc n) a h = omega (arith, bit_xor_step 0 a, zero-xor_below n (a / 2) (omega arith))

xor_comm_below : (n a b : ℕ) → a + b ≤ n → bit_xor a b ≡ bit_xor b a
xor_comm_below zero a b h = let p : a ≡ 0 = omega arith in let q : b ≡ 0 = omega arith in rw (p, q)
xor_comm_below (suc n) a b h =
    omega
      (arith, bit_xor_step a b, bit_xor_step b a, xor_comm_below n (a / 2) (b / 2) (omega arith))

xor_self_below : (n a : ℕ) → a ≤ n → bit_xor a a ≡ 0
xor_self_below zero a h = let p : a ≡ 0 = omega arith in rw p
xor_self_below (suc n) a h = omega (arith, bit_xor_step a a, xor_self_below n (a / 2) (omega arith))

-- The halves and the lowest digit of an exclusive or.
pub xor_half : (a b : ℕ) → bit_xor a b / 2 ≡ bit_xor (a / 2) (b / 2)
xor_half a b = omega (arith, bit_xor_step a b)

pub xor_bit : (a b : ℕ) → bit_xor a b % 2 ≡ (a + b) % 2
xor_bit a b = omega (arith, bit_xor_step a b)

xor_assoc_halves :
    (a b c : ℕ)
    → bit_xor (bit_xor (a / 2) (b / 2)) (c / 2) ≡ bit_xor (a / 2) (bit_xor (b / 2) (c / 2))
    → bit_xor (bit_xor a b / 2) (c / 2) ≡ bit_xor (a / 2) (bit_xor b c / 2)
xor_assoc_halves a b c h = rw (xor_half a b, xor_half b c) h

xor_assoc_below : (n a b c : ℕ) → a + b + c ≤ n → bit_xor (bit_xor a b) c ≡ bit_xor a (bit_xor b c)
xor_assoc_below zero a b c h =
    let p : a ≡ 0 = omega arith in
    let q : b ≡ 0 = omega arith in let r : c ≡ 0 = omega arith in rw (p, q, r)
xor_assoc_below (suc n) a b c h = omega (
  arith,
  bit_xor_step (bit_xor a b) c,
  bit_xor_step a (bit_xor b c),
  xor_bit a b,
  xor_bit b c,
  xor_assoc_halves a b c (xor_assoc_below n (a / 2) (b / 2) (c / 2) (omega arith)),
)

pub zero-xor : (a : ℕ) → bit_xor 0 a ≡ a
zero-xor a = zero-xor_below a a (le_refl a)

pub xor_comm : (a b : ℕ) → bit_xor a b ≡ bit_xor b a
xor_comm a b = xor_comm_below (a + b) a b (le_refl _)

pub xor_self : (a : ℕ) → bit_xor a a ≡ 0
xor_self a = xor_self_below a a (le_refl a)

pub xor_assoc : (a b c : ℕ) → bit_xor (bit_xor a b) c ≡ bit_xor a (bit_xor b c)
xor_assoc a b c = xor_assoc_below (a + b + c) a b c (le_refl _)

pub xor-zero : (a : ℕ) → bit_xor a 0 ≡ a
xor-zero a = xor_comm a 0 ∙ zero-xor a

-- The same word, applied twice, cancels.
pub xor_cancel : (a b : ℕ) → bit_xor (bit_xor a b) b ≡ a
xor_cancel a b = rw (xor_assoc, xor_self) (xor-zero a)

-- The pairs of an exclusive or of four words can be changed.
pub xor_swap_pairs :
    (a b c d : ℕ) → bit_xor (bit_xor a b) (bit_xor c d) ≡ bit_xor (bit_xor a c) (bit_xor b d)
xor_swap_pairs a b c d =
    xor_assoc a b (bit_xor c d)
    ∙ ap (bit_xor a)
        (sym (xor_assoc b c d) ∙ ap (λ t. bit_xor t d) (xor_comm b c) ∙ xor_assoc c b d)
    ∙ sym (xor_assoc a c (bit_xor b d))

pub xor-double : (a b : ℕ) → bit_xor (a * 2) (b * 2) ≡ bit_xor a b * 2
xor-double a b = rw (bit_xor_step (a * 2) (b * 2), half a, half b) (omega arith)
  where
    half : (c : ℕ) → c * 2 / 2 ≡ c
    half c = omega arith

pub mod_two_pow_suc : (a k : ℕ) → a % 2 ^ suc k ≡ a / 2 % 2 ^ k * 2 + a % 2
mod_two_pow_suc a k = rw (pow-suc 2 k) (
    ap (λ t. t % (2 ^ k * 2)) whole
    ∙ add-mul-mod_self_right (a / 2 % 2 ^ k * 2 + a % 2) (a / 2 / 2 ^ k) (2 ^ k * 2)
    ∙ mod-eq_of_lt (omega (arith, mod-lt (a / 2) (one-le-pow k 2 (omega arith)))))
  where
    whole : a ≡ a / 2 % 2 ^ k * 2 + a % 2 + a / 2 / 2 ^ k * (2 ^ k * 2)
    whole = omega (arith, div-add-mod' (a / 2) (2 ^ k))

pub div_two_pow_suc : (a k : ℕ) → a / 2 ^ suc k ≡ a / 2 / 2 ^ k
div_two_pow_suc a k = rw (pow-suc 2 k, mul_comm (2 ^ k) 2) (sym (div-div-eq-div-mul a 2 (2 ^ k)))

pub xor-mod : (k a b : ℕ) → bit_xor a b % 2 ^ k ≡ bit_xor (a % 2 ^ k) (b % 2 ^ k)
xor-mod zero a b = simp mod-one
xor-mod (suc k) a b = omega (
  arith,
  mod_two_pow_suc (bit_xor a b) k,
  mod_two_pow_suc a k,
  mod_two_pow_suc b k,
  bit_xor_step (a % 2 ^ suc k) (b % 2 ^ suc k),
  xor_bit a b,
  ap (λ t. t % 2 ^ k) (xor_half a b),
  halves,
  xor-mod k (a / 2) (b / 2),
)
  where
    halves :
        bit_xor (a % 2 ^ suc k / 2) (b % 2 ^ suc k / 2) ≡ bit_xor (a / 2 % 2 ^ k) (b / 2 % 2 ^ k)
    halves = ap₂ bit_xor (omega (arith, mod_two_pow_suc a k)) (omega (arith, mod_two_pow_suc b k))

pub xor-lt : (k a b : ℕ) → a < 2 ^ k → b < 2 ^ k → bit_xor a b < 2 ^ k
xor-lt k a b p q = omega (arith, same, mod-lt (bit_xor a b) (one-le-pow k 2 (omega arith)))
  where
    same : bit_xor a b % 2 ^ k ≡ bit_xor a b
    same = xor-mod k a b ∙ ap₂ bit_xor (mod-eq_of_lt p) (mod-eq_of_lt q)

pub xor-div : (k a b : ℕ) → bit_xor a b / 2 ^ k ≡ bit_xor (a / 2 ^ k) (b / 2 ^ k)
xor-div zero a b = simp div-one
xor-div (suc k) a b =
    rw (div_two_pow_suc (bit_xor a b) k, xor_half a b, div_two_pow_suc a k, div_two_pow_suc b k)
      (xor-div k (a / 2) (b / 2))

-- A mask of `k` ones is the remainder by `2 ^ k`.
and-zero_below : (n a : ℕ) → a ≤ n → bit_and a 0 ≡ 0
and-zero_below zero a h = let p : a ≡ 0 = omega arith in rw p
and-zero_below (suc n) a h = omega (arith, bit_and_step a 0, and-zero_below n (a / 2) (omega arith))

and_ones_half : (a k : ℕ) → bit_and (a / 2) ((2 ^ suc k - 1) / 2) ≡ bit_and (a / 2) (2 ^ k - 1)
and_ones_half a k = ap (bit_and (a / 2)) (omega (arith, pow-suc 2 k, one-le-pow k 2 (omega arith)))

pub and_ones : (k a : ℕ) → bit_and a (2 ^ k - 1) ≡ a % 2 ^ k
and_ones zero a = and-zero_below a a (le_refl a) ∙ sym (mod-one a)
and_ones (suc k) a = omega (
  arith,
  bit_and_step a (2 ^ suc k - 1),
  pow-suc 2 k,
  one-le-pow k 2 (omega arith),
  and_ones_half a k,
  and_ones k (a / 2),
  mod_two_pow_suc a k,
)

pub and-zero : (a : ℕ) → bit_and a 0 ≡ 0
and-zero a = and-zero_below a a (le_refl a)

pub xor_right_comm : (a b c : ℕ) → bit_xor (bit_xor a b) c ≡ bit_xor (bit_xor a c) b
xor_right_comm a b c = xor_assoc a b c ∙ ap (bit_xor a) (xor_comm b c) ∙ sym (xor_assoc a c b)
