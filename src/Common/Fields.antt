-- ===== src/Common/Fields.antt =====
-- `|` of disjoint bit fields and `&` with one bit, as arithmetic, at every width.
use Prim.Native.Nat.{ℕ, zero, suc, ◌+◌, ◌*◌, ◌/◌, ◌%◌, ◌^◌, ◌≤◌, ◌<◌, bit_and, bit_or}
use mathlib.Core.Path.{◌≡◌, ap, ap₂, sym, ◌∙◌}
use native.Mathlib.Nat.{pow-suc, le_refl, div-one}
use native.Mathlib.Numerals.{towards_suc}
use native.Mathlib.Omega.{arith}
use wbsata.Common.Xor.{bit_or_step, bit_and_step, and_ones, div_two_pow_suc}

pub two_pow_next : (k : ℕ) → 2 ^ (k + 1) ≡ 2 ^ k * 2
two_pow_next k = simp towards_suc (pow-suc 2 k)

pub two_pow_add : (j k : ℕ) → 2 ^ j * 2 ^ k ≡ 2 ^ (j + k)
two_pow_add zero k = let e : zero + k ≡ k = omega arith in rw e (omega arith)
two_pow_add (suc j) k =
    let e : suc j + k ≡ suc (j + k) = omega arith in
    rw (e, pow-suc 2 j, pow-suc 2 (j + k)) (omega (arith, two_pow_add j k))

or-zero_below : (n a : ℕ) → a ≤ n → bit_or a 0 ≡ a
or-zero_below zero a h = let p : a ≡ 0 = omega arith in rw p
or-zero_below (suc n) a h = omega (arith, bit_or_step a 0, or-zero_below n (a / 2) (omega arith))

-- A field shifted past the width of another is joined to it by addition.
pub or_disjoint : (k hi lo : ℕ) → lo < 2 ^ k → bit_or (hi * 2 ^ k) lo ≡ hi * 2 ^ k + lo
or_disjoint zero hi lo h =
    let p : lo ≡ 0 = omega arith in rw p (or-zero_below (hi * 1) (hi * 1) (le_refl _) ∙ omega arith)
or_disjoint (suc k) hi lo h = omega (
  arith,
  bit_or_step (hi * 2 ^ suc k) lo,
  double,
  rest,
  or_disjoint k hi (lo / 2) (omega (arith, pow-suc 2 k)),
)
  where
    double : hi * 2 ^ suc k ≡ hi * 2 ^ k * 2
    double = rw (pow-suc 2 k) (omega arith)

    rest : bit_or (hi * 2 ^ suc k / 2) (lo / 2) ≡ bit_or (hi * 2 ^ k) (lo / 2)
    rest = ap (λ t. bit_or t (lo / 2)) (omega (arith, double))

or_comm_below : (n a b : ℕ) → a + b ≤ n → bit_or a b ≡ bit_or b a
or_comm_below zero a b h = let p : a ≡ 0 = omega arith in let q : b ≡ 0 = omega arith in rw (p, q)
or_comm_below (suc n) a b h =
    omega (arith, bit_or_step a b, bit_or_step b a, or_comm_below n (a / 2) (b / 2) (omega arith))

pub or_comm : (a b : ℕ) → bit_or a b ≡ bit_or b a
or_comm a b = or_comm_below (a + b) a b (le_refl _)

pub or-zero : (a : ℕ) → bit_or a 0 ≡ a
or-zero a = or-zero_below a a (le_refl a)

pub zero-or : (a : ℕ) → bit_or 0 a ≡ a
zero-or a = or_comm 0 a ∙ or-zero a

-- The test of one bit.
pub and_two_pow : (k a : ℕ) → bit_and a (2 ^ k) ≡ a / 2 ^ k % 2 * 2 ^ k
and_two_pow zero a = rw div-one (and_ones 1 a ∙ omega arith)
and_two_pow (suc k) a =
    bit_and_step a (2 ^ suc k) ∙ omega (arith, half, even, and_two_pow k (a / 2), widen)
  where
    half : bit_and (a / 2) (2 ^ suc k / 2) ≡ bit_and (a / 2) (2 ^ k)
    half = ap (bit_and (a / 2)) (omega (arith, pow-suc 2 k))

    even : 2 ^ suc k % 2 ≡ 0
    even = omega (arith, pow-suc 2 k)

    widen : a / 2 ^ suc k % 2 * 2 ^ suc k ≡ a / 2 / 2 ^ k % 2 * 2 ^ k * 2
    widen = rw (div_two_pow_suc a k, pow-suc 2 k) (omega arith)

-- The field of `j` bits above the first `k`, left in its place by a mask.
pub and_shifted : (k a m : ℕ) → bit_and a (m * 2 ^ k) ≡ bit_and (a / 2 ^ k) m * 2 ^ k
and_shifted zero a m = ap₂ bit_and {v = m} (sym (div-one a)) (omega arith) ∙ omega arith
and_shifted (suc k) a m =
    bit_and_step a (m * 2 ^ suc k) ∙ omega (arith, half, widen, and_shifted k (a / 2) m, even)
  where
    double : m * 2 ^ suc k ≡ m * 2 ^ k * 2
    double = rw (pow-suc 2 k) (omega arith)

    half : bit_and (a / 2) (m * 2 ^ suc k / 2) ≡ bit_and (a / 2) (m * 2 ^ k)
    half = ap (bit_and (a / 2)) (omega (arith, double))

    even : m * 2 ^ suc k % 2 ≡ 0
    even = omega (arith, double)

    widen : bit_and (a / 2 ^ suc k) m * 2 ^ suc k ≡ bit_and (a / 2 / 2 ^ k) m * 2 ^ k * 2
    widen = rw (div_two_pow_suc a k, pow-suc 2 k) (omega arith)

-- A word with a field put above it.
pub or_above : (k lo hi : ℕ) → lo < 2 ^ k → bit_or lo (hi * 2 ^ k) ≡ lo + hi * 2 ^ k
or_above k lo hi h = or_comm lo (hi * 2 ^ k) ∙ or_disjoint k hi lo h ∙ omega arith
