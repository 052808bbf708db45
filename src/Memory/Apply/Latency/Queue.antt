-- ===== src/Memory/Apply/Latency/Queue.antt =====
-- The queue of `MEMSIM`, bench/cpp/memsim.cpp: its places, and that a request leaves an answer that
-- waits in it.
use wbsata.Common.{ap, sym, ◌*◌, get_or-set_ne, u32, if◌then◌else◌, ◌==◌}
use wbsata.Common.{
  ◌∙◌, Bool-cases, set, arith, ◌≢◌, Bool, ◌%◌, ◌-◌, get_or, ◌⊎◌, ◌^◌, some, ◌+◌, ◌<◌, ◌≡◌, ◌≤◌, ℕ,
  List, true, false, inl, inr, refl, [], ◌∷◌, zero, suc,
}
use native.Mathlib.Nat.{add-mul-mod_self_right, mod-eq_of_lt}
use wbsata.Common.Xor.{and_ones}
use wbsata.Common.Fields.{two_pow_add}
use wbsata.Memory.{MemSim, Request, behind, accept}
use wbsata.Memory.Apply.{
  marked, marked-IsValid, accept_write_lem, store-Kept, read-Kept, Kept-IsValid,
}
use wbsata.Memory.Within.{stored, acknowledged, fetched, accept_read_lem}
use wbsata.Memory.Indices.{IsValid, masked_small, two_pow_pos, two_pow_31}

-- The place `j` after `i` in a queue of `n`.
abbrev After : ℕ → ℕ → ℕ → ℕ → Type 0
After n i j p = (p ≡ i + j) ⊎ (p + n ≡ i + j)

sub_one_mul : (a b : ℕ) → 1 ≤ a → (a - 1) * b + b ≡ a * b
sub_one_mul zero b h = absurd (omega arith)
sub_one_mul (suc a) b h = let e : suc a - 1 ≡ a = omega arith in rw e (grind arith)

mod_complement : (k x : ℕ) → k ≤ 32 → 0 < x → x ≤ 2 ^ k → (2 ^ 32 - x) % 2 ^ k ≡ (2 ^ k - x) % 2 ^ k
mod_complement k x small pos le =
    let top : 32 - k + k ≡ 32 = omega arith in
    let whole : 2 ^ (32 - k) * 2 ^ k ≡ 2 ^ 32 = two_pow_add (32 - k) k ∙ ap (λ t. 2 ^ t) top in
    let rest = sub_one_mul (2 ^ (32 - k)) (2 ^ k) (two_pow_pos (32 - k)) in
    let split : 2 ^ 32 - x ≡ 2 ^ k - x + (2 ^ (32 - k) - 1) * 2 ^ k = omega arith in
    rw split (add-mul-mod_self_right (2 ^ k - x) (2 ^ (32 - k) - 1) (2 ^ k))

-- The place `delay` before `next`, around the start of the queue.
pub behind_lem :
    (k next delay i : ℕ)
    → k ≤ 31
    → next ≤ 2 ^ k
    → 0 < delay
    → delay ≤ 2 ^ k
    → i < 2 ^ k
    → (next ≡ i + delay) ⊎ (next + 2 ^ k ≡ i + delay)
    → behind next delay (2 ^ k - 1) ≡ i
unfolding behind
behind_lem k next delay i small le pos most lt at =
    let top = two_pow_31 k small in
    elim at [
      | inl ahead ↦
          let e : u32 (next + 2 ^ 32 - delay) ≡ i = omega arith in rw e (masked_small k i lt)
      | inr around ↦
          let e : u32 (next + 2 ^ 32 - delay) ≡ 2 ^ 32 - (delay - next) = omega arith in
          let back : 2 ^ k - (delay - next) ≡ i = omega arith in
          rw e (
            and_ones k (2 ^ 32 - (delay - next))
            ∙ mod_complement k (delay - next) (omega arith) (omega arith) (omega arith)
            ∙ rw back (mod-eq_of_lt lt))
    ]

-- An acknowledgment and a word at the place `i`.
unfoldable pub Holds : ℕ → ℕ → MemSim → Type 0
Holds w i m = (get_or m.fifo_ack i 0 ≡ 1) × (get_or m.fifo_data i 0 ≡ w)

-- An answer `w` that waits at the place `i`, `j` clocks old.
pub record Waits (w i j : ℕ) (m : MemSim) : Type 0 where
  pub valid : IsValid m
  pub place : i ≤ m.delay_mask
  pub age : After (m.delay_mask + 1) i j m.head
  pub holds : Holds w i m

get_or-set_same : (xs : List ℕ) (p i : ℕ) → get_or xs i 0 ≡ 1 → get_or (set xs p 1) i 0 ≡ 1
get_or-set_same [] p i e = e
get_or-set_same (x ∷ xs) zero zero e = refl
get_or-set_same (x ∷ xs) zero (suc i) e = e
get_or-set_same (x ∷ xs) (suc p) zero e = e
get_or-set_same (x ∷ xs) (suc p) (suc i) e = get_or-set_same xs p i e

acknowledge-Holds : (w i p : ℕ) (m : MemSim) → Holds w i m → Holds w i (acknowledged p m)
unfolding acknowledged Holds
acknowledge-Holds w i p m (a, d) = (get_or-set_same m.fifo_ack p i a, d)

if_Holds :
    (w i : ℕ) (b : Bool) (m n : MemSim) → Holds w i m → Holds w i n → Holds w i (if b then m else n)
if_Holds w i true m n p q = p
if_Holds w i false m n p q = q

marked-Holds : (w i p : ℕ) (waits : Bool) (m : MemSim) → Holds w i m → Holds w i (marked p waits m)
unfolding marked
marked-Holds w i p waits m h =
    let m1 = if waits then acknowledged m.head m else m in
    let v1 = if_Holds w i waits (acknowledged m.head m) m (acknowledge-Holds w i m.head m h) h in
    if_Holds w i (get_or m1.fifo_ack m.head 0 == 0) (acknowledged p m1) m1
      (acknowledge-Holds w i p m1 v1) v1

store-Holds : (w i : ℕ) (r : Request) (m : MemSim) → Holds w i m → Holds w i (stored r m)
unfolding stored Holds
store-Holds w i r m h = ground arith

-- What a request leaves of the queue: its sizes and its indices.
abbrev Fixed : MemSim → MemSim → Type 0
Fixed m n = (n.delay_mask ≡ m.delay_mask) × (n.delay ≡ m.delay) × (n.head ≡ m.head)

marked-Fixed : (p : ℕ) (waits : Bool) (m : MemSim) → Fixed m (marked p waits m)
unfolding marked acknowledged
marked-Fixed p waits m = ground arith

store-Fixed : (r : Request) (m : MemSim) → Fixed m (stored r m)
unfolding stored
store-Fixed r m = ground arith

read-Holds :
    (w i : ℕ) (r : Request) (m : MemSim) → i ≢ m.head → Holds w i m → Holds w i (fetched r m)
unfolding fetched acknowledged Holds
read-Holds w i r m apart (a, d) = (
  get_or-set_same m.fifo_ack m.head i a,
  get_or-set_ne m.fifo_data m.head i _ 0 (λ e. apart (sym e)) ∙ d,
)

-- A request on a valid memory, with an answer that waits elsewhere than at `head`.
pub accept-Holds :
    (w i p : ℕ) (r : Request) (m : MemSim)
    → IsValid m
    → p ≤ m.delay_mask
    → i ≢ m.head
    → Holds w i m
    → (n : MemSim) × (accept r p m ≡ some n) × IsValid n × Fixed m n × Holds w i n
unfolding accept
accept-Holds w i p r m h lt apart held = elim (Bool-cases r.wb_we) [
  | inl write ↦
      let (waits, e) = accept_write_lem r p m h lt in
      let m2 = marked p waits m in
      (
        stored r m2,
        simp (write, e),
        Kept-IsValid m2 (stored r m2) (store-Kept r m2) (marked-IsValid p waits m h),
        (let a = marked-Fixed p waits m in
            let b = store-Fixed r m2 in (b.0 ∙ a.0, b.1 ∙ a.1, b.2 ∙ a.2)),
        store-Holds w i r m2 (marked-Holds w i p waits m held),
      )
  | inr read ↦ (
    fetched r m,
    simp (read, accept_read_lem r m h),
    Kept-IsValid m (fetched r m) (read-Kept r m) h,
    unfold fetched acknowledged in (refl, refl, refl),
    read-Holds w i r m apart held,
  )
]
