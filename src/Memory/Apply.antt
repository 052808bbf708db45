-- ===== src/Memory/Apply.antt =====
-- The constructor and `apply` of the simulated memory.
pub mod Latency
use wbsata.Common.{
  ap, ◌∷◌, get_elem?-eq-get_or, List, ap₂, length-append, drop, ◌++◌, sym, ◌≢◌, ◌/◌, bit_or, none,
  not, get_or, ◌&&◌, u32, ◌-◌, ◌<◌, ◌+◌, set, Bool, refl, replicate, some, ◌==◌, ◌^◌, bit_and, ◌≤◌,
  length, arith, ◌∙◌, ℕ, ◌≡◌, Bool-cases, inl, inr, true, false,
}
use wbsata.Common.{length-set, length-replicate, get_or-set_self, get_or-set_ne}
use wbsata.Common.{if◌then◌else◌, ◌==◌}
use wbsata.Memory.{acknowledge, MemSim, Request, Answer, behind, new, get, accept, apply}
use wbsata.Common.{zero, suc, [], ◌∷◌}
use wbsata.Memory.{accept_write, select_mask}
use wbsata.Memory.Within.{
  stored, acknowledged, fetched, moved, released, answer_at, store_lem, acknowledge_lem,
  accept_read_lem, release_lem, move_on_lem, answer_lem,
}
use wbsata.Memory.Indices.{
  IsValid, masked-lt, behind-lt, next_power_lem, ack_waits_total, two_pow_pos,
}

-- For a size and a delay of at most 2 ^ 31, the constructor ends: it leaves a valid memory of at
-- least that size, all of it 0.
pub new-IsValid :
    (nbytes delay : ℕ)
    → nbytes ≤ 2 ^ 31
    → delay ≤ 2 ^ 31
    → (m : MemSim) × (new nbytes delay ≡ some m)
      × IsValid m
      × (nbytes ≤ m.len)
      × (m.mem ≡ replicate m.len 0)
unfolding new
new-IsValid nbytes delay hn hd =
    let (j, ej, js, jn) = next_power_lem 33 0 nbytes (omega arith) (omega arith) hn in
    let (k, ek, ks, kd) = next_power_lem 33 0 delay (omega arith) (omega arith) hd in
    let m : MemSim = record {
      mem = replicate (2 ^ j) 0;
      len = 2 ^ j;
      mask = 2 ^ j - 1;
      head = 0;
      tail = behind 0 delay (2 ^ k - 1);
      delay_mask = 2 ^ k - 1;
      delay = delay;
      fifo_ack = replicate (2 ^ k) 0;
      fifo_data = replicate (2 ^ k) 0;
      cleared = false;
    } in
    (
      m,
      simp (ej, ek),
      record {
        mem_bits = j;
        fifo_bits = k;
        small_fifo = ks;
        len = refl;
        mask = refl;
        delay_mask = refl;
        mem = length-replicate (2 ^ j) 0;
        fifo_ack = length-replicate (2 ^ k) 0;
        fifo_data = length-replicate (2 ^ k) 0;
        head = two_pow_pos k;
        tail = behind-lt k 0 delay;
        delay = kd;
      },
      jn,
      refl,
    )

-- The array sizes and the indices stay.
pub Same : MemSim → MemSim → Type 0
Same m n =
    (n.len ≡ m.len)
    × (n.mask ≡ m.mask)
    × (n.delay_mask ≡ m.delay_mask)
    × (n.delay ≡ m.delay)
    × (length n.mem ≡ length m.mem)
    × (length n.fifo_ack ≡ length m.fifo_ack)
    × (length n.fifo_data ≡ length m.fifo_data)

pub Kept : MemSim → MemSim → Type 0
unfolding Same
Kept m n = Same m n × (n.head ≡ m.head) × (n.tail ≡ m.tail)

Same-IsValid :
    (m n : MemSim) (h : IsValid m)
    → Same m n
    → n.head < 2 ^ h.fifo_bits
    → n.tail < 2 ^ h.fifo_bits
    → IsValid n
unfolding Same
Same-IsValid m n h (e1, e2, e3, e4, e5, e6, e7) at_head at_tail = record {
  mem_bits = h.mem_bits;
  fifo_bits = h.fifo_bits;
  small_fifo = h.small_fifo;
  len = e1 ∙ h.len;
  mask = e2 ∙ h.mask;
  delay_mask = e3 ∙ h.delay_mask;
  mem = e5 ∙ h.mem;
  fifo_ack = e6 ∙ h.fifo_ack;
  fifo_data = e7 ∙ h.fifo_data;
  head = at_head;
  tail = at_tail;
  delay = omega (arith, h.delay, e4);
}

pub Kept-IsValid : (m n : MemSim) → Kept m n → IsValid m → IsValid n
unfolding Kept
Kept-IsValid m n (same, eh, et) h =
    Same-IsValid m n h same (omega (arith, h.head, eh)) (omega (arith, h.tail, et))

stored-Kept : (m : MemSim) (p v : ℕ) → Kept m (record m { mem = set m.mem p v })
unfolding Kept Same
stored-Kept m p v = ((refl, refl, refl, refl, length-set m.mem p v, refl, refl), refl, refl)

if_Kept : (b : Bool) (m x y : MemSim) → Kept m x → Kept m y → Kept m (if b then x else y)
if_Kept true m x y p q = p
if_Kept false m x y p q = q

pub store-Kept : (r : Request) (m : MemSim) → Kept m (stored r m)
unfolding stored
store-Kept r m =
    let place = bit_and r.wb_addr m.mask in
    let sel = select_mask (bit_and r.wb_sel 15) in
    let word = bit_or (bit_and (get_or m.mem place 0) (2 ^ 32 - 1 - sel)) (bit_and r.wb_data sel) in
    if_Kept (bit_and r.wb_sel 15 == 15) m (record m { mem = set m.mem place r.wb_data })
      (record m { mem = set m.mem place word }) (stored-Kept m place r.wb_data)
      (stored-Kept m place word)

acknowledge-Kept : (p : ℕ) (m : MemSim) → Kept m (acknowledged p m)
unfolding acknowledged Kept Same
acknowledge-Kept p m = ((refl, refl, refl, refl, refl, length-set m.fifo_ack p 1, refl), refl, refl)

pub read-Kept : (r : Request) (m : MemSim) → Kept m (fetched r m)
unfolding fetched acknowledged Kept Same
read-Kept r m = (
  (refl, refl, refl, refl, refl, length-set m.fifo_ack m.head 1, length-set m.fifo_data m.head _),
  refl,
  refl,
)

waited-length :
    (waits : Bool) (m : MemSim)
    → length (if waits then acknowledged m.head m else m).fifo_ack ≡ length m.fifo_ack
unfolding acknowledged
waited-length true m = length-set m.fifo_ack m.head 1
waited-length false m = refl

if_IsValid : (b : Bool) (m n : MemSim) → IsValid m → IsValid n → IsValid (if b then m else n)
if_IsValid true m n p q = p
if_IsValid false m n p q = q

acknowledge-IsValid : (p : ℕ) (m : MemSim) → IsValid m → IsValid (acknowledged p m)
acknowledge-IsValid p m h = Kept-IsValid m (acknowledged p m) (acknowledge-Kept p m) h

-- The queue after a write whose scan has found `waits`.
unfoldable pub marked : ℕ → Bool → MemSim → MemSim
marked p waits m =
    let m1 = if waits then acknowledged m.head m else m in
    if get_or m1.fifo_ack m.head 0 == 0 then acknowledged p m1 else m1

pub marked-IsValid : (p : ℕ) (waits : Bool) (m : MemSim) → IsValid m → IsValid (marked p waits m)
unfolding marked
marked-IsValid p waits m h =
    let m1 = if waits then acknowledged m.head m else m in
    let v1 = if_IsValid waits (acknowledged m.head m) m (acknowledge-IsValid m.head m h) h in
    if_IsValid (get_or m1.fifo_ack m.head 0 == 0) (acknowledged p m1) m1
      (acknowledge-IsValid p m1 v1) v1

acknowledge_head : (m : MemSim) → IsValid m → acknowledge m.head m ≡ some (acknowledged m.head m)
acknowledge_head m h =
    let hd = h.head in let acks = h.fifo_ack in acknowledge_lem m.head m (omega arith)

if_acknowledge :
    (b : Bool) (m : MemSim)
    → IsValid m
    → (if b then acknowledge m.head m else some m) ≡ some (if b then acknowledged m.head m else m)
if_acknowledge true m h = acknowledge_head m h
if_acknowledge false m h = refl

if_acknowledge_at :
    (b : Bool) (p : ℕ) (m : MemSim)
    → p < length m.fifo_ack
    → (if b then acknowledge p m else some m) ≡ some (if b then acknowledged p m else m)
if_acknowledge_at true p m h = acknowledge_lem p m h
if_acknowledge_at false p m h = refl

-- A write to a valid memory is accepted: its scan of the queue ends.
pub accept_write_lem :
    (r : Request) (p : ℕ) (m : MemSim)
    → IsValid m
    → p ≤ m.delay_mask
    → (waits : Bool) × (accept_write r p m ≡ some (stored r (marked p waits m)))
unfolding accept_write marked
accept_write_lem r p m h lt =
    let room = two_pow_pos h.fifo_bits in
    let dm = h.delay_mask in
    let hd = h.head in
    let (waits, e) =
      ack_waits_total h.fifo_bits (m.delay_mask + 2) p m h.small_fifo h.delay_mask h.fifo_ack h.head
        (omega arith) (ground arith) in
    let m1 = if waits then acknowledged m.head m else m in
    let acks : length m1.fifo_ack ≡ 2 ^ h.fifo_bits = waited-length waits m ∙ h.fifo_ack in
    let first = if_acknowledge waits m h in
    let look = get_elem?-eq-get_or m1.fifo_ack m.head 0 (omega arith) in
    let second = if_acknowledge_at (get_or m1.fifo_ack m.head 0 == 0) p m1 (omega arith) in
    let last = store_lem r (marked p waits m) (marked-IsValid p waits m h) in
    (waits, simp (e, first, look, second) (unfold marked in last))

write-IsValid :
    (r : Request) (p : ℕ) (m : MemSim)
    → IsValid m
    → p ≤ m.delay_mask
    → (n : MemSim) × (accept_write r p m ≡ some n) × IsValid n
write-IsValid r p m h lt =
    let (waits, e) = accept_write_lem r p m h lt in
    let m2 = marked p waits m in
    (stored r m2, e, Kept-IsValid m2 (stored r m2) (store-Kept r m2) (marked-IsValid p waits m h))

length-replaced :
    (n : ℕ) (xs : List ℕ) → n ≡ length xs → length (replicate n 0 ++ drop n xs) ≡ length xs
length-replaced zero [] h = refl
length-replaced zero (x ∷ xs) h = absurd (omega arith)
length-replaced (suc n) [] h = absurd (omega arith)
length-replaced (suc n) (x ∷ xs) h = ap suc (length-replaced n xs (omega arith))

release-IsValid : (m : MemSim) → IsValid m → IsValid (released m)
unfolding released Same
release-IsValid m h =
    let at_tail : behind 0 m.delay m.delay_mask < 2 ^ h.fifo_bits =
      rw h.delay_mask (behind-lt h.fifo_bits 0 m.delay) in
    let pos = two_pow_pos h.fifo_bits in
    let dm = h.delay_mask in
    let whole : m.delay_mask + 1 ≡ length m.fifo_ack = omega (arith, h.fifo_ack) in
    let m1 : MemSim = record m { head = 0; tail = behind 0 m.delay m.delay_mask } in
    let places = m.delay_mask + 1 in
    let acks = replicate places 0 ++ drop places m.fifo_ack in
    let m2 : MemSim = record m1 { fifo_ack = acks; cleared = true } in
    let cleared = length-replaced places m.fifo_ack whole in
    if_IsValid m.cleared m1 m2
      (Same-IsValid m m1 h (refl, refl, refl, refl, refl, refl, refl) pos at_tail)
      (Same-IsValid m m2 h (refl, refl, refl, refl, refl, cleared, refl) pos at_tail)

pub move_on-IsValid : (stb : Bool) (m : MemSim) → IsValid m → IsValid (moved stb m)
unfolding moved Same
move_on-IsValid stb m h =
    let next = u32 (m.head + 1) in
    Same-IsValid m (moved stb m) h
      (refl, refl, refl, refl, refl, length-set m.fifo_ack (bit_and next m.delay_mask) 0, refl)
      (rw h.delay_mask (masked-lt h.fifo_bits next))
      (rw h.delay_mask (behind-lt h.fifo_bits next m.delay))

pub moved_tail : (stb : Bool) (m : MemSim) (h : IsValid m) → (moved stb m).tail < 2 ^ h.fifo_bits
unfolding moved
moved_tail stb m h = rw h.delay_mask (behind-lt h.fifo_bits (u32 (m.head + 1)) m.delay)

-- The sizes that `move_on` leaves.
pub move_on_sizes :
    (stb : Bool) (m : MemSim)
    → ((moved stb m).delay_mask ≡ m.delay_mask) × ((moved stb m).delay ≡ m.delay)
unfolding moved
move_on_sizes stb m = (refl, refl)

pub write_place :
    (m : MemSim) (head delay : ℕ) → IsValid m → behind head delay m.delay_mask ≤ m.delay_mask
write_place m head delay h =
    let dm = h.delay_mask in
    let pos = two_pow_pos h.fifo_bits in
    let lt : behind head delay m.delay_mask < 2 ^ h.fifo_bits =
      rw h.delay_mask (behind-lt h.fifo_bits head delay) in
    omega arith

accept-IsValid :
    (r : Request) (p : ℕ) (m : MemSim)
    → IsValid m
    → p ≤ m.delay_mask
    → (n : MemSim) × (accept r p m ≡ some n) × IsValid n
unfolding accept
accept-IsValid r p m h lt = elim (Bool-cases r.wb_we) [
  | inl write ↦ let (n, e, v) = write-IsValid r p m h lt in (n, simp (write, e), v)
  | inr read ↦ (
    fetched r m,
    simp (read, accept_read_lem r m h),
    Kept-IsValid m (fetched r m) (read-Kept r m) h,
  )
]

-- A clock of a bus cycle with a request that is not stalled.
pub apply_request :
    (random : ℕ) (r : Request) (m n : MemSim)
    → IsValid m
    → r.wb_cyc ≡ true
    → (r.wb_stb && not (answer_at random (moved r.wb_stb m).tail m).o_stall) ≡ true
    → accept r (behind (moved r.wb_stb m).head (m.delay / 2) m.delay_mask) (moved r.wb_stb m)
      ≡ some n
    → apply random r m ≡ some (n, answer_at random (moved r.wb_stb m).tail m)
unfolding apply
apply_request random r m n h cyc request e =
    let moves = move_on_lem r.wb_stb m h in
    let answers = answer_lem random (moved r.wb_stb m).tail m h (moved_tail r.wb_stb m h) in
    simp (cyc, moves, answers, request, e)

-- A clock of a bus cycle gives the answer that has waited for its delay.
pub apply_cycle :
    (random : ℕ) (r : Request) (m : MemSim)
    → IsValid m
    → r.wb_cyc ≡ true
    → (n : MemSim) × (apply random r m ≡ some (n, answer_at random (moved r.wb_stb m).tail m))
      × IsValid n
unfolding apply
apply_cycle random r m h cyc =
    let m1 = moved r.wb_stb m in
    let a = answer_at random m1.tail m in
    let v = move_on-IsValid r.wb_stb m h in
    let (same_mask, same_delay) = move_on_sizes r.wb_stb m in
    let p = behind m1.head (m.delay / 2) m.delay_mask in
    let moves = move_on_lem r.wb_stb m h in
    let answers = answer_lem random m1.tail m h (moved_tail r.wb_stb m h) in
    elim (Bool-cases (r.wb_stb && not a.o_stall)) [
      | inr no_request ↦ (m1, simp (cyc, moves, answers, no_request), v)
      | inl request ↦
          let in_queue : p ≤ m1.delay_mask = rw same_mask (write_place m m1.head (m.delay / 2) h) in
          let (n, e, vn) = accept-IsValid r p m1 v in_queue in
          (n, apply_request random r m n h cyc request e, vn)
    ]

-- On a valid memory `apply` ends, for every request and every number from `rand`, with no index
-- outside its array, and leaves a valid memory: the sizes stay powers of two.
pub apply-IsValid :
    (random : ℕ) (r : Request) (m : MemSim)
    → IsValid m
    → (n : MemSim) × (a : Answer) × (apply random r m ≡ some (n, a)) × IsValid n
unfolding apply
apply-IsValid random r m h = elim (Bool-cases r.wb_cyc) [
  | inr idle ↦ (
    released m,
    record { o_stall = false; o_ack = 0; o_data = none },
    simp (idle, release_lem m h),
    release-IsValid m h,
  )
  | inl cyc ↦
      let (n, e, v) = apply_cycle random r m h cyc in
      (n, answer_at random (moved r.wb_stb m).tail m, e, v)
]
