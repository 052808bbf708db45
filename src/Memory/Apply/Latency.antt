-- ===== src/Memory/Apply/Latency.antt =====
-- A read of the simulated memory, and its answer `delay` clocks later.
pub mod Queue
use wbsata.Common.{
  get_or-set_self, not, ◌&&◌, bit_and, length, ◌/◌, ap, sym, ◌*◌, get_or-set_ne, u32, if◌then◌else◌,
  ◌==◌,
}
use wbsata.Common.{
  ◌∙◌, Bool-cases, set, arith, ◌≢◌, Bool, ◌%◌, ◌-◌, get_or, ◌⊎◌, ◌^◌, some, ◌+◌, ◌<◌, Option, ◌≡◌,
  ◌≤◌, ℕ, List, true, false, inl, inr, refl, [], ◌∷◌, zero, suc,
}
use native.Mathlib.Nat.{add-mul-mod_self_right, mod-eq_of_lt}
use wbsata.Common.Xor.{and_ones}
use wbsata.Common.Fields.{two_pow_add}
use wbsata.Memory.{MemSim, Request, Answer, behind, get, accept, apply}
use wbsata.Common.{◌>>=◌}
use wbsata.Memory.Apply.{
  apply_cycle, apply_request, move_on_sizes, moved_tail, write_place, marked, marked-IsValid,
  accept_write_lem, store-Kept, read-Kept, move_on-IsValid, Kept-IsValid,
}
use wbsata.Memory.Within.{
  stored, acknowledged, fetched, moved, released, answer_at, store_lem, acknowledge_lem,
  accept_read_lem, release_lem, move_on_lem, answer_lem,
}
use wbsata.Memory.Indices.{IsValid, masked_small, two_pow_pos, two_pow_31, next_index}
use wbsata.Memory.Apply.Latency.Queue.{Waits, behind_lem, Holds, accept-Holds}

-- One call of `apply` after the other, each with its `rand()`; the answers are left out.
unfoldable pub apply_all : List (ℕ × Request) → MemSim → Option MemSim
apply_all [] m = some m
apply_all ((random, r) ∷ rest) m = do (n, _) ← apply random r m; apply_all rest n

-- The bus stays in one cycle.
abbrev pub AreCycles : List (ℕ × Request) → Type 0
AreCycles [] = Unit
AreCycles ((random, r) ∷ rest) = (r.wb_cyc ≡ true) × AreCycles rest

-- The next clock of a cycle, before its request.
move_on-Waits :
    (w i j : ℕ) (stb : Bool) (m : MemSim)
    → Waits w i j m
    → j < m.delay_mask
    → Waits w i (j + 1) (moved stb m) × (i ≢ (moved stb m).head)
unfolding moved Holds
move_on-Waits w i j stb m h young =
    let v = h.valid in
    let dm = v.delay_mask in
    let pos = two_pow_pos v.fifo_bits in
    let (n, e, lt, at) = next_index v.fifo_bits m.head m v.small_fifo v.delay_mask v.head in
    let (a, d) = h.holds in
    let place = h.place in
    let age = h.age in
    let apart : i ≢ n = λ same. absurd (ground arith) in
    (
      record {
        valid = move_on-IsValid stb m v;
        place = place;
        age = rw e (ground arith);
        holds = (rw e (get_or-set_ne m.fifo_ack n i 0 0 (λ e. apart (sym e)) ∙ a), d);
      },
      rw e apart,
    )

-- What one clock of a cycle leaves of a waiting answer.
apply-Waits :
    (w i j random : ℕ) (r : Request) (m : MemSim)
    → Waits w i j m
    → j < m.delay_mask
    → r.wb_cyc ≡ true
    → (n : MemSim) × (a : Answer) × (apply random r m ≡ some (n, a))
      × Waits w i (j + 1) n
      × (n.delay_mask ≡ m.delay_mask)
      × (n.delay ≡ m.delay)
unfolding apply
apply-Waits w i j random r m h young cyc =
    let m1 = moved r.wb_stb m in
    let a = answer_at random m1.tail m in
    let (h1, apart) = move_on-Waits w i j r.wb_stb m h young in
    let p = behind m1.head (m.delay / 2) m.delay_mask in
    let (same_mask, same_delay) = move_on_sizes r.wb_stb m in
    let moves = move_on_lem r.wb_stb m h.valid in
    let answers = answer_lem random m1.tail m h.valid (moved_tail r.wb_stb m h.valid) in
    elim (Bool-cases (r.wb_stb && not a.o_stall)) [
      | inr no_request ↦ (m1, a, simp (cyc, moves, answers, no_request), h1, same_mask, same_delay)
      | inl request ↦
          let in_queue : p ≤ m1.delay_mask =
            rw same_mask (write_place m m1.head (m.delay / 2) h.valid) in
          let (n, e, v, (km, kd, kh), held) =
            accept-Holds w i p r m1 h1.valid in_queue apart h1.holds in
          (
            n,
            a,
            apply_request random r m n h.valid cyc request e,
            record {
              valid = v;
              place = let q = h1.place in omega (arith, km);
              age = rw (km, kh) h1.age;
              holds = held;
            },
            km ∙ same_mask,
            kd ∙ same_delay,
          )
    ]

apply_all-Waits :
    (w i j : ℕ) (rest : List (ℕ × Request)) (m : MemSim)
    → Waits w i j m
    → AreCycles rest
    → j + length rest ≤ m.delay_mask
    → (n : MemSim) × (apply_all rest m ≡ some n)
      × Waits w i (j + length rest) n
      × (n.delay_mask ≡ m.delay_mask)
      × (n.delay ≡ m.delay)
unfolding apply_all
apply_all-Waits w i j [] m h cycles room =
    let e : j + 0 ≡ j = omega arith in (m, refl, rw e h, refl, refl)
apply_all-Waits w i j ((random, r) ∷ rest) m h (cyc, cycles) room =
    let (m1, a, e, h1, mask, delay) = apply-Waits w i j random r m h (omega arith) cyc in
    let (n, f, hn, mask', delay') = apply_all-Waits w i (j + 1) rest m1 h1 cycles (omega arith) in
    let count : j + suc (length rest) ≡ j + 1 + length rest = omega arith in
    (n, simp (e, f), rw count hn, mask' ∙ mask, delay' ∙ delay)

-- An answer as old as the delay is given.
answered :
    (w i j random : ℕ) (r : Request) (m : MemSim)
    → Waits w i j m
    → j + 1 ≡ m.delay
    → r.wb_cyc ≡ true
    → (n : MemSim) × (a : Answer) × (apply random r m ≡ some (n, a))
      × (a.o_ack ≡ 1)
      × (a.o_data ≡ some w)
answered w i j random r m h old cyc =
    let v = h.valid in
    let dm = v.delay_mask in
    let room = two_pow_pos v.fifo_bits in
    let most = v.delay in
    let place = h.place in
    let age = h.age in
    let head = v.head in
    let fits = two_pow_31 v.fifo_bits v.small_fifo in
    let next : u32 (m.head + 1) ≡ m.head + 1 = omega arith in
    let at : (moved r.wb_stb m).tail ≡ i =
      unfold moved in
      rw (next, dm)
        (behind_lem v.fifo_bits (m.head + 1) m.delay i v.small_fifo (omega arith) (omega arith) most
          (omega arith) (ground arith)) in
    let ack : get_or m.fifo_ack i 0 ≡ 1 = unfold Holds in h.holds.0 in
    let word : get_or m.fifo_data i 0 ≡ w = unfold Holds in h.holds.1 in
    let (n, e, valid) = apply_cycle random r m v cyc in
    (
      n,
      answer_at random (moved r.wb_stb m).tail m,
      e,
      unfold answer_at in rw at ack,
      unfold answer_at in rw at (ap some word),
    )

start_read :
    (random : ℕ) (r : Request) (m : MemSim)
    → IsValid m
    → 0 < m.delay
    → r.wb_cyc ≡ true
    → r.wb_stb ≡ true
    → r.wb_we ≡ false
    → (bit_and random 0x3f == 0) ≡ false
    → (n : MemSim) × (a : Answer) × (i : ℕ) × (apply random r m ≡ some (n, a))
      × Waits (get r.wb_addr m) i 0 n
      × (n.delay_mask ≡ m.delay_mask)
      × (n.delay ≡ m.delay)
start_read random r m h pos cyc stb read go =
    let m1 = moved r.wb_stb m in
    let v = move_on-IsValid r.wb_stb m h in
    let (mask, delay) = move_on_sizes r.wb_stb m in
    let top = v.head in
    let dm = v.delay_mask in
    let acked = v.fifo_ack in
    let worded = v.fifo_data in
    let p = behind m1.head (m.delay / 2) m.delay_mask in
    let read_now : accept r p m1 ≡ some (fetched r m1) =
      unfold accept in simp (read, accept_read_lem r m1 v) in
    let request : (r.wb_stb && not (answer_at random m1.tail m).o_stall) ≡ true =
      unfold answer_at in simp (stb, go) in
    (
      fetched r m1,
      answer_at random m1.tail m,
      m1.head,
      apply_request random r m (fetched r m1) h cyc request read_now,
      record {
        valid = Kept-IsValid m1 (fetched r m1) (read-Kept r m1) v;
        place = unfold fetched acknowledged in omega arith;
        age = unfold fetched acknowledged in inl (omega arith);
        holds =
            unfold Holds fetched acknowledged get moved in
            (
              get_or-set_self m1.fifo_ack m1.head 1 0 (omega arith),
              get_or-set_self m1.fifo_data m1.head _ 0 (omega arith),
            );
      },
      unfold fetched acknowledged in mask,
      unfold fetched acknowledged in delay,
    )

-- A read that the memory accepts is answered after as many clocks as its delay, and not lost to any
-- of the requests in between: while the bus stays in its cycle, and whatever it asks for, the answer
-- to the clock that many later is an acknowledgment with the word that stood at the address.
pub read_answered :
    (random random' : ℕ) (r r' : Request) (rest : List (ℕ × Request)) (m : MemSim)
    → IsValid m
    → r.wb_cyc ≡ true
    → r.wb_stb ≡ true
    → r.wb_we ≡ false
    → (bit_and random 0x3f == 0) ≡ false
    → AreCycles rest
    → r'.wb_cyc ≡ true
    → length rest + 1 ≡ m.delay
    → (m1 : MemSim) × (m2 : MemSim) × (m3 : MemSim) × (a : Answer) × (b : Answer) × (apply random r
          m
        ≡ some (m1, a))
      × (apply_all rest m1 ≡ some m2)
      × (apply random' r' m2 ≡ some (m3, b))
      × (b.o_ack ≡ 1)
      × (b.o_data ≡ some (get r.wb_addr m))
read_answered random random' r r' rest m h cyc stb read go cycles cyc' count =
    let (m1, a, i, e, w1, mask, delay) = start_read random r m h (omega arith) cyc stb read go in
    let most = h.delay in
    let dm = h.delay_mask in
    let (m2, f, w2, mask', delay') =
      apply_all-Waits (get r.wb_addr m) i 0 rest m1 w1 cycles (omega arith) in
    let age : 0 + length rest + 1 ≡ m2.delay = omega arith in
    let (m3, b, g, ack, word) =
      answered (get r.wb_addr m) i (0 + length rest) random' r' m2 w2 age cyc' in
    (m1, m2, m3, a, b, e, f, g, ack, word)
