-- ===== src/Memory/Within.antt =====
-- What the steps of `MEMSIM::apply`, bench/cpp/memsim.cpp, do where their indices are in range, and
-- that on a valid memory they are.
use wbsata.Common.{
  ℕ, ◌+◌, ◌-◌, ◌^◌, ◌<◌, ◌≡◌, arith, bit_and, bit_or, u32, Bool, Bool-cases, true, false, inl, inr,
  some,
}
use wbsata.Common.{
  List, ◌++◌, drop, get_or, get_elem?-eq-get_or, set, length, replicate, leb, ◌==◌, if◌then◌else◌,
}
use wbsata.Memory.{
  MemSim, Request, Answer, behind, select_mask, put, store, acknowledge, accept_read, release,
  move_on, answer,
}
use wbsata.Memory.Indices.{IsValid, masked-lt, two_pow_pos}

unfoldable pub stored : Request → MemSim → MemSim
unfolding select_mask
stored r m =
    let dsel = bit_and r.wb_sel 15 in
    let place = bit_and r.wb_addr m.mask in
    if dsel == 15
    then record m { mem = set m.mem place r.wb_data }
    else (let sel = select_mask dsel in
        let memv = bit_and (get_or m.mem place 0) (2 ^ 32 - 1 - sel) in
        record m { mem = set m.mem place (bit_or memv (bit_and r.wb_data sel)) })

unfoldable pub acknowledged : ℕ → MemSim → MemSim
acknowledged place m = record m { fifo_ack = set m.fifo_ack place 1 }

unfoldable pub fetched : Request → MemSim → MemSim
unfolding acknowledged
fetched r m =
    let word = get_or m.mem (bit_and r.wb_addr m.mask) 0 in
    let m1 = acknowledged m.head m in record m1 { fifo_data = set m1.fifo_data m.head word }

unfoldable pub released : MemSim → MemSim
unfolding behind
released m =
    let m1 = record m { head = 0; tail = behind 0 m.delay m.delay_mask } in
    if m.cleared then m1 else record m1 {
      fifo_ack = replicate (m.delay_mask + 1) 0 ++ drop (m.delay_mask + 1) m.fifo_ack;
      cleared = true;
    }

unfoldable pub moved : Bool → MemSim → MemSim
unfolding behind
moved wb_stb m =
    let next = u32 (m.head + 1) in
    let head = bit_and next m.delay_mask in
    record m {
      cleared = if wb_stb then false else m.cleared;
      tail = behind next m.delay m.delay_mask;
      head = head;
      fifo_ack = set m.fifo_ack head 0;
    }

unfoldable pub answer_at : ℕ → ℕ → MemSim → Answer
answer_at random tail m = record {
  o_stall = bit_and random 0x3f == 0;
  o_ack = get_or m.fifo_ack tail 0;
  o_data = some (get_or m.fifo_data tail 0);
}

put_lem : (xs : List ℕ) (i v : ℕ) → i < length xs → put xs i v ≡ some (set xs i v)
unfolding put
put_lem xs i v h = ground arith

pub store_lem : (r : Request) (m : MemSim) → IsValid m → store r m ≡ some (stored r m)
unfolding store stored
store_lem r m h =
    let place = bit_and r.wb_addr m.mask in
    let lt : place < 2 ^ h.mem_bits = rw h.mask (masked-lt h.mem_bits r.wb_addr) in
    let within : place < length m.mem = omega (arith, h.mem) in
    let old = get_elem?-eq-get_or m.mem place 0 within in
    elim (Bool-cases (bit_and r.wb_sel 15 == 15)) [
      | inl all ↦ simp (all, put_lem m.mem place r.wb_data within)
      | inr part ↦ simp (part, old, put_lem m.mem place _ within)
    ]

pub acknowledge_lem :
    (p : ℕ) (m : MemSim) → p < length m.fifo_ack → acknowledge p m ≡ some (acknowledged p m)
unfolding acknowledge acknowledged
acknowledge_lem p m lt = simp (put_lem m.fifo_ack p 1 lt)

pub accept_read_lem : (r : Request) (m : MemSim) → IsValid m → accept_read r m ≡ some (fetched r m)
unfolding accept_read fetched acknowledged
accept_read_lem r m h =
    let place = bit_and r.wb_addr m.mask in
    let lt : place < 2 ^ h.mem_bits = rw h.mask (masked-lt h.mem_bits r.wb_addr) in
    let head = h.head in
    simp (
      put_lem m.fifo_ack m.head 1 (omega (arith, h.fifo_ack)),
      get_elem?-eq-get_or m.mem place 0 (omega (arith, h.mem)),
      put_lem m.fifo_data m.head _ (omega (arith, h.fifo_data)),
    )

pub release_lem : (m : MemSim) → IsValid m → release m ≡ some (released m)
unfolding release released
release_lem m h =
    let pos = two_pow_pos h.fifo_bits in
    let dm = h.delay_mask in
    let acks = h.fifo_ack in
    let fits : leb (m.delay_mask + 1) (length m.fifo_ack) ≡ true = ground arith in
    elim (Bool-cases m.cleared) [ inl clear ↦ simp clear | inr left ↦ simp (left, fits) ]

pub move_on_lem : (stb : Bool) (m : MemSim) → IsValid m → move_on stb m ≡ some (moved stb m)
unfolding move_on moved
move_on_lem stb m h =
    let next = u32 (m.head + 1) in
    let lt : bit_and next m.delay_mask < 2 ^ h.fifo_bits =
      rw h.delay_mask (masked-lt h.fifo_bits next) in
    simp (put_lem m.fifo_ack (bit_and next m.delay_mask) 0 (omega (arith, h.fifo_ack)))

pub answer_lem :
    (random tail : ℕ) (m : MemSim) (h : IsValid m)
    → tail < 2 ^ h.fifo_bits
    → answer random tail m ≡ some (answer_at random tail m)
unfolding answer answer_at
answer_lem random tail m h lt = simp (
  get_elem?-eq-get_or m.fifo_ack tail 0 (omega (arith, h.fifo_ack)),
  get_elem?-eq-get_or m.fifo_data tail 0 (omega (arith, h.fifo_data)),
)
