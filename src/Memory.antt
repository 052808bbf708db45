-- ===== src/Memory.antt =====
-- The simulated bus memory: `MEMSIM` of bench/cpp/memsim.h and bench/cpp/memsim.cpp, of one word to
-- a bus word (`NWRDWIDTH` is 1), on a little-endian host. A loop is a recursion on fuel, and `none`
-- is fuel that runs out, or an access outside an array. `operator[]` is the exception: its index is
-- masked, and it gives 0 outside the array.
pub mod Indices
pub mod Within
pub mod Apply
pub mod Load
pub mod Store
use wbsata.Common.{ℕ, zero, suc, ◌+◌, ◌-◌, ◌*◌, ◌/◌, ◌%◌, ◌^◌, bit_and, bit_or, u32}
use wbsata.Common.{Bool, true, false, not, ◌&&◌, Option, none, some, ◌>>=◌}
use wbsata.Common.{
  List, [], ◌∷◌, ◌++◌, drop, get_elem?, length, get_or, set, replicate, ltb, leb, ◌==◌,
  if◌then◌else◌,
}

pub record MemSim : Type 0 where
  pub mem : List ℕ
  pub len : ℕ
  pub mask : ℕ
  pub head : ℕ
  pub tail : ℕ
  pub delay_mask : ℕ
  pub delay : ℕ
  pub fifo_ack : List ℕ
  pub fifo_data : List ℕ
  pub cleared : Bool

-- `for(nxt=1; nxt < n; nxt<<=1) ;`
unfoldable pub next_power : ℕ → ℕ → ℕ → Option ℕ
next_power zero nxt n = none
next_power (suc fuel) nxt n =
    let rest = next_power fuel (u32 (nxt * 2)) n in if ltb nxt n then rest else some nxt

-- `(head - delay) & mask`
unfoldable pub behind : ℕ → ℕ → ℕ → ℕ
behind head delay mask = bit_and (u32 (head + 2 ^ 32 - delay)) mask

unfoldable pub new : ℕ → ℕ → Option MemSim
unfolding next_power behind
new nbytes delay = do
  len ← next_power 33 1 nbytes
  entries ← next_power 33 1 delay
  some (record {
    mem = replicate len 0;
    len = len;
    mask = len - 1;
    head = 0;
    tail = behind 0 delay (entries - 1);
    delay_mask = entries - 1;
    delay = delay;
    fifo_ack = replicate entries 0;
    fifo_data = replicate entries 0;
    cleared = false;
  })

unfoldable pub byte_swap : ℕ → ℕ
byte_swap v =
    bit_or
      (bit_or (bit_or (u32 (bit_and v 0xff * 2 ^ 24)) (u32 (bit_and v 0xff00 * 2 ^ 8)))
        (bit_and v 0xff0000 / 2 ^ 8))
      (bit_and v 0xff000000 / 2 ^ 24)

-- The first `n` words of a buffer.
unfoldable pub byteswapbuf : ℕ → List ℕ → List ℕ
unfolding byte_swap
byteswapbuf zero buf = buf
byteswapbuf (suc n) [] = []
byteswapbuf (suc n) (v ∷ buf) = byte_swap v ∷ byteswapbuf n buf

-- The words that `fread` puts over the first of `mem`, whose number is then `nr`.
unfoldable pub overwrite : List ℕ → List ℕ → List ℕ
overwrite [] mem = mem
overwrite (w ∷ file) [] = []
overwrite (w ∷ file) (m ∷ mem) = w ∷ overwrite file mem

-- The words of `mem` from place `nr` on, 0.
unfoldable pub zero_from : ℕ → List ℕ → List ℕ
zero_from nr [] = []
zero_from zero (m ∷ mem) = 0 ∷ zero_from zero mem
zero_from (suc nr) (m ∷ mem) = m ∷ zero_from nr mem

-- `load(fname)`, where the file holds the words `file`, or does not open.
unfoldable pub load : Option (List ℕ) → MemSim → MemSim
unfolding overwrite byteswapbuf zero_from
load none m = record m { mem = zero_from 0 m.mem }
load (some file) m =
    let nr = if ltb (length file) m.len then length file else m.len in
    record m { mem = zero_from nr (byteswapbuf nr (overwrite file m.mem)) }

unfoldable pub get : ℕ → MemSim → ℕ
get addr m = get_or m.mem (bit_and addr m.mask) 0

-- What the bus gives, in one cycle.
pub record Request : Type 0 where
  pub wb_cyc : Bool
  pub wb_stb : Bool
  pub wb_we : Bool
  pub wb_addr : ℕ
  pub wb_data : ℕ
  pub wb_sel : ℕ

-- What the memory answers. `o_data` is `none` where `o_data` is left as it was.
pub record Answer : Type 0 where
  pub o_stall : Bool
  pub o_ack : ℕ
  pub o_data : Option ℕ

-- `xs[i] = v`
unfoldable pub put : List ℕ → ℕ → ℕ → Option (List ℕ)
put xs i v = if ltb i (length xs) then some (set xs i v) else none

-- Whether an acknowledgment waits between `k` and `head`.
unfoldable pub ack_waits : ℕ → ℕ → MemSim → Option Bool
ack_waits zero k m = none
ack_waits (suc fuel) k m =
    let rest = ack_waits fuel (bit_and (u32 (k + 1)) m.delay_mask) m in
    if k == bit_and m.head m.delay_mask
    then some false
    else (do ack ← get_elem? m.fifo_ack k; if ack == 0 then rest else some true)

unfoldable pub select_mask : ℕ → ℕ
select_mask dsel =
    bit_or
      (bit_or
        (bit_or (if bit_and dsel 8 == 0 then 0 else 0xff000000)
          (if bit_and dsel 4 == 0 then 0 else 0x00ff0000))
        (if bit_and dsel 2 == 0 then 0 else 0x0000ff00))
      (if bit_and dsel 1 == 0 then 0 else 0x000000ff)

unfoldable pub store : Request → MemSim → Option MemSim
unfolding select_mask put
store r m =
    let dsel = bit_and r.wb_sel 15 in
    let place = bit_and r.wb_addr m.mask in
    if dsel == 15
    then (do mem ← put m.mem place r.wb_data; some (record m { mem = mem }))
    else (let sel = select_mask dsel in
        do
          before ← get_elem? m.mem place
          let memv = bit_and before (2 ^ 32 - 1 - sel)
          mem ← put m.mem place (bit_or memv (bit_and r.wb_data sel))
          some (record m { mem = mem }))

unfoldable pub acknowledge : ℕ → MemSim → Option MemSim
unfolding put
acknowledge place m = do ack ← put m.fifo_ack place 1; some (record m { fifo_ack = ack })

unfoldable pub accept_write : Request → ℕ → MemSim → Option MemSim
unfolding ack_waits store acknowledge
accept_write r m_write m = do
  waits ← ack_waits (m.delay_mask + 2) m_write m
  m1 ← if waits then acknowledge m.head m else some m
  ack ← get_elem? m1.fifo_ack m.head
  m2 ← if ack == 0 then acknowledge m_write m1 else some m1
  store r m2

unfoldable pub accept_read : Request → MemSim → Option MemSim
unfolding acknowledge put
accept_read r m = do
  m1 ← acknowledge m.head m
  word ← get_elem? m1.mem (bit_and r.wb_addr m1.mask)
  data_words ← put m1.fifo_data m1.head word
  some (record m1 { fifo_data = data_words })

-- The request that is not stalled.
unfoldable pub accept : Request → ℕ → MemSim → Option MemSim
accept r m_write m = if r.wb_we then accept_write r m_write m else accept_read r m

-- The bus idle: `!wb_cyc`.
unfoldable pub release : MemSim → Option MemSim
unfolding behind
release m =
    let m1 = record m { head = 0; tail = behind 0 m.delay m.delay_mask } in
    let places = m.delay_mask + 1 in
    if m.cleared
    then some m1
    else (if leb places (length m.fifo_ack)
        then some
            (record m1 { fifo_ack = replicate places 0 ++ drop places m.fifo_ack; cleared = true })
        else none)

-- `head` moved on, and its place in the queue cleared.
unfoldable pub move_on : Bool → MemSim → Option MemSim
unfolding behind put
move_on wb_stb m =
    let next = u32 (m.head + 1) in
    let head = bit_and next m.delay_mask in
    do
      ack ← put m.fifo_ack head 0
      some (record m {
        cleared = if wb_stb then false else m.cleared;
        tail = behind next m.delay m.delay_mask;
        head = head;
        fifo_ack = ack;
      })

-- The answer at `tail`, read before the place of `head` is cleared.
unfoldable pub answer : ℕ → ℕ → MemSim → Option Answer
answer random tail m = do
  ack ← get_elem? m.fifo_ack tail
  word ← get_elem? m.fifo_data tail
  some (record { o_stall = bit_and random 0x3f == 0; o_ack = ack; o_data = some word })

-- `apply`, where `rand()` gives `random`.
unfoldable pub apply : ℕ → Request → MemSim → Option (MemSim × Answer)
apply random r m =
    if not r.wb_cyc
    then (do m1 ← release m; some (m1, record { o_stall = false; o_ack = 0; o_data = none }))
    else (do
      m1 ← move_on r.wb_stb m
      a ← answer random m1.tail m
      m2 ←
          if r.wb_stb && not a.o_stall
          then accept r (behind m1.head (m.delay / 2) m.delay_mask) m1
          else some m1
      some (m2, a))
