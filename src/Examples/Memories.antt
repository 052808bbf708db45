-- ===== src/Examples/Memories.antt =====
-- A memory of four words behind a queue of two.
use wbsata.Common.{◌≤◌, ◌≢◌, arith, ◌≡◌, refl, true, false, some, replicate, bit_and}
use wbsata.Memory.{MemSim, Request, Answer, get, store, apply}
use wbsata.Memory.Indices.{IsValid}
use wbsata.Common.{none, ◌<◌, ◌+◌, ◌-◌, ◌&&◌, leb, ltb, get_or, [], ◌∷◌, if◌then◌else◌}
use wbsata.Common.Bytes.{byte}
use wbsata.Memory.{byte_swap}
use wbsata.Bench.Transfer.{pattern, verify_data}
use wbsata.Bench.Transfer.Verify.{verify_data-pattern}
use wbsata.Common.{ℕ, ◌↔◌, map, ◌++◌, u32}
use wbsata.Memory.Apply.{apply-IsValid}
use wbsata.Memory.Store.{selects, get-store}
use wbsata.Memory.Load.{load_bytes, as_bytes, load_bytes-get}
use wbsata.Memory.Apply.Latency.{apply_all, read_answered}

abbrev pub memory : MemSim
memory = record {
  mem = replicate 4 0;
  len = 4;
  mask = 3;
  head = 1;
  tail = 1;
  delay_mask = 1;
  delay = 2;
  fifo_ack = replicate 2 0;
  fifo_data = replicate 2 0;
  cleared = false;
}

pub memory-IsValid : IsValid memory
memory-IsValid = record {
  mem_bits = 2;
  fifo_bits = 1;
  small_fifo = omega arith;
  len = refl;
  mask = refl;
  delay_mask = refl;
  mem = refl;
  fifo_ack = refl;
  fifo_data = refl;
  head = omega arith;
  tail = omega arith;
  delay = omega arith;
}

abbrev pub write : Request
write = record {
  wb_cyc = true;
  wb_stb = true;
  wb_we = true;
  wb_addr = 5;
  wb_data = 0x01020304;
  wb_sel = 15;
}

apply-IsValid_example :
    (n : MemSim) × (a : Answer) × (apply 1 write memory ≡ some (n, a)) × IsValid n
apply-IsValid_example = apply-IsValid 1 write memory memory-IsValid

abbrev read : Request
read = record write { wb_we = false; wb_addr = 2 }

-- The half word that holds the two upper bytes.
abbrev half : Request
half = record write { wb_sel = 12 }

get-store_example :
    (n : MemSim) × (store half memory ≡ some n)
    × (bit_and 1 3 ≡ bit_and 5 3
        → byte 3 (get 1 n) ≡ (if selects 3 12 then byte 3 0x01020304 else byte 3 (get 1 memory)))
    × (bit_and 1 3 ≢ bit_and 5 3 → get 1 n ≡ get 1 memory)
get-store_example = get-store half memory 1 3 memory-IsValid (omega arith)

load_bytes-get_example :
    (1 + 2 ≤ 4
      → (n : MemSim) × (load_bytes 1 (as_bytes (0x11223344 ∷ 5 ∷ [])) memory ≡ some n)
        × IsValid n
        × (get 2 n ≡ (
            if leb 1 2 && ltb 2 (1 + 2)
            then byte_swap (get_or (0x11223344 ∷ 5 ∷ []) (2 - 1) 0)
            else get 2 memory)))
    × (4 < 1 + 2 → load_bytes 1 (as_bytes (0x11223344 ∷ 5 ∷ [])) memory ≡ none)
load_bytes-get_example =
    load_bytes-get 1 2 (0x11223344 ∷ 5 ∷ []) memory memory-IsValid (omega arith, (omega arith, tt))
      (omega arith)

read_answered_example :
    (m1 : MemSim) × (m2 : MemSim) × (m3 : MemSim) × (a : Answer) × (b : Answer) × (apply 1 read
        memory
      ≡ some (m1, a))
    × (apply_all ((2, write) ∷ []) m1 ≡ some m2)
    × (apply 3 read m2 ≡ some (m3, b))
    × (b.o_ack ≡ 1)
    × (b.o_data ≡ some (get 2 memory))
read_answered_example =
    read_answered 1 3 read read ((2, write) ∷ []) memory memory-IsValid refl refl refl refl
      (refl, tt) refl refl

-- A memory of 256 words.
abbrev wide : MemSim
wide = record memory { mem = replicate 256 0; len = 256; mask = 255 }

wide-IsValid : IsValid wide
wide-IsValid = record {
  mem_bits = 8;
  fifo_bits = 1;
  small_fifo = omega arith;
  len = refl;
  mask = refl;
  delay_mask = refl;
  mem = refl;
  fifo_ack = refl;
  fifo_data = refl;
  head = omega arith;
  tail = omega arith;
  delay = omega arith;
}

-- The pattern of `dma_test` in its first half.
abbrev patterned : MemSim
unfolding pattern byte_swap
patterned = record wide { mem = map byte_swap (pattern 0xA0000000 0 128) ++ replicate 128 0 }

patterned_loaded : load_bytes 0 (as_bytes (pattern 0xA0000000 0 128)) wide ≡ some patterned
unfolding load_bytes pattern as_bytes patterned
patterned_loaded = refl

verify_data-pattern_example :
    (verify_data 0 128 patterned ≡ true)
    ↔ ((k : ℕ) → k < 128 → get (u32 (128 + k)) patterned ≡ byte_swap (u32 (0xA0000000 + k)))
verify_data-pattern_example =
    verify_data-pattern 0xA0000000 0 128 wide patterned patterned wide-IsValid (omega arith)
      (omega arith) patterned_loaded (λ k lt. refl)
