-- ===== src/Memory/Load.antt =====
-- `load` of a byte buffer into the memory, bench/cpp/memsim.cpp, on a little-endian host.

use wbsata.Common.{
  ◌-◌, ltb, ◌&&◌, ℕ, zero, suc, some, none, Option, List, [], ◌∷◌, ◌++◌, set, get_or, length, leb,
}
use wbsata.Common.{◌+◌, ◌*◌, ◌/◌, ◌%◌, ◌^◌, ◌≤◌, ◌<◌, ◌≡◌, refl, ap, ◌∙◌, arith, if◌then◌else◌}
use wbsata.Common.{length-set, get_or-set_self}
use wbsata.Device.Frame.{AreWords}
use wbsata.Common.{sym, inl, inr, ◌⊎◌, ltb, ◌-◌, ◌&&◌, get_or-set_ne}
use wbsata.Common.{true, false, Bool-cases, bit_and}
use wbsata.Memory.Indices.{IsValid, masked_small}
use wbsata.Memory.{get, MemSim, byteswapbuf, byte_swap}

-- The word with its byte `j` replaced.
unfoldable pub put_byte : ℕ → ℕ → ℕ → ℕ
put_byte zero b w = w / 2 ^ 8 * 2 ^ 8 + b
put_byte (suc zero) b w = w / 2 ^ 16 * 2 ^ 16 + b * 2 ^ 8 + w % 2 ^ 8
put_byte (suc (suc zero)) b w = w / 2 ^ 24 * 2 ^ 24 + b * 2 ^ 16 + w % 2 ^ 16
put_byte (suc (suc (suc j))) b w = b * 2 ^ 24 + w % 2 ^ 24

-- `memcpy`, to the bytes from `p` on.
unfoldable pub memcpy : ℕ → List ℕ → List ℕ → List ℕ
unfolding put_byte
memcpy p [] mem = mem
memcpy p (b ∷ buf) mem =
    memcpy (p + 1) buf (set mem (p / 4) (put_byte (p % 4) b (get_or mem (p / 4) 0)))

-- `byteswapbuf(n, &mem[addr])`
unfoldable pub byteswapbuf_at : ℕ → ℕ → List ℕ → List ℕ
unfolding byteswapbuf
byteswapbuf_at zero n mem = byteswapbuf n mem
byteswapbuf_at (suc addr) n [] = []
byteswapbuf_at (suc addr) n (w ∷ mem) = w ∷ byteswapbuf_at addr n mem

unfoldable pub load_bytes : ℕ → List ℕ → MemSim → Option MemSim
unfolding memcpy byteswapbuf_at
load_bytes addr buf m =
    if leb (4 * addr + length buf) (4 * length m.mem)
    then some
        (record m { mem = byteswapbuf_at addr (length buf / 4) (memcpy (4 * addr) buf m.mem) })
    else none

-- The bytes of a word as they stand in the host's memory.
abbrev pub host_bytes : ℕ → List ℕ
host_bytes w = (w % 2 ^ 8) ∷ (w / 2 ^ 8 % 2 ^ 8) ∷ (w / 2 ^ 16 % 2 ^ 8) ∷ (w / 2 ^ 24 % 2 ^ 8) ∷ []

-- An array of words, seen as `char *`.
unfoldable pub as_bytes : List ℕ → List ℕ
as_bytes [] = []
as_bytes (w ∷ ws) = host_bytes w ++ as_bytes ws

-- The words from place `i` on, written one after the other.
unfoldable pub put_words : ℕ → List ℕ → List ℕ → List ℕ
put_words i [] mem = mem
put_words i (w ∷ ws) mem = put_words (i + 1) ws (set mem i w)

set-set : (xs : List ℕ) (i v w : ℕ) → set (set xs i v) i w ≡ set xs i w
set-set [] i v w = refl
set-set (x ∷ xs) zero v w = refl
set-set (x ∷ xs) (suc i) v w = ap (λ t. x ∷ t) (set-set xs i v w)

length-as_bytes : (ws : List ℕ) → length (as_bytes ws) ≡ 4 * length ws
unfolding as_bytes
length-as_bytes [] = refl
length-as_bytes (w ∷ ws) = omega (arith, length-as_bytes ws)

-- One byte of a word in place.
memcpy_step :
    (p a j b : ℕ) (buf mem : List ℕ)
    → p ≡ 4 * a + j
    → j < 4
    → memcpy p (b ∷ buf) mem ≡ memcpy (p + 1) buf (set mem a (put_byte j b (get_or mem a 0)))
unfolding memcpy
memcpy_step p a j b buf mem e h =
    let q : p / 4 ≡ a = omega arith in let r : p % 4 ≡ j = omega arith in rw (q, r) refl

-- A byte of a word that has been written.
memcpy_over :
    (p a j b x : ℕ) (buf mem : List ℕ)
    → p ≡ 4 * a + j
    → j < 4
    → a < length mem
    → memcpy p (b ∷ buf) (set mem a x) ≡ memcpy (p + 1) buf (set mem a (put_byte j b x))
memcpy_over p a j b x buf mem e h within =
    memcpy_step p a j b buf (set mem a x) e h
    ∙ ap (λ t. memcpy (p + 1) buf (set (set mem a x) a (put_byte j b t)))
        (get_or-set_self mem a x 0 within)
    ∙ ap (memcpy (p + 1) buf) (set-set mem a x (put_byte j b x))

put_bytes :
    (w x : ℕ)
    → w < 2 ^ 32
    → put_byte 3 (w / 2 ^ 24 % 2 ^ 8) (
        put_byte 2 (w / 2 ^ 16 % 2 ^ 8) (put_byte 1 (w / 2 ^ 8 % 2 ^ 8) (put_byte 0 (w % 2 ^ 8) x)))
      ≡ w
unfolding put_byte
put_bytes w x h = omega arith

memcpy_word :
    (a w : ℕ) (buf mem : List ℕ)
    → w < 2 ^ 32
    → a < length mem
    → memcpy (4 * a) (host_bytes w ++ buf) mem ≡ memcpy (4 * (a + 1)) buf (set mem a w)
memcpy_word a w buf mem h within =
    memcpy_step (4 * a) a 0 _ _ mem (omega arith) (omega arith)
    ∙ memcpy_over (4 * a + 1) a 1 _ _ _ mem (omega arith) (omega arith) within
    ∙ memcpy_over (4 * a + 1 + 1) a 2 _ _ _ mem (omega arith) (omega arith) within
    ∙ memcpy_over (4 * a + 1 + 1 + 1) a 3 _ _ buf mem (omega arith) (omega arith) within
    ∙ ap (λ t. memcpy (4 * a + 1 + 1 + 1 + 1) buf (set mem a t)) (put_bytes w (get_or mem a 0) h)
    ∙ ap (λ t. memcpy t buf (set mem a w)) {x = 4 * a + 1 + 1 + 1 + 1} {y = 4 * (a + 1)}
        (omega arith)

memcpy_words :
    (ws : List ℕ) (a : ℕ) (mem : List ℕ)
    → AreWords ws
    → a + length ws ≤ length mem
    → memcpy (4 * a) (as_bytes ws) mem ≡ put_words a ws mem
unfolding as_bytes put_words memcpy
memcpy_words [] a mem h room = refl
memcpy_words (w ∷ ws) a mem h room =
    memcpy_word a w (as_bytes ws) mem h.0 (omega arith)
    ∙ memcpy_words ws (a + 1) (set mem a w) h.1 (omega (arith, length-set mem a w))

pub length-put_words :
    (ws : List ℕ) (i : ℕ) (mem : List ℕ) → length (put_words i ws mem) ≡ length mem
unfolding put_words
length-put_words [] i mem = refl
length-put_words (w ∷ ws) i mem = length-put_words ws (i + 1) (set mem i w) ∙ length-set mem i w

Nat-cases : (i j : ℕ) → (i ≡ j) ⊎ (j < i) ⊎ (i < j)
Nat-cases i j = ground arith

pub get_or-put_words :
    (ws : List ℕ) (i j : ℕ) (mem : List ℕ)
    → i + length ws ≤ length mem
    → get_or (put_words i ws mem) j 0
      ≡ (if leb i j && ltb j (i + length ws) then get_or ws (j - i) 0 else get_or mem j 0)
unfolding put_words
get_or-put_words [] i j mem room = ground arith
get_or-put_words (w ∷ ws) i j mem room =
    let later = get_or-put_words ws (i + 1) j (set mem i w) (omega (arith, length-set mem i w)) in
    elim (Nat-cases i j) [
      | inl here ↦
          let at : get_or (set mem i w) j 0 ≡ w =
            rw (← here) (get_or-set_self mem i w 0 (omega arith)) in
          let start : j - i ≡ 0 = omega arith in later ∙ rw start (ground (arith, at))
      | inr (inl before) ↦ later ∙ ground (arith, get_or-set_ne mem i j w 0)
      | inr (inr after) ↦
          let rest : j - i ≡ suc (j - (i + 1)) = omega arith in
          later ∙ rw rest (ground (arith, get_or-set_ne mem i j w 0))
    ]

get_or-byteswapbuf :
    (n j : ℕ) (mem : List ℕ)
    → n ≤ length mem
    → get_or (byteswapbuf n mem) j 0
      ≡ (if ltb j n then byte_swap (get_or mem j 0) else get_or mem j 0)
unfolding byteswapbuf
get_or-byteswapbuf zero j mem h = ground arith
get_or-byteswapbuf (suc n) j [] h = absurd (omega arith)
get_or-byteswapbuf (suc n) zero (w ∷ mem) h = ground arith
get_or-byteswapbuf (suc n) (suc j) (w ∷ mem) h = ground (arith, get_or-byteswapbuf n j mem)

pub get_or-byteswapbuf_at :
    (addr n j : ℕ) (mem : List ℕ)
    → addr + n ≤ length mem
    → get_or (byteswapbuf_at addr n mem) j 0
      ≡ (if leb addr j && ltb j (addr + n) then byte_swap (get_or mem j 0) else get_or mem j 0)
unfolding byteswapbuf_at
get_or-byteswapbuf_at zero n j mem h = ground (arith, get_or-byteswapbuf n j mem)
get_or-byteswapbuf_at (suc addr) n j [] h = absurd (omega arith)
get_or-byteswapbuf_at (suc addr) n zero (w ∷ mem) h = ground arith
get_or-byteswapbuf_at (suc addr) n (suc j) (w ∷ mem) h =
    ground (arith, get_or-byteswapbuf_at addr n j mem)

length-byteswapbuf : (n : ℕ) (mem : List ℕ) → length (byteswapbuf n mem) ≡ length mem
unfolding byteswapbuf
length-byteswapbuf zero mem = refl
length-byteswapbuf (suc n) [] = refl
length-byteswapbuf (suc n) (w ∷ mem) = ap suc (length-byteswapbuf n mem)

length-byteswapbuf_at :
    (addr n : ℕ) (mem : List ℕ) → length (byteswapbuf_at addr n mem) ≡ length mem
unfolding byteswapbuf_at
length-byteswapbuf_at zero n mem = length-byteswapbuf n mem
length-byteswapbuf_at (suc addr) n [] = refl
length-byteswapbuf_at (suc addr) n (w ∷ mem) = ap suc (length-byteswapbuf_at addr n mem)

-- The memory after a load of words.
abbrev pub loaded : ℕ → List ℕ → List ℕ → List ℕ
loaded addr ws mem = byteswapbuf_at addr (length ws) (put_words addr ws mem)

pub length-loaded : (addr : ℕ) (ws mem : List ℕ) → length (loaded addr ws mem) ≡ length mem
length-loaded addr ws mem =
    length-byteswapbuf_at addr (length ws) (put_words addr ws mem) ∙ length-put_words ws addr mem

get_or-loaded :
    (addr a : ℕ) (ws mem : List ℕ)
    → addr + length ws ≤ length mem
    → get_or (loaded addr ws mem) a 0 ≡ (
        if leb addr a && ltb a (addr + length ws)
        then byte_swap (get_or ws (a - addr) 0)
        else get_or mem a 0)
get_or-loaded addr a ws mem room =
    let put = get_or-put_words ws addr a mem room in
    let all = length-put_words ws addr mem in
    let swapped =
      get_or-byteswapbuf_at addr (length ws) a (put_words addr ws mem) (omega (arith, all)) in
    elim (Bool-cases (leb addr a && ltb a (addr + length ws))) [
      | inl here ↦ swapped ∙ simp (here, put)
      | inr apart ↦ swapped ∙ simp (apart, put)
    ]

pub load_bytes_fits :
    (addr : ℕ) (ws : List ℕ) (m : MemSim)
    → AreWords ws
    → addr + length ws ≤ length m.mem
    → load_bytes addr (as_bytes ws) m ≡ some (record m { mem = loaded addr ws m.mem })
unfolding load_bytes
load_bytes_fits addr ws m words room =
    let bytes = length-as_bytes ws in
    let count : length (as_bytes ws) / 4 ≡ length ws = omega arith in
    let fits : leb (4 * addr + length (as_bytes ws)) (4 * length m.mem) ≡ true = ground arith in
    simp (fits, count, memcpy_words ws addr m.mem words room)

pub same_sizes :
    (m : MemSim) (mem : List ℕ)
    → IsValid m
    → length mem ≡ length m.mem
    → IsValid (record m { mem = mem })
same_sizes m mem h e = record {
  mem_bits = h.mem_bits;
  fifo_bits = h.fifo_bits;
  small_fifo = h.small_fifo;
  len = h.len;
  mask = h.mask;
  delay_mask = h.delay_mask;
  mem = e ∙ h.mem;
  fifo_ack = h.fifo_ack;
  fifo_data = h.fifo_data;
  head = h.head;
  tail = h.tail;
  delay = h.delay;
}

-- A buffer of 32-bit words, loaded as bytes, stands in the memory from its address on, each word in
-- the other byte order; the other words stay. A buffer that does not fit is written out of bounds.
pub load_bytes-get :
    (addr a : ℕ) (ws : List ℕ) (m : MemSim)
    → IsValid m
    → AreWords ws
    → a < m.len
    → (addr + length ws ≤ m.len
        → (n : MemSim) × (load_bytes addr (as_bytes ws) m ≡ some n)
          × IsValid n
          × (get a n ≡ (
              if leb addr a && ltb a (addr + length ws)
              then byte_swap (get_or ws (a - addr) 0)
              else get a m)))
      × (m.len < addr + length ws → load_bytes addr (as_bytes ws) m ≡ none)
unfolding load_bytes get
load_bytes-get addr a ws m h words within =
    let whole : length m.mem ≡ m.len = h.mem ∙ sym h.len in
    let index : bit_and a m.mask ≡ a =
      rw h.mask (masked_small h.mem_bits a (omega (arith, h.len))) in
    (
      λ fits.
          let room : addr + length ws ≤ length m.mem = omega arith in
          (
            record m { mem = loaded addr ws m.mem },
            load_bytes_fits addr ws m words room,
            same_sizes m (loaded addr ws m.mem) h (length-loaded addr ws m.mem),
            rw index (get_or-loaded addr a ws m.mem room),
          ),
      λ beyond.
          let bytes = length-as_bytes ws in
          let out : leb (4 * addr + length (as_bytes ws)) (4 * length m.mem) ≡ false =
            ground arith in
          simp out,
    )
