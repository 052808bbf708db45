-- ===== src/Bus/Blocks/Registers.antt =====
-- Blocks of words on a core that is a file of registers.
use wbsata.Common.{
  ℕ, zero, suc, ◌+◌, ◌-◌, ◌*◌, ◌^◌, ◌<◌, ◌≤◌, ◌≡◌, refl, ap, ◌∙◌, arith, true, false, some,
}
use wbsata.Common.{List, ◌∷◌, ◌++◌, length, set, drop, length-set, ltb, leb, u32}
use wbsata.Device.Frame.Store.{sets, sets-zero}
use wbsata.Bus.{Bus, WbTb, bombcount, tick, wait_while}
use wbsata.Common.{◌⊎◌}
use wbsata.Bus.Registers.{IsRegisterFile}
use wbsata.Bus.Blocks.{
  Reading, accepts, take_word, request, request_all, collect, finish_read, read_block, write_block,
}
use wbsata.Bus.Waiting.{or_false}
use wbsata.Bus.Blocks.Written.{
  IsAsking, words_at, stored_apart, length-words_at, words_at-stored_at, write_block-registers,
}

module _ (B : Bus) (regs : B.Core → ℕ → ℕ) (file : IsRegisterFile B regs) where
  request_lem :
      (a : ℕ) (r : Reading B)
      → IsAsking false a r.tb.master
      → a + 1 < 2 ^ 32
      → r.rdidx < length r.buf
      → (t : Reading B) × (request B 1 r ≡ some t)
        × IsAsking false (a + 1) t.tb.master
        × (t.buf ≡ set r.buf r.rdidx (regs r.tb.core a))
        × (t.rdidx ≡ r.rdidx + 1)
        × (t.tb.bomb ≡ r.tb.bomb)
        × (B.wb_ack t.tb.core ≡ true)
        × ((x : ℕ) → regs t.tb.core x ≡ regs r.tb.core x)
  unfolding request tick take_word accepts
  request_lem a r ask low space =
      let (c, run) = file.ticks r.tb.master r.tb.core in
      let ready = file.ready r.tb.core in
      let ack : B.wb_ack c ≡ true =
        file.acks r.tb.master r.tb.core c run ∙ simp (ask.cyc, ask.stb) in
      let word : B.wb_word c ≡ regs r.tb.core a =
        file.reads r.tb.master r.tb.core c run (simp (ask.cyc, ask.stb, ask.kind))
        ∙ ap (regs r.tb.core) ask.addr in
      let next : u32 (r.tb.master.wb_addr + 1) ≡ a + 1 = omega (arith, ask.addr) in
      let room : ltb r.rdidx (length r.buf) ≡ true = ground arith in
      (
        record {
          tb = record r.tb { core = c; master = record r.tb.master { wb_addr = a + 1 } };
          buf = set r.buf r.rdidx (regs r.tb.core a);
          rdidx = r.rdidx + 1;
        },
        simp (ready, run, ack, next, room, word),
        record { cyc = ask.cyc; stb = ask.stb; kind = ask.kind; addr = refl },
        refl,
        refl,
        refl,
        ack,
        λ x. file.holds r.tb.master r.tb.core c x run ∙ simp (ask.cyc, ask.stb, ask.kind),
      )

  -- What a run of requests leaves: the registers in the buffer.
  record IsRead (a n : ℕ) (r t : Reading B) : Type 0 where
    buf : t.buf ≡ sets r.rdidx (words_at a n (regs r.tb.core)) r.buf
    count : t.rdidx ≡ r.rdidx + n
    bomb : t.tb.bomb ≡ r.tb.bomb
    ack : B.wb_ack t.tb.core ≡ true
    keeps : (x : ℕ) → regs t.tb.core x ≡ regs r.tb.core x

  request_all_stops :
      (left errcount cnt len : ℕ) (r t : Reading B)
      → request B 1 r ≡ some t
      → ltb (cnt + accepts B r.tb) len ≡ false
      → request_all B 1 len left errcount cnt r ≡ some (t, errcount)
  unfolding request_all
  request_all_stops zero errcount cnt len r t run over = simp (run, over)
  request_all_stops (suc left) errcount cnt len r t run over = simp (run, over)

  request_all_lem :
      (n left errcount cnt len a : ℕ) (r : Reading B)
      → IsAsking false a r.tb.master
      → len ≡ cnt + suc n
      → n ≤ left
      → a + suc n < 2 ^ 32
      → r.rdidx + suc n ≤ length r.buf
      → (t : Reading B) × (request_all B 1 len left errcount cnt r ≡ some (t, errcount + n))
        × IsRead a (suc n) r t
  unfolding request_all accepts sets
  request_all_lem zero left errcount cnt len a r ask size few low space =
      let (t, run, _, buf, count, bomb, ack, keeps) = request_lem a r ask low (omega arith) in
      let ready = file.ready r.tb.core in
      let over : ltb (cnt + 1) len ≡ false = ground arith in
      let same : errcount ≡ errcount + 0 = omega arith in
      (
        t,
        request_all_stops left errcount cnt len r t run (simp (ready, over))
            ∙ ap (λ k. some (t, k)) same,
        record { buf = buf; count = count; bomb = bomb; ack = ack; keeps = keeps },
      )
  request_all_lem (suc n) zero errcount cnt len a r ask size few low space = absurd (omega arith)
  request_all_lem (suc n) (suc left) errcount cnt len a r ask size few low space =
      let (u, run, ask', buf, count, bomb, ack, keeps) =
        request_lem a r ask (omega arith) (omega arith) in
      let long : length u.buf ≡ length r.buf = ap length buf ∙ length-set r.buf r.rdidx _ in
      let (t, rest, is) =
        request_all_lem n left (errcount + 1) (cnt + 1) len (a + 1) u ask' (omega arith)
          (omega arith) (omega arith) (omega arith) in
      let ready = file.ready r.tb.core in
      let more : ltb (cnt + 1) len ≡ true = ground arith in
      let next : r.rdidx + 1 ≡ suc r.rdidx = omega arith in
      let total : errcount + 1 + n ≡ errcount + suc n = omega arith in
      (
        t,
        simp (ready, run, more) (rest ∙ ap (λ k. some (t, k)) total),
        record {
          buf =
              is.buf
              ∙ (λ i. sets (count i) (words_at (a + 1) (suc n) (λ x. keeps x i)) (buf i))
              ∙ ap
                  (λ i.
                    sets i (words_at (a + 1) (suc n) (regs r.tb.core))
                      (set r.buf r.rdidx (regs r.tb.core a)))
                  next;
          count = omega (arith, is.count, count);
          bomb = is.bomb ∙ bomb;
          ack = is.ack;
          keeps = λ x. is.keeps x ∙ keeps x;
        },
      )

  collect_stops :
      (len left errcount : ℕ) (r : Reading B)
      → ltb r.rdidx len ≡ false
      → collect B len left errcount r ≡ some (r, errcount)
  unfolding collect
  collect_stops len zero errcount r over = simp over
  collect_stops len (suc left) errcount r over = simp over

  finish_read_lem :
      (limit errcount : ℕ) (r : Reading B)
      → errcount < limit
      → B.wb_ack r.tb.core ≡ true
      → (t : WbTb B) × (finish_read B limit (r, errcount) ≡ some (t, r.buf))
        × (t.bomb ≡ r.tb.bomb)
        × ((x : ℕ) → regs t.core x ≡ regs r.tb.core x)
  unfolding finish_read tick
  finish_read_lem limit errcount r lt ack =
      let released = record r.tb.master { wb_cyc = false } in
      let (c, last) = file.ticks released r.tb.core in
      let quiet : B.wb_ack c ≡ false = file.acks released r.tb.core c last in
      let in_time : leb limit errcount ≡ false = ground arith in
      (
        record { core = c; master = released; bomb = r.tb.bomb },
        simp (last, quiet, in_time, ack, or_false r.tb.bomb),
        refl,
        λ x. file.holds released r.tb.core c x last,
      )

  -- On a file of registers, a block read of one word or more, with step 1, returns without alarm the
  -- registers from its address on, at the start of the buffer, and changes none of them.
  read_block-registers :
      (a n : ℕ) (buf : List ℕ) (s : WbTb B)
      → a + suc n < 2 ^ 32
      → suc n ≤ length buf
      → (t : WbTb B) × (read_block B a (suc n) buf 1 s
          ≡ some (t, words_at a (suc n) (regs s.core) ++ drop (suc n) buf))
        × (t.bomb ≡ s.bomb)
        × ((x : ℕ) → regs t.core x ≡ regs s.core x)
  unfolding read_block wait_while
  read_block-registers a n buf s low space =
      let idle = record s.master { wb_cyc = false; wb_stb = false } in
      let asking = record idle { wb_cyc = true; wb_stb = true; wb_we = false; wb_addr = a } in
      let r : Reading B = record { tb = record s { master = asking }; buf = buf; rdidx = 0 } in
      let ask : IsAsking false a asking = record {
        cyc = refl;
        stb = refl;
        kind = refl;
        addr = refl;
      } in
      let (r1, run, is) =
        request_all_lem n (bombcount * suc n) 0 0 (suc n) a r ask (omega arith) (omega arith) low
          (omega arith) in
      let from_zero : 0 + n ≡ n = omega arith in
      let r2 : Reading B = record r1 {
        tb = record r1.tb { master = record r1.tb.master { wb_stb = false } };
      } in
      let full : ltb r1.rdidx (suc n) ≡ false = let count = is.count in ground arith in
      let collected = collect_stops (suc n) (bombcount * suc n - n) n r2 full in
      let (t, done, bomb, keeps) = finish_read_lem (bombcount * suc n) n r2 (omega arith) is.ack in
      let size = length-words_at a (suc n) (regs s.core) in
      let words : r1.buf ≡ words_at a (suc n) (regs s.core) ++ drop (suc n) buf =
        is.buf
        ∙ sets-zero (words_at a (suc n) (regs s.core)) buf (omega arith)
        ∙ ap (λ k. words_at a (suc n) (regs s.core) ++ drop k buf) size in
      (
        t,
        simp (file.ready s.core, run, from_zero, collected, done) (ap (λ b. some (t, b)) words),
        bomb ∙ is.bomb,
        λ x. keeps x ∙ is.keeps x,
      )

  -- A block of words that is written to a file of registers with step 1 is read back from the same
  -- address, without alarm in either, where it has a word, the last address fits 32 bits and the
  -- reader's buffer has room for it; the words beyond it in that buffer stay, and so does every
  -- register outside the block.
  pub read_block-write_block :
      (a word : ℕ) (words buf : List ℕ) (s : WbTb B)
      → a + length (word ∷ words) < 2 ^ 32
      → length (word ∷ words) ≤ length buf
      → (t : WbTb B) × (u : WbTb B) × (write_block B a (word ∷ words) 1 s ≡ some t)
        × (read_block B a (length (word ∷ words)) buf 1 t
            ≡ some (u, (word ∷ words) ++ drop (length (word ∷ words)) buf))
        × (u.bomb ≡ s.bomb)
        × ((x : ℕ) → (x < a) ⊎ (a + length (word ∷ words) ≤ x) → regs u.core x ≡ regs s.core x)
  read_block-write_block a word words buf s low space =
      let (t, wrote, quiet, are) = write_block-registers B regs file a (word ∷ words) s low in
      let (u, got, silent, keeps) = read_block-registers a (length words) buf t low space in
      let back : words_at a (length (word ∷ words)) (regs t.core) ≡ word ∷ words =
        (λ i. words_at a (length (word ∷ words)) (λ x. are x i))
        ∙ words_at-stored_at a (word ∷ words) (regs s.core) in
      (
        t,
        u,
        wrote,
        got ∙ ap (λ ws. some (u, ws ++ drop (length (word ∷ words)) buf)) back,
        silent ∙ quiet,
        λ x apart. keeps x ∙ are x ∙ stored_apart a (word ∷ words) (regs s.core) x apart,
      )
