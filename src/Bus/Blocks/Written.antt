-- ===== src/Bus/Blocks/Written.antt =====
-- A block of words that is written to a core that is a file of registers.
use wbsata.Common.{
  ℕ, zero, suc, ◌+◌, ◌-◌, ◌^◌, ◌<◌, ◌≤◌, ◌≡◌, refl, ap, ◌∙◌, arith, Bool, true, false, ◌||◌, some,
}
use wbsata.Common.{List, [], ◌∷◌, length, ◌==◌, if◌then◌else◌, u32}
use wbsata.Bus.{Master, Bus, WbTb, tick, assert_idle}
use wbsata.Common.{ap₂, ◌⊎◌}
use wbsata.Bus.Registers.{IsRegisterFile}
use wbsata.Bus.Blocks.{
  Writing, wait_and_count, tick_and_count, write_word, write_words, drain, write_block,
}
use wbsata.Bus.Waiting.{or_false}

-- A request at address `a`, of a write or of a read.
pub record IsAsking (we : Bool) (a : ℕ) (m : Master) : Type 0 where
  pub cyc : m.wb_cyc ≡ true
  pub stb : m.wb_stb ≡ true
  pub kind : m.wb_we ≡ we
  pub addr : m.wb_addr ≡ a

-- The registers after the words have been written from address `a` on.
abbrev pub stored_at : ℕ → List ℕ → (ℕ → ℕ) → ℕ → ℕ
stored_at a [] before x = before x
stored_at a (w ∷ ws) before x = stored_at (a + 1) ws (λ y. if y == a then w else before y) x

-- The registers from address `a` on.
abbrev pub words_at : ℕ → ℕ → (ℕ → ℕ) → List ℕ
words_at a zero regs = []
words_at a (suc n) regs = regs a ∷ words_at (a + 1) n regs

stored_below :
    (a : ℕ) (ws : List ℕ) (before : ℕ → ℕ) (x : ℕ) → x < a → stored_at a ws before x ≡ before x
stored_below a [] before x lt = refl
stored_below a (w ∷ ws) before x lt =
    stored_below (a + 1) ws _ x (omega arith)
    ∙ (let apart : (x == a) ≡ false = ground arith in simp apart)

pub stored_apart :
    (a : ℕ) (ws : List ℕ) (before : ℕ → ℕ) (x : ℕ)
    → (x < a) ⊎ (a + length ws ≤ x)
    → stored_at a ws before x ≡ before x
stored_apart a [] before x apart = refl
stored_apart a (w ∷ ws) before x apart =
    let other : (x == a) ≡ false = ground arith in
    stored_apart (a + 1) ws _ x (ground arith) ∙ simp other

pub length-words_at : (a n : ℕ) (regs : ℕ → ℕ) → length (words_at a n regs) ≡ n
length-words_at a zero regs = refl
length-words_at a (suc n) regs = ap suc (length-words_at (a + 1) n regs)

pub words_at-stored_at :
    (a : ℕ) (ws : List ℕ) (before : ℕ → ℕ) → words_at a (length ws) (stored_at a ws before) ≡ ws
words_at-stored_at a [] before = refl
words_at-stored_at a (w ∷ ws) before =
    let here : (a == a) ≡ true = ground arith in
    ap₂ (◌∷◌) (stored_below (a + 1) ws _ a (omega arith) ∙ simp here)
      (words_at-stored_at (a + 1) ws _)

module _ (B : Bus) (regs : B.Core → ℕ → ℕ) (file : IsRegisterFile B regs) where
  write_word_lem :
      (a word : ℕ) (w : Writing B)
      → IsAsking true a w.tb.master
      → a + 1 < 2 ^ 32
      → (t : Writing B) × (write_word B 1 word w ≡ some t)
        × IsAsking true (a + 1) t.tb.master
        × (t.nacks ≡ w.nacks + 1)
        × (t.tb.bomb ≡ w.tb.bomb)
        × ((x : ℕ) → regs t.tb.core x ≡ (if x == a then word else regs w.tb.core x))
  unfolding write_word wait_and_count tick_and_count tick
  write_word_lem a word w ask low =
      let m = record w.tb.master { wb_data = word } in
      let (c, run) = file.ticks m w.tb.core in
      let ready = file.ready w.tb.core in
      let ack : B.wb_ack c ≡ true = file.acks m w.tb.core c run ∙ simp (ask.cyc, ask.stb) in
      let next : u32 (w.tb.master.wb_addr + 1) ≡ a + 1 = omega (arith, ask.addr) in
      (
        record {
          tb = record w.tb { core = c; master = record m { wb_addr = a + 1 } };
          nacks = w.nacks + 1;
        },
        simp (ready, run, ack, next),
        record { cyc = ask.cyc; stb = ask.stb; kind = ask.kind; addr = refl },
        refl,
        refl,
        λ x. file.holds m w.tb.core c x run ∙ simp (ask.cyc, ask.stb, ask.kind, ask.addr),
      )

  write_words_lem :
      (a : ℕ) (words : List ℕ) (w : Writing B)
      → IsAsking true a w.tb.master
      → a + length words < 2 ^ 32
      → (t : Writing B) × (write_words B 1 words w ≡ some t)
        × (t.nacks ≡ w.nacks + length words)
        × (t.tb.bomb ≡ w.tb.bomb)
        × ((x : ℕ) → regs t.tb.core x ≡ stored_at a words (regs w.tb.core) x)
  unfolding write_words
  write_words_lem a [] w ask low = (w, refl, omega arith, refl, λ x. refl)
  write_words_lem a (word ∷ words) w ask low =
      let (u, run, ask', nacks, bomb, is) = write_word_lem a word w ask (omega arith) in
      let (t, rest, all, quiet, are) = write_words_lem (a + 1) words u ask' (omega arith) in
      (
        t,
        simp run rest,
        omega arith,
        quiet ∙ bomb,
        λ x. are x ∙ (λ i. stored_at (a + 1) words (λ y. is y i) x),
      )

  -- On a file of registers, a block write with step 1 returns without alarm, and has left its words
  -- in the registers from its address on and changed no other, where the last address fits 32 bits.
  pub write_block-registers :
      (a : ℕ) (buf : List ℕ) (s : WbTb B)
      → a + length buf < 2 ^ 32
      → (t : WbTb B) × (write_block B a buf 1 s ≡ some t)
        × (t.bomb ≡ s.bomb)
        × ((x : ℕ) → regs t.core x ≡ stored_at a buf (regs s.core) x)
  unfolding write_block drain tick assert_idle
  write_block-registers a buf s low =
      let m = record s.master {
        wb_cyc = true;
        wb_stb = true;
        wb_we = true;
        wb_addr = a;
        wb_sel = 0x0f;
      } in
      let ask : IsAsking true a m = record { cyc = refl; stb = refl; kind = refl; addr = refl } in
      let (w, run, all, bomb, are) =
        write_words_lem a buf (record { tb = record s { master = m }; nacks = 0 }) ask low in
      let need : length buf - w.nacks ≡ 0 = omega arith in
      let released = record w.tb.master { wb_cyc = false; wb_stb = false } in
      let (c, last) = file.ticks released w.tb.core in
      let quiet : (B.wb_ack c || B.wb_stall c) ≡ false =
        simp (file.acks released w.tb.core c last, file.ready c) in
      (
        record { core = c; master = released; bomb = w.tb.bomb || false },
        simp (run, need, last, quiet),
        simp (or_false w.tb.bomb) bomb,
        λ x. file.holds released w.tb.core c x last ∙ are x,
      )
