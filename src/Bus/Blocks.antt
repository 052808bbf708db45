-- ===== src/Bus/Blocks.antt =====
-- The block forms of `wb_read` and `wb_write`, bench/cpp/wb_tb.h. A length is not negative, and short
-- enough for 32 times it to be an `int`.
pub mod Written
pub mod Registers
use wbsata.Common.{
  ℕ, zero, suc, ◌+◌, ◌-◌, ◌*◌, bit_and, u32, Bool, true, false, not, ◌||◌, Option, none, some,
  ◌>>=◌,
}
use wbsata.Common.{List, [], ◌∷◌, length, set, ltb, leb, if◌then◌else◌}
use wbsata.Bus.{Master, Bus, WbTb, bombcount, tick, wait_while, assert_idle}

module _ (B : Bus) where
  open B use {Core, wb_stall, wb_ack, wb_word, tick_clk}

  -- A block read under way.
  pub record Reading : Type 0 where
    pub tb : WbTb B
    pub buf : List ℕ
    pub rdidx : ℕ

  -- `if (o_wb_ack) buf[rdidx++] = o_wb_data;`; `none` is a write past the buffer.
  unfoldable pub take_word : Reading → Option Reading
  take_word r =
      if wb_ack r.tb.core
      then (if ltb r.rdidx (length r.buf)
          then some (record r { buf = set r.buf r.rdidx (wb_word r.tb.core); rdidx = r.rdidx + 1 })
          else none)
      else some r

  unfoldable pub tick_and_take : Reading → Option Reading
  unfolding tick take_word
  tick_and_take r = do tb ← tick B r.tb; take_word (record r { tb = tb })

  -- `s^1`: whether a request is accepted.
  unfoldable pub accepts : WbTb B → ℕ
  accepts s = if wb_stall s.core then 0 else 1

  -- One request: the address moves on by the bits of `inc` below 2, where it is accepted.
  unfoldable pub request : ℕ → Reading → Option Reading
  unfolding tick take_word accepts
  request inc r = do
    tb ← tick B r.tb
    let addr = u32 (tb.master.wb_addr + bit_and inc (accepts r.tb))
    take_word (record r { tb = record tb { master = record tb.master { wb_addr = addr } } })

  -- The loop of requests, with `left` rounds before its limit, `cnt` requests accepted of `len`; and
  -- the error counter after it.
  unfoldable pub request_all : ℕ → ℕ → ℕ → ℕ → ℕ → Reading → Option (Reading × ℕ)
  request_all inc len zero errcount cnt r = do
    r' ← request inc r
    some (r', if ltb (cnt + accepts r.tb) len then errcount + 1 else errcount)
  request_all inc len (suc left) errcount cnt r = do
    r' ← request inc r
    let more = request_all inc len left (errcount + 1) (cnt + accepts r.tb) r'
    if ltb (cnt + accepts r.tb) len then more else some (r', errcount)

  -- The loop that waits for the words that are left.
  unfoldable pub collect : ℕ → ℕ → ℕ → Reading → Option (Reading × ℕ)
  unfolding tick_and_take
  collect len zero errcount r = some (r, if ltb r.rdidx len then errcount + 1 else errcount)
  collect len (suc left) errcount r =
      let more = tick_and_take r >>= collect len left (errcount + 1) in
      if ltb r.rdidx len then more else some (r, errcount)

  abbrev pub with_master : Master → WbTb B → WbTb B
  with_master m s = record s { master = m }

  -- The end of a block read.
  unfoldable pub finish_read : ℕ → Reading × ℕ → Option (WbTb B × List ℕ)
  unfolding tick
  finish_read limit (r, errcount) = do
    let failed = leb limit errcount || not (wb_ack r.tb.core)
    let released = record r.tb.master { wb_cyc = false }
    s ← tick B (record r.tb { master = released; bomb = r.tb.bomb || failed })
    if wb_ack s.core then none else some (s, r.buf)

  unfoldable pub read_block : ℕ → ℕ → List ℕ → ℕ → WbTb B → Option (WbTb B × List ℕ)
  read_block a len buf inc s0 = do
    let idle = record s0.master { wb_cyc = false; wb_stb = false }
    (s1, waited) ← wait_while B wb_stall bombcount 0 (with_master idle s0)
    let limit = bombcount * len
    let asking = record idle { wb_cyc = true; wb_stb = true; wb_we = false; wb_addr = a }
    if leb bombcount waited then some (record s1 { bomb = true }, buf) else (do
      (r1, asked) ←
          request_all inc len limit 0 0
            (record { tb = with_master asking s1; buf = buf; rdidx = 0 })
      let heard = record r1.tb.master { wb_stb = false }
      end ← collect len (limit - asked) asked (record r1 { tb = with_master heard r1.tb })
      finish_read limit end)

  -- A block write under way, with its acknowledgments.
  pub record Writing : Type 0 where
    pub tb : WbTb B
    pub nacks : ℕ

  unfoldable pub tick_and_count : Writing → Option Writing
  unfolding tick
  tick_and_count w = do
    tb ← tick B w.tb
    some (record { tb = tb; nacks = if wb_ack tb.core then w.nacks + 1 else w.nacks })

  -- The wait of a word that is stalled; the counter after it is not read.
  unfoldable pub wait_and_count : ℕ → Writing → Option Writing
  unfolding tick_and_count
  wait_and_count zero w = some w
  wait_and_count (suc left) w =
      let more = tick_and_count w >>= wait_and_count left in
      if wb_stall w.tb.core then more else some w

  unfoldable pub write_word : ℕ → ℕ → Writing → Option Writing
  unfolding wait_and_count tick_and_count
  write_word inc word w0 = do
    let offered = record w0.tb.master { wb_data = word }
    w1 ← wait_and_count bombcount (record w0 { tb = with_master offered w0.tb })
    w2 ← tick_and_count w1
    let moved = record w2.tb.master { wb_addr = u32 (w2.tb.master.wb_addr + inc) }
    some (record w2 { tb = with_master moved w2.tb })

  unfoldable pub write_words : ℕ → List ℕ → Writing → Option Writing
  unfolding write_word
  write_words inc [] w = some w
  write_words inc (word ∷ words) w = do w' ← write_word inc word w; write_words inc words w'

  -- The loop that waits for `need` more acknowledgments; each starts its counter again.
  unfoldable pub drain : ℕ → ℕ → ℕ → WbTb B → Option (WbTb B × ℕ)
  unfolding tick
  drain zero left errcount s = some (s, errcount)
  drain (suc need) zero errcount s = some (s, errcount + 1)
  drain (suc need) (suc left) errcount s = do
    s' ← tick B s
    let fewer = drain need bombcount 0 s'
    let longer = drain (suc need) left (errcount + 1) s'
    if wb_ack s'.core then fewer else longer

  -- The block is the `ln` words of `buf`.
  unfoldable pub write_block : ℕ → List ℕ → ℕ → WbTb B → Option (WbTb B)
  unfolding write_words drain tick assert_idle
  write_block a buf inc s0 = do
    let writing = record s0.master {
      wb_cyc = true;
      wb_stb = true;
      wb_we = true;
      wb_addr = a;
      wb_sel = 0x0f;
    }
    w ← write_words inc buf (record { tb = with_master writing s0; nacks = 0 })
    let offered = record w.tb.master { wb_stb = false }
    (s1, errcount) ← drain (length buf - w.nacks) bombcount 0 (with_master offered w.tb)
    let released = record s1.master { wb_cyc = false; wb_stb = false }
    s2 ← tick B (record s1 { master = released; bomb = s1.bomb || leb bombcount errcount })
    assert_idle B s2
