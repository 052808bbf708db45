-- ===== src/Bus/Registers.antt =====
-- The bus master and a core that is a file of registers.
use wbsata.Common.{ap, ◌∙◌, arith, ◌||◌, ℕ, true, false, some, refl, ◌≡◌, ◌&&◌, ◌==◌, if◌then◌else◌}
use wbsata.Bus.{not, Master, Bus, WbTb, wb_read, wb_write}
use wbsata.Bus.Waiting.{reading, writing, accepted, released, wb_read_lem, wb_write_lem}

-- A core that never stalls, acknowledges each request at the next clock, and answers a read with the
-- register at its address; a write changes that register, and nothing else does.
pub record IsRegisterFile (B : Bus) (regs : B.Core → ℕ → ℕ) : Type 0 where
  pub ticks : (m : Master) (c : B.Core) → (d : B.Core) × (B.tick_clk m c ≡ some d)
  pub ready : (c : B.Core) → B.wb_stall c ≡ false
  pub acks :
      (m : Master) (c d : B.Core) → B.tick_clk m c ≡ some d → B.wb_ack d ≡ (m.wb_cyc && m.wb_stb)
  pub reads :
      (m : Master) (c d : B.Core)
      → B.tick_clk m c ≡ some d
      → (m.wb_cyc && m.wb_stb && not m.wb_we) ≡ true
      → B.wb_word d ≡ regs c m.wb_addr
  pub holds :
      (m : Master) (c d : B.Core) (x : ℕ)
      → B.tick_clk m c ≡ some d
      → regs d x
        ≡ (if m.wb_cyc && m.wb_stb && m.wb_we && x == m.wb_addr then m.wb_data else regs c x)

module _ (B : Bus) (regs : B.Core → ℕ → ℕ) (file : IsRegisterFile B regs) where
  -- On a file of registers, `wb_write` returns without alarm, and has changed the register at its
  -- address to its word and no other.
  pub wb_write-registers :
      (a v : ℕ) (s : WbTb B)
      → (t : WbTb B) × (wb_write B a v s ≡ some t)
        × (t.bomb ≡ s.bomb)
        × ((x : ℕ) → regs t.core x ≡ (if x == a then v else regs s.core x))
  wb_write-registers a v s =
      let (c2, accept) = file.ticks (writing a v) s.core in
      let (c4, more) = file.ticks (accepted (writing a v)) c2 in
      let (c5, last) = file.ticks (released (writing a v)) c4 in
      let quiet : (B.wb_ack c5 || B.wb_stall c5) ≡ false =
        simp (file.acks _ c4 c5 last, file.ready c5) in
      let ack : not (B.wb_ack c2) ≡ false = simp (file.acks _ s.core c2 accept) in
      (
        _,
        wb_write_lem B a v 0 0 s s.core c2 c2 c4 c5 (refl, file.ready s.core) accept (refl, ack)
            more last quiet (omega arith),
        refl,
        λ x.
            file.holds _ c4 c5 x last ∙ file.holds _ c2 c4 x more ∙ file.holds _ s.core c2 x accept,
      )

  -- On a file of registers, `wb_read` returns without alarm the register at its address, and changes
  -- none.
  pub wb_read-registers :
      (a : ℕ) (s : WbTb B)
      → (t : WbTb B) × (wb_read B a s ≡ some (t, regs s.core a))
        × (t.bomb ≡ s.bomb)
        × ((x : ℕ) → regs t.core x ≡ regs s.core x)
  wb_read-registers a s =
      let m = reading a s.master in
      let (c2, accept) = file.ticks m s.core in
      let (c4, last) = file.ticks (released m) c2 in
      let quiet : (B.wb_ack c4 || B.wb_stall c4) ≡ false =
        simp (file.acks _ c2 c4 last, file.ready c4) in
      let ack : not (B.wb_ack c2) ≡ false = simp (file.acks _ s.core c2 accept) in
      let word = file.reads _ s.core c2 accept refl in
      let t : WbTb B = record { core = c4; master = released m; bomb = s.bomb } in
      (
        t,
        wb_read_lem B a 0 0 s s.core c2 c2 c4 (refl, file.ready s.core) accept (refl, ack) last
              quiet (omega arith)
            ∙ ap (λ w. some (t, w)) word,
        refl,
        λ x. file.holds _ c2 c4 x last ∙ file.holds _ s.core c2 x accept,
      )

  -- A word that is written to a file of registers is what a read of the same address then returns, and
  -- a read of another address returns what was there before; neither raises the alarm.
  pub wb_read-wb_write :
      (a v b : ℕ) (s : WbTb B)
      → (t : WbTb B) × (u : WbTb B) × (wb_write B a v s ≡ some t)
        × (wb_read B b t ≡ some (u, if b == a then v else regs s.core b))
        × (u.bomb ≡ s.bomb)
  wb_read-wb_write a v b s =
      let (t, wrote, quiet, are) = wb_write-registers a v s in
      let (u, got, silent, _) = wb_read-registers b t in
      (t, u, wrote, got ∙ ap (λ w. some (u, w)) (are b), silent ∙ quiet)
