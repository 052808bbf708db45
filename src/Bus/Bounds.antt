-- ===== src/Bus/Bounds.antt =====
-- How many clocks the bus master takes, whatever its core does.
use wbsata.Common.{
  ◌-◌, ◌∙◌, Bool-cases, ◌||◌, ◌<◌, ap, ◌⊎◌, arith, ◌≤◌, ◌+◌, ◌≡◌, zero, suc, true, false, inl, inr,
  some, none, refl,
}
use wbsata.Bus.{
  leb, not, ℕ, Bool, Master, Bus, WbTb, bombcount, tick, wait_while, wait_for_stall, wait_for_ack,
  assert_idle, wb_read,
}
use wbsata.Bus.Waiting.{reading, accepted, released}

-- From one state of the core to another in a number of clocks, whatever the inputs.
abbrev pub Ticks : (B : Bus) → ℕ → B.Core → B.Core → Type 0
Ticks B zero c d = d ≡ c
Ticks B (suc n) c d = (m : Master) × (e : B.Core) × (B.tick_clk m c ≡ some e) × Ticks B n e d

module _ (B : Bus) where
  open B use {Core, wb_stall, wb_ack, wb_word, tick_clk}

  -- `TICK` returns, and passes its assertions.
  abbrev pub IsTotal : Type 0
  IsTotal = (m : Master) (c : Core) → (d : Core) × (tick_clk m c ≡ some d)

  Ticks-add : (n k : ℕ) (c d e : Core) → Ticks B n c d → Ticks B k d e → Ticks B (n + k) c e
  Ticks-add zero k c d e p q = let e : 0 + k ≡ k = omega arith in rw (e, ← p) q
  Ticks-add (suc n) k c d e (m, f, run, p) q =
      let count : suc n + k ≡ suc (n + k) = omega arith in
      rw count (m, f, run, Ticks-add n k f d e p q)

  -- A loop that waits ends in the same inputs, with its counter one past the clocks it has taken; and
  -- it has taken them all unless its test has come to fail.
  record IsWaited (test : Core → Bool) (left errcount n : ℕ) (s t : WbTb B) : Type 0 where
    run : Ticks B n s.core t.core
    most : n ≤ left
    inputs : t.master ≡ s.master
    alarm : t.bomb ≡ s.bomb
    ends : (test t.core ≡ false) ⊎ (n ≡ left)

  wait_while-IsWaited :
      (test : Core → Bool) (left errcount : ℕ) (s : WbTb B)
      → IsTotal
      → (t : WbTb B) × (n : ℕ) × (wait_while B test left errcount s ≡ some (t, errcount + n + 1))
        × IsWaited test left errcount n s t
  unfolding wait_while tick
  wait_while-IsWaited test zero errcount s total = (
    s,
    0,
    (let e : errcount + 1 ≡ errcount + 0 + 1 = omega arith in ap (λ t. some (s, t)) e),
    record { run = refl; most = omega arith; inputs = refl; alarm = refl; ends = inr refl },
  )
  wait_while-IsWaited test (suc left) errcount s total = elim (Bool-cases (test s.core)) [
    | inr stop ↦ (
      s,
      0,
      (let e : errcount + 1 ≡ errcount + 0 + 1 = omega arith in
          simp stop (ap (λ t. some (s, t)) e)),
      record { run = refl; most = omega arith; inputs = refl; alarm = refl; ends = inl stop },
    )
    | inl go ↦
        let (c, ticked) = total s.master s.core in
        let (t, n, e, w) =
          wait_while-IsWaited test left (errcount + 1) (record s { core = c }) total in
        let count : errcount + 1 + n + 1 ≡ errcount + suc n + 1 = omega arith in
        (
          t,
          suc n,
          simp (go, ticked) (e ∙ ap (λ k. some (t, k)) count),
          record {
            run = (s.master, c, ticked, w.run);
            most = let le = w.most in omega arith;
            inputs = w.inputs;
            alarm = w.alarm;
            ends = elim w.ends [ inl stop ↦ inl stop | inr all ↦ inr (ap suc all) ];
          },
        )
  ]

  wait_for_stall-IsWaited :
      (s : WbTb B)
      → IsTotal
      → (t : WbTb B) × (n : ℕ) × (e : ℕ) × (wait_for_stall B s ≡ some (t, e))
        × IsWaited wb_stall bombcount 0 n s t
        × (e ≤ n + 1)
        × (n ≤ e)
        × ((n < e) ⊎ (n ≡ 0))
  unfolding wait_for_stall
  wait_for_stall-IsWaited s total = elim (Bool-cases (wb_stall s.core)) [
    | inr ready ↦ (
      s,
      0,
      0,
      simp ready,
      record { run = refl; most = omega arith; inputs = refl; alarm = refl; ends = inl ready },
      omega arith,
      omega arith,
      inr refl,
    )
    | inl stalled ↦
        let (t, n, e, w) = wait_while-IsWaited wb_stall bombcount 0 s total in
        (t, n, 0 + n + 1, simp stalled e, w, omega arith, omega arith, inl (omega arith))
  ]

  -- Where `TICK` returns, whatever the core answers, `wb_read` takes at most 34 clocks. It then fails
  -- its last assertion, where the core acknowledges or stalls in the end, or returns; and a core that
  -- never acknowledges leaves it with its alarm raised.
  pub wb_read_bounded :
      (a : ℕ) (s : WbTb B)
      → IsTotal
      → (n : ℕ) × (c : Core) × (n ≤ 34)
        × Ticks B n s.core c
        × (((wb_ack c || wb_stall c) ≡ true) → wb_read B a s ≡ none)
        × (((wb_ack c || wb_stall c) ≡ false)
            → (t : WbTb B) × (word : ℕ) × (wb_read B a s ≡ some (t, word))
              × (t.core ≡ c)
              × (((d : Core) → wb_ack d ≡ false) → t.bomb ≡ true))
  unfolding wb_read tick assert_idle wait_for_ack
  wb_read_bounded a s total =
      let m = reading a s.master in
      let s0 : WbTb B = record s { master = m } in
      let (s1, n1, e1, f1, w1, up, low, some_stall) = wait_for_stall-IsWaited s0 total in
      let (c2, f2) = total s1.master s1.core in
      let s2 : WbTb B = record { core = c2; master = accepted m; bomb = s1.bomb } in
      let (s3, n3, f3, w3) =
        wait_while-IsWaited (λ c. not (wb_ack c)) (bombcount - e1) e1 s2 total in
      let (c4, f4) = total (released m) s3.core in
      let at_most : n1 + (1 + (n3 + 1)) ≤ 34 =
        let m1 = w1.most in let m3 = w3.most in ground arith in
      let last : Ticks B (n3 + 1) c2 c4 =
        Ticks-add n3 1 c2 s3.core c4 w3.run (released m, c4, f4, refl) in
      let next : Ticks B (1 + (n3 + 1)) s1.core c4 =
        Ticks-add 1 (n3 + 1) s1.core c2 c4 (s1.master, c2, f2, refl) last in
      (
        n1 + (1 + (n3 + 1)),
        c4,
        at_most,
        Ticks-add n1 (1 + (n3 + 1)) s.core s1.core c4 w1.run next,
        λ noisy. simp (f1, f2, f3, f4, noisy),
        λ quiet. (
          record {
            core = c4;
            master = released m;
            bomb = s3.bomb || (leb bombcount (e1 + n3 + 1) || not (wb_ack s3.core));
          },
          wb_word s3.core,
          simp (f1, f2, f3, f4, quiet),
          refl,
          λ silent. ground (arith, silent s3.core),
        ),
      )
