-- ===== src/Device/Phy/Handshake.antt =====
-- The out-of-band handshake of bench/cpp/satasim.cpp, as bench/cpp/tb_sata.cpp clocks it, against
-- its specification: a machine of five phases, moved by the
-- level of the controller's COMINIT or COMWAKE.

use wbsata.Common.{
  ℕ, zero, suc, Bool, true, false, ◌||◌, List, [], ◌∷◌, ◌++◌, map, replicate, ◌≡◌, refl, ap, ◌∙◌,
  arith,
}
use wbsata.Device.State.{reset, SataSim, new}
use wbsata.Device.Phy.{TxSignals, TxReply, tx_clock}

pub data Phase : Type 0 where
  quiet initing inited waking awake : Phase

-- COMINIT is answered while the level is up, then COMWAKE is the next time it is up.
unfoldable pub advance : Phase → Bool → Phase
advance quiet true = initing
advance quiet false = quiet
advance initing true = initing
advance initing false = inited
advance inited true = waking
advance inited false = inited
advance waking true = waking
advance waking false = awake
advance awake level = awake

abbrev pub is_awake : Phase → Bool
is_awake awake = true
is_awake _ = false

-- What the device drives and remembers in each phase.
abbrev Drives : SataSim → Bool → Bool → Bool → Bool → Type 0
Drives s cominit comwake init_sent wake_sent =
    (s.rxphy_cominit ≡ cominit)
    × (s.rxphy_comwake ≡ comwake)
    × (s.cominit_sent ≡ init_sent)
    × (s.comwake_sent ≡ wake_sent)

abbrev pub Shows : Phase → SataSim → Type 0
Shows quiet s = Drives s false false false false
Shows initing s = Drives s true false false false
Shows inited s = Drives s false false true false
Shows waking s = Drives s false true true false
Shows awake s = Drives s false false true true

abbrev pub level : TxSignals → Bool
level t = t.cominit || t.comwake

-- The level that the device has captured, on which its next clock acts.
abbrev pub heard : SataSim → Bool
heard s = s.txphy_cominit || s.txphy_comwake

-- What one clock leaves of a device in the phase `p`, with the core's link down or up.
abbrev pub Tells : Phase → TxSignals → SataSim → SataSim × TxReply → Type 0
Tells p t s (s', reply) =
    (heard s' ≡ level t)
    × (t.link_ready ≡ false
        → Shows (advance p (heard s)) s'
          × (s'.oob_done ≡ is_awake (advance p (heard s)))
          × (reply.comfinish ≡ heard s))
    × (t.link_ready ≡ true
        → Shows p s' × (s'.oob_done ≡ s.oob_done) × (reply.comfinish ≡ s.txphy_comfinish))

-- One TX clock captures the controller's level. While the core's link is down it moves a device
-- that shows a phase as the specification moves the phase by the level captured the clock before:
-- the device drives COMINIT and COMWAKE and remembers them as the new phase says, reports the
-- handshake done exactly when that phase is the last, and answers that level with COMFINISH. While
-- the link is up the device keeps its phase, its report and its answer.
pub tx_clock_refines :
    (p : Phase) (t : TxSignals) (s : SataSim) → Shows p s → Tells p t s (tx_clock t s)
unfolding advance tx_clock
tx_clock_refines quiet t s h = ground arith
tx_clock_refines initing t s h = ground arith
tx_clock_refines inited t s h = ground arith
tx_clock_refines waking t s h = ground arith
tx_clock_refines awake t s h = ground arith

pub advance_all : Phase → List Bool → Phase
advance_all p [] = p
advance_all p (l ∷ ls) = advance_all (advance p l) ls

-- One TX clock after the other; the replies are left out.
unfoldable pub tx_clocks : List TxSignals → SataSim → SataSim
tx_clocks [] s = s
tx_clocks (t ∷ ts) s = tx_clocks ts (tx_clock t s).0

-- The core's link is down on every clock.
abbrev pub AreDown : List TxSignals → Type 0
AreDown [] = Unit
AreDown (t ∷ ts) = (t.link_ready ≡ false) × AreDown ts

-- The phase that the next clock leads to, after `ts`.
tx_clocks-Shows :
    (p : Phase) (ts : List TxSignals) (s : SataSim)
    → Shows p s
    → AreDown ts
    → (q : Phase) × Shows q (tx_clocks ts s)
      × (advance q (heard (tx_clocks ts s)) ≡ advance_all (advance p (heard s)) (map level ts))
unfolding advance_all tx_clocks
tx_clocks-Shows p [] s h down = (p, h, refl)
tx_clocks-Shows p (t ∷ ts) s h (first, down) =
    let (captured, moved, kept) = tx_clock_refines p t s h in
    let p' = advance p (heard s) in
    let (q, shown, e) = tx_clocks-Shows p' ts (tx_clock t s).0 (moved first).0 down in
    (q, shown, e ∙ ap (λ l. advance_all (advance p' l) (map level ts)) captured)

-- A level that a phase answers by itself may last as long as it likes.
hold :
    (p : Phase) (l : Bool) (n : ℕ) (ls : List Bool)
    → advance p l ≡ p
    → advance_all p (replicate n l ++ ls) ≡ advance_all p ls
unfolding advance_all
hold p l zero ls e = refl
hold p l (suc n) ls e = ap (λ q. advance_all q (replicate n l ++ ls)) e ∙ hold p l n ls e

-- The levels of a handshake: two pulses, of any length, apart and after any wait.
abbrev pub two_pulses : ℕ → ℕ → ℕ → ℕ → List Bool
two_pulses w a b c =
    replicate w false
    ++ (replicate (suc a) true
        ++ (replicate (suc b) false ++ (replicate (suc c) true ++ (false ∷ []))))

two_pulses_awake : (w a b c : ℕ) → advance_all quiet (two_pulses w a b c) ≡ awake
unfolding advance advance_all
two_pulses_awake w a b c =
    hold quiet false w _ refl
    ∙ hold initing true a _ refl
    ∙ hold inited false b _ refl
    ∙ hold waking true c _ refl

-- A new device completes the handshake when the controller pulses COMINIT or COMWAKE twice, for
-- any number of clocks, any number apart and after any wait, while the core's link is down: one TX
-- clock after the end of the second pulse the device reports that the handshake is done.
pub handshake_completes :
    (w a b c : ℕ) (ts : List TxSignals) (t : TxSignals)
    → AreDown ts
    → t.link_ready ≡ false
    → map level ts ≡ two_pulses w a b c
    → (tx_clock t (tx_clocks ts new)).0.oob_done ≡ true
unfolding new advance
handshake_completes w a b c ts t down last e =
    let (q, shown, due) = tx_clocks-Shows quiet ts new (refl, refl, refl, refl) down in
    let (captured, moved, kept) = tx_clock_refines q t (tx_clocks ts new) shown in
    (moved last).1
    ∙ ap is_awake due
    ∙ ap is_awake (ap (advance_all quiet) e ∙ two_pulses_awake w a b c)

awake_stays : (t : TxSignals) (s : SataSim) → Shows awake s → Shows awake (tx_clock t s).0
unfolding tx_clock
awake_stays t s h = ground arith

tx_clocks_awake : (ts : List TxSignals) (s : SataSim) → Shows awake s → Shows awake (tx_clocks ts s)
unfolding tx_clocks
tx_clocks_awake [] s h = h
tx_clocks_awake (t ∷ ts) s h = tx_clocks_awake ts (tx_clock t s).0 (awake_stays t s h)

-- A device that has been through the handshake and is reset goes through no other: on every later
-- TX clock it drives neither COMINIT nor COMWAKE, whatever the controller drives, and it reports
-- the handshake done on each on which the core's link is down.
pub reset_skips_handshake :
    (ts : List TxSignals) (t : TxSignals) (s : SataSim)
    → Shows awake s
    → let s' = (tx_clock t (tx_clocks ts (reset s))).0 in
      (s'.rxphy_cominit ≡ false)
      × (s'.rxphy_comwake ≡ false)
      × (t.link_ready ≡ false → s'.oob_done ≡ true)
unfolding advance
reset_skips_handshake ts t s h =
    let begun = tx_clocks_awake ts (reset s) (unfold reset in (refl, refl, h.2, h.3)) in
    let after = awake_stays t (tx_clocks ts (reset s)) begun in
    let (captured, moved, kept) = tx_clock_refines awake t (tx_clocks ts (reset s)) begun in
    (after.0, after.1, λ down. (moved down).1)
