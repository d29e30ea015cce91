-- ===== src/Tracker/Stored/Runs.antt =====
-- The EEPROM over the passes of GPS_tracker_Single_Split.ino.
use speed_feed.Common.{ℕ, ◌≡◌, refl, sym, ◌∙◌, ◌≢◌, inl, inr, true, false, Option, arith}
use speed_feed.Tracker.Valid.Pass.{IsSettled}
use speed_feed.Tracker.Stored.After.{EndsStored, second_half-EndsStored}
use speed_feed.Tracker.Stored.Before.{KeepsCells, by_state-KeepsCells}
use speed_feed.Tracker.Graph.Before.{wpset_case-next, by_state-BootMove}
use speed_feed.Tracker.Graph.Edges.{BootMove}
use speed_feed.Tracker.State.{State, st_wpset, st_race, Kit, disk1, done, >>=-eq-done}
use speed_feed.Tracker.Startup.{Sketch}
use speed_feed.Tracker.Loop.{take_interrupt, by_state, pass}
use speed_feed.Tracker.Graph.Runs.{may_reach, may_reach-BootMove, Passes, Passes-IsSettled}
use speed_feed.Eeprom.Cells.{IsEeprom, SameCells}
use speed_feed.Double.{Double}
use speed_feed.Eeprom.{Bus, store_waypoints}
use speed_feed.Receiver.{read}

module _ (D : Double) (B : Bus) (E : IsEeprom B) (kit : Kit D.Real) where
  open D use {Real}

  -- A pass in the state that its second half has come to: the cells are kept, and service mode
  -- goes on; or, in service mode, the track has been stored over the same cells and is raced on.
  pub data Outcome (from : State) (t u : Sketch D B kit) : Type 0 where
    keeps :
        KeepsCells D B E kit t u → (from ≡ st_wpset → u.current_state ≡ st_wpset) → Outcome from t u
    stores :
        (s : B.State)
        → SameCells B E disk1 t.eeprom s
        → from ≡ st_wpset
        → u.eeprom ≡ store_waypoints D B disk1 0 u.waypoints s
        → u.current_state ≡ st_race
        → Outcome from t u

  outcome-of :
      (from : State) (t v u : Sketch D B kit)
      → KeepsCells D B E kit t v
      → EndsStored D B kit from v.eeprom u
      → Outcome from t u
  outcome-of from t v u k (inl (e, n)) = Outcome.keeps (λ a. rw e (k a)) n
  outcome-of from t v u k (inr (w, e, r)) = Outcome.stores v.eeprom k w e r

  -- A pass that comes to its end, and the state that its first half leaves.
  pub pass-Outcome :
      (patience : ℕ) (available : Option ℕ) (t u : Sketch D B kit)
      → pass D B kit patience available t ≡ done u
      → t.current_state ≡ t.next_state
      → (from : State) × BootMove t.current_state from
        × Outcome from t u
        × (t.current_state ≡ st_wpset → from ≡ st_wpset)
  unfolding pass by_state
  pass-Outcome patience available t u h e =
      let t' = record t { receiver = (read available t.receiver).1 } in
      let (v, e', h') = >>=-eq-done (by_state D B kit patience t.current_state t') _ h in
      (
        v.next_state,
        by_state-BootMove D B kit patience t.current_state t' v e' (sym e),
        outcome-of v.next_state t v u
            (by_state-KeepsCells D B E kit patience t.current_state t' v e')
            (second_half-EndsStored D B kit v u h'),
        λ (w : t.current_state ≡ st_wpset). wpset_case-next D B kit t' v (ground arith) ∙ sym e ∙ w,
      )

  not_setting : (a b : State) → may_reach a b ≡ true → may_reach a st_wpset ≡ false → b ≢ st_wpset
  not_setting a b h n e = ground arith

  keeps_unless_setting :
      (from : State) (t u : Sketch D B kit)
      → Outcome from t u
      → from ≢ st_wpset
      → KeepsCells D B E kit t u
  keeps_unless_setting from t u (Outcome.keeps k s) n = k
  keeps_unless_setting from t u (Outcome.stores s k w e r) n = absurd (n w)

  -- Once the sketch waits for the start line or races, no number of passes that come to their
  -- end, with interrupts between them, changes a byte of the EEPROM: from a sketch in which the invariant holds and the two
  -- state variables agree, in a state from which the edges of the graph do not lead to ST_WPSET.
  pub Passes-KeepsCells :
      (t u : Sketch D B kit)
      → Passes D B kit t u
      → IsSettled D B kit t
      → may_reach t.current_state st_wpset ≡ false
      → KeepsCells D B E kit t u
  unfolding take_interrupt
  Passes-KeepsCells t u (Passes.start) v n a = refl
  Passes-KeepsCells t u (Passes.press {u = w} run) v n a = Passes-KeepsCells t w run v n a
  Passes-KeepsCells t u (Passes.next {u = w} patience available run h) v n a =
      let (settled, reached) = Passes-IsSettled D B kit t w run v in
      let (from, move, outcome, _) = pass-Outcome patience available w u h settled.agree in
      let reached' = may_reach-BootMove t.current_state reached move in
      keeps_unless_setting from w u outcome (not_setting t.current_state from reached' n) a
      ∙ Passes-KeepsCells t w run v n a
