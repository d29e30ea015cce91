-- ===== src/Tracker/Graph/Runs.antt =====
-- Runs of the loop of GPS_tracker_Single_Split.ino: one pass after another.
use mathlib.Core.Path.{subst}
use speed_feed.Common.{ℕ, ◌≡◌, refl, sym, Bool, true, false, Option, arith, if◌then◌else◌}
use speed_feed.Double.{Double}
use speed_feed.Eeprom.{Bus}
use speed_feed.Receiver.{read, last_nmea}
use speed_feed.Nmea.{Gps, parse}
use speed_feed.Tracker.State.{
  Kit, State, st_reset, st_sfset, st_wpset, done, >>=-eq-done, ◌>>=◌, lift, done-injective,
}
use speed_feed.Tracker.Startup.{Sketch}
use speed_feed.Tracker.Loop.{
  echo_sentence, heard, take_interrupt, by_state, by_fix, push_track, end_pass, took, use_fix,
  after_parse, on_sentence, second_half, pass,
}
use speed_feed.Tracker.Valid.Pass.{IsSettled, pass-IsSettled}
use speed_feed.Tracker.Graph.Edges.{BootMove, FixMove, stays}
use speed_feed.Tracker.Graph.Before.{by_state-BootMove}
use speed_feed.Tracker.Graph.After.{by_fix-FixMove}

-- Where the edges of the graph lead to: no state but itself leads to ST_SFSET, none leads back
-- to ST_RESET, and waypoints are set only from there.
abbrev pub may_reach : State → State → Bool
may_reach st_reset st_sfset = false
may_reach st_reset s = true
may_reach st_sfset st_sfset = true
may_reach st_sfset s = false
may_reach s st_reset = false
may_reach s st_sfset = false
may_reach st_wpset s = true
may_reach s st_wpset = false
may_reach s s' = true

pub may_reach-BootMove :
    (a : State) {b c : State} → may_reach a b ≡ true → BootMove b c → may_reach a c ≡ true
may_reach-BootMove a h BootMove.waits = h
may_reach-BootMove a h BootMove.boots = ground arith
may_reach-BootMove a h BootMove.services = ground arith

may_reach-FixMove :
    (a : State) {b c : State} → may_reach a b ≡ true → FixMove b c → may_reach a c ≡ true
may_reach-FixMove a h FixMove.stays = h
may_reach-FixMove a h FixMove.starts = ground arith
may_reach-FixMove a h FixMove.closes = ground arith
may_reach-FixMove a h FixMove.stops = ground arith

may_reach_self : (s : State) → may_reach s s ≡ true
may_reach_self s = ground arith

module _ (D : Double) (B : Bus) (kit : Kit D.Real) where
  open D use {Real}

  -- From the state `s` in which the second half of a pass begins, by one `switch` at most.
  abbrev Moved : State → Sketch D B kit → Type 0
  Moved s u = FixMove s u.current_state

  fix_part-Moved :
      (fix : Bool) (t u : Sketch D B kit)
      → ((if fix then by_fix D B kit t.current_state (push_track D B kit t) else done t) >>= λ t'.
          done (end_pass D B kit t'))
        ≡ done u
      → t.current_state ≡ t.next_state
      → Moved t.current_state u
  unfolding end_pass push_track
  fix_part-Moved true t u h e =
      let (t', e', h') = >>=-eq-done (by_fix D B kit t.current_state (push_track D B kit t)) _ h in
      subst (Moved t.current_state) (done-injective h')
        (by_fix-FixMove D B kit t.current_state (push_track D B kit t) t' e' (sym e))
  fix_part-Moved false t u h e =
      subst (Moved t.current_state) (done-injective h) (subst (FixMove t.current_state) e stays)

  after_parse-Moved :
      (t u : Sketch D B kit) (parsed : Bool) (gps : Gps Real)
      → after_parse D B kit t (parsed, gps) ≡ done u
      → Moved t.next_state u
  unfolding after_parse use_fix took echo_sentence
  after_parse-Moved t u true gps h = fix_part-Moved gps.fix (heard D B kit gps t) u h refl
  after_parse-Moved t u false gps h = subst (Moved t.next_state) (done-injective h) stays

  second_half-Moved :
      (t u : Sketch D B kit) (came : Bool)
      → (if came then on_sentence D B kit t else done (end_pass D B kit t)) ≡ done u
      → Moved t.next_state u
  unfolding on_sentence end_pass
  second_half-Moved t u true h =
      let (r, e, h') = >>=-eq-done (lift (parse D (last_nmea t.receiver).0 t.gps)) _ h in
      after_parse-Moved t u r.0 r.1 h'
  second_half-Moved t u false h = subst (Moved t.next_state) (done-injective h) stays

  half-Moved : (t u : Sketch D B kit) → second_half D B kit t ≡ done u → Moved t.next_state u
  unfolding second_half
  half-Moved t u h = second_half-Moved t u t.receiver.recvdflag h

  -- A pass: `w` is the sketch between the two halves. The first `switch` follows an edge from the
  -- state of the pass to the one that is to be next, and the second half one from there.
  pub record Halves (patience : ℕ) (available : Option ℕ) (t u : Sketch D B kit) : Type 0 where
    pub w : Sketch D B kit
    pub switched :
        by_state D B kit patience t.current_state
          (record t { receiver = (read available t.receiver).1 })
        ≡ done w
    pub halved : second_half D B kit w ≡ done u
    pub first : BootMove t.current_state w.next_state
    pub second : FixMove w.next_state u.current_state

  pass-Moves :
      (patience : ℕ) (available : Option ℕ) (t u : Sketch D B kit)
      → pass D B kit patience available t ≡ done u
      → t.current_state ≡ t.next_state
      → Halves patience available t u
  unfolding pass
  pass-Moves patience available t u h e =
      let t' = record t { receiver = (read available t.receiver).1 } in
      let (v, e', h') = >>=-eq-done (by_state D B kit patience t.current_state t') _ h in
      record {
        w = v;
        switched = e';
        halved = h';
        first = by_state-BootMove D B kit patience t.current_state t' v e' (sym e);
        second = half-Moved v u h';
      }

  -- Any number of passes that come to their end, whatever they read, and of interrupts of the
  -- button between them.
  pub data Passes (t : Sketch D B kit) : Sketch D B kit → Type 0 where
    start : Passes t t
    next :
        {u v : Sketch D B kit} (patience : ℕ) (available : Option ℕ)
        → Passes t u
        → pass D B kit patience available u ≡ done v
        → Passes t v
    press : {u : Sketch D B kit} → Passes t u → Passes t (take_interrupt D B kit u)

  take_interrupt-IsSettled :
      (t : Sketch D B kit) → IsSettled D B kit t → IsSettled D B kit (take_interrupt D B kit t)
  unfolding take_interrupt
  take_interrupt-IsSettled t v = record { valid = ground (arith, v.valid); agree = v.agree }

  -- From a sketch in which the invariant holds and the two state variables agree, after any
  -- number of passes that come to their end and of interrupts between them: the same holds again, and the state is one that the
  -- edges of the graph lead to, so that ST_SFSET is never entered, ST_RESET never entered again,
  -- and ST_WPSET only left for ST_RACE and what follows it.
  pub Passes-IsSettled :
      (t u : Sketch D B kit)
      → Passes t u
      → IsSettled D B kit t
      → IsSettled D B kit u × (may_reach t.current_state u.current_state ≡ true)
  unfolding take_interrupt
  Passes-IsSettled t u (Passes.start) v = (v, may_reach_self t.current_state)
  Passes-IsSettled t u (Passes.press {u = w} run) v =
      let (settled, reached) = Passes-IsSettled t w run v in
      (take_interrupt-IsSettled w settled, reached)
  Passes-IsSettled t u (Passes.next {u = w} patience available run h) v =
      let (settled, reached) = Passes-IsSettled t w run v in
      let first = pass-Moves patience available w u h settled.agree in
      (
        pass-IsSettled D B kit patience available w u h settled,
        may_reach-FixMove t.current_state (may_reach-BootMove t.current_state reached first.first)
            first.second,
      )

  -- From a sketch in which the invariant holds and the two state variables agree, after any number
  -- of passes and interrupts: in each further pass that comes to its end, the first `switch` stays
  -- in its state or leads from ST_RESET to ST_INIT or ST_WPSET, and the second half stays in the
  -- state that is next then or leads from ST_INIT or ST_WPSET to ST_RACE or from ST_RACE to ST_INIT;
  -- the two state variables agree again.
  pub Passes-Halves :
      (patience : ℕ) (available : Option ℕ) (t u v : Sketch D B kit)
      → Passes t u
      → IsSettled D B kit t
      → pass D B kit patience available u ≡ done v
      → Halves patience available u v × (v.current_state ≡ v.next_state)
  Passes-Halves patience available t u v run s h =
      let settled = (Passes-IsSettled t u run s).0 in
      (
        pass-Moves patience available u v h settled.agree,
        (pass-IsSettled D B kit patience available u v h settled).agree,
      )
