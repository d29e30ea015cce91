-- ===== src/Tracker/Laps/Runs.antt =====
-- All runs of GPS_tracker_Single_Split.ino as runs of the lap timer.
use speed_feed.Tracker.Valid.Pass.{IsSettled}
use speed_feed.Tracker.Laps.View.{times, is_race, timer}
use speed_feed.Tracker.Laps.Second.{by_fix-Refines}
use speed_feed.Tracker.Laps.Cross.{Refines, SameTimer, Refines-same}
use speed_feed.Tracker.Laps.First.{by_state-Refines}
use speed_feed.Tracker.Laps.{Steps, Steps-trans, InOrder, length-map, Steps-InOrder}
use speed_feed.Tracker.Startup.{Sketch}
use speed_feed.Tracker.Loop.{
  echo_sentence, heard, take_interrupt, by_state, by_fix, push_track, end_pass, took, use_fix,
  after_parse, on_sentence, second_half, pass,
}
use speed_feed.Tracker.State.{◌>>=◌, State, st_race, Kit, done, lift, >>=-eq-done, done-injective}
use speed_feed.Common.{
  if◌then◌else◌, length, ℕ, ◌+◌, ◌%◌, ◌≡◌, refl, sym, ◌∙◌, Bool, true, false, Option, arith,
}
use speed_feed.Tracker.Graph.Runs.{Passes, Passes-IsSettled}
use speed_feed.Double.{Double}
use speed_feed.Eeprom.{Bus}
use speed_feed.Nmea.{Gps, parse}
use speed_feed.Receiver.{read, last_nmea}
use mathlib.Core.Path.{subst}

module _ (D : Double) (B : Bus) (kit : Kit D.Real) where
  open D use {Real}

  push_track-SameTimer : (t : Sketch D B kit) → SameTimer D B kit t (push_track D B kit t)
  unfolding push_track
  push_track-SameTimer t = record {
    same_waypoints = refl;
    same_last = refl;
    same_next = refl;
    same_race = refl;
  }

  end_pass-SameTimer : (t : Sketch D B kit) → SameTimer D B kit t (end_pass D B kit t)
  unfolding end_pass
  end_pass-SameTimer t = record {
    same_waypoints = refl;
    same_last = refl;
    same_next = refl;
    same_race = refl;
  }

  took-SameTimer : (gps : Gps Real) (t : Sketch D B kit) → SameTimer D B kit t (took D B kit gps t)
  unfolding took
  took-SameTimer gps t = record {
    same_waypoints = refl;
    same_last = refl;
    same_next = refl;
    same_race = refl;
  }

  fix_part-Refines :
      (fix : Bool) (t u : Sketch D B kit)
      → ((if fix then by_fix D B kit t.current_state (push_track D B kit t) else done t) >>= λ t'.
          done (end_pass D B kit t'))
        ≡ done u
      → t.next_state ≡ t.current_state
      → Refines D B kit t u
  unfolding push_track
  fix_part-Refines true t u h n =
      let pushed = push_track D B kit t in
      let (t', e, h') = >>=-eq-done (by_fix D B kit t.current_state pushed) _ h in
      subst (Refines D B kit t) (done-injective h') (
        Steps-trans (by_fix-Refines D B kit t.current_state pushed t' e n)
          (Refines-same D B kit t' (end_pass D B kit t') (end_pass-SameTimer t')))
  fix_part-Refines false t u h n =
      subst (Refines D B kit t) (done-injective h)
        (Refines-same D B kit t (end_pass D B kit t) (end_pass-SameTimer t))

  after_parse-Refines :
      (t u : Sketch D B kit) (parsed : Bool) (gps : Gps Real)
      → after_parse D B kit t (parsed, gps) ≡ done u
      → Refines D B kit t u
  unfolding after_parse use_fix took echo_sentence
  after_parse-Refines t u true gps h = fix_part-Refines gps.fix (heard D B kit gps t) u h refl
  after_parse-Refines t u false gps h =
      subst (Refines D B kit t) (done-injective h)
        (Refines-same D B kit t (took D B kit gps t) (took-SameTimer gps t))

  second_half-Refines :
      (t u : Sketch D B kit) (came : Bool)
      → (if came then on_sentence D B kit t else done (end_pass D B kit t)) ≡ done u
      → Refines D B kit t u
  unfolding on_sentence
  second_half-Refines t u true h =
      let (r, e, h') = >>=-eq-done (lift (parse D (last_nmea t.receiver).0 t.gps)) _ h in
      after_parse-Refines t u r.0 r.1 h'
  second_half-Refines t u false h =
      subst (Refines D B kit t) (done-injective h)
        (Refines-same D B kit t (end_pass D B kit t) (end_pass-SameTimer t))

  pass-Refines :
      (patience : ℕ) (available : Option ℕ) (t u : Sketch D B kit)
      → pass D B kit patience available t ≡ done u
      → t.current_state ≡ t.next_state
      → Refines D B kit t u
  unfolding pass second_half
  pass-Refines patience available t u h e =
      let t' = record t { receiver = (read available t.receiver).1 } in
      let (v, e', h') = >>=-eq-done (by_state D B kit patience t.current_state t') _ h in
      Steps-trans (by_state-Refines D B kit patience t.current_state t' v e' (sym e))
        (second_half-Refines v u v.receiver.recvdflag h')

  Passes-Refines :
      (t u : Sketch D B kit) → Passes D B kit t u → IsSettled D B kit t → Refines D B kit t u
  unfolding take_interrupt
  Passes-Refines t u (Passes.start) v = Steps.none_yet
  Passes-Refines t u (Passes.press {u = w} run) v = Passes-Refines t w run v
  Passes-Refines t u (Passes.next {u = w} patience available run h) v =
      let (settled, reached) = Passes-IsSettled D B kit t w run v in
      Steps-trans (Passes-Refines t w run v) (pass-Refines patience available w u h settled.agree)

  -- The gate that is next is the one after the gate crossed last, round the track.
  abbrev pub IsOrdered : Sketch D B kit → Type 0
  IsOrdered t = t.current_state ≡ st_race → t.wp_next ≡ (t.wp_last + 1) % length t.waypoints

  is_race-race : (s : State) → is_race s ≡ true → s ≡ st_race
  is_race-race s h = ground arith

  IsOrdered-InOrder :
      (t : Sketch D B kit)
      → t.current_state ≡ t.next_state
      → IsOrdered t
      → InOrder (timer D B kit t)
  IsOrdered-InOrder t a o k =
      rw (length-map times t.waypoints) (o (a ∙ is_race-race t.next_state k))

  -- From a sketch in which the invariant holds, the two state variables agree, and in a race the
  -- next gate is the one after the gate crossed last: after any number of passes that come to
  -- their end, with interrupts between them, in a race the next gate is again the one after the gate crossed last, round the
  -- track.
  pub Passes-IsOrdered :
      (t u : Sketch D B kit) → Passes D B kit t u → IsSettled D B kit t → IsOrdered t → IsOrdered u
  Passes-IsOrdered t u run v o r =
      let ordered = Steps-InOrder (Passes-Refines t u run v) (IsOrdered-InOrder t v.agree o) in
      let settled = (Passes-IsSettled D B kit t u run v).0 in
      rw (← length-map times u.waypoints) (ordered (rw (sym settled.agree ∙ r) refl))
