-- ===== src/Tracker/Service.antt =====
-- The service mode of GPS_tracker_Single_Split.ino: the state ST_WPSET, entered from boot, with
-- the GPS module still told to send GGA sentences only.
use mathlib.Core.Path.{subst}
use speed_feed.Common.{ℕ, ◌≡◌, ◌∙◌, Bool, true, false, Option, List, [], arith}
use speed_feed.Double.{Double}
use speed_feed.Waypoint.{Waypoint}
use speed_feed.Eeprom.{Bus}
use speed_feed.Receiver.{read, last_nmea}
use speed_feed.Sentence.{holds, gprmc}
use speed_feed.Nmea.{Gps, parse}
use speed_feed.Nmea.Fix.{parse-fix}
use speed_feed.Tracker.State.{Kit, st_wpset, done, >>=-eq-done, lift, lift-eq-done, done-injective}
use speed_feed.Tracker.Startup.{Sketch}
use speed_feed.Tracker.Setting.{wpset_case, refuse}
use speed_feed.Tracker.Loop.{
  echo_sentence, heard, take_interrupt, by_state, end_pass, took, use_fix, after_parse, on_sentence,
  second_half, pass,
}

module _ (D : Double) (B : Bus) (kit : Kit D.Real) where
  open D use {Real}

  -- Setting waypoints, with no fix and no position taken.
  pub record IsWaiting (ps : List (Waypoint Real)) (t : Sketch D B kit) : Type 0 where
    pub setting : t.current_state ≡ st_wpset
    pub stays : t.next_state ≡ st_wpset
    pub no_fix : t.gps.fix ≡ false
    pub no_tracks : t.tracks ≡ []
    pub same_waypoints : t.waypoints ≡ ps

  wpset_case-IsWaiting :
      (ps : List (Waypoint Real)) (t u : Sketch D B kit)
      → wpset_case D B kit t ≡ done u
      → IsWaiting ps t
      → IsWaiting ps u × (u.receiver ≡ t.receiver)
  unfolding wpset_case refuse
  wpset_case-IsWaiting ps t u h v = ground arith

  end_pass-IsWaiting :
      (ps : List (Waypoint Real)) (t : Sketch D B kit)
      → IsWaiting ps t
      → IsWaiting ps (end_pass D B kit t)
  unfolding end_pass
  end_pass-IsWaiting ps t v = ground arith

  took-IsWaiting :
      (ps : List (Waypoint Real)) (gps : Gps Real) (t : Sketch D B kit)
      → gps.fix ≡ false
      → IsWaiting ps t
      → IsWaiting ps (took D B kit gps t)
  unfolding took
  took-IsWaiting ps gps t f v = ground arith

  heard-IsWaiting :
      (ps : List (Waypoint Real)) (gps : Gps Real) (t : Sketch D B kit)
      → gps.fix ≡ false
      → IsWaiting ps t
      → IsWaiting ps (heard D B kit gps t)
  unfolding took echo_sentence
  heard-IsWaiting ps gps t f v = ground arith

  after_parse-IsWaiting :
      (ps : List (Waypoint Real)) (t u : Sketch D B kit) (parsed : Bool) (gps : Gps Real)
      → after_parse D B kit t (parsed, gps) ≡ done u
      → gps.fix ≡ false
      → IsWaiting ps t
      → IsWaiting ps u
  unfolding after_parse use_fix took echo_sentence
  after_parse-IsWaiting ps t u true gps h f v =
      let w' = heard-IsWaiting ps gps t f v in
      ground (arith, end_pass-IsWaiting ps (heard D B kit gps t) w')
  after_parse-IsWaiting ps t u false gps h f v =
      subst (IsWaiting ps) (done-injective h) (took-IsWaiting ps gps t f v)

  on_sentence-IsWaiting :
      (ps : List (Waypoint Real)) (t u : Sketch D B kit)
      → on_sentence D B kit t ≡ done u
      → holds gprmc (last_nmea t.receiver).0 ≡ false
      → IsWaiting ps t
      → IsWaiting ps u
  unfolding on_sentence
  on_sentence-IsWaiting ps t u h g v =
      let text = (last_nmea t.receiver).0 in
      let ((b, gps), e, h') = >>=-eq-done (lift (parse D text t.gps)) _ h in
      let f = parse-fix D text t.gps gps b (lift-eq-done (parse D text t.gps) e) in
      after_parse-IsWaiting ps t u b gps h' (f.1 g ∙ v.no_fix) v

  -- In service mode with no fix and no position, a pass in which no RMC sentence is taken up
  -- leaves it so, and sets no waypoint.
  pass-IsWaiting :
      (patience : ℕ) (available : Option ℕ) (ps : List (Waypoint Real)) (t u : Sketch D B kit)
      → pass D B kit patience available t ≡ done u
      → ((read available t.receiver).1.recvdflag ≡ true
          → holds gprmc (last_nmea (read available t.receiver).1).0 ≡ false)
      → IsWaiting ps t
      → IsWaiting ps u
  unfolding pass by_state second_half
  pass-IsWaiting patience available ps t u h g v =
      let t' = record t { receiver = (read available t.receiver).1 } in
      let v' : IsWaiting ps t' = ground arith in
      let (w, e, h') = >>=-eq-done (by_state D B kit patience t.current_state t') _ h in
      let (waiting, same) = wpset_case-IsWaiting ps t' w (ground arith) v' in
      ground (
        arith,
        end_pass-IsWaiting ps w waiting,
        λ (k : on_sentence D B kit w ≡ done u) (r : w.receiver.recvdflag ≡ true).
            on_sentence-IsWaiting ps w u k (rw same (g (rw same at r))) waiting,
      )

  -- Passes that take up no RMC sentence, and interrupts of the button between them.
  pub data NoRmc (t : Sketch D B kit) : Sketch D B kit → Type 0 where
    start : NoRmc t t
    next :
        {u v : Sketch D B kit} (patience : ℕ) (available : Option ℕ)
        → NoRmc t u
        → ((read available u.receiver).1.recvdflag ≡ true
            → holds gprmc (last_nmea (read available u.receiver).1).0 ≡ false)
        → pass D B kit patience available u ≡ done v
        → NoRmc t v
    press : {u : Sketch D B kit} → NoRmc t u → NoRmc t (take_interrupt D B kit u)

  take_interrupt-IsWaiting :
      (ps : List (Waypoint Real)) (t : Sketch D B kit)
      → IsWaiting ps t
      → IsWaiting ps (take_interrupt D B kit t)
  unfolding take_interrupt
  take_interrupt-IsWaiting ps t v = ground (arith, v)

  -- In service mode with no fix and no position: after any number of passes that take up no RMC
  -- sentence, and of presses of the button between them, it is still so, and no waypoint has been
  -- set.
  pub NoRmc-IsWaiting :
      (ps : List (Waypoint Real)) (t u : Sketch D B kit)
      → NoRmc t u
      → IsWaiting ps t
      → IsWaiting ps u
  NoRmc-IsWaiting ps t u (NoRmc.start) v = v
  NoRmc-IsWaiting ps t u (NoRmc.next {u = w} patience available run quiet h) v =
      pass-IsWaiting patience available ps w u h quiet (NoRmc-IsWaiting ps t w run v)
  NoRmc-IsWaiting ps t u (NoRmc.press {u = w} run) v =
      take_interrupt-IsWaiting ps w (NoRmc-IsWaiting ps t w run v)
