-- ===== src/Tracker/Defined.antt =====
-- When a pass of the loop of GPS_tracker_Single_Split.ino comes to its end, and when it is
-- undefined behaviour.
use speed_feed.Common.{
  ℕ, ◌-◌, ◌<◌, ◌≡◌, ◌≢◌, refl, ap, Bool, true, false, Option, none, some, List, arith, length,
  length-set, if◌then◌else◌, get_elem?, set, ◌==◌, sym,
}
use speed_feed.Double.{Double}
use speed_feed.Waypoint.{Waypoint}
use speed_feed.Eeprom.{Bus}
use speed_feed.Receiver.{read, last_nmea}
use speed_feed.Nmea.{Gps, parse}
use speed_feed.Tracker.State.{
  Kit, State, st_reset, st_init, st_sfset, st_wpset, st_race, Run, done, fault, waiting, ◌>>=◌,
  lift,
}
use speed_feed.Tracker.Startup.{Sketch, on_world, reset_case, await_fix}
use speed_feed.Tracker.Racing.{
  race_button, test_gate, race_on, race_case, race_button, cross, timer_or,
}
use speed_feed.Tracker.Loop.{
  echo_sentence, heard, by_state, by_fix, push_track, on_sentence, pass, init_case, close_on,
  close_track, use_fix, took, after_parse, second_half,
}
use speed_feed.Tracker.Valid.{IsValid, needs_start}
use speed_feed.Tracker.Valid.Pass.{IsSettled, read-IsInBounds}
use speed_feed.Tracker.Valid.First.{by_state-IsValid}
use speed_feed.Tracker.Valid.Second.{push_track-IsValid}
use speed_feed.Tracker.Valid.Lengths.{length-reset, get_elem?-defined}

-- The step comes to its end, with some result.
abbrev pub Ends {ℓ} : {A : Type ℓ} → Run A → Type ℓ
Ends {A = A} m = (a : A) × (m ≡ done a)

Ends-bind {ℓ κ} :
    {A : Type ℓ} {B : Type κ} (m : Run A) (f : A → Run B)
    → Ends m
    → ((a : A) → m ≡ done a → Ends (f a))
    → Ends (m >>= f)
Ends-bind (done a) f e k = k a refl
Ends-bind fault f (a, e) k = cc
Ends-bind waiting f (a, e) k = cc

Ends-get_elem? {ℓ} :
    {A : Type ℓ} (xs : List A) (i : ℕ) → i < length xs → Ends (lift (get_elem? xs i))
Ends-get_elem? xs i h = let (x, e) = get_elem?-defined xs i h in (x, ap lift e)

Ends-lift {ℓ} : {A : Type ℓ} (o : Option A) → o ≢ none → Ends (lift o)
Ends-lift none h = absurd (h refl)
Ends-lift (some a) h = (a, refl)

Ends-if {ℓ} :
    {A : Type ℓ} {m k : Run A} (b : Bool) → (b ≡ true → Ends m) → Ends k → Ends (if b then m else k)
Ends-if true h h' = h refl
Ends-if false h h' = h'

module _ (D : Double) (B : Bus) (kit : Kit D.Real) where
  open D use {Real}

  test_gate-Ends :
      (i : ℕ) (t : Sketch D B kit)
      → 0 < length t.tracks
      → i < length t.waypoints
      → Ends (test_gate D B kit i t)
  unfolding test_gate
  test_gate-Ends i t h k = Ends-bind _ _ (Ends-get_elem? t.tracks 0 h) λ p1 e1.
      Ends-bind _ _ (Ends-get_elem? t.tracks (length t.tracks - 1) (omega arith))
        λ p2 e2. Ends-bind _ _ (Ends-get_elem? t.waypoints i k) λ gate e3. (_, refl)

  cross-Ends :
      (gate : Waypoint Real) (t : Sketch D B kit)
      → 0 < length t.waypoints
      → IsValid D B kit t
      → Ends (cross D B kit gate t)
  unfolding cross
  cross-Ends gate t n v =
      let ps = set t.waypoints t.wp_next gate in
      let size = length-set t.waypoints t.wp_next gate in
      Ends-bind _ _ (Ends-get_elem? ps t.wp_last (omega (arith, size)))
        λ prev e1. Ends-bind _ _ (Ends-get_elem? ps 0 (omega (arith, size))) λ first e2. (_, refl)

  race_on-Ends :
      (timer : ℕ) (t : Sketch D B kit) (r : Bool × Waypoint Real)
      → 0 < length t.waypoints
      → IsValid D B kit t
      → Ends (race_on D B kit timer t r)
  unfolding race_on
  race_on-Ends timer t (true, gate) n v = cross-Ends gate t n v
  race_on-Ends timer t (false, gate) n v = (_, refl)

  close_on-Ends :
      (t : Sketch D B kit) (r : Bool × Waypoint Real)
      → 0 < length t.waypoints
      → IsValid D B kit t
      → Ends (close_on D B kit t r)
  unfolding close_on
  close_on-Ends t (false, gate) n v = (_, refl)
  close_on-Ends t (true, gate) n v =
      let ps = set t.waypoints 0 gate in
      let size = length-set t.waypoints 0 gate in
      Ends-bind _ _ (Ends-get_elem? ps t.wp_next (omega (arith, size))) λ here e1.
        Ends-bind _ _ (Ends-get_elem? ps t.wp_last (omega (arith, size))) λ prev e2. (_, refl)

  -- With a waypoint and a position the second `switch` ends, in every state.
  by_fix-Ends :
      (s : State) (t : Sketch D B kit)
      → 0 < length t.tracks
      → 0 < length t.waypoints
      → IsValid D B kit t
      → Ends (by_fix D B kit s t)
  unfolding by_fix init_case close_track race_case
  by_fix-Ends st_reset t p n v = (_, refl)
  by_fix-Ends st_init t p n v = Ends-bind _ _ (test_gate-Ends 0 t p n) λ r e. (_, refl)
  by_fix-Ends st_sfset t p n v = (_, refl)
  by_fix-Ends st_wpset t p n v = Ends-bind _ _ (test_gate-Ends 0 t p n) λ r e. close_on-Ends t r n v
  by_fix-Ends st_race t p n v =
      let (timer, w) = timer_or t.reset_timer t.lights.world in
      let t' = record (on_world D B kit (λ _. w) t) { reset_timer = some timer } in
      let v' : IsValid D B kit t' = ground arith in
      Ends-bind _ _ (test_gate-Ends t.wp_next t' p (omega arith))
        λ r e. race_on-Ends timer t' r n v'

  -- What the first `switch` leaves alone in the states that have a start line.
  record IsReady (t u : Sketch D B kit) : Type 0 where
    same_gps : u.gps ≡ t.gps
    same_receiver : u.receiver ≡ t.receiver
    same_size : length u.waypoints ≡ length t.waypoints

  await_fix-IsReady : (t : Sketch D B kit) → IsReady t (await_fix D B kit t)
  unfolding await_fix
  await_fix-IsReady t = ground arith

  race_button-IsReady : (t : Sketch D B kit) → IsReady t (race_button D B kit t)
  unfolding race_button
  race_button-IsReady t = ground (arith, length-reset D t.waypoints)

  by_state-Ends :
      (patience : ℕ) (s : State) (t : Sketch D B kit)
      → t.next_state ≡ s
      → needs_start t.next_state t.boot_flag ≡ true
      → (u : Sketch D B kit) × (by_state D B kit patience s t ≡ done u) × IsReady t u
  unfolding by_state reset_case
  by_state-Ends patience st_reset t e n =
      let booted : (t.boot_flag == 0) ≡ false = ground arith in
      (await_fix D B kit t, rw booted, await_fix-IsReady t)
  by_state-Ends patience st_init t e n = (t, refl, ground arith)
  by_state-Ends patience st_sfset t e n = (t, refl, ground arith)
  by_state-Ends patience st_wpset t e n = ground arith
  by_state-Ends patience st_race t e n = (race_button D B kit t, refl, race_button-IsReady t)

  waypoints-push_track : (t : Sketch D B kit) → (push_track D B kit t).waypoints ≡ t.waypoints
  unfolding push_track
  waypoints-push_track t = refl

  use_fix-Ends :
      (t : Sketch D B kit) → 0 < length t.waypoints → IsValid D B kit t → Ends (use_fix D B kit t)
  unfolding use_fix
  use_fix-Ends t n v =
      let pushed = push_track-IsValid D B kit t v in
      Ends-bind _ _ (fix_part t.gps.fix pushed) λ u e. (_, refl)
    where
      fix_part :
          (fix : Bool)
          → IsValid D B kit (push_track D B kit t) × (0 < length (push_track D B kit t).tracks)
          → Ends (if fix then by_fix D B kit t.current_state (push_track D B kit t) else done t)
      fix_part true p =
          by_fix-Ends t.current_state (push_track D B kit t) p.1 (rw (waypoints-push_track t) n) p.0
      fix_part false p = (_, refl)

  after_parse-Ends :
      (t : Sketch D B kit) (r : Bool × Gps Real)
      → 0 < length t.waypoints
      → IsValid D B kit t
      → Ends (after_parse D B kit t r)
  unfolding after_parse took last_nmea echo_sentence
  after_parse-Ends t (true, gps) n v = use_fix-Ends (heard D B kit gps t) n (ground arith)
  after_parse-Ends t (false, gps) n v = (_, refl)

  second_half-Ends :
      (t : Sketch D B kit)
      → (t.receiver.recvdflag ≡ true → parse D (last_nmea t.receiver).0 t.gps ≢ none)
      → 0 < length t.waypoints
      → IsValid D B kit t
      → Ends (second_half D B kit t)
  unfolding second_half on_sentence
  second_half-Ends t p n v =
      Ends-if t.receiver.recvdflag
        (λ came.
          Ends-bind _ _ (Ends-lift (parse D (last_nmea t.receiver).0 t.gps) (p came))
            λ r e. after_parse-Ends t r n v)
        (_, refl)

  -- Between two passes, in a state that needs the start line (after booting, before the start,
  -- or in a race), the next pass comes to its end, whatever character, time and button level it
  -- meets, if the sentence that it takes up, if any, is one that `parse` is defined on.
  pub pass-Ends :
      (patience : ℕ) (available : Option ℕ) (t : Sketch D B kit)
      → IsSettled D B kit t
      → needs_start t.next_state t.boot_flag ≡ true
      → ((read available t.receiver).1.recvdflag ≡ true
          → parse D (last_nmea (read available t.receiver).1).0 t.gps ≢ none)
      → Ends (pass D B kit patience available t)
  unfolding pass
  pass-Ends patience available t v n p =
      let t' = record t { receiver = (read available t.receiver).1 } in
      let bounds = read-IsInBounds available t.receiver v.valid.bounds in
      let v' : IsValid D B kit t' = ground (arith, v.valid, bounds) in
      let (u, e, r) = by_state-Ends patience t.current_state t' (sym v.agree) n in
      rw e (
        second_half-Ends u (rw (r.same_gps, r.same_receiver) p)
          (omega (arith, r.same_size, v.valid.nonempty n))
          (by_state-IsValid D B kit patience t.current_state t' u e (sym v.agree) v'))
