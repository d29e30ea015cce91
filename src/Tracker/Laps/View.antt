-- ===== src/Tracker/Laps/View.antt =====
-- The sketch GPS_tracker_Single_Split.ino seen as a lap timer: positions, speeds and adjustments
-- of the gates are forgotten, and all but the waypoints, the two indices and the state.
use speed_feed.Tracker.Racing.{test_gate}
use speed_feed.Tracker.State.{
  State, st_race, Kit, done, lift, >>=-eq-done, lift-eq-done, done-injective,
}
use speed_feed.Tracker.Laps.{Times, Timer, no_times, book}
use speed_feed.Tracker.Startup.{Sketch}
use speed_feed.Common.{
  length, get_elem?, set, add32, sub32, ℕ, zero, suc, ◌-◌, ◌≡◌, refl, sym, ap, ◌∙◌, Bool, true,
  false, some, List, [], ◌∷◌, map, arith,
}
use speed_feed.Examples.Track.{gate}
use speed_feed.Double.{Double}
use speed_feed.Eeprom.{Bus}
use speed_feed.Waypoint.{Waypoint, reset_waypoint, reset, check_split}
use speed_feed.Platform.{World, millis}
use speed_feed.Geometry.{Point, intersection}

abbrev pub times : {R : Type 0} → Waypoint R → Times
times p = record {
  last = p.last;
  split_best = p.split_best;
  lap_best = p.lap_best;
  split_margin = p.split_margin;
  lap_margin = p.lap_margin;
}

abbrev pub is_race : State → Bool
is_race st_race = true
is_race _ = false

pub get_elem?-map :
    {A B : Type 0} (f : A → B) (xs : List A) (i : ℕ) {x : A}
    → get_elem? xs i ≡ some x
    → get_elem? (map f xs) i ≡ some (f x)
get_elem?-map f [] i h = cc
get_elem?-map f (x ∷ xs) zero h = cc
get_elem?-map f (x ∷ xs) (suc i) h = get_elem?-map f xs i h

pub map-set :
    {A B : Type 0} (f : A → B) (xs : List A) (i : ℕ) (v : A)
    → map f (set xs i v) ≡ set (map f xs) i (f v)
map-set f [] i v = refl
map-set f (x ∷ xs) zero v = refl
map-set f (x ∷ xs) (suc i) v = ap (λ l. f x ∷ l) (map-set f xs i v)

pub set-get_elem? :
    {A : Type 0} (xs : List A) (i : ℕ) (v : A) → get_elem? xs i ≡ some v → set xs i v ≡ xs
set-get_elem? [] i v h = refl
set-get_elem? (x ∷ xs) zero v h = cc
set-get_elem? (x ∷ xs) (suc i) v h = ap (λ l. x ∷ l) (set-get_elem? xs i v h)

-- A gate that is put in place of one with the same times.
pub times-set :
    {R : Type 0} (ps : List (Waypoint R)) (i : ℕ) (p gate : Waypoint R)
    → get_elem? ps i ≡ some p
    → times gate ≡ times p
    → map times (set ps i gate) ≡ map times ps
times-set ps i p gate h e =
    map-set times ps i gate
    ∙ set-get_elem? (map times ps) i (times gate) (get_elem?-map times ps i h ∙ ap some (sym e))

module _ (D : Double) where
  open D use {Real}

  pub times-reset :
      (ps : List (Waypoint Real)) → map times (reset D ps) ≡ map (λ g. no_times) (map times ps)
  unfolding reset reset_waypoint
  times-reset [] = refl
  times-reset (p ∷ ps) = ap (λ l. no_times ∷ l) (times-reset ps)

  pub times-check_split :
      (p obj : Waypoint Real) (lap_start : ℕ) (w : World)
      → let now = add32 (millis w) obj.adjustment in
        times (check_split D p obj lap_start w).0
        ≡ book now (sub32 now obj.last) (sub32 now lap_start) (times p)
  unfolding check_split book
  times-check_split p obj lap_start w = ground arith

  pub times-intersection :
      (p1 p2 : Point Real) (obj : Waypoint Real) → times (intersection D p1 p2 obj).1 ≡ times obj
  unfolding intersection
  times-intersection p1 p2 obj = ground arith

module _ (D : Double) (B : Bus) (kit : Kit D.Real) where
  open D use {Real}

  abbrev pub timer : Sketch D B kit → Timer
  timer t = record {
    gates = map times t.waypoints;
    last_gate = t.wp_last;
    next_gate = t.wp_next;
    racing = is_race t.next_state;
  }

  pub timer_eq :
      {gs hs : List Times} {l l' n n' : ℕ} {r r' : Bool}
      → gs ≡ hs
      → l ≡ l'
      → n ≡ n'
      → r ≡ r'
      → ◌≡◌ {A = Timer}
          (record { gates = gs; last_gate = l; next_gate = n; racing = r })
          (record { gates = hs; last_gate = l'; next_gate = n'; racing = r' })
  timer_eq a b c d = cc

  -- The gate with index i, as `intersection` leaves it: its times are those of the waypoint.
  pub test_gate-times :
      (i : ℕ) (t : Sketch D B kit) (r : Bool × Waypoint Real)
      → test_gate D B kit i t ≡ done r
      → (p : Waypoint Real) × (get_elem? t.waypoints i ≡ some p) × (times r.1 ≡ times p)
  unfolding test_gate
  test_gate-times i t r h =
      let (p1, e1, h1) = >>=-eq-done (lift (get_elem? t.tracks 0)) _ h in
      let (p2, e2, h2) = >>=-eq-done (lift (get_elem? t.tracks (length t.tracks - 1))) _ h1 in
      let (p, e3, h3) = >>=-eq-done (lift (get_elem? t.waypoints i)) _ h2 in
      (
        p,
        lift-eq-done (get_elem? t.waypoints i) e3,
        ap (λ (x : Bool × Waypoint Real). times x.1) (sym (done-injective h3))
            ∙ times-intersection D p1 p2 p,
      )
