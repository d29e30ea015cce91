-- ===== src/Tracker/Laps/Lap.antt =====
-- The first lap of a race in GPS_tracker_Single_Split.ino.
use speed_feed.Tracker.Laps.Round.{total_best, AllNew, Crossings, first_lap}
use speed_feed.Tracker.Laps.View.{times, get_elem?-map, timer, test_gate-times}
use speed_feed.Tracker.Laps.Cross.{SameTimer, timer-SameTimer, length-waypoints, cross-CrossesTo}
use speed_feed.Tracker.Racing.{cross, test_gate}
use speed_feed.Tracker.State.{Kit, done}
use speed_feed.Tracker.Laps.{Times, Timer}
use speed_feed.Tracker.Startup.{Sketch}
use speed_feed.Common.{
  some-injective, length, get_elem?, ℕ, zero, suc, ◌%◌, ◌^◌, ◌<◌, ◌≡◌, refl, sym, ap, ◌∙◌, true,
  some, List, [], ◌∷◌, map,
}
use speed_feed.Double.{Double}
use speed_feed.Eeprom.{Bus}
use speed_feed.Waypoint.{Waypoint}
use mathlib.Core.Path.{subst}

get_elem?-of_map :
    {A B : Type 0} (f : A → B) (xs : List A) (i : ℕ) {y : B}
    → get_elem? (map f xs) i ≡ some y
    → (x : A) × (get_elem? xs i ≡ some x) × (f x ≡ y)
get_elem?-of_map f [] i h = cc
get_elem?-of_map f (x ∷ xs) zero h = (x, refl, some-injective h)
get_elem?-of_map f (x ∷ xs) (suc i) h = get_elem?-of_map f xs i h

module _ (D : Double) (B : Bus) (kit : Kit D.Real) where
  open D use {Real}

  -- A number of crossings in a race. Between two of them anything may happen that leaves the
  -- waypoints and the two indices alone, such as passes with no crossing and no reset.
  pub data Lap (t : Sketch D B kit) : Sketch D B kit → ℕ → Type 0 where
    begins : Lap t t 0
    goes_on : {u v : Sketch D B kit} {k : ℕ} → Lap t u k → SameTimer D B kit u v → Lap t v k
    crosses :
        {u v : Sketch D B kit} {k : ℕ} (gate : Waypoint Real)
        → Lap t u k
        → test_gate D B kit u.wp_next u ≡ done (true, gate)
        → cross D B kit gate u ≡ done v
        → Lap t v (suc k)

  Lap-Crossings :
      (t u : Sketch D B kit) (k : ℕ) → Lap t u k → Crossings (timer D B kit t) (timer D B kit u) k
  Lap-Crossings t u k (Lap.begins) = Crossings.no_crossing
  Lap-Crossings t u k (Lap.goes_on {u = v} run same) =
      subst (λ (c : Timer). Crossings (timer D B kit t) c k) (timer-SameTimer D B kit v u same)
        (Lap-Crossings t v k run)
  Lap-Crossings t u k (Lap.crosses {u = v} {k = j} gate run h g) =
      let (p, at, same) = test_gate-times D B kit v.wp_next v (true, gate) h in
      let c = cross-CrossesTo D B kit gate p v u g at same in
      subst (λ (d : Timer). Crossings (timer D B kit t) d (suc j)) c.to
        (Crossings.one_more c.now c.gates c.is_word (Lap-Crossings t v j run))

  -- A race from the start line with no best times yet: once each gate has been crossed, and the
  -- start line last, the best lap that is kept there is the sum of the best splits of all gates,
  -- up to the wrap-around of a word.
  pub first_lap-total_best :
      (t u : Sketch D B kit) (p : Waypoint Real)
      → Lap t u (length t.waypoints)
      → AllNew (map times t.waypoints)
      → t.wp_last ≡ 0
      → t.wp_next ≡ 1 % length t.waypoints
      → get_elem? t.waypoints 0 ≡ some p
      → p.last < 2 ^ 32
      → (q : Waypoint Real) × (get_elem? u.waypoints 0 ≡ some q)
        × (q.lap_best ≡ total_best (map times u.waypoints) % 2 ^ 32)
  first_lap-total_best t u p run new l n at w =
      let size = length-waypoints D B kit t in
      let (h, is_h, sum) =
        first_lap (timer D B kit t) (timer D B kit u) (length t.waypoints) (times p)
          (Lap-Crossings t u (length t.waypoints) run) (sym size) new l (rw size n)
          (get_elem?-map times t.waypoints 0 at) w in
      let (q, is_q, same) = get_elem?-of_map times u.waypoints 0 is_h in
      (q, is_q, ap (λ (x : Times). x.lap_best) same ∙ sum)
