-- ===== src/Tracker/Laps/Cross.antt =====
-- A crossing in a race as a step of the lap timer.
use speed_feed.Tracker.Laps.View.{
  times, is_race, get_elem?-map, map-set, times-set, times-check_split, timer, timer_eq,
}
use speed_feed.Tracker.Racing.{record_split, cross}
use speed_feed.Tracker.State.{Kit, done, lift, >>=-eq-done, lift-eq-done, done-injective}
use speed_feed.Tracker.Startup.{Sketch}
use speed_feed.Tracker.Split.{get_elem?-set_same, after_index-mod}
use speed_feed.Common.{
  length, get_elem?, set, add32, ℕ, zero, suc, ◌^◌, ◌<◌, ◌≡◌, refl, sym, ap, ◌∙◌, true, some, List,
  [], ◌∷◌, map, arith,
}
use speed_feed.Tracker.Laps.{Times, cross_next, Gates, Step, Steps, one, length-map}
use speed_feed.Double.{Double}
use speed_feed.Sentence.{first}
use speed_feed.Eeprom.{Bus}
use speed_feed.Waypoint.{Waypoint, check_split}
use speed_feed.Platform.{millis}
use mathlib.Core.Path.{subst}

pub get_elem?-length :
    {A : Type 0} (xs : List A) (i : ℕ) {x : A} → get_elem? xs i ≡ some x → i < length xs
get_elem?-length [] i h = cc
get_elem?-length (x ∷ xs) zero h = omega arith
get_elem?-length (x ∷ xs) (suc i) h = omega (arith, get_elem?-length xs i h)

module _ (D : Double) (B : Bus) (kit : Kit D.Real) where
  open D use {Real}

  abbrev pub Refines : Sketch D B kit → Sketch D B kit → Type 0
  Refines t u = Steps (timer D B kit t) (timer D B kit u)

  -- Nothing that the timer sees is changed.
  pub record SameTimer (t u : Sketch D B kit) : Type 0 where
    pub same_waypoints : u.waypoints ≡ t.waypoints
    pub same_last : u.wp_last ≡ t.wp_last
    pub same_next : u.wp_next ≡ t.wp_next
    pub same_race : is_race u.next_state ≡ is_race t.next_state

  pub timer-SameTimer : (t u : Sketch D B kit) → SameTimer t u → timer D B kit t ≡ timer D B kit u
  timer-SameTimer t u e =
      timer_eq D B kit (ap (map times) (sym e.same_waypoints)) (sym e.same_last) (sym e.same_next)
        (sym e.same_race)

  pub Refines-same : (t u : Sketch D B kit) → SameTimer t u → Refines t u
  Refines-same t u e = subst (Steps (timer D B kit t)) (timer-SameTimer t u e) Steps.none_yet

  pub length-waypoints : (t : Sketch D B kit) → length (timer D B kit t).gates ≡ length t.waypoints
  length-waypoints t = length-map times t.waypoints

  -- The gates that a crossing looks at, in a vector with the same times.
  unfoldable pub gates_of :
      (t : Sketch D B kit) (ps : List (Waypoint Real)) (here prev first : Waypoint Real)
      → map times ps ≡ map times t.waypoints
      → get_elem? ps t.wp_next ≡ some here
      → get_elem? ps t.wp_last ≡ some prev
      → get_elem? ps 0 ≡ some first
      → Gates (timer D B kit t)
  gates_of t ps here prev first e a b c = record {
    here = times here;
    prev = times prev;
    first = times first;
    is_here = rw (sym e) (get_elem?-map times ps t.wp_next a);
    is_prev = rw (sym e) (get_elem?-map times ps t.wp_last b);
    is_first = rw (sym e) (get_elem?-map times ps 0 c);
  }

  -- The split is booked at the next gate.
  pub booked :
      (t : Sketch D B kit) (ps : List (Waypoint Real)) (here prev first : Waypoint Real)
      → map times ps ≡ map times t.waypoints
      → let now = add32 (millis t.lights.world) prev.adjustment in
        map times (set ps t.wp_next (check_split D here prev first.last t.lights.world).0)
        ≡ (cross_next now (times here) (times prev) (times first) (timer D B kit t)).gates
  unfolding cross_next
  booked t ps here prev first e =
      let w = t.lights.world in
      let p = (check_split D here prev first.last w).0 in
      map-set times ps t.wp_next p
      ∙ ap (λ (gs : List Times). set gs t.wp_next (times p)) e
      ∙ ap (set (timer D B kit t).gates t.wp_next) (times-check_split D here prev first.last w)

  pub record_split-timer :
      (gate prev first : Waypoint Real) (ps : List (Waypoint Real)) (t : Sketch D B kit)
      (e : map times ps ≡ map times t.waypoints) (a : get_elem? ps t.wp_next ≡ some gate)
      (b : get_elem? ps t.wp_last ≡ some prev) (c : get_elem? ps 0 ≡ some first)
      → t.wp_next < length t.waypoints
      → let now = add32 (millis t.lights.world) prev.adjustment in
        let gs = gates_of t ps gate prev first e a b c in
        cross_next now gs.here gs.prev gs.first (timer D B kit t)
        ≡ timer D B kit (record_split D B kit gate prev first ps t)
  unfolding record_split cross_next gates_of
  record_split-timer gate prev first ps t e a b c l =
      timer_eq D B kit (sym (booked t ps gate prev first e)) refl
        (rw (length-waypoints t) (sym (after_index-mod (length t.waypoints) t.wp_next l))) refl

  -- A crossing is one of the timer, at some time.
  pub record CrossesTo (t u : Sketch D B kit) : Type 0 where
    pub now : ℕ
    pub is_word : now < 2 ^ 32
    pub gates : Gates (timer D B kit t)
    pub to : cross_next now gates.here gates.prev gates.first (timer D B kit t) ≡ timer D B kit u

  pub cross-CrossesTo :
      (gate p : Waypoint Real) (t u : Sketch D B kit)
      → cross D B kit gate t ≡ done u
      → get_elem? t.waypoints t.wp_next ≡ some p
      → times gate ≡ times p
      → CrossesTo t u
  unfolding cross
  cross-CrossesTo gate p t u h at same =
      let ps = set t.waypoints t.wp_next gate in
      let l = get_elem?-length t.waypoints t.wp_next at in
      let e = times-set t.waypoints t.wp_next p gate at same in
      let a = get_elem?-set_same t.waypoints t.wp_next gate l in
      let (prev, e1, h1) = >>=-eq-done (lift (get_elem? ps t.wp_last)) _ h in
      let (first, e2, h2) = >>=-eq-done (lift (get_elem? ps 0)) _ h1 in
      let b = lift-eq-done (get_elem? ps t.wp_last) e1 in
      let c = lift-eq-done (get_elem? ps 0) e2 in
      subst (CrossesTo t) (done-injective h2) (record {
        now = add32 (millis t.lights.world) prev.adjustment;
        is_word = omega arith;
        gates = gates_of t ps gate prev first e a b c;
        to = record_split-timer gate prev first ps t e a b c l;
      })

  pub cross-Refines :
      (gate p : Waypoint Real) (t u : Sketch D B kit)
      → cross D B kit gate t ≡ done u
      → get_elem? t.waypoints t.wp_next ≡ some p
      → times gate ≡ times p
      → is_race t.next_state ≡ true
      → Refines t u
  cross-Refines gate p t u h at same n =
      let c = cross-CrossesTo gate p t u h at same in
      subst (Steps (timer D B kit t)) c.to (one (Step.splits c.now c.gates n))
