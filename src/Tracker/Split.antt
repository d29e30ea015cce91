-- ===== src/Tracker/Split.antt =====
-- What a crossing in a race leaves of the waypoints (GPS_tracker_Single_Split.ino, case ST_RACE).
use mathlib.Core.Path.{subst}
use speed_feed.Common.{
  Bool-cases, inl, inr, ℕ, zero, suc, ◌+◌, ◌%◌, ◌<◌, ◌≡◌, ◌≢◌, refl, ap, ◌∙◌, sym, some, List, [],
  ◌∷◌, arith, length, length-set, get_elem?, set, leb,
}
use native.Mathlib.Nat.{mod_self, mod-eq_of_lt}
use speed_feed.Platform.{World}
use speed_feed.Double.{Double}
use speed_feed.Waypoint.{Waypoint, check_split}
use speed_feed.Eeprom.{Bus}
use speed_feed.Tracker.State.{Kit, done, >>=-eq-done, lift, lift-eq-done, done-injective}
use speed_feed.Tracker.Startup.{Sketch}
use speed_feed.Tracker.Racing.{cross, record_split, after_index}

pub get_elem?-set_other {ℓ} :
    {A : Type ℓ} (xs : List A) (i j : ℕ) (v : A) → i ≢ j → get_elem? (set xs i v) j ≡ get_elem? xs j
get_elem?-set_other [] i j v n = refl
get_elem?-set_other (x ∷ xs) zero zero v n = absurd (n refl)
get_elem?-set_other (x ∷ xs) zero (suc j) v n = refl
get_elem?-set_other (x ∷ xs) (suc i) zero v n = refl
get_elem?-set_other (x ∷ xs) (suc i) (suc j) v n = get_elem?-set_other xs i j v (λ e. n (ap suc e))

pub get_elem?-set_same {ℓ} :
    {A : Type ℓ} (xs : List A) (i : ℕ) (v : A) → i < length xs → get_elem? (set xs i v) i ≡ some v
get_elem?-set_same [] i v h = absurd (omega arith)
get_elem?-set_same (x ∷ xs) zero v h = refl
get_elem?-set_same (x ∷ xs) (suc i) v h = get_elem?-set_same xs i v (omega arith)

pub after_index-mod : (n i : ℕ) → i < n → after_index n i ≡ (i + 1) % n
after_index-mod n i h = elim (Bool-cases (leb n (i + 1))) [
  | inl last ↦ let e : i + 1 ≡ n = ground arith in rw last (sym (rw e (mod_self n)))
  | inr before ↦ rw before (sym (mod-eq_of_lt (ground arith)))
]

module _ (D : Double) (B : Bus) (kit : Kit D.Real) where
  open D use {Real}

  -- The waypoint that is next takes the split, measured from the last one and, for the lap, from
  -- the first, each as it stands after `intersection`; all others stay; the one crossed becomes
  -- the last, and the next one follows it round the track.
  pub record IsCrossed (gate : Waypoint Real) (t u : Sketch D B kit) : Type 0 where
    pub prev : Waypoint Real
    pub first : Waypoint Real
    pub is_prev : get_elem? (set t.waypoints t.wp_next gate) t.wp_last ≡ some prev
    pub is_first : get_elem? (set t.waypoints t.wp_next gate) 0 ≡ some first
    pub crossed :
        get_elem? u.waypoints t.wp_next ≡ some (check_split D gate prev first.last t.lights.world).0
    pub others : (i : ℕ) → i ≢ t.wp_next → get_elem? u.waypoints i ≡ get_elem? t.waypoints i
    pub size : length u.waypoints ≡ length t.waypoints
    pub last : u.wp_last ≡ t.wp_next
    pub next : u.wp_next ≡ (t.wp_next + 1) % length t.waypoints
    pub tracks : u.tracks ≡ []

  record_split-IsCrossed :
      (gate prev first : Waypoint Real) (t : Sketch D B kit)
      → t.wp_next < length t.waypoints
      → get_elem? (set t.waypoints t.wp_next gate) t.wp_last ≡ some prev
      → get_elem? (set t.waypoints t.wp_next gate) 0 ≡ some first
      → IsCrossed gate t (record_split D B kit gate prev first (set t.waypoints t.wp_next gate) t)
  unfolding record_split
  record_split-IsCrossed gate prev first t h p f =
      let ps = set t.waypoints t.wp_next gate in
      let new = (check_split D gate prev first.last t.lights.world).0 in
      let size = length-set t.waypoints t.wp_next gate in
      record {
        prev = prev;
        first = first;
        is_prev = p;
        is_first = f;
        crossed = get_elem?-set_same ps t.wp_next new (omega (arith, size));
        others = λ i n.
            get_elem?-set_other ps t.wp_next i new (λ e. n (sym e))
            ∙ get_elem?-set_other t.waypoints t.wp_next i gate (λ e. n (sym e));
        size = length-set ps t.wp_next new ∙ size;
        last = refl;
        next = after_index-mod (length t.waypoints) t.wp_next h;
        tracks = refl;
      }

  -- A crossing in a race that comes to its end, with the index of the next waypoint in bounds:
  -- the vector afterwards is as `IsCrossed` says, and the indices go on round the track.
  pub cross-IsCrossed :
      (gate : Waypoint Real) (t u : Sketch D B kit)
      → cross D B kit gate t ≡ done u
      → t.wp_next < length t.waypoints
      → IsCrossed gate t u
  unfolding cross
  cross-IsCrossed gate t u h n =
      let ps = set t.waypoints t.wp_next gate in
      let (prev, e1, h1) = >>=-eq-done (lift (get_elem? ps t.wp_last)) _ h in
      let (first, e2, h2) = >>=-eq-done (lift (get_elem? ps 0)) _ h1 in
      subst (IsCrossed gate t) (done-injective h2) (
        record_split-IsCrossed gate prev first t n (lift-eq-done (get_elem? ps t.wp_last) e1)
          (lift-eq-done (get_elem? ps 0) e2))

  -- the times, the bests and the margins that a waypoint keeps
  pub record SameTimes (p q : Waypoint Real) : Type 0 where
    pub same_last : p.last ≡ q.last
    pub same_split : p.split_best ≡ q.split_best
    pub same_split_margin : p.split_margin ≡ q.split_margin
    pub same_lap : p.lap_best ≡ q.lap_best
    pub same_lap_margin : p.lap_margin ≡ q.lap_margin
    pub same_speed_best : p.speed_best ≡ q.speed_best
    pub same_speed_margin : p.speed_margin ≡ q.speed_margin

  check_split-SameTimes :
      (gate prev : Waypoint Real) (lap_start adjustment : ℕ) (speed : Real) (w : World)
      → SameTimes
          (check_split D gate prev lap_start w).0
          (check_split D
            (record gate { speed = speed; adjustment = adjustment })
            prev
            lap_start
            w).0
  unfolding check_split
  check_split-SameTimes gate prev lap_start adjustment speed w = ground arith

  -- At a waypoint that is neither the first nor the one passed last, the speed and the adjustment
  -- that `intersection` has worked out for this very crossing count for nothing: with any others
  -- in their place, the waypoint gets the same last time, bests and margins. What counts are
  -- those of the waypoint passed last.
  pub cross-SameTimes :
      (gate : Waypoint Real) (adjustment : ℕ) (speed : Real) (t u v : Sketch D B kit)
      → cross D B kit gate t ≡ done u
      → cross D B kit (record gate { speed = speed; adjustment = adjustment }) t ≡ done v
      → t.wp_next < length t.waypoints
      → t.wp_last ≢ t.wp_next
      → t.wp_next ≢ 0
      → (p : Waypoint Real) × (q : Waypoint Real) × (get_elem? u.waypoints t.wp_next ≡ some p)
        × (get_elem? v.waypoints t.wp_next ≡ some q)
        × SameTimes p q
  cross-SameTimes gate adjustment speed t u v h k n l z =
      let gate' = record gate { speed = speed; adjustment = adjustment } in
      let a = cross-IsCrossed gate t u h n in
      let b = cross-IsCrossed gate' t v k n in
      let at = λ (g : Waypoint Real) (i : ℕ) (ne : i ≢ t.wp_next).
        get_elem?-set_other t.waypoints t.wp_next i g (λ e. ne (sym e)) in
      let prev : a.prev ≡ b.prev =
        ground (arith, a.is_prev, b.is_prev, at gate t.wp_last l, at gate' t.wp_last l) in
      let first : a.first ≡ b.first =
        ground (
          arith,
          a.is_first,
          b.is_first,
          at gate 0 (λ e. z (sym e)),
          at gate' 0 (λ e. z (sym e)),
        ) in
      (
        (check_split D gate a.prev a.first.last t.lights.world).0,
        (check_split D gate' a.prev a.first.last t.lights.world).0,
        a.crossed,
        rw (prev, first) b.crossed,
        check_split-SameTimes gate a.prev a.first.last adjustment speed t.lights.world,
      )
