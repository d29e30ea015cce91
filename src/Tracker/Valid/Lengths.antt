-- ===== src/Tracker/Valid/Lengths.antt =====
-- How many waypoints there are (SpeedFeed.cpp, reset and loadWaypoints).
use speed_feed.Common.{
  ℕ, zero, suc, ◌+◌, ◌≤◌, ◌<◌, ◌≡◌, refl, ap, ◌∙◌, some, List, [], ◌∷◌, ◌++◌, arith, length,
  length-append, get_elem?,
}
use speed_feed.Platform.{World}
use speed_feed.Double.{Double}
use speed_feed.Waypoint.{Waypoint, reset, new_waypoint}
use speed_feed.Eeprom.{
  echo_marker, echo_gate, Bus, at_index, load_each, load_gate, read_anything, byte_of,
  load_waypoints,
}

pub get_elem?-defined {ℓ} :
    {A : Type ℓ} (xs : List A) (i : ℕ) → i < length xs → (x : A) × (get_elem? xs i ≡ some x)
get_elem?-defined [] i h = absurd (omega arith)
get_elem?-defined (x ∷ xs) zero h = (x, refl)
get_elem?-defined (x ∷ xs) (suc i) h = get_elem?-defined xs i (omega arith)

pub length-reset : (D : Double) (ps : List (Waypoint D.Real)) → length (reset D ps) ≡ length ps
unfolding reset
length-reset D [] = refl
length-reset D (p ∷ ps) = ap suc (length-reset D ps)

module _ (D : Double) (B : Bus) where
  open D use {Real, literal}
  open B use {State}

  length-at_index :
      (i : ℕ) (f : Waypoint Real → State → Waypoint Real × State) (ps : List (Waypoint Real))
      (s : State)
      → length (at_index D B i f ps s).0 ≡ length ps
  unfolding at_index
  length-at_index i f [] s = refl
  length-at_index zero f (p ∷ ps) s = refl
  length-at_index (suc i) f (p ∷ ps) s = ap suc (length-at_index i f ps s)

  length-load_each :
      (memory : ℕ → Waypoint Real) (n i device address : ℕ) (ps : List (Waypoint Real)) (w : World)
      (s : State)
      → length (load_each D B memory n i device address ps w s).0 ≡ length ps + n
  unfolding load_each
  length-load_each memory zero i device address ps w s = omega arith
  length-load_each memory (suc n) i device address ps w s =
      let o = literal 0 in
      let (p, w') = new_waypoint D (memory i) o o o o o w in
      let r = at_index D B i (load_gate D B device address) (ps ++ (p ∷ [])) s in
      length-load_each memory n (i + 1) device (address + 8 + 8 + 8 + 8) r.0
        (echo_gate D B i r.0 w') r.1
      ∙ omega (
        arith,
        length-at_index i (load_gate D B device address) (ps ++ (p ∷ [])) s,
        length-append ps (p ∷ []),
      )

  pub length-load_waypoints :
      (memory : ℕ → Waypoint Real) (device address : ℕ) (ps : List (Waypoint Real)) (w : World)
      (s : State)
      → length ps ≤ length (load_waypoints D B memory device address ps w s).0
  unfolding load_waypoints
  length-load_waypoints memory device address ps w s =
      let (c, s') = read_anything B device address 1 s in
      let r = read_anything B device (address + 1) 1 s' in
      ground (
        arith,
        length-load_each memory (byte_of r.0) 0 device (address + 1 + 1) ps (echo_marker D B c w)
            r.1,
      )
