-- ===== src/Eeprom/RoundTrip.antt =====
-- `loadWaypoints` after `storeWaypoints` (SpeedFeed.cpp): the gates come back.
use mathlib.Core.Path.{ap₂}
use speed_feed.Common.{
  ℕ, zero, suc, ◌+◌, ◌*◌, ◌%◌, ◌≤◌, ◌≡◌, refl, sym, ◌∙◌, ap, List, [], ◌∷◌, ◌++◌, arith, length,
  length-append, map, take,
}
use mathlib.Core.List.{append-nil}
use speed_feed.Platform.{World}
use speed_feed.Double.{Double}
use speed_feed.Waypoint.{Waypoint, new_waypoint}
use speed_feed.Eeprom.{
  echo_marker, echo_gate, Bus, write_anything, read_anything, word_bytes, marker, store_waypoints,
  load_gate, at_index, load_each, load_waypoints,
}
use speed_feed.Eeprom.Cells.{
  IsEeprom, capacity, SameCells, write_anything-below, write_anything-Holds, read_anything-Holds,
}
use speed_feed.Eeprom.Gates.{
  IsLayout, HoldsGates, store_each-below, store_each-HoldsGates, HoldsGates-SameCells,
  load_gate-Holds,
}

-- the two ends of a gate
abbrev pub ends : {R : Type 0} → Waypoint R → R × R × R × R
ends p = (p.x1, p.y1, p.x2, p.y2)

module _ (D : Double) (B : Bus) where
  open D use {Real}
  open B use {State}

  pub at_index-length :
      (f : Waypoint Real → State → Waypoint Real × State) (ps : List (Waypoint Real))
      (p : Waypoint Real) (i : ℕ) (s : State)
      → i ≡ length ps
      → at_index D B i f (ps ++ (p ∷ [])) s ≡ (ps ++ ((f p s).0 ∷ []), (f p s).1)
  unfolding at_index
  at_index-length f [] p zero s e = refl
  at_index-length f [] p (suc i) s e = absurd (omega arith)
  at_index-length f (q ∷ ps) p zero s e = absurd (omega arith)
  at_index-length f (q ∷ ps) p (suc i) s e =
      let ih = at_index-length f ps p i s (omega arith) in
      ap (λ (r : List (Waypoint Real) × State). (q ∷ r.0, r.1)) ih

module _ (D : Double) (L : IsLayout D) (B : Bus) (E : IsEeprom B) (d : ℕ) where
  open D use {Real, literal}
  open B use {State}
  open E use {cell}

  load_each-ends :
      (memory : ℕ → Waypoint Real) (n i address : ℕ) (ps qs : List (Waypoint Real)) (w : World)
      (s : State)
      → i ≡ length ps
      → n ≤ length qs
      → address + 32 * n ≤ capacity
      → HoldsGates D L B E d s address qs
      → map ends (load_each D B memory n i d address ps w s).0 ≡ map ends (ps ++ take n qs)
  unfolding load_each
  load_each-ends memory zero i address ps qs w s e h k held = ap (map ends) (sym (append-nil ps))
  load_each-ends memory (suc n) i address ps [] w s e h k held = absurd (omega arith)
  load_each-ends memory (suc n) i address ps (q ∷ qs) w s e h k held =
      let o = literal 0 in
      let r = new_waypoint D (memory i) o o o o o w in
      let g = load_gate D B d address r.0 s in
      let same = load_gate-Holds D L B E d q r.0 qs address s (omega arith) held in
      let ih =
        load_each-ends memory n (i + 1) (address + 8 + 8 + 8 + 8) (ps ++ (g.0 ∷ [])) qs
          (echo_gate D B i (ps ++ (g.0 ∷ [])) r.1) g.1 (omega (arith, length-append ps (g.0 ∷ [])))
          (omega arith) (omega arith)
          (HoldsGates-SameCells D L B E d s g.1 (address + 8 + 8 + 8 + 8) qs same.1 held.4) in
      ap
        (λ (x : List (Waypoint Real) × State).
          map ends
            (load_each D B memory n (i + 1) d (address + 8 + 8 + 8 + 8) x.0
              (echo_gate D B i x.0 r.1) x.1).0)
        (at_index-length D B (load_gate D B d address) ps r.0 i s e)
      ∙ ih
      ∙ same_ends ps g.0 q (take n qs) same.0
    where
      same_ends :
          (cs : List (Waypoint Real)) (a b : Waypoint Real) (bs : List (Waypoint Real))
          → (a.x1 ≡ b.x1) × (a.y1 ≡ b.y1) × (a.x2 ≡ b.x2) × (a.y2 ≡ b.y2)
          → map ends ((cs ++ (a ∷ [])) ++ bs) ≡ map ends (cs ++ (b ∷ bs))
      same_ends [] a b bs h = ap₂ ◌∷◌ (ground arith) refl
      same_ends (c ∷ cs) a b bs h = ap (λ l. ends c ∷ l) (same_ends cs a b bs h)

  -- A chip that holds a track: the marker, the lowest byte of the number of gates, and the gates.
  abbrev pub HoldsTrack : State → ℕ → List (Waypoint Real) → Type 0
  HoldsTrack s address ps =
      (cell s d address ≡ marker)
      × (cell s d (address + 1) ≡ length ps % 256)
      × HoldsGates D L B E d s (address + 1 + 1) ps

  pub HoldsTrack-SameCells :
      (s s' : State) (address : ℕ) (ps : List (Waypoint Real))
      → SameCells B E d s s'
      → HoldsTrack s address ps
      → HoldsTrack s' address ps
  HoldsTrack-SameCells s s' address ps e h = (
    e address ∙ h.0,
    e (address + 1) ∙ h.1,
    HoldsGates-SameCells D L B E d s s' (address + 1 + 1) ps e h.2,
  )

  -- where `store_waypoints` leaves the header and the gates
  pub store_waypoints-HoldsTrack :
      (ps : List (Waypoint Real)) (address : ℕ) (s : State)
      → address + 5 + 32 * length ps ≤ capacity
      → HoldsTrack (store_waypoints D B d address ps s) address ps
  unfolding store_waypoints
  store_waypoints-HoldsTrack ps address s k =
      let s1 = write_anything B d address (word_bytes marker) s in
      let s2 = write_anything B d (address + 1) (word_bytes (length ps)) s1 in
      let below = store_each-below D L B E d ps (address + 1 + 1) in
      let a =
        write_anything-Holds B E d (word_bytes marker) address s (omega arith) (omega arith) in
      let b =
        write_anything-Holds B E d (word_bytes (length ps)) (address + 1) s1 (omega arith)
          (omega arith) in
      let c =
        write_anything-below B E d (word_bytes (length ps)) (address + 1) address s1 (omega arith)
          (omega arith) (omega arith) in
      (
        below address s2 (omega arith) (omega arith) ∙ c ∙ a.0,
        below (address + 1) s2 (omega arith) (omega arith) ∙ b.0,
        store_each-HoldsGates D L B E d ps (address + 1 + 1) s2 (omega arith),
      )

  -- `loadWaypoints` on a chip that holds a track
  pub load_waypoints-HoldsTrack :
      (memory : ℕ → Waypoint Real) (ps : List (Waypoint Real)) (address : ℕ) (w : World)
      (s0 : State)
      → address + 5 + 32 * length ps ≤ capacity
      → HoldsTrack s0 address ps
      → map ends (load_waypoints D B memory d address [] w s0).0
        ≡ map ends (take (length ps % 256) ps)
  unfolding load_waypoints
  load_waypoints-HoldsTrack memory ps address w s0 k c =
      let r1 = read_anything-Holds B E d (marker ∷ []) address 1 s0 refl (omega arith) (c.0, tt) in
      let s1 = (read_anything B d address 1 s0).1 in
      let r2 =
        read_anything-Holds B E d (length ps % 256 ∷ []) (address + 1) 1 s1 refl (omega arith)
          (r1.1 (address + 1) ∙ c.1, tt) in
      let s2 = (read_anything B d (address + 1) 1 s1).1 in
      rw (r1.0, r2.0)
        (load_each-ends memory (length ps % 256) 0 (address + 1 + 1) [] ps
          (echo_marker D B (marker ∷ []) w) s2 refl (omega arith) (omega arith)
          (HoldsGates-SameCells D L B E d s0 s2 (address + 1 + 1) ps (λ a. r2.1 a ∙ r1.1 a) c.2))

  -- If the gates and the headers fit below the end of the chip, then `loadWaypoints` into an
  -- empty vector, from the state and the address that `storeWaypoints` has written, gives back
  -- the ends of the first `n % 256` gates in their order, where `n` is the number stored: all of
  -- them if there were at most 255.
  pub load-store :
      (memory : ℕ → Waypoint Real) (ps : List (Waypoint Real)) (address : ℕ) (w : World) (s : State)
      → address + 5 + 32 * length ps ≤ capacity
      → let s' = store_waypoints D B d address ps s in
        map ends (load_waypoints D B memory d address [] w s').0
        ≡ map ends (take (length ps % 256) ps)
  load-store memory ps address w s k =
      load_waypoints-HoldsTrack memory ps address w (store_waypoints D B d address ps s) k
        (store_waypoints-HoldsTrack ps address s k)
