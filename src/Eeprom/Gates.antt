-- ===== src/Eeprom/Gates.antt =====
-- The bytes of gates in the EEPROM (SpeedFeed.cpp, storeWaypoints and loadWaypoints): what the
-- loop of the one writes, a round of the other reads back.
use speed_feed.Common.{ℕ, ◌+◌, ◌*◌, ◌≤◌, ◌<◌, ◌≡◌, refl, ◌∙◌, ap, List, [], ◌∷◌, arith, length}
use speed_feed.Double.{Double}
use speed_feed.Waypoint.{Waypoint}
use speed_feed.Eeprom.{Bus, write_anything, store_each, read_double, load_gate}
use speed_feed.Eeprom.Cells.{
  AllBytes, IsEeprom, capacity, Holds, SameCells, Holds-SameCells, Holds-below,
  write_anything-below, write_anything-Holds, read_anything-Holds,
}

-- What the compiler says of a double in memory: eight bytes, from which it can be read back.
pub record IsLayout (D : Double) : Type 0 where
  pub size : (x : D.Real) → length (D.bytes x) ≡ 8
  pub range : (x : D.Real) → AllBytes (D.bytes x)
  pub back : (x : D.Real) → D.of_bytes (D.bytes x) ≡ x

module _ (D : Double) (L : IsLayout D) (B : Bus) (E : IsEeprom B) (d : ℕ) where
  open D use {Real, bytes, of_bytes}
  open L use {size, range, back}
  open B use {State}
  open E use {cell}

  -- the four writes of one round of `storeWaypoints`
  write_gate : (address : ℕ) → Waypoint Real → State → State
  write_gate address p s = write_anything B d (address + 8 + 8 + 8) (bytes p.y2) (
      write_anything B d (address + 8 + 8) (bytes p.x2)
        (write_anything B d (address + 8) (bytes p.y1) (write_anything B d address (bytes p.x1) s)))

  -- A double that is written above another one leaves it in place.
  write_double-keeps :
      (x y : Real) (address top : ℕ) (s : State)
      → address + 8 ≤ top
      → top + 8 ≤ capacity
      → Holds B E d s address (bytes x)
      → Holds B E d (write_anything B d top (bytes y) s) address (bytes x)
  write_double-keeps x y address top s h k held =
      Holds-below B E d s (write_anything B d top (bytes y) s) address top (bytes x)
        (λ a l. write_anything-below B E d (bytes y) top a s l (omega (arith, size y)) (range y))
        (omega (arith, size x)) held

  write_double-Holds :
      (x : Real) (address : ℕ) (s : State)
      → address + 8 ≤ capacity
      → Holds B E d (write_anything B d address (bytes x) s) address (bytes x)
  write_double-Holds x address s h =
      write_anything-Holds B E d (bytes x) address s (omega (arith, size x)) (range x)

  write_gate-Holds :
      (address : ℕ) (p : Waypoint Real) (s : State)
      → address + 32 ≤ capacity
      → let s' = write_gate address p s in
        Holds B E d s' address (bytes p.x1)
        × Holds B E d s' (address + 8) (bytes p.y1)
        × Holds B E d s' (address + 8 + 8) (bytes p.x2)
        × Holds B E d s' (address + 8 + 8 + 8) (bytes p.y2)
  unfolding write_gate
  write_gate-Holds address p s h = (
    write_double-keeps p.x1 p.y2 address (address + 8 + 8 + 8) _ (omega arith) (omega arith) (
        write_double-keeps p.x1 p.x2 address (address + 8 + 8) _ (omega arith) (omega arith) (
          write_double-keeps p.x1 p.y1 address (address + 8) _ (omega arith) (omega arith)
            (write_double-Holds p.x1 address s (omega arith)))),
    write_double-keeps p.y1 p.y2 (address + 8) (address + 8 + 8 + 8) _ (omega arith) (omega arith) (
        write_double-keeps p.y1 p.x2 (address + 8) (address + 8 + 8) _ (omega arith) (omega arith)
          (write_double-Holds p.y1 (address + 8) _ (omega arith))),
    write_double-keeps p.x2 p.y2 (address + 8 + 8) (address + 8 + 8 + 8) _ (omega arith)
        (omega arith) (write_double-Holds p.x2 (address + 8 + 8) _ (omega arith)),
    write_double-Holds p.y2 (address + 8 + 8 + 8) _ (omega arith),
  )

  write_gate-below :
      (address a : ℕ) (p : Waypoint Real) (s : State)
      → a < address
      → address + 32 ≤ capacity
      → cell (write_gate address p s) d a ≡ cell s d a
  unfolding write_gate
  write_gate-below address a p s h k =
      let below = λ (x : Real) (top : ℕ) (t : State) (l : a < top) (m : top + 8 ≤ capacity).
        write_anything-below B E d (bytes x) top a t l (omega (arith, size x)) (range x) in
      below p.y2 (address + 8 + 8 + 8) _ (omega arith) (omega arith)
      ∙ below p.x2 (address + 8 + 8) _ (omega arith) (omega arith)
      ∙ below p.y1 (address + 8) _ (omega arith) (omega arith)
      ∙ below p.x1 address s (omega arith) (omega arith)

  -- from `address` on, the gates stand one after the other
  abbrev pub HoldsGates : State → ℕ → List (Waypoint Real) → Type 0
  HoldsGates s address [] = Unit
  HoldsGates s address (p ∷ ps) =
      Holds B E d s address (bytes p.x1)
      × Holds B E d s (address + 8) (bytes p.y1)
      × Holds B E d s (address + 8 + 8) (bytes p.x2)
      × Holds B E d s (address + 8 + 8 + 8) (bytes p.y2)
      × HoldsGates s (address + 8 + 8 + 8 + 8) ps

  pub store_each-below :
      (ps : List (Waypoint Real)) (address a : ℕ) (s : State)
      → a < address
      → address + 32 * length ps ≤ capacity
      → cell (store_each D B d address ps s) d a ≡ cell s d a
  unfolding store_each write_gate
  store_each-below [] address a s h k = refl
  store_each-below (p ∷ ps) address a s h k =
      store_each-below ps (address + 8 + 8 + 8 + 8) a (write_gate address p s) (omega arith)
        (omega arith)
      ∙ write_gate-below address a p s h (omega arith)

  pub store_each-HoldsGates :
      (ps : List (Waypoint Real)) (address : ℕ) (s : State)
      → address + 32 * length ps ≤ capacity
      → HoldsGates (store_each D B d address ps s) address ps
  unfolding store_each write_gate
  store_each-HoldsGates [] address s k = tt
  store_each-HoldsGates (p ∷ ps) address s k =
      let s1 = write_gate address p s in
      let s2 = store_each D B d (address + 8 + 8 + 8 + 8) ps s1 in
      let w = write_gate-Holds address p s (omega arith) in
      let keep =
        λ (x : Real) (at : ℕ) (l : at + 8 ≤ address + 32) (h : Holds B E d s1 at (bytes x)).
          Holds-below B E d s1 s2 at (address + 8 + 8 + 8 + 8) (bytes x)
            (λ a l'. store_each-below ps (address + 8 + 8 + 8 + 8) a s1 l' (omega arith))
            (omega (arith, size x)) h in
      (
        keep p.x1 address (omega arith) w.0,
        keep p.y1 (address + 8) (omega arith) w.1,
        keep p.x2 (address + 8 + 8) (omega arith) w.2,
        keep p.y2 (address + 8 + 8 + 8) (omega arith) w.3,
        store_each-HoldsGates ps (address + 8 + 8 + 8 + 8) s1 (omega arith),
      )

  pub HoldsGates-SameCells :
      (s s' : State) (address : ℕ) (ps : List (Waypoint Real))
      → SameCells B E d s s'
      → HoldsGates s address ps
      → HoldsGates s' address ps
  HoldsGates-SameCells s s' address [] e h = tt
  HoldsGates-SameCells s s' address (p ∷ ps) e h = (
    Holds-SameCells B E d s s' address (bytes p.x1) e h.0,
    Holds-SameCells B E d s s' (address + 8) (bytes p.y1) e h.1,
    Holds-SameCells B E d s s' (address + 8 + 8) (bytes p.x2) e h.2,
    Holds-SameCells B E d s s' (address + 8 + 8 + 8) (bytes p.y2) e h.3,
    HoldsGates-SameCells s s' (address + 8 + 8 + 8 + 8) ps e h.4,
  )

  read_double-Holds :
      (x : Real) (address : ℕ) (s : State)
      → address + 8 ≤ capacity
      → Holds B E d s address (bytes x)
      → ((read_double D B d address s).0 ≡ x) × SameCells B E d s (read_double D B d address s).1
  unfolding read_double
  read_double-Holds x address s k h =
      let r = read_anything-Holds B E d (bytes x) address 8 s (size x) k h in
      (ap of_bytes r.0 ∙ back x, r.1)

  -- the same ends
  abbrev pub SameEnds : Waypoint Real → Waypoint Real → Type 0
  SameEnds p q = (p.x1 ≡ q.x1) × (p.y1 ≡ q.y1) × (p.x2 ≡ q.x2) × (p.y2 ≡ q.y2)

  pub load_gate-Holds :
      (p q : Waypoint Real) (ps : List (Waypoint Real)) (address : ℕ) (s : State)
      → address + 32 ≤ capacity
      → HoldsGates s address (p ∷ ps)
      → SameEnds (load_gate D B d address q s).0 p
        × SameCells B E d s (load_gate D B d address q s).1
  unfolding load_gate
  load_gate-Holds p q ps address s k h =
      let same = Holds-SameCells B E d in
      let r1 = read_double-Holds p.x1 address s (omega arith) h.0 in
      let s1 = (read_double D B d address s).1 in
      let r2 = read_double-Holds p.y1 (address + 8) s1 (omega arith) (same s s1 _ _ r1.1 h.1) in
      let s2 = (read_double D B d (address + 8) s1).1 in
      let e2 : SameCells B E d s s2 = λ a. r2.1 a ∙ r1.1 a in
      let r3 = read_double-Holds p.x2 (address + 8 + 8) s2 (omega arith) (same s s2 _ _ e2 h.2) in
      let s3 = (read_double D B d (address + 8 + 8) s2).1 in
      let e3 : SameCells B E d s s3 = λ a. r3.1 a ∙ e2 a in
      let r4 =
        read_double-Holds p.y2 (address + 8 + 8 + 8) s3 (omega arith) (same s s3 _ _ e3 h.3) in
      ((r1.0, r2.0, r3.0, r4.0), λ a. r4.1 a ∙ e3 a)
