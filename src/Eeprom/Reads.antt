-- ===== src/Eeprom/Reads.antt =====
-- `loadWaypoints` only reads the chip (SpeedFeed.cpp and EEPROMAnything).
use speed_feed.Common.{ℕ, zero, suc, ◌+◌, ◌/◌, ◌%◌, refl, ◌∙◌, List, [], ◌∷◌, ◌++◌, arith}
use speed_feed.Platform.{World}
use speed_feed.Double.{Double}
use speed_feed.Waypoint.{Waypoint, new_waypoint}
use speed_feed.Eeprom.{
  echo_marker, echo_gate, Bus, read_eeprom, read_anything, read_double, load_gate, at_index,
  load_each, load_waypoints, byte_of,
}
use speed_feed.Eeprom.Cells.{IsEeprom, SameCells}

module _ (D : Double) (B : Bus) (E : IsEeprom B) (d : ℕ) where
  open D use {Real, literal}
  open B use {State}
  open E use {cell-request}

  read_eeprom-SameCells :
      (address : ℕ) (s : State) → SameCells B E d s (read_eeprom B d address s).1
  unfolding read_eeprom
  read_eeprom-SameCells address s a = cell-request s d (address / 256 % 256) (address % 256) a

  read_anything-SameCells :
      (n address : ℕ) (s : State) → SameCells B E d s (read_anything B d address n s).1
  unfolding read_anything
  read_anything-SameCells zero address s a = refl
  read_anything-SameCells (suc n) address s a =
      let s' = (read_eeprom B d address s).1 in
      read_anything-SameCells n (address + 1) s' a ∙ read_eeprom-SameCells address s a

  read_double-SameCells :
      (address : ℕ) (s : State) → SameCells B E d s (read_double D B d address s).1
  unfolding read_double
  read_double-SameCells address s = read_anything-SameCells 8 address s

  load_gate-SameCells :
      (address : ℕ) (p : Waypoint Real) (s : State)
      → SameCells B E d s (load_gate D B d address p s).1
  unfolding load_gate
  load_gate-SameCells address p s a =
      let s1 = (read_double D B d address s).1 in
      let s2 = (read_double D B d (address + 8) s1).1 in
      let s3 = (read_double D B d (address + 8 + 8) s2).1 in
      read_double-SameCells (address + 8 + 8 + 8) s3 a
      ∙ read_double-SameCells (address + 8 + 8) s2 a
      ∙ read_double-SameCells (address + 8) s1 a
      ∙ read_double-SameCells address s a

  at_index-SameCells :
      (address i : ℕ) (ps : List (Waypoint Real)) (s : State)
      → SameCells B E d s (at_index D B i (load_gate D B d address) ps s).1
  unfolding at_index
  at_index-SameCells address i [] s a = refl
  at_index-SameCells address zero (p ∷ ps) s a = load_gate-SameCells address p s a
  at_index-SameCells address (suc i) (p ∷ ps) s a = at_index-SameCells address i ps s a

  load_each-SameCells :
      (memory : ℕ → Waypoint Real) (n i address : ℕ) (ps : List (Waypoint Real)) (w : World)
      (s : State)
      → SameCells B E d s (load_each D B memory n i d address ps w s).2
  unfolding load_each
  load_each-SameCells memory zero i address ps w s a = refl
  load_each-SameCells memory (suc n) i address ps w s a =
      let o = literal 0 in
      let r = new_waypoint D (memory i) o o o o o w in
      let t = at_index D B i (load_gate D B d address) (ps ++ (r.0 ∷ [])) s in
      load_each-SameCells memory n (i + 1) (address + 8 + 8 + 8 + 8) t.0 (echo_gate D B i t.0 r.1)
        t.1 a
      ∙ at_index-SameCells address i (ps ++ (r.0 ∷ [])) s a

  -- Whatever the chip holds, its bytes are as they were.
  pub load_waypoints-SameCells :
      (memory : ℕ → Waypoint Real) (address : ℕ) (ps : List (Waypoint Real)) (w : World) (s : State)
      → SameCells B E d s (load_waypoints D B memory d address ps w s).2
  unfolding load_waypoints
  load_waypoints-SameCells memory address ps w s a =
      let r1 = read_anything B d address 1 s in
      let r2 = read_anything B d (address + 1) 1 r1.1 in
      ground (
        arith,
        read_anything-SameCells 1 address s a,
        read_anything-SameCells 1 (address + 1) r1.1 a,
        load_each-SameCells memory (byte_of r2.0) 0 (address + 1 + 1) ps (echo_marker D B r1.0 w)
            r2.1 a,
      )
