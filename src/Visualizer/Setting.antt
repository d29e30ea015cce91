-- ===== src/Visualizer/Setting.antt =====
-- A new gate on the monitor (case ST_WPSET of the tracker sketches), and in GPS_visualizer.
use mathlib.Core.List.{append_assoc}
use mathlib.Core.Path.{subst}
use speed_feed.Tracker.State.{Kit}
use speed_feed.Common.{
  ◌+◌, ℕ, ◌≡◌, refl, ap, ◌∙◌, true, false, Bool, if◌then◌else◌, List, ◌∷◌, ◌++◌, arith, length,
  ◌==◌,
}
use speed_feed.Platform.{World}
use speed_feed.Double.{Double}
use speed_feed.Waypoint.{Waypoint, new_waypoint}
use speed_feed.Geometry.{Point}
use speed_feed.Eeprom.{Bus}
use speed_feed.Lights.{Lights, set_splt_lap}
use speed_feed.Lights.Silent.{set_splt_lap-silent, AreColoured}
use speed_feed.Led.{green}
use speed_feed.Monitor.{monitor, print_text, codes, line_end}
use speed_feed.Monitor.Lines.{gate_line}
use speed_feed.Nmea.{Gps}
use speed_feed.Receiver.{last_nmea}
use speed_feed.Tracker.Startup.{Sketch}
use speed_feed.Tracker.Setting.{any_nan, add_waypoint}
use speed_feed.Tracker.Racing.{split_kit, split_gate_text}
use speed_feed.Tracker.Loop.{heard, took, echo_sentence}
use speed_feed.TwoLeds.{two_leds_kit, two_leds_gate, TwoLedsSketch}
use speed_feed.Visualizer.{Java, Corners, Shown, take_text}
use speed_feed.Visualizer.Lines.{Plain, lacks, take_text-dollar}
use speed_feed.Visualizer.Gates.{GateReads, in_picture, push_in, startfinish-shown, waypoint-shown}
use speed_feed.Visualizer.Telling.{Tells}

first_one : (n : ℕ) → (n + 1 == 1) ≡ (n == 0)
first_one n = ground arith

module _ (D : Double) (J : Java) where
  open D use {Real, is_nan}
  open J use {Float}

  gate_line-shown :
      (first : Bool) (p : Waypoint Real) (e : Corners Float) (t : List ℕ) (v : Shown J)
      → GateReads D J p e
      → take_text J (gate_line D (codes (if first then "startfinish" else "waypoint")) p ++ t) v
        ≡ take_text J t (
            if first
            then record v { startfinish = in_picture D J e }
            else push_in D J (in_picture D J e) v)
  gate_line-shown true p e t v r = startfinish-shown D J p e t v r
  gate_line-shown false p e t v r = waypoint-shown D J p e t v r

  pub two_leds_gate-shown :
      (n : ℕ) (p : Waypoint Real) (e : Corners Float) (t : List ℕ) (v : Shown J)
      → GateReads D J p e
      → take_text J (two_leds_gate D (n + 1) p ++ t) v
        ≡ take_text J t (
            if n == 0
            then record v { startfinish = in_picture D J e }
            else push_in D J (in_picture D J e) v)
  unfolding two_leds_gate
  two_leds_gate-shown n p e t v r =
      subst
        (λ b.
          take_text J (two_leds_gate D (n + 1) p ++ t) v
          ≡ take_text J t (
              if b
              then record v { startfinish = in_picture D J e }
              else push_in D J (in_picture D J e) v))
        (first_one n) (gate_line-shown (n + 1 == 1) p e t v r)

module _ (D : Double) (B : Bus) (kit : Kit D.Real) where
  open D use {Real, literal}

  -- the gate that the button sets between two positions, and the world then
  abbrev pub new_gate : Point Real → Point Real → Sketch D B kit → Waypoint Real × World
  new_gate p1 p2 t =
      new_waypoint D (kit.memory (length t.waypoints)) p1.x p1.y p2.x p2.y (literal 72)
        t.lights.world

  pub new_gate-monitor :
      (p1 p2 : Point Real) (t : Sketch D B kit)
      → monitor (new_gate p1 p2 t).1 ≡ monitor t.lights.world
  unfolding new_waypoint
  new_gate-monitor p1 p2 t = refl

  abbrev told_lights : Point Real → Point Real → Sketch D B kit → Lights
  told_lights p1 p2 t =
      let (p, w) = new_gate p1 p2 t in
      record t.lights { world = print_text (kit.gate_text (length t.waypoints + 1) p) w }

  add_waypoint-lights :
      (p1 p2 : Point Real) (t : Sketch D B kit)
      → any_nan D B kit (new_gate p1 p2 t).0 ≡ false
      → (add_waypoint D B kit p1 p2 t).lights ≡ set_splt_lap green 3000 (told_lights p1 p2 t)
  unfolding add_waypoint
  add_waypoint-lights p1 p2 t h = rw h refl

  -- Setting it prints its text, and nothing else.
  pub add_waypoint-monitor :
      (p1 p2 : Point Real) (t : Sketch D B kit)
      → any_nan D B kit (new_gate p1 p2 t).0 ≡ false
      → AreColoured t.lights
      → monitor (add_waypoint D B kit p1 p2 t).lights.world
        ≡ monitor t.lights.world ++ kit.gate_text (length t.waypoints + 1) (new_gate p1 p2 t).0
  add_waypoint-monitor p1 p2 t h c =
      let l = told_lights p1 p2 t in
      ap (λ (m : Lights). monitor m.world) (add_waypoint-lights p1 p2 t h)
      ∙ (set_splt_lap-silent green 3000 l (omega arith) c).1
      ∙ ap (λ s. s ++ kit.gate_text (length t.waypoints + 1) (new_gate p1 p2 t).0)
          (new_gate-monitor p1 p2 t)

module _ (D : Double) (B : Bus) (memory : ℕ → Waypoint D.Real) (no_speed : D.Real) (J : Java) where
  -- A gate that is set in GPS_tracker_2LEDs_Split, none of whose ends is not a number, comes to
  -- GPS_visualizer, with the ends in the picture that it reads from the line: as the start line if
  -- it is the first, and else as the newest waypoint. The LEDs have valid colours before.
  pub add_waypoint-shown :
      (p1 p2 : Point D.Real) (e : Corners J.Float) (t : TwoLedsSketch D B memory no_speed)
      (v : Shown J)
      → let kit = two_leds_kit D memory no_speed in
        let p = (new_gate D B kit p1 p2 t).0 in
        any_nan D B kit p ≡ false
        → GateReads D J p e
        → AreColoured t.lights
        → Tells J t.lights.world (add_waypoint D B kit p1 p2 t).lights.world v (
            if length t.waypoints == 0
            then record v { startfinish = in_picture D J e }
            else push_in D J (in_picture D J e) v)
  unfolding two_leds_kit
  add_waypoint-shown p1 p2 e t v h r c =
      let kit = two_leds_kit D memory no_speed in
      record {
        text = _;
        printed = add_waypoint-monitor D B kit p1 p2 t h c;
        taken =
            λ s. two_leds_gate-shown D J (length t.waypoints) (new_gate D B kit p1 p2 t).0 e s v r;
      }

module _ (D : Double) (B : Bus) (memory : ℕ → Waypoint D.Real) (J : Java) where
  -- the sketch GPS_tracker_Single_Split
  abbrev SplitSketch : Type 0
  SplitSketch = Sketch D B (split_kit memory)

  split_gate_text-Plain : (n : ℕ) (p : Waypoint D.Real) → Plain (split_gate_text n p)
  unfolding split_gate_text
  split_gate_text-Plain n p = ground arith

  -- A gate that is set in GPS_tracker_Single_Split, none of whose ends is not a number, does not
  -- come to GPS_visualizer: the line that holds the word "startfinish" goes on with the sentence
  -- which is echoed next, here a text of one line with a dollar sign at its start, and is passed
  -- over. The LEDs have valid colours before.
  pub add_waypoint-unseen :
      (p1 p2 : Point D.Real) (r : List ℕ) (gps : Gps D.Real) (t : SplitSketch) (v : Shown J)
      → let u = add_waypoint D B (split_kit memory) p1 p2 t in
        any_nan D B (split_kit memory) (new_gate D B (split_kit memory) p1 p2 t).0 ≡ false
        → AreColoured t.lights
        → (last_nmea u.receiver).0 ≡ b'$' ∷ r
        → lacks 10 r ≡ true
        → Tells J t.lights.world (heard D B (split_kit memory) gps u).lights.world v v
  unfolding split_kit echo_sentence took
  add_waypoint-unseen p1 p2 r gps t v h c s one_line =
      let u = add_waypoint D B (split_kit memory) p1 p2 t in
      let p = (new_gate D B (split_kit memory) p1 p2 t).0 in
      let name = split_gate_text (length t.waypoints + 1) p in
      let sentence = (b'$' ∷ r) ++ line_end in
      record {
        text = name ++ sentence;
        printed =
            ap (λ x. monitor u.lights.world ++ (x ++ line_end)) s
            ∙ ap (λ m. m ++ sentence) (add_waypoint-monitor D B (split_kit memory) p1 p2 t h c)
            ∙ append_assoc (monitor t.lights.world) name sentence;
        taken = λ l.
            ap (λ x. take_text J x v)
              (append_assoc name sentence l
                ∙ ap (λ x. name ++ (b'$' ∷ x)) (append_assoc r line_end l))
            ∙ take_text-dollar J name r l v (split_gate_text-Plain (length t.waypoints + 1) p)
                one_line;
      }
