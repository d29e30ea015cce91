-- ===== src/Visualizer/Boot.antt =====
-- From the power on to the picture: `setup` and the first pass of a tracker sketch, with a track
-- in the EEPROM.
use speed_feed.Tracker.Setup.Start.{set_up_board-silent}
use speed_feed.Lights.Silent.{AreColoured, update_lights-silent, blink-silent}
use native.Mathlib.Nat.{mod-eq_of_lt}
use speed_feed.Visualizer.Loading.{AllRead-ends, load_waypoints-Tells}
use speed_feed.Visualizer.Telling.{
  Tells-all, Tells, send_waypoints-Tells, Tells-silent, greet-Tells, Tells-trans,
}
use speed_feed.Tracker.Stored.Survives.{send_waypoints-nonempty, same_ends-length}
use speed_feed.Nmea.{init_gps}
use speed_feed.Visualizer.Lines.{Plain}
use speed_feed.Visualizer.Gates.{with_track, AllRead}
use speed_feed.Eeprom.RoundTrip.{load_waypoints-HoldsTrack, ends, HoldsTrack}
use speed_feed.Eeprom.Cells.{IsEeprom}
use speed_feed.Eeprom.Gates.{IsLayout}
use speed_feed.Visualizer.{Shown, Corners, new_view, take_text, Java}
use speed_feed.Tracker.Loop.{second_half, by_state, end_pass, pass}
use speed_feed.Eeprom.{marker, Bus, load_waypoints}
use speed_feed.Receiver.{init_receiver, read}
use speed_feed.Tracker.Startup.{
  await_fix, load_track, boot, reset_case, send_waypoints, on_lights, Sketch,
}
use speed_feed.Tracker.State.{done, st_reset, disk1, Kit}
use speed_feed.Common.{
  ℕ, ◌≤◌, ◌<◌, ◌≡◌, refl, ap, ◌∙◌, true, false, Option, some, List, [], arith, length, take,
  take-length, map,
}
use speed_feed.Tracker.Startup.{on_world}
use speed_feed.Platform.{World, pin_level, sample}
use speed_feed.Double.{Double}
use speed_feed.Led.{Led, red}
use speed_feed.Lights.{blink_lap_splt, update_lights}
use speed_feed.Waypoint.{Waypoint}
use speed_feed.Monitor.{monitor}
use speed_feed.Tracker.Setup.{greet, set_up_board, setup}

module _ (D : Double) (B : Bus) (kit : Kit D.Real) where
  open D use {Real}

  -- what `loadWaypoints` and `sendWaypoints` leave of a sketch; `w` is the world then
  abbrev booted : List (Waypoint Real) → World → B.State → Sketch D B kit → Sketch D B kit
  booted ps w eeprom t =
      on_lights D B kit (blink_lap_splt red 200 800 0)
        (record (on_world D B kit (λ _. w) t) { waypoints = ps; eeprom = eeprom; boot_flag = 1 })

  -- The first pass with the button up and no fix yet, once the stored track is loaded.
  pass-booted :
      (patience : ℕ) (available : Option ℕ) (t : Sketch D B kit) (w : World)
      → t.current_state ≡ st_reset
      → t.boot_flag ≡ 0
      → t.gps.fixquality ≡ 0
      → pin_level t.lights.world ≡ true
      → (read available t.receiver).1.recvdflag ≡ false
      → let r =
          load_waypoints D B kit.memory disk1 0 t.waypoints (sample t.lights.world) t.eeprom in
        send_waypoints D r.0 r.1 ≡ some w
        → pass D B kit patience available t
          ≡ done (
              end_pass D B kit
                (booted r.0 w r.2 (record t { receiver = (read available t.receiver).1 })))
  unfolding pass by_state reset_case boot load_track await_fix second_half
  pass-booted patience available t w s b q up quiet e = ground (arith)

module _ (D : Double) (L : IsLayout D) (B : Bus) (E : IsEeprom B) (kit : Kit D.Real)
    (J : Java) where
  open D use {Real, show_hex}

  -- What is printed from the power on until the track is loaded and sent.
  load-Tells :
      (blank : Led) (w w2 : World) (s : B.State) (ps : List (Waypoint Real))
      (es : List (Corners J.Float)) (v : Shown J)
      → HoldsTrack D L B E disk1 s 0 ps
      → length ps ≤ 255
      → AllRead D J ps es
      → Plain (show_hex marker)
      → let r =
          load_waypoints D B kit.memory disk1 0 []
            (sample (set_up_board blank (greet w)).world)
            s in
        map ends r.0 ≡ map ends ps
        → send_waypoints D r.0 r.1 ≡ some w2
        → Tells J w w2 v (with_track D J es (new_view J))
  unfolding new_view
  load-Tells blank w w2 s ps es v held short reads hex same sent =
      let w1 = sample (set_up_board blank (greet w)).world in
      let r = load_waypoints D B kit.memory disk1 0 [] w1 s in
      let v0 = new_view J in
      let greeted =
        Tells-trans J w (greet w) w1 v v0 v0 (greet-Tells J w v)
          (Tells-silent J (greet w) w1 v0 (set_up_board-silent blank (greet w)).1) in
      let loaded =
        load_waypoints-Tells D L B E disk1 J kit.memory ps es 0 w1 s v0 (omega arith) held reads
          hex in
      Tells-trans J w r.1 w2 v v0 _ (Tells-trans J w w1 r.1 v v0 v0 greeted loaded) (
        send_waypoints-Tells J D r.0 es r.1 w2 v0 sent (AllRead-ends D J r.0 ps es same reads) refl)

  -- What the first pass leaves of the sketch `x`, and of the view.
  pub record IsBooted (w : World) (ps : List (Waypoint Real)) (es : List (Corners J.Float))
      (v : Shown J) (x : Sketch D B kit) : Type 0 where
    pub told : Tells J w x.lights.world v (with_track D J es (new_view J))
    pub coloured : AreColoured x.lights
    pub booted : x.boot_flag ≡ 1
    pub same_ends : map ends x.waypoints ≡ map ends ps

  pub first_pass-IsBooted :
      (patience : ℕ) (available : Option ℕ) (blank : Led) (w : World) (s : B.State)
      (ps : List (Waypoint Real)) (es : List (Corners J.Float)) (v : Shown J)
      → HoldsTrack D L B E disk1 s 0 ps
      → 0 < length ps
      → length ps ≤ 255
      → pin_level (set_up_board blank (greet w)).world ≡ true
      → (read available init_receiver).1.recvdflag ≡ false
      → AllRead D J ps es
      → Plain (show_hex marker)
      → (x : Sketch D B kit) × (pass D B kit patience available (setup D B kit blank w s) ≡ done x)
        × IsBooted w ps es v x
  unfolding setup init_gps end_pass
  first_pass-IsBooted patience available blank w s ps es v held n short up quiet reads hex =
      let t = setup D B kit blank w s in
      let w1 = sample t.lights.world in
      let r = load_waypoints D B kit.memory disk1 0 [] w1 s in
      let same : map ends r.0 ≡ map ends ps =
        load_waypoints-HoldsTrack D L B E disk1 kit.memory ps 0 w1 s (omega arith) held
        ∙ ap (map ends) (ap (λ k. take k ps) (mod-eq_of_lt (omega arith)) ∙ take-length ps) in
      let size = same_ends-length r.0 ps same in
      let (w2, sent) = send_waypoints-nonempty D r.0 r.1 (omega (arith, size)) in
      let l = record t.lights { world = w2 } in
      let (blinks, same_monitor) =
        blink-silent red 200 800 0 l (omega arith) (set_up_board-silent blank (greet w)).0 in
      let l' = blink_lap_splt red 200 800 0 l in
      let (coloured, updated) = update_lights-silent l' blinks in
      let shown = with_track D J es (new_view J) in
      (
        _,
        pass-booted D B kit patience available t w2 refl refl refl up quiet sent,
        record {
          told =
              Tells-trans J w w2 (update_lights l').world v shown shown
                (load-Tells blank w w2 s ps es v held short reads hex same sent)
                (Tells-silent J w2 (update_lights l').world shown (updated ∙ same_monitor));
          coloured = coloured;
          booted = refl;
          same_ends = same;
        },
      )

  -- A tracker sketch is switched on, with the button up, no line of the receiver complete in the
  -- first pass, and a track of one to 255 gates in the EEPROM, to which nothing was printed
  -- before. If the numbers in the ends of the gates are printed so that GPS_visualizer reads
  -- certain values from them, and the marker so that it is no command, then the first pass comes
  -- to its end, and GPS_visualizer, whatever it showed before, shows that track and nothing else:
  -- the first gate as the start line, and the newest sixteen of the others as waypoints.
  pub first_pass-shows :
      (patience : ℕ) (available : Option ℕ) (blank : Led) (w : World) (s : B.State)
      (ps : List (Waypoint Real)) (es : List (Corners J.Float)) (v : Shown J)
      → HoldsTrack D L B E disk1 s 0 ps
      → 0 < length ps
      → length ps ≤ 255
      → pin_level (set_up_board blank (greet w)).world ≡ true
      → (read available init_receiver).1.recvdflag ≡ false
      → AllRead D J ps es
      → Plain (show_hex marker)
      → monitor w ≡ []
      → (x : Sketch D B kit) × (pass D B kit patience available (setup D B kit blank w s) ≡ done x)
        × (take_text J (monitor x.lights.world) v ≡ some (with_track D J es (new_view J)))
  first_pass-shows patience available blank w s ps es v held n short up quiet reads hex clean =
      let (x, ends_at, b) =
        first_pass-IsBooted patience available blank w s ps es v held n short up quiet reads hex in
      (x, ends_at, Tells-all J w x.lights.world v (with_track D J es (new_view J)) b.told clean)
