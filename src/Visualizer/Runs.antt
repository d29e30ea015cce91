-- ===== src/Visualizer/Runs.antt =====
-- Whole runs of GPS_tracker_2LEDs_Split, followed by GPS_visualizer.
use speed_feed.Visualizer.Telling.{Tells-trans, Tells-all}
use speed_feed.Visualizer.Boot.{IsBooted, first_pass-IsBooted}
use speed_feed.Visualizer.Gates.{with_track}
use speed_feed.Tracker.Setup.{setup, greet, set_up_board}
use speed_feed.Platform.{pin_level, World}
use speed_feed.Led.{Led}
use speed_feed.Eeprom.Cells.{IsEeprom}
use speed_feed.Eeprom.Gates.{IsLayout}
use mathlib.Core.Path.{subst}
use speed_feed.Common.{
  some, length, ◌≤◌, ◌<◌, ℕ, ◌≡◌, refl, sym, ◌∙◌, true, false, Option, List, [], map,
}
use speed_feed.Double.{Double}
use speed_feed.Waypoint.{Waypoint}
use speed_feed.Eeprom.{marker, Bus}
use speed_feed.Eeprom.RoundTrip.{HoldsTrack}
use speed_feed.Monitor.{monitor}
use speed_feed.Receiver.{init_receiver, read}
use speed_feed.Tracker.State.{disk1, done, done-injective}
use speed_feed.Tracker.Loop.{pass}
use speed_feed.TwoLeds.{TwoLedsSketch, two_leds_kit}
use speed_feed.Visualizer.{new_view, take_text, Java, Shown}
use speed_feed.Visualizer.Lines.{Plain}
use speed_feed.Visualizer.Follow.{ShowsTrack, ShowsTrack-ends, corners_read, TrackReads}
use speed_feed.Visualizer.Texts.{PlainTexts}
use speed_feed.Visualizer.Hearing.{Hears, Hears-Follows}

module _ (D : Double) (L : IsLayout D) (B : Bus) (E : IsEeprom B) (memory : ℕ → Waypoint D.Real)
    (no_speed : D.Real) (J : Java) (value : D.Real → J.Float) (P : PlainTexts D J) where
  open D use {Real, show_hex}

  -- GPS_tracker_2LEDs_Split is switched on, with the button up, no newline taken in the first pass
  -- and nothing printed before, and a track of one to 255 gates in the EEPROM. From the sketch `x`
  -- that its first pass leaves it runs on to the sketch `u`, through any number of passes that come
  -- to their end and of interrupts between them; each text that a pass takes up is one line that
  -- begins with a dollar sign. The texts of numbers are fields of a line, the marker is printed so
  -- that it is no command, and GPS_visualizer reads `value` from the texts of the gates that are
  -- loaded, or set. Then GPS_visualizer, whatever it showed before, reads all that was printed. Its
  -- start line is the first gate of `u`, and its waypoints are the newest sixteen of the others.
  pub setup-ShowsTrack :
      (patience : ℕ) (available : Option ℕ) (blank : Led) (w : World) (s : B.State)
      (ps : List (Waypoint Real)) (v : Shown J) (x u : TwoLedsSketch D B memory no_speed)
      → HoldsTrack D L B E disk1 s 0 ps
      → 0 < length ps
      → length ps ≤ 255
      → pin_level (set_up_board blank (greet w)).world ≡ true
      → (read available init_receiver).1.recvdflag ≡ false
      → TrackReads D J value ps
      → Plain (show_hex marker)
      → monitor w ≡ []
      → let kit = two_leds_kit D memory no_speed in
        pass D B kit patience available (setup D B kit blank w s) ≡ done x
        → Hears D B kit J value x u
        → (v' : Shown J) × (take_text J (monitor u.lights.world) v ≡ some v')
          × ShowsTrack D J value u.waypoints v'
  setup-ShowsTrack patience available blank w s ps v x u held n short up quiet reads hex clean h
        run =
      let kit = two_leds_kit D memory no_speed in
      let es = map (corners_read D J value) ps in
      let shown = with_track D J es (new_view J) in
      let (x', h', b) =
        first_pass-IsBooted D L B E kit J patience available blank w s ps es v held n short up quiet
          reads hex in
      let same : x' ≡ x = done-injective (sym h' ∙ h) in
      let b' = subst (IsBooted D L B E kit J w ps es v) same b in
      let f = Hears-Follows D B memory no_speed J value P x u shown run (record {
        coloured = b'.coloured;
        booted = b'.booted;
        shown = ShowsTrack-ends D J value ps x.waypoints shown b'.same_ends (refl, refl);
      }) in
      (
        f.view,
        Tells-all J w u.lights.world v f.view
            (Tells-trans J w x.lights.world u.lights.world v shown f.view b'.told f.told) clean,
        f.showing.shown,
      )
