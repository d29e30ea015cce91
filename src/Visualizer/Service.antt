-- ===== src/Visualizer/Service.antt =====
-- From the power on in service mode: the gates that are set in GPS_tracker_2LEDs_Split are followed
-- by GPS_visualizer.
use mathlib.Core.Path.{subst}
use speed_feed.Common.{ℕ, zero, suc, ◌≡◌, refl, sym, ◌∙◌, false, Option, some, [], arith}
use speed_feed.Double.{Double}
use speed_feed.Eeprom.{Bus}
use speed_feed.Waypoint.{Waypoint}
use speed_feed.Led.{Led, yellow}
use speed_feed.Lights.{set_splt_lap}
use speed_feed.Lights.Silent.{set_splt_lap-silent, update_lights-silent}
use speed_feed.Monitor.{monitor, codes, print_text}
use speed_feed.Platform.{World, pin_level, sample, emit, print}
use speed_feed.Receiver.{init_receiver, read}
use speed_feed.Tracker.State.{Kit, done, done-injective, st_reset, st_wpset}
use speed_feed.Tracker.Button.{wait_release}
use speed_feed.Tracker.Startup.{
  Sketch, on_lights, on_world, service_mode, enter_service, boot, reset_case,
}
use speed_feed.Tracker.Setup.{greet, set_up_board, setup}
use speed_feed.Tracker.Setup.Start.{set_up_board-silent}
use speed_feed.Tracker.Loop.{by_state, end_pass, pass, second_half}
use speed_feed.TwoLeds.{TwoLedsSketch, two_leds_kit}
use speed_feed.Visualizer.{Java, Shown, new_view, take_text}
use speed_feed.Visualizer.Telling.{
  Tells, Tells-all, Tells-silent, Tells-trans, greet-Tells, skipped-Tells,
}
use speed_feed.Visualizer.Follow.{ShowsTrack}
use speed_feed.Visualizer.Texts.{PlainTexts}
use speed_feed.Visualizer.Hearing.{Hears, Hears-Follows}

wait_release-silent : (n : ℕ) (w w' : World) → wait_release n w ≡ done w' → monitor w' ≡ monitor w
unfolding wait_release
wait_release-silent zero w w' h = cc
wait_release-silent (suc n) w w' h = ground (arith, wait_release-silent n (sample w) w')

module _ (D : Double) (B : Bus) (kit : Kit D.Real) where
  -- what the entry to service mode leaves of a sketch; `w` is the world when the button is let go
  abbrev served : World → Sketch D B kit → Sketch D B kit
  served w t =
      record (on_world D B kit (emit (print service_mode))
        (on_lights D B kit (set_splt_lap yellow 0) (on_world D B kit (λ _. w) t))) {
          pb_flag = 0;
          wp_next = 0;
          next_state = st_wpset;
          current_state = st_wpset;
          boot_flag = 1;
        }

  -- The first pass with the button down.
  pass-served :
      (patience : ℕ) (available : Option ℕ) (t : Sketch D B kit) (w : World)
      → t.current_state ≡ st_reset
      → t.boot_flag ≡ 0
      → pin_level t.lights.world ≡ false
      → (read available t.receiver).1.recvdflag ≡ false
      → wait_release patience (sample t.lights.world) ≡ done w
      → pass D B kit patience available t
        ≡ done (end_pass D B kit (served w (record t { receiver = (read available t.receiver).1 })))
  unfolding pass by_state reset_case boot enter_service second_half
  pass-served patience available t w s b down quiet e = ground (arith)

module _ (D : Double) (B : Bus) (memory : ℕ → Waypoint D.Real) (no_speed : D.Real) (J : Java)
    (value : D.Real → J.Float) (P : PlainTexts D J) where
  -- GPS_tracker_2LEDs_Split is switched on with the button down, no newline taken in the first
  -- pass and nothing printed before; `w1` is the world when the button is let go. From the sketch
  -- `x` that its first pass leaves it runs on to the sketch `u`, through any number of passes that
  -- come to their end and of interrupts between them; each text that a pass takes up is one line
  -- that begins with a dollar sign. The texts of numbers are fields of a line, and GPS_visualizer
  -- reads `value` from the texts of the gates that are set. Then GPS_visualizer, whatever it showed
  -- before, reads all that was printed. Its start line is the first gate of `u`, if one was set,
  -- and its waypoints are the newest sixteen of the others.
  service-ShowsTrack :
      (patience : ℕ) (available : Option ℕ) (blank : Led) (w w1 : World) (s : B.State) (v : Shown J)
      (x u : TwoLedsSketch D B memory no_speed)
      → pin_level (set_up_board blank (greet w)).world ≡ false
      → wait_release patience (sample (set_up_board blank (greet w)).world) ≡ done w1
      → (read available init_receiver).1.recvdflag ≡ false
      → monitor w ≡ []
      → let kit = two_leds_kit D memory no_speed in
        pass D B kit patience available (setup D B kit blank w s) ≡ done x
        → Hears D B kit J value x u
        → (v' : Shown J) × (take_text J (monitor u.lights.world) v ≡ some v')
          × ShowsTrack D J value u.waypoints v'
  unfolding setup end_pass
  service-ShowsTrack patience available blank w w1 s v x u down let_go quiet clean h run =
      let kit = two_leds_kit D memory no_speed in
      let t = setup D B kit blank w s in
      let l0 = set_up_board blank (greet w) in
      let board = set_up_board-silent blank (greet w) in
      let l = record l0 { world = w1 } in
      let lit = set_splt_lap-silent yellow 0 l (omega arith) board.0 in
      let w2 = (set_splt_lap yellow 0 l).world in
      let l3 = record (set_splt_lap yellow 0 l) { world = print_text service_mode w2 } in
      let (coloured, updated) = update_lights-silent l3 lit.0 in
      let x' =
        end_pass D B kit
          (served D B kit w1 (record t { receiver = (read available init_receiver).1 })) in
      let same : x' ≡ x =
        done-injective
          (sym (pass-served D B kit patience available t w1 refl refl down quiet let_go) ∙ h) in
      let v0 = new_view J in
      let silent : monitor w2 ≡ monitor (greet w) =
        lit.1 ∙ wait_release-silent patience (sample l0.world) w1 let_go ∙ board.1 in
      let told : Tells J w x'.lights.world v v0 =
        Tells-trans J w w2 x'.lights.world v v0 v0
          (Tells-trans J w (greet w) w2 v v0 v0 (greet-Tells J w v)
            (Tells-silent J (greet w) w2 v0 silent))
          (Tells-trans J w2 l3.world x'.lights.world v0 v0 v0
            (skipped-Tells J (codes "Started in Service Mode") w2 v0 (refl, refl))
            (Tells-silent J l3.world x'.lights.world v0 updated)) in
      let f =
        Hears-Follows D B memory no_speed J value P x' u v0
          (subst (λ y. Hears D B kit J value y u) (sym same) run)
          (record { coloured = coloured; booted = refl; shown = (refl, refl) }) in
      (
        f.view,
        Tells-all J w u.lights.world v f.view
            (Tells-trans J w x'.lights.world u.lights.world v v0 f.view told f.told) clean,
        f.showing.shown,
      )
