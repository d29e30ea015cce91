-- ===== src/Tracker/Colours/Button.antt =====
-- The colours of the LEDs in the first `switch` of `loop`.
use speed_feed.Monitor.{print_text}
use speed_feed.Waypoint.{new_waypoint}
use speed_feed.Common.{
  ◌+◌, ◌≤◌, ◌==◌, ℕ, ◌-◌, ◌≡◌, Bool, true, false, arith, if◌then◌else◌, length, get_elem?,
}
use speed_feed.Double.{Double}
use speed_feed.Led.{red, green, yellow}
use speed_feed.Lights.{Lights, set_splt_lap, blink_lap_splt}
use speed_feed.Lights.Silent.{AreColoured, set_splt_lap-silent, blink-silent}
use speed_feed.Eeprom.{Bus, load_waypoints}
use speed_feed.Geometry.{Point}
use speed_feed.Platform.{command, pin_level, emit, sample}
use speed_feed.Tracker.State.{
  Kit, State, st_reset, st_init, st_sfset, st_wpset, st_race, disk1, done, >>=-eq-done, ◌>>=◌, lift,
  done-injective,
}
use speed_feed.Tracker.Button.{wait_release}
use speed_feed.Tracker.Startup.{
  on_lights, output_rmc_only, Sketch, on_world, send_waypoints, enter_service, load_track, to_init,
  await_fix, boot, reset_case,
}
use speed_feed.Tracker.Setting.{
  any_nan, refuse, add_waypoint, set_here, clear_flag, may_set, wpset_case,
}
use speed_feed.Tracker.Racing.{race_button, note_press, hold_reset}
use speed_feed.Tracker.Loop.{by_state}
use mathlib.Core.Path.{subst}

module _ (D : Double) (B : Bus) (kit : Kit D.Real) where
  open D use {Real}

  abbrev pub Coloured : Sketch D B kit → Type 0
  Coloured t = AreColoured t.lights

  pub Coloured-if :
      (b : Bool) (t u : Sketch D B kit) → Coloured t → Coloured u → Coloured (if b then t else u)
  Coloured-if true t u h k = h
  Coloured-if false t u h k = k

  -- blinking from any colours
  blinks :
      (color high low : ℕ) (l : Lights)
      → color ≤ yellow
      → AreColoured l
      → AreColoured (blink_lap_splt color high low 0 l)
  blinks color high low l h c = (blink-silent color high low 0 l h c).0

  shows :
      (color dt : ℕ) (l : Lights)
      → color ≤ yellow
      → AreColoured l
      → AreColoured (set_splt_lap color dt l)
  shows color dt l h c = (set_splt_lap-silent color dt l h c).0

  to_init-Coloured : (t : Sketch D B kit) → Coloured t → Coloured (to_init D B kit t)
  unfolding to_init
  to_init-Coloured t c =
      blinks green 500 500 (on_world D B kit (emit (command output_rmc_only)) t).lights
        (omega arith) c

  await_fix-Coloured : (t : Sketch D B kit) → Coloured t → Coloured (await_fix D B kit t)
  unfolding await_fix
  await_fix-Coloured t c =
      let q = t.gps.fixquality in
      let c' = blinks yellow 500 500 t.lights (omega arith) c in
      let t' = on_lights D B kit (blink_lap_splt yellow 500 500 0) t in
      Coloured-if (q == 0) _ _ (blinks red 200 800 t.lights (omega arith) c) (
        Coloured-if (q == 1) _ _
          (Coloured-if (t.pb_flag == 0) _ _ c' (to_init-Coloured (record t' { pb_flag = 0 }) c'))
          (Coloured-if (q == 2) _ _ (to_init-Coloured t c) c))

  load_track-Coloured :
      (t u : Sketch D B kit) → load_track D B kit t ≡ done u → Coloured t → Coloured u
  unfolding load_track
  load_track-Coloured t u h c =
      let r = load_waypoints D B kit.memory disk1 0 t.waypoints t.lights.world t.eeprom in
      let (w, e, h') = >>=-eq-done (lift (send_waypoints D r.0 r.1)) _ h in
      subst Coloured (done-injective h') c

  enter_service-Coloured :
      (patience : ℕ) (t u : Sketch D B kit)
      → enter_service D B kit patience t ≡ done u
      → Coloured t
      → Coloured u
  unfolding enter_service
  enter_service-Coloured patience t u h c =
      let (w, e, h') = >>=-eq-done (wait_release patience t.lights.world) _ h in
      subst Coloured (done-injective h')
        (shows yellow 0 (on_world D B kit (λ _. w) t).lights (omega arith) c)

  load_and_await-Coloured :
      (t u : Sketch D B kit)
      → (load_track D B kit t >>= λ t'. done (await_fix D B kit t')) ≡ done u
      → Coloured t
      → Coloured u
  load_and_await-Coloured t u h c =
      let (t', e, h') = >>=-eq-done (load_track D B kit t) _ h in
      subst Coloured (done-injective h') (await_fix-Coloured t' (load_track-Coloured t t' e c))

  boot-Coloured :
      (patience : ℕ) (up : Bool) (t u : Sketch D B kit)
      → (if up
          then (load_track D B kit t >>= λ t'. done (await_fix D B kit t'))
          else enter_service D B kit patience t)
        ≡ done u
      → Coloured t
      → Coloured u
  boot-Coloured patience true t u h c = load_and_await-Coloured t u h c
  boot-Coloured patience false t u h c = enter_service-Coloured patience t u h c

  reset_case-Coloured :
      (patience : ℕ) (first : Bool) (t u : Sketch D B kit)
      → (if first then boot D B kit patience t else done (await_fix D B kit t)) ≡ done u
      → Coloured t
      → Coloured u
  unfolding boot
  reset_case-Coloured patience true t u h c =
      boot-Coloured patience (pin_level t.lights.world) (on_world D B kit sample t) u h c
  reset_case-Coloured patience false t u h c =
      subst Coloured (done-injective h) (await_fix-Coloured t c)

  refuse-Coloured : (t : Sketch D B kit) → Coloured t → Coloured (refuse D B kit t)
  unfolding refuse
  refuse-Coloured t c = shows red 1000 t.lights (omega arith) c

  pub add_waypoint-Coloured :
      (p1 p2 : Point Real) (t : Sketch D B kit)
      → Coloured t
      → Coloured (add_waypoint D B kit p1 p2 t)
  unfolding add_waypoint
  add_waypoint-Coloured p1 p2 t c =
      let (p, w) =
        new_waypoint D (kit.memory (length t.waypoints)) p1.x p1.y p2.x p2.y (D.literal 72)
          t.lights.world in
      let w' = print_text (kit.gate_text (length t.waypoints + 1) p) w in
      Coloured-if (any_nan D B kit p) _ _ (refuse-Coloured (on_world D B kit (λ _. w) t) c)
        (shows green 3000 (record t.lights { world = w' }) (omega arith) c)

  set_here-Coloured : (t u : Sketch D B kit) → set_here D B kit t ≡ done u → Coloured t → Coloured u
  unfolding set_here
  set_here-Coloured t u h c =
      let (p1, e1, h1) = >>=-eq-done (lift (get_elem? t.tracks (length t.tracks - 2))) _ h in
      let (p2, e2, h2) = >>=-eq-done (lift (get_elem? t.tracks (length t.tracks - 1))) _ h1 in
      subst Coloured (done-injective h2) (add_waypoint-Coloured p1 p2 t c)

  press-Coloured :
      (may : Bool) (t u : Sketch D B kit)
      → ((if may then set_here D B kit t else done (refuse D B kit t)) >>= λ t'.
          done (clear_flag D B kit t'))
        ≡ done u
      → Coloured t
      → Coloured u
  press-Coloured true t u h c =
      let (t', e, h') = >>=-eq-done (set_here D B kit t) _ h in
      subst Coloured (done-injective h') (set_here-Coloured t t' e c)
  press-Coloured false t u h c = subst Coloured (done-injective h) (refuse-Coloured t c)

  wpset_case-Coloured :
      (pressed : Bool) (t u : Sketch D B kit)
      → (if pressed
          then ((if may_set D B kit t then set_here D B kit t else done (refuse D B kit t))
              >>= λ t'. done (clear_flag D B kit t'))
          else done t)
        ≡ done u
      → Coloured t
      → Coloured u
  wpset_case-Coloured true t u h c = press-Coloured (may_set D B kit t) t u h c
  wpset_case-Coloured false t u h c = subst Coloured (done-injective h) c

  race_button-Coloured : (t : Sketch D B kit) → Coloured t → Coloured (race_button D B kit t)
  unfolding race_button note_press hold_reset
  race_button-Coloured t c = ground arith

  pub by_state-Coloured :
      (patience : ℕ) (s : State) (t u : Sketch D B kit)
      → by_state D B kit patience s t ≡ done u
      → Coloured t
      → Coloured u
  unfolding by_state reset_case wpset_case
  by_state-Coloured patience st_reset t u h c =
      reset_case-Coloured patience (t.boot_flag == 0) t u h c
  by_state-Coloured patience st_init t u h c = subst Coloured (done-injective h) c
  by_state-Coloured patience st_sfset t u h c = subst Coloured (done-injective h) c
  by_state-Coloured patience st_wpset t u h c = wpset_case-Coloured (t.pb_flag == 1) t u h c
  by_state-Coloured patience st_race t u h c =
      subst Coloured (done-injective h) (race_button-Coloured t c)
