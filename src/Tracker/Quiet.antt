-- ===== src/Tracker/Quiet.antt =====
-- The steps of `loop` that print nothing and keep the gates: all of the first `switch` after boot but
-- a new gate.
use speed_feed.Common.{◌==◌, ◌≡◌, refl, ◌∙◌, Bool, true, false, arith, if◌then◌else◌, map}
use speed_feed.Double.{Double}
use speed_feed.Led.{red, green, yellow}
use speed_feed.Lights.{Lights, set_splt_lap, blink_lap_splt}
use speed_feed.Lights.Silent.{AreColoured, StaysSilent, set_splt_lap-silent, blink-silent}
use speed_feed.Eeprom.{Bus}
use speed_feed.Eeprom.RoundTrip.{ends}
use speed_feed.Platform.{command, emit}
use speed_feed.Tracker.State.{Kit}
use speed_feed.Tracker.Startup.{on_lights, output_rmc_only, Sketch, on_world, to_init, await_fix}
use speed_feed.Tracker.Setting.{refuse}
use speed_feed.Tracker.Racing.{race_button, note_press, hold_reset}
use speed_feed.Tracker.Ends.{reset-ends}

module _ (D : Double) (B : Bus) (kit : Kit D.Real) where
  -- From `t` to `u` nothing was printed, and the ends of the gates are the same.
  pub record IsQuiet (t u : Sketch D B kit) : Type 0 where
    pub silent : StaysSilent t.lights u.lights
    pub same_boot : u.boot_flag ≡ t.boot_flag
    pub same_ends : map ends u.waypoints ≡ map ends t.waypoints
    pub same_receiver : u.receiver ≡ t.receiver

  pub IsQuiet-self : (t : Sketch D B kit) → AreColoured t.lights → IsQuiet t t
  IsQuiet-self t c = record {
    silent = (c, refl);
    same_boot = refl;
    same_ends = refl;
    same_receiver = refl;
  }

  pub IsQuiet-if :
      (b : Bool) (t u v : Sketch D B kit)
      → IsQuiet t u
      → IsQuiet t v
      → IsQuiet t (if b then u else v)
  IsQuiet-if true t u v h k = h
  IsQuiet-if false t u v h k = k

  pub IsQuiet-trans : (t u v : Sketch D B kit) → IsQuiet t u → IsQuiet u v → IsQuiet t v
  IsQuiet-trans t u v h k = record {
    silent = (k.silent.0, k.silent.1 ∙ h.silent.1);
    same_boot = k.same_boot ∙ h.same_boot;
    same_ends = k.same_ends ∙ h.same_ends;
    same_receiver = k.same_receiver ∙ h.same_receiver;
  }

  -- The LEDs alone.
  pub on_lights-IsQuiet :
      (f : Lights → Lights) (t : Sketch D B kit)
      → StaysSilent t.lights (f t.lights)
      → IsQuiet t (on_lights D B kit f t)
  on_lights-IsQuiet f t s = record {
    silent = s;
    same_boot = refl;
    same_ends = refl;
    same_receiver = refl;
  }

  to_init-IsQuiet : (t : Sketch D B kit) → AreColoured t.lights → IsQuiet t (to_init D B kit t)
  unfolding to_init
  to_init-IsQuiet t c =
      let s =
        blink-silent green 500 500 0 (on_world D B kit (emit (command output_rmc_only)) t).lights
          (omega arith) c in
      record { silent = s; same_boot = refl; same_ends = refl; same_receiver = refl }

  pub await_fix-IsQuiet :
      (t : Sketch D B kit) → AreColoured t.lights → IsQuiet t (await_fix D B kit t)
  unfolding await_fix
  await_fix-IsQuiet t c =
      let q = t.gps.fixquality in
      let s = blink-silent yellow 500 500 0 t.lights (omega arith) c in
      let t' = on_lights D B kit (blink_lap_splt yellow 500 500 0) t in
      let slow = on_lights-IsQuiet (blink_lap_splt yellow 500 500 0) t s in
      let t'' = record t' { pb_flag = 0 } in
      let on : IsQuiet t t'' = record {
        silent = s;
        same_boot = refl;
        same_ends = refl;
        same_receiver = refl;
      } in
      IsQuiet-if (q == 0) t _ _
        (on_lights-IsQuiet (blink_lap_splt red 200 800 0) t
          (blink-silent red 200 800 0 t.lights (omega arith) c))
        (IsQuiet-if (q == 1) t _ _
          (IsQuiet-if (t.pb_flag == 0) t _ _ slow
            (IsQuiet-trans t t'' (to_init D B kit t'') on (to_init-IsQuiet t'' s.0)))
          (IsQuiet-if (q == 2) t _ _ (to_init-IsQuiet t c) (IsQuiet-self t c)))

  pub refuse-IsQuiet : (t : Sketch D B kit) → AreColoured t.lights → IsQuiet t (refuse D B kit t)
  unfolding refuse
  refuse-IsQuiet t c =
      on_lights-IsQuiet (set_splt_lap red 1000) t
        (set_splt_lap-silent red 1000 t.lights (omega arith) c)

  pub race_button-IsQuiet :
      (t : Sketch D B kit) → AreColoured t.lights → IsQuiet t (race_button D B kit t)
  unfolding race_button note_press hold_reset
  race_button-IsQuiet t c = record {
    silent = ground arith;
    same_boot = ground arith;
    same_ends = ground (arith, reset-ends D t.waypoints);
    same_receiver = ground arith;
  }
