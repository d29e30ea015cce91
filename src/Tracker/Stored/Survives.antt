-- ===== src/Tracker/Stored/Survives.antt =====
-- A track closed in GPS_tracker_Single_Split.ino is there again when the tracker is switched on.
use native.Mathlib.Nat.{mod-eq_of_lt}
use speed_feed.Tracker.Valid.Pass.{IsSettled, pass-IsSettled}
use speed_feed.Tracker.Stored.Runs.{Outcome, pass-Outcome, Passes-KeepsCells}
use speed_feed.Tracker.Graph.Runs.{may_reach, Passes}
use speed_feed.Tracker.Setup.{greet, set_up_board, setup}
use speed_feed.Led.{Led}
use speed_feed.Tracker.State.{State, st_wpset, st_race, st_reset, Kit, disk1, done}
use speed_feed.Tracker.Startup.{
  on_world, send_waypoints, Sketch, load_track, to_init, await_fix, boot, reset_case,
}
use speed_feed.Tracker.Loop.{by_state, end_pass, second_half, pass}
use speed_feed.Common.{
  take-length, length, take, ℕ, suc, ◌≤◌, ◌<◌, ◌≡◌, refl, sym, ap, ◌∙◌, true, false, Option, some,
  List, [], ◌∷◌, map, arith,
}
use speed_feed.Eeprom.Cells.{IsEeprom}
use speed_feed.Eeprom.Gates.{IsLayout}
use speed_feed.Eeprom.RoundTrip.{
  HoldsTrack, HoldsTrack-SameCells, store_waypoints-HoldsTrack, load_waypoints-HoldsTrack, ends,
}
use speed_feed.Double.{Double}
use speed_feed.Eeprom.{Bus, load_waypoints}
use speed_feed.Waypoint.{Waypoint}
use speed_feed.Receiver.{init_receiver, read}
use speed_feed.Platform.{World, pin_level, sample}

pub send_waypoints-nonempty :
    (D : Double) (ps : List (Waypoint D.Real)) (w : World)
    → 0 < length ps
    → (w' : World) × (send_waypoints D ps w ≡ some w')
unfolding send_waypoints
send_waypoints-nonempty D [] w h = absurd (omega arith)
send_waypoints-nonempty D (p ∷ ps) w h = (_, refl)

pub same_ends-length :
    {R : Type 0} (ps qs : List (Waypoint R)) → map ends ps ≡ map ends qs → length ps ≡ length qs
same_ends-length [] [] h = refl
same_ends-length [] (q ∷ qs) h = cc
same_ends-length (p ∷ ps) [] h = cc
same_ends-length (p ∷ ps) (q ∷ qs) h = ap suc (same_ends-length ps qs (cc))

module _ (D : Double) (L : IsLayout D) (B : Bus) (E : IsEeprom B) (kit : Kit D.Real) where
  open D use {Real}

  -- Loading a track that is there: only the waypoints matter here, and the receiver.
  load_track-loads :
      (t : Sketch D B kit)
      → let ps = (load_waypoints D B kit.memory disk1 0 t.waypoints t.lights.world t.eeprom).0 in
        0 < length ps
        → (u : Sketch D B kit) × (load_track D B kit t ≡ done u)
          × (u.waypoints ≡ ps)
          × (u.receiver ≡ t.receiver)
  unfolding load_track
  load_track-loads t n =
      let r = load_waypoints D B kit.memory disk1 0 t.waypoints t.lights.world t.eeprom in
      let (w', e) = send_waypoints-nonempty D r.0 r.1 n in
      let loaded = record (on_world D B kit (λ _. w') t) {
        waypoints = r.0;
        eeprom = r.2;
        boot_flag = 1;
      } in
      (loaded, rw e refl, refl, refl)

  await_fix-keeps :
      (t : Sketch D B kit)
      → ((await_fix D B kit t).waypoints ≡ t.waypoints)
        × ((await_fix D B kit t).receiver ≡ t.receiver)
  unfolding await_fix to_init
  await_fix-keeps t = ground arith

  quiet-second_half :
      (t : Sketch D B kit)
      → t.receiver.recvdflag ≡ false
      → (u : Sketch D B kit) × (second_half D B kit t ≡ done u) × (u.waypoints ≡ t.waypoints)
  unfolding second_half end_pass
  quiet-second_half t q = (end_pass D B kit t, ground arith, refl)

  boot-loads :
      (patience : ℕ) (t : Sketch D B kit)
      → pin_level t.lights.world ≡ true
      → let w = sample t.lights.world in
        let ps = (load_waypoints D B kit.memory disk1 0 t.waypoints w t.eeprom).0 in
        0 < length ps
        → (u : Sketch D B kit) × (boot D B kit patience t ≡ done u)
          × (u.waypoints ≡ ps)
          × (u.receiver ≡ t.receiver)
  unfolding boot
  boot-loads patience t up n =
      let (v, e, ps, r) = load_track-loads (on_world D B kit sample t) n in
      let (ps', r') = await_fix-keeps v in (await_fix D B kit v, rw (up, e) refl, ps' ∙ ps, r' ∙ r)

  -- The first pass with the button up, no line of the receiver complete, and a chip from which a
  -- track can be loaded.
  first_pass-loads :
      (patience : ℕ) (available : Option ℕ) (t : Sketch D B kit)
      → t.current_state ≡ st_reset
      → t.boot_flag ≡ 0
      → pin_level t.lights.world ≡ true
      → (read available t.receiver).1.recvdflag ≡ false
      → let w = sample t.lights.world in
        let ps = (load_waypoints D B kit.memory disk1 0 t.waypoints w t.eeprom).0 in
        0 < length ps
        → (u : Sketch D B kit) × (pass D B kit patience available t ≡ done u) × (u.waypoints ≡ ps)
  unfolding pass by_state reset_case
  first_pass-loads patience available t s b up quiet n =
      let t' = record t { receiver = (read available t.receiver).1 } in
      let (v, e, ps, r) = boot-loads patience t' up n in
      let (u, e', ps') = quiet-second_half v (ground arith) in (u, ground arith, ps' ∙ ps)

  -- A pass in service mode after which the race is on has left its track on the chip.
  closing-HoldsTrack :
      (patience : ℕ) (available : Option ℕ) (t u : Sketch D B kit)
      → pass D B kit patience available t ≡ done u
      → t.current_state ≡ t.next_state
      → t.current_state ≡ st_wpset
      → u.current_state ≡ st_race
      → length u.waypoints ≤ 255
      → HoldsTrack D L B E disk1 u.eeprom 0 u.waypoints
  closing-HoldsTrack patience available t u h a s r n =
      let (from, move, outcome, same) = pass-Outcome D B E kit patience available t u h a in
      closed from outcome (same s)
    where
      closed :
          (from : State)
          → Outcome D B E kit from t u
          → from ≡ st_wpset
          → HoldsTrack D L B E disk1 u.eeprom 0 u.waypoints
      closed from (Outcome.keeps k s) w = absurd (ground (arith, s w))
      closed from (Outcome.stores s k w e r) _ =
          rw e (store_waypoints-HoldsTrack D L B E disk1 u.waypoints 0 s (omega arith))

  race_needs_start :
      (u : Sketch D B kit)
      → IsSettled D B kit u
      → u.current_state ≡ st_race
      → (0 < length u.waypoints) × (may_reach u.current_state st_wpset ≡ false)
  race_needs_start u v r = (v.valid.nonempty (rw (sym v.agree ∙ r) refl), rw r refl)

  reload :
      (patience : ℕ) (available : Option ℕ) (blank : Led) (w : World) (s : B.State)
      (ps : List (Waypoint Real))
      → HoldsTrack D L B E disk1 s 0 ps
      → 0 < length ps
      → length ps ≤ 255
      → pin_level (set_up_board blank (greet w)).world ≡ true
      → (read available init_receiver).1.recvdflag ≡ false
      → (x : Sketch D B kit) × (pass D B kit patience available (setup D B kit blank w s) ≡ done x)
        × (map ends x.waypoints ≡ map ends ps)
  unfolding setup
  reload patience available blank w s ps held n short up quiet =
      let t = setup D B kit blank w s in
      let w' = sample t.lights.world in
      let same : map ends (load_waypoints D B kit.memory disk1 0 [] w' s).0 ≡ map ends ps =
        load_waypoints-HoldsTrack D L B E disk1 kit.memory ps 0 w' s (omega arith) held
        ∙ ap (map ends) (ap (λ k. take k ps) (mod-eq_of_lt (omega arith)) ∙ take-length ps) in
      let size = same_ends-length (load_waypoints D B kit.memory disk1 0 [] w' s).0 ps same in
      let (x, h, e) =
        first_pass-loads patience available t refl refl up quiet (omega (arith, size)) in
      (x, h, ap (map ends) e ∙ same)

  -- A track of at most 255 gates that a pass in service mode closes, from a sketch in which the
  -- invariant holds and the two state variables agree: after any number of further passes that
  -- come to their end, with interrupts between them, and the power off and on again with the button up, the first pass after
  -- `setup` comes to its end, if no line of the receiver is complete in it, and has loaded gates
  -- with the same ends in the same order.
  pub track_survives :
      (patience patience' : ℕ) (available available' : Option ℕ) (t u v : Sketch D B kit)
      (blank : Led) (w : World)
      → pass D B kit patience available t ≡ done u
      → IsSettled D B kit t
      → t.current_state ≡ st_wpset
      → u.current_state ≡ st_race
      → length u.waypoints ≤ 255
      → Passes D B kit u v
      → pin_level (set_up_board blank (greet w)).world ≡ true
      → (read available' init_receiver).1.recvdflag ≡ false
      → (x : Sketch D B kit) × (pass D B kit patience' available' (setup D B kit blank w v.eeprom)
          ≡ done x)
        × (map ends x.waypoints ≡ map ends u.waypoints)
  track_survives patience patience' available available' t u v blank w h settled s r n run up
        quiet =
      let held = closing-HoldsTrack patience available t u h settled.agree s r n in
      let settled' = pass-IsSettled D B kit patience available t u h settled in
      let (nonempty, racing) = race_needs_start u settled' r in
      let kept = Passes-KeepsCells D B E kit u v run settled' racing in
      reload patience' available' blank w v.eeprom u.waypoints
        (HoldsTrack-SameCells D L B E disk1 u.eeprom v.eeprom 0 u.waypoints kept held) nonempty n up
        quiet
