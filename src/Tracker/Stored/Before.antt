-- ===== src/Tracker/Stored/Before.antt =====
-- The first `switch` of the loop only reads the EEPROM.
use mathlib.Core.Path.{subst}
use speed_feed.Tracker.Racing.{note_press, hold_reset, race_button}
use speed_feed.Tracker.State.{
  ◌>>=◌, State, st_reset, st_init, st_sfset, st_wpset, st_race, Kit, disk1, done, lift, >>=-eq-done,
  done-injective,
}
use speed_feed.Tracker.Setting.{refuse, add_waypoint, set_here, clear_flag, may_set, wpset_case}
use speed_feed.Tracker.Loop.{by_state}
use speed_feed.Common.{
  if◌then◌else◌, length, get_elem?, ℕ, ◌-◌, ◌≡◌, refl, Bool, true, false, arith,
}
use speed_feed.Eeprom.Reads.{load_waypoints-SameCells}
use speed_feed.Eeprom.Cells.{IsEeprom, SameCells}
use speed_feed.Double.{Double}
use speed_feed.Eeprom.{Bus, load_waypoints}
use speed_feed.Tracker.Startup.{
  on_world, send_waypoints, Sketch, enter_service, load_track, to_init, await_fix, boot, reset_case,
}
use speed_feed.Platform.{sample}
use speed_feed.Geometry.{Point}

module _ (D : Double) (B : Bus) (E : IsEeprom B) (kit : Kit D.Real) where
  open D use {Real}

  abbrev pub KeepsCells : Sketch D B kit → Sketch D B kit → Type 0
  KeepsCells t u = SameCells B E disk1 t.eeprom u.eeprom

  await_fix-eeprom : (t : Sketch D B kit) → (await_fix D B kit t).eeprom ≡ t.eeprom
  unfolding await_fix to_init
  await_fix-eeprom t = ground arith

  load_track-KeepsCells : (t u : Sketch D B kit) → load_track D B kit t ≡ done u → KeepsCells t u
  unfolding load_track
  load_track-KeepsCells t u h =
      let w = t.lights.world in
      let r = load_waypoints D B kit.memory disk1 0 t.waypoints w t.eeprom in
      let (lines, e, h') = >>=-eq-done (lift (send_waypoints D r.0 r.1)) _ h in
      subst (KeepsCells t) (done-injective h')
        (load_waypoints-SameCells D B E disk1 kit.memory 0 t.waypoints w t.eeprom)

  load_and_await-KeepsCells :
      (t u : Sketch D B kit)
      → (load_track D B kit t >>= λ t'. done (await_fix D B kit t')) ≡ done u
      → KeepsCells t u
  load_and_await-KeepsCells t u h =
      let (t', e, h') = >>=-eq-done (load_track D B kit t) _ h in
      subst (KeepsCells t) (done-injective h')
        (rw (await_fix-eeprom t') (load_track-KeepsCells t t' e))

  enter_service-eeprom :
      (patience : ℕ) (t u : Sketch D B kit)
      → enter_service D B kit patience t ≡ done u
      → u.eeprom ≡ t.eeprom
  unfolding enter_service
  enter_service-eeprom patience t u h = ground arith

  same_eeprom : (t u : Sketch D B kit) → u.eeprom ≡ t.eeprom → KeepsCells t u
  same_eeprom t u e a = rw e refl

  reset_case-KeepsCells :
      (patience : ℕ) (t u : Sketch D B kit)
      → reset_case D B kit patience t ≡ done u
      → KeepsCells t u
  unfolding reset_case boot
  reset_case-KeepsCells patience t u h =
      let t' = on_world D B kit sample t in
      ground (
        arith,
        load_and_await-KeepsCells t' u,
        λ (k : enter_service D B kit patience t' ≡ done u).
            same_eeprom t' u (enter_service-eeprom patience t' u k),
        λ (k : done (await_fix D B kit t) ≡ done u). same_eeprom t u (
            subst (λ (v : Sketch D B kit). v.eeprom ≡ t.eeprom) (done-injective k)
              (await_fix-eeprom t)),
      )

  add_waypoint-eeprom :
      (p1 p2 : Point Real) (t : Sketch D B kit) → (add_waypoint D B kit p1 p2 t).eeprom ≡ t.eeprom
  unfolding add_waypoint refuse
  add_waypoint-eeprom p1 p2 t = ground arith

  set_here-eeprom : (t u : Sketch D B kit) → set_here D B kit t ≡ done u → u.eeprom ≡ t.eeprom
  unfolding set_here
  set_here-eeprom t u h =
      let (p1, e1, h1) = >>=-eq-done (lift (get_elem? t.tracks (length t.tracks - 2))) _ h in
      let (p2, e2, h2) = >>=-eq-done (lift (get_elem? t.tracks (length t.tracks - 1))) _ h1 in
      subst (λ (v : Sketch D B kit). v.eeprom ≡ t.eeprom) (done-injective h2)
        (add_waypoint-eeprom p1 p2 t)

  press-eeprom :
      (may_set : Bool) (t u : Sketch D B kit)
      → ((if may_set then set_here D B kit t else done (refuse D B kit t)) >>= λ t'.
          done (clear_flag D B kit t'))
        ≡ done u
      → u.eeprom ≡ t.eeprom
  unfolding refuse
  press-eeprom true t u h =
      let (t', e', h') = >>=-eq-done (set_here D B kit t) _ h in
      ground (arith, set_here-eeprom t t' e', h')
  press-eeprom false t u h = ground arith

  wpset_case-eeprom : (t u : Sketch D B kit) → wpset_case D B kit t ≡ done u → u.eeprom ≡ t.eeprom
  unfolding wpset_case
  wpset_case-eeprom t u h = ground (arith, press-eeprom (may_set D B kit t) t u)

  race_button-eeprom : (t : Sketch D B kit) → (race_button D B kit t).eeprom ≡ t.eeprom
  unfolding race_button note_press hold_reset
  race_button-eeprom t = ground arith

  pub by_state-KeepsCells :
      (patience : ℕ) (s : State) (t u : Sketch D B kit)
      → by_state D B kit patience s t ≡ done u
      → KeepsCells t u
  unfolding by_state
  by_state-KeepsCells patience st_reset t u h = reset_case-KeepsCells patience t u h
  by_state-KeepsCells patience st_init t u h = same_eeprom t u (ground arith)
  by_state-KeepsCells patience st_sfset t u h = same_eeprom t u (ground arith)
  by_state-KeepsCells patience st_wpset t u h = same_eeprom t u (wpset_case-eeprom t u h)
  by_state-KeepsCells patience st_race t u h =
      same_eeprom t u (ground (arith, race_button-eeprom t))
