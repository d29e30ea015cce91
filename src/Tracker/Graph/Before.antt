-- ===== src/Tracker/Graph/Before.antt =====
-- The moves of the first `switch` of the loop in the graph of states.
use mathlib.Core.Path.{subst}
use speed_feed.Common.{
  ℕ, ◌≡◌, ◌∙◌, ◌⊎◌, sym, Bool, true, false, length, arith, if◌then◌else◌, get_elem?, ◌-◌,
}
use speed_feed.Platform.{sample}
use speed_feed.Double.{Double}
use speed_feed.Geometry.{Point}
use speed_feed.Eeprom.{Bus, load_waypoints}
use speed_feed.Tracker.State.{
  Kit, State, st_reset, st_init, st_sfset, st_wpset, st_race, disk1, done, >>=-eq-done, ◌>>=◌, lift,
  done-injective,
}
use speed_feed.Tracker.Startup.{
  Sketch, await_fix, load_track, enter_service, boot, reset_case, on_world, send_waypoints,
}
use speed_feed.Tracker.Setting.{add_waypoint, set_here, may_set, clear_flag, refuse, wpset_case}
use speed_feed.Tracker.Racing.{race_button}
use speed_feed.Tracker.Loop.{by_state}
use speed_feed.Tracker.Graph.Edges.{
  BootMove, waits, boots, services, BootMove-either, BootMove-same,
}

module _ (D : Double) (B : Bus) (kit : Kit D.Real) where
  open D use {Real}

  await_fix-next :
      (t : Sketch D B kit)
      → ((await_fix D B kit t).next_state ≡ t.next_state)
        ⊎ ((await_fix D B kit t).next_state ≡ st_init)
  unfolding await_fix
  await_fix-next t = ground arith

  await_fix-BootMove :
      (t : Sketch D B kit)
      → t.next_state ≡ st_reset
      → BootMove st_reset (await_fix D B kit t).next_state
  await_fix-BootMove t e = BootMove-either waits boots (ground (arith, await_fix-next t))

  load_track-next :
      (t u : Sketch D B kit) → load_track D B kit t ≡ done u → u.next_state ≡ t.next_state
  unfolding load_track
  load_track-next t u h =
      let r = load_waypoints D B kit.memory disk1 0 t.waypoints t.lights.world t.eeprom in
      let (lines, e, h') = >>=-eq-done (lift (send_waypoints D r.0 r.1)) _ h in ground (arith, h')

  load_and_await-BootMove :
      (t u : Sketch D B kit)
      → (load_track D B kit t >>= λ t'. done (await_fix D B kit t')) ≡ done u
      → t.next_state ≡ st_reset
      → BootMove st_reset u.next_state
  load_and_await-BootMove t u h e =
      let (t', e', h') = >>=-eq-done (load_track D B kit t) _ h in
      subst (λ (v : Sketch D B kit). BootMove st_reset v.next_state) (done-injective h')
        (await_fix-BootMove t' (rw (load_track-next t t' e') e))

  enter_service-next :
      (patience : ℕ) (t u : Sketch D B kit)
      → enter_service D B kit patience t ≡ done u
      → u.next_state ≡ st_wpset
  unfolding enter_service
  enter_service-next patience t u h = ground arith

  reset_case-BootMove :
      (patience : ℕ) (t u : Sketch D B kit)
      → reset_case D B kit patience t ≡ done u
      → t.next_state ≡ st_reset
      → BootMove st_reset u.next_state
  unfolding reset_case boot
  reset_case-BootMove patience t u h e =
      let t' = on_world D B kit sample t in
      ground (
        arith,
        load_and_await-BootMove t' u,
        λ (k : enter_service D B kit patience t' ≡ done u).
            subst (BootMove st_reset) (sym (enter_service-next patience t' u k)) services,
        await_fix-BootMove t e,
      )

  add_waypoint-next :
      (p1 p2 : Point Real) (t : Sketch D B kit)
      → (add_waypoint D B kit p1 p2 t).next_state ≡ t.next_state
  unfolding add_waypoint
  add_waypoint-next p1 p2 t = ground arith

  set_here-next : (t u : Sketch D B kit) → set_here D B kit t ≡ done u → u.next_state ≡ t.next_state
  unfolding set_here
  set_here-next t u h =
      let (p1, e1, h1) = >>=-eq-done (lift (get_elem? t.tracks (length t.tracks - 2))) _ h in
      let (p2, e2, h2) = >>=-eq-done (lift (get_elem? t.tracks (length t.tracks - 1))) _ h1 in
      subst (λ (v : Sketch D B kit). v.next_state ≡ t.next_state) (done-injective h2)
        (add_waypoint-next p1 p2 t)

  press-next :
      (may_set : Bool) (t u : Sketch D B kit)
      → ((if may_set then set_here D B kit t else done (refuse D B kit t)) >>= λ t'.
          done (clear_flag D B kit t'))
        ≡ done u
      → u.next_state ≡ t.next_state
  unfolding refuse
  press-next true t u h =
      let (t', e', h') = >>=-eq-done (set_here D B kit t) _ h in
      ground (arith, set_here-next t t' e', h')
  press-next false t u h = ground arith

  pub wpset_case-next :
      (t u : Sketch D B kit) → wpset_case D B kit t ≡ done u → u.next_state ≡ t.next_state
  unfolding wpset_case
  wpset_case-next t u h = ground (arith, press-next (may_set D B kit t) t u)

  race_button-next : (t : Sketch D B kit) → (race_button D B kit t).next_state ≡ t.next_state
  unfolding race_button
  race_button-next t = ground arith

  pub by_state-BootMove :
      (patience : ℕ) (s : State) (t u : Sketch D B kit)
      → by_state D B kit patience s t ≡ done u
      → t.next_state ≡ s
      → BootMove s u.next_state
  unfolding by_state
  by_state-BootMove patience st_reset t u h e = reset_case-BootMove patience t u h e
  by_state-BootMove patience st_init t u h e = BootMove-same (ground arith)
  by_state-BootMove patience st_sfset t u h e = BootMove-same (ground arith)
  by_state-BootMove patience st_wpset t u h e = BootMove-same (wpset_case-next t u h ∙ e)
  by_state-BootMove patience st_race t u h e = BootMove-same (ground (arith, race_button-next t))
