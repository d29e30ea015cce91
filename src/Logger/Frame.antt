-- ===== src/Logger/Frame.antt =====
-- What the `switch` of GPS_logger.ino leaves alone.
use speed_feed.Common.{ℕ, ◌≡◌, arith}
use speed_feed.Tracker.State.{done, >>=-eq-done}
use speed_feed.Tracker.Button.{wait_release}
use speed_feed.Logger.Loop.{log_service, to_race, after_yellow, log_await, log_boot, log_by_state}
use speed_feed.Double.{Double}
use speed_feed.Lights.{Lights, blink_lap_splt}
use speed_feed.Led.{yellow}
use speed_feed.Logger.{Card, LogState, LogSketch, on_world, on_leds}
use speed_feed.Platform.{sample}

module _ (D : Double) (C : Card) where
  open D use {Real}
  open C use {State}

  -- What the `switch` leaves alone.
  pub record IsSame (t u : LogSketch D C) : Type 0 where
    pub same_receiver : u.receiver ≡ t.receiver
    pub same_gps : u.gps ≡ t.gps
    pub same_card : u.card ≡ t.card

  on_leds-IsSame :
      (f : Lights → Lights) (t u v : LogSketch D C)
      → on_leds D C f u ≡ done v
      → IsSame t u
      → IsSame t v
  unfolding on_leds
  on_leds-IsSame f t u v h e = ground arith

  to_race-IsSame : (t u v : LogSketch D C) → to_race D C u ≡ done v → IsSame t u → IsSame t v
  unfolding to_race on_leds
  to_race-IsSame t u v h e = ground arith

  after_yellow-IsSame :
      (t u v : LogSketch D C) → after_yellow D C u ≡ done v → IsSame t u → IsSame t v
  unfolding after_yellow
  after_yellow-IsSame t u v h e = ground (arith, to_race-IsSame t (record u { pb_flag = 0 }) v)

  log_await-IsSame : (t u v : LogSketch D C) → log_await D C u ≡ done v → IsSame t u → IsSame t v
  unfolding log_await on_leds
  log_await-IsSame t u v h e =
      let yellow_lit = record u { lights = blink_lap_splt yellow 500 500 0 u.lights } in
      ground (arith, to_race-IsSame t u v, after_yellow-IsSame t yellow_lit v)

  log_service-IsSame :
      (patience : ℕ) (t u v : LogSketch D C)
      → log_service D C patience u ≡ done v
      → IsSame t u
      → IsSame t v
  unfolding log_service on_leds
  log_service-IsSame patience t u v h e =
      let (w, e', h') = >>=-eq-done (wait_release patience u.lights.world) _ h in ground (arith, h')

  pub log_by_state-IsSame :
      (patience : ℕ) (s : LogState) (t u : LogSketch D C)
      → log_by_state D C patience s t ≡ done u
      → IsSame t u
  unfolding log_by_state log_boot
  log_by_state-IsSame patience LogState.log_reset t u h =
      let sampled = on_world D C sample t in
      let booted = record sampled { boot_flag = 1 } in
      ground (
        arith,
        log_await-IsSame t t u,
        log_await-IsSame t booted u,
        log_service-IsSame patience t sampled u,
      )
  log_by_state-IsSame patience LogState.log_init t u h = ground arith
  log_by_state-IsSame patience LogState.log_race t u h = ground arith
