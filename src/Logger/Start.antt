-- ===== src/Logger/Start.antt =====
-- GPS_logger.ino when the log file cannot be created: `setup` returns at once, and `loop` runs.
use speed_feed.Monitor.{print_text}
use speed_feed.Logger.Setup.{power_on, start_card, log_setup}
use speed_feed.Logger.Loop.{log_service, log_await, log_boot, log_by_state, log_pass}
use speed_feed.Logger.{Card, LogState, choose_name, writing_to, LogSketch, on_world, on_leds}
use speed_feed.Common.{ℕ, ◌≡◌, ◌≢◌, ◌∙◌, Bool, true, false, Option, [], ◌∷◌, arith}
use speed_feed.Platform.{World, sample}
use speed_feed.Double.{Double}
use speed_feed.Led.{Led}
use speed_feed.Led.Board.{BoardShows}
use speed_feed.Lights.{Lights}
use speed_feed.Receiver.{read}
use speed_feed.Nmea.{init_gps}
use speed_feed.Tracker.State.{done, >>=-eq-done}
use speed_feed.Tracker.Button.{wait_release}
use speed_feed.Tracker.Setup.{greet, set_up_board}
use speed_feed.Tracker.Setup.Start.{set_up_board-BoardShows}

module _ (D : Double) (C : Card) where
  open C use {State, create, begin}

  -- The answer of `create` in `setup`: whether the log file is open.
  abbrev pub opens : Lights → State → Bool
  opens lights s =
      let t = start_card D C (on_world D C greet (power_on D C lights s)) in
      let (name, s') = choose_name C t.card in (create name s').0

  log_setup-has_leds :
      (blank : Led) (lights : Lights) (s : State)
      → (log_setup D C blank (power_on D C lights s)).has_leds ≡ opens lights s
  unfolding log_setup start_card power_on
  log_setup-has_leds blank lights s = ground arith

  abbrev start_world : Lights → State → World
  start_world lights s =
      let t = start_card D C (on_world D C greet (power_on D C lights s)) in
      print_text (writing_to (choose_name C t.card).0) t.lights.world

  log_setup-lights :
      (blank : Led) (lights : Lights) (s : State)
      → opens lights s ≡ true
      → (log_setup D C blank (power_on D C lights s)).lights
        ≡ set_up_board blank (start_world lights s)
  unfolding log_setup start_card power_on
  log_setup-lights blank lights s h = ground arith

  -- What a sketch that has not yet run a pass is like.
  record IsFresh (t : LogSketch D C) : Type 0 where
    at_reset : t.current_state ≡ LogState.log_reset
    not_booted : t.boot_flag ≡ 0
    no_fix : t.gps.fixquality ≡ 0

  log_setup-IsFresh :
      (blank : Led) (lights : Lights) (s : State)
      → IsFresh (log_setup D C blank (power_on D C lights s))
  unfolding log_setup start_card power_on init_gps
  log_setup-IsFresh blank lights s = ground arith

  log_service-without_leds :
      (patience : ℕ) (t u : LogSketch D C)
      → t.has_leds ≡ false
      → log_service D C patience t ≢ done u
  unfolding log_service on_leds
  log_service-without_leds patience t u h e =
      let (w, e', h') = >>=-eq-done (wait_release patience t.lights.world) _ e in ground (arith, h')

  log_pass-without_leds :
      (patience : ℕ) (available : Option ℕ) (t u : LogSketch D C)
      → IsFresh t
      → t.has_leds ≡ false
      → log_pass D C patience available t ≢ done u
  unfolding log_pass log_by_state log_boot log_await on_leds
  log_pass-without_leds patience available t u f h e =
      let t' = record t { receiver = (read available t.receiver).1 } in
      let (w, e', h') = >>=-eq-done (log_by_state D C patience t.current_state t') _ e in
      ground (arith, log_service-without_leds patience (on_world D C sample t') w h)

  -- If the log file cannot be created, then the first pass of `loop` never comes to its end: it
  -- names an LED of the empty vector, or still waits for the button. If it can be, both LEDs are
  -- there, dark, and in step with their pins.
  pub log_setup-opens :
      (blank : Led) (lights : Lights) (s : State)
      → let t = log_setup D C blank (power_on D C lights s) in
        (opens lights s ≡ false
          → (patience : ℕ) (available : Option ℕ) (u : LogSketch D C)
          → log_pass D C patience available t ≢ done u)
        × (opens lights s ≡ true
            → (t.has_leds ≡ true) × BoardShows (t.lights.lap ∷ t.lights.splt ∷ []) t.lights.world)
  log_setup-opens blank lights s = (
    λ closed patience available u.
        log_pass-without_leds patience available (log_setup D C blank (power_on D C lights s)) u
          (log_setup-IsFresh blank lights s) (log_setup-has_leds blank lights s ∙ closed),
    λ opened. (
      log_setup-has_leds blank lights s ∙ opened,
      rw (log_setup-lights blank lights s opened)
          (set_up_board-BoardShows blank (start_world lights s)).0,
    ),
  )
