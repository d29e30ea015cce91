-- ===== src/Logger/Setup.antt =====
-- `setup` of GPS_logger.ino.
use speed_feed.Tracker.Setup.{greet, set_up_board}
use speed_feed.Common.{if◌then◌else◌, ℕ, true, false, List}
use speed_feed.Double.{Double}
use speed_feed.Nmea.{init_gps}
use speed_feed.Lights.{Lights}
use speed_feed.Led.{Led}
use speed_feed.Logger.{
  Card, log_reset, choose_name, card_failed, could_not_create, writing_to, chip_pin, LogSketch,
  on_world,
}
use speed_feed.Receiver.{init_receiver}
use speed_feed.Platform.{pin_mode, emit}
use speed_feed.Monitor.{print_text}

module _ (D : Double) (C : Card) where
  open D use {Real}
  open C use {State, begin, create, write, flush}

  -- Before `setup`: `lights` holds the world, and LEDs that are nowhere yet.
  unfoldable pub power_on : Lights → State → LogSketch D C
  power_on lights card = record {
    has_leds = false;
    lights = lights;
    gps = init_gps D;
    receiver = init_receiver;
    card = card;
    pb_flag = 0;
    wp_next = 0;
    current_state = log_reset;
    next_state = log_reset;
    boot_flag = 0;
    last_interrupt_time = 0;
  }

  -- The end of `setup`, once the file is open.
  unfoldable pub set_up_logger : (blank : Led) → List ℕ → LogSketch D C → LogSketch D C
  set_up_logger blank name t = record t {
    has_leds = true;
    lights = set_up_board blank (print_text (writing_to name) t.lights.world);
  }

  -- The file is opened, or `setup` returns. `name` is the one chosen.
  unfoldable pub open_log : (blank : Led) → List ℕ → LogSketch D C → LogSketch D C
  unfolding set_up_logger
  open_log blank name t =
      let (opened, card) = create name t.card in
      let t' = record t { card = card } in
      if opened
      then set_up_logger blank name t'
      else on_world D C (print_text (could_not_create name)) t'

  unfoldable pub start_card : LogSketch D C → LogSketch D C
  start_card t =
      let (ready, card) = begin t.card in
      let t' = record (on_world D C (emit (pin_mode chip_pin)) t) { card = card } in
      if ready then t' else on_world D C (print_text card_failed) t'

  unfoldable pub log_setup : (blank : Led) → LogSketch D C → LogSketch D C
  unfolding open_log start_card greet
  log_setup blank t =
      let t' = start_card (on_world D C greet t) in
      let (name, card) = choose_name C t'.card in open_log blank name (record t' { card = card })
