-- ===== src/Logger/Loop.antt =====
-- `loop` of GPS_logger.ino and the interrupt of its button.
use speed_feed.Tracker.Startup.{output_rmc_only, service_mode}
use speed_feed.Tracker.Button.{Press, interrupt_pb, wait_release}
use speed_feed.Tracker.State.{◌>>=◌, Run, done, lift}
use speed_feed.Common.{◌==◌, if◌then◌else◌, length, take, ℕ, ◌%◌, Bool, Option, List, [], ◌∷◌}
use speed_feed.Double.{Double}
use speed_feed.Sentence.{holds}
use speed_feed.Nmea.{Gps, parse}
use speed_feed.Lights.{set_splt_lap, blink_lap_splt, update_lights}
use speed_feed.Led.{red, green, yellow}
use speed_feed.Logger.{Card, LogState, log_reset, log_init, log_race, LogSketch, on_world, on_leds}
use speed_feed.Receiver.{read, last_nmea}
use speed_feed.Platform.{print, command, millis, tick, pin_level, sample, emit}

module _ (D : Double) (C : Card) where
  open D use {Real}
  open C use {State, begin, create, write, flush}

  -- The button is down at boot.
  unfoldable pub log_service : ℕ → LogSketch D C → Run (LogSketch D C)
  unfolding on_leds
  log_service patience t = do
    w ← wait_release patience t.lights.world
    u ← on_leds D C (set_splt_lap yellow 0) (on_world D C (λ _. w) t)
    done (record (on_world D C (emit (print service_mode)) u) {
      pb_flag = 0;
      wp_next = 0;
      next_state = log_race;
      current_state = log_race;
      boot_flag = 1;
    })

  -- the way on to ST_RACE
  unfoldable pub to_race : LogSketch D C → Run (LogSketch D C)
  unfolding on_leds
  to_race t =
      on_leds D C (blink_lap_splt green 500 500 0)
        (on_world D C (emit (command output_rmc_only)) (record t { next_state = log_race }))

  unfoldable pub after_yellow : LogSketch D C → Run (LogSketch D C)
  unfolding to_race
  after_yellow t = if t.pb_flag == 0 then done t else to_race (record t { pb_flag = 0 })

  unfoldable pub log_await : LogSketch D C → Run (LogSketch D C)
  unfolding after_yellow to_race on_leds
  log_await t =
      let q = t.gps.fixquality in
      if q == 0
      then on_leds D C (blink_lap_splt red 200 800 0) t
      else (if q == 1
          then on_leds D C (blink_lap_splt yellow 500 500 0) t >>= after_yellow
          else (if q == 2 then to_race t else done t))

  unfoldable pub log_boot : ℕ → LogSketch D C → Run (LogSketch D C)
  unfolding log_service log_await
  log_boot patience t =
      let t' = on_world D C sample t in
      if pin_level t.lights.world
      then log_await (record t' { boot_flag = 1 })
      else log_service patience t'

  -- The `switch`: only ST_RESET has something to do.
  unfoldable pub log_by_state : ℕ → LogState → LogSketch D C → Run (LogSketch D C)
  unfolding log_boot log_await
  log_by_state patience log_reset t = if t.boot_flag == 0 then log_boot patience t else log_await t
  log_by_state patience log_init t = done t
  log_by_state patience log_race t = done t

  abbrev pub rmc_word : List ℕ
  rmc_word = b'R' ∷ b'M' ∷ b'C' ∷ []

  -- The length of the text is kept in a `uint8_t`. The second `if` is the body of the first one,
  -- which has no other: the file is flushed only if the card did not take all of the text.
  unfoldable pub write_log : List ℕ → State → State
  write_log text card =
      let n = length text % 256 in
      let (taken, card') = write (take n text) card in
      if n == taken then card' else (if holds rmc_word text then flush card' else card')

  unfoldable pub log_end : LogSketch D C → LogSketch D C
  log_end t =
      let t' = record t { current_state = t.next_state } in
      if t.has_leds then record t' { lights = update_lights t.lights } else on_world D C tick t'

  -- The sentence that has come, after `parse`; it is read a second time from the same buffer.
  unfoldable pub log_parsed : LogSketch D C → Bool × Gps Real → Run (LogSketch D C)
  unfolding write_log log_end
  log_parsed t (parsed, gps) =
      let (text, receiver) = last_nmea t.receiver in
      let t' = record t { receiver = receiver; gps = gps; current_state = t.next_state } in
      if parsed then done (log_end (record t' { card = write_log text t.card })) else done t'

  unfoldable pub log_second : LogSketch D C → Run (LogSketch D C)
  unfolding log_parsed log_end
  log_second t =
      if t.receiver.recvdflag
      then lift (parse D (last_nmea t.receiver).0 t.gps) >>= log_parsed t
      else done (log_end t)

  unfoldable pub log_pass : ℕ → Option ℕ → LogSketch D C → Run (LogSketch D C)
  unfolding log_by_state log_second
  log_pass patience available t =
      let t' = record t { receiver = (read available t.receiver).1 } in
      log_by_state patience t.current_state t' >>= log_second

  -- The interrupt of the button, taken between two passes.
  unfoldable pub log_interrupt : LogSketch D C → LogSketch D C
  log_interrupt t =
      let now = millis t.lights.world in
      let before : Press = record {
        last_interrupt_time = t.last_interrupt_time;
        flag = t.pb_flag;
      } in
      let p = interrupt_pb now before in
      record (on_world D C tick t) { last_interrupt_time = p.last_interrupt_time; pb_flag = p.flag }
