-- ===== src/Examples/Disk.antt =====
-- A concrete SD card for the parameter `Card`, and the theorems on the sketch GPS_logger at work.
use speed_feed.Logger.Setup.{power_on, log_setup}
use speed_feed.Logger.Loop.{log_by_state, write_log, log_end, log_parsed, log_second, log_pass}
use speed_feed.Logger.{Card, LogState, Logger, log_name, choose_name, LogSketch}
use speed_feed.Common.{
  ℕ, ◌+◌, ◌*◌, ◌-◌, ◌<◌, ◌≡◌, ◌≢◌, refl, Bool, true, false, Option, none, List, [], ◌∷◌, ◌++◌,
  arith, ltb, length,
}
use speed_feed.Led.Board.{BoardShows}
use speed_feed.Receiver.{zeros, read, last_nmea}
use speed_feed.Receiver.Bounds.{IsInBounds}
use speed_feed.Sentence.{checksum_ok, next_field}
use speed_feed.Nmea.{parse, parse_rmc, angle_of}
use speed_feed.Tracker.State.{Run, done}
use speed_feed.Logger.Name.{HasNames, choose_name_lem}
use speed_feed.Logger.Log.{TakesAll, Logs, logged, Logs-content}
use speed_feed.Logger.Start.{opens, log_setup-opens}
use speed_feed.Examples.Numbers.{Whole, whole_numbers}
use speed_feed.Examples.Board.{led_at}
use speed_feed.Examples.Wire.{receiver, gps, rmc}
use speed_feed.Examples.Sketch.{lights}

-- The files GPSLOG00.TXT up to some number are there; the log file holds `content`, of which
-- `safe` is on the medium.
record Disk : Type 0 where
  files : ℕ
  content : List ℕ
  safe : List ℕ

-- the number in a name
abbrev number_in : List ℕ → ℕ
number_in (a ∷ (b ∷ (c ∷ (d ∷ (e ∷ (f ∷ (g ∷ (h ∷ rest)))))))) = (g - b'0') * 10 + (h - b'0')
number_in _ = 0

-- `open` says whether a file can be created.
abbrev card_of : (open_ok : Bool) → Card
card_of open_ok = record {
  State = Disk;
  begin = λ s. (true, s);
  exists = λ name s. (ltb (number_in name) s.files, s);
  create = λ name s. (open_ok, s);
  write = λ bs s. (length bs, record s { content = s.content ++ bs });
  flush = λ s. record s { safe = s.content };
}

abbrev card_names : HasNames (card_of true)
card_names = record {
  has = λ s name. ltb (number_in name) s.files;
  exists-has = λ name s. refl;
  has-exists = λ name other s. refl;
}

abbrev card_takes : TakesAll (card_of true)
card_takes = record {
  content = λ s. s.content;
  safe = λ s. s.safe;
  taken-write = λ bs s. refl;
  content-write = λ bs s. refl;
  safe-write = λ bs s. refl;
  safe-flush = λ s. refl;
}

-- two logs on the card
abbrev disk : Disk
disk = record { files = 2; content = []; safe = [] }

choose_name_lem_example :
    ((k : ℕ)
      → k < 100
      → ((j : ℕ) → j < k → card_names.has disk (log_name j) ≡ true)
      → card_names.has disk (log_name k) ≡ false
      → (choose_name (card_of true) disk).0 ≡ log_name k)
    × (((j : ℕ) → j < 100 → card_names.has disk (log_name j) ≡ true)
        → (choose_name (card_of true) disk).0 ≡ log_name 99)
choose_name_lem_example = choose_name_lem (card_of true) card_names disk

log_setup-opens_example :
    let t =
      log_setup whole_numbers
        (card_of false)
        (led_at 2 3 1)
        (power_on whole_numbers (card_of false) lights disk) in
    (opens whole_numbers (card_of false) lights disk ≡ false
      → (patience : ℕ) (available : Option ℕ) (u : LogSketch whole_numbers (card_of false))
      → log_pass whole_numbers (card_of false) patience available t ≢ done u)
    × (opens whole_numbers (card_of false) lights disk ≡ true
        → (t.has_leds ≡ true) × BoardShows (t.lights.lap ∷ t.lights.splt ∷ []) t.lights.world)
log_setup-opens_example = log_setup-opens whole_numbers (card_of false) (led_at 2 3 1) lights disk

-- A sentence has come while the sketch is logging.
abbrev logging : Logger Whole Disk
logging = record {
  has_leds = true;
  lights = lights;
  gps = gps;
  receiver = record receiver { line2 = rmc ++ zeros (120 - length rmc); recvdflag = true };
  card = disk;
  pb_flag = 0;
  wp_next = 0;
  current_state = LogState.log_race;
  next_state = LogState.log_race;
  boot_flag = 1;
  last_interrupt_time = 0;
}

abbrev logged_pass : Run (Logger Whole Disk)
logged_pass = log_pass whole_numbers (card_of true) 10 none logging

abbrev after_log : Run (Logger Whole Disk) → Logger Whole Disk
after_log (done t) = t
after_log _ = logging

logged_pass-done :
    (logged_pass ≡ done (after_log logged_pass)) × ((after_log logged_pass).card.content ≡ rmc)
unfolding log_pass log_by_state read log_second last_nmea parse parse_rmc checksum_ok next_field
    angle_of log_parsed log_end write_log
logged_pass-done = (refl, refl)

logging-IsInBounds : IsInBounds logging.receiver
logging-IsInBounds = record { size1 = refl; size2 = refl; index = omega arith }

Logs-content_example :
    ((after_log logged_pass).card.content
      ≡ [] ++ ([] ++ logged whole_numbers (card_of true) card_takes none logging))
    × ((after_log logged_pass).card.safe ≡ [])
Logs-content_example =
    Logs-content whole_numbers (card_of true) card_takes logging (after_log logged_pass)
      ([] ++ logged whole_numbers (card_of true) card_takes none logging)
      (Logs.next 10 none Logs.start logged_pass-done.0) logging-IsInBounds
