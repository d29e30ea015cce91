-- ===== src/Logger.antt =====
-- The sketch GPS_logger/GPS_logger.ino, which writes the sentences of the GPS module to a file on
-- an SD card. The SD library is not modelled: it is the parameter `Card`.
pub mod Setup
pub mod Loop
pub mod Name
pub mod Frame
pub mod Log
pub mod Start
use speed_feed.Common.{
  ◌++◌, ℕ, zero, suc, ◌+◌, ◌/◌, ◌%◌, Bool, true, false, Option, none, some, List, [], ◌∷◌, ◌==◌,
  if◌then◌else◌, length, take,
}
use speed_feed.Platform.{millis, World, pin_mode, command, emit, tick, pin_level, sample}
use speed_feed.Double.{Double}
use speed_feed.Led.{Led, red, green, yellow}
use speed_feed.Lights.{Lights, set_splt_lap, blink_lap_splt, update_lights}
use speed_feed.Receiver.{Receiver, init_receiver, read, last_nmea}
use speed_feed.Sentence.{holds}
use speed_feed.Nmea.{Gps, init_gps, parse}
use speed_feed.Tracker.State.{Run, done, fault, ◌>>=◌, lift}
use speed_feed.Tracker.Button.{Press, interrupt_pb, wait_release}
use speed_feed.Tracker.Startup.{output_rmc_only, service_mode}
use speed_feed.Tracker.Setup.{set_up_board}
use speed_feed.Monitor.{codes, line_end}

-- SD.begin, SD.exists, and SD.open for writing, with their answers; logfile.write with the number
-- of bytes that it took, and logfile.flush.
pub record Card : Type 1 where
  pub State : Type 0
  pub begin : State → Bool × State
  pub exists : List ℕ → State → Bool × State
  pub create : List ℕ → State → Bool × State
  pub write : List ℕ → State → ℕ × State
  pub flush : State → State

-- ST_RESET, ST_INIT and ST_RACE
pub data LogState : Type 0 where
  log_reset log_init log_race : LogState

-- The globals and the static variables. `has_leds` says whether `setup` has filled `myLEDs`;
-- until then the world of `lights` is all that there is of them.
pub record Logger (R : Type 0) (S : Type 0) : Type 0 where
  pub has_leds : Bool
  pub lights : Lights
  pub gps : Gps R
  pub receiver : Receiver
  pub card : S
  pub pb_flag : ℕ
  pub wp_next : ℕ
  pub current_state : LogState
  pub next_state : LogState
  pub boot_flag : ℕ
  pub last_interrupt_time : ℕ

-- "GPSLOG00.TXT" with the two digits of `i`
unfoldable pub log_name : ℕ → List ℕ
log_name i =
    b'G'
    ∷ b'P'
    ∷ b'S'
    ∷ b'L'
    ∷ b'O'
    ∷ b'G'
    ∷ (b'0' + i / 10)
    ∷ (b'0' + i % 10)
    ∷ b'.'
    ∷ b'T'
    ∷ b'X'
    ∷ b'T'
    ∷ []

module _ (C : Card) where
  open C use {State, exists}

  -- `n` rounds of the loop over the names are left; the last name stays if all of them are there.
  unfoldable pub choose_from : (n i : ℕ) → (name : List ℕ) → State → List ℕ × State
  choose_from zero i name s = (name, s)
  choose_from (suc n) i name s =
      let (there, s') = exists (log_name i) s in
      let rest = choose_from n (i + 1) (log_name i) s' in if there then rest else (log_name i, s')

  unfoldable pub choose_name : State → List ℕ × State
  unfolding choose_from
  choose_name s = choose_from 100 0 (log_name 0) s

-- the lines "Card init. failed!", "Couldnt create …" and "Writing to …"
abbrev pub card_failed : List ℕ
card_failed = codes "Card init. failed!" ++ line_end

abbrev pub could_not_create : List ℕ → List ℕ
could_not_create name = codes "Couldnt create " ++ (name ++ line_end)

abbrev pub writing_to : List ℕ → List ℕ
writing_to name = codes "Writing to " ++ (name ++ line_end)

abbrev pub chip_pin : ℕ
chip_pin = 10

module _ (D : Double) (C : Card) where
  open D use {Real}
  open C use {State, begin, create, write, flush}

  abbrev pub LogSketch : Type 0
  LogSketch = Logger Real State

  abbrev pub on_world : (World → World) → LogSketch → LogSketch
  on_world f t = record t { lights = record t.lights { world = f t.lights.world } }

  -- `myLEDs[…]`, which must be there
  unfoldable pub on_leds : (Lights → Lights) → LogSketch → Run LogSketch
  on_leds f t = if t.has_leds then done (record t { lights = f t.lights }) else fault
