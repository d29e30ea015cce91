-- ===== src/Platform.antt =====
-- What the sketches see of the board through the Arduino core, which is not part of the
-- repository: the clock behind `millis()`, the level of the push-button pin behind
-- `digitalRead(PIN_PB)`, and a log of the calls that act on the outside.
use speed_feed.Common.{ℕ, ◌+◌, ◌%◌, Bool, false, List, [], ◌∷◌, ◌==◌, if◌then◌else◌, word_mod}

-- A call that leaves the program. `command` is a string sent to the GPS module by its number
-- below; `print` is a text on the serial monitor, the texts of calls that follow each other put
-- together.
pub data Output : Type 0 where
  pin_mode : ℕ → Output
  digital_write : ℕ → Bool → Output
  command : ℕ → Output
  print : List ℕ → Output

-- The n-th call of `millis()` returns `clock n`, wrapped to 32 bits, and the n-th read of the
-- button pin `button n` (true is HIGH: the button is up). Nothing is assumed of either.
pub record World : Type 0 where
  pub clock : ℕ → ℕ
  pub clock_reads : ℕ
  pub button : ℕ → Bool
  pub button_reads : ℕ
  pub log : List Output

abbrev pub millis : World → ℕ
millis w = w.clock w.clock_reads % word_mod

-- the world after a call of `millis()`
abbrev pub tick : World → World
tick w = record w { clock_reads = w.clock_reads + 1 }

abbrev pub pin_level : World → Bool
pin_level w = w.button w.button_reads

-- the world after a read of the button pin
abbrev pub sample : World → World
sample w = record w { button_reads = w.button_reads + 1 }

abbrev pub emit : Output → World → World
emit o w = record w { log = o ∷ w.log }

-- The level that a pin was last set to; LOW before any write.
abbrev pub level_in : List Output → ℕ → Bool
level_in [] pin = false
level_in (digital_write p b ∷ log) pin = if p == pin then b else level_in log pin
level_in (pin_mode p ∷ log) pin = level_in log pin
level_in (command k ∷ log) pin = level_in log pin
level_in (print s ∷ log) pin = level_in log pin

abbrev pub level : World → ℕ → Bool
level w pin = level_in w.log pin
