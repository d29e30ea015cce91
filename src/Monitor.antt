-- ===== src/Monitor.antt =====
-- What the sketches print on the serial monitor, as the bytes of its text.
pub mod Lines
use Prim.Native.Char.{code}
use Prim.Native.String.{String}
use speed_feed.Common.{ℕ, List, [], ◌∷◌, ◌++◌}
use speed_feed.Platform.{Output, World, pin_mode, digital_write, command, print, emit}

-- the bytes of a text
abbrev pub codes : String → List ℕ
codes String.[] = []
codes (String.◌∷◌ c s) = code c ∷ codes s

-- what `println` puts after its text
abbrev pub line_end : List ℕ
line_end = 13 ∷ 10 ∷ []

-- pieces with a separator between them
abbrev pub joined : List ℕ → List (List ℕ) → List ℕ
joined separator [] = []
joined separator (s ∷ []) = s
joined separator (s ∷ (t ∷ ss)) = s ++ (separator ++ joined separator (t ∷ ss))

-- a line of fields with a comma between them
abbrev pub csv_line : List (List ℕ) → List ℕ
csv_line fields = joined (b',' ∷ []) fields ++ line_end

-- `Serial.print`, or several calls of it
abbrev pub print_text : List ℕ → World → World
print_text s w = emit (print s) w

-- All that the monitor has been sent, oldest first.
abbrev pub monitor_in : List Output → List ℕ
monitor_in [] = []
monitor_in (print s ∷ log) = monitor_in log ++ s
monitor_in (digital_write p b ∷ log) = monitor_in log
monitor_in (pin_mode p ∷ log) = monitor_in log
monitor_in (command k ∷ log) = monitor_in log

abbrev pub monitor : World → List ℕ
monitor w = monitor_in w.log
