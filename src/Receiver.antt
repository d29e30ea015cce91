-- ===== src/Receiver.antt =====
-- The line buffers of libraries/SPK_GPS/SPK_GPS.cpp: `read`, `newNMEAreceived`, `lastNMEA` and
-- `pause`. Two arrays of characters take turns: one is filled from the serial port while the
-- other holds the last whole line. `char` is unsigned on the Due.
pub mod Bounds
pub mod Lines
pub mod Plain
pub mod Refine
use speed_feed.Common.{
  ℕ, zero, suc, ◌+◌, ◌-◌, ◌%◌, Bool, true, false, not, ◌&&◌, Option, none, some, List, [], ◌∷◌, leb,
  ◌==◌, if◌then◌else◌,
}

abbrev pub max_line_length : ℕ
max_line_length = 120

-- `on_first` says that `currentline` is `line1`, `last_first` that `lastline` is.
pub record Receiver : Type 0 where
  pub line1 : List ℕ
  pub line2 : List ℕ
  pub lineidx : ℕ
  pub on_first : Bool
  pub last_first : Bool
  pub recvdflag : Bool
  pub paused : Bool

abbrev pub current : Receiver → List ℕ
current r = if r.on_first then r.line1 else r.line2

abbrev pub last : Receiver → List ℕ
last r = if r.last_first then r.line1 else r.line2

-- `a[i] = c` in memory: past the end of the array it is what lies behind it that is written, and
-- the list grows longer than the array.
abbrev pub write_at : List ℕ → ℕ → ℕ → List ℕ
write_at [] zero c = c ∷ []
write_at [] (suc i) c = 0 ∷ write_at [] i c
write_at (b ∷ bs) zero c = c ∷ bs
write_at (b ∷ bs) (suc i) c = b ∷ write_at bs i c

-- `currentline[i] = c`
pub put : ℕ → ℕ → Receiver → Receiver
put i c r =
    if r.on_first
    then record r { line1 = write_at r.line1 i c }
    else record r { line2 = write_at r.line2 i c }

abbrev pub zeros : ℕ → List ℕ
zeros zero = []
zeros (suc n) = 0 ∷ zeros n

-- The receiver's part of `common_init`, on arrays that are zero when the program starts.
unfoldable pub init_receiver : Receiver
init_receiver = record {
  line1 = zeros max_line_length;
  line2 = zeros max_line_length;
  lineidx = 0;
  on_first = true;
  last_first = false;
  recvdflag = false;
  paused = false;
}

abbrev pub newline : ℕ
newline = 10

abbrev pub carriage_return : ℕ
carriage_return = 13

-- A dollar sign starts the line anew.
start_line : ℕ → Receiver → Receiver
unfolding put
start_line c r = if c == b'$' then record (put r.lineidx 0 r) { lineidx = 0 } else r

-- A newline ends the line and swaps the buffers.
end_line : ℕ → Receiver → Receiver
unfolding put
end_line c r =
    if c == newline
    then record (put r.lineidx 0 r) {
      on_first = not r.on_first;
      last_first = r.on_first;
      lineidx = 0;
      recvdflag = true;
    }
    else r

-- Any other character but a carriage return is kept. The third test of the source compares with
-- the constant '\r\n', whose value is 0x0d0a. `lineidx` is a `uint8_t`.
keep_char : ℕ → Receiver → Receiver
unfolding put
keep_char c r =
    if not (c == carriage_return) && (not (c == newline) && not (c == 0x0d0a))
    then record (put r.lineidx c r) { lineidx = (r.lineidx + 1) % 256 }
    else r

-- The last character of a line that is too long is written over.
limit_line : Receiver → Receiver
limit_line r =
    if leb max_line_length r.lineidx then record r { lineidx = max_line_length - 1 } else r

unfoldable pub receive : ℕ → Receiver → Receiver
unfolding start_line end_line keep_char limit_line
receive c r = limit_line (keep_char c (end_line c (start_line c r)))

-- `none` is a serial port with nothing available; the character is returned, or 0.
unfoldable pub read : Option ℕ → Receiver → ℕ × Receiver
unfolding receive
read available r =
    if r.paused then (0, r) else elim available [ none ↦ (0, r) | some c ↦ (c, receive c r) ]

unfoldable pub pause : Bool → Receiver → Receiver
pause p r = record r { paused = p }

-- the text of a C string: its characters before the first NUL
abbrev pub c_string : List ℕ → List ℕ
c_string [] = []
c_string (c ∷ cs) = if c == 0 then [] else c ∷ c_string cs

-- The pointer that is returned is taken as the text that it points to.
unfoldable pub last_nmea : Receiver → List ℕ × Receiver
last_nmea r = (c_string (last r), record r { recvdflag = false })

-- Characters that arrive one after the other.
unfoldable pub feed : List ℕ → Receiver → Receiver
unfolding receive
feed [] r = r
feed (c ∷ cs) r = feed cs (receive c r)
