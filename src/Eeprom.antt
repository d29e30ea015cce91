-- ===== src/Eeprom.antt =====
-- libraries/EEPROMAnything (writeEEPROM, readEEPROM and the two templates) and the functions of
-- libraries/SpeedFeed/SpeedFeed.cpp that keep the waypoints in the EEPROM. The Wire library and
-- the chip are not modelled: they are the parameter `Bus`.
pub mod Cells
pub mod Gates
pub mod RoundTrip
pub mod Reads
use speed_feed.Common.{
  get_elem?, ℕ, zero, suc, ◌+◌, ◌*◌, ◌/◌, ◌%◌, ◌^◌, ◌<◌, ◌≡◌, Bool, Option, none, some, List, [],
  ◌∷◌, ◌++◌, map, length, ◌==◌, if◌then◌else◌,
}
use speed_feed.Platform.{World, emit}
use speed_feed.Double.{Double}
use speed_feed.Waypoint.{Waypoint, new_waypoint}
use speed_feed.Monitor.{joined, line_end, print_text}
use speed_feed.Monitor.Lines.{corner_texts}

-- `send d bs` is beginTransmission(d), a write of each byte, and endTransmission; `request d` is
-- requestFrom(d, 1) followed by available() and read(): `none` if no byte came.
pub record Bus : Type 1 where
  pub State : Type 0
  pub send : ℕ → List ℕ → State → State
  pub request : ℕ → State → Option ℕ × State

module _ (B : Bus) where
  open B use {State, send, request}

  -- `(int)(eeaddress >> 8)` is written as one byte.
  unfoldable pub write_eeprom : (device address data_byte : ℕ) → State → State
  write_eeprom device address data_byte =
      send device (address / 256 % 256 ∷ address % 256 ∷ data_byte ∷ [])

  unfoldable pub read_eeprom : (device address : ℕ) → State → ℕ × State
  read_eeprom device address s =
      let (reply, s') = request device (send device (address / 256 % 256 ∷ address % 256 ∷ []) s) in
      (elim reply [ none ↦ 255 | some b ↦ b ], s')

  -- The value comes as the list of the bytes of its object; the result of the template, the
  -- number of bytes, is used by no caller.
  unfoldable pub write_anything : (device address : ℕ) → List ℕ → State → State
  unfolding write_eeprom
  write_anything device address [] s = s
  write_anything device address (b ∷ bs) s =
      write_anything device (address + 1) bs (write_eeprom device address b s)

  -- `size` is the size of the object that is filled.
  unfoldable pub read_anything : (device address size : ℕ) → State → List ℕ × State
  unfolding read_eeprom
  read_anything device address zero s = ([], s)
  read_anything device address (suc n) s =
      let (b, s') = read_eeprom device address s in
      let (bs, s'') = read_anything device (address + 1) n s' in (b ∷ bs, s'')

-- the object of an `int` or a `size_t` on the Due: four bytes, the lowest first
abbrev pub word_bytes : ℕ → List ℕ
word_bytes n = n % 256 ∷ n / 256 % 256 ∷ n / 65536 % 256 ∷ n / 16777216 % 256 ∷ []

abbrev pub marker : ℕ
marker = 0x24

-- an object of one byte
abbrev pub byte_of : List ℕ → ℕ
byte_of [] = 255
byte_of (b ∷ bs) = b

module _ (D : Double) (B : Bus) where
  open D use {Real, literal, bytes, of_bytes, show_hex}
  open B use {State}

  unfoldable pub store_each : (device address : ℕ) → List (Waypoint Real) → State → State
  unfolding write_anything
  store_each device address [] s = s
  store_each device address (p ∷ ps) s = store_each device (address + 8 + 8 + 8 + 8) ps (
      write_anything B device (address + 8 + 8 + 8) (bytes p.y2) (
        write_anything B device (address + 8 + 8) (bytes p.x2) (
          write_anything B device (address + 8) (bytes p.y1)
            (write_anything B device address (bytes p.x1) s))))

  -- Both headers are written as four bytes, one address apart.
  unfoldable pub store_waypoints : (device address : ℕ) → List (Waypoint Real) → State → State
  unfolding store_each
  store_waypoints device address ps s = store_each device (address + 1 + 1) ps (
      write_anything B device (address + 1) (word_bytes (length ps))
        (write_anything B device address (word_bytes marker) s))

  -- `EEPROM_readAnything` into a double
  unfoldable pub read_double : (device address : ℕ) → State → Real × State
  read_double device address s =
      let (bs, s') = read_anything B device address 8 s in (of_bytes bs, s')

  -- The four reads of one round of the loop.
  unfoldable pub load_gate : (device address : ℕ) → Waypoint Real → State → Waypoint Real × State
  unfolding read_double
  load_gate device address p s0 =
      let (a, s1) = read_double device address s0 in
      let (b, s2) = read_double device (address + 8) s1 in
      let (c, s3) = read_double device (address + 8 + 8) s2 in
      let (d, s4) = read_double device (address + 8 + 8 + 8) s3 in
      (record p { x1 = a; y1 = b; x2 = c; y2 = d }, s4)

  -- `myWaypoints[i]` as the object that `f` fills; nothing happens past the end.
  unfoldable pub at_index :
      ℕ
      → (Waypoint Real → State → Waypoint Real × State)
      → List (Waypoint Real)
      → State
      → List (Waypoint Real) × State
  at_index i f [] s = ([], s)
  at_index zero f (p ∷ ps) s = let (p', s') = f p s in (p' ∷ ps, s')
  at_index (suc i) f (p ∷ ps) s = let (ps', s') = at_index i f ps s in (p ∷ ps', s')

  -- The coordinates of `myWaypoints[i]` on the monitor, with a space between them.
  unfoldable pub echo_gate : ℕ → List (Waypoint Real) → World → World
  echo_gate i ps w = elim (get_elem? ps i) [
    | none ↦ w
    | some p ↦ print_text (joined (b' ' ∷ []) (corner_texts D p) ++ line_end) w
  ]

  abbrev pub echo_marker : List ℕ → World → World
  echo_marker c = print_text (show_hex (byte_of c) ++ line_end)

  -- `n` rounds are left, `i` is the index. `memory i` is what stood where the i-th waypoint is
  -- built.
  unfoldable pub load_each :
      (ℕ → Waypoint Real)
      → (n i device address : ℕ) → List (Waypoint Real)
      → World
      → State
      → List (Waypoint Real) × World × State
  unfolding load_gate at_index echo_gate
  load_each memory zero i device address ps w s = (ps, w, s)
  load_each memory (suc n) i device address ps w s =
      let o = literal 0 in
      let (p, w') = new_waypoint D (memory i) o o o o o w in
      let (ps', s') = at_index i (load_gate device address) (ps ++ (p ∷ [])) s in
      load_each memory n (i + 1) device (address + 8 + 8 + 8 + 8) ps' (echo_gate i ps' w') s'

  -- The first byte is echoed on the monitor.
  unfoldable pub load_waypoints :
      (ℕ → Waypoint Real)
      → (device address : ℕ) → List (Waypoint Real)
      → World
      → State
      → List (Waypoint Real) × World × State
  unfolding load_each
  load_waypoints memory device address ps w s =
      let (c, s') = read_anything B device address 1 s in
      let w' = echo_marker c w in
      let (n, s'') = read_anything B device (address + 1) 1 s' in
      if byte_of c == marker
      then load_each memory (byte_of n) 0 device (address + 1 + 1) ps w' s''
      else (ps, w', s')
