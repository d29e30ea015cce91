-- ===== src/Tracker/State.antt =====
-- The globals of GPS_tracker_Single_Split.ino, and how a pass of its loop can end.
use speed_feed.Common.{ℕ, Option, none, some, List, ◌≡◌, refl}
use speed_feed.Lights.{Lights}
use speed_feed.Waypoint.{Waypoint}
use speed_feed.Geometry.{Point}
use speed_feed.Receiver.{Receiver}
use speed_feed.Nmea.{Gps}

-- The values of `current_state` and `next_state`: ST_RESET, ST_INIT, ST_SFSET, ST_WPSET, ST_RACE.
pub data State : Type 0 where
  st_reset st_init st_sfset st_wpset st_race : State

-- `boot_flag`, `reset_flag`, `pb_timer` and `reset_timer` are the static variables of `loop`; the
-- two timers are `none` until the program first passes their declaration; `last_interrupt_time` is
-- that of `interruptPB`. `R` is the type of
-- doubles, `S` the state of the bus with the EEPROM.
pub record Tracker (R : Type 0) (S : Type 0) : Type 0 where
  pub waypoints : List (Waypoint R)
  pub lights : Lights
  pub tracks : List (Point R)
  pub gps : Gps R
  pub receiver : Receiver
  pub eeprom : S
  pub pb_flag : ℕ
  pub wp_next : ℕ
  pub wp_last : ℕ
  pub current_state : State
  pub next_state : State
  pub boot_flag : ℕ
  pub reset_flag : ℕ
  pub pb_timer : Option ℕ
  pub reset_timer : Option ℕ
  pub last_interrupt_time : ℕ

-- What the sketches with this loop differ in: what they do with the LEDs after a split, from the
-- waypoint that was crossed (`signal`), when the start line is crossed (`start_signal`) and when
-- the track is closed (`close_signal`); the speed of a new position; and what they print: for a new
-- gate, from how many there are then (`gate_text`), for a sentence that was parsed, for a position
-- (`position_text`), for the positions kept (`tracks_text`), and for a split, from the waypoint,
-- the positions and the LEDs before the signal (`split_text`). An empty text stands for no call. `memory i` is what stood
-- where the waypoint with index i is built.
pub record Kit (R : Type 0) : Type 0 where
  pub memory : ℕ → Waypoint R
  pub signal : Waypoint R → Lights → Lights
  pub start_signal : Lights → Lights
  pub close_signal : Lights → Lights
  pub point_speed : Gps R → R
  pub gate_text : ℕ → Waypoint R → List ℕ
  pub sentence_text : List ℕ → List ℕ
  pub position_text : Gps R → List ℕ
  pub tracks_text : List (Point R) → List ℕ
  pub split_text : Waypoint R → List (Point R) → Lights → List ℕ

abbrev pub disk1 : ℕ
disk1 = 0x50

abbrev pub max_tracksize : ℕ
max_tracksize = 4

-- `fault` is undefined behaviour, such as `myWaypoints[0]` of an empty vector; `waiting` is a
-- pass that is still in the loop which waits for the button to be let go.
pub data Run {ℓ} (A : Type ℓ) : Type ℓ where
  done : A → Run A
  fault : Run A
  waiting : Run A

infixl 5 ◌>>=◌
abbrev pub ◌>>=◌ {ℓ κ} : {A : Type ℓ} {B : Type κ} → Run A → (A → Run B) → Run B
done a >>= f = f a
fault >>= f = fault
waiting >>= f = waiting

-- a step of the libraries, with its faults
abbrev pub lift {ℓ} : {A : Type ℓ} → Option A → Run A
lift none = fault
lift (some a) = done a

-- Inversion of a chain that is done.
pub >>=-eq-done {ℓ κ} :
    {A : Type ℓ} {B : Type κ} (m : Run A) (f : A → Run B) {b : B}
    → (m >>= f) ≡ done b
    → (a : A) × (m ≡ done a) × (f a ≡ done b)
>>=-eq-done (done a) f h = (a, refl, h)
>>=-eq-done fault f h = cc
>>=-eq-done waiting f h = cc

pub lift-eq-done {ℓ} : {A : Type ℓ} (o : Option A) {a : A} → lift o ≡ done a → o ≡ some a
lift-eq-done none h = cc
lift-eq-done (some b) h = cc

pub done-injective {ℓ} : {A : Type ℓ} {a b : A} → ◌≡◌ {A = Run A} (done a) (done b) → a ≡ b
done-injective h = cc
