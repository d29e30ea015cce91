-- ===== src/Tracker/Setup/Start.antt =====
-- What GPS_tracker_Single_Split.ino starts from, and all of its runs.
use speed_feed.Led.Silent.{new_led-IsSilent}
use speed_feed.Monitor.{monitor}
use speed_feed.Lights.Silent.{AreColoured}
use speed_feed.Common.{◌∙◌, ◌≡◌, ◌≢◌, refl, true, [], ◌∷◌, arith}
use speed_feed.Platform.{pin_mode, emit, World}
use speed_feed.Double.{Double}
use speed_feed.Led.{off, Led, new_led, set_led, drive}
use speed_feed.Led.Board.{BoardShows}
use speed_feed.Led.Blink.{IsDark}
use speed_feed.Eeprom.{Bus}
use speed_feed.Receiver.{init_receiver}
use speed_feed.Receiver.Bounds.{IsInBounds}
use speed_feed.Tracker.State.{Kit, State, st_reset, st_sfset}
use speed_feed.Tracker.Startup.{Sketch}
use speed_feed.Tracker.Valid.Pass.{IsSettled}
use speed_feed.Tracker.Graph.Runs.{Passes, may_reach, Passes-IsSettled}
use speed_feed.Tracker.Setup.{
  pin_splt_grn, pin_splt_red, pin_lap_grn, pin_lap_red, send_commands, pin_pb, set_up_board, setup,
}

init_receiver-IsInBounds : IsInBounds init_receiver
unfolding init_receiver
init_receiver-IsInBounds = record { size1 = refl; size2 = refl; index = omega arith }

-- After `setup` both LEDs are dark and stay so, and the four pins, which are all different,
-- are driven accordingly, whatever memory and board it finds.
pub set_up_board-BoardShows :
    (blank : Led) (w : World)
    → let l = set_up_board blank w in
      BoardShows (l.lap ∷ l.splt ∷ []) l.world × IsDark l.lap × IsDark l.splt
unfolding set_up_board new_led set_led drive
set_up_board-BoardShows blank w = (ground arith, ground arith, ground arith)

-- Nothing is printed meanwhile, and the colours are valid.
pub set_up_board-silent :
    (blank : Led) (w : World)
    → AreColoured (set_up_board blank w) × (monitor (set_up_board blank w).world ≡ monitor w)
unfolding set_up_board send_commands
set_up_board-silent blank w =
    let w' = emit (pin_mode pin_pb) (send_commands w) in
    let a = new_led-IsSilent blank pin_lap_red pin_lap_grn off w' (omega arith) in
    let w1 = (new_led blank pin_lap_red pin_lap_grn off w').1 in
    let b = new_led-IsSilent blank pin_splt_red pin_splt_grn off w1 (omega arith) in
    ((a.coloured, b.coloured), b.monitor_same ∙ a.monitor_same)

module _ (D : Double) (B : Bus) (kit : Kit D.Real) where
  pub setup-IsSettled :
      (blank : Led) (w : World) (eeprom : B.State)
      → IsSettled D B kit (setup D B kit blank w eeprom)
  unfolding setup
  setup-IsSettled blank w eeprom = record {
    valid = record {
      nonempty = λ h. ground arith;
      next_in = omega arith;
      last_in = omega arith;
      short = omega arith;
      bounds = init_receiver-IsInBounds;
    };
    agree = refl;
  }

  not_sfset : (s : State) → may_reach st_reset s ≡ true → s ≢ st_sfset
  not_sfset s h e = ground arith

  -- The invariant holds after `setup` and after any number of passes from there that come to
  -- their end, with interrupts between them, and the state is then never ST_SFSET.
  pub setup-Passes :
      (blank : Led) (w : World) (eeprom : B.State) (t : Sketch D B kit)
      → Passes D B kit (setup D B kit blank w eeprom) t
      → IsSettled D B kit t × (t.current_state ≢ st_sfset)
  unfolding setup
  setup-Passes blank w eeprom t run =
      let (settled, reached) =
        Passes-IsSettled D B kit (setup D B kit blank w eeprom) t run
          (setup-IsSettled blank w eeprom) in
      (settled, not_sfset t.current_state reached)
