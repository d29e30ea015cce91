-- ===== src/Lib.antt =====
-- SpeedFeed is a lap timer for a car: an Arduino Due reads a GPS module, finds out when the car
-- crosses gates on a track, and shows on two LEDs of two colours how the last split compares with
-- the best one. The program has these parts.
--
-- The LEDs (Led, with Led/): class LED and ledUpdate of libraries/SpeedFeed/SpeedFeed.cpp.
-- LED::set is set_led, LED::blinkContinuous is blink_continuous, LED::setPins is drive and
-- set_pins, and the constructor is new_led; the loop body of ledUpdate is update_led, in the
-- pieces expire, toggle, alternate and settle. The optional arguments are written out as 0. Lights
-- are the two LEDs of a sketch beside the world that their pins are in.
--
-- The gates (Waypoint, Geometry): classes Waypoint and Point, reset, checkSplit (check_split) and
-- intersection of the same file. An object that the source changes through a reference is
-- returned.
--
-- The stored track (Eeprom, with Eeprom/): libraries/EEPROMAnything and storeWaypoints and
-- loadWaypoints of SpeedFeed.cpp. The Wire library and the chip are the record Bus; IsEeprom says
-- what is used of them. sendWaypoints is in Tracker/Startup.
--
-- The GPS module (Receiver, Sentence, Nmea): libraries/SPK_GPS/SPK_GPS.cpp. read is receive for a
-- character that has come; lastNMEA is last_nmea; parse is parse, over the text of the sentence,
-- with parseHex and the checksum in Sentence; standby, wakeup, sendCommand and waitForSentence are
-- in Standby. Pointers into a sentence are the rest of its text.
--
-- The sketch GPS_tracker_Single_Split/GPS_tracker_Single_Split.ino (Tracker, with Tracker/): its
-- globals and the static variables of loop are the record Tracker; setup is in Setup, the
-- interrupt of the button in Button, and a pass of loop is pass in Loop. The first switch is
-- by_state, with its cases reset_case (Startup), wpset_case (Setting) and race_button (Racing);
-- the second one, on a fix, is by_fix, with init_case, close_track and race_case.
--
-- The sketch GPS_tracker_Single_Speed/GPS_tracker_Single_Speed.ino (Speed) has the same loop with
-- another signal after a split. The two are the same definitions at two values of the record Kit:
-- pass at split_kit, and speed_pass, which is pass at speed_kit, whose signal is speed_signal.
--
-- The sketch GPS_tracker_2LEDs_Split/GPS_tracker_2LEDs_Split.ino (TwoLeds) has the same loop
-- again, with an LED each for the split and the lap: two_leds_pass is pass at two_leds_kit. It
-- builds a position by a constructor Point(x, y) that SpeedFeed.h does not declare; the speed that
-- such a position has is the parameter no_speed. GPS_tracker_FULL_DEBUG/GPS_tracker_FULL_DEBUG.ino
-- (FullDebug) has the text of that sketch under another name.
--
-- The sketch GPS_logger/GPS_logger.ino (Logger) writes the accepted sentences to a file: log_setup
-- in Logger/Setup is setup, log_pass in Logger/Loop a pass of loop. The SD library is the record
-- Card; HasNames says that a question for a name changes no directory, and TakesAll that a card
-- with room takes each byte that it is given, and that the file is safe from a loss of power up to
-- where it was last flushed.
--
-- The serial monitor (Monitor, Monitor/Lines): a call of Serial.print puts a text into the log of
-- the world, and monitor is all that was sent so far. What sketches with the same loop print
-- differently is in fields of Kit: after a new gate, a sentence, a position and a split.
--
-- The program GPS_visualizer/GPS_visualizer.pde (Visualizer, with Visualizer/) reads that text:
-- the arrays that it draws are the record View, serialEvent is serial_event, a run over a text is
-- take_text, and draw gives the lines of a picture. Taken keeps the exception that serialEvent
-- catches apart from the one that it does not. Processing and the Java library are the record
-- Java. Of the texts of numbers a theorem says what it uses by name: Reads, GateReads, LongReads
-- and PointReads say that the text which Print makes of a number is a field of a line and that
-- Float.parseFloat reads a value from it. Tells is a statement on a piece of a sketch: which text
-- it prints, and what this does to the view. For whole runs PlainTexts says that the texts of
-- numbers are fields of a line, and TrackReads and SwitchReads that a value is read from the texts
-- of the gates of the run; Hears is a run in which each text that a pass takes up is one line from
-- a dollar sign on, since the visualizer would take up a text that looks like one of its own
-- lines; and Follows says of a piece of a run that it keeps the gates in the view those of the
-- sketch.
--
-- Abstract views. Receiver/Plain has the plain lines that the two line buffers of SPK_GPS stand
-- for; Tracker/Laps forgets of each gate all but its times, and has what the loop does to these,
-- react for the second switch; Tracker/Graph has the graph of the states of the sketches,
-- Tracker/Stored what a run does to the EEPROM.
--
-- How the parts meet: a pass hands one character of the serial port to the receiver, does what the
-- state asks for, gives a whole sentence to parse, and on a fix appends a position and tests it
-- with intersection against a gate; a crossing goes to check_split, its margin to the LEDs (the
-- signal of the sketch, feedback in GPS_tracker_Single_Split), and a finished track to the EEPROM.
-- At the end ledUpdate runs. What is printed meanwhile is the input of GPS_visualizer.
--
-- Numbers. int, long and unsigned long are 32 bits wide on the Due; each is the pattern of its
-- bits, a native number below 2 ^ 32, with the wrap-around written out (Common/Word). Doubles are
-- abstract: the record Double names the operations that the sources call, and no law of them is
-- assumed but, for the stored track, that a double is eight bytes that can be read back
-- (IsLayout). The texts of numbers, show8, show_long and show_hex, are of the Arduino core and
-- belong to that record. The clock and the button are streams of readings, about which nothing is
-- assumed.
--
-- Faults. Option and Run keep what C leaves undefined apart: a step through a NULL pointer, a read
-- before the start of a text, an entry of an empty vector. The result none of the checksum test
-- also stands for its loop that never ends, in which an 8-bit counter runs against the length of a
-- long text. A write past the end of a line buffer is kept and shows as a list that is longer than
-- its array. Two loops have no bound of their own, the wait for the button at boot and
-- waitForSentence; they are followed for a number of rounds, patience, which is a parameter, and a
-- run that is still in the loop then is waiting. Any patience beyond the read that finds the
-- button up is enough for the one, and one round for the other. Every other loop is structural
-- recursion on the vector, the text or the bytes that it goes through.
--
-- Not modelled: delays; an interrupt in the middle of a pass (take_interrupt is taken between
-- two); begin of SPK_GPS, which only sets the speed of the port; the colours, the window and the
-- console of GPS_visualizer; and the copies of other libraries under libraries/, which are other
-- projects.
--
-- Examples holds concrete values of the parameters, a whole-number arithmetic and a memory chip
-- among them, and runs the theorems on them.
pub mod Common
pub mod Platform
pub mod Monitor
pub mod Double
pub mod Led
pub mod Waypoint
pub mod Geometry
pub mod Eeprom
pub mod Receiver
pub mod Sentence
pub mod Nmea
pub mod Lights
pub mod Tracker
pub mod Speed
pub mod TwoLeds
pub mod FullDebug
pub mod Logger
pub mod Standby
pub mod Visualizer
pub mod Examples
