-- ===== src/Standby.antt =====
-- The standby mode of the GPS module in libraries/SPK_GPS/SPK_GPS.cpp: `sendCommand`,
-- `waitForSentence`, `standby` and `wakeup`.
pub mod Wait
use speed_feed.Common.{
  ℕ, zero, suc, ◌+◌, ◌%◌, Bool, true, false, List, [], ◌∷◌, ltb, if◌then◌else◌, take,
}
use speed_feed.Platform.{World, command, emit}
use speed_feed.Receiver.{Receiver, last_nmea}
use speed_feed.Sentence.{holds}
use speed_feed.Tracker.State.{Run, done, waiting, ◌>>=◌}

-- The global `inStandbyMode`, the receiver, and the world that commands go to.
pub record Module : Type 0 where
  pub in_standby_mode : Bool
  pub receiver : Receiver
  pub world : World

-- PMTK_STANDBY, and the empty line that wakes the module, as commands
abbrev pub pmtk_standby : ℕ
pmtk_standby = 7

abbrev pub empty_line : ℕ
empty_line = 8

-- "$PMTK010,002*2D"
abbrev pub pmtk_awake : List ℕ
pmtk_awake =
    b'$' ∷ b'P' ∷ b'M' ∷ b'T' ∷ b'K' ∷ b'0' ∷ b'1' ∷ b'0' ∷ b',' ∷ b'0' ∷ b'0' ∷ b'2' ∷ b'*' ∷ b'2'
    ∷ b'D' ∷ []

abbrev pub max_wait_sentence : ℕ
max_wait_sentence = 5

unfoldable pub send_command : ℕ → Module → Module
send_command k m = record m { world = emit (command k) m.world }

-- The loop of `waitForSentence`, followed for a number of rounds; `i` counts the sentences. `str`
-- is the first 19 characters of one. Nothing in the loop reads from the port.
unfoldable pub wait_from : ℕ → (word : List ℕ) → (max i : ℕ) → Module → Run (Bool × Module)
wait_from zero word max i m = waiting
wait_from (suc n) word max i m =
    let (nmea, receiver) = last_nmea m.receiver in
    let m' = record m { receiver = receiver } in
    let rest = wait_from n word max ((i + 1) % 256) m' in
    let again = wait_from n word max i m in
    if ltb i max
    then (if m.receiver.recvdflag
        then (if holds word (take 19 nmea) then done (true, m') else rest)
        else again)
    else done (false, m)

unfoldable pub wait_for_sentence : ℕ → (word : List ℕ) → (max : ℕ) → Module → Run (Bool × Module)
unfolding wait_from
wait_for_sentence patience word max m = wait_from patience word max 0 m

unfoldable pub standby : Module → Bool × Module
unfolding send_command
standby m =
    if m.in_standby_mode
    then (false, m)
    else (true, send_command pmtk_standby (record m { in_standby_mode = true }))

unfoldable pub wakeup : ℕ → Module → Run (Bool × Module)
unfolding send_command wait_for_sentence
wakeup patience m =
    if m.in_standby_mode
    then wait_for_sentence patience pmtk_awake max_wait_sentence
        (send_command empty_line (record m { in_standby_mode = false }))
    else done (false, m)
