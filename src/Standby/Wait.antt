-- ===== src/Standby/Wait.antt =====
-- When `waitForSentence` and `wakeup` of SPK_GPS.cpp return.
use speed_feed.Common.{
  ℕ, zero, suc, ◌<◌, ◌≡◌, refl, Bool, true, false, List, arith, if◌then◌else◌, take,
}
use speed_feed.Receiver.{last_nmea}
use speed_feed.Sentence.{holds}
use speed_feed.Tracker.State.{done, waiting}
use speed_feed.Standby.{
  Module, pmtk_awake, empty_line, max_wait_sentence, send_command, wait_from, wait_for_sentence,
  standby, wakeup,
}

-- whether a sentence that has the word among its first 19 characters is announced
abbrev pub has_come : List ℕ → Module → Bool
has_come word m =
    if m.receiver.recvdflag then holds word (take 19 (last_nmea m.receiver).0) else false

-- With no sentence announced the loop goes round for ever.
wait_from-waiting :
    (n : ℕ) (word : List ℕ) (max i : ℕ) (m : Module)
    → i < max
    → m.receiver.recvdflag ≡ false
    → wait_from n word max i m ≡ waiting
unfolding wait_from
wait_from-waiting zero word max i m h f = refl
wait_from-waiting (suc n) word max i m h f = ground (arith, wait_from-waiting n word max i m h f)

-- A wait for at least two sentences returns only if the sentence that is announced already
-- has the word, and at once: nothing in the loop reads another one. If it has not, or none is
-- announced, no patience is enough.
pub wait_for_sentence_lem :
    (n : ℕ) (word : List ℕ) (max : ℕ) (m : Module)
    → 1 < max
    → wait_for_sentence (suc n) word max m ≡ (
        if has_come word m
        then done (true, record m { receiver = (last_nmea m.receiver).1 })
        else waiting)
unfolding wait_for_sentence wait_from last_nmea
wait_for_sentence_lem n word max m h = ground (
  arith,
  wait_from-waiting n word max 0 m,
  wait_from-waiting n word max 1 (record m { receiver = (last_nmea m.receiver).1 }),
)

-- After `standby`, with any sentence announced that does not tell of the waking, or none,
-- `wakeup` has sent its line and then never returns.
pub wakeup-standby :
    (n : ℕ) (m : Module)
    → m.in_standby_mode ≡ false
    → has_come pmtk_awake m ≡ false
    → let (sent, m') = standby m in
      (sent ≡ true) × (wakeup (suc n) m' ≡ waiting) × ((standby m').0 ≡ false)
unfolding standby wakeup send_command
wakeup-standby n m h c =
    let m' = send_command empty_line (record (standby m).1 { in_standby_mode = false }) in
    ground (arith, wait_for_sentence_lem n pmtk_awake max_wait_sentence m' (omega arith))
