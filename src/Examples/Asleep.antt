-- ===== src/Examples/Asleep.antt =====
-- The standby mode of the GPS module at work.
use speed_feed.Common.{◌≡◌, refl, true, false, ◌++◌, length, ◌-◌}
use speed_feed.Receiver.{zeros}
use speed_feed.Tracker.State.{waiting}
use speed_feed.Standby.{Module, pmtk_awake, standby, wakeup}
use speed_feed.Standby.Wait.{wakeup-standby}
use speed_feed.Examples.Board.{world}
use speed_feed.Examples.Wire.{receiver}

-- The module tells that it is awake.
abbrev awake : Module
awake = record {
  in_standby_mode = false;
  receiver = record receiver {
    line2 = pmtk_awake ++ zeros (120 - length pmtk_awake);
    recvdflag = true;
  };
  world = world;
}

-- nothing announced
abbrev silent : Module
silent = record awake { receiver = receiver }

wakeup-standby_example :
    let (sent, m) = standby silent in
    (sent ≡ true) × (wakeup 100 m ≡ waiting) × ((standby m).0 ≡ false)
wakeup-standby_example = wakeup-standby 99 silent refl refl
