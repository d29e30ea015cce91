-- ===== src/Led/Run.antt =====
-- A run of the loop of a sketch as one LED sees it: one pass of `ledUpdate` after another.
use speed_feed.Common.{ℕ, List, [], ◌∷◌}
use speed_feed.Platform.{World}
use speed_feed.Led.{Led, update_led}

-- The values of `updateTime`, in the order of the passes. In a pass the clock is read again only
-- when a blinking LED changes sides, from the world that goes along.
unfoldable pub run_led : List ℕ → Led → World → Led × World
run_led [] l w = (l, w)
run_led (now ∷ times) l w = let (l', w') = update_led now l w in run_led times l' w'
