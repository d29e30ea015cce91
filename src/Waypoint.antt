-- ===== src/Waypoint.antt =====
-- Class Waypoint of libraries/SpeedFeed/SpeedFeed.cpp: a gate on the track with the best split,
-- lap and speed seen at it, and the margins of the last crossing. Times are `long`, kept as
-- 32-bit patterns; positions and speeds are doubles.
pub mod Best
use speed_feed.Common.{ℕ, List, [], ◌∷◌, ◌==◌, if◌then◌else◌, add32, sub32, slt32}
use speed_feed.Platform.{World, millis, tick}
use speed_feed.Double.{Double}

pub record Waypoint (R : Type 0) : Type 0 where
  pub x1 : R
  pub y1 : R
  pub x2 : R
  pub y2 : R
  pub split_best : ℕ
  pub split_margin : ℕ
  pub last : ℕ
  pub lap_best : ℕ
  pub lap_margin : ℕ
  pub speed : R
  pub speed_best : R
  pub speed_margin : R
  pub adjustment : ℕ

module _ (D : Double) where
  open D use {Real, literal, add, sub, mul, div, neg, sqrt, floor, lt}

  -- rounding down to hundredths
  hundredths : Real → Real
  hundredths a = div (floor (mul a (literal 100))) (literal 100)

  -- The line through (px2, py2) at a right angle to the track from (px1, py1) has slope `m` and
  -- intercept `b`; the ends of the gate are its points at distance `d` from (px2, py2).
  -- `memory` is the object before its constructor runs: `lap_best` keeps what stood there.
  unfoldable pub new_waypoint :
      Waypoint Real → (px1 py1 px2 py2 d : Real) → World → Waypoint Real × World
  unfolding hundredths
  new_waypoint memory px1 py1 px2 py2 d w =
      let m = div (sub px1 px2) (sub py2 py1) in
      let b = sub py2 (mul m px2) in
      let qa = add (literal 1) (mul m m) in
      let qb =
        sub (sub (mul (mul (literal 2) b) m) (mul (literal 2) px2)) (mul (mul (literal 2) m) py2) in
      let qc =
        sub (add (sub (add (mul px2 px2) (mul b b)) (mul (mul (literal 2) b) py2)) (mul py2 py2))
          (mul d d) in
      let det = sqrt (sub (mul qb qb) (mul (mul (literal 4) qa) qc)) in
      let x1 = div (add (neg qb) det) (mul (literal 2) qa) in
      let x2 = div (sub (neg qb) det) (mul (literal 2) qa) in
      let y1 = add (mul m x1) b in
      let y2 = add (mul m x2) b in
      (
        record memory {
          x1 = hundredths x1;
          y1 = hundredths y1;
          x2 = hundredths x2;
          y2 = hundredths y2;
          split_margin = 0;
          split_best = 0;
          lap_margin = 0;
          adjustment = 0;
          speed = literal 0;
          speed_best = literal 0;
          speed_margin = literal 0;
          last = millis w;
        },
        tick w,
      )

  -- The body of the loop of `reset`.
  unfoldable pub reset_waypoint : Waypoint Real → Waypoint Real
  reset_waypoint p = record p {
    speed_margin = literal 0;
    speed_best = literal 0;
    split_margin = 0;
    split_best = 0;
    lap_margin = 0;
    lap_best = 0;
    last = 0;
  }

  unfoldable pub reset : List (Waypoint Real) → List (Waypoint Real)
  unfolding reset_waypoint
  reset [] = []
  reset (p ∷ ps) = reset_waypoint p ∷ reset ps

  -- `if (split_best == 0) { split_best = split; lap_best = lap; }`
  first_best : ℕ → ℕ → Waypoint Real → Waypoint Real
  first_best split lap p =
      if p.split_best == 0 then record p { split_best = split; lap_best = lap } else p

  take_margins : ℕ → ℕ → Real → Waypoint Real → Waypoint Real
  take_margins split lap speed p = record p {
    split_margin = sub32 split p.split_best;
    lap_margin = sub32 lap p.lap_best;
    speed_margin = sub speed p.speed_best;
  }

  take_best : ℕ → ℕ → Real → Waypoint Real → Waypoint Real
  take_best split lap speed p = record p {
    split_best = if slt32 split p.split_best then split else p.split_best;
    lap_best = if slt32 lap p.lap_best then lap else p.lap_best;
    speed_best = if lt p.speed_best speed then speed else p.speed_best;
  }

  -- `obj` is passed by value: it is the waypoint before this one.
  unfoldable pub check_split :
      Waypoint Real → (obj : Waypoint Real) → (lap_start : ℕ) → World → Waypoint Real × World
  unfolding first_best take_margins take_best
  check_split p obj lap_start w =
      let now = add32 (millis w) obj.adjustment in
      let split = sub32 now obj.last in
      let lap = sub32 now lap_start in
      (
        take_best split lap obj.speed
            (take_margins split lap obj.speed (first_best split lap (record p { last = now }))),
        tick w,
      )
