-- ===== src/Geometry.antt =====
-- Class Point and `intersection` of libraries/SpeedFeed/SpeedFeed.cpp: a position of the track
-- and the test whether the track between two positions crosses a gate.
pub mod Frame
use speed_feed.Common.{ℕ, Bool, true, false, ◌&&◌, ◌||◌, if◌then◌else◌}
use speed_feed.Platform.{World, millis, tick}
use speed_feed.Double.{Double, max_of, min_of}
use speed_feed.Waypoint.{Waypoint}

-- `t` is a `long`.
pub record Point (R : Type 0) : Type 0 where
  pub x : R
  pub y : R
  pub v : R
  pub t : ℕ

unfoldable pub new_point : {R : Type 0} (px py pv : R) → World → Point R × World
new_point px py pv w = (record { x = px; y = py; v = pv; t = millis w }, tick w)

module _ (D : Double) where
  open D use {Real, literal, add, sub, mul, div, sqrt, floor, le, eq, to_long, of_long}

  -- (px, py), where the line through the two positions meets the line of the gate
  unfoldable pub meeting_point : Point Real → Point Real → Waypoint Real → Real × Real
  meeting_point p1 p2 obj =
      let x1y2_y1x2 = sub (mul p1.x p2.y) (mul p1.y p2.x) in
      let x3_x4 = sub obj.x1 obj.x2 in
      let x1_x2 = sub p1.x p2.x in
      let y3_y4 = sub obj.y1 obj.y2 in
      let y1_y2 = sub p1.y p2.y in
      let x3y4_y3x4 = sub (mul obj.x1 obj.y2) (mul obj.y1 obj.x2) in
      let denom = sub (mul x1_x2 y3_y4) (mul y1_y2 x3_x4) in
      (
        div (sub (mul x1y2_y1x2 x3_x4) (mul x1_x2 x3y4_y3x4)) denom,
        div (sub (mul x1y2_y1x2 y3_y4) (mul y1_y2 x3y4_y3x4)) denom,
      )

  -- px within the x-range of the track, py within the y-range of the gate
  unfoldable pub meets : Point Real → Point Real → Waypoint Real → Bool
  meets p1 p2 obj =
      let (px, py) = meeting_point p1 p2 obj in
      (le px (max_of D p1.x p2.x) && le (min_of D p1.x p2.x) px)
      && (le py (max_of D obj.y1 obj.y2) && le (min_of D obj.y1 obj.y2) py)

  distance : (ax ay bx by : Real) → Real
  distance ax ay bx by = sqrt (add (mul (sub ax bx) (sub ax bx)) (mul (sub ay by) (sub ay by)))

  -- how long before p2 the gate was passed, as the share of the way from p1: not positive
  unfoldable pub crossing_adjustment : Point Real → Point Real → Waypoint Real → ℕ
  unfolding distance
  crossing_adjustment p1 p2 obj =
      let (px, py) = meeting_point p1 p2 obj in
      to_long (
        floor (
          div (mul (sub (of_long p1.t) (of_long p2.t)) (distance p2.x p2.y px py))
            (distance p2.x p2.y p1.x p1.y)))

  unfoldable pub intersection : Point Real → Point Real → Waypoint Real → Bool × Waypoint Real
  intersection p1 p2 obj =
      if eq p1.x (literal 0) || eq p2.x (literal 0)
      then (false, obj)
      else (if meets p1 p2 obj
          then (
            true,
            record obj {
              speed = div (add p1.v p2.v) (literal 2);
              adjustment = crossing_adjustment p1 p2 obj;
            },
          )
          else (false, obj))
