-- ===== src/Geometry/Frame.antt =====
-- What `intersection` of SpeedFeed.cpp answers, and what it changes of the waypoint.
use speed_feed.Common.{◌↔◌, ◌≡◌, true, false, arith}
use speed_feed.Double.{Double, max_of, min_of}
use speed_feed.Waypoint.{Waypoint}
use speed_feed.Geometry.{Point, meeting_point, meets, intersection}

-- Two waypoints that agree but for the speed and the adjustment of their last crossing.
pub record SameGate {R : Type 0} (p q : Waypoint R) : Type 0 where
  pub same_x1 : p.x1 ≡ q.x1
  pub same_y1 : p.y1 ≡ q.y1
  pub same_x2 : p.x2 ≡ q.x2
  pub same_y2 : p.y2 ≡ q.y2
  pub same_split : p.split_best ≡ q.split_best
  pub same_lap : p.lap_best ≡ q.lap_best
  pub same_speed_best : p.speed_best ≡ q.speed_best
  pub same_last : p.last ≡ q.last

module _ (D : Double) where
  open D use {Real, literal, add, div, eq, le}

  -- What a reported crossing means: both positions are present, and the meeting point lies
  -- in the x-range of the track and in the y-range of the gate.
  pub record IsCrossing (p1 p2 : Point Real) (obj : Waypoint Real) : Type 0 where
    pub present1 : eq p1.x (literal 0) ≡ false
    pub present2 : eq p2.x (literal 0) ≡ false
    pub below_right : le (meeting_point D p1 p2 obj).0 (max_of D p1.x p2.x) ≡ true
    pub above_left : le (min_of D p1.x p2.x) (meeting_point D p1 p2 obj).0 ≡ true
    pub below_top : le (meeting_point D p1 p2 obj).1 (max_of D obj.y1 obj.y2) ≡ true
    pub above_bottom : le (min_of D obj.y1 obj.y2) (meeting_point D p1 p2 obj).1 ≡ true

  meets-IsCrossing :
      (p1 p2 : Point Real) (obj : Waypoint Real)
      → eq p1.x (literal 0) ≡ false
      → eq p2.x (literal 0) ≡ false
      → meets D p1 p2 obj ≡ true
      → IsCrossing p1 p2 obj
  unfolding meets
  meets-IsCrossing p1 p2 obj a b h = ground arith

  -- The answer of `intersection` is sound: it is true only for a crossing.
  intersection-IsCrossing :
      (p1 p2 : Point Real) (obj : Waypoint Real)
      → (intersection D p1 p2 obj).0 ≡ true
      → IsCrossing p1 p2 obj
  unfolding intersection
  intersection-IsCrossing p1 p2 obj h = ground (arith, meets-IsCrossing p1 p2 obj)

  -- It is complete: every crossing is reported.
  intersection_of_IsCrossing :
      (p1 p2 : Point Real) (obj : Waypoint Real)
      → IsCrossing p1 p2 obj
      → (intersection D p1 p2 obj).0 ≡ true
  unfolding intersection meets
  intersection_of_IsCrossing p1 p2 obj c = ground arith

  -- `intersection` answers true for the crossings and for nothing else.
  pub intersection_lem :
      (p1 p2 : Point Real) (obj : Waypoint Real)
      → ((intersection D p1 p2 obj).0 ≡ true) ↔ IsCrossing p1 p2 obj
  intersection_lem p1 p2 obj =
      (intersection-IsCrossing p1 p2 obj, intersection_of_IsCrossing p1 p2 obj)

  -- `intersection` keeps the ends of the gate, its best times and speed and its last crossing;
  -- with the answer false it keeps all of the waypoint.
  pub intersection-SameGate :
      (p1 p2 : Point Real) (obj : Waypoint Real)
      → SameGate (intersection D p1 p2 obj).1 obj
        × ((intersection D p1 p2 obj).0 ≡ false → (intersection D p1 p2 obj).1 ≡ obj)
  unfolding intersection
  intersection-SameGate p1 p2 obj = (ground arith, λ h. ground arith)
