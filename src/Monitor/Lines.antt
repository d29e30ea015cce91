-- ===== src/Monitor/Lines.antt =====
-- The lines on gates that the sketches and SpeedFeed.cpp print.
use speed_feed.Common.{ℕ, List, [], ◌∷◌, ◌++◌}
use speed_feed.Double.{Double}
use speed_feed.Waypoint.{Waypoint}
use speed_feed.Monitor.{codes, csv_line}

module _ (D : Double) where
  open D use {Real, show8}

  -- the ends of a gate
  abbrev pub corner_texts : Waypoint Real → List (List ℕ)
  corner_texts p = show8 p.x1 ∷ show8 p.y1 ∷ show8 p.x2 ∷ show8 p.y2 ∷ []

  -- "startfinish", or "waypoint", and the ends
  unfoldable pub gate_line : List ℕ → Waypoint Real → List ℕ
  gate_line name p = csv_line (name ∷ corner_texts p)

  unfoldable pub waypoint_lines : List (Waypoint Real) → List ℕ
  unfolding gate_line
  waypoint_lines [] = []
  waypoint_lines (p ∷ ps) = gate_line (codes "waypoint") p ++ waypoint_lines ps
