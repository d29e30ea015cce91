-- ===== src/Visualizer/Drawing.antt =====
-- What `draw` of GPS_visualizer shows of the positions.
use speed_feed.Common.{
  true, zero, ◌≤◌, ℕ, suc, ◌-◌, ◌≡◌, some, some-injective, List, [], ◌∷◌, arith, length, get_elem?,
}
use speed_feed.Visualizer.{draw_track, track_lines, Java, Shown, num_points, lines_of, take_text}
use speed_feed.Visualizer.Picture.{IsPicture, take_lines-IsPicture}

module _ (J : Java) where
  open J use {Float}

  track_lines-short :
      (x y : Float) (xs ys : List Float) (n : ℕ)
      → J.is_zero J.zero ≡ true
      → get_elem? xs n ≡ some J.zero
      → get_elem? ys n ≡ some J.zero
      → length (track_lines J x y xs ys) ≤ n
  unfolding track_lines
  track_lines-short x y [] ys n z h k = omega arith
  track_lines-short x y (x' ∷ xs) [] n z h k = omega arith
  track_lines-short x y (x' ∷ xs) (y' ∷ ys) zero z h k =
      rw (some-injective h, some-injective k, z) (omega arith)
  track_lines-short x y (x' ∷ xs) (y' ∷ ys) (suc n) z h k =
      ground (arith, track_lines-short x' y' xs ys n z h k)

  draw_track-short :
      (v : Shown J)
      → J.is_zero J.zero ≡ true
      → IsPicture J v
      → length (draw_track J v) ≤ num_points - 2
  unfolding draw_track
  draw_track-short v z p = lists v.xtrack v.ytrack p.last_x p.last_y
    where
      lists :
          (xs ys : List Float)
          → get_elem? xs (num_points - 1) ≡ some J.zero
          → get_elem? ys (num_points - 1) ≡ some J.zero
          → length (elim xs [
            | [] ↦ []
            | x ∷ xs' ↦ elim ys [ [] ↦ [] | y ∷ ys' ↦ track_lines J x y xs' ys' ]
          ])
            ≤ num_points - 2
      lists [] ys h k = cc
      lists (x ∷ xs) [] h k = cc
      lists (x ∷ xs) (y ∷ ys) h k = track_lines-short x y xs ys (num_points - 2) z h k

  -- Whatever text GPS_visualizer reads, lines with errors included, its arrays keep their length,
  -- and the last entry of the two arrays of the positions in the picture stays zero: the newest
  -- position is never put into the picture, and of the track at most fourteen lines are drawn.
  pub take_text-IsPicture :
      (text : List ℕ) (v v' : Shown J)
      → take_text J text v ≡ some v'
      → IsPicture J v
      → J.is_zero J.zero ≡ true
      → IsPicture J v' × (length (draw_track J v') ≤ num_points - 2)
  unfolding take_text
  take_text-IsPicture text v v' h p z =
      let p' = take_lines-IsPicture J (lines_of text).0 v v' h p in (p', draw_track-short v' z p')
