-- ===== src/Visualizer/Texts.antt =====
-- What GPS_tracker_2LEDs_Split prints of positions and splits leaves the gates in GPS_visualizer as
-- they are, whatever the numbers look like.
use speed_feed.Common.{ℕ, ◌-◌, refl, none, some, List, [], ◌∷◌, ◌++◌, length, get_elem?, Option}
use speed_feed.Double.{Double}
use speed_feed.Geometry.{Point}
use speed_feed.Waypoint.{Waypoint}
use speed_feed.Nmea.{Gps}
use speed_feed.Lights.{Lights}
use speed_feed.Monitor.{codes, line_end}
use speed_feed.TwoLeds.{
  two_leds_position, two_leds_tracks, two_leds_split, split_line, test_line, with_ends,
}
use speed_feed.Visualizer.{Java, Shown, by_name, on_track, on_split, take_ends, in_testline}
use speed_feed.Visualizer.Lines.{Plain, take_text-csv_line}
use speed_feed.Visualizer.Harmless.{
  IsHarmless, IsHarmless-append, IsHarmless-line, skipped-IsHarmless, on_track-Spares,
  on_test-Spares, on_split-Spares,
}

module _ (D : Double) (J : Java) where
  open D use {Real, show8, show_long}

  -- The texts of all numbers are fields of a line.
  pub record PlainTexts : Type 0 where
    pub real : (x : Real) → Plain (show8 x)
    pub long : (n : ℕ) → Plain (show_long n)

  module _ (P : PlainTexts) where
    pub position-IsHarmless :
        (gps : Gps Real) (v : Shown J) → IsHarmless J (two_leds_position D gps) v
    unfolding two_leds_position by_name
    position-IsHarmless gps v =
        let a = show8 gps.longitude in
        let b = show8 gps.latitude in
        IsHarmless-line J (two_leds_position D gps) v
          (on_track J (codes "track" ∷ a ∷ (b ++ line_end) ∷ []) v)
          (λ t.
            take_text-csv_line J (codes "track") a (b ∷ []) t v
              ((refl, refl), (P.real gps.longitude, (P.real gps.latitude, refl))))
          (on_track-Spares J (codes "track") a (b ++ line_end) v)

    test_line-IsHarmless : (p q : Point Real) (v : Shown J) → IsHarmless J (test_line D p q) v
    unfolding test_line by_name
    test_line-IsHarmless p q v =
        let fields =
          codes "test" ∷ show8 p.x ∷ show8 p.y ∷ show8 q.x ∷ (show8 q.y ++ line_end) ∷ [] in
        IsHarmless-line J (test_line D p q) v (take_ends J (in_testline J) 1 fields v)
          (λ t.
            take_text-csv_line J (codes "test") (show8 p.x) (show8 p.y ∷ show8 q.x ∷ show8 q.y ∷ [])
              t v ((refl, refl), (P.real p.x, (P.real p.y, (P.real q.x, (P.real q.y, refl))))))
          (on_test-Spares J (codes "test") (show8 p.x) (show8 p.y) (show8 q.x)
            (show8 q.y ++ line_end) v)

    split_line-IsHarmless :
        (g : Waypoint Real) (p q : Point Real) (v : Shown J) → IsHarmless J (split_line D g p q) v
    unfolding split_line by_name
    split_line-IsHarmless g p q v =
        let m = show_long g.lap_margin in
        let s = show_long g.lap_best in
        let fields =
          codes "split"
          ∷ m
          ∷ s
          ∷ show8 q.x
          ∷ show8 q.y
          ∷ show8 p.x
          ∷ (show8 p.y ++ line_end)
          ∷ [] in
        IsHarmless-line J (split_line D g p q) v (on_split J fields v)
          (λ t.
            take_text-csv_line J (codes "split") m
              (s ∷ show8 q.x ∷ show8 q.y ∷ show8 p.x ∷ show8 p.y ∷ []) t v
              (
                (refl, refl),
                (
                  P.long g.lap_margin,
                  (P.long g.lap_best, (P.real q.x, (P.real q.y, (P.real p.x, (P.real p.y, refl))))),
                ),
              ))
          (on_split-Spares J (codes "split") m s (show8 q.x) (show8 q.y) (show8 p.x)
            (show8 p.y ++ line_end) v)

    with_ends-IsHarmless :
        (line : Point Real → Point Real → List ℕ) (ps : List (Point Real)) (v : Shown J)
        → ((p q : Point Real) (u : Shown J) → IsHarmless J (line p q) u)
        → IsHarmless J (with_ends D line ps) v
    unfolding with_ends
    with_ends-IsHarmless line ps v h = both (get_elem? ps 0) (get_elem? ps (length ps - 1))
      where
        none_told : IsHarmless J [] v
        none_told = record { view = v; same = (refl, refl); taken = λ t. refl }

        both :
            (a b : Option (Point Real))
            → IsHarmless J
                (elim a [ none ↦ [] | some p ↦ elim b [ none ↦ [] | some q ↦ line p q ] ])
                v
        both none b = none_told
        both (some p) none = none_told
        both (some p) (some q) = h p q v

    pub tracks-IsHarmless :
        (ps : List (Point Real)) (v : Shown J) → IsHarmless J (two_leds_tracks D ps) v
    unfolding two_leds_tracks
    tracks-IsHarmless ps v = with_ends-IsHarmless (test_line D) ps v test_line-IsHarmless

    pub split-IsHarmless :
        (g : Waypoint Real) (ps : List (Point Real)) (l : Lights) (v : Shown J)
        → IsHarmless J (two_leds_split D g ps l) v
    unfolding two_leds_split
    split-IsHarmless g ps l v =
        IsHarmless-append J (show_long g.adjustment ++ line_end) (with_ends D (split_line D g) ps) v
          (skipped-IsHarmless J (show_long g.adjustment) v (P.long g.adjustment))
          (λ u. with_ends-IsHarmless (split_line D g) ps u (split_line-IsHarmless g))
