-- ===== src/Visualizer/Positions.antt =====
-- A new position of GPS_tracker_2LEDs_Split on the monitor (`loop`), and in GPS_visualizer.
use speed_feed.Tracker.State.{max_tracksize, Kit}
use mathlib.Core.List.{append_assoc}
use speed_feed.Common.{
  length-append, if◌then◌else◌, leb, ℕ, ◌-◌, ◌≡◌, refl, ap, ◌∙◌, some, List, [], ◌∷◌, ◌++◌, arith,
  length, get_elem?, drop, map,
}
use speed_feed.Double.{Double}
use speed_feed.Geometry.{Point, new_point}
use speed_feed.Eeprom.{Bus}
use speed_feed.Waypoint.{Waypoint}
use speed_feed.Nmea.{Gps}
use speed_feed.Platform.{millis}
use speed_feed.Monitor.{monitor, codes}
use speed_feed.Tracker.Loop.{drop_first, push_track}
use speed_feed.TwoLeds.{two_leds_kit, two_leds_position, two_leds_tracks, test_line, TwoLedsSketch}
use speed_feed.Visualizer.{
  Java, Corners, Shown, fine, take_text, by_name, on_track, take_ends, with_number, to_x, to_y,
  num_points,
}
use speed_feed.Visualizer.Arrays.{update-newest, map_but_last-newest}
use speed_feed.Visualizer.Lines.{take_text-csv_line, and_then, with_end}
use speed_feed.Visualizer.Gates.{Reads, in_picture}
use speed_feed.Visualizer.Splits.{PointReads, with_ends-line}
use speed_feed.Visualizer.Picture.{IsPicture}
use speed_feed.Visualizer.Telling.{Tells}

module _ (D : Double) (J : Java) where
  open D use {Real, show8}
  open J use {Float}

  -- The view with a new position: the oldest one goes, and those before the new one are in the
  -- picture.
  abbrev pub with_position : (x y : Float) → Shown J → Shown J
  with_position x y v = record v {
    xtrack_raw = drop 1 (v.xtrack_raw ++ (x ∷ []));
    ytrack_raw = drop 1 (v.ytrack_raw ++ (y ∷ []));
    xtrack = map (to_x J) (drop 1 v.xtrack_raw) ++ (J.zero ∷ []);
    ytrack = map (to_y J) (drop 1 v.ytrack_raw) ++ (J.zero ∷ []);
  }

  by_name-track :
      (gps : Gps Real) (x y : Float) (v : Shown J)
      → Reads D J gps.longitude x
      → Reads D J gps.latitude y
      → IsPicture J v
      → by_name J
          (codes "track")
          (codes "track" ∷ with_end (show8 gps.longitude ∷ show8 gps.latitude ∷ []))
          v
        ≡ fine (with_position x y v)
  unfolding by_name on_track with_number
  by_name-track gps x y v rx ry p = ground (
    arith,
    rx.read,
    ry.read_end,
    update-newest v.xtrack_raw x (num_points - 1) p.raw_xs,
    update-newest v.ytrack_raw y (num_points - 1) p.raw_ys,
    map_but_last-newest (to_x J) v.xtrack_raw v.xtrack x J.zero (num_points - 1) p.raw_xs p.xs
        p.last_x,
    map_but_last-newest (to_y J) v.ytrack_raw v.ytrack y J.zero (num_points - 1) p.raw_ys p.ys
        p.last_y,
  )

  position-shown :
      (gps : Gps Real) (x y : Float) (t : List ℕ) (v : Shown J)
      → Reads D J gps.longitude x
      → Reads D J gps.latitude y
      → IsPicture J v
      → take_text J (two_leds_position D gps ++ t) v ≡ take_text J t (with_position x y v)
  unfolding two_leds_position
  position-shown gps x y t v rx ry p =
      take_text-csv_line J (codes "track") (show8 gps.longitude) (show8 gps.latitude ∷ []) t v
        ((refl, refl), (rx.plain, (ry.plain, refl)))
      ∙ ap (and_then J t) (by_name-track gps x y v rx ry p)

  by_name-test :
      (a b : Point Real) (e : Corners Float) (v : Shown J)
      → PointReads D J a e.x1 e.y1
      → PointReads D J b e.x2 e.y2
      → by_name J
          (codes "test")
          (codes "test" ∷ with_end (show8 a.x ∷ show8 a.y ∷ show8 b.x ∷ show8 b.y ∷ []))
          v
        ≡ fine (record v { testline = in_picture D J e })
  unfolding by_name take_ends with_number
  by_name-test a b e v ra rb =
      ground (arith, ra.read_x.read, ra.read_y.read, rb.read_x.read, rb.read_y.read_end)

  test_line-shown :
      (a b : Point Real) (e : Corners Float) (t : List ℕ) (v : Shown J)
      → PointReads D J a e.x1 e.y1
      → PointReads D J b e.x2 e.y2
      → take_text J (test_line D a b ++ t) v
        ≡ take_text J t (record v { testline = in_picture D J e })
  unfolding test_line
  test_line-shown a b e t v ra rb =
      take_text-csv_line J (codes "test") (show8 a.x) (show8 a.y ∷ show8 b.x ∷ show8 b.y ∷ []) t v (
        (refl, refl),
        (ra.read_x.plain, (ra.read_y.plain, (rb.read_x.plain, (rb.read_y.plain, refl)))),
      )
      ∙ ap (and_then J t) (by_name-test a b e v ra rb)

last-append : {A : Type 0} (xs : List A) (x : A) → get_elem? (xs ++ (x ∷ [])) (length xs) ≡ some x
last-append [] x = refl
last-append (y ∷ ys) x = last-append ys x

module _ (D : Double) (B : Bus) (memory : ℕ → Waypoint D.Real) (no_speed : D.Real) where
  abbrev kit : Kit D.Real
  kit = two_leds_kit D memory no_speed

  abbrev new_position : TwoLedsSketch D B memory no_speed → Point D.Real
  new_position t = record {
    x = t.gps.longitude;
    y = t.gps.latitude;
    v = no_speed;
    t = millis t.lights.world;
  }

  abbrev with_newest : List (Point D.Real) → Point D.Real → List (Point D.Real)
  with_newest ps p =
      if leb max_tracksize (length (ps ++ (p ∷ [])))
      then drop_first D B kit (ps ++ (p ∷ []))
      else ps ++ (p ∷ [])

  -- The last position is the new one, whether the oldest one goes or stays.
  last-with_newest :
      (ps : List (Point D.Real)) (p : Point D.Real)
      → get_elem? (with_newest ps p) (length (with_newest ps p) - 1) ≡ some p
  last-with_newest [] p = refl
  last-with_newest (q ∷ ps) p = ground (arith, last-append ps p, length-append ps (p ∷ []))

  push_track-newest :
      (t : TwoLedsSketch D B memory no_speed)
      → (push_track D B kit t).tracks ≡ with_newest t.tracks (new_position t)
  unfolding push_track new_point two_leds_kit
  push_track-newest t = refl

  pub push_track-monitor :
      (t : TwoLedsSketch D B memory no_speed)
      → monitor (push_track D B kit t).lights.world
        ≡ monitor t.lights.world
          ++ (two_leds_position D t.gps ++ two_leds_tracks D (push_track D B kit t).tracks)
  unfolding push_track new_point two_leds_kit
  push_track-monitor t =
      append_assoc (monitor t.lights.world) (two_leds_position D t.gps)
        (two_leds_tracks D (push_track D B kit t).tracks)

  -- A new position of GPS_tracker_2LEDs_Split comes to GPS_visualizer, if the numbers are printed
  -- so that it reads certain values from them: of its arrays, which have their length, the oldest
  -- position goes, those before the new one are in the picture, and it draws the way from the
  -- oldest position `a` that the sketch now keeps to the new one.
  pub push_track-told :
      (J : Java) (a : Point D.Real) (e : Corners J.Float) (t : TwoLedsSketch D B memory no_speed)
      (v : Shown J)
      → let u = push_track D B (two_leds_kit D memory no_speed) t in
        get_elem? u.tracks 0 ≡ some a
        → PointReads D J a e.x1 e.y1
        → Reads D J t.gps.longitude e.x2
        → Reads D J t.gps.latitude e.y2
        → IsPicture J v
        → Tells J t.lights.world u.lights.world v
            (record (with_position D J e.x2 e.y2 v) { testline = in_picture D J e })
  unfolding two_leds_tracks
  push_track-told J a e t v h ra rx ry p =
      let tracks = (push_track D B kit t).tracks in
      let new = new_position t in
      let last : get_elem? tracks (length tracks - 1) ≡ some new =
        ap (λ ps. get_elem? ps (length ps - 1)) (push_track-newest t)
        ∙ last-with_newest t.tracks new in
      record {
        text = two_leds_position D t.gps ++ two_leds_tracks D tracks;
        printed = push_track-monitor t;
        taken = λ l.
            ap (λ x. take_text J x v)
              (append_assoc (two_leds_position D t.gps) (two_leds_tracks D tracks) l)
            ∙ position-shown D J t.gps e.x2 e.y2 (two_leds_tracks D tracks ++ l) v rx ry p
            ∙ ap (λ x. take_text J (x ++ l) (with_position D J e.x2 e.y2 v))
                (with_ends-line D J (test_line D) tracks a new h last)
            ∙ test_line-shown D J a new e l (with_position D J e.x2 e.y2 v) ra
                (record { read_x = rx; read_y = ry });
      }
