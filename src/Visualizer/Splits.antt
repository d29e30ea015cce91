-- ===== src/Visualizer/Splits.antt =====
-- A split of GPS_tracker_2LEDs_Split on the monitor (case ST_RACE), and in GPS_visualizer.
use speed_feed.TwoLeds.Verdict.{margin_colour-valid}
use mathlib.Core.List.{append_assoc}
use speed_feed.Common.{
  ℕ, ◌-◌, ◌<◌, ◌≡◌, refl, ap, sym, ◌∙◌, some, some-injective, List, [], ◌∷◌, ◌++◌, arith, length,
  get_elem?,
}
use speed_feed.Double.{Double}
use speed_feed.Waypoint.{Waypoint}
use speed_feed.Geometry.{Point}
use speed_feed.Eeprom.{Bus}
use speed_feed.Lights.{Lights, set_splt}
use speed_feed.Lights.Silent.{
  AreColoured, StaysSilent, StaysSilent-trans, set_lap-silent, set_splt-silent,
}
use speed_feed.Monitor.{monitor, print_text, codes, line_end}
use speed_feed.Platform.{tick}
use speed_feed.Tracker.State.{done}
use speed_feed.Tracker.Racing.{cross}
use speed_feed.Tracker.Shown.{cross-IsShown}
use speed_feed.TwoLeds.{
  margin_colour, two_leds_signal, two_leds_split, split_line, with_ends, two_leds_kit,
  TwoLedsSketch,
}
use speed_feed.Visualizer.{
  Java, Corners, Shown, take_text, by_name, on_split, take_ends, with_number, fine,
}
use speed_feed.Visualizer.Lines.{Plain, take_text-csv_line, take_text-skipped, and_then, with_end}
use speed_feed.Visualizer.Gates.{Reads, in_picture}
use speed_feed.Visualizer.Telling.{Tells}

pub two_leds_signal-silent :
    {R : Type 0} (p : Waypoint R) (l : Lights) → AreColoured l → StaysSilent l (two_leds_signal p l)
unfolding two_leds_signal
two_leds_signal-silent p l c =
    let colour = margin_colour p.split_margin in
    let a = set_splt-silent colour 3000 l (margin_colour-valid p.split_margin) c in
    let l' = set_splt colour 3000 l in
    StaysSilent-trans l l' (two_leds_signal p l) a
      (set_lap-silent (margin_colour p.lap_margin) 0 l' (margin_colour-valid p.lap_margin) a.0)

module _ (D : Double) (J : Java) where
  open D use {Real, show8, show_long}
  open J use {Float, parse_float, thousandth}

  -- The text of a `long` is a field, and `value` is read from it.
  pub record LongReads (n : ℕ) (value : Float) : Type 0 where
    pub plain : Plain (show_long n)
    pub read : parse_float (show_long n) ≡ some value

  -- The two numbers of a position are read as `x` and `y` from the monitor.
  pub record PointReads (p : Point Real) (x y : Float) : Type 0 where
    pub read_x : Reads D J p.x x
    pub read_y : Reads D J p.y y

  -- The lines that a split adds to the text of the picture.
  abbrev pub margin_text : Float → Float → List ℕ
  margin_text margin best =
      codes "Margin: "
      ++ (thousandth margin ++ (10 ∷ codes "Split: ") ++ (thousandth best ++ (10 ∷ [])))

  by_name-split :
      (p : Waypoint Real) (a b : Point Real) (margin best : Float) (e : Corners Float) (v : Shown J)
      → LongReads p.lap_margin margin
      → LongReads p.lap_best best
      → PointReads b e.x1 e.y1
      → PointReads a e.x2 e.y2
      → by_name J
          (codes "split")
          (codes "split"
            ∷ show_long p.lap_margin
            ∷ show_long p.lap_best
            ∷ with_end (show8 b.x ∷ show8 b.y ∷ show8 a.x ∷ show8 a.y ∷ []))
          v
        ≡ fine (record v {
          crossline = in_picture D J e;
          output_text = v.output_text ++ margin_text margin best;
        })
  unfolding by_name on_split take_ends with_number
  by_name-split p a b margin best e v m s rb ra =
      ground
        (arith, m.read, s.read, rb.read_x.read, rb.read_y.read, ra.read_x.read, ra.read_y.read_end)

  split_line-shown :
      (p : Waypoint Real) (a b : Point Real) (margin best : Float) (e : Corners Float) (t : List ℕ)
      (v : Shown J)
      → LongReads p.lap_margin margin
      → LongReads p.lap_best best
      → PointReads b e.x1 e.y1
      → PointReads a e.x2 e.y2
      → take_text J (split_line D p a b ++ t) v
        ≡ take_text J t (record v {
          crossline = in_picture D J e;
          output_text = v.output_text ++ margin_text margin best;
        })
  unfolding split_line
  split_line-shown p a b margin best e t v m s rb ra =
      take_text-csv_line J (codes "split") (show_long p.lap_margin)
        (show_long p.lap_best ∷ show8 b.x ∷ show8 b.y ∷ show8 a.x ∷ show8 a.y ∷ []) t v
        (
          (refl, refl),
          (
            m.plain,
            (
              s.plain,
              (rb.read_x.plain, (rb.read_y.plain, (ra.read_x.plain, (ra.read_y.plain, refl)))),
            ),
          ),
        )
      ∙ ap (and_then J t) (by_name-split p a b margin best e v m s rb ra)

  pub with_ends-line :
      (line : Point Real → Point Real → List ℕ) (ps : List (Point Real)) (a b : Point Real)
      → get_elem? ps 0 ≡ some a
      → get_elem? ps (length ps - 1) ≡ some b
      → with_ends D line ps ≡ line a b
  unfolding with_ends
  with_ends-line line ps a b ha hb = ground arith

  -- the number of the adjustment, on a line of its own, and the split
  two_leds_split-shown :
      (p : Waypoint Real) (ps : List (Point Real)) (l : Lights) (a b : Point Real)
      (margin best : Float) (e : Corners Float) (t : List ℕ) (v : Shown J)
      → get_elem? ps 0 ≡ some a
      → get_elem? ps (length ps - 1) ≡ some b
      → Plain (show_long p.adjustment)
      → LongReads p.lap_margin margin
      → LongReads p.lap_best best
      → PointReads b e.x1 e.y1
      → PointReads a e.x2 e.y2
      → take_text J (two_leds_split D p ps l ++ t) v
        ≡ take_text J t (record v {
          crossline = in_picture D J e;
          output_text = v.output_text ++ margin_text margin best;
        })
  unfolding two_leds_split
  two_leds_split-shown p ps l a b margin best e t v ha hb q m s rb ra =
      let number = show_long p.adjustment in
      ap (λ x. take_text J (((number ++ line_end) ++ x) ++ t) v)
        (with_ends-line (split_line D p) ps a b ha hb)
      ∙ ap (λ x. take_text J x v)
          (append_assoc (number ++ line_end) (split_line D p a b) t
            ∙ append_assoc number line_end (split_line D p a b ++ t))
      ∙ take_text-skipped J number (split_line D p a b ++ t) v q
      ∙ split_line-shown p a b margin best e t v m s rb ra

module _ (D : Double) (B : Bus) (memory : ℕ → Waypoint D.Real) (no_speed : D.Real) (J : Java) where
  -- A crossing in a race of GPS_tracker_2LEDs_Split, with the index of the next waypoint in bounds
  -- and the waypoint `p` at it afterwards, comes to GPS_visualizer, if the numbers are printed so
  -- that it reads certain values from them: it draws the way from the last position to the first,
  -- and writes the lap margin and the best lap of `p` below its text, the latter as the split.
  -- The LEDs have valid colours before.
  pub cross-told :
      (gate p : Waypoint D.Real) (a b : Point D.Real) (margin best : J.Float) (e : Corners J.Float)
      (t u : TwoLedsSketch D B memory no_speed) (v : Shown J)
      → cross D B (two_leds_kit D memory no_speed) gate t ≡ done u
      → t.wp_next < length t.waypoints
      → AreColoured t.lights
      → get_elem? u.waypoints t.wp_next ≡ some p
      → get_elem? t.tracks 0 ≡ some a
      → get_elem? t.tracks (length t.tracks - 1) ≡ some b
      → Plain (D.show_long p.adjustment)
      → LongReads D J p.lap_margin margin
      → LongReads D J p.lap_best best
      → PointReads D J b e.x1 e.y1
      → PointReads D J a e.x2 e.y2
      → Tells J t.lights.world u.lights.world v (record v {
        crossline = in_picture D J e;
        output_text = v.output_text ++ margin_text D J margin best;
      })
  unfolding two_leds_kit
  cross-told gate p a b margin best e t u v h n c at ha hb q m s rb ra =
      let shown = cross-IsShown D B (two_leds_kit D memory no_speed) gate t u h n in
      let same : shown.passed ≡ p = some-injective (sym shown.is_passed ∙ at) in
      let before = record t.lights {
        world = print_text (two_leds_split D shown.passed t.tracks t.lights) (tick t.lights.world);
      } in
      record {
        text = two_leds_split D p t.tracks t.lights;
        printed =
            ap (λ (l : Lights). monitor l.world) shown.shown
            ∙ (two_leds_signal-silent shown.passed before c).1
            ∙ ap (λ q. monitor t.lights.world ++ two_leds_split D q t.tracks t.lights) same;
        taken = λ l.
            two_leds_split-shown D J p t.tracks t.lights a b margin best e l v ha hb q m s rb ra;
      }
