-- ===== src/Visualizer/Telling.antt =====
-- What a piece of a sketch prints, and what GPS_visualizer makes of it.
use mathlib.Core.List.{append_assoc, append-nil}
use speed_feed.Common.{
  some-injective, ℕ, ◌≡◌, refl, ap, sym, ◌∙◌, List, [], ◌∷◌, ◌++◌, some, length,
}
use speed_feed.Platform.{World}
use speed_feed.Double.{Double}
use speed_feed.Waypoint.{Waypoint}
use speed_feed.Monitor.{monitor, print_text, codes, line_end}
use speed_feed.Monitor.Lines.{gate_line, waypoint_lines}
use speed_feed.Tracker.Setup.{greet}
use speed_feed.Tracker.Startup.{send_waypoints}
use speed_feed.Visualizer.{
  Java, Corners, Shown, new_view, take_text, wp_limit, take_lines, lines_of, serial_event,
  split_fields, by_name,
}
use speed_feed.Visualizer.Lines.{Plain, take_text-skipped}
use speed_feed.Visualizer.Gates.{AllRead, with_track, startfinish-shown, waypoint_lines-shown}

module _ (J : Java) where
  -- From the world `w` to `w'` a text was printed, and it turns the view `v` into `v'`, whatever
  -- comes after it.
  pub record Tells (w w' : World) (v v' : Shown J) : Type 0 where
    pub text : List ℕ
    pub printed : monitor w' ≡ monitor w ++ text
    pub taken : (t : List ℕ) → take_text J (text ++ t) v ≡ take_text J t v'

  pub Tells-silent : (w w' : World) (v : Shown J) → monitor w' ≡ monitor w → Tells w w' v v
  Tells-silent w w' v e = record {
    text = [];
    printed = e ∙ sym (append-nil (monitor w));
    taken = λ t. refl;
  }

  pub Tells-trans :
      (w w' w'' : World) (v v' v'' : Shown J)
      → Tells w w' v v'
      → Tells w' w'' v' v''
      → Tells w w'' v v''
  Tells-trans w w' w'' v v' v'' a b = record {
    text = a.text ++ b.text;
    printed = b.printed ∙ ap (λ l. l ++ b.text) a.printed ∙ append_assoc (monitor w) a.text b.text;
    taken = λ t.
        ap (λ l. take_text J l v) (append_assoc a.text b.text t)
        ∙ a.taken (b.text ++ t)
        ∙ b.taken t;
  }

  -- If nothing was printed before, this is all that the visualizer reads.
  pub Tells-all :
      (w w' : World) (v v' : Shown J)
      → Tells w w' v v'
      → monitor w ≡ []
      → take_text J (monitor w') v ≡ some v'
  unfolding take_text take_lines lines_of
  Tells-all w w' v v' a e =
      ap (λ l. take_text J l v) (a.printed ∙ ap (λ l. l ++ a.text) e ∙ sym (append-nil a.text))
      ∙ a.taken []

  -- A line without a comma changes nothing.
  pub skipped-Tells :
      (s : List ℕ) (w : World) (v : Shown J) → Plain s → Tells w (print_text (s ++ line_end) w) v v
  skipped-Tells s w v p = record {
    text = s ++ line_end;
    printed = refl;
    taken =
        λ t. ap (λ l. take_text J l v) (append_assoc s line_end t) ∙ take_text-skipped J s t v p;
  }

  -- The first lines of `setup` empty the picture.
  pub greet-Tells : (w : World) (v : Shown J) → Tells w (greet w) v (new_view J)
  unfolding greet take_text take_lines lines_of serial_event split_fields by_name
  greet-Tells w v = record {
    text = 10 ∷ line_end ++ ((codes "reset," ++ line_end) ++ (codes "reset," ++ line_end));
    printed =
        append_assoc (monitor w ++ (10 ∷ line_end)) (codes "reset," ++ line_end)
          (codes "reset," ++ line_end)
        ∙ append_assoc (monitor w) (10 ∷ line_end)
            ((codes "reset," ++ line_end) ++ (codes "reset," ++ line_end));
    taken = λ t. refl;
  }

  -- `sendWaypoints` shows the track.
  pub send_waypoints-Tells :
      (D : Double) (ps : List (Waypoint D.Real)) (es : List (Corners J.Float)) (w w' : World)
      (v : Shown J)
      → send_waypoints D ps w ≡ some w'
      → AllRead D J ps es
      → length v.waypoints ≡ wp_limit
      → Tells w w' v (with_track D J es v)
  unfolding send_waypoints
  send_waypoints-Tells D [] es w w' v h r n = cc
  send_waypoints-Tells D (p ∷ ps) [] w w' v h r n = cc
  send_waypoints-Tells D (p ∷ ps) (e ∷ es) w w' v h r n = record {
    text = gate_line D (codes "startfinish") p ++ waypoint_lines D ps;
    printed = ap monitor (sym (some-injective h));
    taken = λ t.
        ap (λ l. take_text J l v)
          (append_assoc (gate_line D (codes "startfinish") p) (waypoint_lines D ps) t)
        ∙ startfinish-shown D J p e (waypoint_lines D ps ++ t) v r.0
        ∙ waypoint_lines-shown D J ps es t _ r.1 n;
  }
