-- ===== src/Visualizer/Following.antt =====
-- GPS_visualizer follows a sketch: what is printed keeps its gates those of the sketch.
use speed_feed.Common.{ℕ, ◌≡◌, ◌∙◌, List, ◌++◌, map}
use speed_feed.Double.{Double}
use speed_feed.Eeprom.{Bus}
use speed_feed.Eeprom.RoundTrip.{ends}
use speed_feed.Lights.Silent.{AreColoured, StaysSilent}
use speed_feed.Monitor.{monitor}
use speed_feed.Tracker.State.{Kit}
use speed_feed.Tracker.Startup.{Sketch}
use speed_feed.Tracker.Quiet.{IsQuiet}
use speed_feed.Visualizer.{Java, Shown}
use speed_feed.Visualizer.Harmless.{IsHarmless}
use speed_feed.Visualizer.Telling.{Tells, Tells-silent, Tells-trans}
use speed_feed.Visualizer.Follow.{ShowsTrack, ShowsTrack-ends}

module _ (D : Double) (B : Bus) (kit : Kit D.Real) (J : Java) (value : D.Real → J.Float) where
  -- The view shows the gates of the sketch, which is past its first pass.
  pub record Showing (t : Sketch D B kit) (v : Shown J) : Type 0 where
    pub coloured : AreColoured t.lights
    pub booted : t.boot_flag ≡ 1
    pub shown : ShowsTrack D J value t.waypoints v

  -- What is printed from `t` to `u` turns the view `v` into one that shows the gates of `u`.
  pub record Follows (t u : Sketch D B kit) (v : Shown J) : Type 0 where
    pub view : Shown J
    pub told : Tells J t.lights.world u.lights.world v view
    pub showing : Showing u view

  pub Follows-trans :
      (t u w : Sketch D B kit) (v : Shown J)
      → Follows t u v
      → ((v' : Shown J) → Showing u v' → Follows u w v')
      → Follows t w v
  Follows-trans t u w v f g =
      let h = g f.view f.showing in
      record {
        view = h.view;
        told =
            Tells-trans J t.lights.world u.lights.world w.lights.world v f.view h.view f.told
              h.told;
        showing = h.showing;
      }

  -- Nothing was printed, and the gates are the same.
  pub Follows-same :
      (t u : Sketch D B kit) (v : Shown J)
      → StaysSilent t.lights u.lights
      → u.boot_flag ≡ t.boot_flag
      → map ends u.waypoints ≡ map ends t.waypoints
      → Showing t v
      → Follows t u v
  Follows-same t u v (c, e) b w s = record {
    view = v;
    told = Tells-silent J t.lights.world u.lights.world v e;
    showing = record {
      coloured = c;
      booted = b ∙ s.booted;
      shown = ShowsTrack-ends D J value t.waypoints u.waypoints v w s.shown;
    };
  }

  pub Follows-quiet :
      (t u : Sketch D B kit) (v : Shown J) → IsQuiet D B kit t u → Showing t v → Follows t u v
  Follows-quiet t u v q s = Follows-same t u v q.silent q.same_boot q.same_ends s

  -- A text that spares the gates.
  pub Follows-harmless :
      (t u : Sketch D B kit) (v : Shown J) (text : List ℕ)
      → monitor u.lights.world ≡ monitor t.lights.world ++ text
      → IsHarmless J text v
      → AreColoured u.lights
      → u.boot_flag ≡ t.boot_flag
      → map ends u.waypoints ≡ map ends t.waypoints
      → Showing t v
      → Follows t u v
  Follows-harmless t u v text e h c b w s =
      let (first, rest) = ShowsTrack-ends D J value t.waypoints u.waypoints v w s.shown in
      record {
        view = h.view;
        told = record { text = text; printed = e; taken = h.taken };
        showing = record {
          coloured = c;
          booted = b ∙ s.booted;
          shown = (h.same.0 ∙ first, h.same.1 ∙ rest);
        };
      }
