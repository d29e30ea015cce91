-- ===== src/Tracker/Shown.antt =====
-- What the LEDs show after a crossing in a race (GPS_tracker_Single_Split.ino, case ST_RACE).
use speed_feed.Monitor.{print_text}
use speed_feed.Tracker.Racing.{split_signal, split_kit, record_split, cross}
use speed_feed.Tracker.Feedback.{IsSignal, feedback-IsSignal}
use speed_feed.Tracker.State.{Kit, done, lift, >>=-eq-done, done-injective}
use speed_feed.Tracker.Startup.{Sketch}
use speed_feed.Tracker.Split.{get_elem?-set_same}
use speed_feed.Common.{
  [], length, get_elem?, set, length-set, neg32, ℕ, ◌^◌, ◌<◌, ◌≡◌, refl, some, arith,
}
use speed_feed.Double.{Double}
use speed_feed.Sentence.{first}
use speed_feed.Eeprom.{Bus}
use speed_feed.Waypoint.{Waypoint, check_split}
use speed_feed.Led.{red, green}
use speed_feed.Platform.{tick}
use mathlib.Core.Path.{subst}

module _ (D : Double) (B : Bus) (kit : Kit D.Real) where
  open D use {Real}

  -- The waypoint that was crossed, what its sketch prints of it, and the signal that it gives for it.
  pub record IsShown (t u : Sketch D B kit) : Type 0 where
    pub passed : Waypoint Real
    pub is_passed : get_elem? u.waypoints t.wp_next ≡ some passed
    pub shown :
        u.lights
        ≡ kit.signal passed (record t.lights {
          world = print_text (kit.split_text passed t.tracks t.lights) (tick t.lights.world);
        })

  pub cross-IsShown :
      (gate : Waypoint Real) (t u : Sketch D B kit)
      → cross D B kit gate t ≡ done u
      → t.wp_next < length t.waypoints
      → IsShown t u
  unfolding cross record_split check_split
  cross-IsShown gate t u h n =
      let ps = set t.waypoints t.wp_next gate in
      let w = t.lights.world in
      let (prev, e1, h1) = >>=-eq-done (lift (get_elem? ps t.wp_last)) _ h in
      let (first, e2, h2) = >>=-eq-done (lift (get_elem? ps 0)) _ h1 in
      let p = (check_split D gate prev first.last w).0 in
      subst (IsShown t) (done-injective h2) (record {
        passed = p;
        is_passed =
            get_elem?-set_same ps t.wp_next p
              (omega (arith, length-set t.waypoints t.wp_next gate));
        shown = refl;
      })

module _ (D : Double) (B : Bus) (memory : ℕ → Waypoint D.Real) where
  open D use {Real}

  -- A crossing in a race of GPS_tracker_Single_Split, with the index of the next waypoint in
  -- bounds: if the split at that waypoint is `size` ms better than its best, or worse, then both
  -- LEDs show the signal for it, whatever they showed before, green for the better and red for
  -- the worse: dark up to 200 ms, and beyond it blinking for five seconds, the faster the larger
  -- the margin, in the steps of `rate_of`.
  pub cross-IsSignal :
      (size : ℕ) (gate : Waypoint Real) (t u : Sketch D B (split_kit memory))
      → cross D B (split_kit memory) gate t ≡ done u
      → t.wp_next < length t.waypoints
      → size < 2 ^ 31
      → (p : Waypoint Real) × (get_elem? u.waypoints t.wp_next ≡ some p)
        × (p.split_margin ≡ neg32 size → IsSignal green size u.lights)
        × (p.split_margin ≡ size → IsSignal red size u.lights)
  unfolding split_kit split_signal
  cross-IsSignal size gate t u h n s =
      let c = cross-IsShown D B (split_kit memory) gate t u h n in
      let l = record t.lights { world = print_text [] (tick t.lights.world) } in
      let signal = feedback-IsSignal size l s in
      (c.passed, c.is_passed, λ e. rw (c.shown, e) signal.0, λ e. rw (c.shown, e) signal.1)
