-- ===== src/Visualizer/Hearing.antt =====
-- Passes of GPS_tracker_2LEDs_Split, followed by GPS_visualizer.
use mathlib.Core.Path.{subst}
use speed_feed.Common.{
  ℕ, ◌≡◌, refl, sym, ap, Bool, true, false, Option, List, ◌∷◌, ◌++◌, if◌then◌else◌,
}
use speed_feed.Double.{Double}
use speed_feed.Waypoint.{Waypoint}
use speed_feed.Eeprom.{Bus}
use speed_feed.Lights.Silent.{update_lights-silent}
use speed_feed.Monitor.{monitor, line_end}
use speed_feed.Nmea.{Gps, parse}
use speed_feed.Receiver.{read, last_nmea}
use speed_feed.Tracker.State.{Run, st_wpset, Kit, done, >>=-eq-done, ◌>>=◌, lift, done-injective}
use speed_feed.Tracker.Startup.{Sketch}
use speed_feed.Tracker.Loop.{
  by_state, by_fix, push_track, end_pass, took, heard, echo_sentence, use_fix, after_parse,
  on_sentence, second_half, pass, take_interrupt,
}
use speed_feed.TwoLeds.{two_leds_kit, two_leds_position, two_leds_tracks}
use speed_feed.Visualizer.{Java, Shown}
use speed_feed.Visualizer.Lines.{lacks}
use speed_feed.Visualizer.Harmless.{IsHarmless-append, sentence-IsHarmless}
use speed_feed.Visualizer.Texts.{PlainTexts, position-IsHarmless, tracks-IsHarmless}
use speed_feed.Visualizer.Switching.{by_state-Goes}
use speed_feed.Visualizer.Positions.{push_track-monitor}
use speed_feed.Visualizer.Follow.{TrackReads}
use speed_feed.Visualizer.Following.{
  Showing, Follows, Follows-trans, Follows-same, Follows-harmless,
}
use speed_feed.Visualizer.Crossing.{by_fix-Follows}

-- one line that begins with a dollar sign
pub record IsSentence (text : List ℕ) : Type 0 where
  pub rest : List ℕ
  pub is_text : text ≡ b'$' ∷ rest
  pub one_line : lacks 10 rest ≡ true

module _ (D : Double) (B : Bus) (kit : Kit D.Real) (J : Java) (value : D.Real → J.Float) where
  -- GPS_visualizer reads `value` from the texts of the gates that a `switch` leaves.
  abbrev pub SwitchReads : Run (Sketch D B kit) → Type 0
  SwitchReads (done t) = TrackReads D J value t.waypoints
  SwitchReads _ = true ≡ true

  -- A run of passes that come to their end, and of interrupts between them, in which each text that
  -- is taken up is such a line, and the gates are read so after the first `switch` of each pass that
  -- begins in ST_WPSET.
  pub data Hears (t : Sketch D B kit) : Sketch D B kit → Type 0 where
    start : Hears t t
    next :
        {u v : Sketch D B kit} (patience : ℕ) (available : Option ℕ)
        → Hears t u
        → pass D B kit patience available u ≡ done v
        → ((read available u.receiver).1.recvdflag ≡ true
            → IsSentence (last_nmea (read available u.receiver).1).0)
        → (u.current_state ≡ st_wpset
            → SwitchReads (
                by_state D B kit patience u.current_state
                  (record u { receiver = (read available u.receiver).1 })))
        → Hears t v
    press : {u : Sketch D B kit} → Hears t u → Hears t (take_interrupt D B kit u)

module _ (D : Double) (B : Bus) (memory : ℕ → Waypoint D.Real) (no_speed : D.Real) (J : Java)
    (value : D.Real → J.Float) (P : PlainTexts D J) where
  open D use {Real}

  abbrev kit : Kit Real
  kit = two_leds_kit D memory no_speed

  abbrev Shows : Sketch D B kit → Shown J → Type 0
  Shows = Showing D B kit J value

  abbrev Leads : Sketch D B kit → Sketch D B kit → Shown J → Type 0
  Leads = Follows D B kit J value

  end_pass-Follows : (t : Sketch D B kit) (v : Shown J) → Shows t v → Leads t (end_pass D B kit t) v
  unfolding end_pass
  end_pass-Follows t v s =
      Follows-same D B kit J value t (end_pass D B kit t) v
        (update_lights-silent t.lights s.coloured) refl refl s

  push_track-Follows :
      (t : Sketch D B kit) (v : Shown J) → Shows t v → Leads t (push_track D B kit t) v
  unfolding push_track
  push_track-Follows t v s =
      let u = push_track D B kit t in
      let told =
        IsHarmless-append J (two_leds_position D t.gps) (two_leds_tracks D u.tracks) v
          (position-IsHarmless D J P t.gps v) (tracks-IsHarmless D J P u.tracks) in
      Follows-harmless D B kit J value t u v
        (two_leds_position D t.gps ++ two_leds_tracks D u.tracks)
        (push_track-monitor D B memory no_speed t) told s.coloured refl refl s

  heard-Follows :
      (gps : Gps Real) (t : Sketch D B kit) (v : Shown J)
      → IsSentence (last_nmea t.receiver).0
      → Shows t v
      → Leads t (heard D B kit gps t) v
  unfolding echo_sentence took two_leds_kit
  heard-Follows gps t v i s =
      Follows-harmless D B kit J value t (heard D B kit gps t) v ((b'$' ∷ i.rest) ++ line_end)
        (ap (λ x. monitor t.lights.world ++ (x ++ line_end)) i.is_text)
        (sentence-IsHarmless J i.rest v i.one_line) s.coloured refl refl s

  took-Follows :
      (gps : Gps Real) (t : Sketch D B kit) (v : Shown J)
      → Shows t v
      → Leads t (took D B kit gps t) v
  unfolding took
  took-Follows gps t v s =
      Follows-same D B kit J value t (took D B kit gps t) v (s.coloured, refl) refl refl s

  fix_part-Follows :
      (fix : Bool) (t u : Sketch D B kit) (v : Shown J)
      → ((if fix then by_fix D B kit t.current_state (push_track D B kit t) else done t) >>= λ t'.
          done (end_pass D B kit t'))
        ≡ done u
      → Shows t v
      → Leads t u v
  fix_part-Follows true t u v h s =
      let pushed = push_track D B kit t in
      let (t', e, h') = >>=-eq-done (by_fix D B kit t.current_state pushed) _ h in
      subst (λ u'. Leads t u' v) (done-injective h')
        (Follows-trans D B kit J value t pushed (end_pass D B kit t') v (push_track-Follows t v s)
          λ v1 s1.
            Follows-trans D B kit J value pushed t' (end_pass D B kit t') v1
              (by_fix-Follows D B memory no_speed J value P t.current_state pushed t' v1 e s1)
              (end_pass-Follows t'))
  fix_part-Follows false t u v h s =
      subst (λ u'. Leads t u' v) (done-injective h) (end_pass-Follows t v s)

  after_parse-Follows :
      (t u : Sketch D B kit) (parsed : Bool) (gps : Gps Real) (v : Shown J)
      → after_parse D B kit t (parsed, gps) ≡ done u
      → IsSentence (last_nmea t.receiver).0
      → Shows t v
      → Leads t u v
  unfolding after_parse use_fix took echo_sentence
  after_parse-Follows t u true gps v h i s =
      Follows-trans D B kit J value t (heard D B kit gps t) u v (heard-Follows gps t v i s)
        λ v1 s1. fix_part-Follows gps.fix (heard D B kit gps t) u v1 h s1
  after_parse-Follows t u false gps v h i s =
      subst (λ u'. Leads t u' v) (done-injective h) (took-Follows gps t v s)

  second_half-Follows :
      (came : Bool) (t u : Sketch D B kit) (v : Shown J)
      → (if came then on_sentence D B kit t else done (end_pass D B kit t)) ≡ done u
      → (came ≡ true → IsSentence (last_nmea t.receiver).0)
      → Shows t v
      → Leads t u v
  unfolding on_sentence
  second_half-Follows true t u v h i s =
      let (r, e, h') = >>=-eq-done (lift (parse D (last_nmea t.receiver).0 t.gps)) _ h in
      after_parse-Follows t u r.0 r.1 v h' (i refl) s
  second_half-Follows false t u v h i s =
      subst (λ u'. Leads t u' v) (done-injective h) (end_pass-Follows t v s)

  pass-Follows :
      (patience : ℕ) (available : Option ℕ) (t u : Sketch D B kit) (v : Shown J)
      → pass D B kit patience available t ≡ done u
      → ((read available t.receiver).1.recvdflag ≡ true
          → IsSentence (last_nmea (read available t.receiver).1).0)
      → (t.current_state ≡ st_wpset
          → SwitchReads D B kit J value (
              by_state D B kit patience t.current_state
                (record t { receiver = (read available t.receiver).1 })))
      → Shows t v
      → Leads t u v
  unfolding pass second_half
  pass-Follows patience available t u v h i g s =
      let t' = record t { receiver = (read available t.receiver).1 } in
      let s' : Shows t' v = record { coloured = s.coloured; booted = s.booted; shown = s.shown } in
      let (t'', e, h') = >>=-eq-done (by_state D B kit patience t.current_state t') _ h in
      let (f, same) =
        by_state-Goes D B memory no_speed J value patience t.current_state t' t'' v e
          (λ w. subst (SwitchReads D B kit J value) e (g w)) s' in
      let i'' = subst (λ r. r.recvdflag ≡ true → IsSentence (last_nmea r).0) (sym same) i in
      let g =
        Follows-trans D B kit J value t' t'' u v f
          λ v1 s1. second_half-Follows t''.receiver.recvdflag t'' u v1 h' i'' s1 in
      record { view = g.view; told = g.told; showing = g.showing }

  -- GPS_tracker_2LEDs_Split is past its first pass, its LEDs have colours, and GPS_visualizer shows
  -- its gates. It runs on through any number of passes that come to their end, and of interrupts
  -- between them; each text that a pass takes up is one line that begins with a dollar sign. The
  -- texts of numbers are fields of a line, and GPS_visualizer reads `value` from the texts of the
  -- gates that a pass in ST_WPSET leaves. Then GPS_visualizer reads all that was printed meanwhile,
  -- and shows the gates of the sketch again, those set and crossed on the way with them: its start
  -- line is the first gate, and its waypoints are the newest sixteen of the others.
  pub Hears-Follows :
      (t u : Sketch D B kit) (v : Shown J) → Hears D B kit J value t u → Shows t v → Leads t u v
  unfolding take_interrupt
  Hears-Follows t _ v Hears.start s =
      Follows-same D B kit J value t t v (s.coloured, refl) refl refl s
  Hears-Follows t _ v (Hears.next {u} {v = w} patience available run h i g) s =
      Follows-trans D B kit J value t u w v (Hears-Follows t u v run s)
        λ v1 s1. pass-Follows patience available u w v1 h i g s1
  Hears-Follows t _ v (Hears.press {u} run) s =
      Follows-trans D B kit J value t u (take_interrupt D B kit u) v (Hears-Follows t u v run s)
        λ v1 s1.
          Follows-same D B kit J value u (take_interrupt D B kit u) v1 (s1.coloured, refl) refl refl
            s1
