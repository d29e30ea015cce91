-- ===== src/Tracker/Colours/Runs.antt =====
-- The colours of the LEDs through all runs of a tracker sketch, from `setup` on.
use speed_feed.Tracker.Setup.Start.{set_up_board-silent}
use speed_feed.Common.{ℕ, ◌≡◌, Bool, true, false, Option, if◌then◌else◌}
use speed_feed.Double.{Double}
use speed_feed.Eeprom.{Bus}
use speed_feed.Led.{Led}
use speed_feed.Lights.Silent.{AreColoured, update_lights-silent}
use speed_feed.Nmea.{Gps, parse}
use speed_feed.Platform.{World}
use speed_feed.Receiver.{read, last_nmea}
use speed_feed.Tracker.State.{Kit, done, >>=-eq-done, ◌>>=◌, lift, done-injective}
use speed_feed.Tracker.Startup.{Sketch}
use speed_feed.Tracker.Setup.{setup, greet}
use speed_feed.Tracker.Loop.{
  by_state, by_fix, push_track, end_pass, took, heard, echo_sentence, use_fix, after_parse,
  on_sentence, second_half, pass, take_interrupt,
}
use speed_feed.Tracker.Graph.Runs.{Passes}
use speed_feed.Tracker.Colours.{KeepsColours}
use speed_feed.Tracker.Colours.Button.{Coloured, by_state-Coloured}
use speed_feed.Tracker.Colours.Fix.{by_fix-Coloured}
use mathlib.Core.Path.{subst}

module _ (D : Double) (B : Bus) (kit : Kit D.Real) (k : KeepsColours kit) where
  open D use {Real}

  abbrev Valid : Sketch D B kit → Type 0
  Valid = Coloured D B kit

  end_pass-Coloured : (t : Sketch D B kit) → Valid t → Valid (end_pass D B kit t)
  unfolding end_pass
  end_pass-Coloured t c = (update_lights-silent t.lights c).0

  fix_part-Coloured :
      (fix : Bool) (t u : Sketch D B kit)
      → ((if fix then by_fix D B kit t.current_state (push_track D B kit t) else done t) >>= λ t'.
          done (end_pass D B kit t'))
        ≡ done u
      → Valid t
      → Valid u
  unfolding push_track
  fix_part-Coloured true t u h c =
      let pushed = push_track D B kit t in
      let (t', e, h') = >>=-eq-done (by_fix D B kit t.current_state pushed) _ h in
      subst Valid (done-injective h')
        (end_pass-Coloured t' (by_fix-Coloured D B kit k t.current_state pushed t' e c))
  fix_part-Coloured false t u h c = subst Valid (done-injective h) (end_pass-Coloured t c)

  after_parse-Coloured :
      (t u : Sketch D B kit) (parsed : Bool) (gps : Gps Real)
      → after_parse D B kit t (parsed, gps) ≡ done u
      → Valid t
      → Valid u
  unfolding after_parse use_fix took echo_sentence
  after_parse-Coloured t u true gps h c = fix_part-Coloured gps.fix (heard D B kit gps t) u h c
  after_parse-Coloured t u false gps h c = subst Valid (done-injective h) c

  second_half-Coloured :
      (came : Bool) (t u : Sketch D B kit)
      → (if came then on_sentence D B kit t else done (end_pass D B kit t)) ≡ done u
      → Valid t
      → Valid u
  unfolding on_sentence
  second_half-Coloured true t u h c =
      let (r, e, h') = >>=-eq-done (lift (parse D (last_nmea t.receiver).0 t.gps)) _ h in
      after_parse-Coloured t u r.0 r.1 h' c
  second_half-Coloured false t u h c = subst Valid (done-injective h) (end_pass-Coloured t c)

  pass-Coloured :
      (patience : ℕ) (available : Option ℕ) (t u : Sketch D B kit)
      → pass D B kit patience available t ≡ done u
      → Valid t
      → Valid u
  unfolding pass second_half
  pass-Coloured patience available t u h c =
      let t' = record t { receiver = (read available t.receiver).1 } in
      let (t'', e, h') = >>=-eq-done (by_state D B kit patience t.current_state t') _ h in
      second_half-Coloured t''.receiver.recvdflag t'' u h'
        (by_state-Coloured D B kit patience t.current_state t' t'' e c)

  Passes-Coloured : (t u : Sketch D B kit) → Passes D B kit t u → Valid t → Valid u
  unfolding take_interrupt
  Passes-Coloured t _ Passes.start c = c
  Passes-Coloured t _ (Passes.next {u} {v} patience available run h) c =
      pass-Coloured patience available u v h (Passes-Coloured t u run c)
  Passes-Coloured t _ (Passes.press {u} run) c = Passes-Coloured t u run c

  -- If the signals of the sketch keep the colours valid, then after `setup` and any number of
  -- passes that come to their end, and of interrupts between them, what both LEDs show, will show
  -- and blink in is one of the four colours.
  pub setup-AreColoured :
      (blank : Led) (w : World) (eeprom : B.State) (t : Sketch D B kit)
      → Passes D B kit (setup D B kit blank w eeprom) t
      → AreColoured t.lights
  unfolding setup
  setup-AreColoured blank w eeprom t run =
      Passes-Coloured (setup D B kit blank w eeprom) t run (set_up_board-silent blank (greet w)).0
