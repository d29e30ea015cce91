-- ===== src/Tracker/Valid/Pass.antt =====
-- A pass of the loop keeps the invariant.
use mathlib.Core.Path.{sym, subst}
use speed_feed.Common.{
  sym, ℕ, ◌≡◌, refl, Bool, true, false, Option, none, some, arith, if◌then◌else◌,
}
use speed_feed.Double.{Double}
use speed_feed.Eeprom.{Bus}
use speed_feed.Receiver.{Receiver, read, last_nmea}
use speed_feed.Receiver.Bounds.{IsInBounds, receive-IsInBounds}
use speed_feed.Nmea.{Gps, parse}
use speed_feed.Tracker.State.{Kit, done, >>=-eq-done, ◌>>=◌, lift, done-injective}
use speed_feed.Tracker.Startup.{Sketch}
use speed_feed.Tracker.Loop.{
  echo_sentence, heard, by_state, by_fix, push_track, end_pass, took, use_fix, after_parse,
  second_half, on_sentence, pass,
}
use speed_feed.Tracker.Valid.{IsValid}
use speed_feed.Tracker.Valid.First.{by_state-IsValid}
use speed_feed.Tracker.Valid.Second.{by_fix-IsValid, push_track-IsValid}

pub read-IsInBounds :
    (available : Option ℕ) (r : Receiver) → IsInBounds r → IsInBounds (read available r).1
unfolding read
read-IsInBounds none r v = ground arith
read-IsInBounds (some c) r v = ground (arith, receive-IsInBounds c r v)

module _ (D : Double) (B : Bus) (kit : Kit D.Real) where
  open D use {Real}

  -- What holds between two passes: the two state variables agree as well.
  pub record IsSettled (t : Sketch D B kit) : Type 0 where
    pub valid : IsValid D B kit t
    pub agree : t.current_state ≡ t.next_state

  end_pass-IsSettled : (t : Sketch D B kit) → IsValid D B kit t → IsSettled (end_pass D B kit t)
  unfolding end_pass
  end_pass-IsSettled t v = record { valid = ground arith; agree = refl }

  took-IsValid :
      (gps : Gps Real) (t : Sketch D B kit)
      → IsValid D B kit t
      → IsValid D B kit (took D B kit gps t)
  unfolding took last_nmea
  took-IsValid gps t v = ground arith

  fix_part-IsSettled :
      (fix : Bool) (t u : Sketch D B kit)
      → ((if fix then by_fix D B kit t.current_state (push_track D B kit t) else done t) >>= λ t'.
          done (end_pass D B kit t'))
        ≡ done u
      → IsValid D B kit t
      → IsSettled u
  fix_part-IsSettled true t u h v =
      let pushed = push_track-IsValid D B kit t v in
      let (t', e, h') = >>=-eq-done (by_fix D B kit t.current_state (push_track D B kit t)) _ h in
      subst IsSettled (done-injective h')
        (end_pass-IsSettled t' (by_fix-IsValid D B kit t.current_state _ t' e pushed.0))
  fix_part-IsSettled false t u h v = subst IsSettled (done-injective h) (end_pass-IsSettled t v)

  heard-IsValid :
      (gps : Gps Real) (t : Sketch D B kit)
      → IsValid D B kit t
      → IsValid D B kit (heard D B kit gps t)
  unfolding took last_nmea echo_sentence
  heard-IsValid gps t v = ground arith

  after_parse-IsSettled :
      (t u : Sketch D B kit) (parsed : Bool) (gps : Gps Real)
      → after_parse D B kit t (parsed, gps) ≡ done u
      → IsValid D B kit t
      → IsSettled u
  unfolding after_parse use_fix took echo_sentence
  after_parse-IsSettled t u true gps h v =
      fix_part-IsSettled gps.fix (heard D B kit gps t) u h (heard-IsValid gps t v)
  after_parse-IsSettled t u false gps h v =
      subst IsSettled (done-injective h) (record { valid = took-IsValid gps t v; agree = refl })

  on_sentence-IsSettled :
      (t u : Sketch D B kit) → on_sentence D B kit t ≡ done u → IsValid D B kit t → IsSettled u
  unfolding on_sentence
  on_sentence-IsSettled t u h v =
      let (r, e, h') = >>=-eq-done (lift (parse D (last_nmea t.receiver).0 t.gps)) _ h in
      after_parse-IsSettled t u r.0 r.1 h' v

  second_half-IsSettled :
      (t u : Sketch D B kit) → second_half D B kit t ≡ done u → IsValid D B kit t → IsSettled u
  unfolding second_half
  second_half-IsSettled t u h v = ground (arith, on_sentence-IsSettled t u, end_pass-IsSettled t v)

  -- If the invariant holds and the two state variables agree, then the same is true after a pass
  -- of `loop` that comes to its end, whatever character, time and button level it meets.
  pub pass-IsSettled :
      (patience : ℕ) (available : Option ℕ) (t u : Sketch D B kit)
      → pass D B kit patience available t ≡ done u
      → IsSettled t
      → IsSettled u
  unfolding pass
  pass-IsSettled patience available t u h v =
      let t' = record t { receiver = (read available t.receiver).1 } in
      let bounds = read-IsInBounds available t.receiver v.valid.bounds in
      let v' : IsValid D B kit t' = ground (arith, v.valid, bounds) in
      let (t'', e, h') = >>=-eq-done (by_state D B kit patience t.current_state t') _ h in
      second_half-IsSettled t'' u h'
        (by_state-IsValid D B kit patience t.current_state t' t'' e (sym v.agree) v')
