-- ===== src/Logger/Log.antt =====
-- What GPS_logger.ino writes to its file over a run.
use speed_feed.Logger.Frame.{log_by_state-IsSame}
use speed_feed.Logger.Loop.{
  log_by_state, write_log, log_end, log_parsed, log_second, log_pass, log_interrupt,
}
use speed_feed.Logger.{Card, LogSketch}
use speed_feed.Common.{
  ℕ, ◌%◌, ◌<◌, ◌≤◌, ◌≡◌, refl, ap, ◌∙◌, sym, Bool, true, false, Option, none, some, List, [], ◌∷◌,
  ◌++◌, arith, if◌then◌else◌, length, take-length,
}
use mathlib.Core.List.{append-nil, append_assoc}
use speed_feed.Double.{Double}
use speed_feed.Receiver.{Receiver, read, last_nmea, c_string}
use speed_feed.Receiver.Bounds.{IsInBounds}
use speed_feed.Nmea.{Gps, parse}
use speed_feed.Tracker.State.{done, >>=-eq-done, ◌>>=◌, lift, lift-eq-done}
use speed_feed.Tracker.Valid.Pass.{read-IsInBounds}

-- What the SD library says of a card with room: a write takes all bytes and appends them to the
-- file. The size of the file in its directory is what it was until `flush` writes it: what lies
-- below that size is safe from a loss of power.
pub record TakesAll (C : Card) : Type 0 where
  pub content : C.State → List ℕ
  pub safe : C.State → List ℕ
  pub taken-write : (bs : List ℕ) (s : C.State) → (C.write bs s).0 ≡ length bs
  pub content-write : (bs : List ℕ) (s : C.State) → content (C.write bs s).1 ≡ content s ++ bs
  pub safe-write : (bs : List ℕ) (s : C.State) → safe (C.write bs s).1 ≡ safe s
  pub safe-flush : (s : C.State) → safe (C.flush s) ≡ content s

length-c_string : (buf : List ℕ) → length (c_string buf) ≤ length buf
length-c_string [] = omega arith
length-c_string (c ∷ buf) = ground (arith, length-c_string buf)

length-last_nmea : (r : Receiver) → IsInBounds r → length (last_nmea r).0 ≤ 120
unfolding last_nmea
length-last_nmea r v = ground (arith, length-c_string r.line1, length-c_string r.line2)

last_nmea-IsInBounds : (r : Receiver) → IsInBounds r → IsInBounds (last_nmea r).1
unfolding last_nmea
last_nmea-IsInBounds r v = ground arith

module _ (D : Double) (C : Card) (T : TakesAll C) where
  open D use {Real}
  open C use {State, write}
  open T use {content, safe, taken-write, content-write, safe-write}

  -- the text that a pass writes: a sentence that has come and that `parse` accepts
  abbrev pub accepted : List ℕ → Option (Bool × Gps Real) → List ℕ
  accepted text (some (true, g)) = text
  accepted text (some (false, g)) = []
  accepted text none = []

  abbrev pub logged : Option ℕ → LogSketch D C → List ℕ
  logged available t =
      let r = (read available t.receiver).1 in
      if r.recvdflag then accepted (last_nmea r).0 (parse D (last_nmea r).0 t.gps) else []

  write_log-content :
      (text : List ℕ) (s : State)
      → length text < 256
      → (content (write_log D C text s) ≡ content s ++ text)
        × (safe (write_log D C text s) ≡ safe s)
  unfolding write_log
  write_log-content text s h =
      let n : length text % 256 ≡ length text = omega arith in
      let e = taken-write text s in
      rw (n, take-length text) (ground (arith, e, content-write text s, safe-write text s))

  -- `text` is added to the file, and nothing becomes safe.
  record Adds (text : List ℕ) (t u : LogSketch D C) : Type 0 where
    adds : content u.card ≡ content t.card ++ text
    same_safe : safe u.card ≡ safe t.card
    bounds : IsInBounds u.receiver

  log_parsed-Adds :
      (t u : LogSketch D C) (parsed : Bool) (gps : Gps Real)
      → log_parsed D C t (parsed, gps) ≡ done u
      → IsInBounds t.receiver
      → Adds (accepted (last_nmea t.receiver).0 (some (parsed, gps))) t u
  unfolding log_parsed log_end
  log_parsed-Adds t u true gps h v =
      let text = (last_nmea t.receiver).0 in
      let size : length text < 256 = omega (arith, length-last_nmea t.receiver v) in
      let w = write_log-content text t.card size in
      let b = last_nmea-IsInBounds t.receiver v in ground (arith, w, b)
  log_parsed-Adds t u false gps h v =
      let b = last_nmea-IsInBounds t.receiver v in ground (arith, append-nil (content t.card), b)

  log_second-Adds :
      (came : Bool) (t u : LogSketch D C)
      → (if came
          then lift (parse D (last_nmea t.receiver).0 t.gps) >>= log_parsed D C t
          else done (log_end D C t))
        ≡ done u
      → IsInBounds t.receiver
      → Adds
          (if came
            then accepted (last_nmea t.receiver).0 (parse D (last_nmea t.receiver).0 t.gps)
            else [])
          t
          u
  unfolding log_end
  log_second-Adds true t u h v =
      let text = (last_nmea t.receiver).0 in
      let (r, e, h') = >>=-eq-done (lift (parse D text t.gps)) _ h in
      rw (lift-eq-done (parse D text t.gps) e) (log_parsed-Adds t u r.0 r.1 h' v)
  log_second-Adds false t u h v = ground (arith, append-nil (content t.card))

  log_pass-Adds :
      (patience : ℕ) (available : Option ℕ) (t u : LogSketch D C)
      → log_pass D C patience available t ≡ done u
      → IsInBounds t.receiver
      → Adds (logged available t) t u
  unfolding log_pass log_second
  log_pass-Adds patience available t u h v =
      let t' = record t { receiver = (read available t.receiver).1 } in
      let (w, e, h') = >>=-eq-done (log_by_state D C patience t.current_state t') _ h in
      let same = log_by_state-IsSame D C patience t.current_state t' w e in
      let b = read-IsInBounds available t.receiver v in
      let s = log_second-Adds w.receiver.recvdflag w u h' (rw same.same_receiver b) in
      ground (arith, same, s)

  -- Passes one after the other, and interrupts between them, with the texts that they write.
  pub data Logs (t : LogSketch D C) : LogSketch D C → List ℕ → Type 0 where
    start : Logs t t []
    next :
        {u v : LogSketch D C} {log : List ℕ} (patience : ℕ) (available : Option ℕ)
        → Logs t u log
        → log_pass D C patience available u ≡ done v
        → Logs t v (log ++ logged available u)
    press : {u : LogSketch D C} {log : List ℕ} → Logs t u log → Logs t (log_interrupt D C u) log

  Logs-Adds :
      (t u : LogSketch D C) (log : List ℕ) → Logs t u log → IsInBounds t.receiver → Adds log t u
  unfolding log_interrupt
  Logs-Adds t u log Logs.start v = record {
    adds = sym (append-nil (content t.card));
    same_safe = refl;
    bounds = v;
  }
  Logs-Adds t u log (Logs.press {u = w} run) v =
      let a = Logs-Adds t w log run v in
      record { adds = a.adds; same_safe = a.same_safe; bounds = a.bounds }
  Logs-Adds t u log (Logs.next {u = w} {log = before} patience available run h) v =
      let a = Logs-Adds t w before run v in
      let b = log_pass-Adds patience available w u h a.bounds in
      record {
        adds =
            b.adds
            ∙ ap (λ x. x ++ logged available w) a.adds
            ∙ append_assoc (content t.card) before (logged available w);
        same_safe = b.same_safe ∙ a.same_safe;
        bounds = b.bounds;
      }

  -- On a card with room, from line buffers in bounds, over any number of passes of `loop` that
  -- come to their end and of interrupts between them: the file holds what it held, followed by
  -- each sentence that came and that `parse` accepts, once and in order; and what is safe from a
  -- loss of power is what it was before.
  pub Logs-content :
      (t u : LogSketch D C) (log : List ℕ)
      → Logs t u log
      → IsInBounds t.receiver
      → (content u.card ≡ content t.card ++ log) × (safe u.card ≡ safe t.card)
  Logs-content t u log run v = let a = Logs-Adds t u log run v in (a.adds, a.same_safe)
