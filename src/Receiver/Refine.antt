-- ===== src/Receiver/Refine.antt =====
-- The two line buffers of SPK_GPS.cpp implement plain lines.
use speed_feed.Receiver.Bounds.{IsInBounds, receive-IsInBounds}
use speed_feed.Receiver.Lines.{
  take-write_at, current-put, buffer-put, receive-newline_eq, receive-carriage_return_eq,
  length-current, receive-dollar,
}
use speed_feed.Receiver.Plain.{
  Lines, hear, hear_all, view, lines_eq, c_string-write_at_zero, take-write_at_ge, length-take,
}
use speed_feed.Common.{
  ltb, ◌==◌, if◌then◌else◌, Bool-cases, length, take, ℕ, suc, ◌+◌, ◌<◌, ◌≡◌, refl, ap, ◌∙◌, ◌≢◌,
  inl, inr, false, not, List, [], ◌∷◌, ◌++◌, arith,
}
use speed_feed.Receiver.{
  Receiver, current, last, put, write_at, init_receiver, newline, carriage_return, receive,
  c_string, last_nmea, feed,
}

-- One buffer is being filled, and the other holds the last line.
pub record IsTurning (r : Receiver) : Type 0 where
  pub bounds : IsInBounds r
  pub turns : r.last_first ≡ not r.on_first

last-put : (i c : ℕ) (r : Receiver) → r.last_first ≡ not r.on_first → last (put i c r) ≡ last r
unfolding put
last-put i c r t = ground arith

turns-put :
    (i c : ℕ) (r : Receiver)
    → r.last_first ≡ not r.on_first
    → (put i c r).last_first ≡ not (put i c r).on_first
unfolding put
turns-put i c r t = ground arith

receive-IsTurning : (c : ℕ) (r : Receiver) → IsTurning r → IsTurning (receive c r)
unfolding receive put
receive-IsTurning c r v = record {
  bounds = receive-IsInBounds c r v.bounds;
  turns = ground (arith, v.turns);
}

receive-other_eq :
    (c : ℕ) (r : Receiver)
    → c < 256
    → c ≢ b'$'
    → c ≢ newline
    → c ≢ carriage_return
    → IsInBounds r
    → receive c r
      ≡ record (put r.lineidx c r) { lineidx = if ltb r.lineidx 119 then r.lineidx + 1 else 119 }
unfolding receive
receive-other_eq c r s d n t v = ground arith

-- The characters of the four kinds.
view-dollar : (r : Receiver) → IsTurning r → view (receive b'$' r) ≡ hear b'$' (view r)
unfolding hear receive
view-dollar r v =
    let start = record (put r.lineidx 0 r) { lineidx = 0 } in
    let kept = receive-dollar r v.bounds in
    let same = last-put 0 b'$' start (turns-put r.lineidx 0 r v.turns) in
    ground (arith, kept.prefix, kept.index, same, last-put r.lineidx 0 r v.turns)

view-newline : (r : Receiver) → IsTurning r → view (receive newline r) ≡ hear newline (view r)
unfolding hear
view-newline r v = rw (receive-newline_eq r) (
    ground (
      arith,
      buffer-put r.lineidx 0 r,
      c_string-write_at_zero (current r) r.lineidx
          (omega (arith, v.bounds, length-current r v.bounds)),
    ))

view-carriage_return :
    (r : Receiver) → IsTurning r → view (receive carriage_return r) ≡ hear carriage_return (view r)
unfolding hear
view-carriage_return r v = rw (receive-carriage_return_eq r v.bounds)

hear-other_eq :
    (c : ℕ) (l : Lines)
    → c ≢ b'$'
    → c ≢ newline
    → c ≢ carriage_return
    → hear c l ≡ record l {
      partial = if ltb (length l.partial) 119 then l.partial ++ (c ∷ []) else l.partial;
    }
unfolding hear
hear-other_eq c l d n t = ground arith

recvdflag-put : (i c : ℕ) (r : Receiver) → (put i c r).recvdflag ≡ r.recvdflag
unfolding put
recvdflag-put i c r = ground arith

partial-put :
    (c : ℕ) (r : Receiver)
    → IsInBounds r
    → take (if ltb r.lineidx 119 then r.lineidx + 1 else 119) (write_at (current r) r.lineidx c) ≡ (
        if ltb (length (take r.lineidx (current r))) 119
        then take r.lineidx (current r) ++ (c ∷ [])
        else take r.lineidx (current r))
partial-put c r v =
    let size = length-current r v in
    rw (length-take r.lineidx (current r) (omega (arith, v, size)))
      (elim (Bool-cases (ltb r.lineidx 119)) [
        | inl room ↦
            let e : r.lineidx + 1 ≡ suc r.lineidx = omega arith in
            rw (room, e) (take-write_at (current r) r.lineidx c (omega (arith, v, size)))
        | inr full ↦
            let e : r.lineidx ≡ 119 = ground (arith, v) in
            rw (full, e)
              (take-write_at_ge (current r) 119 119 c (omega arith) (omega (arith, size)))
      ])

view-other :
    (c : ℕ) (r : Receiver)
    → c < 256
    → c ≢ b'$'
    → c ≢ newline
    → c ≢ carriage_return
    → IsTurning r
    → view (receive c r) ≡ hear c (view r)
view-other c r s d n t v =
    rw (receive-other_eq c r s d n t v.bounds, hear-other_eq c (view r) d n t)
      (lines_eq
        (ap (take (if ltb r.lineidx 119 then r.lineidx + 1 else 119)) (current-put r.lineidx c r)
          ∙ partial-put c r v.bounds)
        (ap c_string (last-put r.lineidx c r v.turns)) (recvdflag-put r.lineidx c r))

view-receive : (c : ℕ) (r : Receiver) → c < 256 → IsTurning r → view (receive c r) ≡ hear c (view r)
view-receive c r s v = elim (Bool-cases (c == b'$')) [
  | inl dollar ↦ let e : c ≡ b'$' = ground arith in rw e (view-dollar r v)
  | inr n1 ↦ elim (Bool-cases (c == newline)) [
    | inl end ↦ let e : c ≡ newline = ground arith in rw e (view-newline r v)
    | inr n2 ↦ elim (Bool-cases (c == carriage_return)) [
      | inl cr ↦ let e : c ≡ carriage_return = ground arith in rw e (view-carriage_return r v)
      | inr n3 ↦ view-other c r s (λ e. ground arith) (λ e. ground arith) (λ e. ground arith) v
    ]
  ]
]

abbrev pub AllChars : List ℕ → Type 0
AllChars [] = Unit
AllChars (c ∷ cs) = (c < 256) × AllChars cs

feed-refines :
    (cs : List ℕ) (r : Receiver)
    → AllChars cs
    → IsTurning r
    → (view (feed cs r) ≡ hear_all cs (view r)) × IsTurning (feed cs r)
unfolding feed hear_all
feed-refines [] r s v = (refl, v)
feed-refines (c ∷ cs) r s v =
    let ih = feed-refines cs (receive c r) s.1 (receive-IsTurning c r v) in
    (ih.0 ∙ ap (hear_all cs) (view-receive c r s.0 v), ih.1)

init_receiver-IsTurning : IsTurning init_receiver
unfolding init_receiver
init_receiver-IsTurning = record {
  bounds = record { size1 = refl; size2 = refl; index = omega arith };
  turns = refl;
}

-- The two arrays with their index and pointers implement the plain lines: from `common_init` on,
-- whatever characters come, the last line that `lastNMEA` returns, and whether
-- `newNMEAreceived` announces it, are those of the plain lines that have heard the same
-- characters; and after `lastNMEA` it is no longer news.
pub feed_refines :
    (cs : List ℕ)
    → AllChars cs
    → let r = feed cs init_receiver in
      let l = hear_all cs (record { partial = []; whole = []; news = false }) in
      ((last_nmea r).0 ≡ l.whole)
      × (r.recvdflag ≡ l.news)
      × (view (last_nmea r).1 ≡ record l { news = false })
unfolding last_nmea init_receiver
feed_refines cs s =
    let f = feed-refines cs init_receiver s init_receiver-IsTurning in ground (arith, f.0)
