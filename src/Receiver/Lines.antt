-- ===== src/Receiver/Lines.antt =====
-- What the main program sees of the characters that arrive (SPK_GPS.cpp, read and lastNMEA).
use mathlib.Core.Path.{ap₂}
use mathlib.Core.List.{append_assoc, append-nil}
use speed_feed.Common.{
  ℕ, zero, suc, ◌+◌, ◌<◌, ◌≤◌, ◌≡◌, ◌≢◌, refl, ap, ◌∙◌, not, true, false, List, [], ◌∷◌, ◌++◌,
  arith, length, length-append, take, if◌then◌else◌,
}
use speed_feed.Receiver.{
  Receiver, current, last, receive, feed, put, write_at, newline, carriage_return, c_string,
  last_nmea,
}
use speed_feed.Receiver.Bounds.{IsInBounds, receive-IsInBounds, put-IsInBounds}

-- A character that `read` keeps as it is.
abbrev pub IsPlain : ℕ → Type 0
IsPlain c = (0 < c) × (c < 256) × (c ≢ b'$') × (c ≢ newline) × (c ≢ carriage_return)

abbrev pub AllPlain : List ℕ → Type 0
AllPlain [] = Unit
AllPlain (c ∷ cs) = IsPlain c × AllPlain cs

abbrev pub NonZero : List ℕ → Type 0
NonZero [] = Unit
NonZero (c ∷ cs) = (0 < c) × NonZero cs

pub take-write_at :
    (buf : List ℕ) (n c : ℕ)
    → n < length buf
    → take (suc n) (write_at buf n c) ≡ take n buf ++ (c ∷ [])
take-write_at [] n c h = absurd (omega arith)
take-write_at (b ∷ buf) zero c h = refl
take-write_at (b ∷ buf) (suc n) c h = ap (λ l. b ∷ l) (take-write_at buf n c (omega arith))

c_string-write_at :
    (buf : List ℕ) (n : ℕ)
    → n < length buf
    → NonZero (take n buf)
    → c_string (write_at buf n 0) ≡ take n buf
c_string-write_at [] n h z = absurd (omega arith)
c_string-write_at (b ∷ buf) zero h z = refl
c_string-write_at (b ∷ buf) (suc n) h z = ground (arith, c_string-write_at buf n (omega arith) z.1)

-- The buffer that is being filled begins with `done`.
pub record IsFilling (r : Receiver) (done : List ℕ) : Type 0 where
  pub bounds : IsInBounds r
  pub index : r.lineidx ≡ length done
  pub prefix : take (length done) (current r) ≡ done

pub current-put : (i c : ℕ) (r : Receiver) → current (put i c r) ≡ write_at (current r) i c
unfolding put
current-put i c r = ground arith

pub buffer-put :
    (i c : ℕ) (r : Receiver)
    → (if r.on_first then (put i c r).line1 else (put i c r).line2) ≡ write_at (current r) i c
unfolding put
buffer-put i c r = ground arith

receive-plain_eq :
    (c : ℕ) (r : Receiver)
    → IsPlain c
    → r.lineidx < 119
    → receive c r ≡ record (put r.lineidx c r) { lineidx = r.lineidx + 1 }
unfolding receive
receive-plain_eq c r p h = ground arith

pub receive-newline_eq :
    (r : Receiver)
    → receive newline r ≡ record (put r.lineidx 0 r) {
      on_first = not r.on_first;
      last_first = r.on_first;
      lineidx = 0;
      recvdflag = true;
    }
unfolding receive
receive-newline_eq r = ground arith

pub receive-carriage_return_eq : (r : Receiver) → IsInBounds r → receive carriage_return r ≡ r
unfolding receive
receive-carriage_return_eq r v = ground arith

pub length-current : (r : Receiver) → IsInBounds r → length (current r) ≡ 120
length-current r v = ground arith

restart-IsInBounds :
    (r : Receiver) → IsInBounds r → IsInBounds (record (put r.lineidx 0 r) { lineidx = 0 })
restart-IsInBounds r v = ground (arith, put-IsInBounds r.lineidx 0 r v.index v)

pub receive-dollar : (r : Receiver) → IsInBounds r → IsFilling (receive b'$' r) (b'$' ∷ [])
unfolding receive
receive-dollar r v =
    let start = record (put r.lineidx 0 r) { lineidx = 0 } in
    record {
      bounds = receive-IsInBounds b'$' r v;
      index = refl;
      prefix =
          ap (take 1) (current-put 0 b'$' start)
          ∙ take-write_at (current start) 0 b'$'
              (omega (arith, length-current start (restart-IsInBounds r v)));
    }

receive-plain :
    (r : Receiver) (done : List ℕ) (c : ℕ)
    → IsPlain c
    → length done < 119
    → IsFilling r done
    → IsFilling (receive c r) (done ++ (c ∷ []))
receive-plain r done c p h v =
    let e = receive-plain_eq c r p (omega (arith, v.index)) in
    record {
      bounds = receive-IsInBounds c r v.bounds;
      index = rw e (omega (arith, v.index, length-append done (c ∷ [])));
      prefix =
          ap₂ take {y = suc (length done)} (omega (arith, length-append done (c ∷ [])))
            (ap current e ∙ current-put r.lineidx c r ∙ ap (λ i. write_at (current r) i c) v.index)
          ∙ take-write_at (current r) (length done) c (omega (arith, length-current r v.bounds))
          ∙ ap (λ l. l ++ (c ∷ [])) v.prefix;
    }

feed-plain :
    (cs : List ℕ) (r : Receiver) (done : List ℕ)
    → AllPlain cs
    → length done + length cs ≤ 119
    → IsFilling r done
    → IsFilling (feed cs r) (done ++ cs)
unfolding feed
feed-plain [] r done p h v = rw append-nil v
feed-plain (c ∷ cs) r done p h v = rw (← append_assoc done (c ∷ []) cs) (
    feed-plain cs (receive c r) (done ++ (c ∷ [])) p.1 (omega (arith, length-append done (c ∷ [])))
      (receive-plain r done c p.0 (omega arith) v))

feed-append : (cs ds : List ℕ) (r : Receiver) → feed (cs ++ ds) r ≡ feed ds (feed cs r)
unfolding feed
feed-append [] ds r = refl
feed-append (c ∷ cs) ds r = feed-append cs ds (receive c r)

NonZero-append_plain : (cs ds : List ℕ) → NonZero cs → AllPlain ds → NonZero (cs ++ ds)
NonZero-append_plain [] [] z p = tt
NonZero-append_plain [] (d ∷ ds) z p = (p.0.0, NonZero-append_plain [] ds tt p.1)
NonZero-append_plain (c ∷ cs) ds z p = (z.0, NonZero-append_plain cs ds z.1 p)

-- What a newline makes of a line that is being filled.
receive-newline :
    (r : Receiver) (done : List ℕ)
    → NonZero done
    → length done < 120
    → IsFilling r done
    → let r' = receive newline r in
      (c_string (last r') ≡ done) × (r'.recvdflag ≡ true) × (r'.lineidx ≡ 0)
receive-newline r done z h v = rw (receive-newline_eq r) (
  ap c_string (buffer-put r.lineidx 0 r ∙ ap (λ i. write_at (current r) i 0) v.index)
      ∙ c_string-write_at (current r) (length done) (omega (arith, length-current r v.bounds))
          (rw v.prefix z)
      ∙ v.prefix,
  refl,
  refl,
)

-- A sentence as it stands on the wire: a dollar sign, plain characters, carriage return, newline.
abbrev pub on_wire : List ℕ → List ℕ
on_wire body = (b'$' ∷ body) ++ (carriage_return ∷ newline ∷ [])

-- Whatever was received before, a sentence of a dollar sign and at most 118 plain characters,
-- followed by carriage return and newline, is announced by `newNMEAreceived` and returned whole
-- by `lastNMEA`, without its line end; `lastNMEA` takes the announcement back.
pub last_nmea-feed :
    (body : List ℕ) (r : Receiver)
    → AllPlain body
    → length body ≤ 118
    → IsInBounds r
    → let r' = feed (on_wire body) r in
      (r'.recvdflag ≡ true)
      × ((last_nmea r').0 ≡ b'$' ∷ body)
      × ((last_nmea r').1.recvdflag ≡ false)
unfolding last_nmea feed
last_nmea-feed body r p h v =
    let s = feed body (receive b'$' r) in
    let f = feed-plain body (receive b'$' r) (b'$' ∷ []) p (omega arith) (receive-dollar r v) in
    let e : feed (on_wire body) r ≡ receive newline s =
      feed-append (b'$' ∷ body) (carriage_return ∷ newline ∷ []) r
      ∙ ap (receive newline) (receive-carriage_return_eq s f.bounds) in
    let n =
      receive-newline s (b'$' ∷ body) (NonZero-append_plain (b'$' ∷ []) body (omega arith) p)
        (omega arith) f in
    rw e (n.1, n.0, refl)
