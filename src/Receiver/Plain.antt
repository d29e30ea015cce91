-- ===== src/Receiver/Plain.antt =====
-- What the two line buffers of SPK_GPS.cpp are for: a line that is being read, and the last whole
use speed_feed.Common.{
  ltb, ◌==◌, if◌then◌else◌, length, take, ℕ, zero, suc, ◌≤◌, ◌<◌, ◌≡◌, refl, ap, Bool, true, List,
  [], ◌∷◌, ◌++◌, arith,
}
use speed_feed.Receiver.{Receiver, current, last, newline, carriage_return, c_string, write_at}

-- line.

-- The characters read of the present line, the last whole line, and whether it is news.
pub record Lines : Type 0 where
  pub partial : List ℕ
  pub whole : List ℕ
  pub news : Bool

-- A dollar sign starts the line anew, a newline ends it, a carriage return is dropped, and any
-- other character is kept, unless the line has 119 of them. A line ends at its first NUL.
unfoldable pub hear : ℕ → Lines → Lines
hear c l =
    if c == b'$'
    then record l { partial = b'$' ∷ [] }
    else (if c == newline
        then record { partial = []; whole = c_string l.partial; news = true }
        else (if c == carriage_return
            then l
            else (if ltb (length l.partial) 119
                then record l { partial = l.partial ++ (c ∷ []) }
                else l)))

unfoldable pub hear_all : List ℕ → Lines → Lines
hear_all [] l = l
hear_all (c ∷ cs) l = hear_all cs (hear c l)

-- what the buffers stand for
abbrev pub view : Receiver → Lines
view r = record {
  partial = take r.lineidx (current r);
  whole = c_string (last r);
  news = r.recvdflag;
}

pub lines_eq :
    {p p' w w' : List ℕ} {n n' : Bool}
    → p ≡ p'
    → w ≡ w'
    → n ≡ n'
    → ◌≡◌ {A = Lines}
        (record { partial = p; whole = w; news = n })
        (record { partial = p'; whole = w'; news = n' })
lines_eq a b c = cc

pub c_string-write_at_zero :
    (buf : List ℕ) (n : ℕ) → n < length buf → c_string (write_at buf n 0) ≡ c_string (take n buf)
c_string-write_at_zero [] n h = absurd (omega arith)
c_string-write_at_zero (b ∷ buf) zero h = refl
c_string-write_at_zero (b ∷ buf) (suc n) h =
    ground (arith, c_string-write_at_zero buf n (omega arith))

pub take-write_at_ge :
    (buf : List ℕ) (n i c : ℕ) → n ≤ i → n ≤ length buf → take n (write_at buf i c) ≡ take n buf
take-write_at_ge buf zero i c h k = refl
take-write_at_ge [] (suc n) i c h k = absurd (omega arith)
take-write_at_ge (b ∷ buf) (suc n) zero c h k = absurd (omega arith)
take-write_at_ge (b ∷ buf) (suc n) (suc i) c h k =
    ap (λ l. b ∷ l) (take-write_at_ge buf n i c (omega arith) (omega arith))

pub length-take : (n : ℕ) (xs : List ℕ) → n ≤ length xs → length (take n xs) ≡ n
length-take zero xs h = refl
length-take (suc n) [] h = absurd (omega arith)
length-take (suc n) (x ∷ xs) h = ap suc (length-take n xs (omega arith))
