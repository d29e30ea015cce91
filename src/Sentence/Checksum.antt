-- ===== src/Sentence/Checksum.antt =====
-- The checksum of a sentence as `parse` of SPK_GPS.cpp tests it.
use speed_feed.Common.{
  take, ◌*◌, ◌==◌, ltb, not, none, if◌then◌else◌, ◌>>=◌, ℕ, zero, suc, ◌+◌, ◌-◌, ◌≡◌, ◌≢◌, refl, ap,
  true, some, List, [], ◌∷◌, ◌++◌, arith, length, length-append, get_elem?,
}
use speed_feed.Sentence.{checksum_ok, checksum_sum, parse_hex, xor_all}

-- the last character of a text, or NUL
abbrev pub last_char : List ℕ → ℕ
last_char [] = 0
last_char (c ∷ []) = c
last_char (c ∷ (d ∷ cs)) = last_char (d ∷ cs)

get_elem?-append_right :
    (cs ds : List ℕ) (n i : ℕ) → n ≡ length cs + i → get_elem? (cs ++ ds) n ≡ get_elem? ds i
get_elem?-append_right [] ds n i e = ap (get_elem? ds) (omega arith)
get_elem?-append_right (c ∷ cs) ds zero i e = absurd (omega arith)
get_elem?-append_right (c ∷ cs) ds (suc n) i e = get_elem?-append_right cs ds n i (omega arith)

get_elem?-last_char :
    (c : ℕ) (cs ds : List ℕ) (n : ℕ)
    → n ≡ length cs
    → get_elem? ((c ∷ cs) ++ ds) n ≡ some (last_char (c ∷ cs))
get_elem?-last_char c [] ds zero e = refl
get_elem?-last_char c [] ds (suc n) e = absurd (omega arith)
get_elem?-last_char c (d ∷ cs) ds zero e = absurd (omega arith)
get_elem?-last_char c (d ∷ cs) ds (suc n) e = get_elem?-last_char d cs ds n (omega arith)

-- the text of a sentence as `lastNMEA` returns it: a dollar sign, the fields, a star and the two
-- digits of the checksum
abbrev pub sentence : List ℕ → ℕ → ℕ → List ℕ
sentence fields h l = (b'$' ∷ fields) ++ (b'*' ∷ h ∷ l ∷ [])

-- The line end of a sentence is not kept, so that the star stands three characters from the end,
-- and the test looks at the fourth: unless the fields end in a star themselves, the checksum of
-- no sentence is tested, and every one passes, whatever its two digits are.
pub checksum_ok-sentence :
    (fields : List ℕ) (h l : ℕ)
    → last_char (b'$' ∷ fields) ≢ b'*'
    → checksum_ok (sentence fields h l) ≡ some true
unfolding checksum_ok
checksum_ok-sentence fields h l n =
    let text = sentence fields h l in
    let tail = b'*' ∷ h ∷ l ∷ [] in
    let size : length text ≡ length fields + 4 =
      omega (arith, length-append (b'$' ∷ fields) tail) in
    ground (
      arith,
      size,
      get_elem?-last_char b'$' fields tail (length text - 4),
      get_elem?-append_right (b'$' ∷ fields) tail (length text - 3) 0,
      get_elem?-append_right (b'$' ∷ fields) tail (length text - 2) 1,
    )

-- a line with its carriage return still there
abbrev pub whole_line : List ℕ → ℕ → ℕ → List ℕ
whole_line fields h l = (b'$' ∷ fields) ++ (b'*' ∷ h ∷ l ∷ 13 ∷ [])

take-append : (cs ds : List ℕ) (n : ℕ) → n ≡ length cs → take n (cs ++ ds) ≡ cs
take-append [] ds zero e = refl
take-append [] ds (suc n) e = absurd (omega arith)
take-append (c ∷ cs) ds zero e = absurd (omega arith)
take-append (c ∷ cs) ds (suc n) e = ap (λ l. c ∷ l) (take-append cs ds n (omega arith))

-- For a line with its carriage return and fewer than 255 characters between the dollar sign and
-- the star the test is the right one: it passes exactly if the two hexadecimal digits and all
-- these characters have an exclusive or of zero. With 255 of them or more it has no result, since
-- its loop never ends, and none with a digit on which `parseHex` ends without a `return`.
pub checksum_ok-whole_line :
    (fields : List ℕ) (h l : ℕ)
    → checksum_ok (whole_line fields h l) ≡ (
        parse_hex h >>= λ high. parse_hex l >>= λ low.
        (if ltb (length fields) 255 then some (xor_all (high * 16 + low) fields == 0) else none))
unfolding checksum_ok checksum_sum
checksum_ok-whole_line fields h l =
    let text = whole_line fields h l in
    let end = b'*' ∷ h ∷ l ∷ 13 ∷ [] in
    let size : length text ≡ length fields + 5 = omega (arith, length-append (b'$' ∷ fields) end) in
    let at = λ (n i : ℕ). get_elem?-append_right (b'$' ∷ fields) end n i in
    let tests : ltb 255 (length text - 4) ≡ not (ltb (length fields) 255) = ground (arith, size) in
    let body = take-append fields end (length text - 5) (omega (arith, size)) in
    rw
      (
        at (length text - 4) 0 (omega (arith, size)),
        at (length text - 3) 1 (omega (arith, size)),
        at (length text - 2) 2 (omega (arith, size)),
        body,
      )
      (ground (arith, size, tests))
