-- ===== src/Sentence.antt =====
-- The text of a sentence in libraries/SPK_GPS/SPK_GPS.cpp: `parseHex`, the checksum at the head
-- of `parse`, and the functions of the C library that take a sentence apart. A pointer into the
-- sentence is the rest of the text from there on. `none` is a call that does not return with a
-- defined result: a read outside the text, a function that ends without its `return`, or a loop
-- that never ends.
pub mod Checksum
use Prim.Native.Nat.{bit_xor}
use speed_feed.Common.{
  ℕ, ◌+◌, ◌-◌, ◌*◌, ◌%◌, Bool, true, false, ◌&&◌, ◌||◌, Option, none, some, List, [], ◌∷◌, leb, ltb,
  ◌==◌, if◌then◌else◌, ◌>>=◌, length, get_elem?, take, neg32, word_mod,
}

-- After 'F' the function ends without a `return`.
unfoldable pub parse_hex : ℕ → Option ℕ
parse_hex c =
    if ltb c b'0'
    then some 0
    else (if leb c b'9'
        then some (c - b'0')
        else (if ltb c b'A' then some 0 else (if leb c b'F' then some (c - b'A' + 10) else none)))

unfoldable pub xor_all : ℕ → List ℕ → ℕ
xor_all sum [] = sum
xor_all sum (c ∷ cs) = xor_all (bit_xor sum c) cs

abbrev pub tail : List ℕ → List ℕ
tail [] = []
tail (c ∷ cs) = cs

-- `sum` from the two hexadecimal digits, and the loop over nmea[1] .. nmea[strlen - 5]. Its counter
-- is a `uint8_t`: a bound above 255 is never reached, and the loop goes on for ever.
pub checksum_sum : List ℕ → ℕ → ℕ → Option Bool
unfolding parse_hex xor_all
checksum_sum nmea h l = do
  high ← parse_hex h
  low ← parse_hex l
  let sum = xor_all (high * 16 + low) (take (length nmea - 5) (tail nmea))
  if ltb 255 (length nmea - 4) then none else some (sum == 0)

-- Whether `parse` goes on after the checksum. For a text of less than four characters
-- nmea[strlen(nmea) - 4] lies before its start.
unfoldable pub checksum_ok : List ℕ → Option Bool
unfolding checksum_sum
checksum_ok nmea = if ltb (length nmea) 4 then none else (do
  star ← get_elem? nmea (length nmea - 4)
  h ← get_elem? nmea (length nmea - 3)
  l ← get_elem? nmea (length nmea - 2)
  if star == b'*' then checksum_sum nmea h l else some true)

-- `strstr` as a test: whether the text holds the word.
abbrev pub begins : List ℕ → List ℕ → Bool
begins [] text = true
begins (c ∷ word) [] = false
begins (c ∷ word) (t ∷ text) = c == t && begins word text

abbrev pub holds : List ℕ → List ℕ → Bool
holds word [] = begins word []
holds word (t ∷ text) = begins word (t ∷ text) || holds word text

abbrev pub gpgga : List ℕ
gpgga = b'$' ∷ b'G' ∷ b'P' ∷ b'G' ∷ b'G' ∷ b'A' ∷ []

abbrev pub gprmc : List ℕ
gprmc = b'$' ∷ b'G' ∷ b'P' ∷ b'R' ∷ b'M' ∷ b'C' ∷ []

-- `p = strchr(p, ',') + 1`; without a comma the pointer that is read next is NULL + 1.
unfoldable pub next_field : List ℕ → Option (List ℕ)
next_field [] = none
next_field (c ∷ cs) = if c == b',' then some cs else next_field cs

-- `p[0]`, the final NUL included
abbrev pub first : List ℕ → ℕ
first [] = 0
first (c ∷ cs) = c

-- a digit, and the characters that `isspace` accepts
abbrev is_digit : ℕ → Bool
is_digit c = leb b'0' c && leb c b'9'

abbrev is_space : ℕ → Bool
is_space c = c == b' ' || leb 9 c && leb c 13

digits_from : ℕ → List ℕ → ℕ
digits_from n [] = n
digits_from n (c ∷ cs) =
    let rest = digits_from (n * 10 + (c - b'0')) cs in if is_digit c then rest else n

signed_digits : List ℕ → ℕ
unfolding digits_from
signed_digits [] = 0
signed_digits (c ∷ cs) =
    if c == b'-'
    then neg32 (digits_from 0 cs % word_mod)
    else (if c == b'+' then digits_from 0 cs % word_mod else digits_from 0 (c ∷ cs) % word_mod)

-- `atoi`: spaces, a sign, digits. The result is an `int`, kept as its 32-bit pattern; a number
-- that is too large, undefined in C, wraps.
unfoldable pub atoi : List ℕ → ℕ
unfolding signed_digits
atoi [] = 0
atoi (c ∷ cs) = if is_space c then atoi cs else signed_digits (c ∷ cs)
