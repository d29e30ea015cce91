-- ===== src/Examples/Numbers.antt =====
-- Two concrete arithmetics for the parameter `Double`: whole numbers of either sign, to compute
-- with, and numbers below 256 with their object of eight bytes.
use speed_feed.Common.{
  ℕ, zero, suc, ◌+◌, ◌-◌, ◌*◌, ◌/◌, ◌%◌, ◌≡◌, Bool, true, false, not, ◌&&◌, ◌||◌, List, [], ◌∷◌,
  arith, leb, ltb, ◌==◌, if◌then◌else◌, neg32, word_mod,
}
use speed_feed.Double.{Double}
use speed_feed.Eeprom.Gates.{IsLayout}

-- a sign, true for minus, and a size
pub record Whole : Type 0 where
  pub minus : Bool
  pub size : ℕ

abbrev pub whole : ℕ → Whole
whole n = record { minus = false; size = n }

abbrev opposite : Whole → Whole
opposite a = record { minus = not a.minus; size = a.size }

abbrev sum_of : (minus minus' : Bool) → (a b : ℕ) → Whole
sum_of false false a b = whole (a + b)
sum_of true true a b = record { minus = true; size = a + b }
sum_of false true a b = if leb b a then whole (a - b) else record { minus = true; size = b - a }
sum_of true false a b = if leb a b then whole (b - a) else record { minus = true; size = a - b }

abbrev plus : Whole → Whole → Whole
plus a b = sum_of a.minus b.minus a.size b.size

abbrev times : Whole → Whole → Whole
times a b = record {
  minus = (a.minus && not b.minus) || (not a.minus && b.minus);
  size = a.size * b.size;
}

abbrev over : Whole → Whole → Whole
over a b = record {
  minus = (a.minus && not b.minus) || (not a.minus && b.minus);
  size = a.size / b.size;
}

abbrev is_minus : Whole → Bool
is_minus a = a.minus && not (a.size == 0)

-- the least number whose square is not below `n`, up to `fuel`
abbrev root_from : ℕ → ℕ → ℕ → ℕ
root_from n zero k = k
root_from n (suc fuel) k = let rest = root_from n fuel (k + 1) in if leb n (k * k) then k else rest

abbrev digits_of : ℕ → List ℕ → ℕ
digits_of n [] = n
digits_of n (c ∷ cs) =
    let rest = digits_of (n * 10 + (c - b'0')) cs in if leb b'0' c && leb c b'9' then rest else n

-- the decimal digits of `n`, at most `fuel` of them, before those of `rest`
abbrev pub decimal_from : ℕ → ℕ → List ℕ → List ℕ
decimal_from zero n rest = rest
decimal_from (suc fuel) n rest =
    let more = decimal_from fuel (n / 10) in
    let digits = (b'0' + n % 10) ∷ rest in if n / 10 == 0 then digits else more digits

-- a word, without its sign
abbrev pub decimal : ℕ → List ℕ
decimal n = decimal_from 20 n []

abbrev whole_text : Whole → List ℕ
whole_text a = if a.minus then b'-' ∷ decimal a.size else decimal a.size

abbrev hex_digit : ℕ → ℕ
hex_digit n = if ltb n 10 then b'0' + n else b'A' + (n - 10)

abbrev pub whole_numbers : Double
whole_numbers = record {
  Real = Whole;
  literal = whole;
  add = plus;
  sub = λ a b. plus a (opposite b);
  mul = times;
  div = over;
  neg = opposite;
  sqrt = λ a. whole (root_from a.size 100 0);
  floor = λ a. a;
  lt = λ a b. is_minus (plus a (opposite b));
  le = λ a b. not (is_minus (plus b (opposite a)));
  eq = λ a b. (plus a (opposite b)).size == 0;
  is_nan = λ a. false;
  to_long = λ a. if a.minus then neg32 a.size else a.size % word_mod;
  of_long = λ n. if ltb n 0x80000000 then whole n else record { minus = true; size = word_mod - n };
  to_float = λ a. a;
  to_ulong = λ a. a.size % word_mod;
  atof = λ cs. whole (digits_of 0 cs);
  bytes = λ a. a.size ∷ [];
  of_bytes = λ bs. whole 0;
  show8 = whole_text;
  show_long = decimal;
  show_hex = λ n. hex_digit (n / 16) ∷ hex_digit (n % 16) ∷ [];
}

-- Four bits in a byte each, and four bytes more.
pub data Nibble : Type 0 where
  nibble : Bool → Bool → Bool → Bool → Nibble

abbrev bit : Bool → ℕ
bit b = if b then 1 else 0

abbrev bytes_of : Nibble → List ℕ
bytes_of (nibble a b c d) = bit a ∷ bit b ∷ bit c ∷ bit d ∷ 0 ∷ 0 ∷ 0 ∷ 0 ∷ []

abbrev pub size_of : Nibble → ℕ
size_of (nibble a b c d) = bit a + 2 * bit b + 4 * bit c + 8 * bit d

abbrev nibble_of : List ℕ → Nibble
nibble_of (a ∷ (b ∷ (c ∷ (d ∷ rest)))) = nibble (a == 1) (b == 1) (c == 1) (d == 1)
nibble_of _ = nibble false false false false

abbrev pub nibbles : Double
nibbles = record {
  Real = Nibble;
  literal = λ n. nibble (n % 2 == 1) (n / 2 % 2 == 1) (n / 4 % 2 == 1) (n / 8 % 2 == 1);
  add = λ a b. a;
  sub = λ a b. a;
  mul = λ a b. a;
  div = λ a b. a;
  neg = λ a. a;
  sqrt = λ a. a;
  floor = λ a. a;
  lt = λ a b. false;
  le = λ a b. true;
  eq = λ a b. false;
  is_nan = λ a. false;
  to_long = λ a. 0;
  of_long = λ n. nibble false false false false;
  to_float = λ a. a;
  to_ulong = λ a. 0;
  atof = λ cs. nibble false false false false;
  bytes = bytes_of;
  of_bytes = nibble_of;
  show8 = λ a. decimal (size_of a);
  show_long = decimal;
  show_hex = λ n. hex_digit (n / 16) ∷ hex_digit (n % 16) ∷ [];
}

bytes_of-nibble_of : (x : Nibble) → nibble_of (bytes_of x) ≡ x
bytes_of-nibble_of (nibble a b c d) = ground arith

pub nibbles-IsLayout : IsLayout nibbles
nibbles-IsLayout = record {
  size = λ x. ground arith;
  range = λ x. ground arith;
  back = bytes_of-nibble_of;
}
