-- ===== src/Examples/Wire.antt =====
-- Sentences of the GPS module, and the theorems on the receiver and the parser at work on them.
use speed_feed.Common.{ℕ, ◌≡◌, ◌≢◌, true, false, refl, none, some, List, [], ◌∷◌, arith}
use speed_feed.Receiver.{Receiver, zeros, feed, last_nmea}
use speed_feed.Receiver.Bounds.{IsInBounds, feed-IsInBounds}
use speed_feed.Receiver.Lines.{on_wire, last_nmea-feed}
use speed_feed.Sentence.{parse_hex, xor_all, checksum_ok, holds, gpgga, gprmc, next_field}
use speed_feed.Sentence.Checksum.{
  whole_line, checksum_ok-whole_line, sentence, checksum_ok-sentence,
}
use speed_feed.Nmea.{Gps, parse, parse_rmc, angle_of}
use speed_feed.Nmea.Fix.{fix_after, status, parse-fix}
use speed_feed.Nmea.Defined.{parse-defined}
use speed_feed.Examples.Numbers.{Whole, whole, whole_numbers}

-- the receiver after `common_init`
abbrev pub receiver : Receiver
receiver = record {
  line1 = zeros 120;
  line2 = zeros 120;
  lineidx = 0;
  on_first = true;
  last_first = false;
  recvdflag = false;
  paused = false;
}

pub receiver-IsInBounds : IsInBounds receiver
receiver-IsInBounds = record { size1 = refl; size2 = refl; index = omega arith }

-- GPRMC,1,A,4000,N,8000,E,50,9,010113,
abbrev pub rmc_fields : List ℕ
rmc_fields =
    b'G' ∷ b'P' ∷ b'R' ∷ b'M' ∷ b'C' ∷ b',' ∷ b'1' ∷ b',' ∷ b'A' ∷ b',' ∷ b'4' ∷ b'0' ∷ b'0' ∷ b'0'
    ∷ b',' ∷ b'N' ∷ b',' ∷ b'8' ∷ b'0' ∷ b'0' ∷ b'0' ∷ b',' ∷ b'E' ∷ b',' ∷ b'5' ∷ b'0' ∷ b','
    ∷ b'9' ∷ b',' ∷ b'0' ∷ b'1' ∷ b'0' ∷ b'1' ∷ b'1' ∷ b'3' ∷ b',' ∷ []

-- the sentence with two digits that are not its checksum
abbrev pub rmc : List ℕ
rmc = sentence rmc_fields b'0' b'0'

abbrev pub gps : Gps Whole
gps = record {
  year = 0;
  month = 0;
  day = 0;
  milliseconds = 0;
  geoidheight = whole 0;
  altitude = whole 0;
  latitude = whole 0;
  longitude = whole 0;
  lat_old = whole 0;
  long_old = whole 0;
  speed = whole 0;
  angle = whole 0;
  hdop = whole 0;
  lat = 0;
  lon = 0;
  fix = false;
  fixquality = 0;
  satellites = 0;
}

feed-IsInBounds_example : IsInBounds (feed (b'$' ∷ b'G' ∷ 13 ∷ 10 ∷ b'P' ∷ []) receiver)
feed-IsInBounds_example =
    feed-IsInBounds (b'$' ∷ b'G' ∷ 13 ∷ 10 ∷ b'P' ∷ []) receiver receiver-IsInBounds

last_nmea-feed_example :
    let r = feed (on_wire (b'G' ∷ b'P' ∷ b',' ∷ b'1' ∷ [])) receiver in
    (r.recvdflag ≡ true)
    × ((last_nmea r).0 ≡ b'$' ∷ b'G' ∷ b'P' ∷ b',' ∷ b'1' ∷ [])
    × ((last_nmea r).1.recvdflag ≡ false)
last_nmea-feed_example =
    last_nmea-feed (b'G' ∷ b'P' ∷ b',' ∷ b'1' ∷ []) receiver (ground arith) (omega arith)
      receiver-IsInBounds

checksum_ok-sentence_example : checksum_ok rmc ≡ some true
checksum_ok-sentence_example = checksum_ok-sentence rmc_fields b'0' b'0' (λ h. ground arith)

parse-defined_example : parse whole_numbers rmc gps ≢ none
parse-defined_example =
    parse-defined whole_numbers rmc gps (rw checksum_ok-sentence_example (λ h. cc))
      (λ h. ground arith) (λ h k. ground arith)

-- what the sentence makes of the members
abbrev pub with_rmc : Gps Whole
with_rmc = record gps {
  year = 13;
  month = 1;
  day = 1;
  milliseconds = 1000;
  latitude = whole 14400000;
  longitude = whole 28800000;
  speed = whole 50;
  angle = whole 9;
  lat = b'N';
  lon = b'E';
  fix = true;
}

pub parse-rmc : parse whole_numbers rmc gps ≡ some (true, with_rmc)
unfolding parse parse_rmc checksum_ok next_field angle_of
parse-rmc = refl

parse-fix_example :
    (holds gpgga rmc ≡ false → with_rmc.fixquality ≡ gps.fixquality)
    × (holds gprmc rmc ≡ false → with_rmc.fix ≡ gps.fix)
    × (holds gpgga rmc ≡ true → with_rmc.fix ≡ gps.fix)
    × ((c : ℕ)
        → checksum_ok rmc ≡ some true
        → holds gpgga rmc ≡ false
        → holds gprmc rmc ≡ true
        → status rmc ≡ some c
        → with_rmc.fix ≡ fix_after gps.fix c)
parse-fix_example = parse-fix whole_numbers rmc gps with_rmc true parse-rmc

-- $A*41 with its carriage return: 0x41 is the character A.
checksum_ok-whole_line_example : checksum_ok (whole_line (b'A' ∷ []) b'4' b'1') ≡ some true
unfolding parse_hex xor_all
checksum_ok-whole_line_example = checksum_ok-whole_line (b'A' ∷ []) b'4' b'1'
