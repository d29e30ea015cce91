-- ===== src/Nmea.antt =====
-- SPK_GPS::parse of libraries/SPK_GPS/SPK_GPS.cpp: what the two kinds of sentence that it reads,
-- GGA and RMC, write into the data members. `none` is undefined behaviour, as in Sentence.
pub mod Fix
pub mod Defined
use speed_feed.Common.{
  ℕ, ◌/◌, ◌%◌, Bool, true, false, ◌||◌, Option, none, some, List, ◌==◌, if◌then◌else◌, ◌>>=◌,
}
use speed_feed.Double.{Double}
use speed_feed.Sentence.{checksum_ok, holds, gpgga, gprmc, next_field, first, atoi}

-- The data members of class SPK_GPS that a sentence fills.
pub record Gps (R : Type 0) : Type 0 where
  pub year : ℕ
  pub month : ℕ
  pub day : ℕ
  pub milliseconds : ℕ
  pub geoidheight : R
  pub altitude : R
  pub latitude : R
  pub longitude : R
  pub lat_old : R
  pub long_old : R
  pub speed : R
  pub angle : R
  pub hdop : R
  pub lat : ℕ
  pub lon : ℕ
  pub fix : Bool
  pub fixquality : ℕ
  pub satellites : ℕ

-- The data members after `common_init`; `lat_old` and `long_old` are zero as in every object
-- that is not on the stack.
unfoldable pub init_gps : (D : Double) → Gps D.Real
init_gps D = record {
  year = 0;
  month = 0;
  day = 0;
  milliseconds = 0;
  geoidheight = D.literal 0;
  altitude = D.literal 0;
  latitude = D.literal 0;
  longitude = D.literal 0;
  lat_old = D.literal 0;
  long_old = D.literal 0;
  speed = D.literal 0;
  angle = D.literal 0;
  hdop = D.literal 0;
  lat = 0;
  lon = 0;
  fix = false;
  fixquality = 0;
  satellites = 0;
}

module _ (D : Double) where
  open D use {Real, literal, add, sub, mul, div, floor, to_long, to_ulong, to_float, atof}

  -- ddmm.mmmm as hundredths of a second
  unfoldable pub angle_of : List ℕ → Real
  angle_of p =
      let deg = floor (div (atof p) (literal 100)) in
      let min = sub (atof p) (mul deg (literal 100)) in
      add (mul deg (literal 360000)) (mul min (literal 6000))

  -- `return` with the members as they are then
  abbrev Outcome : Type 0
  Outcome = Option (Bool × Gps Real)

  -- the hemisphere of the latitude in a GGA sentence: any other character leaves `lat` alone
  north_south : ℕ → Gps Real → Gps Real
  north_south c g =
      if c == b'N'
      then record g { lat = b'N' }
      else (if c == b'S' then record g { latitude = sub (literal 0) g.latitude; lat = b'S' } else g)

  -- the hemisphere of the longitude; `none` is `return false`
  east_west : ℕ → Gps Real → Option (Gps Real)
  east_west c g =
      if c == b'W'
      then some (record g { longitude = sub (literal 0) g.longitude; lon = b'W' })
      else (if c == b'E'
          then some (record g { lon = b'E' })
          else (if c == b',' then some (record g { lon = 0 }) else none))

  -- GGA from the fix quality on; `p` is at the hemisphere of the longitude.
  gga_tail : List ℕ → Gps Real → Outcome
  gga_tail p g = do
    p1 ← next_field p
    p2 ← next_field p1
    p3 ← next_field p2
    p4 ← next_field p3
    p5 ← next_field p4
    p6 ← next_field p5
    some (
      true,
      record g {
        fixquality = atoi p1 % 256;
        satellites = atoi p2 % 256;
        hdop = to_float (atof p3);
        altitude = to_float (atof p4);
        geoidheight = to_float (atof p6);
      },
    )

  -- a member that is set before `return false` keeps its value
  gga_longitude : List ℕ → Gps Real → Outcome
  unfolding east_west gga_tail angle_of
  gga_longitude p g = do
    p' ← next_field p
    let g' = record g { longitude = angle_of p }
    elim (east_west (first p') g') [ none ↦ some (false, g') | some g'' ↦ gga_tail p' g'' ]

  unfoldable pub parse_gga : List ℕ → Gps Real → Outcome
  unfolding north_south gga_longitude angle_of
  parse_gga nmea g = do
    p1 ← next_field nmea
    p2 ← next_field p1
    p3 ← next_field p2
    p4 ← next_field p3
    gga_longitude p4 (
        north_south (first p3) (record g {
          milliseconds = to_long (to_float (mul (to_float (atof p1)) (literal 1000)));
          latitude = angle_of p2;
        }))

  -- RMC: the hemisphere of the latitude, with `return false` for any other character
  north_south_strict : ℕ → Gps Real → Option (Gps Real)
  north_south_strict c g =
      if c == b'N'
      then some (record g { lat = b'N' })
      else (if c == b'S'
          then some (record g { latitude = sub (literal 0) g.latitude; lat = b'S' })
          else (if c == b',' then some (record g { lat = 0 }) else none))

  -- RMC from the speed on; `p` is at the hemisphere of the longitude.
  rmc_tail : List ℕ → Gps Real → Outcome
  rmc_tail p g = do
    p1 ← next_field p
    p2 ← next_field p1
    p3 ← next_field p2
    let fulldate = to_ulong (atof p3)
    some (
      true,
      record g {
        speed = to_float (atof p1);
        angle = to_float (atof p2);
        day = fulldate / 10000 % 256;
        month = fulldate % 10000 / 100 % 256;
        year = fulldate % 100 % 256;
      },
    )

  rmc_longitude : List ℕ → Gps Real → Outcome
  unfolding east_west rmc_tail angle_of
  rmc_longitude p g = do
    p' ← next_field p
    let g' = record g { longitude = angle_of p }
    elim (east_west (first p') g') [ none ↦ some (false, g') | some g'' ↦ rmc_tail p' g'' ]

  -- `p` is at the latitude.
  rmc_position : List ℕ → Gps Real → Outcome
  unfolding north_south_strict rmc_longitude angle_of
  rmc_position p g = do
    p' ← next_field p
    let g' = record g { latitude = angle_of p }
    elim (north_south_strict (first p') g') [
      | none ↦ some (false, g')
      | some g'' ↦ do p'' ← next_field p'; rmc_longitude p'' g''
    ]

  -- `p` is at the status.
  rmc_status : List ℕ → Gps Real → Outcome
  unfolding rmc_position
  rmc_status p g =
      let active = first p == b'A' in
      if active || first p == b'V'
      then (do p' ← next_field p; rmc_position p' (record g { fix = active }))
      else some (false, g)

  unfoldable pub parse_rmc : List ℕ → Gps Real → Outcome
  unfolding rmc_status
  parse_rmc nmea g = do
    p1 ← next_field nmea
    p2 ← next_field p1
    rmc_status p2 (record g {
      lat_old = g.latitude;
      long_old = g.longitude;
      milliseconds = to_long (mul (atof p1) (literal 1000));
    })

  unfoldable pub parse : List ℕ → Gps Real → Outcome
  parse nmea g = do
    ok ← checksum_ok nmea
    if ok
        then (if holds gpgga nmea
            then parse_gga nmea g
            else (if holds gprmc nmea then parse_rmc nmea g else some (false, g)))
        else some (false, g)
