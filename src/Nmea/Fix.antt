-- ===== src/Nmea/Fix.antt =====
-- Which sentences change the fix and its quality (SPK_GPS.cpp, parse).
use speed_feed.Common.{
  ℕ, ◌≡◌, Bool, true, false, Option, some, List, arith, ◌==◌, if◌then◌else◌, ◌>>=◌, >>=-eq-some,
}
use speed_feed.Double.{Double}
use speed_feed.Sentence.{checksum_ok, holds, gpgga, gprmc, next_field, first}
use speed_feed.Nmea.{
  Gps, parse, parse_gga, parse_rmc, gga_tail, gga_longitude, rmc_tail, rmc_longitude, rmc_position,
  rmc_status, east_west, north_south, north_south_strict,
}

-- the first character of the second field: the status in an RMC sentence
abbrev pub status : List ℕ → Option ℕ
status nmea = do p1 ← next_field nmea; p2 ← next_field p1; some (first p2)

-- what a status says of the fix: 'A' that there is one, 'V' that there is none, any other
-- character nothing
abbrev pub fix_after : Bool → ℕ → Bool
fix_after old c = if c == b'A' then true else (if c == b'V' then false else old)

module _ (D : Double) where
  open D use {Real}

  gga_tail-fix :
      (p : List ℕ) (g g' : Gps Real) (b : Bool) → gga_tail D p g ≡ some (b, g') → g'.fix ≡ g.fix
  unfolding gga_tail
  gga_tail-fix p g g' b h = ground arith

  gga_longitude-fix :
      (p : List ℕ) (g g' : Gps Real) (b : Bool)
      → gga_longitude D p g ≡ some (b, g')
      → g'.fix ≡ g.fix
  unfolding gga_longitude east_west
  gga_longitude-fix p g g' b h = ground (arith)

  parse_gga-fix :
      (p : List ℕ) (g g' : Gps Real) (b : Bool) → parse_gga D p g ≡ some (b, g') → g'.fix ≡ g.fix
  unfolding parse_gga north_south
  parse_gga-fix p g g' b h = ground (arith)

  rmc_tail-quality :
      (p : List ℕ) (g g' : Gps Real) (b : Bool)
      → rmc_tail D p g ≡ some (b, g')
      → (g'.fixquality ≡ g.fixquality) × (g'.fix ≡ g.fix)
  unfolding rmc_tail
  rmc_tail-quality p g g' b h = ground arith

  rmc_longitude-quality :
      (p : List ℕ) (g g' : Gps Real) (b : Bool)
      → rmc_longitude D p g ≡ some (b, g')
      → (g'.fixquality ≡ g.fixquality) × (g'.fix ≡ g.fix)
  unfolding rmc_longitude east_west
  rmc_longitude-quality p g g' b h = ground arith

  rmc_position-quality :
      (p : List ℕ) (g g' : Gps Real) (b : Bool)
      → rmc_position D p g ≡ some (b, g')
      → (g'.fixquality ≡ g.fixquality) × (g'.fix ≡ g.fix)
  unfolding rmc_position north_south_strict
  rmc_position-quality p g g' b h = ground arith

  rmc_status-fix :
      (p : List ℕ) (g g' : Gps Real) (b : Bool)
      → rmc_status D p g ≡ some (b, g')
      → (g'.fixquality ≡ g.fixquality) × (g'.fix ≡ fix_after g.fix (first p))
  unfolding rmc_status
  rmc_status-fix p g g' b h =
      ground
        (arith, λ (q : List ℕ). rmc_position-quality q (record g { fix = first p == b'A' }) g' b)

  parse_rmc-fix :
      (p : List ℕ) (g g' : Gps Real) (b : Bool) (c : ℕ)
      → parse_rmc D p g ≡ some (b, g')
      → status p ≡ some c
      → (g'.fixquality ≡ g.fixquality) × (g'.fix ≡ fix_after g.fix c)
  unfolding parse_rmc
  parse_rmc-fix p g g' b c h k =
      let (p1, e1, h1) = >>=-eq-some (next_field p) _ h in
      let (p2, e2, h2) = >>=-eq-some (next_field p1) _ h1 in
      let r = rmc_status-fix p2 _ g' b h2 in ground (arith, r, e1, e2)

  parse_rmc-quality :
      (p : List ℕ) (g g' : Gps Real) (b : Bool)
      → parse_rmc D p g ≡ some (b, g')
      → g'.fixquality ≡ g.fixquality
  unfolding parse_rmc
  parse_rmc-quality p g g' b h =
      let (p1, e1, h1) = >>=-eq-some (next_field p) _ h in
      let (p2, e2, h2) = >>=-eq-some (next_field p1) _ h1 in (rmc_status-fix p2 _ g' b h2).0

  -- If `parse` returns, then: without "$GPGGA" the quality of the fix is as before; without
  -- "$GPRMC", or with "$GPGGA", the fix is as before; with "$GPRMC" alone and a checksum that
  -- passes, a status 'A' sets the fix, 'V' clears it, and any other leaves it.
  pub parse-fix :
      (nmea : List ℕ) (g g' : Gps Real) (b : Bool)
      → parse D nmea g ≡ some (b, g')
      → (holds gpgga nmea ≡ false → g'.fixquality ≡ g.fixquality)
        × (holds gprmc nmea ≡ false → g'.fix ≡ g.fix)
        × (holds gpgga nmea ≡ true → g'.fix ≡ g.fix)
        × ((c : ℕ)
            → checksum_ok nmea ≡ some true
            → holds gpgga nmea ≡ false
            → holds gprmc nmea ≡ true
            → status nmea ≡ some c
            → g'.fix ≡ fix_after g.fix c)
  unfolding parse
  parse-fix nmea g g' b h = (
    λ f. ground (arith, parse_rmc-quality nmea g g' b),
    λ f. ground (arith, parse_gga-fix nmea g g' b),
    λ t. ground (arith, parse_gga-fix nmea g g' b),
    λ c ok f t k. ground (arith, parse_rmc-fix nmea g g' b c),
  )
