-- ===== src/Nmea/Defined.antt =====
-- When `parse` is defined (SPK_GPS.cpp): a sentence with enough commas is read without a step
-- through NULL.
use speed_feed.Common.{
  inl, inr, ℕ, zero, suc, ◌≤◌, ◌≡◌, ◌≢◌, true, false, none, some, List, [], ◌∷◌, arith, ◌==◌,
  if◌then◌else◌, Bool-cases,
}
use speed_feed.Double.{Double}
use speed_feed.Sentence.{checksum_ok, holds, gpgga, gprmc, next_field, first}
use speed_feed.Nmea.{
  Gps, parse, parse_gga, parse_rmc, gga_tail, gga_longitude, rmc_tail, rmc_longitude, rmc_position,
  rmc_status, north_south, angle_of,
}

abbrev pub commas : List ℕ → ℕ
commas [] = 0
commas (c ∷ cs) = if c == b',' then suc (commas cs) else commas cs

-- The text has a next field, which has a next field, and so on, `n` times.
abbrev HasFields : ℕ → List ℕ → Type 0
HasFields zero p = Unit
HasFields (suc n) p = (q : List ℕ) × (next_field p ≡ some q) × HasFields n q

next_field-commas :
    (p : List ℕ) (n : ℕ)
    → suc n ≤ commas p
    → (q : List ℕ) × (next_field p ≡ some q) × (n ≤ commas q)
unfolding next_field
next_field-commas [] n h = absurd (omega arith)
next_field-commas (c ∷ cs) n h = elim (Bool-cases (c == b',')) [
  | inl comma ↦ (cs, rw comma, ground arith)
  | inr other ↦ rw other (next_field-commas cs n (ground arith))
]

HasFields-commas : (n : ℕ) (p : List ℕ) → n ≤ commas p → HasFields n p
HasFields-commas zero p h = tt
HasFields-commas (suc n) p h =
    let (q, e, h') = next_field-commas p n h in (q, e, HasFields-commas n q h')

module _ (D : Double) where
  open D use {Real, literal, mul, to_long, to_float, atof}

  gga_tail-defined : (p : List ℕ) (g : Gps Real) → HasFields 6 p → gga_tail D p g ≢ none
  unfolding gga_tail
  gga_tail-defined p g h = ground arith

  gga_longitude-defined : (p : List ℕ) (g : Gps Real) → HasFields 7 p → gga_longitude D p g ≢ none
  unfolding gga_longitude
  gga_longitude-defined p g (q, e, h) = ground (arith, λ (g' : Gps Real). gga_tail-defined q g' h)

  parse_gga-defined : (p : List ℕ) (g : Gps Real) → HasFields 11 p → parse_gga D p g ≢ none
  unfolding parse_gga
  parse_gga-defined p g (p1, e1, (p2, e2, (p3, e3, (p4, e4, h)))) =
      rw (e1, e2, e3, e4)
        (gga_longitude-defined p4
          (north_south D (first p3) (record g {
            milliseconds = to_long (to_float (mul (to_float (atof p1)) (literal 1000)));
            latitude = angle_of D p2;
          }))
          h)

  rmc_tail-defined : (p : List ℕ) (g : Gps Real) → HasFields 3 p → rmc_tail D p g ≢ none
  unfolding rmc_tail
  rmc_tail-defined p g h = ground arith

  rmc_longitude-defined : (p : List ℕ) (g : Gps Real) → HasFields 4 p → rmc_longitude D p g ≢ none
  unfolding rmc_longitude
  rmc_longitude-defined p g (q, e, h) = ground (arith, λ (g' : Gps Real). rmc_tail-defined q g' h)

  rmc_position-defined : (p : List ℕ) (g : Gps Real) → HasFields 6 p → rmc_position D p g ≢ none
  unfolding rmc_position
  rmc_position-defined p g (p1, e1, (p2, e2, h)) =
      ground (arith, λ (g' : Gps Real). rmc_longitude-defined p2 g' h)

  rmc_status-defined : (p : List ℕ) (g : Gps Real) → HasFields 7 p → rmc_status D p g ≢ none
  unfolding rmc_status
  rmc_status-defined p g (q, e, h) = ground (arith, λ (g' : Gps Real). rmc_position-defined q g' h)

  parse_rmc-defined : (p : List ℕ) (g : Gps Real) → HasFields 9 p → parse_rmc D p g ≢ none
  unfolding parse_rmc
  parse_rmc-defined p g (p1, e1, (p2, e2, h)) = rw (e1, e2) (rmc_status-defined p2 _ h)

  -- `parse` returns for every text whose checksum is tested without a fault, if a text with
  -- "$GPGGA" has at least eleven commas, and one with "$GPRMC" and no "$GPGGA" at least nine.
  pub parse-defined :
      (nmea : List ℕ) (g : Gps Real)
      → checksum_ok nmea ≢ none
      → (holds gpgga nmea ≡ true → 11 ≤ commas nmea)
      → (holds gprmc nmea ≡ true → holds gpgga nmea ≡ false → 9 ≤ commas nmea)
      → parse D nmea g ≢ none
  unfolding parse
  parse-defined nmea g ok a b = ground (
    arith,
    λ (h : 11 ≤ commas nmea). parse_gga-defined nmea g (HasFields-commas 11 nmea h),
    λ (h : 9 ≤ commas nmea). parse_rmc-defined nmea g (HasFields-commas 9 nmea h),
  )
