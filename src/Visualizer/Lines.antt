-- ===== src/Visualizer/Lines.antt =====
-- Lines and their fields, as GPS_visualizer takes them apart and the sketches print them.
use mathlib.Core.List.{append_assoc}
use speed_feed.Common.{
  false, ℕ, ◌≡◌, refl, ap, sym, ◌∙◌, Bool, true, not, ◌&&◌, none, Option, List, [], ◌∷◌, ◌++◌,
  arith, ◌==◌,
}
use speed_feed.Monitor.{codes, joined, csv_line, line_end}
use speed_feed.Visualizer.{
  before_first, same_text, by_fields, Java, Shown, Taken, fine, bit_error, no_field, split_fields,
  lines_of, by_name, serial_event, take_lines, take_text,
}

-- The character `d` is not in the text.
abbrev pub lacks : ℕ → List ℕ → Bool
lacks d [] = true
lacks d (c ∷ cs) = let rest = lacks d cs in not (c == d) && rest

-- A text that can be a field: no newline and no comma.
abbrev pub Plain : List ℕ → Type 0
Plain s = (lacks 10 s ≡ true) × (lacks b',' s ≡ true)

-- All of them are.
abbrev pub AllPlain : List (List ℕ) → Type 0
AllPlain [] = lacks 0 [] ≡ true
AllPlain (s ∷ ss) = Plain s × AllPlain ss

-- The fields of a line, with its end at the last one.
abbrev pub with_end : List (List ℕ) → List (List ℕ)
with_end [] = line_end ∷ []
with_end (s ∷ []) = (s ++ line_end) ∷ []
with_end (s ∷ (t ∷ ss)) = s ∷ with_end (t ∷ ss)

split_fields-end : (s : List ℕ) → Plain s → split_fields (s ++ line_end) ≡ (s ++ line_end) ∷ []
unfolding split_fields
split_fields-end [] p = refl
split_fields-end (c ∷ cs) p = ground (arith, split_fields-end cs)

split_fields-comma : (s t : List ℕ) → Plain s → split_fields (s ++ (b',' ∷ t)) ≡ s ∷ split_fields t
unfolding split_fields
split_fields-comma [] t p = refl
split_fields-comma (c ∷ cs) t p = ground (arith, split_fields-comma cs t)

pub split_fields-csv_line :
    (s : List ℕ) (ss : List (List ℕ))
    → AllPlain (s ∷ ss)
    → split_fields (csv_line (s ∷ ss)) ≡ with_end (s ∷ ss)
split_fields-csv_line s [] p = split_fields-end s p.0
split_fields-csv_line s (t ∷ ss) p =
    ap split_fields (append_assoc s (b',' ∷ joined (b',' ∷ []) (t ∷ ss)) line_end)
    ∙ split_fields-comma s (csv_line (t ∷ ss)) p.0
    ∙ ap (λ l. s ∷ l) (split_fields-csv_line t ss p.1)

pub lines_of-line :
    (s t : List ℕ)
    → lacks 10 s ≡ true
    → lines_of (s ++ (10 ∷ t)) ≡ ((s ++ (10 ∷ [])) ∷ (lines_of t).0, (lines_of t).1)
unfolding lines_of
lines_of-line [] t p = refl
lines_of-line (c ∷ cs) t p = ground (arith, lines_of-line cs t)

lacks-append : (d : ℕ) (s t : List ℕ) → lacks d (s ++ t) ≡ lacks d s && lacks d t
lacks-append d [] t = refl
lacks-append d (c ∷ cs) t = ground (arith, lacks-append d cs t)

pub lacks-join :
    (d : ℕ) (s t : List ℕ) → lacks d s ≡ true → lacks d t ≡ true → lacks d (s ++ t) ≡ true
lacks-join d s t h k = ground (arith, lacks-append d s t)

-- No newline comes between the fields.
joined-line :
    (s : List ℕ) (ss : List (List ℕ))
    → AllPlain (s ∷ ss)
    → lacks 10 (joined (b',' ∷ []) (s ∷ ss)) ≡ true
joined-line s [] p = p.0.0
joined-line s (t ∷ ss) p =
    lacks-join 10 s (b',' ∷ joined (b',' ∷ []) (t ∷ ss)) p.0.0 (joined-line t ss p.1)

-- The character `d` is in none of the names that a line can begin with.
abbrev pub InNoName : ℕ → Type 0
InNoName d =
    (lacks d (codes "track") ≡ true)
    × (lacks d (codes "waypoint") ≡ true)
    × (lacks d (codes "startfinish") ≡ true)
    × (lacks d (codes "test") ≡ true)
    × (lacks d (codes "split") ≡ true)
    × (lacks d (codes "reset") ≡ true)

same_text-lacks :
    (d : ℕ) (s t : List ℕ) → lacks d s ≡ false → lacks d t ≡ true → same_text s t ≡ false
same_text-lacks d [] t h k = cc
same_text-lacks d (c ∷ cs) [] h k = refl
same_text-lacks d (c ∷ cs) (e ∷ es) h k = ground (arith, same_text-lacks d cs es)

lacks-end : (s : List ℕ) → lacks 10 (s ++ line_end) ≡ false
lacks-end s = rw (lacks-append 10 s line_end) (ground arith)

-- There is a first field, and it holds `d`.
abbrev FirstHas : ℕ → List (List ℕ) → Type 0
FirstHas d [] = true ≡ false
FirstHas d (name ∷ rest) = lacks d name ≡ false

first_start : (fields : List (List ℕ)) → FirstHas b'$' (before_first b'$' fields)
first_start [] = refl
first_start (f ∷ fs) = refl

first_later :
    (c : ℕ) (fields : List (List ℕ)) → FirstHas b'$' fields → FirstHas b'$' (before_first c fields)
first_later c [] h = cc
first_later c (f ∷ fs) h = ground (arith, h)

split_fields-first : (s r : List ℕ) → Plain s → FirstHas b'$' (split_fields (s ++ (b'$' ∷ r)))
unfolding split_fields
split_fields-first [] r p = first_start (split_fields r)
split_fields-first (c ∷ cs) r p =
    ground (arith, first_later c (split_fields (cs ++ (b'$' ∷ r))), split_fields-first cs r)

module _ (J : Java) where
  -- The rest of a text, once a line has been taken.
  abbrev pub and_then : List ℕ → Taken (Shown J) → Option (Shown J)
  and_then text (fine v) = take_text J text v
  and_then text (bit_error v) = take_text J text v
  and_then text (no_field v) = none

  pub take_text-line :
      (s t : List ℕ) (v : Shown J)
      → lacks 10 s ≡ true
      → take_text J (s ++ (10 ∷ t)) v ≡ and_then t (serial_event J (s ++ (10 ∷ [])) v)
  unfolding take_text take_lines
  take_text-line s t v p = ground (arith, lines_of-line s t p)

  -- A line of fields is taken by its first field.
  pub take_text-csv_line :
      (name s : List ℕ) (ss : List (List ℕ)) (t : List ℕ) (v : Shown J)
      → AllPlain (name ∷ (s ∷ ss))
      → take_text J (csv_line (name ∷ (s ∷ ss)) ++ t) v
        ≡ and_then t (by_name J name (name ∷ with_end (s ∷ ss)) v)
  unfolding serial_event
  take_text-csv_line name s ss t v p =
      let body = joined (b',' ∷ []) (name ∷ (s ∷ ss)) in
      ap (λ x. take_text J x v)
        (append_assoc body line_end t ∙ sym (append_assoc body (13 ∷ []) (10 ∷ t)))
      ∙ take_text-line (body ++ (13 ∷ [])) t v
          (lacks-join 10 body (13 ∷ []) (joined-line name (s ∷ ss) p) refl)
      ∙ ap (λ x. and_then t (serial_event J x v)) (append_assoc body (13 ∷ []) (10 ∷ []))
      ∙ ap (λ x. and_then t (by_fields J x v)) (split_fields-csv_line name (s ∷ ss) p)

  -- A line whose first field holds a character that is in none of the names is passed over.
  pub by_name-other :
      (d : ℕ) (name : List ℕ) (fields : List (List ℕ)) (v : Shown J)
      → lacks d name ≡ false
      → InNoName d
      → by_name J name fields v ≡ fine v
  unfolding by_name
  by_name-other d name fields v h o = ground (
    arith,
    same_text-lacks d name (codes "track") h o.0,
    same_text-lacks d name (codes "waypoint") h o.1,
    same_text-lacks d name (codes "startfinish") h o.2,
    same_text-lacks d name (codes "test") h o.3,
    same_text-lacks d name (codes "split") h o.4,
    same_text-lacks d name (codes "reset") h o.5,
  )

  -- So is a line without a comma.
  pub take_text-skipped :
      (s t : List ℕ) (v : Shown J)
      → Plain s
      → take_text J (s ++ (line_end ++ t)) v ≡ take_text J t v
  unfolding serial_event
  take_text-skipped s t v p =
      ap (λ x. take_text J x v) (sym (append_assoc s (13 ∷ []) (10 ∷ t)))
      ∙ take_text-line (s ++ (13 ∷ [])) t v (lacks-join 10 s (13 ∷ []) p.0 refl)
      ∙ ap (λ x. and_then t (serial_event J x v)) (append_assoc s (13 ∷ []) (10 ∷ []))
      ∙ ap (λ x. and_then t (by_fields J x v)) (split_fields-end s p)
      ∙ ap (and_then t) (
          by_name-other 10 (s ++ line_end) ((s ++ line_end) ∷ []) v (lacks-end s)
            (refl, refl, refl, refl, refl, refl))

  -- So is a line with a dollar sign before the first comma, such as a sentence.
  pub take_text-dollar :
      (s r t : List ℕ) (v : Shown J)
      → Plain s
      → lacks 10 r ≡ true
      → take_text J (s ++ (b'$' ∷ (r ++ (line_end ++ t)))) v ≡ take_text J t v
  unfolding serial_event
  take_text-dollar s r t v p q =
      let line = s ++ (b'$' ∷ (r ++ (13 ∷ []))) in
      ap (λ x. take_text J x v)
        (ap (λ x. s ++ (b'$' ∷ x)) (sym (append_assoc r (13 ∷ []) (10 ∷ t)))
          ∙ sym (append_assoc s (b'$' ∷ (r ++ (13 ∷ []))) (10 ∷ t)))
      ∙ take_text-line line t v
          (lacks-join 10 s (b'$' ∷ (r ++ (13 ∷ []))) p.0 (lacks-join 10 r (13 ∷ []) q refl))
      ∙ ap (λ x. and_then t (serial_event J x v))
          (append_assoc s (b'$' ∷ (r ++ (13 ∷ []))) (10 ∷ []))
      ∙ ap (and_then t) (
          by_fields-dollar (split_fields (s ++ (b'$' ∷ ((r ++ (13 ∷ [])) ++ (10 ∷ []))))) v
            (split_fields-first s ((r ++ (13 ∷ [])) ++ (10 ∷ [])) p))
    where
      by_fields-dollar :
          (fields : List (List ℕ)) (v : Shown J)
          → FirstHas b'$' fields
          → by_fields J fields v ≡ fine v
      by_fields-dollar (name ∷ rest) v h =
          by_name-other b'$' name (name ∷ rest) v h (refl, refl, refl, refl, refl, refl)
      by_fields-dollar [] v h = cc
