-- ===== src/Visualizer/Gates.antt =====
-- What GPS_visualizer makes of the gates that a sketch prints.
use mathlib.Core.List.{append_assoc, append-nil}
use speed_feed.Common.{
  sym, ◌<◌, length-append, map, length, drop, ◌-◌, suc, zero, ◌∙◌, ap, ℕ, ◌≡◌, refl, true, false,
  some, List, [], ◌∷◌, ◌++◌, arith,
}
use speed_feed.Double.{Double}
use speed_feed.Waypoint.{Waypoint}
use speed_feed.Monitor.{codes, line_end}
use speed_feed.Monitor.Lines.{gate_line, waypoint_lines}
use speed_feed.Visualizer.{
  Java, Corners, Shown, fine, same_text, shift_down, update, wp_limit, to_x, to_y, by_name,
  take_ends, with_number, on_waypoint, on_startfinish, unless_nan, take_text,
}
use speed_feed.Visualizer.Arrays.{update-newest}
use speed_feed.Visualizer.Lines.{and_then, with_end, Plain, take_text-csv_line}

module _ (D : Double) (J : Java) where
  open D use {Real, show8}
  open J use {Float, parse_float}

  -- The text that `Serial.print(x, 8)` makes of `x` is a field, and `Float.parseFloat` reads
  -- `value` from it, with a line end after it as well.
  pub record Reads (x : Real) (value : Float) : Type 0 where
    pub plain : Plain (show8 x)
    pub number : same_text (show8 x) (codes "nan") ≡ false
    pub read : parse_float (show8 x) ≡ some value
    pub read_end : parse_float (show8 x ++ line_end) ≡ some value

  -- the same of the ends of a gate
  pub record GateReads (p : Waypoint Real) (e : Corners Float) : Type 0 where
    pub x1 : Reads p.x1 e.x1
    pub y1 : Reads p.y1 e.y1
    pub x2 : Reads p.x2 e.x2
    pub y2 : Reads p.y2 e.y2

  -- and of all gates in order
  abbrev pub AllRead : List (Waypoint Real) → List (Corners Float) → Type 0
  AllRead [] [] = true ≡ true
  AllRead [] (e ∷ es) = true ≡ false
  AllRead (p ∷ ps) [] = true ≡ false
  AllRead (p ∷ ps) (e ∷ es) = GateReads p e × AllRead ps es

  -- where the ends of a gate are in the picture
  abbrev pub in_picture : Corners Float → Corners Float
  in_picture e = record { x1 = to_x J e.x1; y1 = to_y J e.y1; x2 = to_x J e.x2; y2 = to_y J e.y2 }

  abbrev gate_fields : Waypoint Real → List (List ℕ)
  gate_fields p = show8 p.x1 ∷ show8 p.y1 ∷ show8 p.x2 ∷ show8 p.y2 ∷ []

  gate_line-taken :
      (name : List ℕ) (p : Waypoint Real) (e : Corners Float) (t : List ℕ) (v : Shown J)
      → Plain name
      → GateReads p e
      → take_text J (gate_line D name p ++ t) v
        ≡ and_then J t (by_name J name (name ∷ with_end (gate_fields p)) v)
  unfolding gate_line
  gate_line-taken name p e t v q r =
      take_text-csv_line J name (show8 p.x1) (show8 p.y1 ∷ show8 p.x2 ∷ show8 p.y2 ∷ []) t v
        (q, (r.x1.plain, (r.y1.plain, (r.x2.plain, (r.y2.plain, refl)))))

  by_name-startfinish :
      (p : Waypoint Real) (e : Corners Float) (v : Shown J)
      → GateReads p e
      → by_name J (codes "startfinish") (codes "startfinish" ∷ with_end (gate_fields p)) v
        ≡ fine (record v { startfinish = in_picture e })
  unfolding by_name on_startfinish unless_nan take_ends with_number
  by_name-startfinish p e v r =
      ground (arith, r.x1.number, r.y1.number, r.x1.read, r.y1.read, r.x2.read, r.y2.read_end)

  pub startfinish-shown :
      (p : Waypoint Real) (e : Corners Float) (t : List ℕ) (v : Shown J)
      → GateReads p e
      → take_text J (gate_line D (codes "startfinish") p ++ t) v
        ≡ take_text J t (record v { startfinish = in_picture e })
  startfinish-shown p e t v r =
      gate_line-taken (codes "startfinish") p e t v (refl, refl) r
      ∙ ap (and_then J t) (by_name-startfinish p e v r)

  update-four :
      (i : ℕ) (es : List (Corners Float)) (e : Corners Float)
      → update i
          (λ d. record d { y2 = e.y2 })
          (update i
            (λ d. record d { x2 = e.x2 })
            (update i (λ d. record d { y1 = e.y1 }) (update i (λ d. record d { x1 = e.x1 }) es)))
        ≡ update i (λ _. e) es
  update-four i [] e = refl
  update-four zero (d ∷ es) e = refl
  update-four (suc i) (d ∷ es) e = ap (λ l. d ∷ l) (update-four i es e)

  -- A new entry comes in at the end of an array and all others move down.
  abbrev pub push_in : Corners Float → Shown J → Shown J
  push_in e v = record v { waypoints = update (wp_limit - 1) (λ _. e) (shift_down v.waypoints) }

  by_name-waypoint :
      (p : Waypoint Real) (e : Corners Float) (v : Shown J)
      → GateReads p e
      → by_name J (codes "waypoint") (codes "waypoint" ∷ with_end (gate_fields p)) v
        ≡ fine (push_in (in_picture e) v)
  unfolding by_name on_waypoint unless_nan take_ends with_number
  by_name-waypoint p e v r = ground (
    arith,
    r.x1.number,
    r.y1.number,
    r.x1.read,
    r.y1.read,
    r.x2.read,
    r.y2.read_end,
    update-four (wp_limit - 1) (shift_down v.waypoints) (in_picture e),
  )

  pub waypoint-shown :
      (p : Waypoint Real) (e : Corners Float) (t : List ℕ) (v : Shown J)
      → GateReads p e
      → take_text J (gate_line D (codes "waypoint") p ++ t) v
        ≡ take_text J t (push_in (in_picture e) v)
  waypoint-shown p e t v r =
      gate_line-taken (codes "waypoint") p e t v (refl, refl) r
      ∙ ap (and_then J t) (by_name-waypoint p e v r)

  -- The picture of a track: its first gate is the start line, and of the other gates and those
  -- that were there before, the newest are the waypoints.
  abbrev pub with_track : List (Corners Float) → Shown J → Shown J
  with_track [] v = v
  with_track (e ∷ es) v = record v {
    startfinish = in_picture e;
    waypoints = drop (length es) (v.waypoints ++ map in_picture es);
  }

  length-newest :
      (ws : List (Corners Float)) (e : Corners Float)
      → 0 < length ws
      → length (drop 1 (ws ++ (e ∷ []))) ≡ length ws
  length-newest [] e h = absurd (omega arith)
  length-newest (w ∷ ws) e h = omega (arith, length-append ws (e ∷ []))

  drop-newest :
      (ws : List (Corners Float)) (e : Corners Float) (es : List (Corners Float)) (n : ℕ)
      → 0 < length ws
      → drop n (drop 1 (ws ++ (e ∷ [])) ++ es) ≡ drop (suc n) (ws ++ (e ∷ es))
  drop-newest [] e es n h = absurd (omega arith)
  drop-newest (w ∷ ws) e es n h = ap (drop n) (append_assoc ws (e ∷ []) es)

  pub waypoint_lines-shown :
      (ps : List (Waypoint Real)) (es : List (Corners Float)) (t : List ℕ) (v : Shown J)
      → AllRead ps es
      → length v.waypoints ≡ wp_limit
      → take_text J (waypoint_lines D ps ++ t) v
        ≡ take_text J t
            (record v { waypoints = drop (length es) (v.waypoints ++ map in_picture es) })
  unfolding waypoint_lines
  waypoint_lines-shown [] [] t v r n =
      ap (λ l. take_text J t (record v { waypoints = l })) (sym (append-nil v.waypoints))
  waypoint_lines-shown [] (e ∷ es) t v r n = cc
  waypoint_lines-shown (p ∷ ps) [] t v r n = cc
  waypoint_lines-shown (p ∷ ps) (e ∷ es) t v r n =
      let e' = in_picture e in
      let newest = update-newest v.waypoints e' (wp_limit - 1) (omega arith) in
      ap (λ x. take_text J x v)
        (append_assoc (gate_line D (codes "waypoint") p) (waypoint_lines D ps) t)
      ∙ waypoint-shown p e (waypoint_lines D ps ++ t) v r.0
      ∙ waypoint_lines-shown ps es t (push_in e' v) r.1
          (ap length newest ∙ length-newest v.waypoints e' (omega arith) ∙ n)
      ∙ ap (λ l. take_text J t (record v { waypoints = l }))
          (ap (λ l. drop (length es) (l ++ map in_picture es)) newest
            ∙ drop-newest v.waypoints e' (map in_picture es) (length es) (omega arith))
