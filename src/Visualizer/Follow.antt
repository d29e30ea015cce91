-- ===== src/Visualizer/Follow.antt =====
-- When GPS_visualizer shows the track of a sketch.
use mathlib.Core.List.{append-nil, append_assoc}
use mathlib.Core.Path.{ap₂}
use speed_feed.Common.{
  ℕ, zero, suc, ◌-◌, ◌+◌, ◌<◌, ◌≡◌, refl, ap, sym, ◌∙◌, false, List, [], ◌∷◌, ◌++◌, arith, length,
  length-append, drop, map, ◌==◌, if◌then◌else◌,
}
use speed_feed.Double.{Double}
use speed_feed.Waypoint.{Waypoint}
use speed_feed.Eeprom.RoundTrip.{ends}
use speed_feed.Visualizer.{Java, Corners, Shown, new_view, wp_limit}
use speed_feed.Visualizer.Arrays.{update-newest}
use speed_feed.Visualizer.Gates.{AllRead, GateReads, in_picture, with_track, push_in}
use speed_feed.Visualizer.Harmless.{SameGates}

module _ {A : Type 0} where
  length-drop : (n : ℕ) (xs : List A) → length (drop n xs) ≡ length xs - n
  length-drop zero xs = omega arith
  length-drop (suc n) [] = omega arith
  length-drop (suc n) (x ∷ xs) = omega (arith, length-drop n xs)

  drop-drop :
      (n : ℕ) (xs : List A) (x : A)
      → n < length xs
      → drop 1 (drop n xs ++ (x ∷ [])) ≡ drop (suc n) (xs ++ (x ∷ []))
  drop-drop zero xs x h = refl
  drop-drop (suc n) [] x h = absurd (omega arith)
  drop-drop (suc n) (y ∷ ys) x h = drop-drop n ys x (omega arith)

  length-map : {B : Type 0} (f : A → B) (xs : List A) → length (map f xs) ≡ length xs
  length-map f [] = refl
  length-map f (y ∷ ys) = ap suc (length-map f ys)

  map-end :
      {B : Type 0} (f : A → B) (xs : List A) (x : A)
      → map f (xs ++ (x ∷ [])) ≡ map f xs ++ (f x ∷ [])
  map-end f [] x = refl
  map-end f (y ∷ ys) x = ap (λ l. f y ∷ l) (map-end f ys x)

nonempty : (n : ℕ) → (suc n == 0) ≡ false
nonempty n = ground arith

module _ (D : Double) (J : Java) where
  open D use {Real, is_nan}
  open J use {Float}

  module _ (value : Real → Float) where
    abbrev corners_of : Real × Real × Real × Real → Corners Float
    corners_of c = record { x1 = value c.0; y1 = value c.1; x2 = value c.2; y2 = value c.3 }

    abbrev pub corners_read : Waypoint Real → Corners Float
    corners_read p = corners_of (ends p)

    -- The start line and the waypoints in the picture are those of the track.
    abbrev pub ShowsTrack : List (Waypoint Real) → Shown J → Type 0
    ShowsTrack ps v = SameGates J (with_track D J (map corners_read ps) (new_view J)) v

    -- GPS_visualizer reads `value` from the text of each end of these gates.
    abbrev pub TrackReads : List (Waypoint Real) → Type 0
    TrackReads ps = AllRead D J ps (map corners_read ps)

    pub TrackReads-last :
        (ps : List (Waypoint Real)) (p : Waypoint Real)
        → TrackReads (ps ++ (p ∷ []))
        → GateReads D J p (corners_read p)
    TrackReads-last [] p h = h.0
    TrackReads-last (q ∷ ps) p h = TrackReads-last ps p h.1

    corners_read-ends :
        (ps qs : List (Waypoint Real))
        → map ends ps ≡ map ends qs
        → map corners_read ps ≡ map corners_read qs
    corners_read-ends [] [] h = refl
    corners_read-ends [] (q ∷ qs) h = cc
    corners_read-ends (p ∷ ps) [] h = cc
    corners_read-ends (p ∷ ps) (q ∷ qs) h =
        let head : ends p ≡ ends q = cc in
        let tail : map ends ps ≡ map ends qs = cc in
        ap₂ ◌∷◌ (ap corners_of head) (corners_read-ends ps qs tail)

    pub ShowsTrack-ends :
        (ps qs : List (Waypoint Real)) (v : Shown J)
        → map ends qs ≡ map ends ps
        → ShowsTrack ps v
        → ShowsTrack qs v
    ShowsTrack-ends ps qs v h s = rw (corners_read-ends qs ps h) s

    newest_waypoint :
        (es : List (Corners Float)) (e : Corners Float) (v : Shown J)
        → let ws = (new_view J).waypoints in
          v.waypoints ≡ drop (length es) (ws ++ map (in_picture D J) es)
          → (push_in D J e v).waypoints
            ≡ drop (length es + 1) (ws ++ (map (in_picture D J) es ++ (e ∷ [])))
    unfolding new_view
    newest_waypoint es e v h =
        let ws = (new_view J).waypoints in
        let xs = ws ++ map (in_picture D J) es in
        let one : suc (length es) ≡ length es + 1 = omega arith in
        let long : length xs ≡ wp_limit + length es =
          length-append ws (map (in_picture D J) es)
          ∙ ap (λ n. wp_limit + n) (length-map (in_picture D J) es) in
        let full : length v.waypoints ≡ wp_limit =
          ap length h ∙ length-drop (length es) xs ∙ omega arith in
        update-newest v.waypoints e (wp_limit - 1) full
        ∙ ap (λ l. drop 1 (l ++ (e ∷ []))) h
        ∙ drop-drop (length es) xs e (omega arith)
        ∙ ap₂ drop one (append_assoc ws (map (in_picture D J) es) (e ∷ []))

    -- the view with a new gate after those of the track
    abbrev pub with_gate : List (Waypoint Real) → Waypoint Real → Shown J → Shown J
    with_gate ps p v =
        if length ps == 0
        then record v { startfinish = in_picture D J (corners_read p) }
        else push_in D J (in_picture D J (corners_read p)) v

    pub with_gate-ShowsTrack :
        (ps : List (Waypoint Real)) (p : Waypoint Real) (v : Shown J)
        → ShowsTrack ps v
        → ShowsTrack (ps ++ (p ∷ [])) (with_gate ps p v)
    with_gate-ShowsTrack [] p v s = (refl, s.1 ∙ sym (append-nil (new_view J).waypoints))
    with_gate-ShowsTrack (q ∷ qs) p v s =
        let e = corners_read p in
        let cs = map corners_read qs in
        rw (nonempty (length qs), map-end corners_read qs p)
          (
            s.0,
            newest_waypoint cs (in_picture D J e) v s.1
                ∙ ap₂ drop (sym (length-append cs (e ∷ [])))
                    (ap (λ l. (new_view J).waypoints ++ l) (sym (map-end (in_picture D J) cs e))),
          )
