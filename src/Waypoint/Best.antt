-- ===== src/Waypoint/Best.antt =====
-- What `Waypoint::checkSplit` records over a session of crossings (SpeedFeed.cpp).
use speed_feed.Common.{
  ℕ, ◌^◌, ◌<◌, ◌≡◌, refl, ◌∙◌, ap, List, [], ◌∷◌, arith, ltb, if◌then◌else◌, add32, sub32, slt32,
}
use speed_feed.Platform.{World, millis}
use speed_feed.Double.{Double}
use speed_feed.Waypoint.{Waypoint, check_split, reset_waypoint}

-- A span of time that a `long` holds as a positive number.
abbrev pub IsSpan : ℕ → Type 0
IsSpan t = (0 < t) × (t < 2 ^ 31)

abbrev pub least : ℕ → ℕ → ℕ
least a b = if ltb a b then a else b

-- On positive spans the order of the signed words is that of the numbers.
slt32-IsSpan : (a b : ℕ) → IsSpan a → IsSpan b → slt32 a b ≡ ltb a b
slt32-IsSpan a b h k = ground arith

slt32-sub32_zero : (a b : ℕ) → IsSpan a → IsSpan b → slt32 (sub32 a b) 0 ≡ ltb a b
slt32-sub32_zero a b h k = ground arith

least-IsSpan : (a b : ℕ) → IsSpan a → IsSpan b → IsSpan (least a b)
least-IsSpan a b h k = ground arith

-- the least time of a session that starts with best time `b`
abbrev pub least_of : ℕ → List ℕ → ℕ
least_of b [] = b
least_of b (t ∷ ts) = least_of (least t b) ts

abbrev pub AllSpans : List ℕ → Type 0
AllSpans [] = Unit
AllSpans (t ∷ ts) = IsSpan t × AllSpans ts

module _ (D : Double) where
  open D use {Real, lt, sub, literal}

  -- the split, and the lap, that a crossing after `obj` measures
  abbrev pub split_time : Waypoint Real → World → ℕ
  split_time obj w = sub32 (add32 (millis w) obj.adjustment) obj.last

  abbrev pub lap_time : Waypoint Real → ℕ → World → ℕ
  lap_time obj lap_start w = sub32 (add32 (millis w) obj.adjustment) lap_start

  -- A crossing whose split and lap are positive, at a waypoint with a best split and lap: the
  -- bests become the lesser of the old and the new, and a margin is negative, as a signed word,
  -- exactly when the new time beats the old best.
  pub check_split-best :
      (p obj : Waypoint Real) (lap_start : ℕ) (w : World)
      → IsSpan p.split_best
      → IsSpan p.lap_best
      → IsSpan (split_time obj w)
      → IsSpan (lap_time obj lap_start w)
      → let p' = (check_split D p obj lap_start w).0 in
        (p'.split_best ≡ least (split_time obj w) p.split_best)
        × (p'.lap_best ≡ least (lap_time obj lap_start w) p.lap_best)
        × (slt32 p'.split_margin 0 ≡ ltb (split_time obj w) p.split_best)
        × (slt32 p'.lap_margin 0 ≡ ltb (lap_time obj lap_start w) p.lap_best)
  unfolding check_split
  check_split-best p obj lap_start w b c s l = ground (
    arith,
    slt32-IsSpan (split_time obj w) p.split_best s b,
    slt32-IsSpan (lap_time obj lap_start w) p.lap_best l c,
    slt32-sub32_zero (split_time obj w) p.split_best s b,
    slt32-sub32_zero (lap_time obj lap_start w) p.lap_best l c,
  )

  -- The first crossing since `reset`, whatever its times: they become the bests, and both
  -- margins are zero.
  pub check_split-first :
      (p obj : Waypoint Real) (lap_start : ℕ) (w : World)
      → p.split_best ≡ 0
      → let p' = (check_split D p obj lap_start w).0 in
        (p'.split_best ≡ split_time obj w)
        × (p'.lap_best ≡ lap_time obj lap_start w)
        × (p'.split_margin ≡ 0)
        × (p'.lap_margin ≡ 0)
  unfolding check_split
  check_split-first p obj lap_start w h = ground arith

  -- A crossing of a waypoint: the waypoint before, the start of the lap, the world.
  abbrev pub Crossing : Type 0
  Crossing = Waypoint Real × ℕ × World

  abbrev pub splits : List Crossing → List ℕ
  splits [] = []
  splits ((obj, lap_start, w) ∷ cs) = split_time obj w ∷ splits cs

  abbrev pub laps : List Crossing → List ℕ
  laps [] = []
  laps ((obj, lap_start, w) ∷ cs) = lap_time obj lap_start w ∷ laps cs

  unfoldable pub check_all : Waypoint Real → List Crossing → Waypoint Real
  check_all p [] = p
  check_all p ((obj, lap_start, w) ∷ cs) = check_all (check_split D p obj lap_start w).0 cs

  check_all-least :
      (p : Waypoint Real) (cs : List Crossing)
      → IsSpan p.split_best
      → IsSpan p.lap_best
      → AllSpans (splits cs)
      → AllSpans (laps cs)
      → ((check_all p cs).split_best ≡ least_of p.split_best (splits cs))
        × ((check_all p cs).lap_best ≡ least_of p.lap_best (laps cs))
  unfolding check_all
  check_all-least p [] b c s l = (refl, refl)
  check_all-least p ((obj, lap_start, w) ∷ cs) b c s l =
      let r = check_split-best p obj lap_start w b c s.0 l.0 in
      let ih =
        check_all-least (check_split D p obj lap_start w).0 cs
          (rw r.0 (least-IsSpan (split_time obj w) p.split_best s.0 b))
          (rw r.1 (least-IsSpan (lap_time obj lap_start w) p.lap_best l.0 c)) s.1 l.1 in
      (ih.0 ∙ ap (λ t. least_of t (splits cs)) r.0, ih.1 ∙ ap (λ t. least_of t (laps cs)) r.1)

  -- From `reset` on, after a first crossing and any further ones, if every split and lap is a
  -- positive span, the best split and the best lap of the waypoint are the least of the session.
  pub check_all-reset :
      (p : Waypoint Real) (obj : Waypoint Real) (lap_start : ℕ) (w : World) (cs : List Crossing)
      → AllSpans (splits ((obj, lap_start, w) ∷ cs))
      → AllSpans (laps ((obj, lap_start, w) ∷ cs))
      → let p' = check_all (reset_waypoint D p) ((obj, lap_start, w) ∷ cs) in
        (p'.split_best ≡ least_of (split_time obj w) (splits cs))
        × (p'.lap_best ≡ least_of (lap_time obj lap_start w) (laps cs))
  unfolding check_all reset_waypoint
  check_all-reset p obj lap_start w cs s l =
      let r = check_split-first (reset_waypoint D p) obj lap_start w refl in
      let ih =
        check_all-least (check_split D (reset_waypoint D p) obj lap_start w).0 cs (rw r.0 s.0)
          (rw r.1 l.0) s.1 l.1 in
      (ih.0 ∙ ap (λ t. least_of t (splits cs)) r.0, ih.1 ∙ ap (λ t. least_of t (laps cs)) r.1)
