-- ===== src/Tracker/Laps.antt =====
-- What the loop of GPS_tracker_Single_Split.ino does to the times of the gates: of a sketch are kept
-- the times of each gate, the gate crossed last, and the gate that is next.
use speed_feed.Common.{
  ◌==◌, if◌then◌else◌, length, get_elem?, set, length-set, sub32, slt32, ℕ, suc, ◌+◌, ◌%◌, ◌≡◌,
  refl, ap, Bool, true, false, some, List, [], ◌∷◌, ◌++◌, map,
}
pub mod View
pub mod Cross
pub mod First
pub mod Second
pub mod Runs
pub mod Round
pub mod Lap
pub mod Reaction

-- The times that are kept for a gate; a best split of 0 is none yet.
pub record Times : Type 0 where
  pub last : ℕ
  pub split_best : ℕ
  pub lap_best : ℕ
  pub split_margin : ℕ
  pub lap_margin : ℕ

pub record Timer : Type 0 where
  pub gates : List Times
  pub last_gate : ℕ
  pub next_gate : ℕ
  pub racing : Bool

-- the lesser of two signed words
abbrev pub lesser : ℕ → ℕ → ℕ
lesser a b = if slt32 a b then a else b

abbrev pub no_times : Times
no_times = record { last = 0; split_best = 0; lap_best = 0; split_margin = 0; lap_margin = 0 }

-- A crossing at time `now`. The first one sets the bests; the margins are against the bests of
-- before, and the bests afterwards are the lesser times.
unfoldable pub book : (now split lap : ℕ) → Times → Times
book now split lap g =
    let split_ref = if g.split_best == 0 then split else g.split_best in
    let lap_ref = if g.split_best == 0 then lap else g.lap_best in
    record {
      last = now;
      split_best = lesser split split_ref;
      lap_best = lesser lap lap_ref;
      split_margin = sub32 split split_ref;
      lap_margin = sub32 lap lap_ref;
    }

-- The next gate crossed at time `now`: the split is the time since the last gate was crossed, the
-- lap the time since the first one was.
unfoldable pub cross_next : (now : ℕ) → (here prev first : Times) → Timer → Timer
unfolding book
cross_next now here prev first c = record c {
  gates = set c.gates c.next_gate (book now (sub32 now prev.last) (sub32 now first.last) here);
  last_gate = c.next_gate;
  next_gate = (c.next_gate + 1) % length c.gates;
}

-- The race is on from the first gate.
abbrev pub go : Timer → Timer
go c = record c { last_gate = 0; next_gate = 1 % length c.gates; racing = true }

-- The start line is crossed at time `now`; `first` are its times.
abbrev pub start_at : (now : ℕ) → (first : Times) → Timer → Timer
start_at now first c = go (record c { gates = set c.gates 0 (record first { last = now }) })

abbrev pub clear : Timer → Timer
clear c = record c { gates = map (λ g. no_times) c.gates }

-- The gates that a crossing looks at: the one that is next, the one crossed last, the first.
pub record Gates (c : Timer) : Type 0 where
  pub here : Times
  pub prev : Times
  pub first : Times
  pub is_here : get_elem? c.gates c.next_gate ≡ some here
  pub is_prev : get_elem? c.gates c.last_gate ≡ some prev
  pub is_first : get_elem? c.gates 0 ≡ some first

-- What is used here of a piece of the loop. Before a race: a track is loaded, or gates are set one after the other;
-- the start line is crossed, or, on a track just set, the lap is closed at it. In a race: a gate
-- is crossed, the times are cleared, or the race is given up.
pub data Step (c : Timer) : Timer → Type 0 where
  loads : (gs : List Times) → c.racing ≡ false → Step c (record c { gates = gs })
  sets_up : c.racing ≡ false → Step c (record c { next_gate = 0 })
  sets_gate : (g : Times) → c.racing ≡ false → Step c (record c { gates = c.gates ++ (g ∷ []) })
  starts :
      (now : ℕ) (g : Times)
      → c.racing ≡ false
      → get_elem? c.gates 0 ≡ some g
      → Step c (start_at now g c)
  closes :
      (now : ℕ) (gs : Gates c)
      → c.racing ≡ false
      → Step c (go (cross_next now gs.here gs.prev gs.first c))
  splits :
      (now : ℕ) (gs : Gates c)
      → c.racing ≡ true
      → Step c (cross_next now gs.here gs.prev gs.first c)
  clears : c.racing ≡ true → Step c (clear c)
  gives_up : c.racing ≡ true → Step c (record (clear c) { racing = false })

pub data Steps (c : Timer) : Timer → Type 0 where
  none_yet : Steps c c
  then_one : {d e : Timer} → Steps c d → Step d e → Steps c e

pub one : {c d : Timer} → Step c d → Steps c d
one s = Steps.then_one Steps.none_yet s

pub Steps-trans : {c d e : Timer} → Steps c d → Steps d e → Steps c e
Steps-trans s (Steps.none_yet) = s
Steps-trans s (Steps.then_one t u) = Steps.then_one (Steps-trans s t) u

-- In a race the gate that is next is the one after the gate crossed last, round the track.
abbrev pub InOrder : Timer → Type 0
InOrder c = c.racing ≡ true → c.next_gate ≡ (c.last_gate + 1) % length c.gates

pub length-map : {A B : Type 0} (f : A → B) (xs : List A) → length (map f xs) ≡ length xs
length-map f [] = refl
length-map f (x ∷ xs) = ap suc (length-map f xs)

Step-InOrder : {c d : Timer} → Step c d → InOrder c → InOrder d
unfolding cross_next
Step-InOrder (Step.loads gs r) o = λ k. cc
Step-InOrder (Step.sets_up r) o = λ k. cc
Step-InOrder (Step.sets_gate g r) o = λ k. cc
Step-InOrder (Step.starts now g r e) o = λ k. refl
Step-InOrder (Step.closes now gs r) o = λ k. refl
Step-InOrder {c = c} (Step.splits now gs r) o = λ k.
    rw
      (length-set c.gates c.next_gate
        (book now (sub32 now gs.prev.last) (sub32 now gs.first.last) gs.here))
      refl
Step-InOrder {c = c} (Step.clears r) o =
    λ k. rw (length-map (λ (g : Times). no_times) c.gates) (o r)
Step-InOrder (Step.gives_up r) o = λ k. cc

pub Steps-InOrder : {c d : Timer} → Steps c d → InOrder c → InOrder d
Steps-InOrder (Steps.none_yet) o = o
Steps-InOrder (Steps.then_one s t) o = Step-InOrder t (Steps-InOrder s o)
