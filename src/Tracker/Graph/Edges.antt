-- ===== src/Tracker/Graph/Edges.antt =====
-- The graph of the states of GPS_tracker_Single_Split.ino.
use mathlib.Core.Path.{subst}
use speed_feed.Common.{◌≡◌, ◌⊎◌, inl, inr, sym}
use speed_feed.Tracker.State.{State, st_reset, st_init, st_wpset, st_race}

-- The first `switch` of a pass stays in a state or leaves ST_RESET.
pub data BootMove : State → State → Type 0 where
  waits : {s : State} → BootMove s s
  boots : BootMove st_reset st_init
  services : BootMove st_reset st_wpset

-- The second one stays in a state or follows one of three edges.
pub data FixMove : State → State → Type 0 where
  stays : {s : State} → FixMove s s
  starts : FixMove st_init st_race
  closes : FixMove st_wpset st_race
  stops : FixMove st_race st_init

pub BootMove-either :
    {s a b x : State} → BootMove s a → BootMove s b → (x ≡ a) ⊎ (x ≡ b) → BootMove s x
BootMove-either {s = s} m n (inl e) = subst (BootMove s) (sym e) m
BootMove-either {s = s} m n (inr e) = subst (BootMove s) (sym e) n

pub BootMove-same : {s x : State} → x ≡ s → BootMove s x
BootMove-same {s = s} e = subst (BootMove s) (sym e) waits

pub FixMove-either : {s a b x : State} → FixMove s a → FixMove s b → (x ≡ a) ⊎ (x ≡ b) → FixMove s x
FixMove-either {s = s} m n (inl e) = subst (FixMove s) (sym e) m
FixMove-either {s = s} m n (inr e) = subst (FixMove s) (sym e) n

pub FixMove-same : {s x : State} → x ≡ s → FixMove s x
FixMove-same {s = s} e = subst (FixMove s) (sym e) stays
