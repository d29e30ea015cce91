-- ===== src/Tracker/Ends.antt =====
-- The ends of the gates stay as they are, whatever happens to their times.
use speed_feed.Common.{
  ℕ, zero, suc, ◌≡◌, refl, ap, sym, ◌∙◌, some, some-injective, List, [], ◌∷◌, arith, get_elem?, set,
  map,
}
use speed_feed.Double.{Double}
use speed_feed.Platform.{World}
use speed_feed.Geometry.{Point, intersection}
use speed_feed.Eeprom.RoundTrip.{ends}
use speed_feed.Waypoint.{Waypoint, reset, reset_waypoint, check_split}

pub set-ends :
    {R : Type 0} (ps : List (Waypoint R)) (i : ℕ) (p q : Waypoint R)
    → get_elem? ps i ≡ some p
    → ends q ≡ ends p
    → map ends (set ps i q) ≡ map ends ps
set-ends [] i p q h e = refl
set-ends (r ∷ ps) zero p q h e = ap (λ c. c ∷ map ends ps) (e ∙ ap ends (sym (some-injective h)))
set-ends (r ∷ ps) (suc i) p q h e = ap (λ l. ends r ∷ l) (set-ends ps i p q h e)

module _ (D : Double) where
  open D use {Real}

  pub reset-ends : (ps : List (Waypoint Real)) → map ends (reset D ps) ≡ map ends ps
  unfolding reset reset_waypoint
  reset-ends [] = refl
  reset-ends (p ∷ ps) = ap (λ l. ends p ∷ l) (reset-ends ps)

  pub check_split-ends :
      (p obj : Waypoint Real) (n : ℕ) (w : World) → ends (check_split D p obj n w).0 ≡ ends p
  unfolding check_split
  check_split-ends p obj n w = ground arith

  pub intersection-ends :
      (a b : Point Real) (g : Waypoint Real) → ends (intersection D a b g).1 ≡ ends g
  unfolding intersection
  intersection-ends a b g = ground arith
