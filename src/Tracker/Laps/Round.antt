-- ===== src/Tracker/Laps/Round.antt =====
-- The first lap after the times have been cleared.
use speed_feed.Tracker.Laps.Cross.{get_elem?-length}
use speed_feed.Tracker.Laps.{Times, Timer, book, cross_next, Gates}
use speed_feed.Tracker.Split.{get_elem?-set_other, get_elem?-set_same}
use speed_feed.Common.{
  some-injective, length, get_elem?, set, length-set, sub32, ℕ, zero, suc, ◌+◌, ◌%◌, ◌^◌, ◌<◌, ◌≡◌,
  refl, sym, ap, ◌∙◌, ◌≢◌, some, List, [], ◌∷◌, arith,
}
use mathlib.Core.Path.{subst, ap₂}
use native.Mathlib.Nat.{mod_self, mod-eq_of_lt}

abbrev pub total_best : List Times → ℕ
total_best [] = 0
total_best (g ∷ gs) = g.split_best + total_best gs

abbrev pub AllNew : List Times → Type 0
AllNew [] = Unit
AllNew (g ∷ gs) = (g.split_best ≡ 0) × AllNew gs

-- A number of crossings, one after the other.
pub data Crossings (c : Timer) : Timer → ℕ → Type 0 where
  no_crossing : Crossings c c 0
  one_more :
      {d : Timer} {k : ℕ} (now : ℕ) (gs : Gates d)
      → now < 2 ^ 32
      → Crossings c d k
      → Crossings c (cross_next now gs.here gs.prev gs.first d) (suc k)

total_best-AllNew : (gs : List Times) → AllNew gs → total_best gs ≡ 0
total_best-AllNew [] h = refl
total_best-AllNew (g ∷ gs) h = omega (arith, h.0, total_best-AllNew gs h.1)

get_elem?-AllNew :
    (gs : List Times) (i : ℕ) {g : Times} → AllNew gs → get_elem? gs i ≡ some g → g.split_best ≡ 0
get_elem?-AllNew [] i h e = cc
get_elem?-AllNew (g ∷ gs) zero h e = ground (arith, h.0)
get_elem?-AllNew (g ∷ gs) (suc i) h e = get_elem?-AllNew gs i h.1 e

total_best-set :
    (gs : List Times) (i : ℕ) (v : Times) {g : Times}
    → get_elem? gs i ≡ some g
    → total_best (set gs i v) + g.split_best ≡ total_best gs + v.split_best
total_best-set [] i v e = cc
total_best-set (x ∷ gs) zero v e = ground arith
total_best-set (x ∷ gs) (suc i) v e = omega (arith, total_best-set gs i v e)

-- At a gate with no best split the times of the crossing are taken as they are.
book-new :
    (now split lap : ℕ) (g : Times)
    → g.split_best ≡ 0
    → let b = book now split lap g in (b.last ≡ now) × (b.split_best ≡ split) × (b.lap_best ≡ lap)
unfolding book
book-new now split lap g h = ground (arith, h)

-- After k crossings, not yet round the track: the gates behind the last one are as they were, as
-- is the first, and the best splits add up to the time from the start to the last crossing.
record IsUnderWay (c : Timer) (k : ℕ) (d : Timer) : Type 0 where
  size : length d.gates ≡ length c.gates
  last_is : d.last_gate ≡ k
  next_is : d.next_gate ≡ (k + 1) % length c.gates
  first_same : k < length c.gates → get_elem? d.gates 0 ≡ get_elem? c.gates 0
  rest_same : (i : ℕ) → k < i → get_elem? d.gates i ≡ get_elem? c.gates i
  adds_up :
      (first last : Times)
      → get_elem? c.gates 0 ≡ some first
      → get_elem? d.gates k ≡ some last
      → ((first.last + total_best d.gates) % 2 ^ 32 ≡ last.last) × (last.last < 2 ^ 32)

-- the split that is booked at a gate without a best one, and the sum of all of them
crossing_adds :
    (first_last total total' now prev_last here_best new_best : ℕ)
    → total' + here_best ≡ total + new_best
    → here_best ≡ 0
    → new_best ≡ sub32 now prev_last
    → (first_last + total) % 2 ^ 32 ≡ prev_last
    → prev_last < 2 ^ 32
    → now < 2 ^ 32
    → ((first_last + total') % 2 ^ 32 ≡ now)
      × (first_last < 2 ^ 32 → sub32 now first_last ≡ total' % 2 ^ 32)
crossing_adds fl t t' now pl hb nb a b c d e f = (omega arith, λ g. omega arith)

underway-next :
    (c d : Timer) (k now : ℕ) (gs : Gates d)
    → AllNew c.gates
    → k + 1 < length c.gates
    → now < 2 ^ 32
    → IsUnderWay c k d
    → IsUnderWay c (k + 1) (cross_next now gs.here gs.prev gs.first d)
unfolding cross_next
underway-next c d k now gs new l w v =
    let split = sub32 now gs.prev.last in
    let lap = sub32 now gs.first.last in
    let b = book now split lap gs.here in
    let at : d.next_gate ≡ k + 1 = v.next_is ∙ mod-eq_of_lt l in
    let here : get_elem? c.gates (k + 1) ≡ some gs.here =
      sym (v.rest_same (k + 1) (omega arith)) ∙ rw (← at) gs.is_here in
    let fresh = get_elem?-AllNew c.gates (k + 1) new here in
    let booked = book-new now split lap gs.here fresh in
    let set_here =
      subst (λ (i : ℕ). get_elem? (set d.gates d.next_gate b) i ≡ some b) at
        (get_elem?-set_same d.gates d.next_gate b
          (get_elem?-length d.gates d.next_gate gs.is_here)) in
    let other = λ (i : ℕ) (n : k + 1 ≢ i).
      get_elem?-set_other d.gates d.next_gate i b (λ e. n (sym at ∙ e)) in
    record {
      size = length-set d.gates d.next_gate b ∙ v.size;
      last_is = at;
      next_is = ap₂ (λ (i n : ℕ). (i + 1) % n) at v.size;
      first_same = λ m. other 0 (λ e. omega arith) ∙ v.first_same (omega arith);
      rest_same = λ i m. other i (λ e. omega arith) ∙ v.rest_same i (omega arith);
      adds_up = λ first last f h.
          let before = v.adds_up first gs.prev f (rw (← v.last_is) gs.is_prev) in
          let sum =
            crossing_adds first.last (total_best d.gates) _ now gs.prev.last _ _
              (total_best-set d.gates d.next_gate b gs.is_here) fresh booked.1 before.0 before.1
              w in
          let e : b ≡ last = some-injective (sym set_here ∙ h) in
          (sum.0 ∙ sym booked.0 ∙ ap (λ (t : Times). t.last) e, rw (← e) (rw booked.0 w));
    }

underway-none :
    (c : Timer) (g : Times)
    → AllNew c.gates
    → c.last_gate ≡ 0
    → c.next_gate ≡ 1 % length c.gates
    → get_elem? c.gates 0 ≡ some g
    → g.last < 2 ^ 32
    → IsUnderWay c 0 c
underway-none c g new l n at w = record {
  size = refl;
  last_is = l;
  next_is = n;
  first_same = λ m. refl;
  rest_same = λ i m. refl;
  adds_up = λ first last f h.
      let e : g ≡ first = some-injective (sym at ∙ f) in
      let e' : g ≡ last = some-injective (sym at ∙ h) in
      rw (← e, ← e') (omega (arith, total_best-AllNew c.gates new, w), w);
}

Crossings-IsUnderWay :
    (c d : Timer) (k : ℕ)
    → Crossings c d k
    → k < length c.gates
    → AllNew c.gates
    → IsUnderWay c 0 c
    → IsUnderWay c k d
Crossings-IsUnderWay c d k (Crossings.no_crossing) l new v = v
Crossings-IsUnderWay c d k (Crossings.one_more {d = e} {k = j} now gs w run) l new v =
    let s : suc j ≡ j + 1 = omega arith in
    let ih = Crossings-IsUnderWay c e j run (omega arith) new v in
    rw s (underway-next c e j now gs new (omega arith) w ih)

-- What the crossing of the start line leaves there.
closing_lap :
    (c d : Timer) (k now : ℕ) (gs : Gates d) (g : Times)
    → AllNew c.gates
    → k + 1 ≡ length c.gates
    → now < 2 ^ 32
    → get_elem? c.gates 0 ≡ some g
    → g.last < 2 ^ 32
    → IsUnderWay c k d
    → let e = cross_next now gs.here gs.prev gs.first d in
      (h : Times) × (get_elem? e.gates 0 ≡ some h) × (h.lap_best ≡ total_best e.gates % 2 ^ 32)
unfolding cross_next
closing_lap c d k now gs g new l w at small v =
    let b = book now (sub32 now gs.prev.last) (sub32 now gs.first.last) gs.here in
    let home : d.next_gate ≡ 0 =
      v.next_is ∙ ap (λ n. n % length c.gates) l ∙ mod_self (length c.gates) in
    let same = v.first_same (omega arith) in
    let here : get_elem? c.gates 0 ≡ some gs.here = sym same ∙ rw (← home) gs.is_here in
    let fresh = get_elem?-AllNew c.gates 0 new here in
    let booked = book-new now (sub32 now gs.prev.last) (sub32 now gs.first.last) gs.here fresh in
    let first : g ≡ gs.first = some-injective (sym at ∙ sym same ∙ gs.is_first) in
    let before = v.adds_up g gs.prev at (rw (← v.last_is) gs.is_prev) in
    let sum =
      crossing_adds g.last (total_best d.gates) _ now gs.prev.last _ _
        (total_best-set d.gates d.next_gate b gs.is_here) fresh booked.1 before.0 before.1 w in
    (
      b,
      subst (λ (i : ℕ). get_elem? (set d.gates d.next_gate b) i ≡ some b) home
          (get_elem?-set_same d.gates d.next_gate b
            (get_elem?-length d.gates d.next_gate gs.is_here)),
      booked.2 ∙ ap (λ (t : Times). sub32 now t.last) (sym first) ∙ sum.1 small,
    )

-- From a timer with no times, after as many crossings as there are gates: the best lap at the
-- first gate is the sum of the best splits.
pub first_lap :
    (c d : Timer) (m : ℕ) (g : Times)
    → Crossings c d m
    → m ≡ length c.gates
    → AllNew c.gates
    → c.last_gate ≡ 0
    → c.next_gate ≡ 1 % length c.gates
    → get_elem? c.gates 0 ≡ some g
    → g.last < 2 ^ 32
    → (h : Times) × (get_elem? d.gates 0 ≡ some h) × (h.lap_best ≡ total_best d.gates % 2 ^ 32)
first_lap c d m g (Crossings.no_crossing) e new l n at w =
    absurd (omega (arith, get_elem?-length c.gates 0 at))
first_lap c d m g (Crossings.one_more {d = f} {k = k} now gs small run) e new l n at w =
    closing_lap c f k now gs g new (omega arith) small at w
      (Crossings-IsUnderWay c f k run (omega arith) new (underway-none c g new l n at w))
