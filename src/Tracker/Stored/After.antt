-- ===== src/Tracker/Stored/After.antt =====
-- The second `switch` of the loop writes the EEPROM where it closes a track, and nowhere else.
use mathlib.Core.Path.{subst}
use speed_feed.Tracker.Racing.{
  timer_or, record_split, cross, no_cross, test_gate, race_on, race_case,
}
use speed_feed.Tracker.Loop.{
  echo_sentence, heard, cross_start, init_case, store_and_race, close_on, close_track, by_fix,
  push_track, end_pass, took, use_fix, after_parse, on_sentence, second_half,
}
use speed_feed.Tracker.State.{
  ◌>>=◌, State, st_reset, st_init, st_sfset, st_wpset, st_race, Kit, disk1, done, lift, >>=-eq-done,
  done-injective,
}
use speed_feed.Common.{
  ◌∙◌, if◌then◌else◌, get_elem?, set, ℕ, ◌≡◌, refl, ◌⊎◌, inl, inr, Bool, true, false, some, arith,
}
use speed_feed.Double.{Double}
use speed_feed.Sentence.{first}
use speed_feed.Eeprom.{Bus, store_waypoints}
use speed_feed.Nmea.{Gps, parse}
use speed_feed.Waypoint.{Waypoint}
use speed_feed.Tracker.Startup.{on_world, Sketch}
use speed_feed.Receiver.{last_nmea}

module _ (D : Double) (B : Bus) (kit : Kit D.Real) where
  open D use {Real}

  -- The track `u.waypoints` has been stored over `s`, and the race is on.
  pub record IsStored (s : B.State) (u : Sketch D B kit) : Type 0 where
    pub stored : u.eeprom ≡ store_waypoints D B disk1 0 u.waypoints s
    pub races : u.next_state ≡ st_race

  abbrev pub KeptOrStored : State → B.State → Sketch D B kit → Type 0
  KeptOrStored state s u =
      ((u.eeprom ≡ s) × (state ≡ st_wpset → u.next_state ≡ st_wpset))
      ⊎ ((state ≡ st_wpset) × IsStored s u)

  init_case-eeprom : (t u : Sketch D B kit) → init_case D B kit t ≡ done u → u.eeprom ≡ t.eeprom
  unfolding init_case cross_start
  init_case-eeprom t u h =
      let (r, e, h') = >>=-eq-done (test_gate D B kit 0 t) _ h in ground (arith, h')

  cross-eeprom :
      (gate : Waypoint Real) (t u : Sketch D B kit)
      → cross D B kit gate t ≡ done u
      → u.eeprom ≡ t.eeprom
  unfolding cross record_split
  cross-eeprom gate t u h =
      let ps = set t.waypoints t.wp_next gate in
      let (prev, e1, h1) = >>=-eq-done (lift (get_elem? ps t.wp_last)) _ h in
      let (first, e2, h2) = >>=-eq-done (lift (get_elem? ps 0)) _ h1 in
      subst (λ (v : Sketch D B kit). v.eeprom ≡ t.eeprom) (done-injective h2) refl

  race_on-eeprom :
      (timer : ℕ) (t u : Sketch D B kit) (r : Bool × Waypoint Real)
      → race_on D B kit timer t r ≡ done u
      → u.eeprom ≡ t.eeprom
  unfolding race_on no_cross
  race_on-eeprom timer t u (true, gate) h = cross-eeprom gate t u h
  race_on-eeprom timer t u (false, gate) h = ground arith

  race_case-eeprom : (t u : Sketch D B kit) → race_case D B kit t ≡ done u → u.eeprom ≡ t.eeprom
  unfolding race_case
  race_case-eeprom t u h =
      let (timer, w) = timer_or t.reset_timer t.lights.world in
      let t' = record (on_world D B kit (λ _. w) t) { reset_timer = some timer } in
      let (r, e', h') = >>=-eq-done (test_gate D B kit t.wp_next t') _ h in
      race_on-eeprom timer t' u r h'

  close_on-eeprom :
      (t u : Sketch D B kit) (r : Bool × Waypoint Real)
      → close_on D B kit t r ≡ done u
      → t.next_state ≡ st_wpset
      → KeptOrStored st_wpset t.eeprom u
  unfolding close_on store_and_race
  close_on-eeprom t u (false, gate) h n = inl (ground arith, λ _. ground arith)
  close_on-eeprom t u (true, gate) h n =
      let ps = set t.waypoints 0 gate in
      let (here, e1, h1) = >>=-eq-done (lift (get_elem? ps t.wp_next)) _ h in
      let (prev, e2, h2) = >>=-eq-done (lift (get_elem? ps t.wp_last)) _ h1 in
      subst (KeptOrStored st_wpset t.eeprom) (done-injective h2)
        (inr (refl, record { stored = refl; races = refl }))

  pub by_fix-eeprom :
      (s : State) (t u : Sketch D B kit)
      → by_fix D B kit s t ≡ done u
      → t.next_state ≡ s
      → KeptOrStored s t.eeprom u
  unfolding by_fix close_track
  by_fix-eeprom st_reset t u h n = inl (ground arith, λ e. ground arith)
  by_fix-eeprom st_init t u h n = inl (init_case-eeprom t u h, λ e. ground arith)
  by_fix-eeprom st_sfset t u h n = inl (ground arith, λ e. ground arith)
  by_fix-eeprom st_wpset t u h n =
      let (r, e', h') = >>=-eq-done (test_gate D B kit 0 t) _ h in close_on-eeprom t u r h' n
  by_fix-eeprom st_race t u h n = inl (race_case-eeprom t u h, λ e. ground arith)

  -- The second half of a pass, from the state `s` in which the sentence is looked at.
  abbrev pub EndsStored : State → B.State → Sketch D B kit → Type 0
  EndsStored s disk u =
      ((u.eeprom ≡ disk) × (s ≡ st_wpset → u.current_state ≡ st_wpset))
      ⊎ ((s ≡ st_wpset)
          × (u.eeprom ≡ store_waypoints D B disk1 0 u.waypoints disk)
          × (u.current_state ≡ st_race))

  end_pass-EndsStored :
      (state : State) (s : B.State) (t : Sketch D B kit)
      → KeptOrStored state s t
      → EndsStored state s (end_pass D B kit t)
  unfolding end_pass
  end_pass-EndsStored state s t (inl k) = inl k
  end_pass-EndsStored state s t (inr (e, k)) = inr (e, k.stored, k.races)

  fix_part-EndsStored :
      (fix : Bool) (t u : Sketch D B kit)
      → ((if fix then by_fix D B kit t.current_state (push_track D B kit t) else done t) >>= λ t'.
          done (end_pass D B kit t'))
        ≡ done u
      → t.next_state ≡ t.current_state
      → EndsStored t.current_state t.eeprom u
  unfolding push_track
  fix_part-EndsStored true t u h n =
      let (t', e, h') = >>=-eq-done (by_fix D B kit t.current_state (push_track D B kit t)) _ h in
      subst (EndsStored t.current_state t.eeprom) (done-injective h') (
        end_pass-EndsStored t.current_state t.eeprom t'
          (by_fix-eeprom t.current_state (push_track D B kit t) t' e n))
  fix_part-EndsStored false t u h n =
      subst (EndsStored t.current_state t.eeprom) (done-injective h)
        (end_pass-EndsStored t.current_state t.eeprom t (inl (refl, λ e. n ∙ e)))

  after_parse-EndsStored :
      (t u : Sketch D B kit) (parsed : Bool) (gps : Gps Real)
      → after_parse D B kit t (parsed, gps) ≡ done u
      → EndsStored t.next_state t.eeprom u
  unfolding after_parse use_fix took echo_sentence
  after_parse-EndsStored t u true gps h = fix_part-EndsStored gps.fix (heard D B kit gps t) u h refl
  after_parse-EndsStored t u false gps h = inl (ground arith, λ e. ground arith)

  pub second_half-EndsStored :
      (t u : Sketch D B kit) → second_half D B kit t ≡ done u → EndsStored t.next_state t.eeprom u
  unfolding second_half on_sentence
  second_half-EndsStored t u h = came-EndsStored t.receiver.recvdflag h
    where
      came-EndsStored :
          (came : Bool)
          → (if came
              then (lift (parse D (last_nmea t.receiver).0 t.gps) >>= after_parse D B kit t)
              else done (end_pass D B kit t))
            ≡ done u
          → EndsStored t.next_state t.eeprom u
      came-EndsStored true h =
          let (r, e, h') = >>=-eq-done (lift (parse D (last_nmea t.receiver).0 t.gps)) _ h in
          after_parse-EndsStored t u r.0 r.1 h'
      came-EndsStored false h =
          subst (EndsStored t.next_state t.eeprom) (done-injective h)
            (end_pass-EndsStored t.next_state t.eeprom t (inl (refl, λ e. e)))
