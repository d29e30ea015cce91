-- ===== src/Visualizer/Picture.antt =====
-- What holds of the view of GPS_visualizer, whatever it reads.
use mathlib.Core.Path.{subst}
use speed_feed.Monitor.{codes}
use speed_feed.Common.{
  sym, ℕ, suc, ◌-◌, ◌≡◌, refl, ◌∙◌, none, some, some-injective, List, [], ◌∷◌, arith, length,
  get_elem?,
}
use speed_feed.Visualizer.{
  to_y, to_x, Java, Corners, Taken, fine, bit_error, no_field, Shown, update, shift_down,
  map_but_last, wp_limit, num_points, new_view, with_number, take_ends, on_track, unless_nan,
  on_waypoint, on_startfinish, on_split, by_name, by_fields, serial_event, split_fields, take_lines,
  in_waypoints, in_startfinish, in_testline, in_crossline, same_text,
}
use speed_feed.Visualizer.Arrays.{
  After, After->>=, After-if, After-option, length-update, length-shift_down, last-shift_down,
  length-map_but_last, last-map_but_last,
}

module _ (J : Java) where
  open J use {Float}

  -- The arrays have their length, and the last entries of the mapped positions are zero.
  pub record IsPicture (v : Shown J) : Type 0 where
    pub xs : length v.xtrack ≡ num_points
    pub ys : length v.ytrack ≡ num_points
    pub raw_xs : length v.xtrack_raw ≡ num_points
    pub raw_ys : length v.ytrack_raw ≡ num_points
    pub gates : length v.waypoints ≡ wp_limit
    pub last_x : get_elem? v.xtrack (num_points - 1) ≡ some J.zero
    pub last_y : get_elem? v.ytrack (num_points - 1) ≡ some J.zero

  pub new_view-IsPicture : IsPicture (new_view J)
  unfolding new_view
  new_view-IsPicture = record {
    xs = refl;
    ys = refl;
    raw_xs = refl;
    raw_ys = refl;
    gates = refl;
    last_x = refl;
    last_y = refl;
  }

  abbrev Keeps : Taken (Shown J) → Type 0
  Keeps = After IsPicture

  with_number-Keeps :
      (i : ℕ) (fields : List (List ℕ)) (v : Shown J) (f : Float → Taken (Shown J))
      → IsPicture v
      → ((x : Float) → Keeps (f x))
      → Keeps (with_number J i fields v f)
  unfolding with_number
  with_number-Keeps i fields v f p k =
      After-option IsPicture (get_elem? fields i) _ _ p
        (λ text. After-option IsPicture (J.parse_float text) _ _ p k)

  take_ends-Keeps :
      (put : (Corners Float → Corners Float) → Shown J → Shown J) (i : ℕ) (fields : List (List ℕ))
      (v : Shown J)
      → ((g : Corners Float → Corners Float) (u : Shown J) → IsPicture u → IsPicture (put g u))
      → IsPicture v
      → Keeps (take_ends J put i fields v)
  unfolding take_ends
  take_ends-Keeps put i fields v k p =
      After->>= IsPicture _ _ (with_number-Keeps i fields v _ p (λ x. k _ v p)) (λ v1 p1.
        After->>= IsPicture _ _ (with_number-Keeps (suc i) fields v1 _ p1 (λ y. k _ v1 p1))
          (λ v2 p2.
            After->>= IsPicture _ _
              (with_number-Keeps (suc (suc i)) fields v2 _ p2 (λ x. k _ v2 p2))
              (λ v3 p3. with_number-Keeps (suc (suc (suc i))) fields v3 _ p3 (λ y. k _ v3 p3))))

  moved-IsPicture :
      (v : Shown J) → IsPicture v → IsPicture (record v { waypoints = shift_down v.waypoints })
  moved-IsPicture v p = record {
    xs = p.xs;
    ys = p.ys;
    raw_xs = p.raw_xs;
    raw_ys = p.raw_ys;
    gates = length-shift_down v.waypoints ∙ p.gates;
    last_x = p.last_x;
    last_y = p.last_y;
  }

  in_waypoints-IsPicture :
      (g : Corners Float → Corners Float) (v : Shown J)
      → IsPicture v
      → IsPicture (in_waypoints J g v)
  in_waypoints-IsPicture g v p = record {
    xs = p.xs;
    ys = p.ys;
    raw_xs = p.raw_xs;
    raw_ys = p.raw_ys;
    gates = length-update (wp_limit - 1) g v.waypoints ∙ p.gates;
    last_x = p.last_x;
    last_y = p.last_y;
  }

  -- the picture with a new position
  tracked-IsPicture :
      (x y : Float) (v : Shown J)
      → IsPicture v
      → let xs = update (num_points - 1) (λ _. x) (shift_down v.xtrack_raw) in
        let ys = update (num_points - 1) (λ _. y) (shift_down v.ytrack_raw) in
        IsPicture (record v {
          xtrack_raw = xs;
          ytrack_raw = ys;
          xtrack = map_but_last (to_x J) xs (shift_down v.xtrack);
          ytrack = map_but_last (to_y J) ys (shift_down v.ytrack);
        })
  tracked-IsPicture x y v p =
      let xs = moved-length x v.xtrack_raw p.raw_xs in
      let ys = moved-length y v.ytrack_raw p.raw_ys in
      let ts = length-shift_down v.xtrack ∙ p.xs in
      let us = length-shift_down v.ytrack ∙ p.ys in
      record {
        xs = length-map_but_last (to_x J) _ _ (xs ∙ sym ts) ∙ ts;
        ys = length-map_but_last (to_y J) _ _ (ys ∙ sym us) ∙ us;
        raw_xs = xs;
        raw_ys = ys;
        gates = p.gates;
        last_x =
            last-map_but_last (to_x J) _ _ (num_points - 1) xs ts
            ∙ last-shift_down v.xtrack (num_points - 1) p.xs
            ∙ p.last_x;
        last_y =
            last-map_but_last (to_y J) _ _ (num_points - 1) ys us
            ∙ last-shift_down v.ytrack (num_points - 1) p.ys
            ∙ p.last_y;
      }
    where
      moved-length :
          (x : Float) (l : List Float)
          → length l ≡ num_points
          → length (update (num_points - 1) (λ _. x) (shift_down l)) ≡ num_points
      moved-length x l h =
          length-update (num_points - 1) (λ _. x) (shift_down l) ∙ length-shift_down l ∙ h

  unless_nan-Keeps :
      (fields : List (List ℕ)) (v : Shown J) (rest : Taken (Shown J))
      → IsPicture v
      → Keeps rest
      → Keeps (unless_nan J fields v rest)
  unfolding unless_nan
  unless_nan-Keeps fields v rest p k = After-option IsPicture (get_elem? fields 1) _ _ p (λ a.
      After-if IsPicture (same_text a (codes "nan")) _ _ p (
        After-option IsPicture (get_elem? fields 2) _ _ p
          (λ b. After-if IsPicture (same_text b (codes "nan")) _ _ p k)))

  on_track-Keeps :
      (fields : List (List ℕ)) (v : Shown J) → IsPicture v → Keeps (on_track J fields v)
  unfolding on_track
  on_track-Keeps fields v p =
      with_number-Keeps 1 fields v _ p
        (λ x. with_number-Keeps 2 fields v _ p (λ y. tracked-IsPicture x y v p))

  -- a change to no array that the invariant is about
  same_arrays :
      (v u : Shown J)
      → IsPicture v
      → (u.xtrack ≡ v.xtrack)
        × (u.ytrack ≡ v.ytrack)
        × (u.xtrack_raw ≡ v.xtrack_raw)
        × (u.ytrack_raw ≡ v.ytrack_raw)
        × (u.waypoints ≡ v.waypoints)
      → IsPicture u
  same_arrays v u p e = ground (arith, p)

  by_name-Keeps :
      (name : List ℕ) (fields : List (List ℕ)) (v : Shown J)
      → IsPicture v
      → Keeps (by_name J name fields v)
  unfolding by_name on_waypoint on_startfinish on_split
  by_name-Keeps name fields v p =
      let pick = λ (text : List ℕ). After-if IsPicture (same_text name text) in
      pick (codes "track") _ _ (on_track-Keeps fields v p) (
        pick (codes "waypoint") _ _
          (unless_nan-Keeps fields v _ p (
            take_ends-Keeps (in_waypoints J) 1 fields _ in_waypoints-IsPicture
              (moved-IsPicture v p)))
          (pick (codes "startfinish") _ _
            (unless_nan-Keeps fields v _ p (
              take_ends-Keeps (in_startfinish J) 1 fields v
                (λ g u q. same_arrays u _ q (refl, refl, refl, refl, refl)) p))
            (pick (codes "test") _ _
              (take_ends-Keeps (in_testline J) 1 fields v
                (λ g u q. same_arrays u _ q (refl, refl, refl, refl, refl)) p)
              (pick (codes "split") _ _
                (with_number-Keeps 1 fields v _ p (λ m. with_number-Keeps 2 fields v _ p (λ s.
                  take_ends-Keeps (in_crossline J) 3 fields _
                    (λ g u q. same_arrays u _ q (refl, refl, refl, refl, refl))
                    (same_arrays v _ p (refl, refl, refl, refl, refl)))))
                (pick (codes "reset") _ _ new_view-IsPicture p)))))

  serial_event-Keeps : (line : List ℕ) (v : Shown J) → IsPicture v → Keeps (serial_event J line v)
  unfolding serial_event
  serial_event-Keeps line v p = fields-Keeps (split_fields line)
    where
      fields-Keeps : (fields : List (List ℕ)) → Keeps (by_fields J fields v)
      fields-Keeps [] = p
      fields-Keeps (name ∷ rest) = by_name-Keeps name (name ∷ rest) v p

  pub take_lines-IsPicture :
      (lines : List (List ℕ)) (v v' : Shown J)
      → take_lines J lines v ≡ some v'
      → IsPicture v
      → IsPicture v'
  unfolding take_lines
  take_lines-IsPicture [] v v' h p = subst IsPicture (some-injective h) p
  take_lines-IsPicture (line ∷ lines) v v' h p =
      next (serial_event J line v) (serial_event-Keeps line v p)
        (λ u. take_lines-IsPicture lines u v') h
    where
      next :
          (m : Taken (Shown J))
          → Keeps m
          → ((u : Shown J) → take_lines J lines u ≡ some v' → IsPicture u → IsPicture v')
          → (elim m [
            | fine u ↦ take_lines J lines u
            | bit_error u ↦ take_lines J lines u
            | no_field u ↦ none
          ])
            ≡ some v'
          → IsPicture v'
      next (fine u) k ih e = ih u e k
      next (bit_error u) k ih e = ih u e k
      next (no_field u) k ih e = cc
