-- ===== src/Visualizer.antt =====
-- The program GPS_visualizer/GPS_visualizer.pde, which reads the lines of the serial monitor and
-- keeps what its `draw` shows. Processing and the Java library are not modelled: they are the
-- parameter `Java`.
pub mod Lines
pub mod Gates
pub mod Telling
pub mod Loading
pub mod Boot
pub mod Setting
pub mod Splits
pub mod Positions
pub mod Harmless
pub mod Texts
pub mod Follow
pub mod Following
pub mod Switching
pub mod Crossing
pub mod Steady
pub mod Runs
pub mod Service
pub mod Hearing
pub mod Arrays
pub mod Picture
pub mod Drawing
use speed_feed.Common.{
  ◌-◌, suc, zero, ℕ, Bool, not, ◌||◌, ◌&&◌, true, false, Option, none, some, List, [], ◌∷◌, ◌++◌,
  ◌==◌, if◌then◌else◌, get_elem?,
}
use speed_feed.Monitor.{codes}

-- `parse_float` is `Float.parseFloat`, `none` where it throws; `rescale` is `map`; `thousandth` is
-- the text of a number divided by 1000.0, and `is_zero` its test for 0.0. The bounds of the picture are those that the program
-- gives to `map`, and `zero` is what a new array holds.
pub record Java : Type 1 where
  pub Float : Type 0
  pub zero : Float
  pub parse_float : List ℕ → Option Float
  pub rescale : (value from to low high : Float) → Float
  pub x_min : Float
  pub x_max : Float
  pub y_min : Float
  pub y_max : Float
  pub width : Float
  pub height : Float
  pub thousandth : Float → List ℕ
  pub is_zero : Float → Bool

-- an array of four numbers
pub record Corners (F : Type 0) : Type 0 where
  pub x1 : F
  pub y1 : F
  pub x2 : F
  pub y2 : F

pub record View (F : Type 0) : Type 0 where
  pub xtrack : List F
  pub ytrack : List F
  pub xtrack_raw : List F
  pub ytrack_raw : List F
  pub waypoints : List (Corners F)
  pub startfinish : Corners F
  pub testline : Corners F
  pub crossline : Corners F
  pub output_text : List ℕ

-- How a line was taken: to its end, up to a `NumberFormatException`, which is caught, or up to a
-- field that is not there, which nothing catches. What was done before stays done.
pub data Taken (V : Type 0) : Type 0 where
  fine : V → Taken V
  bit_error : V → Taken V
  no_field : V → Taken V

infixl 5 ◌>>=◌
abbrev pub ◌>>=◌ : {V : Type 0} → Taken V → (V → Taken V) → Taken V
fine v >>= f = f v
bit_error v >>= f = bit_error v
no_field v >>= f = no_field v

abbrev pub same_text : List ℕ → List ℕ → Bool
same_text [] [] = true
same_text [] (d ∷ ds) = false
same_text (c ∷ cs) [] = false
same_text (c ∷ cs) (d ∷ ds) = let rest = same_text cs ds in c == d && rest

abbrev pub before_first : ℕ → List (List ℕ) → List (List ℕ)
before_first c [] = (c ∷ []) ∷ []
before_first c (f ∷ fs) = (c ∷ f) ∷ fs

-- `split(",")` of a line, which ends in no comma
unfoldable pub split_fields : List ℕ → List (List ℕ)
split_fields [] = [] ∷ []
split_fields (c ∷ cs) =
    let rest = split_fields cs in if c == b',' then [] ∷ rest else before_first c rest

-- The loop that moves the entries of an array down by one; the last one stays as well.
abbrev pub shift_down {ℓ} : {A : Type ℓ} → List A → List A
shift_down [] = []
shift_down (x ∷ []) = x ∷ []
shift_down (x ∷ (y ∷ ys)) = y ∷ shift_down (y ∷ ys)

-- The entry with index `i` of an array, changed.
abbrev pub update {ℓ} : {A : Type ℓ} → ℕ → (A → A) → List A → List A
update i f [] = []
update zero f (x ∷ xs) = f x ∷ xs
update (suc i) f (x ∷ xs) = x ∷ update i f xs

-- wpLimit and numPoints
abbrev pub wp_limit : ℕ
wp_limit = 16

abbrev pub num_points : ℕ
num_points = 16

-- The entries but the last one, mapped.
abbrev pub map_but_last {ℓ κ} : {A : Type ℓ} {B : Type κ} → (A → B) → List A → List B → List B
map_but_last f [] ys = ys
map_but_last f (x ∷ xs) [] = []
map_but_last f (x ∷ []) (y ∷ ys) = y ∷ ys
map_but_last f (x ∷ (x' ∷ xs)) (y ∷ ys) = f x ∷ map_but_last f (x' ∷ xs) ys

abbrev pub repeat {ℓ} : {A : Type ℓ} → ℕ → A → List A
repeat zero x = []
repeat (suc n) x = x ∷ repeat n x

module _ (J : Java) where
  open J use {
    Float, zero, parse_float, rescale, x_min, x_max, y_min, y_max, width, height, thousandth,
    is_zero,
  }

  abbrev pub Shown : Type 0
  Shown = View Float

  abbrev pub to_x : Float → Float
  to_x v = rescale v x_min x_max zero width

  abbrev pub to_y : Float → Float
  to_y v = rescale v y_min y_max zero height

  abbrev origin : Corners Float
  origin = record { x1 = zero; y1 = zero; x2 = zero; y2 = zero }

  -- New arrays.
  unfoldable pub new_view : Shown
  new_view = record {
    xtrack = repeat num_points zero;
    ytrack = repeat num_points zero;
    xtrack_raw = repeat num_points zero;
    ytrack_raw = repeat num_points zero;
    waypoints = repeat wp_limit origin;
    startfinish = origin;
    testline = origin;
    crossline = origin;
    output_text = [];
  }

  -- the number in the field with index `i`
  unfoldable pub with_number : ℕ → List (List ℕ) → Shown → (Float → Taken Shown) → Taken Shown
  with_number i fields v use_it = elim (get_elem? fields i) [
    | none ↦ no_field v
    | some text ↦ elim (parse_float text) [ none ↦ bit_error v | some x ↦ use_it x ]
  ]

  -- Four fields from index `i` on into an array, one after the other; `put` changes the array.
  unfoldable pub take_ends :
      ((Corners Float → Corners Float) → Shown → Shown) → ℕ → List (List ℕ) → Shown → Taken Shown
  unfolding with_number
  take_ends put i fields v =
      with_number i fields v (λ x. fine (put (λ e. record e { x1 = to_x x }) v)) >>= λ v1.
      with_number (suc i) fields v1 (λ y. fine (put (λ e. record e { y1 = to_y y }) v1)) >>= λ v2.
      with_number (suc (suc i)) fields v2 (λ x. fine (put (λ e. record e { x2 = to_x x }) v2))
      >>= λ v3.
          with_number (suc (suc (suc i))) fields v3
            (λ y. fine (put (λ e. record e { y2 = to_y y }) v3))

  abbrev pub in_waypoints : (Corners Float → Corners Float) → Shown → Shown
  in_waypoints f v = record v { waypoints = update (wp_limit - 1) f v.waypoints }

  abbrev pub in_startfinish : (Corners Float → Corners Float) → Shown → Shown
  in_startfinish f v = record v { startfinish = f v.startfinish }

  abbrev pub in_testline : (Corners Float → Corners Float) → Shown → Shown
  in_testline f v = record v { testline = f v.testline }

  abbrev pub in_crossline : (Corners Float → Corners Float) → Shown → Shown
  in_crossline f v = record v { crossline = f v.crossline }

  -- The raw positions move down and the new one comes in at the end; all but the last entry are
  -- mapped anew.
  unfoldable pub on_track : List (List ℕ) → Shown → Taken Shown
  unfolding with_number
  on_track fields v = with_number 1 fields v λ x. with_number 2 fields v λ y.
      (let xs = update (num_points - 1) (λ _. x) (shift_down v.xtrack_raw) in
        let ys = update (num_points - 1) (λ _. y) (shift_down v.ytrack_raw) in
        fine (record v {
          xtrack_raw = xs;
          ytrack_raw = ys;
          xtrack = map_but_last to_x xs (shift_down v.xtrack);
          ytrack = map_but_last to_y ys (shift_down v.ytrack);
        }))

  -- Is the field with index 1, or the one with index 2, "nan"? The test of the latter is there
  -- three times.
  unfoldable pub unless_nan : List (List ℕ) → Shown → Taken Shown → Taken Shown
  unless_nan fields v rest = elim (get_elem? fields 1) [
    | none ↦ no_field v
    | some a ↦ if same_text a (codes "nan") then fine v else elim (get_elem? fields 2) [
      | none ↦ no_field v
      | some b ↦ if same_text b (codes "nan") then fine v else rest
    ]
  ]

  unfoldable pub on_waypoint : List (List ℕ) → Shown → Taken Shown
  unfolding unless_nan take_ends
  on_waypoint fields v =
      let v' = record v { waypoints = shift_down v.waypoints } in
      unless_nan fields v (take_ends in_waypoints 1 fields v')

  unfoldable pub on_startfinish : List (List ℕ) → Shown → Taken Shown
  unfolding unless_nan take_ends
  on_startfinish fields v = unless_nan fields v (take_ends in_startfinish 1 fields v)

  unfoldable pub on_split : List (List ℕ) → Shown → Taken Shown
  unfolding with_number take_ends
  on_split fields v = with_number 1 fields v λ margin. with_number 2 fields v λ split.
      (let text =
          codes "Margin: "
          ++ (thousandth margin ++ (10 ∷ codes "Split: ") ++ (thousandth split ++ (10 ∷ []))) in
        take_ends in_crossline 3 fields (record v { output_text = v.output_text ++ text }))

  -- `serialEvent`, by the first field, which is `name`.
  unfoldable pub by_name : (name : List ℕ) → List (List ℕ) → Shown → Taken Shown
  unfolding on_track on_waypoint on_startfinish take_ends on_split
  by_name name fields v =
      if same_text name (codes "track")
      then on_track fields v
      else (if same_text name (codes "waypoint")
          then on_waypoint fields v
          else (if same_text name (codes "startfinish")
              then on_startfinish fields v
              else (if same_text name (codes "test")
                  then take_ends in_testline 1 fields v
                  else (if same_text name (codes "split")
                      then on_split fields v
                      else (if same_text name (codes "reset") then fine new_view else fine v)))))

  abbrev pub by_fields : List (List ℕ) → Shown → Taken Shown
  by_fields [] v = no_field v
  by_fields (name ∷ rest) v = by_name name (name ∷ rest) v

  unfoldable pub serial_event : List ℕ → Shown → Taken Shown
  unfolding by_name
  serial_event line = by_fields (split_fields line)

module _ (J : Java) where
  open J use {Float, is_zero}

  -- The lines of the track in `draw`, up to the first position at zero; `x` and `y` are the
  -- position before.
  unfoldable pub track_lines : (x y : Float) → (xs ys : List Float) → List (Corners Float)
  track_lines x y [] ys = []
  track_lines x y (x' ∷ xs) [] = []
  track_lines x y (x' ∷ xs) (y' ∷ ys) =
      let rest = track_lines x' y' xs ys in
      if is_zero x' && is_zero y' then [] else record { x1 = x; y1 = y; x2 = x'; y2 = y' } ∷ rest

  unfoldable pub draw_track : Shown J → List (Corners Float)
  unfolding track_lines
  draw_track v = elim v.xtrack [
    | [] ↦ []
    | x ∷ xs ↦ elim v.ytrack [ [] ↦ [] | y ∷ ys ↦ track_lines x y xs ys ]
  ]

  -- All the lines that `draw` draws, in its order; their colours are left out.
  unfoldable pub draw : Shown J → List (Corners Float)
  unfolding draw_track
  draw v = draw_track v ++ (v.waypoints ++ (v.startfinish ∷ v.testline ∷ v.crossline ∷ []))

-- The lines of a text, each with its '\n', and what is left over.
unfoldable pub lines_of : List ℕ → List (List ℕ) × List ℕ
lines_of [] = ([], [])
lines_of (c ∷ cs) =
    let (lines, rest) = lines_of cs in
    if c == 10
    then ((c ∷ []) ∷ lines, rest)
    else elim lines [ [] ↦ ([], c ∷ rest) | line ∷ more ↦ ((c ∷ line) ∷ more, rest) ]

module _ (J : Java) where
  -- One event for each line; `none` once a field that is not there was read.
  unfoldable pub take_lines : List (List ℕ) → Shown J → Option (Shown J)
  unfolding serial_event
  take_lines [] v = some v
  take_lines (line ∷ lines) v = elim (serial_event J line v) [
    | fine v' ↦ take_lines lines v'
    | bit_error v' ↦ take_lines lines v'
    | no_field v' ↦ none
  ]

  unfoldable pub take_text : List ℕ → Shown J → Option (Shown J)
  unfolding lines_of take_lines
  take_text text v = take_lines (lines_of text).0 v
