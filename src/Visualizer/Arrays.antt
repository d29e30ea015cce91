-- ===== src/Visualizer/Arrays.antt =====
-- The arrays of GPS_visualizer, whatever it reads.
use speed_feed.Common.{
  some-injective, ◌++◌, ◌∙◌, sym, drop, map, ℕ, zero, suc, ◌≡◌, refl, ap, Bool, true, false,
  if◌then◌else◌, Option, none, some, List, [], ◌∷◌, arith, length, get_elem?,
}
use speed_feed.Visualizer.{
  Taken, fine, bit_error, no_field, update, shift_down, map_but_last, ◌>>=◌,
}

-- What holds of the view in the end, however the line was taken.
abbrev pub After : {V : Type 0} → (V → Type 0) → Taken V → Type 0
After P (fine v) = P v
After P (bit_error v) = P v
After P (no_field v) = P v

pub After->>= :
    {V : Type 0} (P : V → Type 0) (m : Taken V) (f : V → Taken V)
    → After P m
    → ((v : V) → P v → After P (f v))
    → After P (m >>= f)
After->>= P (fine v) f h k = k v h
After->>= P (bit_error v) f h k = h
After->>= P (no_field v) f h k = h

pub After-if :
    {V : Type 0} (P : V → Type 0) (b : Bool) (m n : Taken V)
    → After P m
    → After P n
    → After P (if b then m else n)
After-if P true m n h k = h
After-if P false m n h k = k

pub After-option :
    {V A : Type 0} (P : V → Type 0) (o : Option A) (m : Taken V) (f : A → Taken V)
    → After P m
    → ((a : A) → After P (f a))
    → After P (elim o [ none ↦ m | some a ↦ f a ])
After-option P none m f h k = h
After-option P (some a) m f h k = k a

module _ {A : Type 0} where
  pub length-update : (i : ℕ) (f : A → A) (xs : List A) → length (update i f xs) ≡ length xs
  length-update i f [] = refl
  length-update zero f (x ∷ xs) = refl
  length-update (suc i) f (x ∷ xs) = ap suc (length-update i f xs)

  pub length-shift_down : (xs : List A) → length (shift_down xs) ≡ length xs
  length-shift_down [] = refl
  length-shift_down (x ∷ []) = refl
  length-shift_down (x ∷ (y ∷ ys)) = ap suc (length-shift_down (y ∷ ys))

  -- The last entry stays where it was.
  pub last-shift_down :
      (xs : List A) (n : ℕ) → length xs ≡ suc n → get_elem? (shift_down xs) n ≡ get_elem? xs n
  last-shift_down [] n h = refl
  last-shift_down (x ∷ []) n h = refl
  last-shift_down (x ∷ (y ∷ ys)) zero h = absurd (omega arith)
  last-shift_down (x ∷ (y ∷ ys)) (suc n) h = last-shift_down (y ∷ ys) n (omega arith)

  pub length-map_but_last :
      (f : A → A) (xs ys : List A)
      → length xs ≡ length ys
      → length (map_but_last f xs ys) ≡ length ys
  length-map_but_last f [] ys h = refl
  length-map_but_last f (x ∷ xs) [] h = refl
  length-map_but_last f (x ∷ []) (y ∷ ys) h = refl
  length-map_but_last f (x ∷ (x' ∷ xs)) (y ∷ ys) h =
      ap suc (length-map_but_last f (x' ∷ xs) ys (omega arith))

  pub last-map_but_last :
      (f : A → A) (xs ys : List A) (n : ℕ)
      → length xs ≡ suc n
      → length ys ≡ suc n
      → get_elem? (map_but_last f xs ys) n ≡ get_elem? ys n
  last-map_but_last f [] ys n h k = refl
  last-map_but_last f (x ∷ xs) [] n h k = refl
  last-map_but_last f (x ∷ []) (y ∷ ys) n h k = refl
  last-map_but_last f (x ∷ (x' ∷ xs)) (y ∷ ys) zero h k = absurd (omega arith)
  last-map_but_last f (x ∷ (x' ∷ xs)) (y ∷ ys) (suc n) h k =
      last-map_but_last f (x' ∷ xs) ys n (omega arith) (omega arith)

  -- A new entry at the end, when all others have moved down.
  pub update-newest :
      (ws : List A) (e : A) (n : ℕ)
      → length ws ≡ suc n
      → update n (λ _. e) (shift_down ws) ≡ drop 1 (ws ++ (e ∷ []))
  update-newest [] e n h = absurd (omega arith)
  update-newest (w ∷ []) e zero h = refl
  update-newest (w ∷ []) e (suc n) h = absurd (omega arith)
  update-newest (w ∷ (w' ∷ ws)) e zero h = absurd (omega arith)
  update-newest (w ∷ (w' ∷ ws)) e (suc n) h =
      ap (λ l. w' ∷ l) (update-newest (w' ∷ ws) e n (omega arith))

  -- All entries but the last are mapped, which stays.
  map_but_last-end :
      (f : A → A) (us ys : List A) (x z : A)
      → length ys ≡ suc (length us)
      → get_elem? ys (length us) ≡ some z
      → map_but_last f (us ++ (x ∷ [])) ys ≡ map f us ++ (z ∷ [])
  map_but_last-end f us [] x z h k = absurd (omega arith)
  map_but_last-end f [] (y ∷ []) x z h k = ap (λ a. a ∷ []) (some-injective k)
  map_but_last-end f [] (y ∷ (y' ∷ ys)) x z h k = absurd (omega arith)
  map_but_last-end f (u ∷ []) (y ∷ ys) x z h k =
      ap (λ l. f u ∷ l) (map_but_last-end f [] ys x z (omega arith) k)
  map_but_last-end f (u ∷ (u' ∷ us)) (y ∷ ys) x z h k =
      ap (λ l. f u ∷ l) (map_but_last-end f (u' ∷ us) ys x z (omega arith) k)

  -- One array of the raw positions and one of those in the picture, when a position comes.
  pub map_but_last-newest :
      (f : A → A) (raw ys : List A) (x z : A) (n : ℕ)
      → length raw ≡ suc n
      → length ys ≡ suc n
      → get_elem? ys n ≡ some z
      → map_but_last f (update n (λ _. x) (shift_down raw)) (shift_down ys)
        ≡ map f (drop 1 raw) ++ (z ∷ [])
  map_but_last-newest f [] ys x z n h k l = absurd (omega arith)
  map_but_last-newest f (r ∷ raw) ys x z n h k l =
      let m : length raw ≡ n = omega arith in
      ap (λ a. map_but_last f a (shift_down ys)) (update-newest (r ∷ raw) x n h)
      ∙ map_but_last-end f raw (shift_down ys) x z (length-shift_down ys ∙ k ∙ ap suc (sym m))
          (ap (λ i. get_elem? (shift_down ys) i) m ∙ last-shift_down ys n k ∙ l)
