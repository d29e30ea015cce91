-- ===== src/Visualizer/Harmless.antt =====
-- Lines that leave the gates in GPS_visualizer as they are.
use mathlib.Core.List.{append_assoc}
use speed_feed.Common.{
  ℕ, suc, ◌≡◌, refl, ap, ◌∙◌, none, some, List, [], ◌∷◌, ◌++◌, get_elem?, Option, true, false,
}
use speed_feed.Monitor.{codes, line_end}
use speed_feed.Visualizer.{
  Java, Corners, Shown, Taken, fine, bit_error, no_field, ◌>>=◌, take_text, on_track, on_split,
  take_ends, with_number, in_testline, in_crossline,
}
use speed_feed.Visualizer.Lines.{Plain, take_text-skipped, take_text-dollar, lacks, and_then}

module _ (J : Java) where
  open J use {Float}

  -- The two views have the same gates.
  abbrev pub SameGates : Shown J → Shown J → Type 0
  SameGates v u = (u.startfinish ≡ v.startfinish) × (u.waypoints ≡ v.waypoints)

  -- A line was taken, to its end or to a number with an error, and the gates are those of `v`.
  abbrev Spares : Shown J → Taken (Shown J) → Type 0
  Spares v (fine u) = SameGates v u
  Spares v (bit_error u) = SameGates v u
  Spares v (no_field u) = true ≡ false

  Spares->>= :
      (v : Shown J) (m : Taken (Shown J)) (f : Shown J → Taken (Shown J))
      → Spares v m
      → ((u : Shown J) → SameGates v u → Spares v (f u))
      → Spares v (m >>= f)
  Spares->>= v (fine u) f h k = k u h
  Spares->>= v (bit_error u) f h k = h
  Spares->>= v (no_field u) f h k = cc

  Spares-option :
      (v u : Shown J) (o : Option Float) (f : Float → Taken (Shown J))
      → SameGates v u
      → ((x : Float) → Spares v (f x))
      → Spares v (elim o [ none ↦ bit_error u | some x ↦ f x ])
  Spares-option v u none f h k = h
  Spares-option v u (some x) f h k = k x

  with_number-Spares :
      (v u : Shown J) (i : ℕ) (fields : List (List ℕ)) (text : List ℕ) (f : Float → Taken (Shown J))
      → get_elem? fields i ≡ some text
      → SameGates v u
      → ((x : Float) → Spares v (f x))
      → Spares v (with_number J i fields u f)
  unfolding with_number
  with_number-Spares v u i fields text f e h k = found (get_elem? fields i) e
    where
      found :
          (o : Option (List ℕ))
          → o ≡ some text
          → Spares v (elim o [
            | none ↦ no_field u
            | some t ↦ elim (J.parse_float t) [ none ↦ bit_error u | some x ↦ f x ]
          ])
      found none e = cc
      found (some t) e = Spares-option v u (J.parse_float t) f h k

  take_ends-Spares :
      (put : (Corners Float → Corners Float) → Shown J → Shown J) (v u : Shown J) (i : ℕ)
      (fields : List (List ℕ)) (a b c d : List ℕ)
      → get_elem? fields i ≡ some a
      → get_elem? fields (suc i) ≡ some b
      → get_elem? fields (suc (suc i)) ≡ some c
      → get_elem? fields (suc (suc (suc i))) ≡ some d
      → ((g : Corners Float → Corners Float) (w : Shown J) → SameGates v w → SameGates v (put g w))
      → SameGates v u
      → Spares v (take_ends J put i fields u)
  unfolding take_ends
  take_ends-Spares put v u i fields a b c d ha hb hc hd k h =
      Spares->>= v _ _ (with_number-Spares v u i fields a _ ha h λ x. k _ u h) λ u1 h1.
        Spares->>= v _ _ (with_number-Spares v u1 (suc i) fields b _ hb h1 λ x. k _ u1 h1) λ u2 h2.
          Spares->>= v _ _ (with_number-Spares v u2 (suc (suc i)) fields c _ hc h2 λ x. k _ u2 h2)
            λ u3 h3. with_number-Spares v u3 (suc (suc (suc i))) fields d _ hd h3 λ x. k _ u3 h3

  pub on_track-Spares :
      (name a b : List ℕ) (v : Shown J) → Spares v (on_track J (name ∷ a ∷ b ∷ []) v)
  unfolding on_track with_number
  on_track-Spares name a b v =
      let same : SameGates v v = (refl, refl) in
      Spares-option v v (J.parse_float a) _ same
        λ x. Spares-option v v (J.parse_float b) _ same λ y. same

  pub on_test-Spares :
      (name a b c d : List ℕ) (v : Shown J)
      → Spares v (take_ends J (in_testline J) 1 (name ∷ a ∷ b ∷ c ∷ d ∷ []) v)
  on_test-Spares name a b c d v =
      take_ends-Spares (in_testline J) v v 1 (name ∷ a ∷ b ∷ c ∷ d ∷ []) a b c d refl refl refl refl
        (λ g w h. h) (refl, refl)

  abbrev written : Shown J → Float → Float → Shown J
  written v x y = record v {
    output_text =
        v.output_text
        ++ (codes "Margin: "
            ++ (J.thousandth x ++ (10 ∷ codes "Split: ") ++ (J.thousandth y ++ (10 ∷ []))));
  }

  pub on_split-Spares :
      (name m s a b c d : List ℕ) (v : Shown J)
      → Spares v (on_split J (name ∷ m ∷ s ∷ a ∷ b ∷ c ∷ d ∷ []) v)
  unfolding on_split with_number
  on_split-Spares name m s a b c d v =
      let same : SameGates v v = (refl, refl) in
      let fields = name ∷ m ∷ s ∷ a ∷ b ∷ c ∷ d ∷ [] in
      Spares-option v v (J.parse_float m) _ same λ x.
        Spares-option v v (J.parse_float s) _ same λ y.
          take_ends-Spares (in_crossline J) v (written v x y) 3 fields a b c d refl refl refl refl
            (λ g w h. h) (refl, refl)

  -- A text after which the gates are as they were in `v`, whatever comes then.
  pub record IsHarmless (text : List ℕ) (v : Shown J) : Type 0 where
    pub view : Shown J
    pub same : SameGates v view
    pub taken : (t : List ℕ) → take_text J (text ++ t) v ≡ take_text J t view

  pub IsHarmless-line :
      (text : List ℕ) (v : Shown J) (m : Taken (Shown J))
      → ((t : List ℕ) → take_text J (text ++ t) v ≡ and_then J t m)
      → Spares v m
      → IsHarmless text v
  IsHarmless-line text v (fine u) h s = record { view = u; same = s; taken = h }
  IsHarmless-line text v (bit_error u) h s = record { view = u; same = s; taken = h }
  IsHarmless-line text v (no_field u) h s = cc

  pub IsHarmless-append :
      (a b : List ℕ) (v : Shown J)
      → IsHarmless a v
      → ((u : Shown J) → IsHarmless b u)
      → IsHarmless (a ++ b) v
  IsHarmless-append a b v p q =
      let p' = q p.view in
      record {
        view = p'.view;
        same = (p'.same.0 ∙ p.same.0, p'.same.1 ∙ p.same.1);
        taken = λ t. ap (λ l. take_text J l v) (append_assoc a b t) ∙ p.taken (b ++ t) ∙ p'.taken t;
      }

  pub skipped-IsHarmless : (s : List ℕ) (v : Shown J) → Plain s → IsHarmless (s ++ line_end) v
  skipped-IsHarmless s v p = record {
    view = v;
    same = (refl, refl);
    taken =
        λ t. ap (λ l. take_text J l v) (append_assoc s line_end t) ∙ take_text-skipped J s t v p;
  }

  -- a sentence that is echoed
  pub sentence-IsHarmless :
      (r : List ℕ) (v : Shown J) → lacks 10 r ≡ true → IsHarmless ((b'$' ∷ r) ++ line_end) v
  sentence-IsHarmless r v p = record {
    view = v;
    same = (refl, refl);
    taken = λ t.
        ap (λ l. take_text J (b'$' ∷ l) v) (append_assoc r line_end t)
        ∙ take_text-dollar J [] r t v (refl, refl) p;
  }
