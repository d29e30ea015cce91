-- ===== src/Led/Board.antt =====
-- `ledUpdate` over all LEDs of a board (SpeedFeed.cpp): each LED keeps its own pins in step and
-- leaves those of the others alone.
use speed_feed.Common.{ℕ, ◌≡◌, refl, ◌∙◌, ◌⊎◌, inl, inr, List, [], ◌∷◌, arith}
use speed_feed.Platform.{World, level, tick, millis}
use speed_feed.Led.{Led, update_led, update_each, led_update}
use speed_feed.Led.Shows.{Shows, update_led-Shows}
use speed_feed.Led.Frame.{IsApart, IsLocal, update_led-IsLocal}

-- no pin of the one is a pin of the other
abbrev pub IsSeparate : Led → Led → Type 0
IsSeparate l m = IsApart m.pin_red l × IsApart m.pin_grn l

abbrev pub SeparateFrom : Led → List Led → Type 0
SeparateFrom l [] = Unit
SeparateFrom l (m ∷ ms) = IsSeparate l m × SeparateFrom l ms

-- Every LED shows its state, and no two share a pin.
abbrev pub BoardShows : List Led → World → Type 0
BoardShows [] w = Unit
BoardShows (l ∷ ls) w = Shows l w × SeparateFrom l ls × BoardShows ls w

-- a world that differs from `w` only at pins outside the LED
Shows-transfer :
    (l : Led) (w v : World)
    → level v l.pin_red ≡ level w l.pin_red
    → level v l.pin_grn ≡ level w l.pin_grn
    → Shows l w
    → Shows l v
Shows-transfer l w v r g h = ground arith

BoardShows-transfer :
    (l : Led) (w : World) (r : Led × World) (ls : List Led)
    → IsLocal l w r
    → SeparateFrom l ls
    → BoardShows ls w
    → BoardShows ls r.1
BoardShows-transfer l w r [] e s b = tt
BoardShows-transfer l w r (m ∷ ms) e s b = (
  Shows-transfer m w r.1 (e.others m.pin_red s.0.0) (e.others m.pin_grn s.0.1) b.0,
  b.1,
  BoardShows-transfer l w r ms e s.1 b.2,
)

SeparateFrom-same_pins :
    (l l' : Led) (ls : List Led)
    → l'.pin_red ≡ l.pin_red
    → l'.pin_grn ≡ l.pin_grn
    → SeparateFrom l ls
    → SeparateFrom l' ls
SeparateFrom-same_pins l l' [] r g s = tt
SeparateFrom-same_pins l l' (m ∷ ms) r g s = (ground arith, SeparateFrom-same_pins l l' ms r g s.1)

update_each-SeparateFrom :
    (k : Led) (now : ℕ) (ls : List Led) (w : World)
    → SeparateFrom k ls
    → SeparateFrom k (update_each now ls w).0
unfolding update_each
update_each-SeparateFrom k now [] w s = tt
update_each-SeparateFrom k now (l ∷ ls) w s = (
  ground (arith, (update_led-IsLocal now l w).same_red, (update_led-IsLocal now l w).same_grn),
  update_each-SeparateFrom k now ls (update_led now l w).1 s.1,
)

update_each-level :
    (p : ℕ) (k : Led) (now : ℕ) (ls : List Led) (w : World)
    → ((p ≡ k.pin_red) ⊎ (p ≡ k.pin_grn))
    → SeparateFrom k ls
    → level (update_each now ls w).1 p ≡ level w p
unfolding update_each
update_each-level p k now [] w h s = refl
update_each-level p k now (l ∷ ls) w h s =
    update_each-level p k now ls (update_led now l w).1 h s.1
    ∙ (update_led-IsLocal now l w).others p (ground arith)

update_each-BoardShows :
    (now : ℕ) (ls : List Led) (w : World)
    → BoardShows ls w
    → BoardShows (update_each now ls w).0 (update_each now ls w).1
unfolding update_each
update_each-BoardShows now [] w b = tt
update_each-BoardShows now (l ∷ ls) w b =
    let r = update_led now l w in
    let loc = update_led-IsLocal now l w in
    let sep : SeparateFrom r.0 ls = SeparateFrom-same_pins l r.0 ls loc.same_red loc.same_grn b.1 in
    (
      Shows-transfer r.0 r.1 (update_each now ls r.1).1
          (update_each-level r.0.pin_red r.0 now ls r.1 (inl refl) sep)
          (update_each-level r.0.pin_grn r.0 now ls r.1 (inr refl) sep)
          (update_led-Shows now l w b.0),
      update_each-SeparateFrom r.0 now ls r.1 sep,
      update_each-BoardShows now ls r.1 (BoardShows-transfer l w r ls loc b.1 b.2),
    )

-- Reading the clock changes no pin.
BoardShows-tick : (ls : List Led) (w : World) → BoardShows ls w → BoardShows ls (tick w)
BoardShows-tick [] w b = tt
BoardShows-tick (l ∷ ls) w b =
    (Shows-transfer l w (tick w) refl refl b.0, b.1, BoardShows-tick ls w b.2)

-- If every LED of a board shows its state and no two share a pin, then the same holds after
-- `ledUpdate`, whatever time it is.
pub led_update-BoardShows :
    (ls : List Led) (w : World)
    → BoardShows ls w
    → BoardShows (led_update ls w).0 (led_update ls w).1
unfolding led_update
led_update-BoardShows ls w b =
    update_each-BoardShows (millis w) ls (tick w) (BoardShows-tick ls w b)
