-- ===== src/Led/Frame.antt =====
-- What an LED leaves alone: its own pin numbers, and the level of every other pin.
use speed_feed.Common.{ℕ, ◌≡◌, ◌≢◌, arith}
use speed_feed.Platform.{World, level}
use speed_feed.Led.{
  Led, off, drive, set_led, blink_continuous, update_led, expire, alternate, toggle, settle,
}

abbrev pub IsApart : ℕ → Led → Type 0
IsApart p l = (p ≢ l.pin_red) × (p ≢ l.pin_grn)

-- `r` is what became of `l` and `w` by an operation of the LED.
pub record IsLocal (l : Led) (w : World) (r : Led × World) : Type 0 where
  pub same_red : r.0.pin_red ≡ l.pin_red
  pub same_grn : r.0.pin_grn ≡ l.pin_grn
  pub others : (p : ℕ) → IsApart p l → level r.1 p ≡ level w p

pub set_led-IsLocal : (l : Led) (s dt : ℕ) (w : World) → IsLocal l w (set_led l s dt w)
unfolding set_led drive
set_led-IsLocal l s dt w = record {
  same_red = ground arith;
  same_grn = ground arith;
  others = λ p a. ground arith;
}

pub blink_continuous-IsLocal :
    (l : Led) (color high low limit : ℕ) (w : World)
    → IsLocal l w (blink_continuous l color high low limit w)
unfolding blink_continuous drive
blink_continuous-IsLocal l color high low limit w = record {
  same_red = ground arith;
  same_grn = ground arith;
  others = λ p a. ground arith;
}

expire-IsLocal : (now : ℕ) (l : Led) (w : World) → IsLocal l w (expire now l w)
unfolding expire drive
expire-IsLocal now l w = record {
  same_red = ground arith;
  same_grn = ground arith;
  others = λ p a. ground arith;
}

toggle-IsLocal :
    (now time after : ℕ) (l : Led) (w : World) → IsLocal l w (toggle now time after l w)
unfolding toggle drive
toggle-IsLocal now time after l w = record {
  same_red = ground arith;
  same_grn = ground arith;
  others = λ p a. ground arith;
}

alternate-IsLocal : (now : ℕ) (l : Led) (w : World) → IsLocal l w (alternate now l w)
unfolding alternate
alternate-IsLocal now l w =
    let a = toggle-IsLocal now l.low_time off l w in
    let b = toggle-IsLocal now l.high_time l.blink l w in
    record {
      same_red = ground (arith, a.same_red, b.same_red);
      same_grn = ground (arith, a.same_grn, b.same_grn);
      others = λ p q. ground (arith, a.others p q, b.others p q);
    }

settle-IsLocal : (now : ℕ) (l : Led) (w : World) → IsLocal l w (settle now l w)
unfolding settle drive
settle-IsLocal now l w = record {
  same_red = ground arith;
  same_grn = ground arith;
  others = λ p a. ground arith;
}

pub update_led-IsLocal : (now : ℕ) (l : Led) (w : World) → IsLocal l w (update_led now l w)
unfolding update_led
update_led-IsLocal now l w =
    let e = expire-IsLocal now l w in
    let a = alternate-IsLocal now (expire now l w).0 (expire now l w).1 in
    let s = settle-IsLocal now l w in
    record {
      same_red = ground (arith, e.same_red, a.same_red, s.same_red);
      same_grn = ground (arith, e.same_grn, a.same_grn, s.same_grn);
      others =
          λ p q. ground (arith, e.others p q, s.others p q, e.same_red, e.same_grn, a.others p);
    }
