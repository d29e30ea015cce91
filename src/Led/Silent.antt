-- ===== src/Led/Silent.antt =====
-- The line "Invalid LED State..." of `setPins` is never printed for an LED whose colours are valid,
-- and they stay so.
use speed_feed.Common.{◌∷◌, [], ◌∙◌, ◌==◌, if◌then◌else◌, false, true, Bool, ℕ, ◌≡◌, ◌≤◌, arith}
use speed_feed.Platform.{millis, tick, World}
use speed_feed.Monitor.{monitor}
use speed_feed.Led.{
  led_update, Led, off, yellow, drive, set_led, new_led, blink_continuous, update_led, expire,
  alternate, toggle, settle,
}

-- The colours that an LED shows, will show and blinks in are among the four.
pub record IsColoured (l : Led) : Type 0 where
  pub state : l.state ≤ yellow
  pub next : l.next_state ≤ yellow
  pub blink : l.blink ≤ yellow

-- `r` is what became of an LED and the world `w`: it has valid colours, and nothing was printed.
pub record IsSilent (w : World) (r : Led × World) : Type 0 where
  pub coloured : IsColoured r.0
  pub monitor_same : monitor r.1 ≡ monitor w

pub set_led-IsSilent :
    (l : Led) (s dt : ℕ) (w : World) → s ≤ yellow → IsColoured l → IsSilent w (set_led l s dt w)
unfolding set_led drive
set_led-IsSilent l s dt w h c = ground arith

pub new_led-IsSilent :
    (memory : Led) (red_pin grn_pin init : ℕ) (w : World)
    → init ≤ yellow
    → IsSilent w (new_led memory red_pin grn_pin init w)
unfolding new_led set_led drive
new_led-IsSilent memory red_pin grn_pin init w h = ground arith

pub blink_continuous-IsSilent :
    (l : Led) (color high low limit : ℕ) (w : World)
    → color ≤ yellow
    → IsColoured l
    → IsSilent w (blink_continuous l color high low limit w)
unfolding blink_continuous drive
blink_continuous-IsSilent l color high low limit w h c = ground arith

expire-IsSilent : (now : ℕ) (l : Led) (w : World) → IsColoured l → IsSilent w (expire now l w)
unfolding expire drive
expire-IsSilent now l w c = ground arith

toggle-IsSilent :
    (now time after : ℕ) (l : Led) (w : World)
    → after ≤ yellow
    → IsColoured l
    → IsSilent w (toggle now time after l w)
unfolding toggle drive
toggle-IsSilent now time after l w h c = ground arith

settle-IsSilent : (now : ℕ) (l : Led) (w : World) → IsColoured l → IsSilent w (settle now l w)
unfolding settle drive
settle-IsSilent now l w c = ground arith

if-IsSilent :
    {w : World} {r r' : Led × World} (b : Bool)
    → IsSilent w r
    → IsSilent w r'
    → IsSilent w (if b then r else r')
if-IsSilent true h k = h
if-IsSilent false h k = k

alternate-IsSilent : (now : ℕ) (l : Led) (w : World) → IsColoured l → IsSilent w (alternate now l w)
unfolding alternate
alternate-IsSilent now l w c =
    if-IsSilent (l.state == off) (toggle-IsSilent now l.low_time off l w (omega arith) c)
      (toggle-IsSilent now l.high_time l.blink l w c.blink c)

pub update_led-IsSilent :
    (now : ℕ) (l : Led) (w : World) → IsColoured l → IsSilent w (update_led now l w)
unfolding update_led
update_led-IsSilent now l w c =
    let e = expire-IsSilent now l w c in
    let (l', w') = expire now l w in
    let a = alternate-IsSilent now l' w' e.coloured in
    if-IsSilent (l.blink == off) (settle-IsSilent now l w c)
      (record { coloured = a.coloured; monitor_same = a.monitor_same ∙ e.monitor_same })

-- `ledUpdate` on the two LEDs of a sketch; `now` is the time that it reads.
pub led_update-IsSilent :
    (lap splt : Led) (w : World)
    → IsColoured lap
    → IsColoured splt
    → let now = millis w in
      let r = update_led now lap (tick w) in
      IsColoured r.0
      × IsColoured (update_led now splt r.1).0
      × (monitor (led_update (lap ∷ splt ∷ []) w).1 ≡ monitor w)
unfolding led_update
led_update-IsSilent lap splt w c d =
    let now = millis w in
    let a = update_led-IsSilent now lap (tick w) c in
    let b = update_led-IsSilent now splt (update_led now lap (tick w)).1 d in
    (a.coloured, b.coloured, b.monitor_same ∙ a.monitor_same)
