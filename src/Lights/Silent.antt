-- ===== src/Lights/Silent.antt =====
-- The operations on the two LEDs of a sketch print nothing, if the colours are valid.
use speed_feed.Common.{ℕ, ◌≤◌, ◌≡◌, ◌∙◌}
use speed_feed.Led.{yellow, led_update}
use speed_feed.Led.Silent.{
  IsColoured, set_led-IsSilent, blink_continuous-IsSilent, led_update-IsSilent,
}
use speed_feed.Lights.{
  blink_splt_lap, set_lap_splt, set_splt_lap, Lights, set_lap, set_splt, blink_lap, blink_splt,
  blink_lap_splt, update_lights,
}
use speed_feed.Monitor.{monitor}

-- Both LEDs of a sketch have valid colours.
abbrev pub AreColoured : Lights → Type 0
AreColoured l = IsColoured l.lap × IsColoured l.splt

-- `l'` is what became of `l`: the colours are valid, and nothing was printed.
abbrev pub StaysSilent : Lights → Lights → Type 0
StaysSilent l l' = AreColoured l' × (monitor l'.world ≡ monitor l.world)

pub StaysSilent-trans :
    (l l' l'' : Lights) → StaysSilent l l' → StaysSilent l' l'' → StaysSilent l l''
StaysSilent-trans l l' l'' a b = (b.0, b.1 ∙ a.1)

pub set_lap-silent :
    (s dt : ℕ) (l : Lights) → s ≤ yellow → AreColoured l → StaysSilent l (set_lap s dt l)
unfolding set_lap
set_lap-silent s dt l h c =
    let a = set_led-IsSilent l.lap s dt l.world h c.0 in ((a.coloured, c.1), a.monitor_same)

pub set_splt-silent :
    (s dt : ℕ) (l : Lights) → s ≤ yellow → AreColoured l → StaysSilent l (set_splt s dt l)
unfolding set_splt
set_splt-silent s dt l h c =
    let a = set_led-IsSilent l.splt s dt l.world h c.1 in ((c.0, a.coloured), a.monitor_same)

-- both to one colour, in the one order and in the other
pub set_splt_lap-silent :
    (s dt : ℕ) (l : Lights) → s ≤ yellow → AreColoured l → StaysSilent l (set_splt_lap s dt l)
set_splt_lap-silent s dt l h c =
    let a = set_splt-silent s dt l h c in
    StaysSilent-trans l (set_splt s dt l) (set_splt_lap s dt l) a
      (set_lap-silent s dt (set_splt s dt l) h a.0)

pub set_lap_splt-silent :
    (s dt : ℕ) (l : Lights) → s ≤ yellow → AreColoured l → StaysSilent l (set_lap_splt s dt l)
set_lap_splt-silent s dt l h c =
    let a = set_lap-silent s dt l h c in
    StaysSilent-trans l (set_lap s dt l) (set_lap_splt s dt l) a
      (set_splt-silent s dt (set_lap s dt l) h a.0)

-- `blinkContinuous` of the one and the other
blink_lap-silent :
    (color high low limit : ℕ) (l : Lights)
    → color ≤ yellow
    → AreColoured l
    → StaysSilent l (blink_lap color high low limit l)
unfolding blink_lap
blink_lap-silent color high low limit l h c =
    let a = blink_continuous-IsSilent l.lap color high low limit l.world h c.0 in
    ((a.coloured, c.1), a.monitor_same)

blink_splt-silent :
    (color high low limit : ℕ) (l : Lights)
    → color ≤ yellow
    → AreColoured l
    → StaysSilent l (blink_splt color high low limit l)
unfolding blink_splt
blink_splt-silent color high low limit l h c =
    let a = blink_continuous-IsSilent l.splt color high low limit l.world h c.1 in
    ((c.0, a.coloured), a.monitor_same)

pub blink-silent :
    (color high low limit : ℕ) (l : Lights)
    → color ≤ yellow
    → AreColoured l
    → StaysSilent l (blink_lap_splt color high low limit l)
blink-silent color high low limit l h c =
    let l' = blink_lap color high low limit l in
    let a = blink_lap-silent color high low limit l h c in
    StaysSilent-trans l l' (blink_lap_splt color high low limit l) a
      (blink_splt-silent color high low limit l' h a.0)

pub blink_splt_lap-silent :
    (color high low limit : ℕ) (l : Lights)
    → color ≤ yellow
    → AreColoured l
    → StaysSilent l (blink_splt_lap color high low limit l)
blink_splt_lap-silent color high low limit l h c =
    let l' = blink_splt color high low limit l in
    let a = blink_splt-silent color high low limit l h c in
    StaysSilent-trans l l' (blink_splt_lap color high low limit l) a
      (blink_lap-silent color high low limit l' h a.0)

pub update_lights-silent : (l : Lights) → AreColoured l → StaysSilent l (update_lights l)
unfolding update_lights led_update
update_lights-silent l c =
    let a = led_update-IsSilent l.lap l.splt l.world c.0 c.1 in ((a.0, a.1), a.2)
