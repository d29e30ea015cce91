-- ===== src/Examples/Chip.antt =====
-- A concrete bus with a memory chip behind it, for the parameter `Bus`.
use speed_feed.Common.{
  ℕ, ◌+◌, ◌*◌, ◌≡◌, refl, ◌&&◌, some, List, [], ◌∷◌, arith, ◌==◌, if◌then◌else◌,
}
use speed_feed.Eeprom.{Bus}
use speed_feed.Eeprom.Cells.{IsEeprom}

-- The address register, and the byte of each device at each address.
pub record Chip : Type 0 where
  pub pointer : ℕ
  pub memory : ℕ → ℕ → ℕ

abbrev pub chip_send : ℕ → List ℕ → Chip → Chip
chip_send d (m ∷ (l ∷ [])) s = record s { pointer = m * 256 + l }
chip_send d (m ∷ (l ∷ (b ∷ []))) s = record s {
  pointer = m * 256 + l + 1;
  memory = λ d' a. if (d == d') && (m * 256 + l == a) then b else s.memory d' a;
}
chip_send d _ s = s

abbrev pub chip_bus : Bus
chip_bus = record {
  State = Chip;
  send = chip_send;
  request = λ d s. (some (s.memory d s.pointer), record s { pointer = s.pointer + 1 });
}

pub chip_send-write :
    (s : Chip) (d m l b a : ℕ)
    → (chip_send d (m ∷ l ∷ b ∷ []) s).memory d a ≡ (if m * 256 + l == a then b else s.memory d a)
chip_send-write s d m l b a = ground arith

abbrev pub chip-IsEeprom : IsEeprom chip_bus
chip-IsEeprom = record {
  cell = λ s d a. s.memory d a;
  cell-write = λ s d m l b a hm hl hb. chip_send-write s d m l b a;
  reply = λ s d m l hm hl. refl;
  cell-request = λ s d m l a. refl;
}

-- a chip from the factory: every byte is 255
abbrev pub blank_chip : Chip
blank_chip = record { pointer = 0; memory = λ d a. 255 }
