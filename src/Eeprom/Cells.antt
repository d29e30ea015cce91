-- ===== src/Eeprom/Cells.antt =====
-- The EEPROM as cells of bytes behind the bus (EEPROMAnything), and what runs of writes and
-- reads do to them.
use speed_feed.Common.{
  ℕ, zero, suc, ◌+◌, ◌*◌, ◌/◌, ◌%◌, ◌≤◌, ◌<◌, ◌≡◌, refl, ◌∙◌, ap, some, List, [], ◌∷◌, ◌++◌, arith,
  length, ◌==◌, if◌then◌else◌,
}
use mathlib.Core.Path.{subst, ap₂}
use speed_feed.Eeprom.{Bus, write_eeprom, read_eeprom, write_anything, read_anything}

abbrev pub IsByte : ℕ → Type 0
IsByte b = b < 256

abbrev pub AllBytes : List ℕ → Type 0
AllBytes [] = Unit
AllBytes (b ∷ bs) = IsByte b × AllBytes bs

-- What the data sheet of a 24LC512 on the I2C bus says: the two bytes that come first set the
-- address, a third one is stored there, and a read returns the byte at the address. `cell s d a`
-- is the byte of device d at address a.
pub record IsEeprom (B : Bus) : Type 0 where
  pub cell : B.State → ℕ → ℕ → ℕ
  pub cell-write :
      (s : B.State) (d m l b a : ℕ)
      → IsByte m
      → IsByte l
      → IsByte b
      → cell (B.send d (m ∷ l ∷ b ∷ []) s) d a ≡ (if m * 256 + l == a then b else cell s d a)
  pub reply :
      (s : B.State) (d m l : ℕ)
      → IsByte m
      → IsByte l
      → (B.request d (B.send d (m ∷ l ∷ []) s)).0 ≡ some (cell s d (m * 256 + l))
  pub cell-request :
      (s : B.State) (d m l a : ℕ) → cell (B.request d (B.send d (m ∷ l ∷ []) s)).1 d a ≡ cell s d a

-- the addresses that two bytes reach
abbrev pub capacity : ℕ
capacity = 65536

module _ (B : Bus) (E : IsEeprom B) (d : ℕ) where
  open B use {State}
  open E use {cell, cell-write, reply, cell-request}

  -- from `address` on the cells hold `bs`
  abbrev pub Holds : State → ℕ → List ℕ → Type 0
  Holds s address [] = Unit
  Holds s address (b ∷ bs) = (cell s d address ≡ b) × Holds s (address + 1) bs

  abbrev pub SameCells : State → State → Type 0
  SameCells s s' = (a : ℕ) → cell s' d a ≡ cell s d a

  pub Holds-SameCells :
      (s s' : State) (address : ℕ) (bs : List ℕ)
      → SameCells s s'
      → Holds s address bs
      → Holds s' address bs
  Holds-SameCells s s' address [] e h = tt
  Holds-SameCells s s' address (b ∷ bs) e h =
      (e address ∙ h.0, Holds-SameCells s s' (address + 1) bs e h.1)

  pub Holds-append :
      (s : State) (address : ℕ) (bs cs : List ℕ)
      → Holds s address bs
      → Holds s (address + length bs) cs
      → Holds s address (bs ++ cs)
  Holds-append s address [] cs h k = subst (λ a. Holds s a cs) (omega arith) k
  Holds-append s address (b ∷ bs) cs h k =
      (h.0, Holds-append s (address + 1) bs cs h.1 (subst (λ a. Holds s a cs) (omega arith) k))

  cell-write_eeprom :
      (s : State) (address b a : ℕ)
      → address < capacity
      → IsByte b
      → cell (write_eeprom B d address b s) d a ≡ (if address == a then b else cell s d a)
  unfolding write_eeprom
  cell-write_eeprom s address b a h k =
      let e : address / 256 % 256 * 256 + address % 256 ≡ address = omega arith in
      cell-write s d (address / 256 % 256) (address % 256) b a (omega arith) (omega arith) k
      ∙ ap (λ (t : ℕ). if t == a then b else cell s d a) e

  cell-read_eeprom :
      (s : State) (address : ℕ)
      → address < capacity
      → ((read_eeprom B d address s).0 ≡ cell s d address)
        × SameCells s (read_eeprom B d address s).1
  unfolding read_eeprom
  cell-read_eeprom s address h =
      let e : address / 256 % 256 * 256 + address % 256 ≡ address = omega arith in
      let r = reply s d (address / 256 % 256) (address % 256) (omega arith) (omega arith) in
      (rw r (ap (cell s d) e), λ a. cell-request s d (address / 256 % 256) (address % 256) a)

  -- A run of writes leaves the cells below it alone.
  pub write_anything-below :
      (bs : List ℕ) (address a : ℕ) (s : State)
      → a < address
      → address + length bs ≤ capacity
      → AllBytes bs
      → cell (write_anything B d address bs s) d a ≡ cell s d a
  unfolding write_anything
  write_anything-below [] address a s h k all = refl
  write_anything-below (b ∷ bs) address a s h k all =
      write_anything-below bs (address + 1) a (write_eeprom B d address b s) (omega arith)
        (omega arith) all.1
      ∙ ground (arith, cell-write_eeprom s address b a)

  -- A run of writes leaves its bytes in the cells.
  pub write_anything-Holds :
      (bs : List ℕ) (address : ℕ) (s : State)
      → address + length bs ≤ capacity
      → AllBytes bs
      → Holds (write_anything B d address bs s) address bs
  unfolding write_anything
  write_anything-Holds [] address s k all = tt
  write_anything-Holds (b ∷ bs) address s k all = (
    write_anything-below bs (address + 1) address (write_eeprom B d address b s) (omega arith)
          (omega arith) all.1
        ∙ ground (arith, cell-write_eeprom s address b address),
    write_anything-Holds bs (address + 1) (write_eeprom B d address b s) (omega arith) all.1,
  )

  -- What stands below an address is kept where the cells below it are.
  pub Holds-below :
      (s s' : State) (address top : ℕ) (bs : List ℕ)
      → ((a : ℕ) → a < top → cell s' d a ≡ cell s d a)
      → address + length bs ≤ top
      → Holds s address bs
      → Holds s' address bs
  Holds-below s s' address top [] e k h = tt
  Holds-below s s' address top (b ∷ bs) e k h =
      (e address (omega arith) ∙ h.0, Holds-below s s' (address + 1) top bs e (omega arith) h.1)

  -- A run of reads returns the bytes that the cells hold, and changes none.
  pub read_anything-Holds :
      (bs : List ℕ) (address n : ℕ) (s : State)
      → length bs ≡ n
      → address + n ≤ capacity
      → Holds s address bs
      → ((read_anything B d address n s).0 ≡ bs) × SameCells s (read_anything B d address n s).1
  unfolding read_anything
  read_anything-Holds [] address zero s e k h = (refl, λ a. refl)
  read_anything-Holds [] address (suc n) s e k h = absurd (omega arith)
  read_anything-Holds (b ∷ bs) address zero s e k h = absurd (omega arith)
  read_anything-Holds (b ∷ bs) address (suc n) s e k h =
      let r = cell-read_eeprom s address (omega arith) in
      let s' = (read_eeprom B d address s).1 in
      let ih =
        read_anything-Holds bs (address + 1) n s' (omega arith) (omega arith)
          (Holds-SameCells s s' (address + 1) bs r.1 h.1) in
      (ap₂ ◌∷◌ (r.0 ∙ h.0) ih.0, λ a. ih.1 a ∙ r.1 a)
