-- ===== src/Double.antt =====
-- The floating-point arithmetic of the C compiler and its library, which the program uses and
-- does not implement: an abstract type `Real` of doubles with the operations that the sources
-- call. No law is assumed here; a theorem that needs one takes it as a hypothesis.
use speed_feed.Common.{ℕ, Bool, List, if◌then◌else◌}

-- `literal n` is the double n. `to_long` is the conversion of a double to `long` and `of_long`
-- the one back, a `long` being its 32-bit pattern; `to_ulong` converts to `uint32_t`. `to_float` rounds
-- to single precision. `atof` reads the number at the start of a text. `bytes` is the object
-- representation of a double in memory, and `of_bytes` reads one. The last three are `Print` of the
-- Arduino core: the text that `Serial.print` makes of a double with 8 digits, of a `long`, and of a
-- byte with HEX.
pub record Double : Type 1 where
  pub Real : Type 0
  pub literal : ℕ → Real
  pub add : Real → Real → Real
  pub sub : Real → Real → Real
  pub mul : Real → Real → Real
  pub div : Real → Real → Real
  pub neg : Real → Real
  pub sqrt : Real → Real
  pub floor : Real → Real
  pub lt : Real → Real → Bool
  pub le : Real → Real → Bool
  pub eq : Real → Real → Bool
  pub is_nan : Real → Bool
  pub to_long : Real → ℕ
  pub of_long : ℕ → Real
  pub to_float : Real → Real
  pub to_ulong : Real → ℕ
  pub atof : List ℕ → Real
  pub bytes : Real → List ℕ
  pub of_bytes : List ℕ → Real
  pub show8 : Real → List ℕ
  pub show_long : ℕ → List ℕ
  pub show_hex : ℕ → List ℕ

module _ (D : Double) where
  open D use {Real, lt}

  -- `std::max` and `std::min`
  abbrev pub max_of : Real → Real → Real
  max_of a b = if lt a b then b else a

  abbrev pub min_of : Real → Real → Real
  min_of a b = if lt b a then b else a
