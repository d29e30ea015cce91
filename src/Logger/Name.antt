-- ===== src/Logger/Name.antt =====
-- The name of the log file (GPS_logger.ino, setup).
use speed_feed.Logger.{Card, log_name, choose_from, choose_name}
use speed_feed.Common.{ℕ, zero, suc, ◌+◌, ◌<◌, ◌≤◌, ◌≡◌, ap, ◌∙◌, Bool, true, false, List, arith}
use native.Mathlib.Decide.{dec_lt}

-- What SD.exists says of a card: whether a name is in its directory, which it leaves alone.
pub record HasNames (C : Card) : Type 0 where
  pub has : C.State → List ℕ → Bool
  pub exists-has : (name : List ℕ) (s : C.State) → (C.exists name s).0 ≡ has s name
  pub has-exists : (name other : List ℕ) (s : C.State) → has (C.exists name s).1 other ≡ has s other

module _ (C : Card) (H : HasNames C) where
  open C use {State}
  open H use {has, exists-has, has-exists}

  choose_from-free :
      (n i k : ℕ) (name : List ℕ) (s : State)
      → i ≤ k
      → k < i + n
      → ((j : ℕ) → i ≤ j → j < k → has s (log_name j) ≡ true)
      → has s (log_name k) ≡ false
      → (choose_from C n i name s).0 ≡ log_name k
  unfolding choose_from
  choose_from-free zero i k name s h l below free = absurd (omega arith)
  choose_from-free (suc n) i k name s h l below free =
      let s' = (C.exists (log_name i) s).1 in
      elim (dec_lt i k) [
        | yes lt ↦
            let there = exists-has (log_name i) s ∙ below i (omega arith) lt in
            rw there (
              choose_from-free n (i + 1) k (log_name i) s' (omega arith) (omega arith)
                (λ j a b. has-exists (log_name i) (log_name j) s ∙ below j (omega arith) b)
                (has-exists (log_name i) (log_name k) s ∙ free))
        | no ge ↦
            let e : i ≡ k = omega arith in
            let absent = exists-has (log_name i) s ∙ ap (λ j. has s (log_name j)) e ∙ free in
            rw absent (ap log_name e)
      ]

  choose_from-full :
      (n i k : ℕ) (name : List ℕ) (s : State)
      → suc k ≡ i + n
      → i ≤ k
      → ((j : ℕ) → i ≤ j → j ≤ k → has s (log_name j) ≡ true)
      → (choose_from C n i name s).0 ≡ log_name k
  unfolding choose_from
  choose_from-full zero i k name s e l full = absurd (omega arith)
  choose_from-full (suc n) i k name s e l full =
      let s' = (C.exists (log_name i) s).1 in
      let there = exists-has (log_name i) s ∙ full i (omega arith) l in
      elim (dec_lt i k) [
        | yes lt ↦ rw there (
            choose_from-full n (i + 1) k (log_name i) s' (omega arith) (omega arith)
              (λ j a b. has-exists (log_name i) (log_name j) s ∙ full j (omega arith) b))
        | no ge ↦
            let last : n ≡ 0 = omega arith in
            let here : i ≡ k = omega arith in rw (there, last, choose_from) (ap log_name here)
      ]

  -- Of the names GPSLOG00.TXT to GPSLOG99.TXT the first that is not on the card is chosen; if all
  -- of them are there, the last one is.
  pub choose_name_lem :
      (s : State)
      → ((k : ℕ)
          → k < 100
          → ((j : ℕ) → j < k → has s (log_name j) ≡ true)
          → has s (log_name k) ≡ false
          → (choose_name C s).0 ≡ log_name k)
        × (((j : ℕ) → j < 100 → has s (log_name j) ≡ true) → (choose_name C s).0 ≡ log_name 99)
  unfolding choose_name
  choose_name_lem s = (
    λ k l below free.
        choose_from-free 100 0 k (log_name 0) s (omega arith) (omega arith) (λ j a b. below j b)
          free,
    λ full.
        choose_from-full 100 0 99 (log_name 0) s (omega arith) (omega arith)
          (λ j a b. full j (omega arith)),
  )
