-- ===== src/Ordering/Number.antt =====
-- The doubles in which positions are stored, as an interface: the operations that the source
-- applies to them, and the facts of IEEE arithmetic on which the ordering rests.
use kurultay.Base.{ℕ, ◌≤◌, ◌<◌, ◌≡◌, Bool, true, false}

pub record Number : Type 1 where
  pub Num : Type 0
  -- `a < b`
  pub lt : Num → Num → Bool
  -- `a + POSITION_GAP`, `a - POSITION_GAP`, `(a + b) / 2`
  pub add_gap : Num → Num
  pub sub_gap : Num → Num
  pub mean : Num → Num → Num
  -- `b - a < MIN_GAP`
  pub is_close : Num → Num → Bool
  -- `n * POSITION_GAP`
  pub gap_times : ℕ → Num
  -- The values at which the spacing of the doubles is below half of `MIN_GAP`.
  pub is_fine : Num → Bool
  -- The most elements that an array can have.
  pub max_length : ℕ
  pub lt_irrefl : (a : Num) → lt a a ≡ false
  pub lt_trans : (a b c : Num) → lt a b ≡ true → lt b c ≡ true → lt a c ≡ true
  pub lt_of_not_lt : (a b c : Num) → lt a b ≡ false → lt a c ≡ true → lt b c ≡ true
  pub lt-add_gap : (a : Num) → is_fine a ≡ true → lt a (add_gap a) ≡ true
  pub sub_gap-lt : (a : Num) → is_fine a ≡ true → lt (sub_gap a) a ≡ true
  pub lt-mean :
      (a b : Num)
      → is_fine a ≡ true
      → is_fine b ≡ true
      → is_close a b ≡ false
      → lt a (mean a b) ≡ true
  pub mean-lt :
      (a b : Num)
      → is_fine a ≡ true
      → is_fine b ≡ true
      → is_close a b ≡ false
      → lt (mean a b) b ≡ true
  pub gap_times_lt : (m n : ℕ) → m < n → n ≤ max_length → lt (gap_times m) (gap_times n) ≡ true
