-- ===== src/Ordering/Fractional.antt =====
-- fractional-index.ts: midpoints between neighbours, and respreading a list that ran out of room.
use kurultay.Base.{
  ℕ, zero, suc, ◌+◌, ◌<◌, ◌≡◌, Bool, false, Option, none, some, List, [], ◌∷◌, arith, get_elem?,
}
use kurultay.Ordering.Number.{Number}

module _ (n : Number) where
  open n use {Num, add_gap, sub_gap, mean, is_close, gap_times}

  unfoldable pub midpoint : Option Num → Option Num → Num
  midpoint none none = gap_times 1
  midpoint none (some next) = sub_gap next
  midpoint (some prev) none = add_gap prev
  midpoint (some prev) (some next) = mean prev next

  unfoldable pub needs_rebalance : Option Num → Option Num → Bool
  needs_rebalance (some prev) (some next) = is_close prev next
  needs_rebalance _ _ = false

  -- `Array.from({ length: count }, (_, index) => (index + 1) * gap)`, from `index` on.
  unfoldable pub rebalance_from : ℕ → ℕ → List Num
  rebalance_from index zero = []
  rebalance_from index (suc count) = gap_times (index + 1) ∷ rebalance_from (index + 1) count

  unfoldable pub rebalance_positions : ℕ → List Num
  unfolding rebalance_from
  rebalance_positions count = rebalance_from 0 count

  rebalance_from_at :
      (index count i : ℕ)
      → i < count
      → get_elem? (rebalance_from index count) i ≡ some (gap_times (index + i + 1))
  unfolding rebalance_from
  rebalance_from_at index zero i h = elim h [ ]
  rebalance_from_at index (suc count) zero h = ground arith
  rebalance_from_at index (suc count) (suc i) h =
      ground (arith, rebalance_from_at (index + 1) count i)

  pub rebalance_positions_at :
      (count i : ℕ) → i < count → get_elem? (rebalance_positions count) i ≡ some (gap_times (i + 1))
  unfolding rebalance_positions
  rebalance_positions_at count i h = ground (arith, rebalance_from_at 0 count i h)
