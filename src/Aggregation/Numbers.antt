-- ===== src/Aggregation/Numbers.antt =====
-- Decimal numbers as the aggregators use them: sums, products, comparisons. No law of the sums is
-- needed, so rounding in the decimal context is allowed for.
use Prim.Native.Nat.{ℕ}
use mathlib.Core.Path.{◌≡◌}
use mathlib.Core.Bool.{Bool, true, false}

pub record Decimal (D : Type 0) : Type 0 where
  pub add : D → D → D
  pub mul : D → D → D
  pub lt : D → D → Bool
  pub of_nat : ℕ → D
  pub lt_asym : (a b : D) → lt a b ≡ true → lt b a ≡ false
  -- a ≤ b and b ≤ c, where x ≤ y is that y < x fails
  pub le_trans : (a b c : D) → lt b a ≡ false → lt c b ≡ false → lt c a ≡ false
