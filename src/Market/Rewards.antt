-- ===== src/Market/Rewards.antt =====
-- The reward of a liquidator.
use tapioca_bar.Prelude.{ℕ, String, ok, ◌≡◌, ◌≤◌, ◌<◌, ◌⊎◌, arith, ◌*◌, ◌/◌}
use native.Mathlib.Nat.{div-le_of_le-mul, mul-le-mul_right}
use tapioca_bar.Market.{Market, fee_precision}
use tapioca_bar.Market.Outside.{Outside}
use tapioca_bar.Market.Views.{get_caller_reward, reward_at}
use tapioca_bar.Market.Configuration.{IsConfigured}

reward_at_bounds :
    (low high percentage r : ℕ)
    → low < high
    → high < fee_precision
    → percentage ≤ fee_precision
    → reward_at low high percentage ≡ ok r
    → (low ≤ r) × (r ≤ high)
unfolding reward_at
reward_at_bounds low high percentage r h k m e = (ground arith, ground arith)

-- The way that a loan is along its range is at most the whole.
percentage-le : (over range : ℕ) → over ≤ range → over * fee_precision / range ≤ fee_precision
percentage-le over range h =
    div-le_of_le-mul range (omega (arith, mul-le-mul_right fee_precision h))

module _ {W : Type 0} (o : Outside W) where
  -- A liquidator's reward is none, or between the least and the greatest that the owner set.
  pub get_caller_reward_bounds :
      (s : Market) (w : W) (user : String) (rate reward : ℕ)
      → IsConfigured s
      → get_caller_reward o s w user rate ≡ ok reward
      → (reward ≡ 0) ⊎ ((s.min_liquidator_reward ≤ reward) × (reward ≤ s.max_liquidator_reward))
  unfolding get_caller_reward
  get_caller_reward_bounds s w user rate reward v e =
      grind (arith, reward_at_bounds, percentage-le, v.rewards_ordered, v.reward_bounded)
