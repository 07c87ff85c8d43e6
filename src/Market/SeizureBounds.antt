-- ===== src/Market/SeizureBounds.antt =====
-- What a liquidation may take, on either kind of market.
use tapioca_bar.Prelude.{ℕ, String, true, ok, ◌≡◌, ◌≤◌, ◌<◌, arith, get}
use tapioca_bar.Market.{Market}
use tapioca_bar.Market.Outside.{Outside, Call}
use tapioca_bar.Market.Seizure.{Seizure, seizure, liquidatable, seized_collateral}

module _ {W : Type 0} (o : Outside W) (c : Call) where
  -- The limits of `liquidatable`.
  liquidatable-le :
      (user : String) (max in_asset : ℕ) (m : Market) (w : W) (limits : ℕ × ℕ)
      → liquidatable o c user max in_asset m w ≡ ok limits
      → (limits.0 ≤ max)
        × (limits.0 ≤ limits.1)
        × (limits.0 ≤ in_asset)
        × (o.to_elastic m.total_borrow (get m.user_borrow_part user) true ≡ ok limits.1)
  unfolding liquidatable
  liquidatable-le user max in_asset m w limits e =
      (ground arith, ground arith, ground arith, ground arith)

  seized_collateral-le :
      (user : String) (min rate in_asset liquidated_amount debt with_bonus : ℕ) (m : Market) (w : W)
      (share : ℕ)
      → seized_collateral o c user min rate in_asset liquidated_amount debt with_bonus m w
        ≡ ok share
      → share ≤ get m.user_collateral_share user
  unfolding seized_collateral
  seized_collateral-le user min rate in_asset liquidated_amount debt with_bonus m w share e =
      ground arith

  -- A liquidation of a user takes an amount that is at most what the liquidator asked for and at
  -- most the user's debt, for a part that is not 0, and collateral that the user has.
  pub seizure_bounds :
      (user : String) (max min rate : ℕ) (m : Market) (w : W) (z : Seizure) (debt : ℕ)
      → seizure o c user max min rate m w ≡ ok z
      → o.to_elastic m.total_borrow (get m.user_borrow_part user) true ≡ ok debt
      → (z.liquidated_amount ≤ max)
        × (z.liquidated_amount ≤ debt)
        × (0 < z.borrow_part)
        × (z.collateral_share ≤ get m.user_collateral_share user)
  unfolding seizure
  seizure_bounds user max min rate m w z debt e h = (
    grind (arith, liquidatable-le),
    grind (arith, liquidatable-le),
    ground arith,
    grind (arith, seized_collateral-le),
  )
