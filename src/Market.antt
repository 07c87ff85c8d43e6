-- ===== src/Market.antt =====
-- contracts/markets/Market.sol: the storage that all markets share, the contracts outside it, and
-- the views and configuration of a market. A revert is a `rejected` result; events are left out.
pub mod Views
pub mod Outside
pub mod Allowances
pub mod Configuration
pub mod Rewards
pub mod Closing
pub mod Seizure
pub mod SeizureBounds
pub mod Books
pub mod Covering
pub mod Messages
use tapioca_bar.Prelude.{ℕ, String, Bool, true, false, not, List}

-- `Rebase` of BoringSolidity: `elastic` is the amount owed, `base` the parts that owe it.
pub record Rebase : Type 0 where
  pub elastic : ℕ
  pub base : ℕ

-- `PauseType`
pub data PauseType : Type 0 where
  borrow : PauseType
  repay : PauseType
  add_collateral : PauseType
  remove_collateral : PauseType
  liquidation : PauseType
  leverage_buy : PauseType
  leverage_sell : PauseType
  add_asset : PauseType
  remove_asset : PauseType

-- Equality of two pause options.
abbrev pub same_kind : PauseType → PauseType → Bool
same_kind PauseType.borrow PauseType.borrow = true
same_kind PauseType.repay PauseType.repay = true
same_kind PauseType.add_collateral PauseType.add_collateral = true
same_kind PauseType.remove_collateral PauseType.remove_collateral = true
same_kind PauseType.liquidation PauseType.liquidation = true
same_kind PauseType.leverage_buy PauseType.leverage_buy = true
same_kind PauseType.leverage_sell PauseType.leverage_sell = true
same_kind PauseType.add_asset PauseType.add_asset = true
same_kind PauseType.remove_asset PauseType.remove_asset = true
same_kind a b = false

abbrev pub same_flag : Bool → Bool → Bool
same_flag true b = b
same_flag false b = not b

-- The storage of `Market`. The addresses of tokens and of the YieldBox are the outside's.
pub record Market : Type 0 where
  pub owner : String
  pub pause_options : PauseType → Bool
  pub collateral_id : ℕ
  pub asset_id : ℕ
  pub oracle : String
  pub oracle_data : String
  pub exchange_rate : ℕ
  pub rate_timestamp : ℕ
  pub total_borrow : Rebase
  pub total_collateral_share : ℕ
  pub total_borrow_cap : ℕ
  pub user_borrow_part : List (String × ℕ)
  pub user_collateral_share : List (String × ℕ)
  pub allowance : String → String → ℕ
  pub allowance_borrow : String → String → ℕ
  pub protocol_fee : ℕ
  pub min_liquidator_reward : ℕ
  pub max_liquidator_reward : ℕ
  pub liquidation_bonus_amount : ℕ
  pub collateralization_rate : ℕ
  pub liquidation_collateralization_rate : ℕ
  pub liquidation_multiplier : ℕ
  pub max_liquidation_slippage : ℕ
  pub min_borrow_amount : ℕ
  pub min_collateral_amount : ℕ
  pub exchange_rate_precision : ℕ

abbrev pub fee_precision : ℕ
fee_precision = 100000

abbrev pub fee_precision_decimals : ℕ
fee_precision_decimals = 5
