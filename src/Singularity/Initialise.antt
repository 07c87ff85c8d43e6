-- ===== src/Singularity/Initialise.antt =====
-- contracts/markets/singularity/SGLInit.sol, and `init` of Singularity.sol that delegates to it. The
-- addresses of the tokens, the YieldBox and Pearlmit are the outside's; `rateValidDuration`, which
-- the market only shows, is left out.
use tapioca_bar.Prelude.{
  ℕ, String, Bool, true, ◌^◌, ◌*◌, Result, ok, err, rejected, ◌>>=◌, ◌>>◌, ltb, ◌===◌, not,
}
use tapioca_bar.Penrose.{require, zero_address}
use tapioca_bar.Market.Outside.{Outside, Call}
use tapioca_bar.Market.Views.{update_exchange_rate}
use tapioca_bar.BigBang.Initialise.{or_default}
use tapioca_bar.Singularity.{Singularity}

-- The decoded `initData`.
pub record InitData : Type 0 where
  pub penrose : String
  pub liquidation_module : String
  pub borrow_module : String
  pub collateral_module : String
  pub leverage_module : String
  pub asset : String
  pub asset_id : ℕ
  pub collateral : String
  pub collateral_id : ℕ
  pub oracle : String
  pub exchange_rate_precision : ℕ
  pub collateralization_rate : ℕ
  pub liquidation_collateralization_rate : ℕ

abbrev present_address : String → Result (Unit {0})
present_address a = require (not (a === zero_address)) "NotValid"

module _ {W : Type 0} (o : Outside W) (c : Call) where
  -- `_initDefaultValues`, from the storage that `_initCoreStorage` leaves.
  unfoldable pub init_default_values : InitData → Singularity W → Result (Singularity W)
  init_default_values a s = do
    let rate = or_default a.collateralization_rate 75000
    let liquidation_rate = or_default a.liquidation_collateralization_rate 80000
    require (ltb rate liquidation_rate) "SGL: liquidationCollateralizationRate not valid"
    updated ← update_exchange_rate o c s.market s.outside
    ok (record s {
      market = record updated.0 {
        min_borrow_amount = 10 ^ 15;
        min_collateral_amount = 10 ^ 15;
        collateralization_rate = rate;
        liquidation_collateralization_rate = liquidation_rate;
        protocol_fee = 10000;
        liquidation_multiplier = 12000;
        min_liquidator_reward = 88000;
        max_liquidator_reward = 92500;
        liquidation_bonus_amount = 10000;
        exchange_rate_precision = or_default a.exchange_rate_precision (10 ^ 18);
      };
      accrue_info = record s.accrue_info { interest_per_second = 951293760 };
      minimum_interest_per_second = 951293760;
      maximum_interest_per_second = 15854896000;
      interest_elasticity = 3600 * 10 ^ 36;
      starting_interest_per_second = 951293760;
      minimum_target_utilization = 600000000000000000;
      maximum_target_utilization = 700000000000000000;
      borrow_opening_fee = 50;
      min_lend_amount = 10 ^ 15;
      outside = updated.1;
    })

  -- `init` of `SGLInit`
  unfoldable pub init_storage : InitData → Singularity W → Result (Singularity W)
  init_storage a s = do
    present_address a.collateral
    present_address a.asset
    present_address a.oracle
    present_address a.liquidation_module
    present_address a.collateral_module
    present_address a.borrow_module
    present_address a.leverage_module
    init_default_values a (record s {
      penrose = a.penrose;
      market = record s.market {
        owner = a.penrose;
        asset_id = a.asset_id;
        collateral_id = a.collateral_id;
        oracle = a.oracle;
      };
    })

  -- `init` with SGLInit, and the flag of `onlyOnce` before and after
  unfoldable pub init : InitData → Bool → Singularity W → Result (Singularity W × Bool)
  init a initialized s = do
    require (not initialized) "Market: initialized"
    elim (init_storage a s) [ ok t ↦ ok (t, true) | err reason ↦ err (rejected "Init failed") ]
