-- ===== src/Builds/Markets.antt =====
-- buildBB*.ts, buildSGL*.ts, buildSglInit.ts, buildMarketHelper.ts, buildOrigins.ts and the
-- leverage executors of tasks/deployBuilds.
use tapioca_bar.Prelude.{ℕ, ◌^◌, String, some, List, [], ◌∷◌, Result, ok, ◌>>=◌}
use tapioca_bar.Config.Names
use tapioca_bar.Sdk.{Arg, text, num, Build, build, Chain}

unfoldable pub build_bb_debt_rate_helper : Build
build_bb_debt_rate_helper = build "BBDebtRateHelper" Names.bb_debt_rate_helper []

unfoldable pub build_bb_medium_risk_mc : String → Build
build_bb_medium_risk_mc name = build "BigBang" name []

unfoldable pub build_bb_modules : List Build
build_bb_modules =
    build "BBLiquidation" Names.bb_liquidation_module []
    ∷ build "BBBorrow" Names.bb_borrow_module []
    ∷ build "BBCollateral" Names.bb_collateral_module []
    ∷ build "BBLeverage" Names.bb_leverage_module []
    ∷ []

unfoldable pub build_sgl_interest_helper : Build
build_sgl_interest_helper = build "SGLInterestHelper" Names.sgl_interest_helper []

unfoldable pub build_sgl_medium_risk_mc : String → Build
build_sgl_medium_risk_mc name = build "Singularity" name []

unfoldable pub build_sgl_modules : List Build
build_sgl_modules =
    build "SGLLiquidation" Names.sgl_liquidation_module []
    ∷ build "SGLBorrow" Names.sgl_borrow_module []
    ∷ build "SGLCollateral" Names.sgl_collateral_module []
    ∷ build "SGLLeverage" Names.sgl_leverage_module []
    ∷ []

unfoldable pub build_sgl_init : Build
build_sgl_init = build "SGLInit" Names.sgl_init []

unfoldable pub build_market_helper : Build
build_market_helper = build "MarketHelper" Names.market_helper []

-- The parameters of the leverage executors.
pub record ExecutorParams : Type 0 where
  pub zero_x_swapper : String
  pub cluster : String
  pub weth : String
  pub pearlmit : String

unfoldable pub build_sgl_glp_leverage_executor : ExecutorParams → Arg → Build
build_sgl_glp_leverage_executor p glp_reward_router =
    build "AssetToSGLPLeverageExecutor" Names.sgl_glp_leverage_executor (
      text p.zero_x_swapper
      ∷ text p.cluster
      ∷ glp_reward_router
      ∷ text p.weth
      ∷ text p.pearlmit
      ∷ [])

unfoldable pub build_simple_leverage_executor : ExecutorParams → Build
build_simple_leverage_executor p =
    build "SimpleLeverageExecutor" Names.simple_leverage_executor
      (text p.zero_x_swapper ∷ text p.cluster ∷ text p.weth ∷ text p.pearlmit ∷ [])

-- The parameters of `buildOrigins`.
pub record OriginsParams : Type 0 where
  pub deployment_name : String
  pub owner : String
  pub yield_box : String
  pub asset : String
  pub asset_strategy : String
  pub collateral : String
  pub collateral_strategy : String
  pub oracle : String
  pub collateralization_rate : ℕ
  pub penrose : String

unfoldable pub build_origins : Chain → OriginsParams → Result Build
build_origins chain p = do
  asset_id ← chain.ids p.yield_box 1 (some p.asset) p.asset_strategy 0
  collateral_id ← chain.ids p.yield_box 1 (some p.collateral) p.collateral_strategy 0
  let exchange_rate_precision : ℕ = 10 ^ 18
  ok (
      build "Origins" p.deployment_name (
        text p.owner
        ∷ text p.yield_box
        ∷ text p.asset
        ∷ num asset_id
        ∷ text p.collateral
        ∷ num collateral_id
        ∷ text p.oracle
        ∷ num exchange_rate_precision
        ∷ num p.collateralization_rate
        ∷ text p.penrose
        ∷ []))
