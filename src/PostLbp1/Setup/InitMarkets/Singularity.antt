-- ===== src/PostLbp1/Setup/InitMarkets/Singularity.antt =====
-- `initSGLMarket` of tasks/deploy/postDepSetup/setupInitAndRegisterMarket.ts.
use tapioca_bar.Prelude.{
  ℕ, String, true, Option, some, List, [], ◌∷◌, ◌==◌, not, if◌then◌else◌, same_address, Result, ok,
  err, thrown, ◌>>=◌,
}
use tapioca_bar.Config.Names
use tapioca_bar.Sdk.{
  World, Arg, Call, CallData, call, bytes, text, text?, num, flag, array, struct, abi_encoded,
  items, fields, address_of, when, load_local_contract,
}
use tapioca_bar.PostLbp1.Params.{PostDeployParams}
use tapioca_bar.PostLbp1.Setup.InitMarkets.BigBang.{
  address_zero, exchange_rate_precision, modules_type, modules_data,
}

-- The parameters of `initSGLMarket` beside `params`. `exchangeRatePrecision` is always 1e18.
pub record SglMarketParams : Type 0 where
  pub market_name : String
  pub collateral : Option String
  pub strategy_name : String
  pub oracle : String
  pub usdo_strategy : String
  pub usdo : String
  pub collateralization_rate : ℕ
  pub liquidation_collateralization_rate : ℕ
  pub minimum_interest_per_second : ℕ
  pub maximum_interest_per_second : ℕ
  pub leverage_executor : String
  pub penrose : String
  pub yield_box : String
  pub interest_helper : String

abbrev sgl_types : List String
sgl_types =
    modules_type
    ∷ "tuple(address _asset, uint256 _assetId, address _collateral, uint256 _collateralId)"
    ∷ "tuple(address penrose_, address _oracle, uint256 _exchangeRatePrecision, uint256 _collateralizationRate, uint256 _liquidationCollateralizationRate, address _leverageExecutor)"
    ∷ []

-- `sglData`
unfoldable pub sgl_data : SglMarketParams → Arg → ℕ → ℕ → Arg
sgl_data m modules asset_id collateral_id = abi_encoded sgl_types (
    items (
      modules
      ∷ struct (
          fields (
            ("_asset", text m.usdo)
            ∷ ("_assetId", num asset_id)
            ∷ ("_collateral", text? m.collateral)
            ∷ ("_collateralId", num collateral_id)
            ∷ []))
      ∷ struct (
          fields (
            ("penrose_", text m.penrose)
            ∷ ("_oracle", text m.oracle)
            ∷ ("_exchangeRatePrecision", num exchange_rate_precision)
            ∷ ("_collateralizationRate", num m.collateralization_rate)
            ∷ ("_liquidationCollateralizationRate", num m.liquidation_collateralization_rate)
            ∷ ("_leverageExecutor", text m.leverage_executor)
            ∷ []))
      ∷ []))

-- `setInterestHelperCall`
unfoldable pub set_singularity_config : SglMarketParams → CallData
set_singularity_config m = record {
  fn = "setSingularityConfig";
  args =
      address_zero
      ∷ address_zero
      ∷ address_zero
      ∷ address_zero
      ∷ num m.minimum_interest_per_second
      ∷ num m.maximum_interest_per_second
      ∷ address_zero
      ∷ text m.interest_helper
      ∷ address_zero
      ∷ [];
}

unfoldable pub init_sgl_market : PostDeployParams → World → SglMarketParams → Result (List Call)
init_sgl_market p w m = do
  market ← address_of m.market_name p.deployed
  sgl_init ← load_local_contract w p.hre.e_chain_id Names.sgl_init p.tag
  when (not (same_address (w.chain.market_penrose market) m.penrose)) do
    asset_id ← w.chain.ids m.yield_box 1 (some m.usdo) m.usdo_strategy 0
    strategy ← address_of m.strategy_name p.deployed
    collateral_id ← w.chain.ids m.yield_box 1 m.collateral strategy 0
    if collateral_id == 0 then err (thrown "Collateral id is 0 for collateral") else do
      modules ←
          modules_data p Names.sgl_liquidation_module Names.sgl_borrow_module
            Names.sgl_collateral_module Names.sgl_leverage_module
      ok (
          call market "init"
            (text sgl_init.address ∷ sgl_data m modules asset_id collateral_id ∷ [])
          ∷ call m.penrose "executeMarketFn" (
              array (items (text market ∷ []))
              ∷ array (items (bytes (set_singularity_config m) ∷ []))
              ∷ flag true
              ∷ [])
          ∷ [])
