-- ===== src/PostLbp1/Setup/InitMarkets/BigBang.antt =====
-- `initBBMarket` and `loadModule` of tasks/deploy/postDepSetup/setupInitAndRegisterMarket.ts.
use tapioca_bar.Prelude.{
  ℕ, ◌^◌, String, true, Option, List, [], ◌∷◌, ◌==◌, not, if◌then◌else◌, same_address, Result, ok,
  err, thrown, ◌>>=◌,
}
use tapioca_bar.Config.Names
use tapioca_bar.Sdk.{
  World, Arg, Call, CallData, call, bytes, text, text?, num, flag, array, struct, abi_encoded,
  items, fields, address_of, when, load_local_contract,
}
use tapioca_bar.PostLbp1.Params.{PostDeployParams}

-- The parameters of `initBBMarket` beside `params`. `exchangeRatePrecision` is always 1e18.
pub record BbMarketParams : Type 0 where
  pub market_name : String
  pub collateral : Option String
  pub strategy_name : String
  pub oracle : String
  pub debt_rate_against_eth : ℕ
  pub debt_rate_min : ℕ
  pub debt_rate_max : ℕ
  pub collateralization_rate : ℕ
  pub liquidation_collateralization_rate : ℕ
  pub total_borrow_cap : ℕ
  pub leverage_executor : String
  pub penrose : String
  pub yield_box : String

abbrev pub address_zero : Arg
address_zero = text "0x0000000000000000000000000000000000000000"

abbrev pub exchange_rate_precision : ℕ
exchange_rate_precision = 10 ^ 18

-- The types that `AbiCoder.encode` is given; the first is the same for both kinds of market.
abbrev pub modules_type : String
modules_type =
    "tuple(address _liquidationModule, address _borrowModule, address _collateralModule, address _leverageModule)"

abbrev bb_types : List String
bb_types =
    modules_type ∷ "tuple(uint256 _debtRateAgainstEth, uint256 _debtRateMin, uint256 _debtRateMax)"
    ∷ "tuple(address _penrose, address _collateral, uint256 _collateralId, address _oracle, uint256 _exchangeRatePrecision, uint256 _collateralizationRate, uint256 _liquidationCollateralizationRate, address _leverageExecutor)"
    ∷ []

-- `modulesData`, by four calls of `loadModule`.
unfoldable pub modules_data : PostDeployParams → String → String → String → String → Result Arg
modules_data p liquidation_name borrow_name collateral_name leverage_name = do
  liquidation ← address_of liquidation_name p.deployed
  borrow ← address_of borrow_name p.deployed
  collateral ← address_of collateral_name p.deployed
  leverage ← address_of leverage_name p.deployed
  ok (
      struct (
        fields (
          ("_liquidationModule", text liquidation)
          ∷ ("_borrowModule", text borrow)
          ∷ ("_collateralModule", text collateral)
          ∷ ("_leverageModule", text leverage)
          ∷ [])))

-- `bbData`
unfoldable pub bb_data : BbMarketParams → Arg → ℕ → Arg
bb_data m modules collateral_id = abi_encoded bb_types (
    items (
      modules
      ∷ struct (
          fields (
            ("_debtRateAgainstEth", num m.debt_rate_against_eth)
            ∷ ("_debtRateMin", num m.debt_rate_min)
            ∷ ("_debtRateMax", num m.debt_rate_max)
            ∷ []))
      ∷ struct (
          fields (
            ("_penrose", text m.penrose)
            ∷ ("_collateral", text? m.collateral)
            ∷ ("_collateralId", num collateral_id)
            ∷ ("_oracle", text m.oracle)
            ∷ ("_exchangeRatePrecision", num exchange_rate_precision)
            ∷ ("_collateralizationRate", num m.collateralization_rate)
            ∷ ("_liquidationCollateralizationRate", num m.liquidation_collateralization_rate)
            ∷ ("_leverageExecutor", text m.leverage_executor)
            ∷ []))
      ∷ []))

-- `setMarketConfigCall`: only the borrow cap, the seventh of eleven arguments, is set.
unfoldable pub set_market_config : ℕ → CallData
set_market_config total_borrow_cap = record {
  fn = "setMarketConfig";
  args =
      address_zero
      ∷ address_zero
      ∷ address_zero
      ∷ address_zero
      ∷ address_zero
      ∷ address_zero
      ∷ num total_borrow_cap
      ∷ address_zero
      ∷ address_zero
      ∷ address_zero
      ∷ address_zero
      ∷ [];
}

unfoldable pub init_bb_market : PostDeployParams → World → BbMarketParams → Result (List Call)
init_bb_market p w m = do
  market ← address_of m.market_name p.deployed
  when (not (same_address (w.chain.market_penrose market) m.penrose)) do
    strategy ← address_of m.strategy_name p.deployed
    collateral_id ← w.chain.ids m.yield_box 1 m.collateral strategy 0
    if collateral_id == 0 then err (thrown "Collateral id is 0 for collateral") else do
      modules ←
          modules_data p Names.bb_liquidation_module Names.bb_borrow_module
            Names.bb_collateral_module Names.bb_leverage_module
      debt_helper ← load_local_contract w p.hre.e_chain_id Names.bb_debt_rate_helper p.tag
      let set_debt_helper : CallData = record {
        fn = "setDebtRateHelper";
        args = text debt_helper.address ∷ [];
      }
      ok (
          call market "init" (bb_data m modules collateral_id ∷ [])
          ∷ call m.penrose "executeMarketFn" (
              array (items (text market ∷ text market ∷ []))
              ∷ array (
                  items (bytes set_debt_helper ∷ bytes (set_market_config m.total_borrow_cap) ∷ []))
              ∷ flag true
              ∷ [])
          ∷ [])
