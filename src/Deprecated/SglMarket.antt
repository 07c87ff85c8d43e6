-- ===== src/Deprecated/SglMarket.antt =====
-- tasks/deploy/deprecated/deploySGLMarket.ts
use tapioca_bar.Prelude.{String, Option, List, [], ◌∷◌, Result, ok, present, ◌>>=◌}
use tapioca_bar.Sdk.{Arg, text, num, abi_encoded, items}
use tapioca_bar.Exec.{Saved, ChainEntry, find_saved, or_thrown}
use tapioca_bar.Deprecated.{
  Tools, MarketArgs, Deployed, find_yield_box, usdo_strategy, find_token_strategy, load_oracle,
  ask_number, find_executor, deploy_contract, transact, last_clone,
}

pub record SglContracts : Type 0 where
  pub yield_box : String
  pub penrose : String
  pub usdo : String
  pub liquidation : String
  pub collateral : String
  pub borrow : String
  pub leverage : String
  pub medium_risk_mc : String
  pub token : Option Saved

-- `loadContracts`
unfoldable pub load_contracts : Tools → ChainEntry → Result SglContracts
unfolding find_yield_box find_saved
load_contracts t chain = do
  yield_box ← find_yield_box t chain
  penrose ← t.get_local_contract "Penrose"
  usdo ← t.get_local_contract "USDO"
  liquidation ← t.get_local_contract "SGLLiquidation"
  collateral ← t.get_local_contract "SGLCollateral"
  borrow ← t.get_local_contract "SGLBorrow"
  leverage ← t.get_local_contract "SGLLeverage"
  mc ← or_thrown "[-] MediumRiskMC not found" (t.get_local "MediumRiskMC")
  ok (record {
    yield_box = yield_box;
    penrose = penrose;
    usdo = usdo;
    liquidation = liquidation;
    collateral = collateral;
    borrow = borrow;
    leverage = leverage;
    medium_risk_mc = mc.address;
    token = find_saved (t.ask "tokenName" "") (t.runtime.load_global "tapiocaz" t.runtime.chain_id);
  })

abbrev sgl_types : List String
sgl_types =
    "address" ∷ "address" ∷ "address" ∷ "address" ∷ "address" ∷ "address" ∷ "uint256" ∷ "address"
    ∷ "uint256" ∷ "address" ∷ "uint256" ∷ "uint256" ∷ "uint256" ∷ "address" ∷ []

-- The data of `init`, with the numbers that the user gives.
unfoldable pub sgl_data : Tools → SglContracts → String → Arg → Arg → String → String → Result Arg
unfolding ask_number
sgl_data t c collateral asset_id collateral_id oracle executor = do
  precision ← ask_number t "exchangeRatePrecision"
  rate ← ask_number t "collateralizationRate"
  liquidation_rate ← ask_number t "liquidationCollateralizationRate"
  ok (
      abi_encoded sgl_types (
        items (
          text c.liquidation
          ∷ text c.borrow
          ∷ text c.collateral
          ∷ text c.leverage
          ∷ text c.penrose
          ∷ text c.usdo
          ∷ asset_id
          ∷ text collateral
          ∷ collateral_id
          ∷ text oracle
          ∷ precision
          ∷ rate
          ∷ liquidation_rate
          ∷ text executor
          ∷ [])))

-- `init`, the registration in Penrose, and the clone that is saved.
unfoldable pub open_sgl : Tools → SglContracts → String → Arg → Result Deployed
unfolding transact last_clone
open_sgl t c sgl init_data = do
  init ← transact t "Singularity" sgl "init" (init_data ∷ [])
  add ← transact t "Penrose" c.penrose "addSingularity" (text c.medium_risk_mc ∷ text sgl ∷ [])
  market ← last_clone t "Singularity" c.medium_risk_mc
  name ← t.name_of market
  ok (record { calls = init ∷ add ∷ []; saved_name = name; saved_address = market })

-- The task up to the deployment: the contracts, the new market, and the data of its `init`.
unfoldable pub prepare_sgl : Tools → MarketArgs → Result (SglContracts × String × Arg)
prepare_sgl t args = do
  chain ← or_thrown "Chain not found" t.runtime.chain_info
  c ← load_contracts t chain
  asset_strategy ← usdo_strategy t
  oracle ← load_oracle t chain args c.token
  strategy ← find_token_strategy t chain args c.token
  token ← present c.token
  asset_id ← t.ids c.yield_box c.usdo asset_strategy
  collateral_id ← t.ids c.yield_box token.address strategy
  executor ← or_thrown "[-] Leverage executor not found" (find_executor t args)
  sgl ← deploy_contract t "Singularity" []
  init_data ← sgl_data t c token.address (num asset_id) (num collateral_id) oracle executor.address
  ok (c, sgl, init_data)

-- `deploySGLMarket__task`
unfoldable pub deploy_sgl_market : Tools → MarketArgs → Result Deployed
deploy_sgl_market t args = do (c, sgl, init_data) ← prepare_sgl t args; open_sgl t c sgl init_data
