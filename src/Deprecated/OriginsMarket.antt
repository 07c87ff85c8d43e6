-- ===== src/Deprecated/OriginsMarket.antt =====
-- tasks/deploy/deprecated/deployOriginsMarket.ts
use tapioca_bar.Prelude.{String, none, some, List, [], ◌∷◌, ◌++◌, Result, ok, ◌>>=◌}
use tapioca_bar.Sdk.{Arg, text, num}
use tapioca_bar.Exec.{Saved, ChainEntry, or_thrown}
use tapioca_bar.Deprecated.{
  Tools, MarketArgs, Deployed, usdo_strategy, find_token_strategy, load_oracle, ask_number,
  deploy_contract, transact, make_minter,
}

pub record OriginsContracts : Type 0 where
  pub yield_box : String
  pub penrose : String
  pub usdo : String
  pub token : Saved

-- `loadContracts`: the collateral is asked for by its address, and names itself.
unfoldable pub load_origins_contracts : Tools → Result OriginsContracts
load_origins_contracts t = do
  yield_box ← t.get_local_contract "YieldBox"
  penrose ← t.get_local_contract "Penrose"
  usdo ← t.get_local_contract "USDO"
  name ← t.name_of (t.ask "tokenAddress" "")
  ok (record {
    yield_box = yield_box;
    penrose = penrose;
    usdo = usdo;
    token = record { name = name; address = t.ask "tokenAddress" ""; strat_for = none };
  })

-- The task up to the deployment: the contracts, and the arguments of the constructor.
unfoldable pub prepare_origins :
    Tools → ChainEntry → MarketArgs → Result (OriginsContracts × Arg × Arg × Arg × Arg × String)
prepare_origins t chain args = do
  c ← load_origins_contracts t
  asset_strategy ← usdo_strategy t
  oracle ← load_oracle t chain args (some c.token)
  strategy ← find_token_strategy t chain args (some c.token)
  asset_id ← t.ids c.yield_box c.usdo asset_strategy
  collateral_id ← t.ids c.yield_box c.token.address strategy
  precision ← ask_number t "exchangeRatePrecision"
  rate ← ask_number t "collateralizationRate"
  ok (c, num asset_id, num collateral_id, precision, rate, oracle)

abbrev pub origins_args : Tools → OriginsContracts → Arg → Arg → Arg → Arg → String → List Arg
origins_args t c asset_id collateral_id precision rate oracle =
    text t.runtime.signer
    ∷ text c.yield_box
    ∷ text c.usdo
    ∷ asset_id
    ∷ text c.token.address
    ∷ collateral_id
    ∷ text oracle
    ∷ precision
    ∷ rate
    ∷ []

-- The market is saved, mints and burns USDO, and Penrose lists it.
unfoldable pub register_origins : Tools → ChainEntry → OriginsContracts → String → Result Deployed
register_origins t chain c origins = do
  minter ← make_minter t chain origins
  add ← transact t "Penrose" c.penrose "addOriginsMarket" (text origins ∷ [])
  ok (record { calls = minter ++ (add ∷ []); saved_name = "Origins"; saved_address = origins })

-- `deployOriginsMarket__task`
unfoldable pub deploy_origins_market : Tools → MarketArgs → Result Deployed
deploy_origins_market t args = do
  chain ← or_thrown "Chain not found" t.runtime.chain_info
  (c, asset_id, collateral_id, precision, rate, oracle) ← prepare_origins t chain args
  origins ←
      deploy_contract t "Origins" (origins_args t c asset_id collateral_id precision rate oracle)
  register_origins t chain c origins
