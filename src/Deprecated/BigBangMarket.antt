-- ===== src/Deprecated/BigBangMarket.antt =====
-- tasks/deploy/deprecated/deployBigBangMarket.ts
use tapioca_bar.Prelude.{
  String, Option, none, some, List, [], ◌∷◌, ◌++◌, Result, ok, true, present, ◌>>=◌, ◌>>◌, ◌===◌,
  if◌then◌else◌,
}
use tapioca_bar.Sdk.{Arg, text, num, abi_encoded, items, array, flag, Build, Call, bytes}
use tapioca_bar.Exec.{Saved, ChainEntry, find_saved, or_thrown, encode}
use tapioca_bar.Deprecated.{
  Tools, MarketArgs, Deployed, find_yield_box, find_token_strategy, find_oracle, find_starting,
  filter_of, token_oracle_mock, build_oracle_mock, on_testnet, ask_number, find_executor,
  deploy_contract, transact, make_minter, last_clone, or_first, or_else, contract_at, join, head,
}

-- The oracles of the collateral and of the asset, and what the deployer's list begins with.
pub record Oracles : Type 0 where
  pub oracle : Option Saved
  pub asset_oracle : Option Saved
  pub first_deployed : Option Saved

unfoldable pub find_asset_oracle : Tools → ChainEntry → MarketArgs → Option Saved
unfolding find_saved
find_asset_oracle t chain args =
    let filter = or_else args.asset_oracle_name "AssetOracleMock" in
    or_first (find_saved filter (t.runtime.load_local chain.chain_id))
      (find_saved filter (t.runtime.load_global "tapioca-periphery" chain.chain_id))

-- What is added to the deployer where the oracle of the collateral is not found.
unfoldable pub oracle_builds : Tools → ChainEntry → Saved → Option Saved → Result (List Build)
unfolding token_oracle_mock
oracle_builds t chain token (some found) = ok []
oracle_builds t chain token none =
    on_testnet chain "[-] Oracle not found"
    >> do mock ← token_oracle_mock t token.name; ok (mock ∷ [])

-- The same for the oracle of the asset.
unfoldable pub asset_oracle_builds : Tools → ChainEntry → Saved → Option Saved → Result (List Build)
asset_oracle_builds t chain token (some found) = ok []
asset_oracle_builds t chain token none = on_testnet chain "[-] Asset oracle not found" >> do
  one ← t.parse_ether "1"
  ok (build_oracle_mock "AssetOracleMock" (join "OCM-" token.name) one ∷ [])

-- `if (shouldSave) { ... }`: the mocks are deployed and saved, and both oracles looked up again.
unfoldable pub save_oracles : Tools → Saved → Oracles → List Build → Result Oracles
unfolding find_starting find_saved
save_oracles t token found [] = ok found
save_oracles t token found (b ∷ bs) = do
  listed ← t.execute_builds (b ∷ bs)
  ok (record {
    oracle = find_starting (join "OracleMock-" token.name) (t.local_after (b ∷ bs));
    asset_oracle = find_saved "AssetOracleMock" (t.local_after (b ∷ bs));
    first_deployed = head listed;
  })

-- The oracles of `deployBigBangMarket__task`
unfoldable pub load_oracles : Tools → ChainEntry → MarketArgs → Saved → Result Oracles
load_oracles t chain args token = do
  filter ← filter_of args.oracle_name "OracleMock-" (some token)
  mocks ← oracle_builds t chain token (find_oracle t chain filter)
  asset_mocks ← asset_oracle_builds t chain token (find_asset_oracle t chain args)
  save_oracles t token
      (record {
        oracle = find_oracle t chain filter;
        asset_oracle = find_asset_oracle t chain args;
        first_deployed = none;
      })
      (mocks ++ asset_mocks)

pub record BigBangContracts : Type 0 where
  pub yield_box : String
  pub penrose : String
  pub medium_risk_mc : String
  pub token : Option Saved

unfoldable pub load_big_bang_contracts : Tools → ChainEntry → Result BigBangContracts
unfolding find_yield_box find_saved
load_big_bang_contracts t chain = do
  yield_box ← find_yield_box t chain
  penrose ← t.get_local_contract "Penrose"
  mc ← or_thrown "[-] BigBangMediumRiskMC not found" (t.get_local "BigBangMediumRiskMC")
  ok (record {
    yield_box = yield_box;
    penrose = penrose;
    medium_risk_mc = mc.address;
    token =
        find_saved (t.ask "tokenName" "")
          (t.runtime.load_global (t.ask "projectName" "") t.runtime.chain_id);
  })

pub record Modules : Type 0 where
  pub liquidation : String
  pub collateral : String
  pub borrow : String
  pub leverage : String

unfoldable pub load_modules : Tools → Result Modules
load_modules t = do
  liquidation ← t.get_local_contract "BBLiquidation"
  collateral ← t.get_local_contract "BBCollateral"
  borrow ← t.get_local_contract "BBBorrow"
  leverage ← t.get_local_contract "BBLeverage"
  ok (record {
    liquidation = liquidation;
    collateral = collateral;
    borrow = borrow;
    leverage = leverage;
  })

abbrev big_bang_types : List String
big_bang_types =
    "address" ∷ "address" ∷ "address" ∷ "address" ∷ "address" ∷ "address" ∷ "uint256" ∷ "address"
    ∷ "uint256" ∷ "uint256" ∷ "uint256" ∷ "uint256" ∷ "uint256" ∷ "uint256" ∷ "address" ∷ []

-- The words of `init`'s data, in the task's order.
unfoldable pub big_bang_words :
    Tools → BigBangContracts → Modules → String → Arg → String → String → Result (List Arg)
unfolding ask_number
big_bang_words t c m collateral collateral_id oracle executor = do
  precision ← ask_number t "exchangeRatePrecision"
  against_eth ← ask_number t "debtRateAgainstEth"
  min ← ask_number t "debtRateMin"
  max ← ask_number t "debtRateMax"
  rate ← ask_number t "collateralizationRate"
  liquidation_rate ← ask_number t "liquidationCollateralizationRate"
  ok (
      text m.liquidation
      ∷ text m.borrow
      ∷ text m.collateral
      ∷ text m.leverage
      ∷ text c.penrose
      ∷ text collateral
      ∷ collateral_id
      ∷ text oracle
      ∷ precision
      ∷ against_eth
      ∷ min
      ∷ max
      ∷ rate
      ∷ liquidation_rate
      ∷ text executor
      ∷ [])

-- `setAssetOracle` through Penrose
unfoldable pub set_asset_oracle_call :
    Tools → BigBangContracts → String → Option Saved → Result Call
unfolding encode transact
set_asset_oracle_call t c market asset_oracle = do
  address ← contract_at asset_oracle
  sent ← encode t.runtime "BigBang" "setAssetOracle" (text address ∷ text "0x" ∷ [])
  transact t "Penrose" c.penrose "executeMarketFn"
      (array (items (text market ∷ [])) ∷ array (items (bytes sent ∷ [])) ∷ flag true ∷ [])

-- `if (debtRateAgainstEth == '0')`: the main market.
unfoldable pub main_market : Tools → BigBangContracts → String → Result (List Call)
unfolding transact
main_market t c market =
    if t.ask "debtRateAgainstEth" "0" === "0"
    then (transact t "Penrose" c.penrose "setBigBangEthMarket" (text market ∷ []) >>= λ set.
        ok (set ∷ []))
    else ok []

-- `init`, the registration in Penrose, the clone that is saved, and its settings.
unfoldable pub open_big_bang :
    Tools
    → ChainEntry
    → BigBangContracts
    → Saved
    → String
    → Option Saved
    → List Arg
    → Result Deployed
unfolding transact last_clone set_asset_oracle_call make_minter main_market
open_big_bang t chain c token bb asset_oracle words = do
  init ← transact t "BigBang" bb "init" (abi_encoded big_bang_types (items words) ∷ [])
  add ← transact t "Penrose" c.penrose "addBigBang" (text c.medium_risk_mc ∷ text bb ∷ [])
  market ← last_clone t "BigBang" c.medium_risk_mc
  set ← set_asset_oracle_call t c market asset_oracle
  minter ← make_minter t chain market
  main ← main_market t c market
  ok (record {
    calls = (init ∷ add ∷ set ∷ []) ++ minter ++ main;
    saved_name = join "BigBang-" token.name;
    saved_address = market;
  })

-- `deployBigBangMarket__task`
unfoldable pub deploy_big_bang_market : Tools → MarketArgs → Result Deployed
unfolding load_big_bang_contracts find_token_strategy load_oracles load_modules find_executor
    deploy_contract big_bang_words open_big_bang
deploy_big_bang_market t args = do
  chain ← or_thrown "Chain not found" t.runtime.chain_info
  c ← load_big_bang_contracts t chain
  strategy ← find_token_strategy t chain args c.token
  token ← present c.token
  collateral_id ← t.ids c.yield_box token.address strategy
  oracles ← load_oracles t chain args token
  modules ← load_modules t
  bb ← deploy_contract t "BigBang" []
  oracle ← present (or_first oracles.oracle oracles.first_deployed)
  executor ← present (find_executor t args)
  words ←
      big_bang_words t c modules token.address (num collateral_id) oracle.address executor.address
  open_big_bang t chain c token bb oracles.asset_oracle words
