-- ===== src/Deprecated/Examples.antt =====
-- The tasks that deployed markets, on a small test network.
use tapioca_bar.Prelude.{
  ℕ, String, true, none, some, [], ◌∷◌, ok, err, rejected, ◌≡◌, refl, ◌>>=◌, length, if◌then◌else◌,
  ◌===◌, Option,
}
use tapioca_bar.Exec.{Runtime, Saved, ChainEntry, find_saved, encode}
use tapioca_bar.Deprecated.{
  Tools, MarketArgs, Deployed, find_oracle, find_starting, or_first, usdo_strategy, load_oracle,
  find_token_strategy, ask_number, deploy_contract, transact, make_minter, find_executor,
  find_yield_box, last_clone,
}
use tapioca_bar.Deprecated.SglMarket.{
  deploy_sgl_market, prepare_sgl, open_sgl, load_contracts, sgl_data,
}
use tapioca_bar.Deprecated.OriginsMarket.{deploy_origins_market}
use tapioca_bar.Deprecated.BigBangMarket.{
  Oracles, load_oracles, find_asset_oracle, deploy_big_bang_market, load_big_bang_contracts,
  oracle_builds, asset_oracle_builds, save_oracles, load_modules, big_bang_words, open_big_bang,
  set_asset_oracle_call, main_market,
}
use tapioca_bar.Deprecated.Interfaces.{deprecated_tasks_never}
use tapioca_bar.Deprecated.Oracles.{load_oracles_lost}

abbrev named : String → Saved
named name = record { name = name; address = name; strat_for = none }

abbrev sepolia : ChainEntry
sepolia = record { chain_id = "421614"; lz_chain_id = 10231; is_testnet = true }

abbrev arguments_of : String → String → Option ℕ
arguments_of contract fn =
    if fn === "constructor"
    then if contract === "Origins" then some 10 else some 0
    else if fn === "init"
    then if contract === "Singularity" then some 2 else some 1
    else if fn === "setMinterStatus"
    then some 2
    else if fn === "setBurnerStatus"
    then some 2
    else if fn === "executeMarketFn"
    then some 3
    else if fn === "addBigBang"
    then some 2
    else if fn === "setAssetOracle"
    then some 2
    else some 1

abbrev rt : Runtime
rt = record {
  chain_id = "421614";
  chain_info = some sepolia;
  supported_chains = sepolia ∷ [];
  projects = λ key. key;
  load_local = λ chain. named "USDO" ∷ named "Chainlink-tETH" ∷ [];
  load_global = (λ project chain.
      if project === "yieldbox"
      then named "YieldBox" ∷ []
      else if project === "tapioca-strategies"
      then named "ERC20WithoutStrategy-tETH" ∷ []
      else if project === "tapiocaz"
      then named "tETH" ∷ []
      else []);
  penrose = ok "Penrose";
  deployments = λ local. ok [];
  inputs = arguments_of;
  is_address = λ s. true;
  prompt = λ name default. default;
  signer = "0x51";
}

abbrev tools : Tools
tools = record {
  runtime = rt;
  get_local = λ name. some (named name);
  get_local_contract = λ name. ok name;
  ask = (λ name default.
      if name === "tokenName"
      then "tETH"
      else if name === "projectName"
      then "tapiocaz"
      else default);
  big_number = λ s. ok 0;
  parse_ether = λ s. ok 1;
  ids = λ yield_box token strategy. ok 7;
  empty_strategies = λ penrose token. ok "strategy";
  deploy = λ contract args. ok contract;
  execute_builds = λ builds. ok (named "AssetOracleMock" ∷ []);
  local_after = λ builds. named "USDO" ∷ named "Chainlink-tETH" ∷ named "AssetOracleMock" ∷ [];
  markets_length = λ kind. 1;
  clones_of = λ mc i. ok "clone";
  name_of = λ address. ok "Tapioca Singularity";
}

abbrev market_args : MarketArgs
market_args = record {
  executor_name = none;
  oracle_name = some "Chainlink";
  token_strategy_name = none;
  asset_oracle_name = none;
}

abbrev deployed : Deployed
deployed = record { calls = []; saved_name = "Origins"; saved_address = "Origins" }

deprecated_tasks_never_example :
    ¬ (deploy_sgl_market tools market_args ≡ ok deployed)
    × ¬ (deploy_origins_market tools market_args ≡ ok deployed)
deprecated_tasks_never_example = deprecated_tasks_never tools market_args deployed refl refl

load_oracles_lost_example :
    (o : Oracles) × (load_oracles tools sepolia market_args (named "tETH") ≡ ok o)
    × (or_first o.oracle o.first_deployed ≡ some (named "AssetOracleMock"))
unfolding find_oracle find_starting find_saved find_asset_oracle
load_oracles_lost_example =
    load_oracles_lost tools sepolia market_args (named "tETH") (named "Chainlink-tETH")
      (named "AssetOracleMock") "Chainlink" 1 [] refl refl refl refl refl refl refl

-- The task on a BigBang market ends; the one on a Singularity market is refused by ethers.
big_bang_deployed : (deploy_big_bang_market tools market_args >>= λ d. ok (length d.calls)) ≡ ok 6
unfolding deploy_big_bang_market load_big_bang_contracts find_yield_box find_saved
    find_token_strategy load_oracles find_oracle find_starting find_asset_oracle oracle_builds
    asset_oracle_builds save_oracles load_modules find_executor deploy_contract encode
    big_bang_words ask_number open_big_bang transact last_clone set_asset_oracle_call make_minter
    main_market
big_bang_deployed = refl

sgl_refused : deploy_sgl_market tools market_args ≡ err (rejected "types/values length mismatch")
unfolding deploy_sgl_market prepare_sgl load_contracts find_yield_box find_saved usdo_strategy
    load_oracle find_oracle find_starting find_token_strategy find_executor deploy_contract encode
    sgl_data ask_number open_sgl transact
sgl_refused = refl
