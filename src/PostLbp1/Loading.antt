-- ===== src/PostLbp1/Loading.antt =====
-- `deploy__LoadDeployments_Generic`, `_Eth` and `_Arb` of tasks/deploy/1-1-deployPostLbp.ts.
use tapioca_bar.Prelude.{String, Bool, Result, ok, ◌>>=◌, if◌then◌else◌}
use tapioca_bar.Sdk.{Hre, Contract, Project, load_global_contract}
use tapioca_bar.Sdk.{tapioca_periph, tapioca_z}

pub record Generic : Type 0 where
  pub tap_token : String
  pub yield_box : String
  pub cluster : String
  pub pearlmit : String
  pub zero_x_swapper : String
  pub tap_strat_with_asset : Contract
  pub weth_strat_with_asset : Contract

pub record Eth : Type 0 where
  pub generic : Generic
  pub t_sdai_market_oracle : String
  pub t_sdai : String

pub record Arb : Type 0 where
  pub generic : Generic
  pub mt_eth : String
  pub t_eth : String
  pub t_reth : String
  pub t_wst_eth : String
  pub eth_market_oracle : String
  pub t_reth_market_oracle : String
  pub t_wst_eth_market_oracle : String
  pub t_sglp_market_oracle : String
  pub t_sglp : String
  pub weth_glp_oracle : String

-- `loadGlobalContract(hre, project, hre.SDK.eChainId, name, tag)`
abbrev load : Hre → String → Project → String → Result Contract
load hre tag project name = load_global_contract hre project hre.e_chain_id name tag

-- `loadGlobalContract(...).address`
abbrev load_address : Hre → String → Project → String → Result String
load_address hre tag project name = do c ← load hre tag project name; ok c.address

unfoldable pub load_generic : Hre → String → Bool → Result Generic
load_generic hre tag is_testnet = do
  tap ← load_address hre tag Project.tap_token hre.names.tap_token
  yield_box ← load_address hre tag tapioca_periph hre.names.yieldbox
  cluster ← load_address hre tag tapioca_periph hre.names.cluster
  pearlmit ← load_address hre tag tapioca_periph hre.names.pearlmit
  zero_x_swapper ←
      load_address hre tag tapioca_periph
        (if is_testnet then hre.names.zero_x_swapper_mock else hre.names.zero_x_swapper)
  tap_strat ← load hre tag tapioca_periph hre.names.tap_token_yb_empty_strat
  weth_strat ← load hre tag tapioca_periph hre.names.weth_yb_empty_strat
  ok (record {
    tap_token = tap;
    yield_box = yield_box;
    cluster = cluster;
    pearlmit = pearlmit;
    zero_x_swapper = zero_x_swapper;
    tap_strat_with_asset = tap_strat;
    weth_strat_with_asset = weth_strat;
  })

unfoldable pub load_eth : Hre → String → Bool → Result Eth
load_eth hre tag is_testnet = do
  t_sdai_market_oracle ← load_address hre tag tapioca_periph hre.names.market_sdai_oracle
  t_sdai ← load_address hre tag tapioca_z hre.names.ts_dai
  generic ← load_generic hre tag is_testnet
  ok (record { generic = generic; t_sdai_market_oracle = t_sdai_market_oracle; t_sdai = t_sdai })

unfoldable pub load_arb : Hre → String → Bool → Result Arb
load_arb hre tag is_testnet = do
  mt_eth ← load_address hre tag tapioca_z hre.names.mt_eth
  t_eth ← load_address hre tag tapioca_z hre.names.t_eth
  t_reth ← load_address hre tag tapioca_z hre.names.t_reth
  t_wst_eth ← load_address hre tag tapioca_z hre.names.t_wst_eth
  eth_market_oracle ← load_address hre tag tapioca_periph hre.names.market_teth_oracle
  t_reth_market_oracle ← load_address hre tag tapioca_periph hre.names.market_reth_oracle
  t_wst_eth_market_oracle ← load_address hre tag tapioca_periph hre.names.market_wsteth_oracle
  t_sglp_market_oracle ← load_address hre tag tapioca_periph hre.names.market_glp_oracle
  weth_glp_oracle ← load_address hre tag tapioca_periph hre.names.eth_glp_oracle
  t_sglp ← load_address hre tag tapioca_z hre.names.ts_glp
  generic ← load_generic hre tag is_testnet
  ok (record {
    generic = generic;
    mt_eth = mt_eth;
    t_eth = t_eth;
    t_reth = t_reth;
    t_wst_eth = t_wst_eth;
    eth_market_oracle = eth_market_oracle;
    t_reth_market_oracle = t_reth_market_oracle;
    t_wst_eth_market_oracle = t_wst_eth_market_oracle;
    t_sglp_market_oracle = t_sglp_market_oracle;
    t_sglp = t_sglp;
    weth_glp_oracle = weth_glp_oracle;
  })
