-- ===== src/PostLbp1/Setup/InitMarkets.antt =====
-- `setupInitAndRegisterMarket` of tasks/deploy/postDepSetup/setupInitAndRegisterMarket.ts: which
-- markets are initialised on which chain, and with what. The children have `initBBMarket` and
-- `initSGLMarket`.
pub mod BigBang
pub mod Singularity
pub mod Outcomes
use tapioca_bar.Prelude.{
  String, Bool, Option, some, List, if◌then◌else◌, Result, ok, present, ◌>>=◌,
}
use tapioca_bar.Config.{BbMarketConfig, SglMarketConfig, PostLbp, post_lbp}
use tapioca_bar.Config.Names
use tapioca_bar.Sdk.{Hre, World, Call, address_of, when, ◌followed_by◌, load_local_contract}
use tapioca_bar.PostLbp1.Params.{PostDeployParams}
use tapioca_bar.PostLbp1.Loading.{load_generic, load_eth, load_arb}
use BigBang.{BbMarketParams, init_bb_market}
use Singularity.{SglMarketParams, init_sgl_market}

-- `DEPLOY_CONFIG.POST_LBP[hre.SDK.eChainId]!`
unfoldable pub chain_config : PostDeployParams → Result PostLbp
chain_config p = present (post_lbp p.hre.e_chain_id)

-- What the calls of `initBBMarket` and `initSGLMarket` share.
pub record Shared : Type 0 where
  pub leverage_executor : String
  pub penrose : String
  pub usdo : String
  pub usdo_strategy : String
  pub interest_helper : String
  pub yield_box : String

-- One call of `initBBMarket`: the market's name, collateral, strategy, oracle and configuration.
unfoldable pub init_bb :
    PostDeployParams
    → World
    → Shared
    → String
    → Option String
    → String
    → String
    → BbMarketConfig
    → Result (List Call)
init_bb p w s market_name collateral strategy_name oracle conf = init_bb_market p w (record {
  market_name = market_name;
  collateral = collateral;
  strategy_name = strategy_name;
  oracle = oracle;
  debt_rate_against_eth = conf.debt_rate_against_eth;
  debt_rate_min = conf.debt_rate_min;
  debt_rate_max = conf.debt_rate_max;
  collateralization_rate = conf.collateralization_rate;
  liquidation_collateralization_rate = conf.liquidation_collateralization_rate;
  total_borrow_cap = conf.total_borrow_cap;
  leverage_executor = s.leverage_executor;
  penrose = s.penrose;
  yield_box = s.yield_box;
})

-- The BigBang markets of Arbitrum. The mock USDC market takes its parameters from wstETH's.
unfoldable pub init_bb_markets : PostDeployParams → World → Shared → Result (List Call)
init_bb_markets p w s = do
  arb ← load_arb p.hre p.tag p.is_testnet
  (do
    config ← chain_config p
    conf ← present config.mt_eth_market_config
    init_bb p w s Names.bb_mt_eth_market (some arb.mt_eth) Names.yb_mt_eth_asset_without_strategy
        arb.eth_market_oracle conf)
      followed_by (do
        config ← chain_config p
        conf ← present config.t_reth_market_config
        init_bb p w s Names.bb_t_reth_market (some arb.t_reth)
            Names.yb_t_reth_asset_without_strategy arb.t_reth_market_oracle conf)
      followed_by (do
        config ← chain_config p
        conf ← present config.tw_st_eth_market_config
        init_bb p w s Names.bb_t_wst_eth_market (some arb.t_wst_eth)
            Names.yb_t_wst_eth_asset_without_strategy arb.t_wst_eth_market_oracle conf)
      followed_by (do
        config ← chain_config p
        conf ← present config.tw_st_eth_market_config
        init_bb p w s Names.bb_t_usdc_mock_market config.usdc_mock
            Names.yb_t_usdc_mock_asset_without_strategy arb.t_wst_eth_market_oracle conf)

-- One call of `initSGLMarket`.
unfoldable pub init_sgl :
    PostDeployParams
    → World
    → Shared
    → String
    → String
    → Option String
    → String
    → String
    → SglMarketConfig
    → Result (List Call)
init_sgl p w s leverage_executor market_name collateral strategy_name oracle conf =
    init_sgl_market p w (record {
      market_name = market_name;
      collateral = collateral;
      strategy_name = strategy_name;
      oracle = oracle;
      usdo_strategy = s.usdo_strategy;
      usdo = s.usdo;
      collateralization_rate = conf.collateralization_rate;
      liquidation_collateralization_rate = conf.liquidation_collateralization_rate;
      minimum_interest_per_second = conf.minimum_interest_per_second;
      maximum_interest_per_second = conf.maximum_interest_per_second;
      leverage_executor = leverage_executor;
      penrose = s.penrose;
      yield_box = s.yield_box;
      interest_helper = s.interest_helper;
    })

-- The sDAI market of Ethereum.
unfoldable pub init_side_sgl_market : PostDeployParams → World → Shared → Result (List Call)
init_side_sgl_market p w s = do
  eth ← load_eth p.hre p.tag p.is_testnet
  config ← chain_config p
  conf ← present config.t_sdai_market_config
  init_sgl p w s s.leverage_executor Names.sgl_s_dai_market (some eth.t_sdai)
      (if p.is_testnet
        then Names.yb_sdai_asset_without_strategy
        else Names.yb_sdai_asset_with_strategy)
      eth.t_sdai_market_oracle conf

-- The sGLP market of Arbitrum, and the mock USDC market, which takes its parameters from it.
unfoldable pub init_host_sgl_markets : PostDeployParams → World → Shared → Result (List Call)
init_host_sgl_markets p w s = do
  arb ← load_arb p.hre p.tag p.is_testnet
  executor ←
      load_local_contract w p.hre.e_chain_id
        (if p.is_testnet then Names.simple_leverage_executor else Names.sgl_glp_leverage_executor)
        p.tag
  (do
    config ← chain_config p
    conf ← present config.t_sglp_market_config
    init_sgl p w s executor.address Names.sgl_s_glp_market (some arb.t_sglp)
        (if p.is_testnet
          then Names.yb_sglp_asset_without_strategy
          else Names.yb_sglp_asset_with_strategy)
        arb.t_sglp_market_oracle conf)
      followed_by (do
        config ← chain_config p
        conf ← present config.t_sglp_market_config
        init_sgl p w s executor.address Names.sgl_usdc_mock_market config.usdc_mock
            Names.yb_t_usdc_mock_asset_without_strategy arb.t_sglp_market_oracle conf)

unfoldable pub init_and_register_market : PostDeployParams → World → Result (List Call)
init_and_register_market p w = do
  leverage_executor ← address_of Names.simple_leverage_executor p.deployed
  penrose ← address_of Names.penrose p.deployed
  usdo ← address_of Names.usdo p.deployed
  usdo_strategy ← load_local_contract w p.hre.e_chain_id Names.yb_usdo_asset_without_strategy p.tag
  interest_helper ← address_of Names.sgl_interest_helper p.deployed
  g ← load_generic p.hre p.tag p.is_testnet
  let s : Shared = record {
    leverage_executor = leverage_executor;
    penrose = penrose;
    usdo = usdo;
    usdo_strategy = usdo_strategy.address;
    interest_helper = interest_helper;
    yield_box = g.yield_box;
  }
  when p.is_host_chain (init_bb_markets p w s)
      followed_by when p.is_side_chain (init_side_sgl_market p w s)
      followed_by when p.is_host_chain (init_host_sgl_markets p w s)
