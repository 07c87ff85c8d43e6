-- ===== src/PostLbp1/Setup/Examples.antt =====
-- The setup of phase 1 on Arbitrum and on Arbitrum Sepolia.
use tapioca_bar.Prelude.{
  err, true, false, List, [], ◌≢◌, refl, ok, some, sym, same_address_refl, arith,
}
use tapioca_bar.Config.Names
use tapioca_bar.Sdk.{World, Deployment, Call, address_of, find}
use tapioca_bar.PostLbp1.Params.{PostDeployParams}
use tapioca_bar.PostLbp1.Deploy.DeployedNames.{deploy_names, deploy_task_names}
use tapioca_bar.PostLbp1.Deploy.Examples.{arbitrum_queue, arbitrum_queued}
use tapioca_bar.PostLbp1.Setup.{setup_params, setup_post_lbp_1}
use tapioca_bar.PostLbp1.Setup.MockMarket.{setup_post_lbp_1_mainnet}
use tapioca_bar.PostLbp1.Setup.Again.{IsSetUp}
use tapioca_bar.PostLbp1.Setup.InitMarkets.BigBang.{BbMarketParams, init_bb_market}
use tapioca_bar.TestData.{
  arbitrum_task, arbitrum_sepolia_task, new_chain, new_world, deploy_all, idle_tasks, test_generic,
}

abbrev arbitrum_deployed : List Deployment
arbitrum_deployed = deploy_all (deploy_names false true false)

abbrev sepolia_deployed : List Deployment
sepolia_deployed = deploy_all (deploy_names true true false)

setup_post_lbp_1_mainnet_example :
    setup_post_lbp_1 idle_tasks arbitrum_task arbitrum_deployed "MULTICALL" new_world ≢ ok new_world
setup_post_lbp_1_mainnet_example =
    setup_post_lbp_1_mainnet idle_tasks arbitrum_task arbitrum_queue arbitrum_deployed "MULTICALL"
      new_world new_world refl refl arbitrum_queued
      (sym (deploy_task_names arbitrum_task arbitrum_queued))

-- The chain after the setup.
abbrev set_up_world : World
set_up_world = record new_world {
  chain = record new_chain {
    is_singularity_master_contract_registered = λ p mc. true;
    is_big_bang_master_contract_registered = λ p mc. true;
    is_market_registered = λ p m. true;
    big_bang_eth_market = λ p. Names.bb_mt_eth_market;
    flash_loan_helper = λ u. Names.usdo_flashloan_helper;
    allowed_minter = λ u id m. true;
    allowed_burner = λ u id m. true;
  };
}

set_up_world-IsSetUp :
    IsSetUp
      (setup_params arbitrum_sepolia_task sepolia_deployed)
      set_up_world
      (test_generic "SWAPPER_MOCK")
unfolding address_of find
set_up_world-IsSetUp = record {
  sgl_mc = λ penrose m h. refl;
  bb_mc = λ penrose m h. refl;
  market = λ penrose m h. refl;
  eth_market = λ penrose m h k. grind (arith, same_address_refl);
  helper = λ usdo m h k. grind (arith, same_address_refl);
  asset = λ asset strategy h k. absurd (cc);
}

abbrev sepolia_params : PostDeployParams
sepolia_params = setup_params arbitrum_sepolia_task sepolia_deployed

abbrev mt_eth_market : BbMarketParams
mt_eth_market = record {
  market_name = Names.bb_mt_eth_market;
  collateral = some "MT_ETH";
  strategy_name = Names.yb_mt_eth_asset_without_strategy;
  oracle = "TETH_ORACLE";
  debt_rate_against_eth = 0;
  debt_rate_min = 0;
  debt_rate_max = 0;
  collateralization_rate = 82_000;
  liquidation_collateralization_rate = 85_000;
  total_borrow_cap = 31_000_000;
  leverage_executor = Names.simple_leverage_executor;
  penrose = Names.penrose;
  yield_box = "YIELDBOX";
}

abbrev init_calls : List Call
init_calls = elim (init_bb_market sepolia_params new_world mt_eth_market) [ ok c ↦ c | err e ↦ [] ]
