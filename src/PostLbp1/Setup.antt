-- ===== src/PostLbp1/Setup.antt =====
-- tasks/deploy/1-1-setupPostLbp.ts, and `tapiocaPostDeployTask` of 1-1-deployPostLbp.ts: the steps
-- after the deployment of phase 1, in two multicalls.
pub mod Penrose
pub mod UsdoInPenrose
pub mod Minters
pub mod Assets
pub mod InitMarkets
pub mod MockMarket
pub mod Testnet
pub mod Again
pub mod AssetId
pub mod Examples
use tapioca_bar.Prelude.{String, Bool, List, [], ◌++◌, if◌then◌else◌, Result, ok, ◌>>=◌}
use tapioca_bar.Config.Names
use tapioca_bar.Sdk.{Deployment, World, Call, SdkTasks, ◌followed_by◌}
use tapioca_bar.PostLbp1.Params.{VmPass, PostDeployParams}
use Penrose.{
  register_mc_in_penrose, register_bb_and_sgl_markets_in_penrose, register_big_bang_eth_market,
  penrose_main_assets,
}
use UsdoInPenrose.{usdo_in_penrose}
use Minters.{usdo_flashloan_helper_in_usdo, register_bb_as_minter_burner_in_usdo}
use Assets.{create_yb_assets, deposit_yb_assets}
use InitMarkets.{init_and_register_market}

-- `setupParams1` and `setupParams2`, which differ only in the array `calls`.
abbrev pub setup_params : VmPass → List Deployment → PostDeployParams
setup_params task deployed = record {
  hre = task.hre;
  tag = task.tag;
  deployed = deployed;
  is_testnet = task.is_testnet;
  is_host_chain = task.is_host_chain;
  is_side_chain = task.is_side_chain;
}

-- The steps between `setupUsdoInPenrose` and the first multicall.
unfoldable pub calls_1 : PostDeployParams → World → Result (List Call)
calls_1 p w =
    register_mc_in_penrose p w
    followed_by register_bb_and_sgl_markets_in_penrose p w
    followed_by register_big_bang_eth_market p w
    followed_by usdo_flashloan_helper_in_usdo p w
    followed_by create_yb_assets p w

-- The steps of the second multicall. They read the chain as the first has left it.
unfoldable pub calls_2 : VmPass → PostDeployParams → String → World → Result (List Call)
calls_2 task p multicall w =
    penrose_main_assets p w
    followed_by deposit_yb_assets task p multicall w
    followed_by init_and_register_market p w
    followed_by register_bb_as_minter_burner_in_usdo p w

-- `multicall` is the address of `VM.getMulticall()`, and `deployed` is `VM.list()`.
unfoldable pub setup_post_lbp_1 :
    SdkTasks → VmPass → List Deployment → String → World → Result World
setup_post_lbp_1 sdk task deployed multicall w = do
  let p = setup_params task deployed
  (w1, usdo_calls) ← usdo_in_penrose sdk p w
  calls ← calls_1 p w1
  w2 ← sdk.execute_multicall (usdo_calls ++ calls) w1
  more_calls ← calls_2 task p multicall w2
  sdk.execute_multicall more_calls w2

unfoldable pub post_deploy_task :
    SdkTasks → VmPass → Bool → List Deployment → String → World → Result World
post_deploy_task sdk task no_lz_peer deployed multicall w = do
  w' ← (if no_lz_peer then ok w else sdk.set_lz_peer task.tag Names.usdo w)
  setup_post_lbp_1 sdk task deployed multicall w'
