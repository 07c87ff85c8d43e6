-- ===== src/PostLbp1/Setup/MockMarket.antt =====
-- The mock USDC markets are deployed on test networks only, and set up on every host chain.
use tapioca_bar.Prelude.{String, Bool, true, false, List, arith, ◌≡◌, ◌≢◌, refl}
use tapioca_bar.Prelude.{contains, ok}
use tapioca_bar.Config.Names
use tapioca_bar.Sdk.{World, Call, Build, Deployment, SdkTasks}
use tapioca_bar.Sdk.{deployed_names, address_of-absent}
use tapioca_bar.PostLbp1.Params.{VmPass, PostDeployParams}
use tapioca_bar.PostLbp1.Deploy.{deploy_task}
use tapioca_bar.PostLbp1.Deploy.DeployedNames.{names, deploy_names, deploy_task_names}
use tapioca_bar.PostLbp1.Setup.{setup_params, calls_1, setup_post_lbp_1}
use tapioca_bar.PostLbp1.Setup.Penrose.{
  register_host_markets, register_bb_and_sgl_markets_in_penrose,
}

module _ (p : PostDeployParams) (w : World) (host : p.is_host_chain ≡ true) where
  module _ (absent : contains Names.bb_t_usdc_mock_market (deployed_names p.deployed) ≡ false) where
    register_host_markets_absent :
        (penrose : String) (calls : List Call) → register_host_markets p w penrose ≢ ok calls
    unfolding register_host_markets
    register_host_markets_absent penrose calls h =
        ground (arith, address_of-absent Names.bb_t_usdc_mock_market p.deployed absent)

    register_markets_absent :
        (calls : List Call) → register_bb_and_sgl_markets_in_penrose p w ≢ ok calls
    unfolding register_bb_and_sgl_markets_in_penrose
    register_markets_absent calls h = grind (arith, register_host_markets_absent)

    calls_1_absent : (calls : List Call) → calls_1 p w ≢ ok calls
    unfolding calls_1
    calls_1_absent calls h = grind (arith, register_markets_absent)

no_mock_market :
    (is_side_chain : Bool)
    → contains Names.bb_t_usdc_mock_market (deploy_names false true is_side_chain) ≡ false
no_mock_market true = refl
no_mock_market false = refl

-- On a host chain that is no test network the setup of phase 1 never succeeds, whatever the chain
-- and the SDK do, if the deployer has deployed the contracts that phase 1 queued.
pub setup_post_lbp_1_mainnet :
    (sdk : SdkTasks) (task : VmPass) (q : List Build) (deployed : List Deployment)
    (multicall : String) (w w' : World)
    → task.is_host_chain ≡ true
    → task.is_testnet ≡ false
    → deploy_task task ≡ ok q
    → deployed_names deployed ≡ names q
    → setup_post_lbp_1 sdk task deployed multicall w ≢ ok w'
unfolding setup_post_lbp_1
setup_post_lbp_1_mainnet sdk task q deployed multicall w w' host no_test queued same h =
    let absent : contains Names.bb_t_usdc_mock_market (deployed_names deployed) ≡ false =
      rw (same, deploy_task_names task queued, host, no_test) (no_mock_market task.is_side_chain) in
    grind (arith, λ (v : World). calls_1_absent (setup_params task deployed) v host absent)
