-- ===== src/PostLbp1/Deploy/DeployedNames.antt =====
-- Under which names phase 1 deploys: a list for each kind of chain.
use tapioca_bar.Prelude.{String, Bool, List, [], ◌∷◌, ◌++◌, map, arith, ◌≡◌}
use tapioca_bar.Prelude.{ok, if◌then◌else◌}
use mathlib.Core.List.{map-append}
use tapioca_bar.Config.Names as N
use tapioca_bar.Sdk.{Build}
use tapioca_bar.PostLbp1.Params.{VmPass}
use tapioca_bar.PostLbp1.Loading.{Generic}
use tapioca_bar.PostLbp1.Deploy.{
  liquidator_builds, usdo_builds, glp_executor_builds, penrose_builds, host_builds, side_builds,
  deploy_task,
}

abbrev pub names : List Build → List String
names = map (λ b. b.deployment_name)

abbrev pub liquidator_names : List String
liquidator_names = N.market_liquidator_receiver ∷ N.sglp_market_liquidator_receiver ∷ []

abbrev pub usdo_names : List String
usdo_names =
    N.usdo_sender_module ∷ N.usdo_receiver_module ∷ N.usdo_market_receiver_module
    ∷ N.usdo_option_receiver_module ∷ N.sgl_init ∷ N.usdo_helper ∷ N.usdo_ext_exec
    ∷ N.simple_leverage_executor ∷ N.usdo ∷ N.usdo_flashloan_helper ∷ []

abbrev pub executor_names : Bool → List String
executor_names is_testnet = if is_testnet then [] else N.sgl_glp_leverage_executor ∷ []

abbrev pub penrose_names : List String
penrose_names =
    N.sgl_liquidation_module ∷ N.sgl_borrow_module ∷ N.sgl_collateral_module ∷ N.sgl_leverage_module
    ∷ N.penrose ∷ N.sgl_medium_risk_mc ∷ N.sgl_interest_helper ∷ []

-- The mock USDC market, its BigBang and its strategy are for test networks only.
abbrev pub host_names : Bool → List String
host_names is_testnet =
    N.bb_liquidation_module
    ∷ N.bb_borrow_module
    ∷ N.bb_collateral_module
    ∷ N.bb_leverage_module
    ∷ N.bb_debt_rate_helper
    ∷ N.yb_mt_eth_asset_without_strategy
    ∷ N.yb_t_eth_asset_without_strategy
    ∷ N.yb_t_reth_asset_without_strategy
    ∷ N.yb_t_wst_eth_asset_without_strategy
    ∷ N.bb_medium_risk_mc
    ∷ N.bb_mt_eth_market
    ∷ N.bb_t_reth_market
    ∷ N.bb_t_wst_eth_market
    ∷ (if is_testnet
        then N.bb_t_usdc_mock_market ∷ N.yb_sglp_asset_without_strategy
          ∷ N.yb_t_usdc_mock_asset_without_strategy ∷ N.sgl_s_glp_market ∷ N.sgl_usdc_mock_market
          ∷ []
        else N.yb_sglp_asset_with_strategy ∷ N.sgl_s_glp_market ∷ [])

abbrev pub side_names : Bool → List String
side_names is_testnet =
    (if is_testnet then N.yb_sdai_asset_without_strategy else N.yb_sdai_asset_with_strategy)
    ∷ N.sgl_s_dai_market
    ∷ []

abbrev pub deploy_names : Bool → Bool → Bool → List String
deploy_names is_testnet is_host_chain is_side_chain =
    liquidator_names
    ++ (usdo_names
        ++ (executor_names is_testnet
            ++ (penrose_names
                ++ (N.market_helper
                    ∷ ((if is_host_chain then host_names is_testnet else [])
                        ++ (if is_side_chain then side_names is_testnet else []))))))

module _ (p : VmPass) where
  module _ (g : Generic) where
    liquidator_builds_names :
        {q : List Build} → liquidator_builds p g ≡ ok q → names q ≡ liquidator_names
    unfolding liquidator_builds
    liquidator_builds_names h = ground arith

    usdo_builds_names : {q : List Build} → usdo_builds p g ≡ ok q → names q ≡ usdo_names
    unfolding usdo_builds
    usdo_builds_names h = ground arith

    glp_executor_builds_names :
        {q : List Build} → glp_executor_builds p g ≡ ok q → names q ≡ executor_names p.is_testnet
    unfolding glp_executor_builds
    glp_executor_builds_names h = ground arith

    penrose_builds_names : {q : List Build} → penrose_builds p g ≡ ok q → names q ≡ penrose_names
    unfolding penrose_builds
    penrose_builds_names h = ground arith

  host_builds_names : {q : List Build} → host_builds p ≡ ok q → names q ≡ host_names p.is_testnet
  unfolding host_builds
  host_builds_names h = ground arith

  side_builds_names : {q : List Build} → side_builds p ≡ ok q → names q ≡ side_names p.is_testnet
  unfolding side_builds
  side_builds_names h = ground arith

  -- If the deploy task of phase 1 yields a queue, the names in it are those of `deploy_names`,
  -- which depend on nothing but whether the chain is a test network, a host and a side chain.
  pub deploy_task_names :
      {q : List Build}
      → deploy_task p ≡ ok q
      → names q ≡ deploy_names p.is_testnet p.is_host_chain p.is_side_chain
  unfolding deploy_task
  deploy_task_names h = grind (
    arith, liquidator_builds_names, usdo_builds_names, glp_executor_builds_names,
    penrose_builds_names, host_builds_names, side_builds_names, map-append,
  )
