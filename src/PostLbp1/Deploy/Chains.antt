-- ===== src/PostLbp1/Deploy/Chains.antt =====
-- On which chains the deploy task of phase 1 goes through.
use tapioca_bar.Prelude.{Bool, true, false, some, arith, ◌≡◌}
use tapioca_bar.Prelude.{ok, err, type_error, IsOk}
use tapioca_bar.Config.{EChainId, arbitrum, arbitrum_sepolia, mainnet, sepolia, optimism_sepolia}
use tapioca_bar.Config.{fuji_avalanche, post_lbp, misc_weth}
use tapioca_bar.Sdk.{Meta}
use tapioca_bar.PostLbp1.Params.{VmPass}
use tapioca_bar.PostLbp1.Loading.{Generic, Arb, load_generic, load_arb}
use tapioca_bar.PostLbp1.Deploy.{
  liquidator_builds, usdo_builds, glp_executor_builds, penrose_builds, host_builds, deploy_task,
}

-- The chains of the sDAI market, and those of the sGLP market.
abbrev pub is_eth_side : EChainId → Bool
is_eth_side mainnet = true
is_eth_side sepolia = true
is_eth_side optimism_sepolia = true
is_eth_side fuji_avalanche = true
is_eth_side _ = false

abbrev pub is_arb_side : EChainId → Bool
is_arb_side arbitrum = true
is_arb_side arbitrum_sepolia = true
is_arb_side _ = false

liquidator_builds_eth_side :
    (p : VmPass) (g : Generic) (c : EChainId)
    → is_eth_side c ≡ true
    → p.hre.chain_info.chain_id ≡ c
    → p.hre.e_chain_id ≡ c
    → liquidator_builds p g ≡ err type_error
unfolding liquidator_builds post_lbp
liquidator_builds_eth_side p g c side e e' = ground arith

-- On Ethereum, Sepolia, Optimism Sepolia and Fuji, where the configuration has no `glpStrat`, the
-- deploy task ends in a TypeError as soon as the shared deployments are loaded.
pub deploy_task_eth_side :
    (p : VmPass) (g : Generic) (c : EChainId)
    → is_eth_side c ≡ true
    → p.hre.chain_info.chain_id ≡ c
    → p.hre.e_chain_id ≡ c
    → load_generic p.hre p.tag p.is_testnet ≡ ok g
    → deploy_task p ≡ err type_error
unfolding deploy_task
deploy_task_eth_side p g c side e e' loaded =
    ground (arith, liquidator_builds_eth_side p g c side e e')

module _ (p : VmPass) (c : EChainId) (side : is_arb_side c ≡ true)
    (e : p.hre.chain_info.chain_id ≡ c) (e' : p.hre.e_chain_id ≡ c) where
  module _ (g : Generic) where
    liquidator_builds-IsOk : IsOk (liquidator_builds p g)
    unfolding liquidator_builds post_lbp
    liquidator_builds-IsOk = ground arith

    usdo_builds-IsOk : IsOk (usdo_builds p g)
    unfolding usdo_builds
    usdo_builds-IsOk = ground arith

    glp_executor_builds-IsOk : IsOk (glp_executor_builds p g)
    unfolding glp_executor_builds post_lbp
    glp_executor_builds-IsOk = ground arith

    penrose_builds-IsOk :
        (t w : Meta)
        → g.tap_strat_with_asset.meta ≡ some t
        → g.weth_strat_with_asset.meta ≡ some w
        → IsOk (penrose_builds p g)
    unfolding penrose_builds misc_weth
    penrose_builds-IsOk t w ht hw = ground arith

  host_builds-IsOk : (a : Arb) → load_arb p.hre p.tag p.is_testnet ≡ ok a → IsOk (host_builds p)
  unfolding host_builds post_lbp
  host_builds-IsOk a h = ground arith

  -- On Arbitrum and Arbitrum Sepolia, which are no side chains, the deploy task yields a queue, if
  -- the deployments of the sister projects are found and the two strategies of Penrose were saved
  -- with their `meta`.
  pub deploy_task-IsOk :
      (g : Generic) (a : Arb) (t w : Meta)
      → p.is_side_chain ≡ false
      → load_generic p.hre p.tag p.is_testnet ≡ ok g
      → load_arb p.hre p.tag p.is_testnet ≡ ok a
      → g.tap_strat_with_asset.meta ≡ some t
      → g.weth_strat_with_asset.meta ≡ some w
      → IsOk (deploy_task p)
  unfolding deploy_task
  deploy_task-IsOk g a t w no_side loaded loaded_arb ht hw = ground (
    arith,
    liquidator_builds-IsOk g,
    usdo_builds-IsOk g,
    glp_executor_builds-IsOk g,
    penrose_builds-IsOk g t w ht hw,
    host_builds-IsOk a loaded_arb,
  )
