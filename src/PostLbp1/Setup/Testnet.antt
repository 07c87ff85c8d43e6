-- ===== src/PostLbp1/Setup/Testnet.antt =====
-- The first multicall on the test network of the host chain: every contract that its steps look
-- up has been deployed.
use tapioca_bar.Prelude.{String, true, false, Option, some, List, arith, ◌≡◌, refl}
use tapioca_bar.Prelude.{contains, ok, IsOk}
use tapioca_bar.Config.{arbitrum_sepolia, post_lbp}
use tapioca_bar.Config.Names
use tapioca_bar.Sdk.{World, Build, Deployment, address_of}
use tapioca_bar.Sdk.{deployed_names, address_of-present}
use tapioca_bar.PostLbp1.Params.{VmPass, PostDeployParams}
use tapioca_bar.PostLbp1.Loading.{Generic, Arb, load_generic, load_arb}
use tapioca_bar.PostLbp1.Deploy.{deploy_task}
use tapioca_bar.PostLbp1.Deploy.DeployedNames.{names, deploy_names, deploy_task_names}
use tapioca_bar.PostLbp1.Setup.{setup_params, calls_1}
use tapioca_bar.PostLbp1.Setup.Penrose.{
  register_mc_in_penrose, register_market, register_host_markets,
  register_bb_and_sgl_markets_in_penrose, register_big_bang_eth_market,
}
use tapioca_bar.PostLbp1.Setup.Minters.{usdo_flashloan_helper_in_usdo}
use tapioca_bar.PostLbp1.Setup.Assets.{add_new_asset, create_host_assets, create_yb_assets}

module _ (p : PostDeployParams) (w : World) (host : p.is_host_chain ≡ true)
    (no_side : p.is_side_chain ≡ false) (test : p.is_testnet ≡ true)
    (same : deployed_names p.deployed ≡ deploy_names true true false) where
  found :
      (name : String)
      → contains name (deploy_names true true false) ≡ true
      → IsOk (address_of name p.deployed)
  found name h = address_of-present name p.deployed (rw same h)

  register_mc-IsOk : IsOk (register_mc_in_penrose p w)
  unfolding register_mc_in_penrose
  register_mc-IsOk = ground (
    arith,
    found Names.penrose refl,
    found Names.sgl_medium_risk_mc refl,
    found Names.bb_medium_risk_mc refl,
  )

  register_host_markets-IsOk : (penrose : String) → IsOk (register_host_markets p w penrose)
  unfolding register_host_markets register_market
  register_host_markets-IsOk penrose = ground (
    arith,
    found Names.bb_medium_risk_mc refl,
    found Names.bb_mt_eth_market refl,
    found Names.bb_t_reth_market refl,
    found Names.bb_t_wst_eth_market refl,
    found Names.bb_t_usdc_mock_market refl,
    found Names.sgl_medium_risk_mc refl,
    found Names.sgl_s_glp_market refl,
    found Names.sgl_usdc_mock_market refl,
  )

  register_markets-IsOk : IsOk (register_bb_and_sgl_markets_in_penrose p w)
  unfolding register_bb_and_sgl_markets_in_penrose
  register_markets-IsOk = grind (arith, found Names.penrose refl, register_host_markets-IsOk)

  register_eth_market-IsOk : IsOk (register_big_bang_eth_market p w)
  unfolding register_big_bang_eth_market
  register_eth_market-IsOk =
      ground (arith, found Names.penrose refl, found Names.bb_mt_eth_market refl)

  flashloan_helper-IsOk : IsOk (usdo_flashloan_helper_in_usdo p w)
  unfolding usdo_flashloan_helper_in_usdo
  flashloan_helper-IsOk =
      ground (arith, found Names.usdo_flashloan_helper refl, found Names.usdo refl)

  module _
      (ids_ok : (yield_box : String) (asset : Option String) (strategy : String)
        → IsOk (w.chain.ids yield_box 1 asset strategy 0)) where
    add_new_asset-IsOk :
        (yield_box : String) (asset : Option String) (name : String)
        → contains name (deploy_names true true false) ≡ true
        → IsOk (add_new_asset p w yield_box asset name)
    unfolding add_new_asset
    add_new_asset-IsOk yield_box asset name h = grind (arith, found name h, ids_ok)

    create_host_assets-IsOk :
        (yield_box : String) (a : Arb)
        → p.hre.e_chain_id ≡ arbitrum_sepolia
        → load_arb p.hre p.tag p.is_testnet ≡ ok a
        → IsOk (create_host_assets p w yield_box)
    unfolding create_host_assets post_lbp
    create_host_assets-IsOk y a e loaded = ground (
      arith,
      add_new_asset-IsOk y (some a.t_sglp) Names.yb_sglp_asset_without_strategy refl,
      add_new_asset-IsOk y (some "0xB97f3fda040662B44055BdcBEc2BaB7CAA70839c")
          Names.yb_t_usdc_mock_asset_without_strategy refl,
      add_new_asset-IsOk y (some a.t_eth) Names.yb_t_eth_asset_without_strategy refl,
      add_new_asset-IsOk y (some a.mt_eth) Names.yb_mt_eth_asset_without_strategy refl,
      add_new_asset-IsOk y (some a.t_reth) Names.yb_t_reth_asset_without_strategy refl,
      add_new_asset-IsOk y (some a.t_wst_eth) Names.yb_t_wst_eth_asset_without_strategy refl,
    )

    create_yb_assets-IsOk :
        (g : Generic) (a : Arb)
        → p.hre.e_chain_id ≡ arbitrum_sepolia
        → load_generic p.hre p.tag p.is_testnet ≡ ok g
        → load_arb p.hre p.tag p.is_testnet ≡ ok a
        → IsOk (create_yb_assets p w)
    unfolding create_yb_assets
    create_yb_assets-IsOk g a e loaded loaded_arb =
        ground (arith, create_host_assets-IsOk g.yield_box a e loaded_arb)

    calls_1-IsOk :
        (g : Generic) (a : Arb)
        → p.hre.e_chain_id ≡ arbitrum_sepolia
        → load_generic p.hre p.tag p.is_testnet ≡ ok g
        → load_arb p.hre p.tag p.is_testnet ≡ ok a
        → IsOk (calls_1 p w)
    unfolding calls_1
    calls_1-IsOk g a e loaded loaded_arb = ground (
      arith,
      register_mc-IsOk,
      register_markets-IsOk,
      register_eth_market-IsOk,
      flashloan_helper-IsOk,
      create_yb_assets-IsOk g a e loaded loaded_arb,
    )

pub calls_1_testnet :
    (task : VmPass) (q : List Build) (deployed : List Deployment) (w : World) (g : Generic)
    (a : Arb)
    → task.is_host_chain ≡ true
    → task.is_side_chain ≡ false
    → task.is_testnet ≡ true
    → deploy_task task ≡ ok q
    → deployed_names deployed ≡ names q
    → ((yield_box : String) (asset : Option String) (strategy : String)
        → IsOk (w.chain.ids yield_box 1 asset strategy 0))
    → task.hre.e_chain_id ≡ arbitrum_sepolia
    → load_generic task.hre task.tag task.is_testnet ≡ ok g
    → load_arb task.hre task.tag task.is_testnet ≡ ok a
    → IsOk (calls_1 (setup_params task deployed) w)
calls_1_testnet task q deployed w g a host no_side test queued same ids_ok e loaded loaded_arb =
    calls_1-IsOk (setup_params task deployed) w host no_side test
      (rw (same, deploy_task_names task queued, host, no_side, test)) ids_ok g a e loaded loaded_arb
