-- ===== src/PostLbp1/Setup/Again.antt =====
-- The first multicall of phase 1 on a chain that is set up already: the steps push nothing, so the
-- task can be run again.
use tapioca_bar.Prelude.{
  String, true, false, Option, List, [], ◌∷◌, IsOk, arith, ◌≡◌, ◌≢◌, same_address, ok, map,
  contains, Result-cases, inl, inr, ap, ◌∙◌,
}
use package.text.Mathlib.TextPositions.{eq_refl}
use tapioca_bar.Config.{arbitrum_sepolia}
use tapioca_bar.Config.Names
use tapioca_bar.Sdk.{World, Call, address_of, find, Deployment, Build, deployed_names}
use tapioca_bar.PostLbp1.Params.{VmPass, PostDeployParams}
use tapioca_bar.PostLbp1.Loading.{Generic, Arb, load_generic, load_arb}
use tapioca_bar.PostLbp1.Deploy.{deploy_task}
use tapioca_bar.PostLbp1.Deploy.DeployedNames.{names}
use tapioca_bar.PostLbp1.Setup.Testnet.{calls_1_testnet}
use tapioca_bar.PostLbp1.Setup.{setup_params, calls_1}
use tapioca_bar.PostLbp1.Setup.Penrose.{
  MarketType, register_side_markets, register_mc_in_penrose, register_market, register_host_markets,
  register_bb_and_sgl_markets_in_penrose, register_big_bang_eth_market,
}
use tapioca_bar.PostLbp1.Setup.Minters.{usdo_flashloan_helper_in_usdo}
use tapioca_bar.PostLbp1.Setup.Assets.{
  add_new_asset, create_side_assets, create_host_assets, create_yb_assets,
}

-- The addresses of the contracts that have been deployed.
abbrev pub addresses : List Deployment → List String
addresses = map (λ d. d.address)

address_of-deployed :
    (name a : String) (ds : List Deployment)
    → address_of name ds ≡ ok a
    → contains a (addresses ds) ≡ true
unfolding address_of find
address_of-deployed name a [] h = absurd (cc)
address_of-deployed name a (d ∷ ds) h =
    grind (arith, eq_refl d.address, address_of-deployed name a ds)

-- The chain has been set up for the deployed contracts: Penrose, USDO and YieldBox report what the
-- steps of the first multicall would set.
pub record IsSetUp (p : PostDeployParams) (w : World) (g : Generic) : Type 0 where
  pub sgl_mc :
      (penrose m : String)
      → contains m (addresses p.deployed) ≡ true
      → w.chain.is_singularity_master_contract_registered penrose m ≡ true
  pub bb_mc :
      (penrose m : String)
      → contains m (addresses p.deployed) ≡ true
      → w.chain.is_big_bang_master_contract_registered penrose m ≡ true
  pub market :
      (penrose m : String)
      → contains m (addresses p.deployed) ≡ true
      → w.chain.is_market_registered penrose m ≡ true
  pub eth_market :
      (penrose m : String)
      → address_of Names.penrose p.deployed ≡ ok penrose
      → address_of Names.bb_mt_eth_market p.deployed ≡ ok m
      → same_address (w.chain.big_bang_eth_market penrose) m ≡ true
  pub helper :
      (usdo h : String)
      → address_of Names.usdo p.deployed ≡ ok usdo
      → address_of Names.usdo_flashloan_helper p.deployed ≡ ok h
      → (same_address (w.chain.flash_loan_helper usdo) h ≡ true)
        × (w.chain.allowed_minter usdo p.hre.chain_info.lz_chain_id h ≡ true)
        × (w.chain.allowed_burner usdo p.hre.chain_info.lz_chain_id h ≡ true)
  pub asset :
      (asset : Option String) (strategy : String)
      → contains strategy (addresses p.deployed) ≡ true
      → w.chain.ids g.yield_box 1 asset strategy 0 ≢ ok 0

module _ (p : PostDeployParams) (w : World) (g : Generic) (set_up : IsSetUp p w g) where
  register_mc_again : {calls : List Call} → register_mc_in_penrose p w ≡ ok calls → calls ≡ []
  unfolding register_mc_in_penrose
  register_mc_again h = grind (arith, set_up.sgl_mc, set_up.bb_mc, address_of-deployed)

  register_market_again :
      (penrose : String) (kind : MarketType) (mc m name : String) {calls : List Call}
      → address_of name p.deployed ≡ ok m
      → register_market w penrose kind mc m ≡ ok calls
      → calls ≡ []
  unfolding register_market
  register_market_again penrose kind mc m name found h =
      grind (arith, set_up.market penrose m (address_of-deployed name m p.deployed found))

  register_host_markets_again :
      (penrose : String) {calls : List Call}
      → register_host_markets p w penrose ≡ ok calls
      → calls ≡ []
  unfolding register_host_markets
  register_host_markets_again penrose h = grind (arith, register_market_again)

  register_side_markets_again :
      (penrose : String) {calls : List Call}
      → register_side_markets p w penrose ≡ ok calls
      → calls ≡ []
  unfolding register_side_markets
  register_side_markets_again penrose h = grind (arith, register_market_again)

  register_markets_again :
      {calls : List Call} → register_bb_and_sgl_markets_in_penrose p w ≡ ok calls → calls ≡ []
  unfolding register_bb_and_sgl_markets_in_penrose
  register_markets_again h = grind (arith, register_host_markets_again, register_side_markets_again)

  eth_market_again : {calls : List Call} → register_big_bang_eth_market p w ≡ ok calls → calls ≡ []
  unfolding register_big_bang_eth_market
  eth_market_again h = grind (arith, set_up.eth_market)

  flashloan_helper_again :
      {calls : List Call} → usdo_flashloan_helper_in_usdo p w ≡ ok calls → calls ≡ []
  unfolding usdo_flashloan_helper_in_usdo
  flashloan_helper_again h = grind (arith, set_up.helper)

  add_new_asset_again :
      (asset : Option String) (name : String) {calls : List Call}
      → add_new_asset p w g.yield_box asset name ≡ ok calls
      → calls ≡ []
  unfolding add_new_asset
  add_new_asset_again asset name h = grind (arith, set_up.asset, address_of-deployed)

  create_side_assets_again :
      {calls : List Call} → create_side_assets p w g.yield_box ≡ ok calls → calls ≡ []
  unfolding create_side_assets
  create_side_assets_again h = grind (arith, add_new_asset_again)

  create_host_assets_again :
      {calls : List Call} → create_host_assets p w g.yield_box ≡ ok calls → calls ≡ []
  unfolding create_host_assets
  create_host_assets_again h = grind (arith, add_new_asset_again)

  module _ (loaded : load_generic p.hre p.tag p.is_testnet ≡ ok g) where
    create_yb_assets_again : {calls : List Call} → create_yb_assets p w ≡ ok calls → calls ≡ []
    unfolding create_yb_assets
    create_yb_assets_again h = grind (arith, create_side_assets_again, create_host_assets_again)

    calls_1_again : {calls : List Call} → calls_1 p w ≡ ok calls → calls ≡ []
    unfolding calls_1
    calls_1_again h = grind (
      arith, register_mc_again, register_markets_again, eth_market_again, flashloan_helper_again,
      create_yb_assets_again,
    )

-- On Arbitrum Sepolia, as a host chain and test network, where the contracts have been set up for
-- what the deployer has deployed of the queue of phase 1, the steps of the first multicall all
-- succeed and push no call, if the deployments of the sister projects are found and `ids` of
-- YieldBox answers.
pub calls_1_testnet_again :
    (task : VmPass) (q : List Build) (deployed : List Deployment) (w : World) (g : Generic)
    (a : Arb)
    → task.is_host_chain ≡ true
    → task.is_side_chain ≡ false
    → task.is_testnet ≡ true
    → deploy_task task ≡ ok q
    → deployed_names deployed ≡ names q
    → ((yield_box : String) (asset : Option String) (strategy : String)
        → IsOk (w.chain.ids yield_box 1 asset strategy 0))
    → task.hre.e_chain_id ≡ arbitrum_sepolia
    → load_generic task.hre task.tag task.is_testnet ≡ ok g
    → load_arb task.hre task.tag task.is_testnet ≡ ok a
    → IsSetUp (setup_params task deployed) w g
    → calls_1 (setup_params task deployed) w ≡ ok []
calls_1_testnet_again task q deployed w g a host no_side test queued same ids_ok e loaded found s =
    let done =
      calls_1_testnet task q deployed w g a host no_side test queued same ids_ok e loaded found in
    elim (Result-cases (calls_1 (setup_params task deployed) w)) [
      | inl (calls, eq) ↦ eq ∙ ap ok (calls_1_again (setup_params task deployed) w g s loaded eq)
      | inr (failure, eq) ↦ absurd (ground arith)
    ]
