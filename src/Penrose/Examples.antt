-- ===== src/Penrose/Examples.antt =====
-- The registration of the markets of Arbitrum Sepolia with an empty registry.
use tapioca_bar.Prelude.{
  String, true, false, List, [], ◌∷◌, ◌++◌, ◌≡◌, refl, ok, ◌===◌, contains, distinct, err,
  if◌then◌else◌,
}
use tapioca_bar.Config.Names
use tapioca_bar.Sdk.{World, Call, address_of, find}
use tapioca_bar.PostLbp1.Params.{PostDeployParams}
use tapioca_bar.PostLbp1.Deploy.DeployedNames.{deploy_names}
use tapioca_bar.PostLbp1.Setup.{setup_params}
use tapioca_bar.PostLbp1.Setup.Penrose.{
  register_mc_in_penrose, register_bb_and_sgl_markets_in_penrose,
}
use tapioca_bar.Penrose.{
  Penrose, register_big_bang_master_contract, add_big_bang, unregister_contract, remove, find_index,
}
use tapioca_bar.Penrose.Registry.{
  Reaches, here, after, big_bang_mc, big_bang, IsConsistent, is_authorised, Reaches-IsConsistent,
  add_big_bang_twice,
}
use tapioca_bar.Penrose.Multicall.{run, markets_of}
use tapioca_bar.Penrose.Registration.{HostAddresses, host_entries, Registered, run-registration}
use tapioca_bar.Penrose.Authorised.{registered_markets_authorised}
use tapioca_bar.TestData.{arbitrum_sepolia_task, new_chain, new_world, deploy_all}

abbrev params : PostDeployParams
params = setup_params arbitrum_sepolia_task (deploy_all (deploy_names true true false))

addresses : HostAddresses params.deployed
unfolding address_of find
addresses = record {
  penrose = Names.penrose;
  bb_mc = Names.bb_medium_risk_mc;
  sgl_mc = Names.sgl_medium_risk_mc;
  bb_mt_eth = Names.bb_mt_eth_market;
  bb_t_reth = Names.bb_t_reth_market;
  bb_t_wst_eth = Names.bb_t_wst_eth_market;
  bb_t_usdc_mock = Names.bb_t_usdc_mock_market;
  sgl_s_glp = Names.sgl_s_glp_market;
  sgl_usdc_mock = Names.sgl_usdc_mock_market;
  penrose_eq = refl;
  bb_mc_eq = refl;
  sgl_mc_eq = refl;
  bb_mt_eth_eq = refl;
  bb_t_reth_eq = refl;
  bb_t_wst_eth_eq = refl;
  bb_t_usdc_mock_eq = refl;
  sgl_s_glp_eq = refl;
  sgl_usdc_mock_eq = refl;
}

-- A registry where nothing is registered.
abbrev pub empty : Penrose
empty = record {
  owner = "MULTICALL";
  usdo_token = "";
  usdo_asset_id = 0;
  main_token = "";
  main_asset_id = 0;
  tap_token = "";
  tap_asset_id = 0;
  singularity_master_contracts = [];
  bigbang_master_contracts = [];
  is_singularity_master_contract_registered = λ mc. false;
  is_big_bang_master_contract_registered = λ mc. false;
  is_market_registered = λ m. false;
  big_bang_eth_market = "";
  all_big_bang_markets = [];
  is_origin_registered = λ m. false;
  all_origins_markets = [];
  master_contract_of = λ m. "";
  clones_of = λ mc. [];
}

run-registration_example :
    (mcs : List Call) × (markets : List Call) × (t : Penrose) × (register_mc_in_penrose params
        new_world
      ≡ ok mcs)
    × (register_bb_and_sgl_markets_in_penrose params new_world ≡ ok markets)
    × (run "MULTICALL" addresses.penrose (mcs ++ markets) empty ≡ ok t)
    × Registered addresses.bb_mc addresses.sgl_mc (host_entries addresses) empty t
unfolding addresses
run-registration_example =
    run-registration params new_world addresses refl "MULTICALL" empty refl
      (record { sgl_mc = λ mc. refl; bb_mc = λ mc. refl; market = λ m. refl }) refl refl

-- The registry, and the chain, once the two master contracts and the six markets are registered.
abbrev full : Penrose
full = record empty {
  is_singularity_master_contract_registered = λ mc. mc === Names.sgl_medium_risk_mc;
  is_big_bang_master_contract_registered = λ mc. mc === Names.bb_medium_risk_mc;
  is_market_registered =
      λ m. if contains m (markets_of (host_entries addresses)) then true else false;
}

abbrev full_world : World
full_world = record new_world {
  chain = record new_chain {
    is_singularity_master_contract_registered = λ p mc. mc === Names.sgl_medium_risk_mc;
    is_big_bang_master_contract_registered = λ p mc. mc === Names.bb_medium_risk_mc;
    is_market_registered = λ p m. full.is_market_registered m;
  };
}

-- From nothing, over the registration of a master contract, to a first market.
first_steps :
    (t : Penrose) × Reaches empty t × (t.is_market_registered Names.bb_mt_eth_market ≡ true)
unfolding register_big_bang_master_contract add_big_bang
first_steps = (
  _,
  after (after here (big_bang_mc "MULTICALL" Names.bb_medium_risk_mc 1 refl))
      (big_bang "MULTICALL" Names.bb_medium_risk_mc Names.bb_mt_eth_market refl),
  refl,
)

Reaches-IsConsistent_example : IsConsistent first_steps.0
Reaches-IsConsistent_example =
    Reaches-IsConsistent (record { authorised = λ m h. absurd (cc) }) first_steps.1

-- One BigBang market, listed and cloned.
abbrev one_market : Penrose
one_market = record empty {
  is_big_bang_master_contract_registered = λ mc. mc === Names.bb_medium_risk_mc;
  is_market_registered = λ m. m === Names.bb_mt_eth_market;
  master_contract_of = λ m. if m === Names.bb_mt_eth_market then Names.bb_medium_risk_mc else "";
  all_big_bang_markets = Names.bb_mt_eth_market ∷ [];
  clones_of = λ mc. Names.bb_mt_eth_market ∷ [];
}

abbrev unregistered : Penrose
unregistered = elim (unregister_contract "MULTICALL" Names.bb_mt_eth_market 0 one_market) [
  | ok t ↦ t
  | err e ↦ empty
]

abbrev added : Penrose
added =
    elim (add_big_bang "MULTICALL" Names.bb_medium_risk_mc Names.bb_mt_eth_market unregistered) [
      | ok t ↦ t
      | err e ↦ empty
    ]

add_big_bang_twice_example : distinct added.all_big_bang_markets ≡ false
unfolding unregister_contract remove find_index add_big_bang
add_big_bang_twice_example =
    add_big_bang_twice "MULTICALL" Names.bb_medium_risk_mc Names.bb_mt_eth_market one_market
      unregistered added refl refl refl

registered_markets_authorised_example :
    (mcs : List Call) × (markets : List Call) × (t : Penrose) × (register_mc_in_penrose params
        new_world
      ≡ ok mcs)
    × (register_bb_and_sgl_markets_in_penrose params new_world ≡ ok markets)
    × (run "MULTICALL" addresses.penrose (mcs ++ markets) empty ≡ ok t)
    × ((m : String)
        → contains m (markets_of (host_entries addresses)) ≡ true
        → is_authorised t m ≡ true)
unfolding addresses
registered_markets_authorised_example =
    registered_markets_authorised params new_world addresses "MULTICALL" empty refl refl refl
      (record { sgl_mc = λ mc. refl; bb_mc = λ mc. refl; market = λ m. refl }) refl
      (record { authorised = λ m h. absurd (cc) })
