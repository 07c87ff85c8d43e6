-- ===== src/Exec/Examples.antt =====
-- Operational tasks on a small runtime.
use tapioca_bar.Prelude.{
  ℕ, String, true, Option, none, some, [], ◌∷◌, Result, ok, err, rejected, type_error, ◌≡◌, ◌⊎◌,
  ◌≤◌, refl, if◌then◌else◌, ◌===◌,
}
use tapioca_bar.Penrose.{zero_address}
use tapioca_bar.Sdk.{text, num, call}
use tapioca_bar.Market.{Market}
use tapioca_bar.Market.Configuration.{set_market_config}
use tapioca_bar.BigBang.Sample.{fresh, by}
use tapioca_bar.Exec.{Runtime, Saved, ChainEntry, find_saved, encode}
use tapioca_bar.Exec.Markets.{set_singularity_config_task, market_task, cap_args}
use tapioca_bar.Exec.Cluster.{
  fill_cluster, cluster_of, whitelist_chains, load_all_contracts, listed, is_listed,
}
use tapioca_bar.Exec.YbAssets.{register_yb_assets, build_yield_box_assets, strategies_of, deps_of}
use tapioca_bar.Exec.BorrowCap.{execute, decode, execute-cap_args}

abbrev named : String → String → Option String → Saved
named name address token = record { name = name; address = address; strat_for = token }

abbrev arbitrum : ChainEntry
arbitrum = record { chain_id = "421614"; lz_chain_id = 10231; is_testnet = true }

abbrev rt : Runtime
rt = record {
  chain_id = "421614";
  chain_info = some arbitrum;
  supported_chains = arbitrum ∷ [];
  projects = (λ key.
      if key === "TapiocaPeriphery"
      then "tapioca-periphery"
      else if key === "YieldBox"
      then "yieldbox"
      else if key === "TapiocaZ"
      then "tapiocaz"
      else "");
  load_local = (λ chain. named "ERC20WithoutStrategy-tETH" "0x51" (some "tETH") ∷ []);
  load_global = (λ project chain.
      if project === "tapioca-periphery"
      then named "Cluster" "0xC1" none ∷ named "Magnetar" "0x3A" none ∷ []
      else if project === "yieldbox"
      then named "YieldBox" "0x7B" none ∷ []
      else if project === "tapiocaz"
      then named "tETH" "0x7E" none ∷ []
      else []);
  penrose = ok "0x9E";
  deployments = (λ local. ok []);
  inputs = (λ contract fn.
      if fn === "setSingularityConfig"
      then some 9
      else if fn === "setMarketConfig"
      then some 11
      else if fn === "updatePause"
      then some 2
      else none);
  is_address = (λ a. true);
  prompt = (λ name default. default);
  signer = "0x51";
}

-- The task passes eight arguments, and the contract has nine inputs.
set_singularity_config_refused :
    set_singularity_config_task rt 50 "0x5A" ≡ err (rejected "types/values length mismatch")
unfolding set_singularity_config_task market_task encode
set_singularity_config_refused = refl

-- The chain 1 is not known: its part throws, after the first transactions were sent.
fill_cluster_unknown : (fill_cluster rt ("421614" ∷ "1" ∷ [])).ended ≡ err type_error
unfolding fill_cluster cluster_of find_saved whitelist_chains
fill_cluster_unknown = refl

magnetar_listed :
    load_all_contracts rt "421614"
    ≡ named "Magnetar" "0x3A" none ∷ named "YieldBox" "0x7B" none ∷ []
unfolding load_all_contracts listed is_listed
magnetar_listed = refl

register_yb_assets_calls :
    register_yb_assets rt none none true
    ≡ ok (call "0x7B" "registerAsset" (num 1 ∷ text "0x7E" ∷ text "0x51" ∷ num 0 ∷ []) ∷ [])
unfolding register_yb_assets find_saved build_yield_box_assets strategies_of deps_of
register_yb_assets_calls = refl

-- The zero address is the only text that stands for a number here.
abbrev number : String → Result ℕ
number s = if s === zero_address then ok 0 else err (rejected "invalid BigNumber string")

abbrev cap : ℕ
cap = 90000

abbrev misconfigured : Market
misconfigured = record fresh.market { liquidation_collateralization_rate = cap }

accepted : execute number (by "0xA1" 5) (cap_args cap) fresh.market ≡ ok misconfigured
unfolding decode set_market_config
accepted = refl

execute-cap_args_example :
    (misconfigured.total_borrow_cap ≡ fresh.market.total_borrow_cap)
    × ((cap ≡ 0) ⊎ (misconfigured.liquidation_collateralization_rate ≡ cap) × (cap ≤ 100000))
execute-cap_args_example =
    execute-cap_args number (by "0xA1" 5) cap fresh.market misconfigured refl accepted
