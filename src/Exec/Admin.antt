-- ===== src/Exec/Admin.antt =====
-- tasks/exec/10 to 15, setMinterStatus.ts, setBurnerStatus.ts and the tasks on the proxy of markets.
use tapioca_bar.Prelude.{
  String, Bool, true, Option, none, some, List, [], ◌∷◌, ◌++◌, Result, ok, ◌>>=◌, if◌then◌else◌,
  map, ◌===◌,
}
use tapioca_bar.Sdk.{Arg, text, num, flag, array, items, Call, call}
use tapioca_bar.Exec.{Runtime, Saved, find_saved, or_thrown, get_deployment, get_after_dep_contract}

abbrev penrose_task : Runtime → String → List Arg → Result (List Call)
penrose_task rt fn args = do penrose ← rt.penrose; ok (call penrose fn args ∷ [])

unfoldable pub set_penrose_cluster : Runtime → String → Result (List Call)
set_penrose_cluster rt cluster = penrose_task rt "setCluster" (text cluster ∷ [])

unfoldable pub set_big_bang_eth_market_debt_rate : Runtime → String → Result (List Call)
set_big_bang_eth_market_debt_rate rt rate =
    penrose_task rt "setBigBangEthMarketDebtRate" (text rate ∷ [])

unfoldable pub set_big_bang_eth_market_task : Runtime → String → Result (List Call)
set_big_bang_eth_market_task rt bb = penrose_task rt "setBigBangEthMarket" (text bb ∷ [])

unfoldable pub withdraw_fees : Runtime → String → List String → Result (List Call)
withdraw_fees rt tw_tap markets =
    penrose_task rt "withdrawAllMarketFees" (array (items (map text markets)) ∷ text tw_tap ∷ [])

unfoldable pub set_usdo_flashloan_helper : String → String → List Call
set_usdo_flashloan_helper usdo helper = call usdo "setFlashloanHelper" (text helper ∷ []) ∷ []

unfoldable pub extract_fees_from_usdo : String → List Call
extract_fees_from_usdo usdo = call usdo "extractFees" [] ∷ []

-- The two tasks on the roles of USDO.
abbrev status_task : Runtime → String → String → Bool → Result (List Call)
status_task rt fn operator status = do
  chain ← or_thrown "Chain not found" rt.chain_info
  usdo ← or_thrown "[-] USDO not found" (find_saved "USDO" (rt.load_local chain.chain_id))
  ok (call usdo.address fn (text operator ∷ flag status ∷ []) ∷ [])

unfoldable pub set_minter_status : Runtime → String → Bool → Result (List Call)
unfolding find_saved
set_minter_status rt operator status = status_task rt "setMinterStatus" operator status

unfoldable pub set_burner_status : Runtime → String → Bool → Result (List Call)
unfolding find_saved
set_burner_status rt operator status = status_task rt "setBurnerStatus" operator status

-- `already_set` is the proxy's `useCustomAdapterParams()`.
unfoldable pub set_proxy_adapter_params : Runtime → Bool → Option String → Result (List Call)
unfolding get_deployment
set_proxy_adapter_params rt already_set destination = do
  proxy ← get_deployment rt "MarketsProxy"
  ok (
      (if already_set then [] else call proxy "setUseCustomAdapterParams" (flag true ∷ []) ∷ [])
      ++ elim destination [
        | none ↦ []
        | some id ↦
            if id === "" then [] else call proxy "setMinDstGas" (text id ∷ num 1 ∷ num 1 ∷ []) ∷ []
      ])

-- `pack` is ethers' `solidityPack` of two addresses.
unfoldable pub set_proxy_trusted_remote :
    (String → String → String) → Runtime → String → String → String → Result (List Call)
unfolding get_deployment
set_proxy_trusted_remote pack rt chain dst src = do
  proxy ← get_deployment rt "MarketsProxy"
  ok (call proxy "setTrustedRemote" (text chain ∷ text (pack dst src) ∷ []) ∷ [])

-- tasks/setups/01-buildPenroseSetup.ts: the transactions that it sends on its way.
unfoldable pub build_penrose_setup : List Saved → Result (List Call)
unfolding get_after_dep_contract
build_penrose_setup deps = do
  penrose ← get_after_dep_contract deps "Penrose"
  usdo ← get_after_dep_contract deps "USDO"
  ok (call penrose "setUsdoToken" (text usdo ∷ []) ∷ [])

-- tasks/setups/02-buildMasterContractsSetup.ts
unfoldable pub build_master_contracts_setup : List Saved → Result (List Call)
unfolding get_after_dep_contract
build_master_contracts_setup deps = do
  penrose ← get_after_dep_contract deps "Penrose"
  sgl ← get_after_dep_contract deps "MediumRiskMC"
  bb ← get_after_dep_contract deps "BigBangMediumRiskMC"
  ok (
      call penrose "registerSingularityMasterContract" (text sgl ∷ num 1 ∷ [])
      ∷ call penrose "registerBigBangMasterContract" (text bb ∷ num 1 ∷ [])
      ∷ [])

-- tasks/setups/04-buildUsdoFlashloanSetup.ts
unfoldable pub build_usdo_flashloan_setup : List Saved → Result (List Call)
unfolding get_after_dep_contract
build_usdo_flashloan_setup deps = do
  helper ← get_after_dep_contract deps "USDOFlashloanHelper"
  usdo ← get_after_dep_contract deps "USDO"
  ok (
      call usdo "setFlashloanHelper" (text helper ∷ [])
      ∷ call usdo "setMinterStatus" (text helper ∷ flag true ∷ [])
      ∷ call usdo "setBurnerStatus" (text helper ∷ flag true ∷ [])
      ∷ [])
