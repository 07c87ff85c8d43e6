-- ===== src/Exec.antt =====
-- The operational tasks of tasks/exec that send transactions: what they send, or the exception
-- that they end by. What the runtime answers is a parameter; the child modules have the tasks on
-- markets, on Penrose and USDO, on the cluster and on the assets of the YieldBox.
pub mod Markets
pub mod Admin
pub mod Cluster
pub mod YbAssets
pub mod BorrowCap
pub mod Examples
use tapioca_bar.Prelude.{
  ℕ, String, Bool, true, false, Option, none, some, List, [], ◌∷◌, Result, ok, err, rejected,
  thrown, ◌>>=◌, if◌then◌else◌, ◌==◌, ◌===◌, length,
}
use tapioca_bar.Sdk.{Arg, text, flag, array, items, bytes, CallData, Call, call}

-- `TContract` with the field of its `meta` that these tasks read.
pub record Saved : Type 0 where
  pub name : String
  pub address : String
  pub strat_for : Option String

-- A chain of the SDK's list.
pub record ChainEntry : Type 0 where
  pub chain_id : String
  pub lz_chain_id : ℕ
  pub is_testnet : Bool

-- `hre`, with the tag that the user gives.
pub record Runtime : Type 0 where
  pub chain_id : String
  -- `getChainBy('chainId', eChainId)`
  pub chain_info : Option ChainEntry
  pub supported_chains : List ChainEntry
  -- `hre.SDK.config.TAPIOCA_PROJECTS_NAME`
  pub projects : String → String
  pub load_local : String → List Saved
  pub load_global : String → String → List Saved
  -- `getLocalContract(hre, 'Penrose', tag)`
  pub penrose : Result String
  -- `getDeployments(hre, local)`
  pub deployments : Bool → Result (List Saved)
  -- The number of inputs of a function in the generated interface of a contract
  pub inputs : String → String → Option ℕ
  pub is_address : String → Bool
  -- What the user answers to a prompt, by its name and its default
  pub prompt : String → Arg → Arg
  pub signer : String

-- `deployments.find((e) => e.name == name)`
unfoldable pub find_saved : String → List Saved → Option Saved
find_saved name [] = none
find_saved name (d ∷ ds) = if d.name === name then some d else find_saved name ds

abbrev pub or_thrown {ℓ} : {A : Type ℓ} → String → Option A → Result A
or_thrown reason none = err (thrown reason)
or_thrown reason (some a) = ok a

-- `interface.encodeFunctionData(fn, args)`, which knows the function and counts its arguments.
unfoldable pub encode : Runtime → String → String → List Arg → Result CallData
encode rt contract fn args = elim (rt.inputs contract fn) [
  | none ↦ err (rejected "no matching function")
  | some n ↦
      if length args == n
      then ok (record { fn = fn; args = args })
      else err (rejected "types/values length mismatch")
]

-- `getDeployment` of tasks/utils.ts: the contract's address.
unfoldable pub get_deployment : Runtime → String → Result String
get_deployment rt name = do
  all ← elim (rt.deployments true) [ ok found ↦ ok found | err failed ↦ rt.deployments false ]
  d ← or_thrown "[-] Contract not found" (find_saved name all)
  ok d.address

-- `getSingularityContract` of tasks/utils.ts
unfoldable pub get_singularity_contract : Runtime → String → Result String
get_singularity_contract rt address =
    if rt.is_address address then ok address else err (thrown "[-] Singularity address not valid")

-- `getBigBangContract` of tasks/utils.ts
unfoldable pub get_big_bang_contract : Runtime → String → Result String
get_big_bang_contract rt address =
    if rt.is_address address then ok address else err (thrown "[-] BigBang address not valid")

-- `getAfterDepContract` of tasks/utils.ts, whose exception names the contract.
unfoldable pub get_after_dep_contract : List Saved → String → Result String
get_after_dep_contract deps name = elim (find_saved name deps) [
  | none ↦ err (thrown name)
  | some d ↦ if d.address === "" then err (thrown name) else ok d.address
]

-- `penrose.executeMarketFn([market], [callData], true)`
abbrev pub execute_market_fn : String → String → CallData → Call
execute_market_fn penrose market data' =
    call penrose "executeMarketFn"
      (array (items (text market ∷ [])) ∷ array (items (bytes data' ∷ [])) ∷ flag true ∷ [])
