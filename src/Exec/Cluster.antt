-- ===== src/Exec/Cluster.antt =====
-- tasks/exec/fillCluster.ts: the whitelisting of every saved contract in the cluster, chain after
-- chain. A transaction that was sent stays sent when a later step throws.
use tapioca_bar.Prelude.{
  ℕ, String, Bool, true, false, Option, none, some, List, [], ◌∷◌, ◌++◌, Result, ok, err,
  type_error, ◌>>=◌, if◌then◌else◌, map, ◌===◌, contains, length, All, All-append, arith, ◌≡◌, refl,
}
use package.text.Mathlib.Text
use tapioca_bar.Sdk.{text, num, flag, array, items, Call, call}
use tapioca_bar.Exec.{Runtime, Saved, ChainEntry, find_saved, or_thrown}

abbrev fixed_names : List String
fixed_names =
    "MockSwapper" ∷ "YieldBox" ∷ "USDO" ∷ "TapOFT" ∷ "TapiocaOptionLiquidityProvision" ∷ "OTAP"
    ∷ "TwTAP" ∷ "TapiocaOptionBroker" ∷ "Magnetar" ∷ "MagnetarHelper" ∷ []

abbrev prefixes : List String
prefixes = "BigBang" ∷ "Tapioca Singularity" ∷ "TapiocaOFT" ∷ []

abbrev starts_with_any : List String → String → Bool
starts_with_any [] name = false
starts_with_any (p ∷ ps) name = if Text.starts_with name p then true else starts_with_any ps name

-- `filter`, of a name
unfoldable pub is_listed : String → Bool
is_listed name =
    if name === "Cluster"
    then false
    else if contains name fixed_names
    then true
    else starts_with_any prefixes name

unfoldable pub listed : List Saved → List Saved
listed [] = []
listed (d ∷ ds) = let rest = listed ds in if is_listed d.name then d ∷ rest else rest

-- `loadAllContracts`: the projects in their order.
unfoldable pub load_all_contracts : Runtime → String → List Saved
load_all_contracts rt chain =
    listed (rt.load_global (rt.projects "TapiocaBar") chain)
    ++ listed (rt.load_global (rt.projects "TapiocaZ") chain)
    ++ listed (rt.load_global (rt.projects "TapToken") chain)
    ++ listed (rt.load_global (rt.projects "TapiocaPeriphery") chain)
    ++ listed (rt.load_global (rt.projects "YieldBox") chain)
    ++ listed (rt.load_global (rt.projects "Generic") chain)

-- What was sent, and how the task ended.
pub record Outcome : Type 0 where
  pub sent : List Call
  pub ended : Result (Unit {0})

abbrev whitelist : String → ℕ → List Saved → Call
whitelist cluster lz_chain_id ds =
    call cluster "batchUpdateContracts"
      (num lz_chain_id ∷ array (items (map (λ d. text d.address) ds)) ∷ flag true ∷ [])

abbrev entry_of : String → List ChainEntry → Option ChainEntry
entry_of id [] = none
entry_of id (e ∷ es) = if e.chain_id === id then some e else entry_of id es

-- The loop over `data.chains`.
unfoldable pub whitelist_chains : Runtime → String → List String → Outcome
whitelist_chains rt cluster [] = record { sent = []; ended = ok tt }
whitelist_chains rt cluster (chain ∷ chains) =
    let rest = whitelist_chains rt cluster chains in
    elim (entry_of chain rt.supported_chains) [
      | none ↦ record { sent = []; ended = err type_error }
      | some e ↦ record {
        sent = whitelist cluster e.lz_chain_id (load_all_contracts rt chain) ∷ rest.sent;
        ended = rest.ended;
      }
    ]

-- `Cluster` of the periphery, or the local one.
unfoldable pub cluster_of : Runtime → Result String
cluster_of rt = do
  chain ← or_thrown "Chain not found" rt.chain_info
  d ← elim (find_saved "Cluster" (rt.load_global "tapioca-periphery" chain.chain_id)) [
    | some d ↦ ok d
    | none ↦ or_thrown "[-] Cluster not found" (find_saved "Cluster" (rt.load_local chain.chain_id))
  ]
  ok d.address

unfoldable pub fill_cluster : Runtime → List String → Outcome
fill_cluster rt chains = elim (cluster_of rt) [
  | err reason ↦ record { sent = []; ended = err reason }
  | ok cluster ↦
      let rest = whitelist_chains rt cluster chains in
      record {
        sent = whitelist cluster 0 (load_all_contracts rt rt.chain_id) ∷ rest.sent;
        ended = rest.ended;
      }
]

listed-All : (ds : List Saved) → All (λ (d : Saved). is_listed d.name ≡ true) (listed ds)
unfolding listed
listed-All [] = tt
listed-All (d ∷ ds) = ground (arith, listed-All ds)

-- Every contract that is whitelisted has a name that the filter admits.
pub load_all_contracts-All :
    (rt : Runtime) (chain : String)
    → All (λ (d : Saved). is_listed d.name ≡ true) (load_all_contracts rt chain)
unfolding load_all_contracts
load_all_contracts-All rt chain =
    let Listed = λ (d : Saved). is_listed d.name ≡ true in
    let part : (project : String) → All Listed (listed (rt.load_global project chain)) =
      λ project. listed-All (rt.load_global project chain) in
    let append = All-append Listed in
    append _ _
      (append _ _
        (append _ _
          (append _ _ (append _ _ (part (rt.projects "TapiocaBar")) (part (rt.projects "TapiocaZ")))
            (part (rt.projects "TapToken")))
          (part (rt.projects "TapiocaPeriphery")))
        (part (rt.projects "YieldBox")))
      (part (rt.projects "Generic"))

-- The chains that are whitelisted before the first that the SDK does not know.
abbrev all_known : Runtime → List String → Bool
all_known rt [] = true
all_known rt (chain ∷ chains) = elim (entry_of chain rt.supported_chains) [
  | none ↦ false
  | some e ↦ all_known rt chains
]

-- The loop ends well just when the SDK knows every chain, and has then sent one transaction for
-- each.
whitelist_chains_known :
    (rt : Runtime) (cluster : String) (chains : List String)
    → all_known rt chains ≡ true
    → ((whitelist_chains rt cluster chains).ended ≡ ok tt)
      × (length (whitelist_chains rt cluster chains).sent ≡ length chains)
unfolding whitelist_chains
whitelist_chains_known rt cluster [] known = (refl, refl)
whitelist_chains_known rt cluster (chain ∷ chains) known =
    ground (arith, whitelist_chains_known rt cluster chains)
