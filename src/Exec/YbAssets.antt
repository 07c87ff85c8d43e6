-- ===== src/Exec/YbAssets.antt =====
-- tasks/exec/registerYbAssets.ts and tasks/setups/900-buildYieldBoxAssets.ts: the registration of
-- strategies and their tokens in the YieldBox.
use Prim.Native.String.{String}
use tapioca_bar.Prelude.{
  Bool, true, false, Option, none, some, List, [], ◌∷◌, ◌++◌, Result, ok, ◌>>=◌, ◌>>◌,
  if◌then◌else◌, map, ◌===◌, not, ◌||◌, contains,
}
use tapioca_bar.Penrose.{require}
use package.text.Mathlib.Text
use tapioca_bar.Sdk.{Arg, text, num, undefined, Call, call}
use tapioca_bar.Exec.{Runtime, Saved, ChainEntry, find_saved, or_thrown}

abbrev ends_with : String → String → Bool
ends_with String.[] t = t === ""
ends_with (String.◌∷◌ ch s) t = (String.◌∷◌ ch s === t) || ends_with s t

abbrev includes : String → String → Bool
includes String.[] t = t === ""
includes (String.◌∷◌ ch s) t = Text.starts_with (String.◌∷◌ ch s) t || includes s t

abbrev filtered : (Saved → Bool) → List Saved → List Saved
filtered p [] = []
filtered p (d ∷ ds) = let rest = filtered p ds in if p d then d ∷ rest else rest

-- `strats.map((e) => e.meta.stratFor)` where a missing field matches nothing.
abbrev tokens_of : List Saved → List String
tokens_of [] = []
tokens_of (d ∷ ds) = elim d.strat_for [ none ↦ tokens_of ds | some t ↦ t ∷ tokens_of ds ]

-- `stratForNames.find((e) => a.name.startsWith(e))`
abbrev starts_with_one : List String → Saved → Bool
starts_with_one [] d = false
starts_with_one (t ∷ ts) d =
    if Text.starts_with d.name t then not (t === "") else starts_with_one ts d

-- The address of a token that may not be saved.
abbrev address? : Option Saved → Arg
address? none = undefined
address? (some d) = text d.address

-- `meta.stratFor` is not empty.
abbrev is_strategy : Saved → Bool
is_strategy d = elim d.strat_for [ none ↦ false | some t ↦ not (t === "") ]

abbrev register_asset : String → List Saved → Saved → Call
register_asset yield_box deps d = call yield_box "registerAsset" (
    num 1
    ∷ elim d.strat_for [ none ↦ undefined | some t ↦ address? (find_saved t deps) ]
    ∷ text d.address
    ∷ num 0
    ∷ [])

unfoldable pub build_yield_box_assets : List Saved → Result (List Call)
unfolding find_saved
build_yield_box_assets deps = do
  yield_box ← or_thrown "[-] One address not found" (find_saved "YieldBox" deps)
  require (not (yield_box.address === "")) "[-] One address not found"
  ok (map (register_asset yield_box.address deps) (filtered is_strategy deps))

-- `list.indexOf(token) >= 0`, of tokens that may be missing.
abbrev has_token : Option String → List (Option String) → Bool
has_token t [] = false
has_token none (none ∷ us) = true
has_token none (some u ∷ us) = has_token none us
has_token (some t) (none ∷ us) = has_token (some t) us
has_token (some t) (some u ∷ us) = if u === t then true else has_token (some t) us

-- The strategies, without the local ones whose token has one that the user named.
unfoldable pub strategies_of : Runtime → ChainEntry → Option (List String) → List Saved
strategies_of rt chain named =
    let local =
      filtered (λ d. Text.starts_with d.name "ERC20WithoutStrategy") (rt.load_local rt.chain_id) in
    let global =
      filtered (λ d. ends_with d.name "Strategy")
        (rt.load_global "tapioca-strategies" chain.chain_id) in
    elim named [
      | none ↦ local ++ global
      | some names ↦
          let tokens =
            map (λ (d : Saved). d.strat_for) (filtered (λ d. contains d.name names) global) in
          filtered (λ d. not (has_token d.strat_for tokens)) local ++ global
    ]

-- The strategies and the saved contracts that are named after their tokens, and the YieldBox.
unfoldable pub deps_of : Runtime → ChainEntry → List Saved → Saved → List Saved
deps_of rt chain strats yield_box =
    let named = filtered (starts_with_one (tokens_of strats)) in
    strats
    ++ named (rt.load_global (rt.projects "TapiocaZ") rt.chain_id)
    ++ named (rt.load_local rt.chain_id)
    ++ named (rt.load_global (rt.projects "TapToken") rt.chain_id)
    ++ (if chain.is_testnet
        then named (rt.load_global (rt.projects "TapiocaMocks") rt.chain_id)
        else [])
    ++ yield_box ∷ []

abbrev narrowed : Option String → List Saved → List Saved
narrowed none ds = ds
narrowed (some t) ds = filtered (λ d. includes d.name t) ds

abbrev or_local : Option Saved → Result Saved → Result Saved
or_local none local = local
or_local (some d) local = ok d

-- `filter_term` is what the user filters by, and `confirmed` the answer to the last prompt.
unfoldable pub register_yb_assets :
    Runtime → Option (List String) → Option String → Bool → Result (List Call)
unfolding find_saved build_yield_box_assets strategies_of deps_of
register_yb_assets rt named filter_term confirmed = do
  chain ← or_thrown "Chain not found" rt.chain_info
  yield_box ←
      or_local (find_saved "YieldBox" (rt.load_global "yieldbox" chain.chain_id))
        (or_thrown "[-] YieldBox not found" (find_saved "YieldBox" (rt.load_local chain.chain_id)))
  let found = strategies_of rt chain named
  calls ← build_yield_box_assets (deps_of rt chain (narrowed filter_term found) yield_box)
  require confirmed "[-] Aborted"
  ok calls
