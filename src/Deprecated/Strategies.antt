-- ===== src/Deprecated/Strategies.antt =====
-- tasks/deploy/deprecated/02-deployEmptyStrats.ts and 04-deployOracleMock.ts: what they give to the
-- deployer.
use tapioca_bar.Prelude.{
  String, arith, Bool, Option, none, some, List, [], ◌∷◌, Result, ok, err, thrown, ◌>>=◌, ◌>>◌,
  if◌then◌else◌, ◌===◌, ◌≡◌, map, bind-ok,
}
use package.text.Mathlib.Text
use tapioca_bar.Sdk.{Build, build, text}
use tapioca_bar.Exec.{Saved, find_saved, or_thrown}
use tapioca_bar.Deprecated.{Tools, join, or_first, build_oracle_mock}

-- `buildEmptyStrat`
unfoldable pub build_empty_strat : String → Saved → Result Build
build_empty_strat yield_box d =
    if d.address === ""
    then err (thrown "[-] Token needs to be deployed")
    else if yield_box === ""
    then err (thrown "[-] YieldBox needs to be deployed")
    else ok (
        build "ERC20WithoutStrategy" (join "ERC20WithoutStrategy-" d.name)
          (text yield_box ∷ text d.address ∷ []))

-- Which tokens the strategies are for: those of a project under a name, or that start so, or one
-- token by its address.
pub data Choice : Type 0 where
  named : String → String → Choice
  starting : String → String → Choice
  at_address : String → String → Choice

pub data StratType : Type 0 where
  toft : StratType
  usdo : StratType
  tap : StratType
  token : StratType
  token_address : StratType

-- `switch (type)`, where the type that is no number is the default.
unfoldable pub choose : Tools → Option StratType → Result Choice
choose t (some toft) = ok (starting (t.runtime.projects "TapiocaZ") "TapiocaOFT")
choose t (some usdo) = ok (named (t.runtime.projects "TapiocaBar") "USDO")
choose t (some tap) = ok (named (t.runtime.projects "TapToken") "TapOFT")
choose t (some token) = ok (named (t.ask "projectName" "") (t.ask "tokenName" ""))
choose t (some token_address) = do
  name ← t.name_of (t.ask "tokenAddress" "")
  ok (at_address (t.ask "tokenAddress" "") name)
choose t other = ok (named (t.runtime.projects "TapiocaBar") (t.ask "testTokenName" ""))

abbrev matching : (Saved → Bool) → List Saved → List Saved
matching p [] = []
matching p (d ∷ ds) = if p d then d ∷ matching p ds else matching p ds

-- The tokens of a project, or else those saved here.
unfoldable pub filtered_tokens : Tools → String → (Saved → Bool) → List Saved
filtered_tokens t project p = elim (matching p (t.runtime.load_global project t.runtime.chain_id)) [
  | [] ↦ matching p (t.runtime.load_local t.runtime.chain_id)
  | d ∷ ds ↦ d ∷ ds
]

unfoldable pub tokens_of : Tools → Choice → List Saved
unfolding filtered_tokens
tokens_of t (named project name) = filtered_tokens t project (λ d. d.name === name)
tokens_of t (starting project name) = filtered_tokens t project (λ d. Text.starts_with d.name name)
tokens_of t (at_address address name) =
    record { name = name; address = address; strat_for = none } ∷ []

unfoldable pub empty_strats : String → List Saved → Result (List Build)
unfolding build_empty_strat
empty_strats yield_box [] = ok []
empty_strats yield_box (d ∷ ds) = do
  first ← build_empty_strat yield_box d
  rest ← empty_strats yield_box ds
  ok (first ∷ rest)

-- `deployEmptyStrats__task`, whose user looks at the tokens and may say no
unfoldable pub deploy_empty_strats :
    Tools → Option StratType → (List Saved → Bool) → Result (List Build)
unfolding choose tokens_of empty_strats find_saved
deploy_empty_strats t kind is_ok = do
  chain ← or_thrown "Chain not found" t.runtime.chain_info
  yield_box ← or_thrown "[-] YieldBox not found" (
      or_first (find_saved "YieldBox" (t.runtime.load_global "yieldbox" chain.chain_id))
        (find_saved "YieldBox" (t.runtime.load_local chain.chain_id)))
  choice ← choose t kind
  (if is_ok (tokens_of t choice) then ok tt else err (thrown "[-] Aborting"))
      >> empty_strats yield_box.address (tokens_of t choice)

-- `deployOracleMock__task`
unfoldable pub deploy_oracle_mock : Tools → Result (List Build)
deploy_oracle_mock t = do
  rate ← t.parse_ether (t.ask "rate" "1")
  ok (
      build_oracle_mock (join "OracleMock" (t.ask "oracleMockSuffix" ""))
        (join "OM" (t.ask "oracleMockSuffix" "")) rate
      ∷ [])

build_empty_strat-name :
    (yield_box : String) (d : Saved) (b : Build)
    → build_empty_strat yield_box d ≡ ok b
    → b.deployment_name ≡ join "ERC20WithoutStrategy-" d.name
unfolding build_empty_strat
build_empty_strat-name yield_box d b h = ground arith

-- The strategies have, in order, the names under which the tasks on markets look them up.
empty_strats-names :
    (yield_box : String) (ds : List Saved) (bs : List Build)
    → empty_strats yield_box ds ≡ ok bs
    → map (λ (b : Build). b.deployment_name) bs
      ≡ map (λ (d : Saved). join "ERC20WithoutStrategy-" d.name) ds
unfolding empty_strats
empty_strats-names yield_box [] bs h = ground arith
empty_strats-names yield_box (d ∷ ds) bs h =
    let (b, built, e) = bind-ok (build_empty_strat yield_box d) _ bs h in
    let (rest, others, e2) = bind-ok (empty_strats yield_box ds) _ bs e in
    let first = build_empty_strat-name yield_box d b built in
    let tail = empty_strats-names yield_box ds rest others in ground arith
