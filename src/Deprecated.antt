-- ===== src/Deprecated.antt =====
-- tasks/deploy/deprecated: the tasks that deployed a market by hand, with the questions they ask.
-- What the runtime, the user and the chain answer is a parameter. This module has what the tasks
-- look up; the children have the task of each market, and what their calls meet.
pub mod SglMarket
pub mod BigBangMarket
pub mod OriginsMarket
pub mod Interfaces
pub mod Oracles
pub mod Strategies
pub mod Examples
use tapioca_bar.Prelude.{
  ℕ, String, Bool, true, false, Option, none, some, List, [], ◌∷◌, Result, ok, err, rejected,
  thrown, present, ◌>>=◌, ◌>>◌, if◌then◌else◌, ◌==◌, ◌-◌,
}
use Prim.Native.String.{◌++◌}
use package.text.Mathlib.Text
use tapioca_bar.Sdk.{Arg, text, num, flag, Build, build, Call, call}
use tapioca_bar.Exec.{Runtime, Saved, ChainEntry, find_saved, or_thrown, encode}

-- What is asked here and saved by the task itself under other names is not looked up again, so that
-- a saving leaves the other lookups as they are.
pub record Tools : Type 0 where
  pub runtime : Runtime
  -- `hre.SDK.db.getLocalDeployment(eChainId, name, tag)` and `getLocalContract(hre, name, tag)`
  pub get_local : String → Option Saved
  pub get_local_contract : String → Result String
  -- The answer to a prompt, and the number that ethers reads from an answer
  pub ask : String → String → String
  pub big_number : String → Result ℕ
  pub parse_ether : String → Result ℕ
  -- `yieldBox.ids(1, token, strategy, 0)`
  pub ids : String → String → String → Result ℕ
  -- `penrose.emptyStrategies(token)`
  pub empty_strategies : String → String → Result String
  -- The address of a contract that is deployed with arguments
  pub deploy : String → List Arg → Result String
  -- `VM.execute(3)` and `VM.save()`: what `VM.list()` then holds, and the local deployments
  pub execute_builds : List Build → Result (List Saved)
  pub local_after : List Build → List Saved
  -- `ERC20.name()`, and the number of Penrose's markets of a kind once the market is added, and its clones
  pub markets_length : String → ℕ
  pub clones_of : String → ℕ → Result String
  pub name_of : String → Result String

-- What a task is given on the command line.
pub record MarketArgs : Type 0 where
  pub executor_name : Option String
  pub oracle_name : Option String
  pub token_strategy_name : Option String
  pub asset_oracle_name : Option String

-- What a task sends, and what it saves: a name and an address.
pub record Deployed : Type 0 where
  pub calls : List Call
  pub saved_name : String
  pub saved_address : String

-- `given ?? fallback`
abbrev pub or_else : Option String → String → String
or_else none fallback = fallback
or_else (some given) fallback = given

-- `a + b` of two texts
abbrev pub join : String → String → String
join a b = a ++ b

-- `first`, and where it is undefined `second`
abbrev pub or_first {ℓ} : {A : Type ℓ} → Option A → Option A → Option A
or_first none second = second
or_first (some a) second = some a

-- `.find((e) => e.name.startsWith(prefix))`
unfoldable pub find_starting : String → List Saved → Option Saved
find_starting prefix [] = none
find_starting prefix (d ∷ ds) =
    if Text.starts_with d.name prefix then some d else find_starting prefix ds

-- The address of a contract, which ethers refuses where it is undefined.
abbrev pub contract_at : Option Saved → Result String
contract_at none = err (rejected "invalid address")
contract_at (some d) = ok d.address

-- The YieldBox, of its own project or else saved here.
unfoldable pub find_yield_box : Tools → ChainEntry → Result String
unfolding find_saved
find_yield_box t chain = contract_at (
    or_first (find_saved "YieldBox" (t.runtime.load_global "yieldbox" chain.chain_id))
      (find_saved "YieldBox" (t.runtime.load_local chain.chain_id)))

-- The strategy of USDO, saved here or else Penrose's.
unfoldable pub usdo_strategy : Tools → Result String
usdo_strategy t = elim (t.get_local "ERC20WithoutStrategy-USDO") [
  | some d ↦ ok d.address
  | none ↦ do
    penrose ← contract_at (t.get_local "Penrose")
    usdo ← or_thrown "[-] USDO not found on host chain" (t.get_local "USDO")
    t.empty_strategies penrose usdo.address
]

-- A name that is given, or else one made of the token's, which is undefined where the list of
-- tokens is empty.
abbrev pub filter_of : Option String → String → Option Saved → Result String
filter_of (some given) prefix token = ok given
filter_of none prefix token = do t ← present token; ok (join prefix t.name)

unfoldable pub find_token_strategy : Tools → ChainEntry → MarketArgs → Option Saved → Result String
unfolding find_saved
find_token_strategy t chain args token = do
  filter ← filter_of args.token_strategy_name "ERC20WithoutStrategy-" token
  d ← or_thrown "[-] Token strategy not found. Use deployEmptyStrategy to create one" (
      or_first (t.get_local filter)
        (find_saved filter (t.runtime.load_global "tapioca-strategies" chain.chain_id)))
  ok d.address

-- The oracle of a name that is saved: here under a name that starts so, or in the periphery.
unfoldable pub find_oracle : Tools → ChainEntry → String → Option Saved
unfolding find_saved find_starting
find_oracle t chain filter =
    or_first (find_starting filter (t.runtime.load_local chain.chain_id))
      (find_saved filter (t.runtime.load_global "tapioca-periphery" chain.chain_id))

abbrev pub mock_name : String → String
mock_name token = join "OracleMock-" token

-- `buildOracleMock(hre, name, symbol, rate)`
abbrev pub build_oracle_mock : String → String → ℕ → Build
build_oracle_mock name symbol rate =
    build "OracleMock" name (text name ∷ text symbol ∷ num rate ∷ [])

-- The mock of a token's oracle, at the rate that the user gives.
unfoldable pub token_oracle_mock : Tools → String → Result Build
token_oracle_mock t token = do
  rate ← t.parse_ether (t.ask "oracleRate" "1")
  ok (build_oracle_mock (mock_name token) (join "OCM-" token) rate)

abbrev pub head {ℓ} : {A : Type ℓ} → List A → Option A
head [] = none
head (x ∷ xs) = some x

-- `if (!isTestnet) throw new Error(reason)`
abbrev pub on_testnet : ChainEntry → String → Result (Unit {0})
on_testnet chain reason = if chain.is_testnet then ok tt else err (thrown reason)

-- `loadStrats`: the oracle of a token, deployed as a mock on a test network where none is saved.
unfoldable pub load_oracle : Tools → ChainEntry → MarketArgs → Option Saved → Result String
load_oracle t chain args token = do
  filter ← filter_of args.oracle_name "OracleMock-" token
  elim (find_oracle t chain filter) [
    | some d ↦ ok d.address
    | none ↦ on_testnet chain "[-] Oracle not found" >> do
      known ← present token
      mock ← token_oracle_mock t known.name
      listed ← t.execute_builds (mock ∷ [])
      first ← present (head listed)
      ok first.address
  ]

-- `encoder.encode`: the number that ethers reads from an answer
unfoldable pub ask_number : Tools → String → Result Arg
ask_number t name = do n ← t.big_number (t.ask name "0"); ok (num n)

unfoldable pub find_executor : Tools → MarketArgs → Option Saved
find_executor t args = t.get_local (or_else args.executor_name "SimpleLeverageExecutor")

-- `factory.deploy(args)`: ethers counts the arguments of the constructor.
unfoldable pub deploy_contract : Tools → String → List Arg → Result String
unfolding encode
deploy_contract t contract args = do
  counted ← encode t.runtime contract "constructor" args
  t.deploy contract args

-- `contract.fn(args)`: ethers counts the arguments of the function.
unfoldable pub transact : Tools → String → String → String → List Arg → Result Call
unfolding encode
transact t contract address fn args = do
  sent ← encode t.runtime contract fn args
  ok (call address sent.fn sent.args)

-- The market becomes a minter and a burner of USDO.
unfoldable pub make_minter : Tools → ChainEntry → String → Result (List Call)
unfolding transact find_saved
make_minter t chain market = do
  usdo ←
      or_thrown "[-] USDO deployment not found"
        (find_saved "USDO" (t.runtime.load_local chain.chain_id))
  minter ← transact t "USDO" usdo.address "setMinterStatus" (text market ∷ flag true ∷ [])
  burner ← transact t "USDO" usdo.address "setBurnerStatus" (text market ∷ flag true ∷ [])
  ok (minter ∷ burner ∷ [])

-- `penrose.clonesOf(mc, marketsLength - 1)`
unfoldable pub last_clone : Tools → String → String → Result String
last_clone t kind mc =
    if t.markets_length kind == 0
    then err (rejected "value out-of-bounds")
    else t.clones_of mc (t.markets_length kind - 1)
