-- ===== src/PostLbp1/Setup/UsdoInPenrose.antt =====
-- setupUsdoInPenrose.ts of tasks/deploy/postDepSetup: the strategy asset of USDO is created
-- unless one was saved for this USDO, and Penrose is told of both.
use tapioca_bar.Prelude.{
  String, Option, none, some, List, [], ◌∷◌, ◌===◌, not, if◌then◌else◌, same_address, Result, ok,
  err, thrown, present, ◌>>=◌,
}
use tapioca_bar.Config.Names
use tapioca_bar.Sdk.{
  World, Contract, SdkTasks, Call, call, text, address_of, when, load_local_contract,
}
use tapioca_bar.PostLbp1.Params.{PostDeployParams}

-- `!meta.ybAssetId` fails of a missing id and of an empty one.
abbrev asset_id? : Option String → Option String
asset_id? none = none
asset_id? (some s) = if s === "" then none else some s

-- The body of the `try`: a saved strategy asset with an id, for this USDO. Whatever is thrown
-- there, a TypeError of a missing `meta` or `token` included, leads to `none`.
unfoldable pub saved_asset_id : Option Contract → String → Option String
saved_asset_id none usdo = none
saved_asset_id (some c) usdo = elim c.meta [
  | none ↦ none
  | some m ↦ elim (asset_id? m.yb_asset_id) [
    | none ↦ none
    | some id ↦ elim m.token [
      | none ↦ none
      | some token ↦ if same_address token usdo then some id else none
    ]
  ]
]

-- The id after `createEmptyStratYbAsset__task`.
unfoldable pub created_asset_id : World → PostDeployParams → Result String
created_asset_id w p = do
  asset ← load_local_contract w p.hre.chain_info.chain_id Names.yb_usdo_asset_without_strategy p.tag
  m ← present asset.meta
  elim (asset_id? m.yb_asset_id) [
    | none ↦ err (thrown "[+] 2- USDO No ybAssetId found")
    | some id ↦ ok id
  ]

-- The `try` and its `catch`.
unfoldable pub usdo_asset_id :
    SdkTasks → PostDeployParams → String → World → Result (World × String)
usdo_asset_id sdk p usdo w =
    let saved = w.find_local p.hre.chain_info.chain_id Names.yb_usdo_asset_without_strategy p.tag in
    elim (saved_asset_id saved usdo) [
      | some id ↦ ok (w, id)
      | none ↦ do
        w' ← sdk.create_empty_strat_yb_asset Names.yb_usdo_asset_without_strategy p.tag usdo w
        id ← created_asset_id w' p
        ok (w', id)
    ]

-- The world after the step, and the calls pushed.
unfoldable pub usdo_in_penrose : SdkTasks → PostDeployParams → World → Result (World × List Call)
usdo_in_penrose sdk p w = do
  penrose ← address_of Names.penrose p.deployed
  usdo ← load_local_contract w p.hre.chain_info.chain_id Names.usdo p.tag
  (w', id) ← usdo_asset_id sdk p usdo.address w
  calls ←
      when (not (same_address (w'.chain.usdo_token penrose) usdo.address))
        (ok (call penrose "setUsdoToken" (text usdo.address ∷ text id ∷ []) ∷ []))
  ok (w', calls)
