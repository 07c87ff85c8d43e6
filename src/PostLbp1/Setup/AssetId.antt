-- ===== src/PostLbp1/Setup/AssetId.antt =====
-- Which asset id Penrose is told for USDO.
use tapioca_bar.Prelude.{
  String, true, false, Option, some, List, [], ◌∷◌, arith, ◌≡◌, ◌⊎◌, ◌===◌, same_address, ok,
}
use tapioca_bar.Config.Names
use tapioca_bar.Sdk.{World, Call, Contract, SdkTasks, call, text, address_of, load_local_contract}
use tapioca_bar.PostLbp1.Params.{PostDeployParams}
use tapioca_bar.PostLbp1.Setup.UsdoInPenrose.{
  saved_asset_id, created_asset_id, usdo_asset_id, usdo_in_penrose,
}

saved_asset_id_not_empty :
    (c : Option Contract) (usdo id : String) → saved_asset_id c usdo ≡ some id → (id === "") ≡ false
unfolding saved_asset_id
saved_asset_id_not_empty c usdo id h = ground arith

created_asset_id_not_empty :
    (w : World) (p : PostDeployParams) (id : String)
    → created_asset_id w p ≡ ok id
    → (id === "") ≡ false
unfolding created_asset_id
created_asset_id_not_empty w p id h = ground arith

usdo_asset_id_not_empty :
    (sdk : SdkTasks) (p : PostDeployParams) (usdo : String) (w w' : World) (id : String)
    → usdo_asset_id sdk p usdo w ≡ ok (w', id)
    → (id === "") ≡ false
unfolding usdo_asset_id
usdo_asset_id_not_empty sdk p usdo w w' id h =
    grind (arith, saved_asset_id_not_empty, created_asset_id_not_empty)

-- If Penrose and USDO are found and the step of USDO in Penrose ends well, then it pushes nothing
-- and Penrose has this USDO, or it pushes one call, which tells Penrose this USDO and an id that is
-- not the empty text.
pub usdo_in_penrose_calls :
    (sdk : SdkTasks) (p : PostDeployParams) (w w' : World) (penrose : String) (usdo : Contract)
    {calls : List Call}
    → address_of Names.penrose p.deployed ≡ ok penrose
    → load_local_contract w p.hre.chain_info.chain_id Names.usdo p.tag ≡ ok usdo
    → usdo_in_penrose sdk p w ≡ ok (w', calls)
    → ((calls ≡ []) × (same_address (w'.chain.usdo_token penrose) usdo.address ≡ true))
      ⊎ ((id : String) × (calls
            ≡ call penrose "setUsdoToken" (text usdo.address ∷ text id ∷ []) ∷ [])
          × ((id === "") ≡ false)
          × (same_address (w'.chain.usdo_token penrose) usdo.address ≡ false))
unfolding usdo_in_penrose
usdo_in_penrose_calls sdk p w w' penrose usdo hp hu h = grind (arith, usdo_asset_id_not_empty)
