-- ===== src/Builds/Usdo.antt =====
-- buildUSDO*.ts, buildUsdoHelper.ts, buildPenrose.ts and the liquidator receivers of
-- tasks/deployBuilds.
use tapioca_bar.Prelude.{String, List, [], ◌∷◌, Result, ok, present, ◌>>=◌}
use tapioca_bar.Config.{misc_weth}
use tapioca_bar.Config.Names
use tapioca_bar.Sdk.{Arg, text, struct, fields, Build, DependentOn, build, Hre}

abbrev addr_one : String
addr_one = "0x0000000000000000000000000000000000000001"

abbrev init_struct : String → Arg
init_struct endpoint = struct (
    fields (
      ("cluster", text addr_one)
      ∷ ("delegate", text addr_one)
      ∷ ("endpoint", text endpoint)
      ∷ ("extExec", text addr_one)
      ∷ ("pearlmit", text addr_one)
      ∷ ("yieldBox", text addr_one)
      ∷ []))

unfoldable pub build_usdo_modules : Hre → List Build
build_usdo_modules hre =
    let args : List Arg = init_struct hre.chain_info.address ∷ [] in
    build "UsdoSender" Names.usdo_sender_module args
    ∷ build "UsdoReceiver" Names.usdo_receiver_module args
    ∷ build "UsdoMarketReceiverModule" Names.usdo_market_receiver_module args
    ∷ build "UsdoOptionReceiverModule" Names.usdo_option_receiver_module args
    ∷ []

unfoldable pub build_usdo : Arg → Arg → List DependentOn → Build
build_usdo init_data modules depends_on = record {
  contract = "Usdo";
  deployment_name = Names.usdo;
  args = init_data ∷ modules ∷ [];
  depends_on = depends_on;
}

unfoldable pub build_usdo_ext_exec : Build
build_usdo_ext_exec = build "TapiocaOmnichainExtExec" Names.usdo_ext_exec []

unfoldable pub build_usdo_flashloan_helper : String → String → List DependentOn → Build
build_usdo_flashloan_helper usdo owner depends_on = record {
  contract = "USDOFlashloanHelper";
  deployment_name = Names.usdo_flashloan_helper;
  args = text usdo ∷ text owner ∷ [];
  depends_on = depends_on;
}

unfoldable pub build_usdo_helper : Build
build_usdo_helper = build "UsdoHelper" Names.usdo_helper []

-- The parameters of `buildPenrose`.
pub record PenroseParams : Type 0 where
  pub yield_box : String
  pub cluster : String
  pub tap_token : String
  pub pearlmit : String
  pub tap_asset_id : Arg
  pub weth_asset_id : Arg
  pub owner : String

unfoldable pub build_penrose : Hre → PenroseParams → Result Build
build_penrose hre p = do
  weth ← present (misc_weth hre.e_chain_id)
  ok (
      build "Penrose" Names.penrose (
        text p.yield_box
        ∷ text p.cluster
        ∷ text p.tap_token
        ∷ text weth
        ∷ text p.pearlmit
        ∷ p.tap_asset_id
        ∷ p.weth_asset_id
        ∷ text p.owner
        ∷ []))

unfoldable pub build_market_liquidator_receiver : List Arg → Build
build_market_liquidator_receiver args =
    build "MarketLiquidatorReceiver" Names.market_liquidator_receiver args

unfoldable pub build_sglp_market_liquidator_receiver : List Arg → Build
build_sglp_market_liquidator_receiver args =
    build "SGlpMarketLiquidatorReceiver" Names.sglp_market_liquidator_receiver args
