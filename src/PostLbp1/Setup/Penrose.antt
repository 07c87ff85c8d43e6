-- ===== src/PostLbp1/Setup/Penrose.antt =====
-- setupRegisterMCInPenrose.ts, setupRegisterBBAndSGLMarketsInPenrose.ts,
-- setupRegisterBigBangEthMarket.ts and setupPenroseMainAssets.ts of tasks/deploy/postDepSetup.
use tapioca_bar.Prelude.{String, some, List, [], ◌∷◌, not, same_address, Result, ok, ◌>>=◌}
use tapioca_bar.Config.Names
use tapioca_bar.Sdk.{World, Call, call, text, num, address_of, when, ◌followed_by◌}
use tapioca_bar.PostLbp1.Params.{PostDeployParams}
use tapioca_bar.PostLbp1.Loading.{load_arb}

unfoldable pub register_mc_in_penrose : PostDeployParams → World → Result (List Call)
register_mc_in_penrose p w = do
  penrose ← address_of Names.penrose p.deployed
  sgl_medium_risk_mc ← address_of Names.sgl_medium_risk_mc p.deployed
  when (not (w.chain.is_singularity_master_contract_registered penrose sgl_medium_risk_mc)) (
        ok (
          call penrose "registerSingularityMasterContract" (text sgl_medium_risk_mc ∷ num 1 ∷ [])
          ∷ []))
      followed_by when p.is_host_chain do
        bb_medium_risk_mc ← address_of Names.bb_medium_risk_mc p.deployed
        when (not (w.chain.is_big_bang_master_contract_registered penrose bb_medium_risk_mc)) (
            ok (
              call penrose "registerBigBangMasterContract" (text bb_medium_risk_mc ∷ num 1 ∷ [])
              ∷ []))

-- `marketType` of the local function `registerMarket`.
pub data MarketType : Type 0 where
  bb sgl : MarketType

abbrev add_function : MarketType → String
add_function bb = "addBigBang"
add_function sgl = "addSingularity"

unfoldable pub register_market : World → String → MarketType → String → String → Result (List Call)
register_market w penrose market_type mc_market market =
    when (not (w.chain.is_market_registered penrose market))
      (ok (call penrose (add_function market_type) (text mc_market ∷ text market ∷ []) ∷ []))

unfoldable pub register_host_markets : PostDeployParams → World → String → Result (List Call)
register_host_markets p w penrose = do
  bb_medium_risk_mc ← address_of Names.bb_medium_risk_mc p.deployed
  bb_mt_eth ← address_of Names.bb_mt_eth_market p.deployed
  bb_t_reth ← address_of Names.bb_t_reth_market p.deployed
  bb_t_wst_eth ← address_of Names.bb_t_wst_eth_market p.deployed
  bb_t_usdc_mock ← address_of Names.bb_t_usdc_mock_market p.deployed
  sgl_medium_risk_mc ← address_of Names.sgl_medium_risk_mc p.deployed
  sgl_s_glp ← address_of Names.sgl_s_glp_market p.deployed
  t_usdc_mock ← address_of Names.sgl_usdc_mock_market p.deployed
  register_market w penrose bb bb_medium_risk_mc bb_mt_eth
      followed_by register_market w penrose bb bb_medium_risk_mc bb_t_reth
      followed_by register_market w penrose bb bb_medium_risk_mc bb_t_wst_eth
      followed_by register_market w penrose bb bb_medium_risk_mc bb_t_usdc_mock
      followed_by register_market w penrose sgl sgl_medium_risk_mc sgl_s_glp
      followed_by register_market w penrose sgl sgl_medium_risk_mc t_usdc_mock

unfoldable pub register_side_markets : PostDeployParams → World → String → Result (List Call)
register_side_markets p w penrose = do
  sgl_medium_risk_mc ← address_of Names.sgl_medium_risk_mc p.deployed
  sgl_s_dai ← address_of Names.sgl_s_dai_market p.deployed
  register_market w penrose sgl sgl_medium_risk_mc sgl_s_dai

unfoldable pub register_bb_and_sgl_markets_in_penrose :
    PostDeployParams → World → Result (List Call)
register_bb_and_sgl_markets_in_penrose p w = do
  penrose ← address_of Names.penrose p.deployed
  when p.is_host_chain (register_host_markets p w penrose)
      followed_by when p.is_side_chain (register_side_markets p w penrose)

unfoldable pub register_big_bang_eth_market : PostDeployParams → World → Result (List Call)
register_big_bang_eth_market p w = when p.is_host_chain do
  penrose ← address_of Names.penrose p.deployed
  mt_eth ← address_of Names.bb_mt_eth_market p.deployed
  when (not (same_address (w.chain.big_bang_eth_market penrose) mt_eth))
      (ok (call penrose "setBigBangEthMarket" (text mt_eth ∷ []) ∷ []))

unfoldable pub penrose_main_assets : PostDeployParams → World → Result (List Call)
penrose_main_assets p w = do
  penrose ← address_of Names.penrose p.deployed
  when p.is_host_chain do
    arb ← load_arb p.hre p.tag p.is_testnet
    strategy ← address_of Names.yb_mt_eth_asset_without_strategy p.deployed
    mt_eth_collateral_id ← w.chain.ids arb.generic.yield_box 1 (some arb.mt_eth) strategy 0
    when (not (same_address (w.chain.main_token penrose) arb.mt_eth)) (
        ok (
          call penrose "setMainTokens"
            (text arb.mt_eth ∷ num mt_eth_collateral_id ∷ text arb.generic.tap_token ∷ num 0 ∷ [])
          ∷ []))
