-- ===== src/PostLbp1/Setup/Assets.antt =====
-- setupCreateYBAssets.ts and setupDepositYbAssets.ts of tasks/deploy/postDepSetup: the assets of
-- the markets are registered in YieldBox, and a first amount of each is deposited.
use tapioca_bar.Prelude.{
  ℕ, ◌^◌, String, false, Option, some, List, [], ◌∷◌, ◌==◌, if◌then◌else◌, Result, ok, present,
  ◌>>=◌,
}
use tapioca_bar.Config.{post_lbp}
use tapioca_bar.Config.Names
use tapioca_bar.Sdk.{World, Call, call, text, text?, num, address_of, when, ◌followed_by◌}
use tapioca_bar.Toft.{wrap_toft, deposit_sgl_asset_yb}
use tapioca_bar.PostLbp1.Params.{VmPass, PostDeployParams}
use tapioca_bar.PostLbp1.Loading.{load_generic, load_eth, load_arb}

unfoldable pub add_new_asset :
    PostDeployParams → World → String → Option String → String → Result (List Call)
add_new_asset p w yield_box asset strategy_name = do
  strategy ← address_of strategy_name p.deployed
  asset_id ← w.chain.ids yield_box 1 asset strategy 0
  when (asset_id == 0)
      (ok (call yield_box "registerAsset" (num 1 ∷ text? asset ∷ text strategy ∷ num 0 ∷ []) ∷ []))

unfoldable pub create_side_assets : PostDeployParams → World → String → Result (List Call)
create_side_assets p w yield_box = do
  eth ← load_eth p.hre p.tag p.is_testnet
  add_new_asset p w yield_box (some eth.t_sdai) (
      if p.is_testnet
      then Names.yb_sdai_asset_without_strategy
      else Names.yb_sdai_asset_with_strategy)

unfoldable pub create_host_assets : PostDeployParams → World → String → Result (List Call)
create_host_assets p w yield_box = do
  arb ← load_arb p.hre p.tag p.is_testnet
  add_new_asset p w yield_box (some arb.t_sglp) (
        if p.is_testnet
        then Names.yb_sglp_asset_without_strategy
        else Names.yb_sglp_asset_with_strategy)
      followed_by (do
        config ← present (post_lbp p.hre.e_chain_id)
        add_new_asset p w yield_box config.usdc_mock Names.yb_t_usdc_mock_asset_without_strategy)
      followed_by add_new_asset p w yield_box (some arb.t_eth) Names.yb_t_eth_asset_without_strategy
      followed_by add_new_asset p w yield_box (some arb.mt_eth)
          Names.yb_mt_eth_asset_without_strategy
      followed_by add_new_asset p w yield_box (some arb.t_reth)
          Names.yb_t_reth_asset_without_strategy
      followed_by add_new_asset p w yield_box (some arb.t_wst_eth)
          Names.yb_t_wst_eth_asset_without_strategy

unfoldable pub create_yb_assets : PostDeployParams → World → Result (List Call)
create_yb_assets p w = do
  g ← load_generic p.hre p.tag p.is_testnet
  when p.is_side_chain (create_side_assets p w g.yield_box)
      followed_by when p.is_host_chain (create_host_assets p w g.yield_box)

-- `wrapToft` and then the local function `depositAsset`, of one amount of one token. The multicall
-- contract that wraps is that of the task, and the one that deposits is the deployer's.
unfoldable pub wrap_and_deposit :
    VmPass → PostDeployParams → String → World → String → String → ℕ → Result (List Call)
wrap_and_deposit task p multicall w token strat_name amount =
    wrap_toft task.hre task.tag task.tapioca_multicall_addr w token amount false
    followed_by deposit_sgl_asset_yb
        (record {
          hre = p.hre;
          tag = p.tag;
          tapioca_multicall_addr = multicall;
          is_testnet = p.is_testnet;
          amount = amount;
        })
        w token strat_name false

unfoldable pub deposit_yb_assets : VmPass → PostDeployParams → String → World → Result (List Call)
deposit_yb_assets task p multicall w =
    (when p.is_side_chain do
      eth ← load_eth p.hre p.tag p.is_testnet
      wrap_and_deposit task p multicall w eth.t_sdai
          (if p.is_testnet
            then Names.yb_sdai_asset_without_strategy
            else Names.yb_sdai_asset_with_strategy)
          (10 ^ 17))
    followed_by when p.is_host_chain do
      arb ← load_arb p.hre p.tag p.is_testnet
      wrap_and_deposit task p multicall w arb.t_sglp
            (if p.is_testnet
              then Names.yb_sglp_asset_without_strategy
              else Names.yb_sglp_asset_with_strategy)
            (10 ^ 17)
          followed_by wrap_and_deposit task p multicall w arb.t_eth
              Names.yb_t_eth_asset_without_strategy (10 ^ 14)
          followed_by wrap_and_deposit task p multicall w arb.mt_eth
              Names.yb_mt_eth_asset_without_strategy (10 ^ 14)
          followed_by wrap_and_deposit task p multicall w arb.t_reth
              Names.yb_t_reth_asset_without_strategy (10 ^ 14)
          followed_by wrap_and_deposit task p multicall w arb.t_wst_eth
              Names.yb_t_wst_eth_asset_without_strategy (10 ^ 14)
