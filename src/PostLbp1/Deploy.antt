-- ===== src/PostLbp1/Deploy.antt =====
-- `tapiocaDeployTask` of tasks/deploy/1-1-deployPostLbp.ts: the contracts that phase 1 queues in
-- the deployer, in the order of the `VM.add` calls.
pub mod DeployedNames
pub mod Dependencies
pub mod Chains
pub mod Examples
use tapioca_bar.Prelude.{ℕ, String, Bool, Option, none, some, List, [], ◌∷◌, ◌++◌}
use tapioca_bar.Prelude.{Result, ok, present, ◌>>=◌, if◌then◌else◌}
use tapioca_bar.Config.{GlpStrat, post_lbp, misc_weth}
use tapioca_bar.Config.Names as N
use tapioca_bar.Sdk.{Hre, Arg, text, text?, struct, fields, Build, DependentOn}
use tapioca_bar.Builds.Usdo.{
  build_usdo_modules, build_usdo, build_usdo_ext_exec, build_usdo_flashloan_helper,
  build_usdo_helper, build_penrose, build_market_liquidator_receiver,
  build_sglp_market_liquidator_receiver,
}
use tapioca_bar.Builds.Markets.{
  build_bb_debt_rate_helper, build_bb_medium_risk_mc, build_bb_modules, build_sgl_interest_helper,
  build_sgl_medium_risk_mc, build_sgl_modules, build_sgl_init, build_market_helper,
  build_sgl_glp_leverage_executor, build_simple_leverage_executor,
}
use tapioca_bar.Builds.Assets.{
  build_erc20_without_strategy, build_glp_strategy, build_sdai_strategy,
}
use tapioca_bar.PostLbp1.Params.{VmPass}
use tapioca_bar.PostLbp1.Loading.{Generic, load_generic, load_eth, load_arb}

-- `DEPLOY_CONFIG.POST_LBP[chainInfo.chainId]!.glpStrat!`
glp_strat : Hre → Result GlpStrat
unfolding post_lbp
glp_strat hre = do config ← present (post_lbp hre.chain_info.chain_id); present config.glp_strat

liquidator_builds : VmPass → Generic → Result (List Build)
unfolding glp_strat build_market_liquidator_receiver build_sglp_market_liquidator_receiver misc_weth
liquidator_builds p g = do
  weth ← present (misc_weth p.hre.e_chain_id)
  strat ← glp_strat p.hre
  ok (
      build_market_liquidator_receiver
        (text weth ∷ text g.cluster ∷ text g.zero_x_swapper ∷ text p.tapioca_multicall_addr ∷ [])
      ∷ build_sglp_market_liquidator_receiver (
          text weth
          ∷ text g.cluster
          ∷ text g.zero_x_swapper
          ∷ text? strat.glp_reward_router
          ∷ text? strat.glp_manager
          ∷ text p.tapioca_multicall_addr
          ∷ [])
      ∷ [])

-- The addresses that the deployer puts into the arguments of USDO.
usdo_depends_on : List DependentOn
usdo_depends_on =
    record { arg_position = 0; key_name = some "extExec"; deployment_name = N.usdo_ext_exec }
    ∷ record {
      arg_position = 1;
      key_name = some "marketReceiverModule";
      deployment_name = N.usdo_market_receiver_module;
    }
    ∷ record {
      arg_position = 1;
      key_name = some "optionReceiverModule";
      deployment_name = N.usdo_option_receiver_module;
    }
    ∷ record {
      arg_position = 1;
      key_name = some "usdoReceiverModule";
      deployment_name = N.usdo_receiver_module;
    }
    ∷ record {
      arg_position = 1;
      key_name = some "usdoSenderModule";
      deployment_name = N.usdo_sender_module;
    }
    ∷ []

usdo_init_data : VmPass → Generic → Arg
usdo_init_data p g = struct (
    fields (
      ("endpoint", text p.hre.chain_info.address)
      ∷ ("delegate", text p.tapioca_multicall_addr)
      ∷ ("extExec", text "0x")
      ∷ ("cluster", text g.cluster)
      ∷ ("pearlmit", text g.pearlmit)
      ∷ ("yieldBox", text g.yield_box)
      ∷ []))

usdo_modules : Arg
usdo_modules = struct (
    fields (
      ("marketReceiverModule", text "0x")
      ∷ ("optionReceiverModule", text "0x")
      ∷ ("usdoReceiverModule", text "0x")
      ∷ ("usdoSenderModule", text "0x")
      ∷ []))

usdo_builds : VmPass → Generic → Result (List Build)
unfolding usdo_depends_on usdo_init_data usdo_modules misc_weth build_usdo_modules build_sgl_init
    build_usdo_helper build_usdo_ext_exec build_simple_leverage_executor build_usdo
    build_usdo_flashloan_helper
usdo_builds p g = do
  weth ← present (misc_weth p.hre.e_chain_id)
  ok (
      build_usdo_modules p.hre
      ++ build_sgl_init
        ∷ build_usdo_helper
        ∷ build_usdo_ext_exec
        ∷ build_simple_leverage_executor (record {
          zero_x_swapper = g.zero_x_swapper;
          cluster = g.cluster;
          weth = weth;
          pearlmit = g.pearlmit;
        })
        ∷ build_usdo (usdo_init_data p g) usdo_modules usdo_depends_on
        ∷ build_usdo_flashloan_helper "0x" p.tapioca_multicall_addr
            (record { arg_position = 0; key_name = none; deployment_name = N.usdo } ∷ [])
        ∷ [])

glp_executor_builds : VmPass → Generic → Result (List Build)
unfolding glp_strat build_sgl_glp_leverage_executor misc_weth
glp_executor_builds p g = if p.is_testnet then ok [] else do
  strat ← glp_strat p.hre
  weth ← present (misc_weth p.hre.e_chain_id)
  ok (
      build_sgl_glp_leverage_executor
        (record {
          zero_x_swapper = g.zero_x_swapper;
          cluster = g.cluster;
          weth = weth;
          pearlmit = g.pearlmit;
        })
        (text? strat.glp_reward_router)
      ∷ [])

penrose_builds : VmPass → Generic → Result (List Build)
unfolding build_penrose build_sgl_modules build_sgl_medium_risk_mc build_sgl_interest_helper
penrose_builds p g = do
  tap_meta ← present g.tap_strat_with_asset.meta
  weth_meta ← present g.weth_strat_with_asset.meta
  penrose ← build_penrose p.hre (record {
    yield_box = g.yield_box;
    cluster = g.cluster;
    tap_token = g.tap_token;
    pearlmit = g.pearlmit;
    tap_asset_id = text? tap_meta.yb_asset_id;
    weth_asset_id = text? weth_meta.yb_asset_id;
    owner = p.tapioca_multicall_addr;
  })
  ok (
      build_sgl_modules
      ++ penrose ∷ build_sgl_medium_risk_mc N.sgl_medium_risk_mc ∷ build_sgl_interest_helper ∷ [])

-- The asset strategies and the markets of Arbitrum.
host_builds : VmPass → Result (List Build)
unfolding glp_strat build_erc20_without_strategy build_glp_strategy build_bb_modules
    build_bb_debt_rate_helper build_bb_medium_risk_mc build_sgl_medium_risk_mc
host_builds p = do
  arb ← load_arb p.hre p.tag p.is_testnet
  let yield_box = arb.generic.yield_box
  sgl_assets ←
      (if p.is_testnet
        then ok (
            build_erc20_without_strategy N.yb_sglp_asset_without_strategy yield_box arb.t_sglp
            ∷ build_erc20_without_strategy N.yb_t_usdc_mock_asset_without_strategy yield_box
                "0xB97f3fda040662B44055BdcBEc2BaB7CAA70839c"
            ∷ [])
        else do
          strat ← glp_strat p.hre
          ok (
              build_glp_strategy (
                text yield_box
                ∷ text? strat.gmx_reward_router
                ∷ text? strat.glp_reward_router
                ∷ text arb.t_sglp
                ∷ text arb.weth_glp_oracle
                ∷ text "0x"
                ∷ text p.tapioca_multicall_addr
                ∷ [])
              ∷ []))
  ok (
      build_bb_modules
      ++ build_bb_debt_rate_helper
        ∷ build_erc20_without_strategy N.yb_mt_eth_asset_without_strategy yield_box arb.mt_eth
        ∷ build_erc20_without_strategy N.yb_t_eth_asset_without_strategy yield_box arb.t_eth
        ∷ build_erc20_without_strategy N.yb_t_reth_asset_without_strategy yield_box arb.t_reth
        ∷ build_erc20_without_strategy N.yb_t_wst_eth_asset_without_strategy yield_box arb.t_wst_eth
        ∷ build_bb_medium_risk_mc N.bb_medium_risk_mc
        ∷ build_bb_medium_risk_mc N.bb_mt_eth_market
        ∷ build_bb_medium_risk_mc N.bb_t_reth_market
        ∷ build_bb_medium_risk_mc N.bb_t_wst_eth_market
        ∷ (if p.is_testnet then build_bb_medium_risk_mc N.bb_t_usdc_mock_market ∷ [] else [])
      ++ (sgl_assets
          ++ build_sgl_medium_risk_mc N.sgl_s_glp_market
            ∷ (if p.is_testnet then build_sgl_medium_risk_mc N.sgl_usdc_mock_market ∷ [] else [])))

-- The asset strategy and the market of Ethereum.
side_builds : VmPass → Result (List Build)
unfolding post_lbp build_erc20_without_strategy build_sdai_strategy build_sgl_medium_risk_mc
side_builds p = do
  eth ← load_eth p.hre p.tag p.is_testnet
  let yield_box = eth.generic.yield_box
  asset ←
      (if p.is_testnet
        then ok (build_erc20_without_strategy N.yb_sdai_asset_without_strategy yield_box eth.t_sdai)
        else do
          config ← present (post_lbp p.hre.chain_info.chain_id)
          ok (
              build_sdai_strategy (
                text yield_box
                ∷ text eth.t_sdai
                ∷ text? config.s_dai
                ∷ text p.tapioca_multicall_addr
                ∷ [])))
  ok (asset ∷ build_sgl_medium_risk_mc N.sgl_s_dai_market ∷ [])

pub deploy_task : VmPass → Result (List Build)
unfolding build_market_helper
deploy_task p = do
  g ← load_generic p.hre p.tag p.is_testnet
  liquidators ← liquidator_builds p g
  usdo ← usdo_builds p g
  executor ← glp_executor_builds p g
  penrose ← penrose_builds p g
  host ← (if p.is_host_chain then host_builds p else ok [])
  side ← (if p.is_side_chain then side_builds p else ok [])
  ok (liquidators ++ (usdo ++ (executor ++ (penrose ++ (build_market_helper ∷ (host ++ side))))))
