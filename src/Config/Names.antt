-- ===== src/Config/Names.antt =====
-- `DEPLOYMENT_NAMES` of tasks/deploy/DEPLOY_CONFIG.ts: the names under which contracts are
-- deployed and saved.
use tapioca_bar.Prelude.{String}

abbrev pub penrose : String
penrose = "PENROSE"

abbrev pub usdo : String
usdo = "USDO"

abbrev pub usdo_ext_exec : String
usdo_ext_exec = "USDO_EXT_EXEC"

abbrev pub usdo_flashloan_helper : String
usdo_flashloan_helper = "USDO_FLASHLOAN_HELPER"

abbrev pub usdo_helper : String
usdo_helper = "USDO_HELPER"

abbrev pub simple_leverage_executor : String
simple_leverage_executor = "SIMPLE_LEVERAGE_EXECUTOR"

abbrev pub sgl_glp_leverage_executor : String
sgl_glp_leverage_executor = "SGL_GLP_LEVERAGE_EXECUTOR"

abbrev pub market_helper : String
market_helper = "MARKET_HELPER"

abbrev pub market_liquidator_receiver : String
market_liquidator_receiver = "MARKET_LIQUIDATOR_RECEIVER"

abbrev pub sglp_market_liquidator_receiver : String
sglp_market_liquidator_receiver = "SGlpMARKET_LIQUIDATOR_RECEIVER"

abbrev pub yb_usdo_asset_without_strategy : String
yb_usdo_asset_without_strategy = "YB_USDO_ASSET_WITHOUT_STRATEGY"

abbrev pub yb_sdai_asset_without_strategy : String
yb_sdai_asset_without_strategy = "YB_SDAI_ASSET_WITHOUT_STRATEGY"

abbrev pub yb_sglp_asset_without_strategy : String
yb_sglp_asset_without_strategy = "YB_SGLP_ASSET_WITHOUT_STRATEGY"

abbrev pub yb_mt_eth_asset_without_strategy : String
yb_mt_eth_asset_without_strategy = "YB_MT_ETH_ASSET_WITHOUT_STRATEGY"

abbrev pub yb_t_eth_asset_without_strategy : String
yb_t_eth_asset_without_strategy = "YB_T_ETH_ASSET_WITHOUT_STRATEGY"

abbrev pub yb_t_reth_asset_without_strategy : String
yb_t_reth_asset_without_strategy = "YB_T_RETH_ASSET_WITHOUT_STRATEGY"

abbrev pub yb_t_wst_eth_asset_without_strategy : String
yb_t_wst_eth_asset_without_strategy = "YB_T_WST_ETH_ASSET_WITHOUT_STRATEGY"

abbrev pub yb_t_usdc_mock_asset_without_strategy : String
yb_t_usdc_mock_asset_without_strategy = "YB_T_USDC_MOCK_ASSET_WITHOUT_STRATEGY"

abbrev pub yb_sdai_asset_with_strategy : String
yb_sdai_asset_with_strategy = "YB_SDAI_ASSET_WITH_STRATEGY"

abbrev pub yb_sglp_asset_with_strategy : String
yb_sglp_asset_with_strategy = "YB_SGLP_ASSET_WITH_STRATEGY"

abbrev pub yb_t_sgl_sdai_asset_without_strategy : String
yb_t_sgl_sdai_asset_without_strategy = "YB_T_SGL_SDAI_ASSET_WITHOUT_STRATEGY"

abbrev pub yb_t_sgl_sglp_asset_without_strategy : String
yb_t_sgl_sglp_asset_without_strategy = "YB_T_SGL_SGLP_ASSET_WITHOUT_STRATEGY"

abbrev pub origins_t_eth_market : String
origins_t_eth_market = "ORIGINS_T_ETH_MARKET"

abbrev pub sgl_s_dai_market : String
sgl_s_dai_market = "SGL_S_DAI_MARKET"

abbrev pub sgl_s_glp_market : String
sgl_s_glp_market = "SGL_S_GLP_MARKET"

abbrev pub sgl_usdc_mock_market : String
sgl_usdc_mock_market = "SGL_USDC_MOCK_MARKET"

abbrev pub sgl_medium_risk_mc : String
sgl_medium_risk_mc = "SGL_MEDIUM_RISK_MC"

abbrev pub sgl_interest_helper : String
sgl_interest_helper = "SGL_INTEREST_HELPER"

abbrev pub sgl_liquidation_module : String
sgl_liquidation_module = "SGL_LIQUIDATION_MODULE"

abbrev pub sgl_borrow_module : String
sgl_borrow_module = "SGL_BORROW_MODULE"

abbrev pub sgl_collateral_module : String
sgl_collateral_module = "SGL_COLLATERAL_MODULE"

abbrev pub sgl_leverage_module : String
sgl_leverage_module = "SGL_LEVERAGE_MODULE"

abbrev pub sgl_init : String
sgl_init = "SGL_INIT"

abbrev pub bb_mt_eth_market : String
bb_mt_eth_market = "BB_MT_ETH_MARKET"

abbrev pub bb_t_reth_market : String
bb_t_reth_market = "BB_T_RETH_MARKET"

abbrev pub bb_t_wst_eth_market : String
bb_t_wst_eth_market = "BB_T_WST_ETH_MARKET"

abbrev pub bb_t_usdc_mock_market : String
bb_t_usdc_mock_market = "BB_T_USDC_MOCK_MARKET"

abbrev pub bb_medium_risk_mc : String
bb_medium_risk_mc = "BB_MEDIUM_RISK_MC"

abbrev pub bb_liquidation_module : String
bb_liquidation_module = "BB_LIQUIDATION_MODULE"

abbrev pub bb_borrow_module : String
bb_borrow_module = "BB_BORROW_MODULE"

abbrev pub bb_collateral_module : String
bb_collateral_module = "BB_COLLATERAL_MODULE"

abbrev pub bb_leverage_module : String
bb_leverage_module = "BB_LEVERAGE_MODULE"

abbrev pub bb_debt_rate_helper : String
bb_debt_rate_helper = "BB_DEBT_RATE_HELPER"

abbrev pub usdo_sender_module : String
usdo_sender_module = "USDO_SENDER_MODULE"

abbrev pub usdo_receiver_module : String
usdo_receiver_module = "USDO_RECEIVER_MODULE"

abbrev pub usdo_market_receiver_module : String
usdo_market_receiver_module = "USDO_MARKET_RECEIVER_MODULE"

abbrev pub usdo_option_receiver_module : String
usdo_option_receiver_module = "USDO_OPTION_RECEIVER_MODULE"
