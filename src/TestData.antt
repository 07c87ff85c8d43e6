-- ===== src/TestData.antt =====
-- Runtimes, chain states and task arguments for the examples: every saved contract has its name as
-- its address, and the deployer gives a contract its name as its address.
use tapioca_bar.Prelude.{
  ◌*◌, ◌^◌, String, Bool, true, false, none, some, List, map, ok, ◌===◌, if◌then◌else◌,
}
use tapioca_bar.Config.{EChainId, arbitrum, arbitrum_sepolia, sepolia}
use tapioca_bar.Sdk.{
  ExternalNames, ChainInfo, Hre, Chain, World, Contract, Meta, Deployment, SdkTasks,
}
use tapioca_bar.PostLbp1.Params.{VmPass}
use tapioca_bar.PostLbp1.Loading.{Generic, Arb}

abbrev pub saved : String → Contract
saved name = record {
  name = name;
  address = name;
  meta = some (record { yb_asset_id = some "1"; token = some "0xToken" });
}

abbrev external_names : ExternalNames
external_names = record {
  tap_token = "TAP";
  yieldbox = "YIELDBOX";
  cluster = "CLUSTER";
  pearlmit = "PEARLMIT";
  zero_x_swapper = "SWAPPER";
  zero_x_swapper_mock = "SWAPPER_MOCK";
  tap_token_yb_empty_strat = "TAP_STRAT";
  weth_yb_empty_strat = "WETH_STRAT";
  market_sdai_oracle = "SDAI_ORACLE";
  market_teth_oracle = "TETH_ORACLE";
  market_reth_oracle = "RETH_ORACLE";
  market_wsteth_oracle = "WSTETH_ORACLE";
  market_glp_oracle = "GLP_ORACLE";
  eth_glp_oracle = "ETH_GLP_ORACLE";
  usdo_usdc_uni_v3_oracle = "USDC_ORACLE";
  ts_dai = "T_SDAI";
  mt_eth = "MT_ETH";
  t_eth = "T_ETH";
  t_reth = "T_RETH";
  t_wst_eth = "T_WSTETH";
  ts_glp = "T_SGLP";
  t_sgl_sdai_market = "T_SGL_SDAI";
  t_sgl_glp_market = "T_SGL_GLP";
  tapioca_multicall = "MULTICALL";
}

abbrev chain_info : EChainId → ChainInfo
chain_info c = record { name = "chain"; chain_id = c; lz_chain_id = 30_110; address = "0xEndpoint" }

abbrev pub hre_on : EChainId → Hre
hre_on c = record {
  e_chain_id = c;
  chain_info = chain_info c;
  names = external_names;
  find_global = λ project chain name tag. some (saved name);
  chain_by_name = λ name. if name === "ethereum" then some (chain_info c) else none;
  signer = "0xSigner";
  parse_ether = λ s. if s === "0.5" then ok (5 * 10 ^ 17) else ok (2 * 10 ^ 18);
}

-- A chain where nothing is registered yet. Half an ether of collateral is worth a dollar.
abbrev pub new_chain : Chain
new_chain = record {
  ids = λ yield_box token_type asset strategy id. ok 7;
  to_share = λ yield_box id amount up. amount;
  usdo_token = λ p. "";
  main_token = λ p. "";
  big_bang_eth_market = λ p. "";
  is_singularity_master_contract_registered = λ p mc. false;
  is_big_bang_master_contract_registered = λ p mc. false;
  is_market_registered = λ p m. false;
  flash_loan_helper = λ u. "";
  allowed_minter = λ u id m. false;
  allowed_burner = λ u id m. false;
  market_penrose = λ m. "";
  erc20 = λ t. "ERC20";
  pearlmit = λ t. "PEARLMIT";
  balance_of = λ t o. 0;
  exchange_rate = λ o. 5 * 10 ^ 17;
  collateral_id = λ o. 3;
  asset_id = λ o. 4;
  timestamp = 1_000;
  remove_dust = λ t n. n;
  native_fee = λ t d. 7;
}

abbrev pub new_world : World
new_world = record { find_local = λ chain name tag. some (saved name); chain = new_chain }

abbrev task_on : EChainId → Bool → Bool → VmPass
task_on c is_testnet is_host_chain = record {
  hre = hre_on c;
  tag = "default";
  tapioca_multicall_addr = "MULTICALL";
  is_testnet = is_testnet;
  is_host_chain = is_host_chain;
  is_side_chain = (if is_host_chain then false else true);
}

abbrev pub arbitrum_task : VmPass
arbitrum_task = task_on arbitrum false true

abbrev pub arbitrum_sepolia_task : VmPass
arbitrum_sepolia_task = task_on arbitrum_sepolia true true

abbrev pub sepolia_task : VmPass
sepolia_task = task_on sepolia true false

abbrev pub deploy_all : List String → List Deployment
deploy_all = map (λ name. record { name = name; address = name })

-- Tasks of the SDK that leave everything as it is.
abbrev pub idle_tasks : SdkTasks
idle_tasks = record {
  set_lz_peer = λ tag name w. ok w;
  create_empty_strat_yb_asset = λ name tag token w. ok w;
  execute_multicall_value = λ calls value w. ok w;
  execute_multicall = λ calls w. ok w;
}

-- What the loading functions find.
abbrev pub test_meta : Meta
test_meta = record { yb_asset_id = some "1"; token = some "0xToken" }

abbrev pub test_generic : String → Generic
test_generic swapper = record {
  tap_token = "TAP";
  yield_box = "YIELDBOX";
  cluster = "CLUSTER";
  pearlmit = "PEARLMIT";
  zero_x_swapper = swapper;
  tap_strat_with_asset = saved "TAP_STRAT";
  weth_strat_with_asset = saved "WETH_STRAT";
}

abbrev pub test_arb : String → Arb
test_arb swapper = record {
  generic = test_generic swapper;
  mt_eth = "MT_ETH";
  t_eth = "T_ETH";
  t_reth = "T_RETH";
  t_wst_eth = "T_WSTETH";
  eth_market_oracle = "TETH_ORACLE";
  t_reth_market_oracle = "RETH_ORACLE";
  t_wst_eth_market_oracle = "WSTETH_ORACLE";
  t_sglp_market_oracle = "GLP_ORACLE";
  t_sglp = "T_SGLP";
  weth_glp_oracle = "ETH_GLP_ORACLE";
}
