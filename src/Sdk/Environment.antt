-- ===== src/Sdk/Environment.antt =====
-- What a task is run with: the hardhat runtime (`Hre`) and what its steps change (`World`).
use tapioca_bar.Prelude.{ℕ, String, Bool, Option, none, some, Result, ok, err, not_found}
use tapioca_bar.Config.{EChainId}
use tapioca_bar.Sdk.Calls.{Arg}
use tapioca_bar.Sdk.Deployments.{Contract}

-- The keys of `TAPIOCA_PROJECTS_NAME` that are used.
pub data Project : Type 0 where
  tap_token tapioca_periph tapioca_z generic : Project

-- The `DEPLOYMENT_NAMES` of @tap-token, @tapioca-periph and @tapiocaz.
pub record ExternalNames : Type 0 where
  pub tap_token : String
  pub yieldbox : String
  pub cluster : String
  pub pearlmit : String
  pub zero_x_swapper : String
  pub zero_x_swapper_mock : String
  pub tap_token_yb_empty_strat : String
  pub weth_yb_empty_strat : String
  pub market_sdai_oracle : String
  pub market_teth_oracle : String
  pub market_reth_oracle : String
  pub market_wsteth_oracle : String
  pub market_glp_oracle : String
  pub eth_glp_oracle : String
  pub usdo_usdc_uni_v3_oracle : String
  pub ts_dai : String
  pub mt_eth : String
  pub t_eth : String
  pub t_reth : String
  pub t_wst_eth : String
  pub ts_glp : String
  pub t_sgl_sdai_market : String
  pub t_sgl_glp_market : String
  -- `hre.SDK.DeployerVM.TAPIOCA_MULTICALL_NAME`
  pub tapioca_multicall : String

-- `chainInfo`: an entry of the SDK's list of chains.
pub record ChainInfo : Type 0 where
  pub name : String
  pub chain_id : EChainId
  pub lz_chain_id : ℕ
  pub address : String

-- `hre.SDK`: `chain_info` is also the `chainInfo` that a task is passed.
pub record Hre : Type 0 where
  pub e_chain_id : EChainId
  pub chain_info : ChainInfo
  pub names : ExternalNames
  pub find_global : Project → EChainId → String → String → Option Contract
  -- `hre.SDK.utils.getChainBy('name', name)`
  pub chain_by_name : String → Option ChainInfo
  -- `(await hre.ethers.getSigners())[0].address`
  pub signer : String
  -- `hre.ethers.utils.parseEther`
  pub parse_ether : String → Result ℕ

-- The view functions that the tasks read, by the address of the contract that is asked. `ids`
-- rejects an argument that is undefined.
pub record Chain : Type 0 where
  pub ids : String → ℕ → Option String → String → ℕ → Result ℕ
  pub to_share : String → ℕ → ℕ → Bool → ℕ
  pub usdo_token : String → String
  pub main_token : String → String
  pub big_bang_eth_market : String → String
  pub is_singularity_master_contract_registered : String → String → Bool
  pub is_big_bang_master_contract_registered : String → String → Bool
  pub is_market_registered : String → String → Bool
  pub flash_loan_helper : String → String
  pub allowed_minter : String → ℕ → String → Bool
  pub allowed_burner : String → ℕ → String → Bool
  pub market_penrose : String → String
  pub erc20 : String → String
  pub pearlmit : String → String
  pub balance_of : String → String → ℕ
  pub exchange_rate : String → ℕ
  pub collateral_id : String → ℕ
  pub asset_id : String → ℕ
  pub timestamp : ℕ
  pub remove_dust : String → ℕ → ℕ
  -- `(await toft.quoteSend(sendData, false)).nativeFee`
  pub native_fee : String → Arg → ℕ

-- The local deployments, by chain, name and tag, and the state of the chain.
pub record World : Type 0 where
  pub find_local : EChainId → String → String → Option Contract
  pub chain : Chain

abbrev or_not_found : String → Option Contract → Result Contract
or_not_found name none = err (not_found name)
or_not_found name (some c) = ok c

-- `loadGlobalContract(hre, project, chain, name, tag)`, which throws where nothing is saved.
abbrev pub load_global_contract : Hre → Project → EChainId → String → String → Result Contract
load_global_contract hre project chain name tag =
    or_not_found name (hre.find_global project chain name tag)

-- `loadLocalContract(hre, chain, name, tag)`
abbrev pub load_local_contract : World → EChainId → String → String → Result Contract
load_local_contract w chain name tag = or_not_found name (w.find_local chain name tag)
