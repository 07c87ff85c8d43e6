-- ===== src/PostLbp2.antt =====
-- tasks/deploy/1-2-deployPostLbp.ts: the second phase after the LBP, on the host chain. It deploys
-- the Origins market of tETH, and borrows USDO against ether there.
pub mod Contracts
pub mod MintUsdo
pub mod BorrowAmount
pub mod Execution
pub mod Borrows
pub mod OnOrigins
pub mod MintExamples
pub mod PostDeploy
pub mod Examples
use tapioca_bar.Prelude.{
  ℕ, ◌+◌, ◌*◌, ◌^◌, String, Bool, true, false, Option, none, some, List, [], ◌∷◌, ◌++◌, not, ◌==◌,
  if◌then◌else◌, Result, ok, err, thrown, present, ◌>>=◌,
}
use tapioca_bar.Config.{post_lbp}
use tapioca_bar.Config.Names
use tapioca_bar.Sdk.{
  Build, World, Call, SdkTasks, call_value, text, flag, uint, when, ◌followed_by◌,
  load_local_contract,
}
use tapioca_bar.Builds.Markets.{build_origins}
use tapioca_bar.Toft.{wrap_toft}
use tapioca_bar.PostLbp1.Params.{VmPass}
use tapioca_bar.PostLbp1.Loading.{load_arb}
use Contracts.{load_contracts, testnet_mint_mock_teth}
use MintUsdo.{borrow_amount, mint_origin_usdo}

-- The task arguments of phase 2. `delta` is the number that its text stands for; the arguments
-- that only commented-out code reads are left out.
pub record Args2 : Type 0 where
  pub delta : ℕ
  pub transfer_to : String
  pub eth_amount_for_usdc_usdo : String
  pub eth_amount_for_extra_usdo : String
  pub no_transfer : Bool

unfoldable pub deploy_task_2 : VmPass → World → Result (List Build)
deploy_task_2 p w = do
  let chain = p.hre.e_chain_id
  arb ← load_arb p.hre p.tag p.is_testnet
  penrose ← load_local_contract w chain Names.penrose p.tag
  usdo ← load_local_contract w chain Names.usdo p.tag
  usdo_strategy ← load_local_contract w chain Names.yb_usdo_asset_without_strategy p.tag
  t_eth_strategy ← load_local_contract w chain Names.yb_t_eth_asset_without_strategy p.tag
  if not p.is_host_chain then ok [] else do
    config ← present (post_lbp chain)
    market ← present config.t_eth_origins_market_config
    origins ← build_origins w.chain (record {
      deployment_name = Names.origins_t_eth_market;
      owner = p.tapioca_multicall_addr;
      yield_box = arb.generic.yield_box;
      asset = usdo.address;
      asset_strategy = usdo_strategy.address;
      collateral = arb.t_eth;
      collateral_strategy = t_eth_strategy.address;
      oracle = arb.eth_market_oracle;
      collateralization_rate = market.collateralization_rate;
      penrose = penrose.address;
    })
    ok (origins ∷ [])

-- The two checks before any contract is loaded.
unfoldable pub check_chains : VmPass → Args2 → Result (List Call)
check_chains p a =
    if not p.is_host_chain
    then err (thrown "[-] Post deploy task 2 is only for host chain")
    else if a.no_transfer
    then ok []
    else elim (p.hre.chain_by_name a.transfer_to) [
      | none ↦ err (thrown "[-] Destination chain not found in chain info")
      | some info ↦ ok []
    ]

-- Both mints, after the tokens that they need as collateral have been wrapped in one go, and the
-- transfer of the USDO for the USDC pool to the signer.
unfoldable pub mint_calls : VmPass → Args2 → World → Result (List Call)
mint_calls p a w = do
  c ← load_contracts p.hre p.tag w
  extra ← p.hre.parse_ether a.eth_amount_for_extra_usdo
  for_usdc ← p.hre.parse_ether a.eth_amount_for_usdc_usdo
  if for_usdc == 0
      then err (thrown "[-] Skipping USDO minting as the collateral amount is 0. Check CONFIG file")
      else do
        let rate = w.chain.exchange_rate c.origins
        borrow_extra ← borrow_amount rate extra a.delta
        borrow_usdc ← borrow_amount rate for_usdc a.delta
        wrap_toft p.hre p.tag p.tapioca_multicall_addr w c.t_eth (extra + for_usdc) false
            followed_by mint_origin_usdo p.hre p.tag p.tapioca_multicall_addr w extra borrow_extra
            followed_by mint_origin_usdo p.hre p.tag p.tapioca_multicall_addr w for_usdc borrow_usdc
            followed_by (do
              amount ← uint borrow_usdc
              ok (call_value c.usdo "transfer" (text p.hre.signer ∷ amount ∷ []) 0 ∷ []))

-- The calls of the multicall.
unfoldable pub post_deploy_calls_2 : VmPass → Args2 → World → Result (List Call)
post_deploy_calls_2 p a w =
    check_chains p a
    followed_by (do
      c ← load_contracts p.hre p.tag w
      ok (
          call_value c.usdo "setMinterStatus" (text c.origins ∷ flag true ∷ []) 0
          ∷ call_value c.usdo "setBurnerStatus" (text c.origins ∷ flag true ∷ []) 0
          ∷ []))
    followed_by when p.is_testnet
        (testnet_mint_mock_teth p.hre p.tag p.tapioca_multicall_addr w (100_000 * 10 ^ 18))
    followed_by mint_calls p a w

unfoldable pub post_deploy_task_2 : SdkTasks → VmPass → Args2 → World → Result World
post_deploy_task_2 sdk p a w = do calls ← post_deploy_calls_2 p a w; sdk.execute_multicall calls w
