-- ===== src/Toft.antt =====
-- `wrapToft` of tasks/deploy/2-deployFinal.ts, and `depositSglAssetYB` and
-- `depositUsdoYbAndAddSgl` of tasks/deploy/postDepSetup/utils_seedSglAssetInYb.ts: the calls that
-- wrap tokens, deposit them in YieldBox and lend them to a market.
pub mod Execution
pub mod Lends
pub mod OnSingularity
pub mod Examples
use tapioca_bar.Prelude.{
  ℕ, ◌+◌, ◌^◌, String, Bool, true, false, some, List, [], ◌∷◌, ◌++◌, not, ◌&&◌, ◌==◌, if◌then◌else◌,
  Result, ok, err, thrown, ◌>>=◌,
}
use tapioca_bar.Config.Names
use tapioca_bar.Sdk.{
  Hre, World, Call, call, text, num, flag, tapioca_periph, load_global_contract,
  load_local_contract,
}
use tapioca_bar.PostLbp1.Loading.{load_generic}

-- ERC20 tokens are approved to Pearlmit, and there to the spender, until half an hour later.
unfoldable pub wrap_toft : Hre → String → String → World → String → ℕ → Bool → Result (List Call)
wrap_toft hre tag multicall w toft amount no_check_amount = do
  pearlmit ← load_global_contract hre tapioca_periph hre.e_chain_id hre.names.pearlmit tag
  let erc20 = w.chain.erc20 toft
  let balance = w.chain.balance_of erc20 multicall
  if not no_check_amount && balance == 0
      then err (thrown "[-] No balance to wrap")
      else ok (
          call erc20 "approve" (text pearlmit.address ∷ num amount ∷ [])
          ∷ call pearlmit.address "approve" (
              num 20
              ∷ text erc20
              ∷ num 0
              ∷ text toft
              ∷ num amount
              ∷ num (w.chain.timestamp + 1800)
              ∷ [])
          ∷ call toft "wrap" (text multicall ∷ text multicall ∷ num amount ∷ [])
          ∷ [])

-- The parameters that `depositSglAssetYB` and `depositUsdoYbAndAddSgl` share.
pub record DepositParams : Type 0 where
  pub hre : Hre
  pub tag : String
  pub tapioca_multicall_addr : String
  pub is_testnet : Bool
  pub amount : ℕ

-- The mock token is minted and wrapped, on a test network where that is asked for.
unfoldable pub free_mint_calls : DepositParams → World → String → String → List Call
free_mint_calls p w pearlmit token =
    let erc20 = w.chain.erc20 token in
    let amount_to_mint : ℕ = 10 ^ 18 in
    call erc20 "mintTo" (text p.tapioca_multicall_addr ∷ num amount_to_mint ∷ [])
    ∷ call erc20 "approve" (text pearlmit ∷ num amount_to_mint ∷ [])
    ∷ call pearlmit "approve" (
        num 20
        ∷ text erc20
        ∷ num 0
        ∷ text token
        ∷ num amount_to_mint
        ∷ num (w.chain.timestamp + 1800)
        ∷ [])
    ∷ call token "wrap"
        (text p.tapioca_multicall_addr ∷ text p.tapioca_multicall_addr ∷ num amount_to_mint ∷ [])
    ∷ []

unfoldable pub deposit_sgl_asset_yb :
    DepositParams → World → String → String → Bool → Result (List Call)
deposit_sgl_asset_yb p w token strat_name free_mint = do
  g ← load_generic p.hre p.tag p.is_testnet
  strat ← load_local_contract w p.hre.chain_info.chain_id strat_name p.tag
  asset ← w.chain.ids g.yield_box 1 (some token) strat.address 0
  let free_calls = if p.is_testnet && free_mint then free_mint_calls p w g.pearlmit token else []
  ok (
      free_calls
      ++ call token "approve" (text g.pearlmit ∷ num p.amount ∷ [])
        ∷ call g.pearlmit "approve" (
            num 20
            ∷ text token
            ∷ num 0
            ∷ text g.yield_box
            ∷ num p.amount
            ∷ num (w.chain.timestamp + 1800)
            ∷ [])
        ∷ call g.yield_box "depositAsset" (
            num asset
            ∷ text p.tapioca_multicall_addr
            ∷ text p.tapioca_multicall_addr
            ∷ num p.amount
            ∷ num 0
            ∷ [])
        ∷ [])

unfoldable pub deposit_usdo_yb_and_add_sgl : DepositParams → World → String → Result (List Call)
deposit_usdo_yb_and_add_sgl p w market_name = do
  let chain_id = p.hre.chain_info.chain_id
  usdo_strat ← load_local_contract w chain_id Names.yb_usdo_asset_without_strategy p.tag
  usdo ← load_local_contract w chain_id Names.usdo p.tag
  sgl_market ← load_local_contract w chain_id market_name p.tag
  g ← load_generic p.hre p.tag p.is_testnet
  asset_id ← w.chain.ids g.yield_box 1 (some usdo.address) usdo_strat.address 0
  let shares = w.chain.to_share g.yield_box asset_id p.amount false
  let multicall = p.tapioca_multicall_addr
  ok (
      call usdo.address "approve" (text g.yield_box ∷ num p.amount ∷ [])
      ∷ call g.yield_box "depositAsset"
          (num asset_id ∷ text multicall ∷ text multicall ∷ num p.amount ∷ num 0 ∷ [])
      ∷ call g.yield_box "setApprovalForAsset"
          (text sgl_market.address ∷ num asset_id ∷ flag true ∷ [])
      ∷ call g.yield_box "setApprovalForAll" (text g.pearlmit ∷ flag true ∷ [])
      ∷ call g.pearlmit "approve" (
          num 1155
          ∷ text g.yield_box
          ∷ num asset_id
          ∷ text sgl_market.address
          ∷ num shares
          ∷ num (w.chain.timestamp + 1800)
          ∷ [])
      ∷ call sgl_market.address "addAsset"
          (text multicall ∷ text multicall ∷ flag false ∷ num shares ∷ [])
      ∷ [])
