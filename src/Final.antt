-- ===== src/Final.antt =====
-- tasks/deploy/2-deployFinal.ts, the last phase, and
-- tasks/deploy/postDepSetup/utils_sendOftToken.ts: on a side chain USDO is lent and the receipt is
-- sent to the host chain; on the host chain the markets get the oracle of USDO.
pub mod Address
pub mod Value
pub mod Examples
use tapioca_bar.Prelude.{
  ℕ, ◌*◌, ◌^◌, String, true, false, some, List, [], ◌∷◌, ◌++◌, map, if◌then◌else◌, Result, ok,
  present, ◌>>=◌,
}
use tapioca_bar.Config.Names
use tapioca_bar.Sdk.{
  World, Arg, Call, CallData, SdkTasks, call, bytes, text, num, flag, array, struct, encoded, items,
  fields, generic, tapioca_periph, tapioca_z, load_global_contract, load_local_contract,
}
use tapioca_bar.Toft.{wrap_toft, DepositParams, deposit_usdo_yb_and_add_sgl}
use tapioca_bar.PostLbp1.Params.{VmPass}
use Address.{bytes32_of}

-- `sendData`. The options of LayerZero are kept as what they encode.
unfoldable pub send_data : World → String → ℕ → String → ℕ → Arg
send_data w toft amount to dst_eid = struct (
    fields (
      ("amountLD", num amount)
      ∷ ("minAmountLD", num (w.chain.remove_dust toft amount))
      ∷ ("to", text to)
      ∷ ("dstEid", num dst_eid)
      ∷ ("extraOptions", encoded "addExecutorLzReceiveOption" (items (num 500_000 ∷ [])))
      ∷ ("composeMsg", text "0x")
      ∷ ("oftCmd", text "0x")
      ∷ []))

-- `lzSendParam`
unfoldable pub lz_send_param : String → Arg → ℕ → Arg
lz_send_param refund_address sent fee = struct (
    fields (
      ("fee", struct (fields (("lzTokenFee", num 0) ∷ ("nativeFee", num fee) ∷ [])))
      ∷ ("extraOptions", encoded "addExecutorLzReceiveOption" (items (num 500_000 ∷ [])))
      ∷ ("refundAddress", text refund_address)
      ∷ ("sendParam", sent)
      ∷ []))

-- The call that is pushed, and the native fee that is returned.
unfoldable pub send_oft_token : VmPass → String → World → String → ℕ → Result (List Call × ℕ)
send_oft_token p transfer_to w toft amount = do
  dst ← present (p.hre.chain_by_name transfer_to)
  target ← load_global_contract p.hre generic dst.chain_id p.hre.names.tapioca_multicall p.tag
  to ← bytes32_of target.address
  let sent = send_data w toft amount to dst.lz_chain_id
  let fee = w.chain.native_fee toft sent
  let send =
      call toft "sendPacket" (lz_send_param p.tapioca_multicall_addr sent fee ∷ text "0x" ∷ [])
  ok (record send { value = some fee } ∷ [], fee)

-- `calls2.map((c) => ({ ...c, value: 0 }))`
unfoldable pub with_value_0 : List Call → List Call
with_value_0 = map {A = Call} (λ c. record c { value = some 0 })

-- The second multicall of the side chain and the value that goes with it.
unfoldable pub side_calls_2 : VmPass → String → World → String → Result (List Call × ℕ)
side_calls_2 p transfer_to w t_sgl_sdai = do
  wrap ← wrap_toft p.hre p.tag p.tapioca_multicall_addr w t_sgl_sdai (10 ^ 16) false
  (send, fee) ← send_oft_token p transfer_to w t_sgl_sdai (10 ^ 16)
  ok (with_value_0 wrap ++ send, fee)

abbrev pub deposit_params : VmPass → ℕ → DepositParams
deposit_params p amount = record {
  hre = p.hre;
  tag = p.tag;
  tapioca_multicall_addr = p.tapioca_multicall_addr;
  is_testnet = p.is_testnet;
  amount = amount;
}

unfoldable pub side_task : SdkTasks → VmPass → String → World → Result World
side_task sdk p transfer_to w = do
  t_sgl_sdai ←
      load_global_contract p.hre tapioca_z p.hre.chain_info.chain_id p.hre.names.t_sgl_sdai_market
        p.tag
  calls ← deposit_usdo_yb_and_add_sgl (deposit_params p (10 ^ 16)) w Names.sgl_s_dai_market
  w1 ← sdk.execute_multicall calls w
  (calls_2, fee) ← side_calls_2 p transfer_to w1 t_sgl_sdai.address
  sdk.execute_multicall_value calls_2 fee w1

-- `addBBSetConfig` of each BigBang market, and the call with what it collects.
unfoldable pub set_usdo_oracle : VmPass → World → Result (List Call)
set_usdo_oracle p w = do
  let chain = p.hre.chain_info.chain_id
  penrose ← load_local_contract w chain Names.penrose p.tag
  oracle ← load_global_contract p.hre tapioca_periph chain p.hre.names.usdo_usdc_uni_v3_oracle p.tag
  let set_oracle : CallData = record {
    fn = "setAssetOracle";
    args = text oracle.address ∷ text "0x" ∷ [];
  }
  mt_eth ← load_local_contract w chain Names.bb_mt_eth_market p.tag
  t_reth ← load_local_contract w chain Names.bb_t_reth_market p.tag
  t_wst_eth ← load_local_contract w chain Names.bb_t_wst_eth_market p.tag
  ok (
      call penrose.address "executeMarketFn" (
        array (items (text mt_eth.address ∷ text t_reth.address ∷ text t_wst_eth.address ∷ []))
        ∷ array (items (bytes set_oracle ∷ bytes set_oracle ∷ bytes set_oracle ∷ []))
        ∷ flag true
        ∷ [])
      ∷ [])

-- The multicall after it is empty: what was pushed there is commented out.
unfoldable pub host_task : SdkTasks → VmPass → World → Result World
host_task sdk p w = do
  oracle_calls ← set_usdo_oracle p w
  t_sgl_sglp ←
      load_global_contract p.hre tapioca_z p.hre.chain_info.chain_id p.hre.names.t_sgl_glp_market
        p.tag
  w1 ←
      sdk.create_empty_strat_yb_asset Names.yb_t_sgl_sglp_asset_without_strategy p.tag
        t_sgl_sglp.address w
  lend ← deposit_usdo_yb_and_add_sgl (deposit_params p (5 * 10 ^ 18)) w1 Names.sgl_s_glp_market
  wrap ← wrap_toft p.hre p.tag p.tapioca_multicall_addr w1 t_sgl_sglp.address (10 ^ 18) true
  w2 ← sdk.execute_multicall (oracle_calls ++ (lend ++ wrap)) w1
  sdk.execute_multicall [] w2

unfoldable pub post_deploy_task_final : SdkTasks → VmPass → String → World → Result World
post_deploy_task_final sdk p transfer_to w = do
  w1 ← (if p.is_side_chain then side_task sdk p transfer_to w else ok w)
  if p.is_host_chain then host_task sdk p w1 else ok w1
