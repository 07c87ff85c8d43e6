-- ===== src/PostLbp2/Contracts.antt =====
-- `loadContracts__deployPostLbp__task_2` and `testnetMintMockTeth` of
-- tasks/deploy/1-2-deployPostLbp.ts.
use tapioca_bar.Prelude.{ℕ, ◌+◌, String, List, [], ◌∷◌, Result, ok, ◌>>=◌}
use tapioca_bar.Config.Names
use tapioca_bar.Sdk.{
  Hre, World, Call, call_value, text, num, tapioca_periph, tapioca_z, load_global_contract,
  load_local_contract,
}

-- The addresses of the contracts that are loaded.
pub record Contracts : Type 0 where
  pub origins : String
  pub yield_box : String
  pub t_eth : String
  pub usdo : String

unfoldable pub load_contracts : Hre → String → World → Result Contracts
load_contracts hre tag w = do
  origins ← load_local_contract w hre.e_chain_id Names.origins_t_eth_market tag
  usdo ← load_local_contract w hre.e_chain_id Names.usdo tag
  yield_box ← load_global_contract hre tapioca_periph hre.e_chain_id hre.names.yieldbox tag
  t_eth ← load_global_contract hre tapioca_z hre.e_chain_id hre.names.t_eth tag
  ok (record {
    origins = origins.address;
    yield_box = yield_box.address;
    t_eth = t_eth.address;
    usdo = usdo.address;
  })

unfoldable pub testnet_mint_mock_teth : Hre → String → String → World → ℕ → Result (List Call)
testnet_mint_mock_teth hre tag to w amount = do
  t_eth ← load_global_contract hre tapioca_z hre.e_chain_id hre.names.t_eth tag
  let erc20 = w.chain.erc20 t_eth.address
  let pearlmit = w.chain.pearlmit t_eth.address
  ok (
      call_value erc20 "mintTo" (text to ∷ num amount ∷ []) 0
      ∷ call_value erc20 "approve" (text pearlmit ∷ num amount ∷ []) 0
      ∷ call_value pearlmit "approve"
          (num 20
            ∷ text erc20
            ∷ num 0
            ∷ text t_eth.address
            ∷ num amount
            ∷ num (w.chain.timestamp + 1000)
            ∷ [])
          0
      ∷ call_value t_eth.address "wrap" (text to ∷ text to ∷ num amount ∷ []) 0
      ∷ [])
