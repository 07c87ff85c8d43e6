-- ===== src/PostLbp2/MintUsdo.antt =====
-- The amounts that phase 2 borrows (tasks/deploy/1-2-deployPostLbp.ts), and
-- `mintOriginUSDO__deployPostLbp_2` of tasks/deploy/postDepSetup/1-2-setupOriginsMintUSDO.ts.
use tapioca_bar.Prelude.{
  ℕ, ◌*◌, ◌/◌, ◌^◌, String, true, false, List, [], ◌∷◌, ◌==◌, if◌then◌else◌, Result, ok, err,
  division_by_zero, ◌>>=◌, ℤ, sub_ℕ,
}
use tapioca_bar.Sdk.{Hre, World, Call, call_value, text, num, flag, uint}
use tapioca_bar.PostLbp2.Contracts.{load_contracts}

-- The ether at the rate of Origins, less `delta` per cent. `div` refuses a rate of 0.
unfoldable pub borrow_amount : ℕ → ℕ → ℕ → Result ℤ
borrow_amount exchange_rate eth_amount delta =
    if exchange_rate == 0
    then err division_by_zero
    else (let full = 10 ^ 36 / exchange_rate * eth_amount / 10 ^ 18 in
        ok (sub_ℕ full (full * delta / 100)))

unfoldable pub mint_origin_usdo : Hre → String → String → World → ℕ → ℤ → Result (List Call)
mint_origin_usdo hre tag multicall w collateral_amount borrow_amount = do
  c ← load_contracts hre tag w
  let collateral_id = w.chain.collateral_id c.origins
  let asset_id = w.chain.asset_id c.origins
  amount ← uint borrow_amount
  ok (
      call_value c.t_eth "approve" (text c.yield_box ∷ num collateral_amount ∷ []) 0
      ∷ call_value c.yield_box "depositAsset"
          (num collateral_id ∷ text multicall ∷ text multicall ∷ num collateral_amount ∷ num 0 ∷ [])
          0
      ∷ call_value c.yield_box "setApprovalForAsset"
          (text c.origins ∷ num collateral_id ∷ flag true ∷ []) 0
      ∷ call_value c.origins "addCollateral" (num collateral_amount ∷ num 0 ∷ []) 0
      ∷ call_value c.origins "borrow" (amount ∷ []) 0
      ∷ call_value c.yield_box "withdraw"
          (num asset_id ∷ text multicall ∷ text multicall ∷ amount ∷ num 0 ∷ []) 0
      ∷ call_value c.yield_box "setApprovalForAsset"
          (text c.origins ∷ num collateral_id ∷ flag false ∷ []) 0
      ∷ [])
