-- ===== src/Exec/BorrowCap.antt =====
-- The call data of tasks/exec/setBorrowCap.ts, decoded as contracts/markets/Market.sol declares
-- `setMarketConfig` and executed on a market.
use tapioca_bar.Prelude.{
  ℕ, String, List, [], ◌∷◌, Result, ok, err, rejected, ◌>>=◌, ◌≡◌, ◌≤◌, ◌⊎◌, arith,
}
use tapioca_bar.Penrose.{zero_address}
use tapioca_bar.Sdk.{Arg, text, num}
use tapioca_bar.Market.{Market}
use tapioca_bar.Market.Outside.{Call}
use tapioca_bar.Market.Configuration.{MarketConfig, set_market_config}
use tapioca_bar.Exec.Markets.{cap_args}

-- A `uint256`: a number, or a text that ethers reads as one.
abbrev pub uint_arg : (String → Result ℕ) → Arg → Result ℕ
uint_arg number (num n) = ok n
uint_arg number (text s) = number s
uint_arg number other = err (rejected "invalid BigNumber value")

abbrev pub text_arg : Arg → Result String
text_arg (text s) = ok s
text_arg other = err (rejected "invalid address")

-- The eleven inputs, in the order of the contract.
unfoldable pub decode : (String → Result ℕ) → List Arg → Result MarketConfig
decode number (a ∷ b ∷ c ∷ d ∷ e ∷ f ∷ g ∷ h ∷ i ∷ j ∷ k ∷ []) = do
  oracle ← text_arg a
  oracle_data ← text_arg b
  protocol_fee ← uint_arg number c
  liquidation_bonus_amount ← uint_arg number d
  min_liquidator_reward ← uint_arg number e
  max_liquidator_reward ← uint_arg number f
  total_borrow_cap ← uint_arg number g
  collateralization_rate ← uint_arg number h
  liquidation_collateralization_rate ← uint_arg number i
  min_borrow_amount ← uint_arg number j
  min_collateral_amount ← uint_arg number k
  ok (record {
    oracle = oracle;
    oracle_data = oracle_data;
    protocol_fee = protocol_fee;
    liquidation_bonus_amount = liquidation_bonus_amount;
    min_liquidator_reward = min_liquidator_reward;
    max_liquidator_reward = max_liquidator_reward;
    total_borrow_cap = total_borrow_cap;
    collateralization_rate = collateralization_rate;
    liquidation_collateralization_rate = liquidation_collateralization_rate;
    min_borrow_amount = min_borrow_amount;
    min_collateral_amount = min_collateral_amount;
  })
decode number other = err (rejected "types/values length mismatch")

abbrev pub execute : (String → Result ℕ) → Call → List Arg → Market → Result Market
execute number c args s = do a ← decode number args; set_market_config c a s

-- Where ethers reads the zero address as the number 0: when a market accepts the call that the
-- task on the borrow cap makes, its borrow cap is as it was. A cap that is not 0 has become the
-- liquidation collateralization rate, which is accepted up to 100000 only.
pub execute-cap_args :
    (number : String → Result ℕ) (c : Call) (cap : ℕ) (s t : Market)
    → number zero_address ≡ ok 0
    → execute number c (cap_args cap) s ≡ ok t
    → (t.total_borrow_cap ≡ s.total_borrow_cap)
      × ((cap ≡ 0) ⊎ (t.liquidation_collateralization_rate ≡ cap) × (cap ≤ 100000))
unfolding decode set_market_config
execute-cap_args number c cap s t zero e = (ground arith, ground arith)
