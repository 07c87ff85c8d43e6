-- ===== src/Market/Configuration.antt =====
-- The owner's configuration of contracts/markets/Market.sol: `setMarketConfig`, and what holds of
-- the rates and rewards it leaves.
use tapioca_bar.Prelude.{
  ℕ, String, Result, ok, ◌>>=◌, ◌>>◌, leb, ltb, if◌then◌else◌, ◌===◌, add, mul, ◌≤◌, ◌<◌, ◌*◌, ◌≡◌,
  arith,
}
use tapioca_bar.Penrose.{require, zero_address}
use tapioca_bar.Market.{Market, fee_precision}
use tapioca_bar.Market.Outside.{Call}

-- The arguments of `setMarketConfig`.
pub record MarketConfig : Type 0 where
  pub oracle : String
  pub oracle_data : String
  pub protocol_fee : ℕ
  pub liquidation_bonus_amount : ℕ
  pub min_liquidator_reward : ℕ
  pub max_liquidator_reward : ℕ
  pub total_borrow_cap : ℕ
  pub collateralization_rate : ℕ
  pub liquidation_collateralization_rate : ℕ
  pub min_borrow_amount : ℕ
  pub min_collateral_amount : ℕ

-- `if (value > 0)` around the statements that set it.
abbrev pub given : ℕ → Result Market → Market → Result Market
given value change s = if ltb 0 value then change else ok s

abbrev set_fees : MarketConfig → Market → Result Market
set_fees a s0 = do
  s1 ←
      given a.protocol_fee
        (do
          require (leb a.protocol_fee fee_precision) "Market: not valid"
          ok (record s0 { protocol_fee = a.protocol_fee }))
        s0
  given a.liquidation_bonus_amount
      (do
        require (ltb a.liquidation_bonus_amount fee_precision) "Market: not valid"
        ok (record s1 { liquidation_bonus_amount = a.liquidation_bonus_amount }))
      s1

abbrev set_rewards : MarketConfig → Market → Result Market
set_rewards a s0 = do
  s1 ←
      given a.min_liquidator_reward
        (do
          require (ltb a.min_liquidator_reward fee_precision) "Market: not valid"
          require (ltb a.min_liquidator_reward s0.max_liquidator_reward) "Market: not valid"
          ok (record s0 { min_liquidator_reward = a.min_liquidator_reward }))
        s0
  given a.max_liquidator_reward
      (do
        require (ltb a.max_liquidator_reward fee_precision) "Market: not valid"
        require (ltb s1.min_liquidator_reward a.max_liquidator_reward) "Market: not valid"
        ok (record s1 { max_liquidator_reward = a.max_liquidator_reward }))
      s1

abbrev set_rates : MarketConfig → Market → Result Market
set_rates a s0 = do
  s1 ←
      given a.collateralization_rate
        (do
          require (leb a.collateralization_rate fee_precision) "Market: not valid"
          require (leb a.collateralization_rate s0.liquidation_collateralization_rate)
              "Market: collateralizationRate too big"
          factor ← add fee_precision s0.liquidation_multiplier
          scaled ← mul a.collateralization_rate factor
          require (ltb scaled (fee_precision * fee_precision)) "Market: CR * (1 + LM) >= 1"
          ok (record s0 { collateralization_rate = a.collateralization_rate }))
        s0
  given a.liquidation_collateralization_rate
      (do
        require (leb s1.collateralization_rate a.liquidation_collateralization_rate)
            "Market: liquidationCollateralizationRate too small"
        require (leb a.liquidation_collateralization_rate fee_precision) "Market: not valid"
        ok (record s1 {
          liquidation_collateralization_rate = a.liquidation_collateralization_rate;
        }))
      s1

unfoldable pub set_market_config : Call → MarketConfig → Market → Result Market
set_market_config c a s = do
  require (c.sender === s.owner) "Ownable: caller is not the owner"
  s1 ← set_fees a (record s {
    oracle = (if a.oracle === zero_address then s.oracle else a.oracle);
    oracle_data = (if a.oracle_data === "" then s.oracle_data else a.oracle_data);
  })
  s2 ← set_rewards a s1
  s3 ← set_rates a (record s2 {
    total_borrow_cap =
        (if ltb 0 a.total_borrow_cap then a.total_borrow_cap else s2.total_borrow_cap);
  })
  ok (record s3 {
    min_borrow_amount =
        (if ltb 0 a.min_borrow_amount then a.min_borrow_amount else s3.min_borrow_amount);
    min_collateral_amount =
        (if ltb 0 a.min_collateral_amount
          then a.min_collateral_amount
          else s3.min_collateral_amount);
  })

unfoldable pub set_liquidation_max_slippage : Call → ℕ → Market → Result Market
set_liquidation_max_slippage c value s = do
  require (c.sender === s.owner) "Ownable: caller is not the owner"
  require (ltb value fee_precision) "Market: not valid"
  ok (record s { max_liquidation_slippage = value })

-- The rates and rewards are in the order that the views need.
pub record IsConfigured (s : Market) : Type 0 where
  pub rates_ordered : s.collateralization_rate ≤ s.liquidation_collateralization_rate
  pub rate_bounded : s.liquidation_collateralization_rate ≤ fee_precision
  pub rewards_ordered : s.min_liquidator_reward < s.max_liquidator_reward
  pub reward_bounded : s.max_liquidator_reward < fee_precision
  pub fee_bounded : s.protocol_fee ≤ fee_precision
  pub bonus_bounded : s.liquidation_bonus_amount < fee_precision

-- Whatever the owner passes to `setMarketConfig`, a call that does not revert keeps the
-- collateralization rate at most the liquidation rate, that at most 100%, the least reward of a
-- liquidator below the greatest, that below 100%, the protocol's fee at most 100% and the bonus
-- below it.
pub set_market_config-IsConfigured :
    (c : Call) (a : MarketConfig) (s t : Market)
    → IsConfigured s
    → set_market_config c a s ≡ ok t
    → IsConfigured t
unfolding set_market_config
set_market_config-IsConfigured c a s t v e = record {
  rates_ordered = ground (arith, v.rates_ordered);
  rate_bounded = ground (arith, v.rate_bounded);
  rewards_ordered = ground (arith, v.rewards_ordered, v.reward_bounded);
  reward_bounded = ground (arith, v.rewards_ordered, v.reward_bounded);
  fee_bounded = ground (arith, v.fee_bounded);
  bonus_bounded = ground (arith, v.bonus_bounded);
}
