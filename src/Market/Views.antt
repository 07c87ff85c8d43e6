-- ===== src/Market/Views.antt =====
-- The views of contracts/markets/Market.sol and its exchange rate.
use tapioca_bar.Prelude.{
  ℕ, String, Bool, true, false, ◌^◌, ◌-◌, Result, ok, err, rejected, ◌>>=◌, ◌>>◌, leb,
  if◌then◌else◌, ◌==◌, ltb, not, ◌&&◌, ◌||◌, get, add, sub, mul, div, mul_div, to_int, add_int,
  sub_int, mul_int, div_int, less_int, abs_int, to_uint, fit,
}
use tapioca_bar.Penrose.{require}
use tapioca_bar.Market.{Rebase, Market, fee_precision}
use tapioca_bar.Market.Outside.{Outside, Call}

-- The closing factor of an amount owed, from its numerator and from the rate with the multiplier.
unfoldable pub factor_of : ℕ → ℕ → ℕ → ℕ → Result ℕ
factor_of owed numerator precision diff = do
  gap ← sub_int (to_int precision) (to_int diff)
  denominator ← mul_int gap (to_int (10 ^ 13))
  scaled ← mul_int (to_int numerator) (to_int (10 ^ 18))
  x ← div_int scaled denominator
  x_pos ← abs_int x
  ok (if ltb owed x_pos then owed else x_pos)

unfoldable pub compute_closing_factor : ℕ → ℕ → ℕ → ℕ → ℕ → Rebase → Result ℕ
compute_closing_factor part collateral_part_in_asset rates_precision rate multiplier r = do
  borrow_part ← mul_div part r.elastic r.base
  precision ← fit 256 (10 ^ rates_precision)
  liquidation_starts_at ← mul_div collateral_part_in_asset rate precision
  if ltb borrow_part liquidation_starts_at then ok 0 else do
    numerator ← sub borrow_part liquidation_starts_at
    factor ← add precision multiplier
    diff ← mul_div rate factor precision
    factor_of borrow_part numerator precision diff

-- `_getRatio`
unfoldable pub get_ratio : ℕ → ℕ → ℕ → Result ℕ
get_ratio numerator denominator precision = if numerator == 0 || denominator == 0 then ok 0 else do
  digits ← add precision 1
  scale ← fit 256 (10 ^ digits)
  scaled ← mul numerator scale
  tenths ← div scaled denominator
  rounded ← add tenths 5
  div rounded 10

-- The reward of `_getCallerReward` at a percentage of the way from the least to the greatest loan.
unfoldable pub reward_at : ℕ → ℕ → ℕ → Result ℕ
reward_at low high percentage = do
  diff ← sub_int (to_int low) (to_int high)
  scaled ← mul_int diff (to_int percentage)
  part_of_diff ← div_int scaled (to_int fee_precision)
  reward ← add_int part_of_diff (to_int high)
  ok (to_uint (if less_int reward (to_int low) then to_int low else reward))

module _ {W : Type 0} (o : Outside W) where
  unfoldable pub update_exchange_rate : Call → Market → W → Result (Market × W)
  update_exchange_rate c s w = do
    answer ← o.oracle_get s.oracle s.oracle_data w
    require answer.0.0 "Market: rate too old"
    require (not (answer.0.1 == 0)) "Market: invalid rate"
    ok (record s { exchange_rate = answer.0.1; rate_timestamp = c.timestamp }, answer.1)

  -- The `try` of the oracle's call: a revert keeps the state outside as it was.
  unfoldable pub try_update_exchange_rate : Call → Market → W → Result (Market × W)
  try_update_exchange_rate c s w = elim (o.oracle_get s.oracle s.oracle_data w) [
    | ok answer ↦
        if answer.0.0 && ltb 0 answer.0.1
        then ok (record s { exchange_rate = answer.0.1; rate_timestamp = c.timestamp }, answer.1)
        else if s.exchange_rate == 0
        then err (rejected "ExchangeRateNotValid")
        else ok (s, answer.1)
    | err reason ↦ if s.exchange_rate == 0 then err (rejected "ExchangeRateNotValid") else ok (s, w)
  ]

  unfoldable pub compute_max_borrowable_amount : Market → W → String → ℕ → Result ℕ
  compute_max_borrowable_amount s w user rate = do
    require (ltb 0 rate) "Market: exchangeRate not valid"
    amount ← o.to_amount w s.collateral_id (get s.user_collateral_share user) false
    precision ← div s.exchange_rate_precision fee_precision
    scaled ← mul amount precision
    mul_div scaled s.collateralization_rate rate

  unfoldable pub is_solvent : Market → W → String → ℕ → Bool → Result Bool
  is_solvent s w user rate liquidation =
      let part = get s.user_borrow_part user in
      let share = get s.user_collateral_share user in
      if part == 0 then ok true else if share == 0 then ok false else do
        amount ← o.to_amount w s.collateral_id share false
        precision ← div s.exchange_rate_precision fee_precision
        scaled ← mul amount precision
        covered ←
            mul scaled (
              if liquidation
              then s.liquidation_collateralization_rate
              else s.collateralization_rate)
        owed ← mul part s.total_borrow.elastic
        in_collateral ← mul_div owed rate s.total_borrow.base
        ok (leb in_collateral covered)

  -- The pair (min, max).
  unfoldable pub compute_max_and_min_ltv_in_asset : Market → W → ℕ → ℕ → Result (ℕ × ℕ)
  compute_max_and_min_ltv_in_asset s w share rate = do
    require (ltb 0 rate) "Market: exchangeRate not valid"
    amount ← o.to_amount w s.collateral_id share false
    max ← mul_div amount s.exchange_rate_precision rate
    min ← mul_div max s.collateralization_rate fee_precision
    ok (min, max)

  -- `_accrueView` is the caller's.
  unfoldable pub compute_tvl_info : Result Rebase → Market → W → String → ℕ → Result (ℕ × ℕ × ℕ)
  compute_tvl_info accrue_view s w user rate =
      let part = get s.user_borrow_part user in
      if part == 0 then ok (0, 0, 0) else do
        r ← accrue_view
        collateral_amount_in_asset ← compute_max_borrowable_amount s w user rate
        owed ← mul_div part r.elastic r.base
        ltv ← compute_max_and_min_ltv_in_asset s w (get s.user_collateral_share user) rate
        ok (
          (if leb collateral_amount_in_asset owed then owed - collateral_amount_in_asset else 0),
          ltv.0,
          ltv.1,
        )

  -- `_getCallerReward`
  unfoldable pub get_caller_reward : Market → W → String → ℕ → Result ℕ
  get_caller_reward s w user rate = do
    ltv ← compute_max_and_min_ltv_in_asset s w (get s.user_collateral_share user) rate
    let part = get s.user_borrow_part user
    if part == 0 then ok 0 else if ltv.0 == 0 then ok 0 else do
      borrowed ← mul_div part s.total_borrow.elastic s.total_borrow.base
      if ltb borrowed ltv.0
          then ok 0
          else if leb ltv.1 borrowed
          then ok s.min_liquidator_reward
          else (do
            over ← sub borrowed ltv.0
            range ← sub ltv.1 ltv.0
            percentage ← mul_div over fee_precision range
            reward_at s.min_liquidator_reward s.max_liquidator_reward percentage)

  unfoldable pub compute_allowance_amount_in_asset : Market → W → String → ℕ → ℕ → ℕ → Result ℕ
  unfolding get_ratio
  compute_allowance_amount_in_asset s w user rate amount decimals = do
    max_borrowable ← compute_max_borrowable_amount s w user rate
    ratio ← get_ratio amount max_borrowable decimals
    unit ← fit 256 (10 ^ decimals)
    mul_div ratio (get s.user_collateral_share user) unit
