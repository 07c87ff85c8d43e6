-- ===== src/BigBang/RateExamples.antt =====
-- The theorems on rates, rewards and fees, at the loan of the scenario.
use tapioca_bar.Prelude.{
  ℕ, false, ok, ◌≡◌, ◌≤◌, ◌<◌, ◌+◌, ◌*◌, ◌/◌, ◌^◌, ◌⊎◌, refl, arith, get, put, IsOk,
}
use tapioca_bar.Market.{Market}
use tapioca_bar.Market.Views.{
  is_solvent, update_exchange_rate, compute_allowance_amount_in_asset,
  compute_max_borrowable_amount, get_ratio, compute_closing_factor, get_caller_reward,
  compute_max_and_min_ltv_in_asset, reward_at,
}
use tapioca_bar.Market.Allowances.{allowed_borrow}
use tapioca_bar.BigBang.{
  accrue, accrue_own, accrue_view, get_debt_rate, compute_variable_opening_fee,
  compute_variable_opening_fee_view, mint_fee, add_tokens,
}
use tapioca_bar.BigBang.Lending.{put_collateral, lend}
use tapioca_bar.BigBang.Operations.{
  refresh, require_solvent, open_loan, open_deposit, borrow, add_collateral,
}
use tapioca_bar.BigBang.Sample.{sample, fresh, by, quotient_of}
use tapioca_bar.BigBang.Scenario.{value_or, coin, borrowed}
use tapioca_bar.Market.Configuration.{
  MarketConfig, set_market_config, IsConfigured, set_market_config-IsConfigured,
}
use tapioca_bar.Market.Rewards.{get_caller_reward_bounds}
use tapioca_bar.Market.Closing.{compute_closing_factor_stuck}
use tapioca_bar.BigBang.Scenario.{accrued, accrued-eq}
use tapioca_bar.BigBang.Accrual.{accrue_view-accrue_own, accrue_own_lem, accrue-IsOk}

-- Only the liquidation rate is given, at 89286.
abbrev new_rate : MarketConfig
new_rate = record {
  oracle = "0x0000000000000000000000000000000000000000";
  oracle_data = "";
  protocol_fee = 0;
  liquidation_bonus_amount = 0;
  min_liquidator_reward = 0;
  max_liquidator_reward = 0;
  total_borrow_cap = 0;
  collateralization_rate = 0;
  liquidation_collateralization_rate = 89286;
  min_borrow_amount = 0;
  min_collateral_amount = 0;
}

abbrev configured : Market
configured = record fresh.market { liquidation_collateralization_rate = 89286 }

configured-eq : set_market_config (by "0xA1" 5) new_rate fresh.market ≡ ok configured
unfolding set_market_config
configured-eq = refl

fresh-IsConfigured : IsConfigured fresh.market
fresh-IsConfigured = record {
  rates_ordered = omega arith;
  rate_bounded = omega arith;
  rewards_ordered = omega arith;
  reward_bounded = omega arith;
  fee_bounded = omega arith;
  bonus_bounded = omega arith;
}

set_market_config-IsConfigured_example : IsConfigured configured
set_market_config-IsConfigured_example =
    set_market_config-IsConfigured (by "0xA1" 5) new_rate fresh.market configured fresh-IsConfigured
      configured-eq

compute_closing_factor_stuck_example :
    ¬ IsOk (compute_closing_factor coin coin 5 89286 12000 (record { elastic = coin; base = coin }))
compute_closing_factor_stuck_example =
    compute_closing_factor_stuck coin coin (record { elastic = coin; base = coin }) (omega arith)

abbrev reward : ℕ
reward =
    value_or 0
      (get_caller_reward sample borrowed.1.market borrowed.1.outside "alice" (35 * 10 ^ 17))

reward-eq :
    get_caller_reward sample borrowed.1.market borrowed.1.outside "alice" (35 * 10 ^ 17) ≡ ok reward
unfolding add_collateral open_deposit allowed_borrow put_collateral add_tokens get put borrow
    refresh update_exchange_rate accrue accrue_own get_debt_rate open_loan
    compute_variable_opening_fee compute_variable_opening_fee_view mint_fee
    compute_allowance_amount_in_asset compute_max_borrowable_amount get_ratio lend quotient_of
    require_solvent is_solvent get_caller_reward compute_max_and_min_ltv_in_asset reward_at
reward-eq = refl

borrowed-IsConfigured : IsConfigured borrowed.1.market
unfolding add_collateral open_deposit allowed_borrow put_collateral add_tokens get put borrow
    refresh update_exchange_rate accrue accrue_own get_debt_rate open_loan
    compute_variable_opening_fee compute_variable_opening_fee_view mint_fee
    compute_allowance_amount_in_asset compute_max_borrowable_amount get_ratio lend quotient_of
    require_solvent is_solvent
borrowed-IsConfigured = record {
  rates_ordered = omega arith;
  rate_bounded = omega arith;
  rewards_ordered = omega arith;
  reward_bounded = omega arith;
  fee_bounded = omega arith;
  bonus_bounded = omega arith;
}

get_caller_reward_bounds_example :
    (reward ≡ 0)
    ⊎ ((borrowed.1.market.min_liquidator_reward ≤ reward)
        × (reward ≤ borrowed.1.market.max_liquidator_reward))
get_caller_reward_bounds_example =
    get_caller_reward_bounds sample borrowed.1.market borrowed.1.outside "alice" (35 * 10 ^ 17)
      reward borrowed-IsConfigured reward-eq

abbrev rate : ℕ
rate = value_or 0 (get_debt_rate sample (by "bob" 100000) borrowed.1)

rate-eq : get_debt_rate sample (by "bob" 100000) borrowed.1 ≡ ok rate
unfolding add_collateral open_deposit allowed_borrow put_collateral add_tokens get put borrow
    refresh update_exchange_rate accrue accrue_own get_debt_rate open_loan
    compute_variable_opening_fee compute_variable_opening_fee_view mint_fee
    compute_allowance_amount_in_asset compute_max_borrowable_amount get_ratio lend quotient_of
    require_solvent is_solvent
rate-eq = refl

side_market : borrowed.1.is_main_market ≡ false
unfolding add_collateral open_deposit allowed_borrow put_collateral add_tokens get put borrow
    refresh update_exchange_rate accrue accrue_own get_debt_rate open_loan
    compute_variable_opening_fee compute_variable_opening_fee_view mint_fee
    compute_allowance_amount_in_asset compute_max_borrowable_amount get_ratio lend quotient_of
    require_solvent is_solvent
side_market = refl

rates_in_order : borrowed.1.min_debt_rate ≤ borrowed.1.max_debt_rate
unfolding add_collateral open_deposit allowed_borrow put_collateral add_tokens get put borrow
    refresh update_exchange_rate accrue accrue_own get_debt_rate open_loan
    compute_variable_opening_fee compute_variable_opening_fee_view mint_fee
    compute_allowance_amount_in_asset compute_max_borrowable_amount get_ratio lend quotient_of
    require_solvent is_solvent
rates_in_order = omega arith

accrue_view-accrue_own_example :
    accrue_view sample (by "bob" 100000) borrowed.1 ≡ ok accrued.market.total_borrow
accrue_view-accrue_own_example =
    accrue_view-accrue_own sample (by "bob" 100000) borrowed.1 accrued accrued-eq

debt_small : borrowed.1.market.total_borrow.elastic < 2 ^ 128
unfolding add_collateral open_deposit allowed_borrow put_collateral add_tokens get put borrow
    refresh update_exchange_rate accrue accrue_own get_debt_rate open_loan
    compute_variable_opening_fee compute_variable_opening_fee_view mint_fee
    compute_allowance_amount_in_asset compute_max_borrowable_amount get_ratio lend quotient_of
    require_solvent is_solvent
debt_small = omega arith

accrue_own_lem_example :
    (accrued.market.total_borrow.base ≡ borrowed.1.market.total_borrow.base)
    × (borrowed.1.market.total_borrow.elastic ≤ accrued.market.total_borrow.elastic)
    × (accrued.market.total_borrow.elastic < 2 ^ 128)
    × (accrued.open_interest_debt + borrowed.1.market.total_borrow.elastic
        ≡ borrowed.1.open_interest_debt + accrued.market.total_borrow.elastic)
    × (accrue_own sample (by "bob" 100000) accrued ≡ ok accrued)
accrue_own_lem_example =
    accrue_own_lem sample (by "bob" 100000) borrowed.1 accrued debt_small accrued-eq

rate_small : rate / 31557600 < 2 ^ 64
unfolding add_collateral open_deposit allowed_borrow put_collateral add_tokens get put borrow
    refresh update_exchange_rate accrue accrue_own get_debt_rate open_loan
    compute_variable_opening_fee compute_variable_opening_fee_view mint_fee
    compute_allowance_amount_in_asset compute_max_borrowable_amount get_ratio lend quotient_of
    require_solvent is_solvent
rate_small = omega arith

accrued_before : borrowed.1.accrue_info.last_accrued ≤ 100000
unfolding add_collateral open_deposit allowed_borrow put_collateral add_tokens get put borrow
    refresh update_exchange_rate accrue accrue_own get_debt_rate open_loan
    compute_variable_opening_fee compute_variable_opening_fee_view mint_fee
    compute_allowance_amount_in_asset compute_max_borrowable_amount get_ratio lend quotient_of
    require_solvent is_solvent
accrued_before = omega arith

interest_small : borrowed.1.open_interest_debt < 2 ^ 255
unfolding add_collateral open_deposit allowed_borrow put_collateral add_tokens get put borrow
    refresh update_exchange_rate accrue accrue_own get_debt_rate open_loan
    compute_variable_opening_fee compute_variable_opening_fee_view mint_fee
    compute_allowance_amount_in_asset compute_max_borrowable_amount get_ratio lend quotient_of
    require_solvent is_solvent
interest_small = omega arith

accrue-IsOk_example : IsOk (accrue sample (by "bob" 100000) borrowed.1)
accrue-IsOk_example =
    accrue-IsOk sample (by "bob" 100000) borrowed.1 "0xE7" borrowed.1.outside rate refl refl rate-eq
      rate_small accrued_before (omega arith) debt_small interest_small

abbrev fee_at : ℕ → ℕ
fee_at price = value_or 0 (compute_variable_opening_fee_view fresh coin price)

fee-eq : compute_variable_opening_fee_view fresh coin (99 * 10 ^ 16) ≡ ok (fee_at (99 * 10 ^ 16))
unfolding compute_variable_opening_fee_view mint_fee
fee-eq = refl
