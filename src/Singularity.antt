-- ===== src/Singularity.antt =====
-- contracts/markets/singularity: the storage of a Singularity market (SGLStorage.sol), the interest
-- of SGLInterestHelper.sol and its accrual (SGLCommon.sol). The interest helper that is set is
-- SGLInterestHelper; the state of the contracts outside the market stands beside the storage.
pub mod Lending
pub mod Operations
pub mod Assets
pub mod Owner
pub mod Liquidation
pub mod Initialise
pub mod Funds
pub mod Steps
pub mod Books
pub mod Reach
pub mod Interest
pub mod Shares
pub mod Solvency
pub mod Limits
pub mod Scenario
pub mod Examples
use tapioca_bar.Prelude.{
  ℕ, String, Bool, true, false, List, ◌+◌, ◌^◌, Result, ok, err, ◌>>=◌, ◌>>◌, leb, ltb,
  if◌then◌else◌, ◌==◌, ◌===◌, not, ◌||◌, add, sub, mul, div, mul_div, fit, to_uint_128, to_uint_64,
}
use tapioca_bar.Penrose.{require, zero_address}
use tapioca_bar.Market.{Rebase, Market, PauseType, fee_precision}
use tapioca_bar.Market.Outside.{Outside, Call}

-- `ISingularity.AccrueInfo`
pub record AccrueInfo : Type 0 where
  pub interest_per_second : ℕ
  pub last_accrued : ℕ
  pub fees_earned_fraction : ℕ

-- The storage of `SGLStorage` over that of `Market`, the balances of `MarketERC20`, and the state
-- outside. `total_asset.elastic` counts YieldBox shares, its base the fractions of the lenders.
pub record Singularity (W : Type 0) : Type 0 where
  pub market : Market
  pub penrose : String
  pub balance_of : List (String × ℕ)
  pub accrue_info : AccrueInfo
  pub total_asset : Rebase
  pub minimum_target_utilization : ℕ
  pub maximum_target_utilization : ℕ
  pub minimum_interest_per_second : ℕ
  pub maximum_interest_per_second : ℕ
  pub interest_elasticity : ℕ
  pub starting_interest_per_second : ℕ
  pub borrow_opening_fee : ℕ
  pub interest_helper : String
  pub min_lend_amount : ℕ
  pub outside : W

-- `InterestRateCall`
pub record InterestRateCall : Type 0 where
  pub accrue_info : AccrueInfo
  pub asset_id : ℕ
  pub total_asset : Rebase
  pub total_borrow : Rebase
  pub protocol_fee : ℕ
  pub interest_elasticity : ℕ
  pub minimum_target_utilization : ℕ
  pub maximum_target_utilization : ℕ
  pub minimum_interest_per_second : ℕ
  pub maximum_interest_per_second : ℕ
  pub starting_interest_per_second : ℕ

-- What `getInterestRate` returns.
pub record InterestRate : Type 0 where
  pub accrue_info : AccrueInfo
  pub total_borrow : Rebase
  pub total_asset : Rebase
  pub extra_amount : ℕ
  pub fee_fraction : ℕ
  pub utilization : ℕ

abbrev pub full_utilization : ℕ
full_utilization = 1000000000000000000

unfoldable pub utilization_of : ℕ → ℕ → Result ℕ
utilization_of elastic full_asset_amount =
    if full_asset_amount == 0 then ok 0 else mul_div elastic full_utilization full_asset_amount

-- The elasticity and the square of a factor over the time that passed.
unfoldable pub scale_of : ℕ → ℕ → ℕ → Result ℕ
scale_of elasticity factor elapsed = do
  square ← mul factor factor
  grown ← mul square elapsed
  add elasticity grown

-- The rate per second once the utilization is compared with its targets.
unfoldable pub next_rate : InterestRateCall → ℕ → ℕ → ℕ → Result ℕ
next_rate call rate utilization elapsed =
    if ltb utilization call.minimum_target_utilization
    then (do
      gap ← sub call.minimum_target_utilization utilization
      under_factor ← mul_div gap (10 ^ 18) call.minimum_target_utilization
      scale ← scale_of call.interest_elasticity under_factor elapsed
      lowered ← mul_div rate call.interest_elasticity scale
      rate_64 ← to_uint_64 lowered
      ok (
          if ltb rate_64 call.minimum_interest_per_second
          then call.minimum_interest_per_second
          else rate_64))
    else if ltb call.maximum_target_utilization utilization
    then (do
      gap ← sub utilization call.maximum_target_utilization
      room ← sub full_utilization call.maximum_target_utilization
      over_factor ← mul_div gap (10 ^ 18) room
      scale ← scale_of call.interest_elasticity over_factor elapsed
      raised ← mul_div rate scale call.interest_elasticity
      to_uint_64 (
          if ltb call.maximum_interest_per_second raised
          then call.maximum_interest_per_second
          else raised))
    else ok rate

module _ {W : Type 0} (o : Outside W) (c : Call) where
  -- The interest on the debt and the fee on it, before the rate is updated.
  unfoldable pub add_interest : InterestRateCall → ℕ → W → Result InterestRate
  add_interest call elapsed w = do
    product ← mul call.total_borrow.elastic call.accrue_info.interest_per_second
    extra_amount ← mul_div product elapsed (10 ^ 18)
    extra_128 ← to_uint_128 extra_amount
    elastic ← fit 128 (call.total_borrow.elastic + extra_128)
    held ← o.to_amount w call.asset_id call.total_asset.elastic false
    full_asset_amount ← add held elastic
    fee_amount ← mul_div extra_amount call.protocol_fee fee_precision
    others ← sub full_asset_amount fee_amount
    fee_fraction ← mul_div fee_amount call.total_asset.base others
    fraction_128 ← to_uint_128 fee_fraction
    fees ← fit 128 (call.accrue_info.fees_earned_fraction + fraction_128)
    base ← fit 128 (call.total_asset.base + fraction_128)
    utilization ← utilization_of elastic full_asset_amount
    ok (record {
      accrue_info = record call.accrue_info { fees_earned_fraction = fees };
      total_borrow = record { elastic = elastic; base = call.total_borrow.base };
      total_asset = record { elastic = call.total_asset.elastic; base = base };
      extra_amount = extra_amount;
      fee_fraction = fee_fraction;
      utilization = utilization;
    })

  -- The interest, and the rate that follows from the utilization it leaves.
  unfoldable pub charge : InterestRateCall → ℕ → ℕ → W → Result InterestRate
  charge call elapsed last_accrued w = do
    r ← add_interest call elapsed w
    rate ← next_rate call call.accrue_info.interest_per_second r.utilization elapsed
    ok (record r {
      accrue_info = record r.accrue_info {
        interest_per_second = rate;
        last_accrued = last_accrued;
      };
    })

  -- `getInterestRate` of `SGLInterestHelper`
  unfoldable pub interest_rate : InterestRateCall → W → Result InterestRate
  interest_rate call w = do
    held ← o.to_amount w call.asset_id call.total_asset.elastic false
    full_asset_amount ← add held call.total_borrow.elastic
    utilization ← utilization_of call.total_borrow.elastic full_asset_amount
    elapsed ← sub c.timestamp call.accrue_info.last_accrued
    let unchanged : InterestRate = record {
      accrue_info = call.accrue_info;
      total_borrow = call.total_borrow;
      total_asset = call.total_asset;
      extra_amount = 0;
      fee_fraction = 0;
      utilization = utilization;
    }
    if elapsed == 0 then ok unchanged else do
      last_accrued ← to_uint_64 c.timestamp
      if call.total_borrow.base == 0
          then ok (record unchanged {
            accrue_info = record call.accrue_info {
              interest_per_second = call.starting_interest_per_second;
              last_accrued = last_accrued;
            };
          })
          else charge call elapsed last_accrued w

  abbrev pub rate_call : Singularity W → InterestRateCall
  rate_call s = record {
    accrue_info = s.accrue_info;
    asset_id = s.market.asset_id;
    total_asset = s.total_asset;
    total_borrow = s.market.total_borrow;
    protocol_fee = s.market.protocol_fee;
    interest_elasticity = s.interest_elasticity;
    minimum_target_utilization = s.minimum_target_utilization;
    maximum_target_utilization = s.maximum_target_utilization;
    minimum_interest_per_second = s.minimum_interest_per_second;
    maximum_interest_per_second = s.maximum_interest_per_second;
    starting_interest_per_second = s.starting_interest_per_second;
  }

  -- `_getInterestRate`: a call of the zero address, where there is no helper, reverts.
  unfoldable pub get_interest_rate : Singularity W → Result InterestRate
  get_interest_rate s = do
    require (not (s.interest_helper === zero_address)) "no code"
    interest_rate (rate_call s) s.outside

  -- `_accrue`
  unfoldable pub accrue : Singularity W → Result (Singularity W)
  accrue s = do
    r ← get_interest_rate s
    ok (record s {
      market = record s.market { total_borrow = r.total_borrow };
      accrue_info = r.accrue_info;
      total_asset = r.total_asset;
    })

  -- The external `accrue`
  unfoldable pub accrue_external : Singularity W → Result (Singularity W)
  accrue_external s = do
    require
        (not (
          s.market.pause_options PauseType.add_collateral
          || s.market.pause_options PauseType.remove_collateral))
        "AccruePaused"
    accrue s

  -- `_addTokens`
  unfoldable pub add_tokens : String → ℕ → ℕ → ℕ → Bool → W → Result W
  add_tokens from id share all skim w =
      if skim
      then (do
        balance ← o.balance_of w c.address_this id
        free ← sub balance all
        require (leb share free) "TransferFailed"
        ok w)
      else do
        sent ← o.transfer_from_erc1155 from c.address_this id share w
        require (not sent.0) "TransferFailed"
        ok sent.1
