-- ===== src/BigBang.antt =====
-- contracts/markets/bigBang: the storage of a BigBang market, its interest and its opening fee. The
-- state of the contracts outside the market stands beside the storage.
pub mod Lending
pub mod Operations
pub mod Liquidation
pub mod Owner
pub mod Initialise
pub mod InitExamples
pub mod Frame
pub mod Balance
pub mod Books
pub mod Reach
pub mod Solvency
pub mod RoundTrip
pub mod Accrual
pub mod Fees
pub mod Seizures
pub mod Pausing
pub mod Sample
pub mod Scenario
pub mod Examples
pub mod RateExamples
use tapioca_bar.Prelude.{
  ℕ, zero, suc, String, Bool, true, false, ◌^◌, ◌-◌, ◌+◌, ◌/◌, Result, ok, err, rejected, ◌>>=◌,
  ◌>>◌, leb, ltb, if◌then◌else◌, ◌==◌, ◌===◌, not, ◌&&◌, ◌||◌, get, put, add, sub, mul, div,
  mul_div, to_uint_128, to_uint_64,
}
use tapioca_bar.Penrose.{require, zero_address}
use tapioca_bar.Market.{Rebase, Market, PauseType, fee_precision}
use tapioca_bar.Market.Outside.{Outside, Call}

-- `IBigBang.AccrueInfo`
pub record AccrueInfo : Type 0 where
  pub debt_rate : ℕ
  pub last_accrued : ℕ

-- The storage of `BBStorage` over that of `Market`, and the state outside.
pub record BigBang (W : Type 0) : Type 0 where
  pub market : Market
  pub accrue_info : AccrueInfo
  pub is_main_market : Bool
  pub max_debt_rate : ℕ
  pub min_debt_rate : ℕ
  pub debt_rate_against_eth_market : ℕ
  pub debt_rate_helper : String
  pub asset_oracle_data : String
  pub min_mint_fee : ℕ
  pub max_mint_fee : ℕ
  pub max_mint_fee_start : ℕ
  pub min_mint_fee_start : ℕ
  pub open_interest_debt : ℕ
  pub outside : W

abbrev pub debt_precision : ℕ
debt_precision = 1000000000000000000

-- The `fee` of `_computeVariableOpeningFeeView` at a price of the asset.
unfoldable pub mint_fee : {W : Type 0} → BigBang W → ℕ → Result ℕ
mint_fee s rate =
    if leb s.min_mint_fee_start rate
    then ok s.min_mint_fee
    else if leb rate s.max_mint_fee_start
    then ok s.max_mint_fee
    else do
      above ← sub rate s.max_mint_fee_start
      range ← sub s.max_mint_fee s.min_mint_fee
      prices ← sub s.min_mint_fee_start s.max_mint_fee_start
      discount ← mul_div above range prices
      fee ← sub s.max_mint_fee discount
      ok (
          if ltb s.max_mint_fee fee
          then s.max_mint_fee
          else if ltb fee s.min_mint_fee
          then s.min_mint_fee
          else fee)

-- `_computeVariableOpeningFeeView`
unfoldable pub compute_variable_opening_fee_view : {W : Type 0} → BigBang W → ℕ → ℕ → Result ℕ
compute_variable_opening_fee_view s amount rate =
    if amount == 0
    then ok 0
    else do fee ← mint_fee s rate; if fee == 0 then ok 0 else mul_div amount fee fee_precision

module _ {W : Type 0} (o : Outside W) (c : Call) where
  -- `getDebtRate` of the market, which reverts without a helper, and of `BBDebtRateHelper`
  unfoldable pub get_debt_rate : BigBang W → Result ℕ
  get_debt_rate s =
      if s.debt_rate_helper === zero_address
      then err (rejected "no debt rate helper")
      else if s.is_main_market
      then o.big_bang_eth_debt_rate s.outside
      else if s.market.total_borrow.elastic == 0
      then ok s.min_debt_rate
      else do
        eth_market ← o.big_bang_eth_market s.outside
        eth_market_total_debt ← o.get_total_debt s.outside eth_market
        max_debt_point ← mul_div eth_market_total_debt s.debt_rate_against_eth_market (10 ^ 18)
        if leb max_debt_point s.market.total_borrow.elastic then ok s.max_debt_rate else do
          debt_percentage ← mul_div s.market.total_borrow.elastic debt_precision max_debt_point
          range ← sub s.max_debt_rate s.min_debt_rate
          above ← mul_div range debt_percentage debt_precision
          debt ← add above s.min_debt_rate
          ok (if ltb s.max_debt_rate debt then s.max_debt_rate else debt)

  -- The interest on `elastic` over `elapsed` seconds at a rate per second, capped so that the sum
  -- fits 128 bits.
  abbrev pub capped : ℕ → ℕ → ℕ → Result ℕ
  capped elastic rate elapsed = do
    product ← mul elastic rate
    extra ← mul_div product elapsed (10 ^ 18)
    max ← sub (2 ^ 128 - 1) elastic
    ok (if ltb max extra then max else extra)

  -- `_accrueView`
  unfoldable pub accrue_view : BigBang W → Result Rebase
  accrue_view s = do
    elapsed ← sub c.timestamp s.accrue_info.last_accrued
    if elapsed == 0 then ok s.market.total_borrow else do
      annum_debt_rate ← get_debt_rate s
      extra ← capped s.market.total_borrow.elastic (annum_debt_rate / 31557600) elapsed
      extra_128 ← to_uint_128 extra
      elastic ← to_uint_128 (s.market.total_borrow.elastic + extra_128)
      ok (record s.market.total_borrow { elastic = elastic })

  -- `_accrue`, from the state that the accrual of the ETH market leaves.
  unfoldable pub accrue_own : BigBang W → Result (BigBang W)
  accrue_own s = do
    elapsed ← sub c.timestamp s.accrue_info.last_accrued
    if elapsed == 0 then ok s else do
      annum_debt_rate ← get_debt_rate s
      debt_rate ← to_uint_64 (annum_debt_rate / 31557600)
      last_accrued ← to_uint_64 c.timestamp
      extra ← capped s.market.total_borrow.elastic debt_rate elapsed
      extra_128 ← to_uint_128 extra
      elastic ← to_uint_128 (s.market.total_borrow.elastic + extra_128)
      open_interest_debt ← add s.open_interest_debt extra
      ok (record s {
        market = record s.market {
          total_borrow = record s.market.total_borrow { elastic = elastic };
        };
        accrue_info = record { debt_rate = debt_rate; last_accrued = last_accrued };
        open_interest_debt = open_interest_debt;
      })

  -- `_accrue`
  unfoldable pub accrue : BigBang W → Result (BigBang W)
  accrue s = do
    eth_market ← o.big_bang_eth_market s.outside
    outside ←
        (if not (eth_market === c.address_this) && not (eth_market === zero_address)
          then o.accrue_market eth_market s.outside
          else ok s.outside)
    accrue_own (record s { outside = outside })

  -- The external `accrue`
  unfoldable pub accrue_external : BigBang W → Result (BigBang W)
  accrue_external s = do
    require
        (not (
          s.market.pause_options PauseType.add_collateral
          || s.market.pause_options PauseType.remove_collateral))
        "AccruePaused"
    accrue s

  -- `_computeVariableOpeningFee`, which hands the collateral oracle's data to the asset's oracle.
  unfoldable pub compute_variable_opening_fee : ℕ → BigBang W → Result (ℕ × BigBang W)
  compute_variable_opening_fee amount s = do
    answer ← o.asset_oracle_get s.market.oracle_data s.outside
    require answer.0.0 "OracleCallFailed"
    fee ← compute_variable_opening_fee_view s amount answer.0.1
    ok (fee, record s { outside = answer.1 })

  -- `_addTokens`
  unfoldable pub add_tokens : String → ℕ → ℕ → ℕ → Bool → BigBang W → Result (BigBang W)
  add_tokens from id share all skim s =
      if skim
      then (do
        balance ← o.balance_of s.outside c.address_this id
        free ← sub balance all
        require (leb share free) "BB: too much"
        ok s)
      else do
        sent ← o.transfer_from_erc1155 from c.address_this id share s.outside
        require (not sent.0) "TransferFailed"
        ok (record s { outside = sent.1 })
