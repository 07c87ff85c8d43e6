-- ===== src/Singularity/Assets.antt =====
-- The lender's side of a Singularity market: addAsset and removeAsset of
-- contracts/markets/singularity/Singularity.sol, and the fractions as the ERC20 token of
-- contracts/markets/MarketERC20.sol.
use tapioca_bar.Prelude.{
  ℕ, String, Bool, true, false, ◌+◌, ◌^◌, ◌-◌, Result, ok, ◌>>=◌, ◌>>◌, leb, ltb, if◌then◌else◌,
  ◌==◌, ◌===◌, not, ◌||◌, get, put, add, sub, mul_div, fit, to_uint_128,
}
use tapioca_bar.Penrose.{require, zero_address}
use tapioca_bar.Market.{PauseType}
use tapioca_bar.Market.Outside.{Outside, Call}
use tapioca_bar.Market.Allowances.{allowed_lend, write}
use tapioca_bar.Singularity.{Singularity, accrue, add_tokens}
use tapioca_bar.Singularity.Operations.{option_not_paused}

module _ {W : Type 0} (o : Outside W) (c : Call) where
  -- `_addAsset`, which yields the fraction.
  unfoldable pub put_asset : String → String → Bool → ℕ → Singularity W → Result (ℕ × Singularity W)
  put_asset from to skim share s = do
    borrowed_share ← o.to_share s.outside s.market.asset_id s.market.total_borrow.elastic true
    all_share ← add s.total_asset.elastic borrowed_share
    fraction ← (if all_share == 0 then ok share else mul_div share s.total_asset.base all_share)
    fraction_128 ← to_uint_128 fraction
    base ← fit 128 (s.total_asset.base + fraction_128)
    if ltb base 1000 then ok (0, s) else do
      total_asset ← o.rebase_add_both s.total_asset share fraction
      balance ← add (get s.balance_of to) fraction
      outside ← add_tokens o c from s.market.asset_id share s.total_asset.elastic skim s.outside
      ok (
        fraction,
        record s {
          total_asset = total_asset;
          balance_of = put s.balance_of to balance;
          outside = outside;
        },
      )

  -- `_removeAsset`, which yields the share.
  unfoldable pub take_asset : String → String → ℕ → Singularity W → Result (ℕ × Singularity W)
  take_asset from to fraction s = if s.total_asset.base == 0 then ok (0, s) else do
    borrowed_share ← o.to_share s.outside s.market.asset_id s.market.total_borrow.elastic false
    all_share ← add s.total_asset.elastic borrowed_share
    share ← mul_div fraction all_share s.total_asset.base
    fraction_128 ← to_uint_128 fraction
    base ← sub s.total_asset.base fraction_128
    require (not (ltb base 1000)) "MinLimit"
    balance ← sub (get s.balance_of from) fraction
    share_128 ← to_uint_128 share
    elastic ← sub s.total_asset.elastic share_128
    outside ← o.transfer c.address_this to s.market.asset_id share s.outside
    ok (
      share,
      record s {
        total_asset = record { elastic = elastic; base = base };
        balance_of = put s.balance_of from balance;
        outside = outside;
      },
    )

  unfoldable pub add_asset : String → String → Bool → ℕ → Singularity W → Result (ℕ × Singularity W)
  add_asset from to skim share s = do
    option_not_paused PauseType.add_asset s
    market ← allowed_lend o c from share s.market s.outside
    amount ← o.to_amount s.outside s.market.asset_id share false
    require (not (leb amount s.min_lend_amount)) "MinLendAmountNotMet"
    t ← accrue o c (record s { market = market })
    put_asset from to skim share t

  unfoldable pub remove_asset : String → String → ℕ → Singularity W → Result (ℕ × Singularity W)
  remove_asset from to fraction s = do
    option_not_paused PauseType.remove_asset s
    t ← accrue o c s
    taken ← take_asset from to fraction t
    market ← allowed_lend o c from taken.0 taken.1.market taken.1.outside
    ok (taken.0, record taken.1 { market = market })

  -- The move of a balance that `transfer` and `transferFrom` share.
  unfoldable pub move : String → String → ℕ → Singularity W → Result (Singularity W)
  move from to amount s = do
    require (not (to === zero_address)) "ERC20: no zero address"
    let reduced = put s.balance_of from (get s.balance_of from - amount)
    balance ← add (get reduced to) amount
    ok (record s { balance_of = put reduced to balance })

  -- `transfer` of `MarketERC20`
  unfoldable pub transfer : String → ℕ → Singularity W → Result (Singularity W)
  transfer to amount s =
      if not (amount == 0) || c.sender === to
      then (do
        require (leb amount (get s.balance_of c.sender)) "ERC20: balance too low"
        if not (c.sender === to) then move c.sender to amount s else ok s)
      else ok s

  -- The allowance that `transferFrom` spends, unless it is infinite.
  unfoldable pub spend_token_allowance : String → ℕ → Singularity W → Result (Singularity W)
  spend_token_allowance from amount s =
      let allowed = s.market.allowance from c.sender in
      if allowed == 2 ^ 256 - 1 then ok s else do
        require (leb amount allowed) "ERC20: allowance too low"
        ok (record s {
          market = record s.market {
            allowance = write s.market.allowance from c.sender (allowed - amount);
          };
        })

  -- `transferFrom` of `MarketERC20`
  unfoldable pub transfer_from : String → String → ℕ → Singularity W → Result (Singularity W)
  transfer_from from to amount s =
      if not (amount == 0)
      then (do
        require (leb amount (get s.balance_of from)) "ERC20: balance too low"
        if not (from === to)
            then (do t ← spend_token_allowance from amount s; move from to amount t)
            else ok s)
      else ok s

  -- `approve` and `approveBorrow`
  unfoldable pub approve : String → ℕ → Singularity W → Singularity W
  approve spender amount s = record s {
    market = record s.market { allowance = write s.market.allowance c.sender spender amount };
  }

  unfoldable pub approve_borrow : String → ℕ → Singularity W → Singularity W
  approve_borrow spender amount s = record s {
    market = record s.market {
      allowance_borrow = write s.market.allowance_borrow c.sender spender amount;
    };
  }
