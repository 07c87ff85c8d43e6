-- ===== src/Singularity/Lending.antt =====
-- contracts/markets/singularity/SGLLendingCommon.sol: the concrete implementations of the
-- borrower's operations.
use tapioca_bar.Prelude.{
  ℕ, String, Bool, true, false, ◌+◌, Result, ok, ◌>>=◌, ◌>>◌, ltb, if◌then◌else◌, ◌==◌, ◌===◌, not,
  ◌&&◌, get, put, add, sub, mul_div, fit, to_uint_128,
}
use tapioca_bar.Penrose.{require}
use tapioca_bar.Market.{fee_precision}
use tapioca_bar.Market.Outside.{Outside, Call}
use tapioca_bar.Market.Views.{compute_allowance_amount_in_asset}
use tapioca_bar.Market.Allowances.{allowed_lend}
use tapioca_bar.Singularity.{Singularity, add_tokens}

module _ {W : Type 0} (o : Outside W) (c : Call) where
  -- `_addCollateral`
  unfoldable pub put_collateral :
      String → String → Bool → ℕ → ℕ → Bool → Singularity W → Result (Singularity W)
  put_collateral from to skim amount given_share with_tokens s = do
    share ←
        (if given_share == 0
          then o.to_share s.outside s.market.collateral_id amount false
          else ok given_share)
    user_share ← add (get s.market.user_collateral_share to) share
    all ← add s.market.total_collateral_share share
    outside ←
        (if with_tokens
          then add_tokens o c from s.market.collateral_id share s.market.total_collateral_share skim
              s.outside
          else ok s.outside)
    ok (record s {
      market = record s.market {
        user_collateral_share = put s.market.user_collateral_share to user_share;
        total_collateral_share = all;
      };
      outside = outside;
    })

  -- `_removeCollateral`
  unfoldable pub take_collateral : String → String → ℕ → Singularity W → Result (Singularity W)
  take_collateral from to share s = do
    user_share ← sub (get s.market.user_collateral_share from) share
    all ← sub s.market.total_collateral_share share
    outside ← o.transfer c.address_this to s.market.collateral_id share s.outside
    ok (record s {
      market = record s.market {
        user_collateral_share = put s.market.user_collateral_share from user_share;
        total_collateral_share = all;
      };
      outside = outside;
    })

  -- The opening fee as a fraction that Penrose receives, over the assets before the loan.
  unfoldable pub credit_fee : ℕ → ℕ → Singularity W → Result (Singularity W)
  credit_fee fee_amount full_asset_amount s =
      if ltb 0 fee_amount
      then (do
        fee_fraction ← mul_div fee_amount s.total_asset.base full_asset_amount
        fraction_128 ← to_uint_128 fee_fraction
        base ← fit 128 (s.total_asset.base + fraction_128)
        balance ← add (get s.balance_of s.penrose) fee_fraction
        ok (record s {
          total_asset = record s.total_asset { base = base };
          balance_of = put s.balance_of s.penrose balance;
        }))
      else ok s

  -- The debt that `_borrow` writes for shares that leave: the part, the fee and the assets before the
  -- loan.
  unfoldable pub draw : String → ℕ → ℕ → Singularity W → Result ((ℕ × ℕ × ℕ) × Singularity W)
  draw from amount share s = do
    require (not (ltb s.total_asset.base 1000)) "MinLimit"
    held ← o.to_amount s.outside s.market.asset_id s.total_asset.elastic false
    full_asset_amount ← add held s.market.total_borrow.elastic
    share_128 ← to_uint_128 share
    elastic ← sub s.total_asset.elastic share_128
    fee_amount ← mul_div amount s.borrow_opening_fee fee_precision
    owed ← add amount fee_amount
    added ← o.rebase_add s.market.total_borrow owed true
    require (not (ltb 0 s.market.total_borrow_cap && ltb s.market.total_borrow_cap added.0.elastic))
        "BorrowCapReached"
    user_part ← add (get s.market.user_borrow_part from) added.1
    ok (
      (added.1, fee_amount, full_asset_amount),
      record s {
        market = record s.market {
          total_borrow = added.0;
          user_borrow_part = put s.market.user_borrow_part from user_part;
        };
        total_asset = record s.total_asset { elastic = elastic };
      },
    )

  -- `_borrow`, which yields the part and the share.
  unfoldable pub lend : String → String → ℕ → Singularity W → Result ((ℕ × ℕ) × Singularity W)
  lend from to amount s = do
    share ← o.to_share s.outside s.market.asset_id amount true
    drawn ← draw from amount share s
    t ← credit_fee drawn.0.1 drawn.0.2 drawn.1
    outside ← o.transfer c.address_this to s.market.asset_id share s.outside
    ok ((drawn.0.0, share), record t { outside = outside })

  -- The allowance that a sender other than the payer spends in `_repay`.
  unfoldable pub spend_allowance : String → String → ℕ → Singularity W → Result (Singularity W)
  spend_allowance from to part s = if from === c.sender then ok s else do
    reduced ← o.rebase_sub s.market.total_borrow part true
    decimals ← o.asset_decimals s.outside
    share ←
        compute_allowance_amount_in_asset o s.market s.outside to s.market.exchange_rate reduced.1
          decimals
    require (not (share == 0)) "NotEnough"
    market ← allowed_lend o c from share s.market s.outside
    ok (record s { market = market })

  -- `_repay`, which yields the amount.
  unfoldable pub settle :
      String → String → Bool → ℕ → Bool → Singularity W → Result (ℕ × Singularity W)
  settle from to skim given_part check_allowance s = do
    let part =
        if ltb (get s.market.user_borrow_part to) given_part
        then get s.market.user_borrow_part to
        else given_part
    require (not (part == 0)) "NothingToRepay"
    t ← (if check_allowance then spend_allowance from to part s else ok s)
    reduced ← o.rebase_sub t.market.total_borrow part true
    user_part ← sub (get t.market.user_borrow_part to) part
    share ← o.to_share t.outside t.market.asset_id reduced.1 true
    outside ← add_tokens o c from t.market.asset_id share t.total_asset.elastic skim t.outside
    share_128 ← to_uint_128 share
    elastic ← fit 128 (t.total_asset.elastic + share_128)
    ok (
      reduced.1,
      record t {
        market = record t.market {
          total_borrow = reduced.0;
          user_borrow_part = put t.market.user_borrow_part to user_part;
        };
        total_asset = record t.total_asset { elastic = elastic };
        outside = outside;
      },
    )
