-- ===== src/BigBang/Lending.antt =====
-- contracts/markets/bigBang/BBLendingCommon.sol: the concrete implementations of the user's
-- operations.
use tapioca_bar.Prelude.{
  ℕ, String, Bool, true, false, Result, ok, ◌>>=◌, ◌>>◌, ltb, if◌then◌else◌, ◌==◌, ◌===◌, not, ◌&&◌,
  get, put, add, sub,
}
use tapioca_bar.Penrose.{require}
use tapioca_bar.Market.Outside.{Outside, Call}
use tapioca_bar.Market.Views.{compute_allowance_amount_in_asset}
use tapioca_bar.Market.Allowances.{allowed_lend}
use tapioca_bar.BigBang.{BigBang, add_tokens}

module _ {W : Type 0} (o : Outside W) (c : Call) where
  -- `_addCollateral`
  unfoldable pub put_collateral :
      String → String → Bool → ℕ → ℕ → Bool → BigBang W → Result (BigBang W)
  put_collateral from to skim amount given_share with_tokens s = do
    share ←
        (if given_share == 0
          then o.to_share s.outside s.market.collateral_id amount false
          else ok given_share)
    user_share ← add (get s.market.user_collateral_share to) share
    all ← add s.market.total_collateral_share share
    let t = record s {
      market = record s.market {
        user_collateral_share = put s.market.user_collateral_share to user_share;
        total_collateral_share = all;
      };
    }
    if with_tokens
        then add_tokens o c from s.market.collateral_id share s.market.total_collateral_share skim t
        else ok t

  -- `_removeCollateral`
  unfoldable pub take_collateral : String → String → ℕ → BigBang W → Result (BigBang W)
  take_collateral from to share s = do
    user_share ← sub (get s.market.user_collateral_share from) share
    all ← sub s.market.total_collateral_share share
    outside ← o.transfer c.address_this to s.market.collateral_id share s.outside
    ok (record s {
      market = record s.market {
        user_collateral_share = put s.market.user_collateral_share from user_share;
        total_collateral_share = all;
      };
      outside = outside;
    })

  -- `_borrow`, which yields the part and the share.
  unfoldable pub lend : String → String → ℕ → ℕ → BigBang W → Result ((ℕ × ℕ) × BigBang W)
  lend from to amount fee_amount s = do
    owed ← add amount fee_amount
    added ← o.rebase_add s.market.total_borrow owed true
    require (not (ltb 0 s.market.total_borrow_cap && ltb s.market.total_borrow_cap added.0.elastic))
        "BorrowCapReached"
    user_part ← add (get s.market.user_borrow_part from) added.1
    minted ← o.mint c.address_this amount s.outside
    deposited ← o.deposit_asset s.market.asset_id c.address_this to amount 0 minted
    ok (
      (added.1, deposited.0),
      record s {
        market = record s.market {
          total_borrow = added.0;
          user_borrow_part = put s.market.user_borrow_part from user_part;
        };
        outside = deposited.1;
      },
    )

  -- The allowance that a sender other than the payer spends in `_repay`.
  unfoldable pub spend_allowance : String → String → ℕ → BigBang W → Result (BigBang W)
  spend_allowance from to part s = if from === c.sender then ok s else do
    reduced ← o.rebase_sub s.market.total_borrow part true
    decimals ← o.asset_decimals s.outside
    share ←
        compute_allowance_amount_in_asset o s.market s.outside to s.market.exchange_rate reduced.1
          decimals
    require (not (share == 0)) "NotEnough"
    market ← allowed_lend o c from share s.market s.outside
    ok (record s { market = market })

  -- The burn of what the payer's shares yield.
  unfoldable pub collect : String → ℕ → BigBang W → Result (BigBang W)
  collect from amount s = do
    share ← o.to_share s.outside s.market.asset_id amount false
    sent ← o.transfer_from_erc1155 from c.address_this s.market.asset_id share s.outside
    require (not sent.0) "TransferFailed"
    withdrawn ← o.withdraw s.market.asset_id c.address_this c.address_this 0 share sent.1
    burnt ← o.burn c.address_this withdrawn.0 withdrawn.1
    ok (record s { outside = burnt })

  -- `_repay`, which yields the amount.
  unfoldable pub settle : String → String → ℕ → Bool → BigBang W → Result (ℕ × BigBang W)
  settle from to given_part check_allowance s = do
    let part =
        if ltb (get s.market.user_borrow_part to) given_part
        then get s.market.user_borrow_part to
        else given_part
    require (not (part == 0)) "NothingToRepay"
    t ← (if check_allowance then spend_allowance from to part s else ok s)
    reduced ← o.rebase_sub t.market.total_borrow part true
    user_part ← sub (get t.market.user_borrow_part to) part
    u ← collect from reduced.1 (record t {
      market = record t.market {
        total_borrow = reduced.0;
        user_borrow_part = put t.market.user_borrow_part to user_part;
      };
    })
    ok (reduced.1, u)
