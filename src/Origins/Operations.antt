-- ===== src/Origins/Operations.antt =====
-- contracts/markets/origins/Origins.sol: the operations of a participant, with the modifiers of
-- contracts/markets/Market.sol in their order. The market accrues nothing.
use tapioca_bar.Prelude.{
  ℕ, String, true, false, Result, ok, ◌>>=◌, ◌>>◌, leb, ltb, if◌then◌else◌, ◌==◌, not, ◌&&◌, get,
  put, add, sub,
}
use tapioca_bar.Penrose.{require}
use tapioca_bar.Market.{PauseType}
use tapioca_bar.Market.Outside.{Outside, Call}
use tapioca_bar.Market.Views.{is_solvent, update_exchange_rate}
use tapioca_bar.Origins.{Origins}

-- `optionNotPaused`
abbrev pub option_not_paused : {W : Type 0} → PauseType → Origins W → Result (Unit {0})
option_not_paused kind s = require (not (s.market.pause_options kind)) "Market: paused"

module _ {W : Type 0} (o : Outside W) (c : Call) where
  -- `if (!allowedParticipants[msg.sender]) revert NotAuthorized();`
  abbrev pub only_participant : Origins W → Result (Unit {0})
  only_participant s = require (s.allowed_participants c.sender) "NotAuthorized"

  -- `_addCollateral`
  unfoldable pub put_collateral : String → String → ℕ → ℕ → Origins W → Result (Origins W)
  put_collateral from to amount given_share s = do
    share ←
        (if given_share == 0
          then o.to_share s.outside s.market.collateral_id amount false
          else ok given_share)
    user_share ← add (get s.market.user_collateral_share to) share
    all ← add s.market.total_collateral_share share
    outside ← o.transfer from c.address_this s.market.collateral_id share s.outside
    ok (record s {
      market = record s.market {
        user_collateral_share = put s.market.user_collateral_share to user_share;
        total_collateral_share = all;
      };
      outside = outside;
    })

  -- `_removeCollateral`
  unfoldable pub take_collateral : String → String → ℕ → Origins W → Result (Origins W)
  take_collateral from to share s = do
    user_share ← sub (get s.market.user_collateral_share from) share
    all ← sub s.market.total_collateral_share share
    outside ← o.transfer c.address_this to s.market.collateral_id share s.outside
    ok (record s {
      market = record s.market {
        user_collateral_share = put s.market.user_collateral_share from user_share;
        total_collateral_share = all;
      };
      outside = outside;
    })

  -- `_borrow`, which yields the part and the share.
  unfoldable pub lend : String → String → ℕ → Origins W → Result ((ℕ × ℕ) × Origins W)
  lend from to amount s = do
    added ← o.rebase_add s.market.total_borrow amount true
    require (not (ltb 0 s.market.total_borrow_cap && ltb s.market.total_borrow_cap added.0.elastic))
        "BorrowCapReached"
    user_part ← add (get s.market.user_borrow_part from) added.1
    minted ← o.mint c.address_this amount s.outside
    deposited ← o.deposit_asset s.market.asset_id c.address_this to amount 0 minted
    ok (
      (added.1, deposited.0),
      record s {
        market = record s.market {
          total_borrow = added.0;
          user_borrow_part = put s.market.user_borrow_part from user_part;
        };
        outside = deposited.1;
      },
    )

  -- `_repay`, which yields the amount.
  unfoldable pub settle : String → String → ℕ → Origins W → Result (ℕ × Origins W)
  settle from to given_part s = do
    let part =
        if ltb (get s.market.user_borrow_part to) given_part
        then get s.market.user_borrow_part to
        else given_part
    require (not (part == 0)) "NothingToRepay"
    reduced ← o.rebase_sub s.market.total_borrow part true
    user_part ← sub (get s.market.user_borrow_part to) part
    withdrawn ← o.withdraw s.market.asset_id from c.address_this reduced.1 0 s.outside
    outside ← o.burn c.address_this reduced.1 withdrawn.1
    ok (
      reduced.1,
      record s {
        market = record s.market {
          total_borrow = reduced.0;
          user_borrow_part = put s.market.user_borrow_part to user_part;
        };
        outside = outside;
      },
    )

  -- `updateExchangeRate`, which `solvent` does before the body.
  unfoldable pub refresh : Origins W → Result (Origins W)
  refresh s = do
    updated ← update_exchange_rate o c s.market s.outside
    ok (record s { market = updated.0; outside = updated.1 })

  -- What `solvent` asks after the body.
  unfoldable pub require_solvent : Origins W → Result (Unit {0})
  require_solvent s = do
    solvent ← is_solvent o s.market s.outside c.sender s.market.exchange_rate false
    require solvent "Market: insolvent"

  unfoldable pub add_collateral : ℕ → ℕ → Origins W → Result (Origins W)
  add_collateral amount given_share s = do
    option_not_paused PauseType.add_collateral s
    only_participant s
    share ←
        (if given_share == 0
          then o.to_share s.outside s.market.collateral_id amount false
          else ok given_share)
    put_collateral c.sender c.sender amount share s

  unfoldable pub remove_collateral : ℕ → Origins W → Result (Origins W)
  remove_collateral share s = do
    option_not_paused PauseType.remove_collateral s
    t ← refresh s
    only_participant t
    u ← take_collateral c.sender c.sender share t
    require_solvent u
    ok u

  unfoldable pub borrow : ℕ → Origins W → Result ((ℕ × ℕ) × Origins W)
  borrow amount s = do
    option_not_paused PauseType.borrow s
    t ← refresh s
    only_participant t
    require (not (leb amount t.market.min_borrow_amount)) "MinBorrowAmountNotMet"
    u ← lend c.sender c.sender amount t
    require_solvent u.1
    ok u

  unfoldable pub repay : ℕ → Origins W → Result (ℕ × Origins W)
  repay part s = do
    option_not_paused PauseType.repay s
    only_participant s
    t ← refresh s
    settle c.sender c.sender part t
