-- ===== src/Singularity/Operations.antt =====
-- contracts/markets/singularity/SGLBorrow.sol and SGLCollateral.sol: the operations of a borrower,
-- with the modifiers of contracts/markets/Market.sol in their order.
use tapioca_bar.Prelude.{
  ℕ, String, Bool, true, false, Result, ok, ◌>>=◌, ◌>>◌, leb, if◌then◌else◌, ◌==◌, ◌===◌, not, add,
  mul_div,
}
use tapioca_bar.Penrose.{require}
use tapioca_bar.Market.{PauseType, fee_precision}
use tapioca_bar.Market.Outside.{Outside, Call}
use tapioca_bar.Market.Views.{
  compute_allowance_amount_in_asset, is_solvent, update_exchange_rate, try_update_exchange_rate,
}
use tapioca_bar.Market.Allowances.{allowed_borrow}
use tapioca_bar.Singularity.{Singularity, accrue}
use tapioca_bar.Singularity.Lending.{put_collateral, take_collateral, lend, settle}

-- `optionNotPaused`
abbrev pub option_not_paused : {W : Type 0} → PauseType → Singularity W → Result (Unit {0})
option_not_paused kind s = require (not (s.market.pause_options kind)) "Market: paused"

module _ {W : Type 0} (o : Outside W) (c : Call) where
  -- `notSelf`
  abbrev not_self : String → Result (Unit {0})
  not_self destination =
      require (not (destination === c.address_this)) "Market: cannot execute on itself"

  -- What `solvent` does before the body.
  unfoldable pub refresh : Singularity W → Result (Singularity W)
  refresh s = do
    updated ← update_exchange_rate o c s.market s.outside
    accrue o c (record s { market = updated.0; outside = updated.1 })

  -- What `solvent` asks after the body.
  unfoldable pub require_solvent : String → Singularity W → Result (Unit {0})
  require_solvent from s = do
    solvent ← is_solvent o s.market s.outside from s.market.exchange_rate false
    require solvent "Market: insolvent"

  -- `_tryUpdateExchangeRate` and `_accrue`
  unfoldable pub try_refresh : Singularity W → Result (Singularity W)
  try_refresh s = do
    updated ← try_update_exchange_rate o c s.market s.outside
    accrue o c (record s { market = updated.0; outside = updated.1 })

  -- The body of `borrow` before `_borrow`.
  unfoldable pub open_loan : String → ℕ → Singularity W → Result (Singularity W)
  open_loan from amount s = do
    require (not (leb amount s.market.min_borrow_amount)) "MinBorrowAmountNotMet"
    fee_amount ← mul_div amount s.borrow_opening_fee fee_precision
    decimals ← o.asset_decimals s.outside
    owed ← add amount fee_amount
    share ←
        compute_allowance_amount_in_asset o s.market s.outside from s.market.exchange_rate owed
          decimals
    market ← allowed_borrow o c from share s.market s.outside
    ok (record s { market = market })

  unfoldable pub borrow : String → String → ℕ → Singularity W → Result ((ℕ × ℕ) × Singularity W)
  borrow from to amount s = do
    option_not_paused PauseType.borrow s
    t ← refresh s
    not_self to
    opened ← open_loan from amount t
    u ← lend o c from to amount opened
    require_solvent from u.1
    ok u

  unfoldable pub repay : String → String → Bool → ℕ → Singularity W → Result (ℕ × Singularity W)
  repay from to skim part s = do
    option_not_paused PauseType.repay s
    not_self to
    t ← try_refresh s
    settle o c from to skim part true t

  -- The body of `addCollateral` before `_addCollateral`: the amount and the share, and the state
  -- once the allowance is spent.
  unfoldable pub open_deposit : String → ℕ → ℕ → Singularity W → Result ((ℕ × ℕ) × Singularity W)
  open_deposit from given_amount given_share s = do
    share ←
        (if given_share == 0
          then o.to_share s.outside s.market.collateral_id given_amount false
          else ok given_share)
    amount ←
        (if given_amount == 0
          then o.to_amount s.outside s.market.collateral_id share false
          else ok given_amount)
    require (not (leb amount s.market.min_collateral_amount)) "MinCollateralAmountNotMet"
    market ← allowed_borrow o c from share s.market s.outside
    ok ((amount, share), record s { market = market })

  unfoldable pub add_collateral :
      String → String → Bool → ℕ → ℕ → Singularity W → Result (Singularity W)
  add_collateral from to skim amount share s = do
    option_not_paused PauseType.add_collateral s
    not_self to
    opened ← open_deposit from amount share s
    put_collateral o c from to skim opened.0.0 opened.0.1 true opened.1

  -- The modifiers of `removeCollateral` before its body.
  unfoldable pub open_removal : String → String → ℕ → Singularity W → Result (Singularity W)
  open_removal from to share s = do
    option_not_paused PauseType.remove_collateral s
    t ← refresh s
    market ← allowed_borrow o c from share t.market t.outside
    not_self to
    ok (record t { market = market })

  unfoldable pub remove_collateral : String → String → ℕ → Singularity W → Result (Singularity W)
  remove_collateral from to share s = do
    t ← open_removal from to share s
    u ← take_collateral o c from to share t
    require_solvent from u
    ok u
