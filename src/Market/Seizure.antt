-- ===== src/Market/Seizure.antt =====
-- What BBLiquidation.sol and SGLLiquidation.sol of contracts/markets have in common, in the same
-- words: the collateral and the part that a liquidation takes, the totals it writes, and the swap of
-- the collateral by the liquidator's receiver.
use tapioca_bar.Prelude.{
  ℕ, String, Bool, true, false, List, [], ◌∷◌, Result, ok, err, rejected, ◌>>=◌, ◌>>◌, leb, ltb,
  if◌then◌else◌, ◌==◌, not, ◌-◌, add, sub, mul_div, get, put, to_uint_128,
}
use tapioca_bar.Penrose.{require}
use tapioca_bar.Market.{Market, fee_precision, fee_precision_decimals}
use tapioca_bar.Market.Outside.{Outside, Call}
use tapioca_bar.Market.Views.{compute_closing_factor}

-- What a liquidation takes.
pub record Seizure : Type 0 where
  pub liquidated_amount : ℕ
  pub borrow_part : ℕ
  pub collateral_share : ℕ

-- One entry of the arrays of `liquidate`.
pub record Request : Type 0 where
  pub user : String
  pub max_borrow_part : ℕ
  pub min_liquidation_bonus : ℕ
  pub liquidator_receiver : String
  pub liquidator_receiver_data : String

-- The entries at each index. The bonuses are read at the indices of the users, so a shorter array
-- of them panics; the panic undoes the whole call, so it is raised before the loop.
unfoldable pub requests :
    List String → List ℕ → List ℕ → List String → List String → Result (List Request)
requests [] parts bonuses receivers datas = ok []
requests (user ∷ users) (part ∷ parts) (bonus ∷ bonuses) (receiver ∷ receivers) (bytes ∷ datas) = do
  rest ← requests users parts bonuses receivers datas
  ok (
      record {
        user = user;
        max_borrow_part = part;
        min_liquidation_bonus = bonus;
        liquidator_receiver = receiver;
        liquidator_receiver_data = bytes;
      }
      ∷ rest)
requests (user ∷ users) _ _ _ _ = err (rejected "Panic(0x32)")

abbrev pub plus_bonus : ℕ → ℕ → Result ℕ
plus_bonus amount rate = do bonus ← mul_div amount rate fee_precision; add amount bonus

-- The totals that `_liquidateUser` writes.
unfoldable pub write_totals : Seizure → Market → Result Market
write_totals taken m = do
  amount_128 ← to_uint_128 taken.liquidated_amount
  elastic ← sub m.total_borrow.elastic amount_128
  part_128 ← to_uint_128 taken.borrow_part
  base ← sub m.total_borrow.base part_128
  ok (record m {
    total_collateral_share =
        (if ltb taken.collateral_share m.total_collateral_share
          then m.total_collateral_share - taken.collateral_share
          else 0);
    total_borrow = record { elastic = elastic; base = base };
  })

module _ {W : Type 0} (o : Outside W) (c : Call) where
  -- The share and the amount that come back.
  unfoldable pub swap_collateral_with_asset :
      ℕ → String → String → ℕ → Bool → Market → W → Result ((ℕ × ℕ) × W)
  swap_collateral_with_asset share receiver receiver_data rate check_returned m w = do
    collateral_amount ← o.to_amount w m.collateral_id share false
    withdrawn ← o.withdraw m.collateral_id c.address_this receiver collateral_amount 0 w
    before ← o.asset_balance_of withdrawn.1 c.address_this
    received ←
        o.on_collateral_receiver receiver c.sender collateral_amount receiver_data withdrawn.1
    after ← o.asset_balance_of received c.address_this
    returned_amount ← sub after before
    least ←
        (if check_returned
          then (do
            receivable ← mul_div collateral_amount m.exchange_rate_precision rate
            slippage ← mul_div receivable m.max_liquidation_slippage fee_precision
            sub receivable slippage)
          else ok 0)
    require (leb least returned_amount) "OnCollateralReceiverFailed"
    require (not (returned_amount == 0)) "OnCollateralReceiverFailed"
    returned_share ← o.to_share received m.asset_id returned_amount false
    ok ((returned_share, returned_amount), received)

  -- The amount, before the bonus, and the debt of the user.
  unfoldable pub liquidatable : String → ℕ → ℕ → Market → W → Result (ℕ × ℕ)
  liquidatable user max_borrow_part collateral_part_in_asset m w = do
    factor ←
        compute_closing_factor (get m.user_borrow_part user) collateral_part_in_asset
          fee_precision_decimals m.liquidation_collateralization_rate m.liquidation_multiplier
          m.total_borrow
    debt ← o.to_elastic m.total_borrow (get m.user_borrow_part user) true
    let limited = if ltb debt factor then debt else factor
    require (leb limited collateral_part_in_asset) "BadDebt"
    ok ((if ltb max_borrow_part limited then max_borrow_part else limited), debt)

  -- The collateral that pays `with_bonus`.
  unfoldable pub seized_collateral : String → ℕ → ℕ → ℕ → ℕ → ℕ → ℕ → Market → W → Result ℕ
  seized_collateral user min_bonus rate in_asset liquidated_amount debt with_bonus m w =
      if ltb in_asset with_bonus
      then (do
        require (ltb debt in_asset) "BadDebt"
        require (ltb 0 min_bonus) "InsufficientLiquidationBonus"
        above ← sub in_asset liquidated_amount
        effective_bonus ← mul_div above fee_precision liquidated_amount
        require (leb min_bonus effective_bonus) "InsufficientLiquidationBonus"
        ok (get m.user_collateral_share user))
      else do
        debt_with_bonus ← plus_bonus debt m.liquidation_bonus_amount
        require (leb debt_with_bonus in_asset) "BadDebt"
        amount ← mul_div with_bonus rate m.exchange_rate_precision
        share ← o.to_share w m.collateral_id amount false
        require (leb share (get m.user_collateral_share user)) "NotEnoughCollateral"
        ok share

  -- `_updateBorrowAndCollateralShare` before it writes.
  unfoldable pub seizure : String → ℕ → ℕ → ℕ → Market → W → Result Seizure
  seizure user max_borrow_part min_bonus rate m w = do
    require (not (rate == 0)) "ExchangeRateNotValid"
    amount ← o.to_amount w m.collateral_id (get m.user_collateral_share user) false
    in_asset ← mul_div amount m.exchange_rate_precision rate
    limits ← liquidatable user max_borrow_part in_asset m w
    borrow_part ←
        (if limits.0 == limits.1
          then ok (get m.user_borrow_part user)
          else o.to_base m.total_borrow limits.0 false)
    require (not (borrow_part == 0)) "Solvent"
    with_bonus ←
        (if ltb 0 m.liquidation_bonus_amount
          then plus_bonus limits.0 m.liquidation_bonus_amount
          else ok limits.0)
    collateral_share ←
        seized_collateral user min_bonus rate in_asset limits.0 limits.1 with_bonus m w
    ok (record {
      liquidated_amount = limits.0;
      borrow_part = borrow_part;
      collateral_share = collateral_share;
    })

  unfoldable pub update_borrow_and_collateral_share :
      String → ℕ → ℕ → ℕ → Market → W → Result (Seizure × Market)
  update_borrow_and_collateral_share user max_borrow_part min_bonus rate m w = do
    taken ← seizure user max_borrow_part min_bonus rate m w
    user_part ← sub (get m.user_borrow_part user) taken.borrow_part
    user_share ← sub (get m.user_collateral_share user) taken.collateral_share
    ok (
      taken,
      record m {
        user_borrow_part = put m.user_borrow_part user user_part;
        user_collateral_share = put m.user_collateral_share user user_share;
      },
    )
