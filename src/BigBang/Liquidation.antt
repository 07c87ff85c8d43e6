-- ===== src/BigBang/Liquidation.antt =====
-- contracts/markets/bigBang/BBLiquidation.sol.
use tapioca_bar.Prelude.{
  ℕ, String, Bool, true, false, List, [], ◌∷◌, Result, ok, ◌>>=◌, ◌>>◌, leb, ltb, if◌then◌else◌,
  ◌==◌, ◌===◌, not, ◌||◌, ◌-◌, add, sub, mul_div, get, put, to_uint_128, length,
}
use tapioca_bar.Penrose.{require}
use tapioca_bar.Market.{PauseType, fee_precision}
use tapioca_bar.Market.Outside.{Outside, Call}
use tapioca_bar.Market.Views.{get_caller_reward, is_solvent, try_update_exchange_rate}
use tapioca_bar.Market.Seizure.{
  Request, requests, swap_collateral_with_asset, update_borrow_and_collateral_share, write_totals,
}
use tapioca_bar.BigBang.{BigBang, accrue}
use tapioca_bar.BigBang.Operations.{option_not_paused, try_refresh}

module _ {W : Type 0} (o : Outside W) (c : Call) where
  -- The fee's share and the caller's.
  unfoldable pub extract_liquidation_fees : ℕ → ℕ → ℕ → BigBang W → Result ((ℕ × ℕ) × BigBang W)
  extract_liquidation_fees returned_share borrow_share caller_reward s = do
    let extra_share = if ltb borrow_share returned_share then returned_share - borrow_share else 0
    caller_share ← mul_div extra_share caller_reward fee_precision
    fee_share ← sub extra_share caller_share
    if ltb 0 caller_share
        then (do
          deposited ←
              o.deposit_asset s.market.asset_id c.address_this c.sender 0 caller_share s.outside
          ok ((fee_share, caller_share), record s { outside = deposited.1 }))
        else ok ((fee_share, caller_share), s)

  unfoldable pub liquidate_user : Request → ℕ → BigBang W → Result (BigBang W)
  liquidate_user r rate s = do
    caller_reward ← get_caller_reward o s.market s.outside r.user rate
    taken ←
        update_borrow_and_collateral_share o c r.user r.max_borrow_part r.min_liquidation_bonus rate
          s.market s.outside
    market ← write_totals taken.0 taken.1
    borrow_share ← o.to_share s.outside market.asset_id taken.0.liquidated_amount true
    returned ←
        swap_collateral_with_asset o c taken.0.collateral_share r.liquidator_receiver
          r.liquidator_receiver_data rate true market s.outside
    require (leb borrow_share returned.0.0) "AmountNotValid"
    fees ←
        extract_liquidation_fees returned.0.0 borrow_share caller_reward
          (record s { market = market; outside = returned.1 })
    outside ← o.burn c.address_this taken.0.liquidated_amount fees.1.outside
    ok (record fees.1 { outside = outside })

  -- The loop of `_closedLiquidation`, with the number of users it liquidates.
  unfoldable pub liquidate_all : List Request → ℕ → BigBang W → Result (ℕ × BigBang W)
  liquidate_all [] rate s = ok (0, s)
  liquidate_all (r ∷ rest) rate s = do
    solvent ← is_solvent o s.market s.outside r.user rate true
    elim solvent [
      | true ↦ liquidate_all rest rate s
      | false ↦ do
        t ← liquidate_user r rate s
        u ← liquidate_all rest rate t
        count ← add 1 u.0
        ok (count, u.1)
    ]

  unfoldable pub closed_liquidation : List Request → ℕ → BigBang W → Result (BigBang W)
  closed_liquidation requests rate s = do
    liquidated ← liquidate_all requests rate s
    require (not (liquidated.0 == 0)) "BB: no users found"
    ok liquidated.1

  unfoldable pub liquidate :
      List String → List ℕ → List ℕ → List String → List String → BigBang W → Result (BigBang W)
  liquidate users parts bonuses receivers datas s = do
    option_not_paused PauseType.liquidation s
    require (not (length users == 0)) "NothingToLiquidate"
    require (length users == length parts) "LengthMismatch"
    require (length users == length receivers) "LengthMismatch"
    require (length datas == length receivers) "LengthMismatch"
    t ← try_refresh o c s
    entries ← requests users parts bonuses receivers datas
    closed_liquidation entries t.market.exchange_rate t

  -- `liquidateBadDebt` up to its accruals.
  unfoldable pub refresh_bad_debt : String → BigBang W → Result (BigBang W)
  refresh_bad_debt from s = do
    is_liquidator ← o.has_role s.outside c.sender "LIQUIDATOR"
    require (is_liquidator || c.sender === s.market.owner) "Market: unauthorized"
    updated ← try_update_exchange_rate o c s.market s.outside
    is_whitelisted ← o.is_whitelisted updated.1 from
    require is_whitelisted "NotAuthorized"
    accrued ← accrue o c (record s { market = updated.0; outside = updated.1 })
    re_accrued ← o.re_accrue_big_bang_markets accrued.outside
    ok (record accrued { outside = re_accrued })

  -- The collateral is at most what the debt with the bonus is worth.
  unfoldable pub require_bad_debt : String → BigBang W → Result (Unit {0})
  require_bad_debt user t = do
    elastic_part ← o.to_elastic t.market.total_borrow (get t.market.user_borrow_part user) false
    bonus ← mul_div elastic_part t.market.liquidation_multiplier fee_precision
    with_bonus ← add elastic_part bonus
    amount ← mul_div with_bonus t.market.exchange_rate t.market.exchange_rate_precision
    required_collateral ← o.to_share t.outside t.market.collateral_id amount false
    require (leb (get t.market.user_collateral_share user) required_collateral) "ForbiddenAction"

  -- The writes of `liquidateBadDebt`, and the burn.
  unfoldable pub write_off : String → String → BigBang W → Result (BigBang W)
  write_off user from t = do
    liquidated_amount ← o.to_elastic t.market.total_borrow (get t.market.user_borrow_part user) true
    amount_128 ← to_uint_128 liquidated_amount
    elastic ← sub t.market.total_borrow.elastic amount_128
    part_128 ← to_uint_128 (get t.market.user_borrow_part user)
    base ← sub t.market.total_borrow.base part_128
    all ← sub t.market.total_collateral_share (get t.market.user_collateral_share user)
    outside ← o.burn from liquidated_amount t.outside
    ok (record t {
      market = record t.market {
        total_borrow = record { elastic = elastic; base = base };
        total_collateral_share = all;
        user_collateral_share = put t.market.user_collateral_share user 0;
        user_borrow_part = put t.market.user_borrow_part user 0;
      };
      outside = outside;
    })

  -- Where the collateral goes.
  unfoldable pub hand_over : ℕ → String → String → String → Bool → BigBang W → Result (BigBang W)
  hand_over share receiver liquidator_receiver receiver_data swap_collateral u =
      if swap_collateral
      then (do
        returned ←
            swap_collateral_with_asset o c share liquidator_receiver receiver_data 0 false u.market
              u.outside
        sent ← o.asset_transfer receiver returned.0.1 returned.1
        ok (record u { outside = sent }))
      else do
        collateral_amount ← o.to_amount u.outside u.market.collateral_id share false
        withdrawn ←
            o.withdraw u.market.collateral_id c.address_this receiver collateral_amount 0 u.outside
        ok (record u { outside = withdrawn.1 })

  unfoldable pub liquidate_bad_debt :
      String → String → String → String → String → Bool → BigBang W → Result (BigBang W)
  liquidate_bad_debt user from receiver liquidator_receiver receiver_data swap_collateral s = do
    t ← refresh_bad_debt from s
    require_bad_debt user t
    u ← write_off user from t
    hand_over (get t.market.user_collateral_share user) receiver liquidator_receiver receiver_data
        swap_collateral u
