-- ===== src/Singularity/Liquidation.antt =====
-- contracts/markets/singularity/SGLLiquidation.sol. What it takes from a user and the swap of the
-- collateral are those of Market/Seizure.antt.
use tapioca_bar.Prelude.{
  ℕ, String, Bool, true, false, List, [], ◌∷◌, Result, ok, ◌>>=◌, ◌>>◌, leb, ltb, if◌then◌else◌,
  ◌==◌, ◌===◌, not, ◌||◌, ◌-◌, ◌+◌, add, sub, mul_div, get, put, fit, to_uint_128, length,
}
use tapioca_bar.Penrose.{require}
use tapioca_bar.Market.{Market, PauseType, fee_precision}
use tapioca_bar.Market.Outside.{Outside, Call}
use tapioca_bar.Market.Views.{get_caller_reward, is_solvent, try_update_exchange_rate}
use tapioca_bar.Market.Seizure.{
  Request, requests, swap_collateral_with_asset, update_borrow_and_collateral_share, write_totals,
}
use tapioca_bar.Singularity.{Singularity, accrue}
use tapioca_bar.Singularity.Operations.{option_not_paused, try_refresh}

module _ {W : Type 0} (o : Outside W) (c : Call) where
  -- Penrose's part of the surplus of a liquidation, as a fraction of the assets.
  unfoldable pub credit_surplus : ℕ → Singularity W → Result (Singularity W)
  credit_surplus fee_share s =
      if ltb 0 fee_share
      then (do
        fee_amount ← o.to_amount s.outside s.market.asset_id fee_share false
        held ← o.to_amount s.outside s.market.asset_id s.total_asset.elastic false
        full_asset_amount ← add held s.market.total_borrow.elastic
        fee_fraction ← mul_div fee_amount s.total_asset.base full_asset_amount
        balance ← add (get s.balance_of s.penrose) fee_fraction
        fraction_128 ← to_uint_128 fee_fraction
        base ← fit 128 (s.total_asset.base + fraction_128)
        share_128 ← to_uint_128 fee_share
        elastic ← fit 128 (s.total_asset.elastic + share_128)
        deposited ←
            o.deposit_asset s.market.asset_id c.address_this c.address_this 0 fee_share s.outside
        ok (record s {
          balance_of = put s.balance_of s.penrose balance;
          total_asset = record { elastic = elastic; base = base };
          outside = deposited.1;
        }))
      else ok s

  -- The fee's share and the caller's, of the surplus.
  unfoldable pub extract_liquidation_fees : ℕ → ℕ → Singularity W → Result ((ℕ × ℕ) × Singularity W)
  extract_liquidation_fees extra_share caller_reward s = do
    caller_share ← mul_div extra_share caller_reward fee_precision
    fee_share ← sub extra_share caller_share
    t ← credit_surplus fee_share s
    if ltb 0 caller_share
        then (do
          caller_amount ← o.to_amount t.outside t.market.asset_id caller_share false
          deposited ←
              o.deposit_asset t.market.asset_id c.address_this c.sender caller_amount 0 t.outside
          ok ((fee_share, caller_share), record t { outside = deposited.1 }))
        else ok ((fee_share, caller_share), t)

  -- What comes back for the debt, which goes to the lenders.
  unfoldable pub return_debt : ℕ → Singularity W → Result (Singularity W)
  return_debt share s = do
    deposited ← o.deposit_asset s.market.asset_id c.address_this c.address_this 0 share s.outside
    share_128 ← to_uint_128 share
    elastic ← fit 128 (s.total_asset.elastic + share_128)
    ok (record s {
      total_asset = record s.total_asset { elastic = elastic };
      outside = deposited.1;
    })

  -- What comes back is split between the debt and the fees.
  unfoldable pub distribute : ℕ → ℕ → ℕ → Singularity W → Result (Singularity W)
  distribute returned_share borrow_share caller_reward s = do
    let extra_share = if ltb borrow_share returned_share then returned_share - borrow_share else 0
    t ← return_debt (returned_share - extra_share) s
    fees ← extract_liquidation_fees extra_share caller_reward t
    ok fees.1

  unfoldable pub liquidate_user : Request → ℕ → Singularity W → Result (Singularity W)
  liquidate_user r rate s = do
    caller_reward ← get_caller_reward o s.market s.outside r.user rate
    taken ←
        update_borrow_and_collateral_share o c r.user r.max_borrow_part r.min_liquidation_bonus rate
          s.market s.outside
    borrow_share ← o.to_share s.outside s.market.asset_id taken.0.liquidated_amount true
    market ← write_totals taken.0 taken.1
    returned ←
        swap_collateral_with_asset o c taken.0.collateral_share r.liquidator_receiver
          r.liquidator_receiver_data rate true market s.outside
    require (leb borrow_share returned.0.0) "AmountNotValid"
    distribute returned.0.0 borrow_share caller_reward
        (record s { market = market; outside = returned.1 })

  -- The loop of `_closedLiquidation`, with the number of users it liquidates.
  unfoldable pub liquidate_all : List Request → ℕ → Singularity W → Result (ℕ × Singularity W)
  liquidate_all [] rate s = ok (0, s)
  liquidate_all (r ∷ rest) rate s = do
    solvent ← is_solvent o s.market s.outside r.user rate true
    elim solvent [
      | true ↦ liquidate_all rest rate s
      | false ↦ do
        t ← liquidate_user r rate s
        u ← liquidate_all rest rate t
        count ← add 1 u.0
        ok (count, u.1)
    ]

  unfoldable pub closed_liquidation : List Request → ℕ → Singularity W → Result (Singularity W)
  closed_liquidation requests rate s = do
    liquidated ← liquidate_all requests rate s
    require (not (liquidated.0 == 0)) "BB: no users found"
    ok liquidated.1

  unfoldable pub liquidate :
      List String
      → List ℕ
      → List ℕ
      → List String
      → List String
      → Singularity W
      → Result (Singularity W)
  liquidate users parts bonuses receivers datas s = do
    option_not_paused PauseType.liquidation s
    require (not (length users == 0)) "NothingToLiquidate"
    require (length users == length parts) "LengthMismatch"
    require (length users == length receivers) "LengthMismatch"
    require (length datas == length receivers) "LengthMismatch"
    t ← try_refresh o c s
    entries ← requests users parts bonuses receivers datas
    closed_liquidation entries t.market.exchange_rate t

  -- `liquidateBadDebt` up to its accrual.
  unfoldable pub refresh_bad_debt : String → Singularity W → Result (Singularity W)
  refresh_bad_debt from s = do
    is_liquidator ← o.has_role s.outside c.sender "LIQUIDATOR"
    require (is_liquidator || c.sender === s.market.owner) "Market: unauthorized"
    updated ← try_update_exchange_rate o c s.market s.outside
    is_whitelisted ← o.is_whitelisted updated.1 from
    require is_whitelisted "NotAuthorized"
    accrue o c (record s { market = updated.0; outside = updated.1 })

  -- The collateral is at most what the debt with the bonus is worth.
  unfoldable pub require_bad_debt : String → Singularity W → Result (Unit {0})
  require_bad_debt user t = do
    elastic_part ← o.to_elastic t.market.total_borrow (get t.market.user_borrow_part user) false
    bonus ← mul_div elastic_part t.market.liquidation_multiplier fee_precision
    with_bonus ← add elastic_part bonus
    amount ← mul_div with_bonus t.market.exchange_rate t.market.exchange_rate_precision
    required_collateral ← o.to_share t.outside t.market.collateral_id amount false
    require (leb (get t.market.user_collateral_share user) required_collateral) "NotAuthorized"

  -- The writes of `liquidateBadDebt`, and the deposit of what `from` pays.
  unfoldable pub write_off : String → String → Singularity W → Result (Singularity W)
  write_off user from t = do
    amount ← o.to_elastic t.market.total_borrow (get t.market.user_borrow_part user) true
    amount_128 ← to_uint_128 amount
    elastic ← sub t.market.total_borrow.elastic amount_128
    part_128 ← to_uint_128 (get t.market.user_borrow_part user)
    base ← sub t.market.total_borrow.base part_128
    all ← sub t.market.total_collateral_share (get t.market.user_collateral_share user)
    paid ← o.asset_transfer_from from c.address_this amount t.outside
    share ← o.to_share paid t.market.asset_id amount false
    deposited ← o.deposit_asset t.market.asset_id c.address_this c.address_this amount 0 paid
    share_128 ← to_uint_128 share
    asset_elastic ← fit 128 (t.total_asset.elastic + share_128)
    ok (record t {
      market = record t.market {
        total_borrow = record { elastic = elastic; base = base };
        total_collateral_share = all;
        user_collateral_share = put t.market.user_collateral_share user 0;
        user_borrow_part = put t.market.user_borrow_part user 0;
      };
      total_asset = record t.total_asset { elastic = asset_elastic };
      outside = deposited.1;
    })

  -- Where the collateral goes.
  unfoldable pub hand_over : ℕ → String → String → String → Bool → Market → W → Result W
  hand_over share receiver liquidator_receiver receiver_data swap_collateral m w =
      if swap_collateral
      then (do
        returned ←
            swap_collateral_with_asset o c share liquidator_receiver receiver_data 0 false m w
        o.asset_transfer receiver returned.0.1 returned.1)
      else do
        collateral_amount ← o.to_amount w m.collateral_id share false
        withdrawn ← o.withdraw m.collateral_id c.address_this receiver collateral_amount 0 w
        ok withdrawn.1

  unfoldable pub liquidate_bad_debt :
      String → String → String → String → String → Bool → Singularity W → Result (Singularity W)
  liquidate_bad_debt user from receiver liquidator_receiver receiver_data swap_collateral s = do
    t ← refresh_bad_debt from s
    require_bad_debt user t
    u ← write_off user from t
    outside ←
        hand_over (get t.market.user_collateral_share user) receiver liquidator_receiver
          receiver_data swap_collateral u.market u.outside
    ok (record u { outside = outside })
