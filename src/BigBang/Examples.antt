-- ===== src/BigBang/Examples.antt =====
-- The theorems on the operations of a market, at the loan of the scenario.
use tapioca_bar.Prelude.{
  ℕ, true, false, [], ◌∷◌, ok, err, rejected, ◌≡◌, ◌≤◌, ◌<◌, ◌+◌, ◌*◌, ◌^◌, ◌⊎◌, inr, refl, arith,
  get, put, total, IsOk,
}
use tapioca_bar.Market.Views.{
  is_solvent, update_exchange_rate, compute_allowance_amount_in_asset,
  compute_max_borrowable_amount, get_ratio, compute_closing_factor, factor_of,
}
use tapioca_bar.Market.Allowances.{allowed_borrow}
use tapioca_bar.BigBang.{
  BigBang, accrue, accrue_own, get_debt_rate, compute_variable_opening_fee,
  compute_variable_opening_fee_view, mint_fee, add_tokens, accrue_external,
}
use tapioca_bar.BigBang.Lending.{put_collateral, lend}
use tapioca_bar.BigBang.Operations.{
  refresh, require_solvent, open_loan, open_deposit, borrow, repay, add_collateral,
  remove_collateral,
}
use tapioca_bar.BigBang.Sample.{sample, sample-IsRebaseLibrary, fresh, by, quotient_of}
use tapioca_bar.BigBang.Balance.{IsBalanced}
use tapioca_bar.BigBang.Reach.{Reaches, here, after, deposit, loan, removal, Reaches-IsBalanced}
use tapioca_bar.Market.Covering.{Covered}
use tapioca_bar.BigBang.Solvency.{borrow-Covered}
use tapioca_bar.BigBang.RoundTrip.{lend-settle}
use tapioca_bar.BigBang.Pausing.{update_pause_all_stops}
use tapioca_bar.BigBang.Owner.{update_pause_all}
use tapioca_bar.BigBang.Liquidation.{liquidate, closed_liquidation}
use tapioca_bar.Market.Seizure.{Request, Seizure, seizure, seized_collateral, liquidatable}
use tapioca_bar.Market.SeizureBounds.{seizure_bounds}
use tapioca_bar.BigBang.Seizures.{closed_liquidation_solvent}
use tapioca_bar.BigBang.Scenario.{
  value_or, coin, deposited, borrowed, removed, lent, settled, deposited-eq, borrowed-eq,
  removed-eq, lent-eq, settled-eq,
}

fresh-IsBalanced : IsBalanced fresh
unfolding total
fresh-IsBalanced = (refl, refl)

history : Reaches sample fresh removed
history =
    after
      (after
        (after here
          (deposit (by "alice" 1) "alice" "alice" false (4 * coin) (4 * coin) deposited-eq))
        (loan (by "alice" 1000) "alice" "alice" coin borrowed.0 borrowed-eq))
      (removal (by "alice" 2000) "alice" "alice" coin removed-eq)

Reaches-IsBalanced_example : IsBalanced removed
Reaches-IsBalanced_example = Reaches-IsBalanced sample-IsRebaseLibrary fresh-IsBalanced history

borrow-Covered_example :
    Covered sample borrowed.1.market borrowed.1.outside "alice" borrowed.1.market.exchange_rate
    × ((borrowed.1.market.total_borrow_cap ≡ 0)
        ⊎ (borrowed.1.market.total_borrow.elastic ≤ borrowed.1.market.total_borrow_cap))
borrow-Covered_example =
    borrow-Covered sample (by "alice" 1000) "alice" "alice" coin deposited borrowed borrowed-eq

owed_already :
    (borrowed.1.market.total_borrow.base ≡ 0) ⊎ (0 < borrowed.1.market.total_borrow.elastic)
unfolding add_collateral open_deposit allowed_borrow put_collateral add_tokens get put borrow
    refresh update_exchange_rate accrue accrue_own get_debt_rate open_loan
    compute_variable_opening_fee compute_variable_opening_fee_view mint_fee
    compute_allowance_amount_in_asset compute_max_borrowable_amount get_ratio lend quotient_of
    require_solvent is_solvent
owed_already = inr (ground arith)

lend-settle_example :
    (coin + 10 ≤ settled.0)
    × (get settled.1.market.user_borrow_part "alice"
        ≡ get borrowed.1.market.user_borrow_part "alice")
    × (settled.1.market.total_borrow.base ≡ borrowed.1.market.total_borrow.base)
    × (settled.1.market.total_borrow.elastic ≤ borrowed.1.market.total_borrow.elastic)
lend-settle_example =
    lend-settle sample (by "alice" 2) sample-IsRebaseLibrary "alice" "alice" "alice" coin 10
      borrowed.1 lent settled owed_already lent-eq settled-eq

abbrev paused : BigBang ℕ
paused = value_or fresh (update_pause_all sample (by "0xA1" 5) true fresh)

paused-eq : update_pause_all sample (by "0xA1" 5) true fresh ≡ ok paused
unfolding update_pause_all
paused-eq = refl

update_pause_all_stops_example :
    (¬ IsOk (borrow sample (by "bob" 6) "alice" "alice" coin paused))
    × (¬ IsOk (repay sample (by "bob" 6) "alice" "alice" coin paused))
    × (¬ IsOk (add_collateral sample (by "bob" 6) "alice" "alice" false coin 0 paused))
    × (¬ IsOk (remove_collateral sample (by "bob" 6) "alice" "alice" 0 paused))
    × (¬ IsOk (liquidate sample (by "bob" 6) [] [] [] [] [] paused))
    × (¬ IsOk (accrue_external sample (by "bob" 6) paused))
update_pause_all_stops_example =
    update_pause_all_stops sample (by "0xA1" 5) (by "bob" 6) fresh paused "alice" "alice" false coin
      0 [] [] [] [] [] paused-eq

-- The price of the collateral falls to 2 / 7.
abbrev seized : Seizure
seized =
    value_or (record { liquidated_amount = 0; borrow_part = 0; collateral_share = 0 })
      (seizure sample (by "bob" 9) "alice" (10 * coin) 0 (35 * 10 ^ 17) borrowed.1.market
        borrowed.1.outside)

abbrev debt : ℕ
debt = value_or 0 (
    sample.to_elastic borrowed.1.market.total_borrow
      (get borrowed.1.market.user_borrow_part "alice") true)

seized-eq :
    seizure sample
      (by "bob" 9)
      "alice"
      (10 * coin)
      0
      (35 * 10 ^ 17)
      borrowed.1.market
      borrowed.1.outside
    ≡ ok seized
unfolding add_collateral open_deposit allowed_borrow put_collateral add_tokens get put borrow
    refresh update_exchange_rate accrue accrue_own get_debt_rate open_loan
    compute_variable_opening_fee compute_variable_opening_fee_view mint_fee
    compute_allowance_amount_in_asset compute_max_borrowable_amount get_ratio lend quotient_of
    require_solvent is_solvent seizure seized_collateral liquidatable compute_closing_factor
    factor_of
seized-eq = refl

seizure_bounds_example :
    (seized.liquidated_amount ≤ 10 * coin)
    × (seized.liquidated_amount ≤ debt)
    × (0 < seized.borrow_part)
    × (seized.collateral_share ≤ get borrowed.1.market.user_collateral_share "alice")
seizure_bounds_example =
    seizure_bounds sample (by "bob" 9) "alice" (10 * coin) 0 (35 * 10 ^ 17) borrowed.1.market
      borrowed.1.outside seized debt seized-eq refl

abbrev request : Request
request = record {
  user = "alice";
  max_borrow_part = coin;
  min_liquidation_bonus = 0;
  liquidator_receiver = "bob";
  liquidator_receiver_data = "";
}

alice_solvent : is_solvent sample borrowed.1.market borrowed.1.outside "alice" coin true ≡ ok true
unfolding add_collateral open_deposit allowed_borrow put_collateral add_tokens get put borrow
    refresh update_exchange_rate accrue accrue_own get_debt_rate open_loan
    compute_variable_opening_fee compute_variable_opening_fee_view mint_fee
    compute_allowance_amount_in_asset compute_max_borrowable_amount get_ratio lend quotient_of
    require_solvent is_solvent
alice_solvent = refl

closed_liquidation_solvent_example :
    closed_liquidation sample (by "bob" 9) (request ∷ []) coin borrowed.1
    ≡ err (rejected "BB: no users found")
closed_liquidation_solvent_example =
    closed_liquidation_solvent sample (by "bob" 9) (request ∷ []) coin borrowed.1
      (alice_solvent, tt)
