-- ===== src/Singularity/Examples.antt =====
-- The theorems on a Singularity market, at the states of the scenario.
use tapioca_bar.Prelude.{
  ℕ, true, false, ok, err, rejected, ◌≡◌, ◌≤◌, ◌⊎◌, ◌*◌, ◌^◌, refl, arith, get, put, total,
}
use tapioca_bar.Market.Outside.{IsYieldBox}
use tapioca_bar.Market.Views.{
  is_solvent, update_exchange_rate, compute_allowance_amount_in_asset,
  compute_max_borrowable_amount, get_ratio,
}
use tapioca_bar.Market.Allowances.{allowed_borrow, allowed_lend}
use tapioca_bar.Market.Covering.{Covered}
use tapioca_bar.BigBang.Sample.{sample, sample-IsRebaseLibrary, by, quotient_of}
use tapioca_bar.BigBang.Scenario.{value_or, coin}
use tapioca_bar.Singularity.{
  Singularity, utilization_of, scale_of, next_rate, add_interest, charge, interest_rate,
  get_interest_rate, accrue, add_tokens, rate_call,
}
use tapioca_bar.Singularity.Lending.{put_collateral, credit_fee, draw, lend}
use tapioca_bar.Singularity.Operations.{
  refresh, require_solvent, open_loan, borrow, open_deposit, add_collateral,
}
use tapioca_bar.Singularity.Assets.{put_asset, take_asset, add_asset, move, transfer}
use tapioca_bar.Singularity.Owner.{write_config, set_singularity_config}
use tapioca_bar.Singularity.Initialise.{init, init_storage, init_default_values}
use tapioca_bar.Singularity.Books.{IsBacked}
use tapioca_bar.Singularity.Reach.{
  Reaches, here, after, owner, settings, lender, supply, deposit, loan, send, Reaches-IsBacked,
}
use tapioca_bar.Singularity.Shares.{put_asset-take_asset}
use tapioca_bar.Singularity.Interest.{IsRated, accrue-IsRated, next_rate_lem, Moves}
use tapioca_bar.Singularity.Solvency.{borrow_safe}
use tapioca_bar.Singularity.Limits.{
  IsLimited, init_once-IsLimited, set_singularity_config-IsLimited,
}
use tapioca_bar.Singularity.Scenario.{
  raw, defaults, initialised, helper_only, configured, supplied, secured, borrowed, sent, accrued,
  initialised-eq, configured-eq, supplied-eq, secured-eq, borrowed-eq, sent-eq, accrued-eq,
}

sample-IsYieldBox : IsYieldBox sample
sample-IsYieldBox = record {
  rounded = λ w id amount down up e f. ground arith;
  kept = λ from to id share other amount up w x e. refl;
}

initialised-IsBacked : IsBacked initialised.0
unfolding total init init_storage init_default_values update_exchange_rate
initialised-IsBacked = ((refl, refl), refl)

history : Reaches sample initialised.0 sent
history =
    after
      (after
        (after
          (after (after here (owner (settings (by "0xA1" 2) helper_only configured-eq)))
            (lender (supply (by "lena" 3) "lena" "lena" false (100 * coin) supplied.0 supplied-eq)))
          (deposit (by "alice" 4) "alice" "alice" false 0 (200 * coin) secured-eq))
        (loan (by "alice" 5) "alice" "alice" (80 * coin) borrowed.0 borrowed-eq))
      (lender (send (by "lena" 6) "bob" coin sent-eq))

Reaches-IsBacked_example : IsBacked sent
Reaches-IsBacked_example = Reaches-IsBacked sample-IsRebaseLibrary initialised-IsBacked history

abbrev added : ℕ × Singularity ℕ
added = value_or (0, raw) (put_asset sample (by "carol" 7) "carol" "carol" false (10 * coin) sent)

abbrev taken : ℕ × Singularity ℕ
taken = value_or (0, raw) (take_asset sample (by "carol" 7) "carol" "dave" added.0 added.1)

added-eq : put_asset sample (by "carol" 7) "carol" "carol" false (10 * coin) sent ≡ ok added
unfolding init init_storage init_default_values update_exchange_rate set_singularity_config accrue
    get_interest_rate interest_rate utilization_of write_config add_asset allowed_lend put_asset
    add_tokens get put add_collateral open_deposit allowed_borrow put_collateral borrow refresh
    open_loan compute_allowance_amount_in_asset compute_max_borrowable_amount get_ratio lend draw
    credit_fee quotient_of require_solvent is_solvent transfer move charge add_interest next_rate
    scale_of
added-eq = refl

taken-eq : take_asset sample (by "carol" 7) "carol" "dave" added.0 added.1 ≡ ok taken
unfolding init init_storage init_default_values update_exchange_rate set_singularity_config accrue
    get_interest_rate interest_rate utilization_of write_config add_asset allowed_lend put_asset
    add_tokens get put add_collateral open_deposit allowed_borrow put_collateral borrow refresh
    open_loan compute_allowance_amount_in_asset compute_max_borrowable_amount get_ratio lend draw
    credit_fee quotient_of require_solvent is_solvent transfer move charge add_interest next_rate
    scale_of take_asset
taken-eq = refl

put_asset-take_asset_example : taken.0 ≤ 10 * coin
put_asset-take_asset_example =
    put_asset-take_asset sample (by "carol" 7) sample-IsRebaseLibrary sample-IsYieldBox "carol"
      "carol" "dave" false (10 * coin) sent added taken added-eq taken-eq

sent-IsRated : IsRated sent
unfolding init init_storage init_default_values update_exchange_rate set_singularity_config accrue
    get_interest_rate interest_rate utilization_of write_config add_asset allowed_lend put_asset
    add_tokens get put add_collateral open_deposit allowed_borrow put_collateral borrow refresh
    open_loan compute_allowance_amount_in_asset compute_max_borrowable_amount get_ratio lend draw
    credit_fee quotient_of require_solvent is_solvent transfer move charge add_interest next_rate
    scale_of
sent-IsRated = (omega arith, omega arith, omega arith, omega arith)

accrue-IsRated_example :
    IsRated accrued
    × (sent.market.total_borrow.elastic ≤ accrued.market.total_borrow.elastic)
    × (sent.total_asset.base ≤ accrued.total_asset.base)
    × (accrued.total_asset.elastic ≡ sent.total_asset.elastic)
accrue-IsRated_example =
    accrue-IsRated sample (by "bob" 1000005) sent accrued accrued-eq sent-IsRated

abbrev raised : ℕ
raised =
    value_or 0 (next_rate (rate_call sample (by "bob" 7) configured) 951293760 (8 * 10 ^ 17) 3600)

raised-eq :
    next_rate (rate_call sample (by "bob" 7) configured) 951293760 (8 * 10 ^ 17) 3600 ≡ ok raised
unfolding init init_storage init_default_values update_exchange_rate set_singularity_config accrue
    get_interest_rate interest_rate utilization_of write_config add_asset allowed_lend put_asset
    add_tokens get put add_collateral open_deposit allowed_borrow put_collateral borrow refresh
    open_loan compute_allowance_amount_in_asset compute_max_borrowable_amount get_ratio lend draw
    credit_fee quotient_of require_solvent is_solvent transfer move charge add_interest next_rate
    scale_of
raised-eq = refl

next_rate_lem_example :
    (configured.minimum_interest_per_second ≤ raised)
    × (raised ≤ configured.maximum_interest_per_second)
    × Moves (rate_call sample (by "bob" 7) configured) 951293760 (8 * 10 ^ 17) raised
unfolding init init_storage init_default_values update_exchange_rate set_singularity_config accrue
    get_interest_rate interest_rate utilization_of write_config add_asset allowed_lend put_asset
    add_tokens get put add_collateral open_deposit allowed_borrow put_collateral borrow refresh
    open_loan compute_allowance_amount_in_asset compute_max_borrowable_amount get_ratio lend draw
    credit_fee quotient_of require_solvent is_solvent transfer move charge add_interest next_rate
    scale_of
next_rate_lem_example =
    next_rate_lem (rate_call sample (by "bob" 7) configured) 951293760 (8 * 10 ^ 17) 3600 raised
      raised-eq (omega arith) (omega arith)

borrow_safe_example :
    Covered sample borrowed.1.market borrowed.1.outside "alice" borrowed.1.market.exchange_rate
    × ((borrowed.1.market.total_borrow_cap ≡ 0)
        ⊎ (borrowed.1.market.total_borrow.elastic ≤ borrowed.1.market.total_borrow_cap))
    × (1000 ≤ borrowed.1.total_asset.base)
borrow_safe_example =
    borrow_safe sample (by "alice" 5) "alice" "alice" (80 * coin) secured borrowed borrowed-eq

init_once-IsLimited_example :
    IsLimited initialised.0
    × IsRated initialised.0
    × (initialised.0.market.owner ≡ "0xA1")
    × (init sample (by "0xDE" 1) defaults true raw ≡ err (rejected "Market: initialized"))
init_once-IsLimited_example =
    init_once-IsLimited sample (by "0xDE" 1) defaults defaults false true raw initialised.0 raw
      initialised-eq

initialised-IsLimited : IsLimited initialised.0
unfolding init init_storage init_default_values update_exchange_rate
initialised-IsLimited = record {
  rates_ordered = omega arith;
  target_bounded = omega arith;
  fee_bounded = omega arith;
  multiplier_bounded = omega arith;
}

set_singularity_config-IsLimited_example : IsLimited configured
set_singularity_config-IsLimited_example =
    set_singularity_config-IsLimited sample (by "0xA1" 2) helper_only initialised.0 configured
      configured-eq initialised-IsLimited
