-- ===== src/Singularity/Scenario.antt =====
-- A Singularity market is initialised and gets its interest helper; Lena lends, Alice adds
-- collateral and borrows, Lena sends fractions to Bob.
use tapioca_bar.Prelude.{ℕ, Bool, true, false, [], ok, ◌≡◌, ◌*◌, refl, get, put}
use tapioca_bar.Market.Views.{
  is_solvent, update_exchange_rate, compute_allowance_amount_in_asset,
  compute_max_borrowable_amount, get_ratio,
}
use tapioca_bar.Market.Allowances.{allowed_borrow, allowed_lend}
use tapioca_bar.BigBang.Sample.{sample, fresh, by, quotient_of}
use tapioca_bar.BigBang.Scenario.{value_or, coin}
use tapioca_bar.Singularity.{
  Singularity, utilization_of, scale_of, next_rate, add_interest, charge, interest_rate,
  get_interest_rate, accrue, add_tokens,
}
use tapioca_bar.Singularity.Lending.{put_collateral, credit_fee, draw, lend}
use tapioca_bar.Singularity.Operations.{
  refresh, require_solvent, open_loan, borrow, open_deposit, add_collateral,
}
use tapioca_bar.Singularity.Assets.{put_asset, add_asset, move, transfer}
use tapioca_bar.Singularity.Owner.{SingularityConfig, write_config, set_singularity_config}
use tapioca_bar.Singularity.Initialise.{InitData, init, init_storage, init_default_values}

abbrev pub raw : Singularity ℕ
raw = record {
  market = fresh.market;
  penrose = "";
  balance_of = [];
  accrue_info = record { interest_per_second = 0; last_accrued = 0; fees_earned_fraction = 0 };
  total_asset = record { elastic = 0; base = 0 };
  minimum_target_utilization = 0;
  maximum_target_utilization = 0;
  minimum_interest_per_second = 0;
  maximum_interest_per_second = 0;
  interest_elasticity = 0;
  starting_interest_per_second = 0;
  borrow_opening_fee = 50;
  interest_helper = "0x0000000000000000000000000000000000000000";
  min_lend_amount = 0;
  outside = 0;
}

abbrev pub defaults : InitData
defaults = record {
  penrose = "0xA1";
  liquidation_module = "0x11";
  borrow_module = "0x12";
  collateral_module = "0x13";
  leverage_module = "0x14";
  asset = "0x15";
  asset_id = 3;
  collateral = "0x16";
  collateral_id = 2;
  oracle = "0x0C";
  exchange_rate_precision = 0;
  collateralization_rate = 0;
  liquidation_collateralization_rate = 0;
}

abbrev pub initialised : Singularity ℕ × Bool
initialised = value_or (raw, false) (init sample (by "0xDE" 1) defaults false raw)

abbrev pub helper_only : SingularityConfig
helper_only = record {
  borrow_opening_fee = 50;
  liquidation_multiplier = 0;
  minimum_target_utilization = 0;
  maximum_target_utilization = 0;
  minimum_interest_per_second = 0;
  maximum_interest_per_second = 0;
  interest_elasticity = 0;
  interest_helper = "0x1E";
  min_lend_amount = 0;
}

abbrev pub configured : Singularity ℕ
configured = value_or raw (set_singularity_config sample (by "0xA1" 2) helper_only initialised.0)

abbrev pub supplied : ℕ × Singularity ℕ
supplied =
    value_or (0, raw) (add_asset sample (by "lena" 3) "lena" "lena" false (100 * coin) configured)

abbrev pub secured : Singularity ℕ
secured =
    value_or raw
      (add_collateral sample (by "alice" 4) "alice" "alice" false 0 (200 * coin) supplied.1)

abbrev pub borrowed : (ℕ × ℕ) × Singularity ℕ
borrowed = value_or ((0, 0), raw) (borrow sample (by "alice" 5) "alice" "alice" (80 * coin) secured)

abbrev pub sent : Singularity ℕ
sent = value_or raw (transfer sample (by "lena" 6) "bob" coin borrowed.1)

abbrev pub accrued : Singularity ℕ
accrued = value_or raw (accrue sample (by "bob" 1000005) sent)

pub initialised-eq : init sample (by "0xDE" 1) defaults false raw ≡ ok (initialised.0, true)
unfolding init init_storage init_default_values update_exchange_rate
initialised-eq = refl

pub configured-eq :
    set_singularity_config sample (by "0xA1" 2) helper_only initialised.0 ≡ ok configured
unfolding init init_storage init_default_values update_exchange_rate set_singularity_config accrue
    get_interest_rate interest_rate utilization_of write_config
configured-eq = refl

pub supplied-eq :
    add_asset sample (by "lena" 3) "lena" "lena" false (100 * coin) configured ≡ ok supplied
unfolding init init_storage init_default_values update_exchange_rate set_singularity_config accrue
    get_interest_rate interest_rate utilization_of write_config add_asset allowed_lend put_asset
    add_tokens get put
supplied-eq = refl

pub secured-eq :
    add_collateral sample (by "alice" 4) "alice" "alice" false 0 (200 * coin) supplied.1
    ≡ ok secured
unfolding init init_storage init_default_values update_exchange_rate set_singularity_config accrue
    get_interest_rate interest_rate utilization_of write_config add_asset allowed_lend put_asset
    add_tokens get put add_collateral open_deposit allowed_borrow put_collateral
secured-eq = refl

pub borrowed-eq : borrow sample (by "alice" 5) "alice" "alice" (80 * coin) secured ≡ ok borrowed
unfolding init init_storage init_default_values update_exchange_rate set_singularity_config accrue
    get_interest_rate interest_rate utilization_of write_config add_asset allowed_lend put_asset
    add_tokens get put add_collateral open_deposit allowed_borrow put_collateral borrow refresh
    open_loan compute_allowance_amount_in_asset compute_max_borrowable_amount get_ratio lend draw
    credit_fee quotient_of require_solvent is_solvent
borrowed-eq = refl

pub sent-eq : transfer sample (by "lena" 6) "bob" coin borrowed.1 ≡ ok sent
unfolding init init_storage init_default_values update_exchange_rate set_singularity_config accrue
    get_interest_rate interest_rate utilization_of write_config add_asset allowed_lend put_asset
    add_tokens get put add_collateral open_deposit allowed_borrow put_collateral borrow refresh
    open_loan compute_allowance_amount_in_asset compute_max_borrowable_amount get_ratio lend draw
    credit_fee quotient_of require_solvent is_solvent transfer move
sent-eq = refl

pub accrued-eq : accrue sample (by "bob" 1000005) sent ≡ ok accrued
unfolding init init_storage init_default_values update_exchange_rate set_singularity_config accrue
    get_interest_rate interest_rate utilization_of write_config add_asset allowed_lend put_asset
    add_tokens get put add_collateral open_deposit allowed_borrow put_collateral borrow refresh
    open_loan compute_allowance_amount_in_asset compute_max_borrowable_amount get_ratio lend draw
    credit_fee quotient_of require_solvent is_solvent transfer move charge add_interest next_rate
    scale_of
accrued-eq = refl
