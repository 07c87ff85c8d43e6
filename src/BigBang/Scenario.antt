-- ===== src/BigBang/Scenario.antt =====
-- Alice adds collateral to a fresh market, borrows and takes collateral back.
use tapioca_bar.Prelude.{ℕ, false, Result, ok, err, ◌≡◌, ◌*◌, ◌^◌, refl, get, put}
use tapioca_bar.Market.Views.{
  is_solvent, update_exchange_rate, compute_allowance_amount_in_asset,
  compute_max_borrowable_amount, get_ratio,
}
use tapioca_bar.Market.Allowances.{allowed_borrow}
use tapioca_bar.BigBang.{
  BigBang, accrue, accrue_own, get_debt_rate, compute_variable_opening_fee,
  compute_variable_opening_fee_view, mint_fee, add_tokens,
}
use tapioca_bar.BigBang.Lending.{put_collateral, take_collateral, lend, collect, settle}
use tapioca_bar.BigBang.Operations.{
  refresh, require_solvent, open_loan, open_deposit, open_removal, borrow, add_collateral,
  remove_collateral,
}
use tapioca_bar.BigBang.Sample.{sample, fresh, by, quotient_of}

abbrev pub value_or {ℓ} : {A : Type ℓ} → A → Result A → A
value_or other (ok a) = a
value_or other (err e) = other

abbrev pub coin : ℕ
coin = 10 ^ 18

abbrev pub deposited : BigBang ℕ
deposited =
    value_or fresh
      (add_collateral sample (by "alice" 1) "alice" "alice" false (4 * coin) (4 * coin) fresh)

abbrev pub borrowed : (ℕ × ℕ) × BigBang ℕ
borrowed = value_or ((0, 0), fresh) (borrow sample (by "alice" 1000) "alice" "alice" coin deposited)

abbrev pub removed : BigBang ℕ
removed =
    value_or fresh (remove_collateral sample (by "alice" 2000) "alice" "alice" coin borrowed.1)

abbrev pub lent : (ℕ × ℕ) × BigBang ℕ
lent = value_or ((0, 0), fresh) (lend sample (by "alice" 2) "alice" "alice" coin 10 borrowed.1)

abbrev pub settled : ℕ × BigBang ℕ
settled = value_or (0, fresh) (settle sample (by "alice" 2) "alice" "alice" lent.0.0 false lent.1)

abbrev pub accrued : BigBang ℕ
accrued = value_or fresh (accrue_own sample (by "bob" 100000) borrowed.1)

pub deposited-eq :
    add_collateral sample (by "alice" 1) "alice" "alice" false (4 * coin) (4 * coin) fresh
    ≡ ok deposited
unfolding add_collateral open_deposit allowed_borrow put_collateral add_tokens get put
deposited-eq = refl

pub borrowed-eq : borrow sample (by "alice" 1000) "alice" "alice" coin deposited ≡ ok borrowed
unfolding add_collateral open_deposit allowed_borrow put_collateral add_tokens get put borrow
    refresh update_exchange_rate accrue accrue_own get_debt_rate open_loan
    compute_variable_opening_fee compute_variable_opening_fee_view mint_fee
    compute_allowance_amount_in_asset compute_max_borrowable_amount get_ratio lend quotient_of
    require_solvent is_solvent
borrowed-eq = refl

pub removed-eq :
    remove_collateral sample (by "alice" 2000) "alice" "alice" coin borrowed.1 ≡ ok removed
unfolding add_collateral open_deposit allowed_borrow put_collateral add_tokens get put borrow
    refresh update_exchange_rate accrue accrue_own get_debt_rate open_loan
    compute_variable_opening_fee compute_variable_opening_fee_view mint_fee
    compute_allowance_amount_in_asset compute_max_borrowable_amount get_ratio lend quotient_of
    require_solvent is_solvent remove_collateral open_removal take_collateral
removed-eq = refl

pub lent-eq : lend sample (by "alice" 2) "alice" "alice" coin 10 borrowed.1 ≡ ok lent
unfolding add_collateral open_deposit allowed_borrow put_collateral add_tokens get put borrow
    refresh update_exchange_rate accrue accrue_own get_debt_rate open_loan
    compute_variable_opening_fee compute_variable_opening_fee_view mint_fee
    compute_allowance_amount_in_asset compute_max_borrowable_amount get_ratio lend quotient_of
    require_solvent is_solvent
lent-eq = refl

pub settled-eq : settle sample (by "alice" 2) "alice" "alice" lent.0.0 false lent.1 ≡ ok settled
unfolding add_collateral open_deposit allowed_borrow put_collateral add_tokens get put borrow
    refresh update_exchange_rate accrue accrue_own get_debt_rate open_loan
    compute_variable_opening_fee compute_variable_opening_fee_view mint_fee
    compute_allowance_amount_in_asset compute_max_borrowable_amount get_ratio lend quotient_of
    require_solvent is_solvent settle collect
settled-eq = refl

pub accrued-eq : accrue_own sample (by "bob" 100000) borrowed.1 ≡ ok accrued
unfolding add_collateral open_deposit allowed_borrow put_collateral add_tokens get put borrow
    refresh update_exchange_rate accrue accrue_own get_debt_rate open_loan
    compute_variable_opening_fee compute_variable_opening_fee_view mint_fee
    compute_allowance_amount_in_asset compute_max_borrowable_amount get_ratio lend quotient_of
    require_solvent is_solvent
accrued-eq = refl
