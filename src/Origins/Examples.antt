-- ===== src/Origins/Examples.antt =====
-- An Origins market is constructed; its owner adds collateral, borrows and repays.
use tapioca_bar.Prelude.{ℕ, true, inl, ok, ◌≡◌, ◌≤◌, ◌*◌, refl, arith, get, put, sub}
use tapioca_bar.Market.Outside.{Outside, IsRebaseLibrary}
use tapioca_bar.Market.Views.{update_exchange_rate, is_solvent}
use tapioca_bar.BigBang.Sample.{sample, sample-IsRebaseLibrary, by, quotient_of}
use tapioca_bar.BigBang.Scenario.{value_or, coin}
use tapioca_bar.Origins.{Origins, OriginsData, construct, unset}
use tapioca_bar.Origins.Operations.{
  put_collateral, lend, settle, refresh, require_solvent, add_collateral, borrow, repay,
}
use tapioca_bar.Origins.Steps.{IsIssuance}
use tapioca_bar.Origins.Reach.{IsOwed, Reaches-IsOwed, here, after, deposit, loan, repayment}
use tapioca_bar.Origins.Loans.{borrow-repay}

-- The state outside is the USDO that the market has issued.
abbrev counted : Outside ℕ
counted = record sample { burn = λ from amount w. sub w amount }

abbrev issued : ℕ → ℕ
issued w = w

counted-IsRebaseLibrary : IsRebaseLibrary counted
counted-IsRebaseLibrary = record {
  added = sample-IsRebaseLibrary.added;
  subtracted = sample-IsRebaseLibrary.subtracted;
  added_both = sample-IsRebaseLibrary.added_both;
  part_rounded_up = sample-IsRebaseLibrary.part_rounded_up;
  amount_rounded_up = sample-IsRebaseLibrary.amount_rounded_up;
}

counted-IsIssuance : IsIssuance counted issued
counted-IsIssuance = record {
  minted = λ to amount w v e. ground arith;
  burnt = λ from amount w v e. ground arith;
  asked = λ oracle bytes w x e. ground arith;
  transferred = λ from to id share w v e. ground arith;
  deposited = λ id from to amount share w x e. ground arith;
  withdrawn = λ id from to amount share w x e. ground arith;
}

abbrev data_of_market : OriginsData
data_of_market = record {
  owner = "0xA1";
  asset = "0x15";
  asset_id = 3;
  collateral = "0x16";
  collateral_id = 2;
  oracle = "0x0C";
  exchange_rate_precision = 0;
  collateralization_rate = 75000;
}

abbrev empty_market : Origins ℕ
empty_market = record { market = unset; allowed_participants = λ user. true; outside = 0 }

abbrev made : Origins ℕ
made = value_or empty_market (construct counted (by "0xDE" 1) data_of_market 7)

abbrev secured : Origins ℕ
secured = value_or empty_market (add_collateral counted (by "0xA1" 2) (4 * coin) 0 made)

abbrev borrowed : (ℕ × ℕ) × Origins ℕ
borrowed = value_or ((0, 0), empty_market) (borrow counted (by "0xA1" 3) coin secured)

abbrev repaid : ℕ × Origins ℕ
repaid = value_or (0, empty_market) (repay counted (by "0xA1" 4) borrowed.0.0 borrowed.1)

made-eq : construct counted (by "0xDE" 1) data_of_market 7 ≡ ok made
unfolding construct update_exchange_rate
made-eq = refl

secured-eq : add_collateral counted (by "0xA1" 2) (4 * coin) 0 made ≡ ok secured
unfolding construct update_exchange_rate add_collateral put_collateral get put
secured-eq = refl

borrowed-eq : borrow counted (by "0xA1" 3) coin secured ≡ ok borrowed
unfolding construct update_exchange_rate add_collateral put_collateral get put borrow refresh lend
    quotient_of require_solvent is_solvent
borrowed-eq = refl

repaid-eq : repay counted (by "0xA1" 4) borrowed.0.0 borrowed.1 ≡ ok repaid
unfolding construct update_exchange_rate add_collateral put_collateral get put borrow refresh lend
    quotient_of require_solvent is_solvent repay settle
repaid-eq = refl

no_debt : secured.market.total_borrow.base ≡ 0
unfolding construct update_exchange_rate add_collateral put_collateral get put
no_debt = refl

Reaches-IsOwed_example : IsOwed issued 7 repaid.1
Reaches-IsOwed_example =
    Reaches-IsOwed counted issued (by "0xDE" 1) data_of_market 7 {s = made} {t = repaid.1}
      counted-IsRebaseLibrary counted-IsIssuance made-eq
      (after
        (after (after here (deposit (by "0xA1" 2) (4 * coin) 0 secured-eq))
          (loan (by "0xA1" 3) coin borrowed.0 borrowed-eq))
        (repayment (by "0xA1" 4) borrowed.0.0 repaid.0 repaid-eq))

borrow-repay_example :
    (coin ≤ repaid.0)
    × (get repaid.1.market.user_borrow_part "0xA1" ≡ get secured.market.user_borrow_part "0xA1")
    × (repaid.1.market.total_borrow.base ≡ secured.market.total_borrow.base)
    × (repaid.1.market.total_borrow.elastic ≤ secured.market.total_borrow.elastic)
borrow-repay_example =
    borrow-repay counted counted-IsRebaseLibrary (by "0xA1" 3) (by "0xA1" 4) coin secured borrowed
      repaid (inl no_debt) refl borrowed-eq repaid-eq
