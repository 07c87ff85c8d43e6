-- ===== src/BigBang/Frame.antt =====
-- What the steps around an operation leave alone: accruals, exchange rates, fees and allowances
-- change nobody's parts or shares.
use tapioca_bar.Prelude.{ℕ, String, Bool, ok, ◌≡◌, arith}
use tapioca_bar.Market.Outside.{Outside, Call}
use tapioca_bar.Market.Books.{
  SameBooks, update_books, try_update_books, allowed_lend_books, allowed_borrow_books,
}
use tapioca_bar.BigBang.{BigBang, accrue, accrue_own, compute_variable_opening_fee, add_tokens}
use tapioca_bar.BigBang.Lending.{spend_allowance, collect}
use tapioca_bar.BigBang.Operations.{refresh, try_refresh, open_loan, open_deposit, open_removal}

module _ {W : Type 0} (o : Outside W) (c : Call) where
  pub accrue_own_books : (s t : BigBang W) → accrue_own o c s ≡ ok t → SameBooks s.market t.market
  unfolding accrue_own
  accrue_own_books s t e = (ground arith, ground arith, ground arith, ground arith)

  pub accrue_books : (s t : BigBang W) → accrue o c s ≡ ok t → SameBooks s.market t.market
  unfolding accrue
  accrue_books s t e = grind (arith, accrue_own_books)

  pub refresh_books : (s t : BigBang W) → refresh o c s ≡ ok t → SameBooks s.market t.market
  unfolding refresh
  refresh_books s t e = grind (arith, accrue_books, update_books)

  pub try_refresh_books : (s t : BigBang W) → try_refresh o c s ≡ ok t → SameBooks s.market t.market
  unfolding try_refresh
  try_refresh_books s t e = grind (arith, accrue_books, try_update_books)

  pub spend_allowance_books :
      (from to : String) (part : ℕ) (s t : BigBang W)
      → spend_allowance o c from to part s ≡ ok t
      → SameBooks s.market t.market
  unfolding spend_allowance
  spend_allowance_books from to part s t e = grind (arith, allowed_lend_books)

  pub collect_market :
      (from : String) (amount : ℕ) (s t : BigBang W)
      → collect o c from amount s ≡ ok t
      → t.market ≡ s.market
  unfolding collect
  collect_market from amount s t e = ground arith

  pub add_tokens_market :
      (from : String) (id share all : ℕ) (skim : Bool) (s t : BigBang W)
      → add_tokens o c from id share all skim s ≡ ok t
      → t.market ≡ s.market
  unfolding add_tokens
  add_tokens_market from id share all skim s t e = ground arith

  pub opening_fee_market :
      (amount : ℕ) (s : BigBang W) (r : ℕ × BigBang W)
      → compute_variable_opening_fee o c amount s ≡ ok r
      → r.1.market ≡ s.market
  unfolding compute_variable_opening_fee
  opening_fee_market amount s r e = ground arith

  pub open_loan_books :
      (from : String) (amount : ℕ) (s : BigBang W) (r : ℕ × BigBang W)
      → open_loan o c from amount s ≡ ok r
      → SameBooks s.market r.1.market
  unfolding open_loan
  open_loan_books from amount s r e = grind (arith, opening_fee_market, allowed_borrow_books)

  pub open_deposit_books :
      (from : String) (amount share : ℕ) (s : BigBang W) (r : (ℕ × ℕ) × BigBang W)
      → open_deposit o c from amount share s ≡ ok r
      → SameBooks s.market r.1.market
  unfolding open_deposit
  open_deposit_books from amount share s r e = grind (arith, allowed_borrow_books)

  pub open_removal_books :
      (from to : String) (share : ℕ) (s t : BigBang W)
      → open_removal o c from to share s ≡ ok t
      → SameBooks s.market t.market
  unfolding open_removal
  open_removal_books from to share s t e = grind (arith, refresh_books, allowed_borrow_books)
