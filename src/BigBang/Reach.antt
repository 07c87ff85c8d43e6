-- ===== src/BigBang/Reach.antt =====
-- The states that calls of a BigBang market, leverage aside, reach in any order and from any
-- senders.
use tapioca_bar.Prelude.{ℕ, String, Bool, List, ok, ◌≡◌, arith}
use tapioca_bar.Market.{Market, PauseType}
use tapioca_bar.Market.Views.{update_exchange_rate}
use tapioca_bar.Market.Outside.{Outside, Call, IsRebaseLibrary}
use tapioca_bar.Market.Configuration.{MarketConfig}
use tapioca_bar.Market.Books.{
  SameBooks, IsInStep-AreBalanced, SameBooks-AreBalanced, set_market_config_books, update_books,
}
use tapioca_bar.BigBang.{BigBang, accrue_external}
use tapioca_bar.BigBang.Frame.{accrue_books}
use tapioca_bar.BigBang.Operations.{borrow, repay, add_collateral, remove_collateral}
use tapioca_bar.BigBang.Liquidation.{liquidate, liquidate_bad_debt}
use tapioca_bar.BigBang.Owner.{
  configure, update_pause, update_pause_all, consume_mintable_open_interest_debt,
  set_min_and_max_mint_range, set_min_and_max_mint_fee, refresh_penrose_fees, set_debt_rates,
  set_debt_rate_helper, set_big_bang_config,
}
use tapioca_bar.BigBang.Balance.{
  IsBalanced, borrow-IsInStep, repay-IsInStep, add_collateral-IsInStep, remove_collateral-IsInStep,
}
use tapioca_bar.BigBang.Books.{liquidate-IsBalanced, liquidate_bad_debt-IsInStep}

-- A call of the owner or of a pauser.
pub data OwnerStep {W : Type 0} (o : Outside W) (s t : BigBang W) : Type 0 where
  configuration : (c : Call) (a : MarketConfig) → configure o c a s ≡ ok t → OwnerStep o s t
  pause : (c : Call) (k : PauseType) (b : Bool) → update_pause o c k b s ≡ ok t → OwnerStep o s t
  pause_all : (c : Call) (b : Bool) → update_pause_all o c b s ≡ ok t → OwnerStep o s t
  consumption :
      (c : Call) (n : ℕ) → consume_mintable_open_interest_debt o c s ≡ ok (n, t) → OwnerStep o s t
  range : (c : Call) (m n : ℕ) → set_min_and_max_mint_range o c m n s ≡ ok t → OwnerStep o s t
  fee : (c : Call) (m n : ℕ) → set_min_and_max_mint_fee o c m n s ≡ ok t → OwnerStep o s t
  helper : (c : Call) (a : String) → set_debt_rate_helper o c a s ≡ ok t → OwnerStep o s t
  fees : (c : Call) (n : ℕ) → refresh_penrose_fees o c s ≡ ok (n, t) → OwnerStep o s t
  debt_config :
      (c : Call) (min max against multiplier : ℕ)
      → set_big_bang_config o c min max against multiplier s ≡ ok t
      → OwnerStep o s t

-- A call that does not revert.
pub data Step {W : Type 0} (o : Outside W) (s t : BigBang W) : Type 0 where
  accrual : (c : Call) → accrue_external o c s ≡ ok t → Step o s t
  exchange :
      (c : Call) (r : Market × W)
      → update_exchange_rate o c s.market s.outside ≡ ok r
      → t ≡ record s { market = r.0; outside = r.1 }
      → Step o s t
  loan :
      (c : Call) (from to : String) (amount : ℕ) (r : ℕ × ℕ)
      → borrow o c from to amount s ≡ ok (r, t)
      → Step o s t
  repayment :
      (c : Call) (from to : String) (part amount : ℕ)
      → repay o c from to part s ≡ ok (amount, t)
      → Step o s t
  deposit :
      (c : Call) (from to : String) (skim : Bool) (amount share : ℕ)
      → add_collateral o c from to skim amount share s ≡ ok t
      → Step o s t
  removal :
      (c : Call) (from to : String) (share : ℕ)
      → remove_collateral o c from to share s ≡ ok t
      → Step o s t
  liquidation :
      (c : Call) (users : List String) (parts bonuses : List ℕ) (receivers bytes : List String)
      → liquidate o c users parts bonuses receivers bytes s ≡ ok t
      → Step o s t
  bad_debt :
      (c : Call) (user from receiver liquidator bytes : String) (swap : Bool)
      → liquidate_bad_debt o c user from receiver liquidator bytes swap s ≡ ok t
      → Step o s t
  owner : OwnerStep o s t → Step o s t

pub data Reaches {W : Type 0} (o : Outside W) (s : BigBang W) : BigBang W → Type 0 where
  here : Reaches o s s
  after : {t u : BigBang W} → Reaches o s t → Step o t u → Reaches o s u

module _ {W : Type 0} (o : Outside W) (c : Call) where
  accrue_external_books :
      (s t : BigBang W) → accrue_external o c s ≡ ok t → SameBooks s.market t.market
  unfolding accrue_external
  accrue_external_books s t e = grind (arith, accrue_books)

  exchange_books :
      (s t : BigBang W) (r : Market × W)
      → update_exchange_rate o c s.market s.outside ≡ ok r
      → t ≡ record s { market = r.0; outside = r.1 }
      → SameBooks s.market t.market
  exchange_books s t r e same = rw (same) (update_books o c s.market s.outside r e)

  configure_books :
      (a : MarketConfig) (s t : BigBang W) → configure o c a s ≡ ok t → SameBooks s.market t.market
  unfolding configure
  configure_books a s t e = grind (arith, set_market_config_books)

  set_debt_rates_market :
      (min max against : ℕ) (s t : BigBang W)
      → set_debt_rates o c min max against s ≡ ok t
      → t.market ≡ s.market
  unfolding set_debt_rates
  set_debt_rates_market min max against s t e = ground arith

  debt_config_books :
      (min max against multiplier : ℕ) (s t : BigBang W)
      → set_big_bang_config o c min max against multiplier s ≡ ok t
      → SameBooks s.market t.market
  unfolding set_big_bang_config
  debt_config_books min max against multiplier s t e =
      grind (arith, accrue_books, set_debt_rates_market)

module _ {W : Type 0} (o : Outside W) (s t : BigBang W) where
  OwnerStep-books : OwnerStep o s t → SameBooks s.market t.market
  unfolding update_pause update_pause_all consume_mintable_open_interest_debt
      set_min_and_max_mint_range set_min_and_max_mint_fee refresh_penrose_fees set_debt_rate_helper
  OwnerStep-books (configuration c a e) = configure_books o c a s t e
  OwnerStep-books (pause c k b e) = ground arith
  OwnerStep-books (pause_all c b e) = ground arith
  OwnerStep-books (consumption c n e) = ground arith
  OwnerStep-books (range c m n e) = ground arith
  OwnerStep-books (fee c m n e) = ground arith
  OwnerStep-books (helper c a e) = ground arith
  OwnerStep-books (fees c n e) = ground arith
  OwnerStep-books (debt_config c min max against multiplier e) =
      debt_config_books o c min max against multiplier s t e

  Step-IsBalanced : IsRebaseLibrary o → Step o s t → IsBalanced s → IsBalanced t
  Step-IsBalanced laws (accrual c e) v =
      SameBooks-AreBalanced s.market t.market (accrue_external_books o c s t e) v
  Step-IsBalanced laws (exchange c r e same) v =
      SameBooks-AreBalanced s.market t.market (exchange_books o c s t r e same) v
  Step-IsBalanced laws (loan c from to amount r e) v =
      IsInStep-AreBalanced s.market t.market (borrow-IsInStep o c laws from to amount s (r, t) e) v
  Step-IsBalanced laws (repayment c from to part amount e) v =
      IsInStep-AreBalanced s.market t.market (repay-IsInStep o c laws from to part s (amount, t) e)
        v
  Step-IsBalanced laws (deposit c from to skim amount share e) v =
      IsInStep-AreBalanced s.market t.market
        (add_collateral-IsInStep o c laws from to skim amount share s t e) v
  Step-IsBalanced laws (removal c from to share e) v =
      IsInStep-AreBalanced s.market t.market
        (remove_collateral-IsInStep o c laws from to share s t e) v
  Step-IsBalanced laws (liquidation c users parts bonuses receivers bytes e) v =
      liquidate-IsBalanced o c users parts bonuses receivers bytes s t e v
  Step-IsBalanced laws (bad_debt c user from receiver liquidator bytes swap e) v =
      IsInStep-AreBalanced s.market t.market
        (liquidate_bad_debt-IsInStep o c user from receiver liquidator bytes swap s t e) v
  Step-IsBalanced laws (owner step) v =
      SameBooks-AreBalanced s.market t.market (OwnerStep-books step) v

-- Where the rebase library adds and subtracts as documented, in every state that accruals, updates
-- of the exchange rate, loans, repayments, deposits and removals of collateral, liquidations and
-- calls of the owner reach from one whose books balance, in any order and from any senders, the
-- borrow parts of the users add up to the parts of the total debt, and their collateral shares to
-- the total collateral. Leverage, approvals, permits and `execute` are not among these calls.
pub Reaches-IsBalanced :
    {W : Type 0} {o : Outside W} {s t : BigBang W}
    → IsRebaseLibrary o
    → IsBalanced s
    → Reaches o s t
    → IsBalanced t
Reaches-IsBalanced laws v here = v
Reaches-IsBalanced laws v (after r step) =
    Step-IsBalanced _ _ _ laws step (Reaches-IsBalanced laws v r)
