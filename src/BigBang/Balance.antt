-- ===== src/BigBang/Balance.antt =====
-- The books of a BigBang market: the users' parts and shares add up to the totals, whatever calls
-- are made.
use tapioca_bar.Prelude.{ℕ, String, Bool, true, ok, ◌≡◌, arith, total-put, Result-cases, inl, inr}
use tapioca_bar.Market.Outside.{Outside, Call, IsRebaseLibrary}
use tapioca_bar.Market.Books.{AreBalanced, IsInStep, SameBooks-IsInStep}
use tapioca_bar.BigBang.{BigBang}
use tapioca_bar.BigBang.Frame.{
  refresh_books, try_refresh_books, open_loan_books, open_deposit_books, open_removal_books,
  spend_allowance_books, collect_market, add_tokens_market,
}
use tapioca_bar.BigBang.Lending.{put_collateral, take_collateral, lend, settle}
use tapioca_bar.BigBang.Operations.{
  refresh, try_refresh, open_loan, open_deposit, open_removal, borrow, repay, add_collateral,
  remove_collateral,
}

-- The users' borrow parts add up to the parts of the debt, and their collateral shares to the
-- collateral of the market.
abbrev pub IsBalanced : {W : Type 0} → BigBang W → Type 0
IsBalanced s = AreBalanced s.market

module _ {W : Type 0} (o : Outside W) (c : Call) (laws : IsRebaseLibrary o) where
  lend-IsInStep :
      (from to : String) (amount fee : ℕ) (s : BigBang W) (r : (ℕ × ℕ) × BigBang W)
      → lend o c from to amount fee s ≡ ok r
      → IsInStep s.market r.1.market
  unfolding lend
  lend-IsInStep from to amount fee s r e = (grind (arith, laws.added, total-put), ground arith)

  put_collateral-IsInStep :
      (from to : String) (skim : Bool) (amount share : ℕ) (tokens : Bool) (s t : BigBang W)
      → put_collateral o c from to skim amount share tokens s ≡ ok t
      → IsInStep s.market t.market
  unfolding put_collateral
  put_collateral-IsInStep from to skim amount share tokens s t e =
      (grind (arith, add_tokens_market), grind (arith, add_tokens_market, total-put))

  take_collateral-IsInStep :
      (from to : String) (share : ℕ) (s t : BigBang W)
      → take_collateral o c from to share s ≡ ok t
      → IsInStep s.market t.market
  unfolding take_collateral
  take_collateral-IsInStep from to share s t e = (ground arith, grind (arith, total-put))

  settle-IsInStep :
      (from to : String) (part : ℕ) (check : Bool) (s : BigBang W) (r : ℕ × BigBang W)
      → settle o c from to part check s ≡ ok r
      → IsInStep s.market r.1.market
  unfolding settle
  settle-IsInStep from to part check s r e = (
    grind (arith, laws.subtracted, total-put, spend_allowance_books, collect_market),
    grind (arith, spend_allowance_books, collect_market),
  )

  pub borrow-IsInStep :
      (from to : String) (amount : ℕ) (s : BigBang W) (r : (ℕ × ℕ) × BigBang W)
      → borrow o c from to amount s ≡ ok r
      → IsInStep s.market r.1.market
  unfolding borrow
  borrow-IsInStep from to amount s r e = elim (Result-cases (refresh o c s)) [
    | inl (t, done) ↦ elim (Result-cases (open_loan o c from amount t)) [
      | inl (p, opened) ↦
          SameBooks-IsInStep s.market t.market r.1.market (refresh_books o c s t done) (
            SameBooks-IsInStep t.market p.1.market r.1.market
              (open_loan_books o c from amount t p opened)
              (lend-IsInStep from to amount p.0 p.1 r (ground arith)))
      | inr (reason, failed) ↦ absurd (ground arith)
    ]
    | inr (reason, failed) ↦ absurd (ground arith)
  ]

  pub repay-IsInStep :
      (from to : String) (part : ℕ) (s : BigBang W) (r : ℕ × BigBang W)
      → repay o c from to part s ≡ ok r
      → IsInStep s.market r.1.market
  unfolding repay
  repay-IsInStep from to part s r e = elim (Result-cases (try_refresh o c s)) [
    | inl (t, done) ↦
        SameBooks-IsInStep s.market t.market r.1.market (try_refresh_books o c s t done)
          (settle-IsInStep from to part true t r (ground arith))
    | inr (reason, failed) ↦ absurd (ground arith)
  ]

  pub add_collateral-IsInStep :
      (from to : String) (skim : Bool) (amount share : ℕ) (s t : BigBang W)
      → add_collateral o c from to skim amount share s ≡ ok t
      → IsInStep s.market t.market
  unfolding add_collateral
  add_collateral-IsInStep from to skim amount share s t e =
      elim (Result-cases (open_deposit o c from amount share s)) [
        | inl (p, opened) ↦
            SameBooks-IsInStep s.market p.1.market t.market
              (open_deposit_books o c from amount share s p opened)
              (put_collateral-IsInStep from to skim p.0.0 p.0.1 true p.1 t (ground arith))
        | inr (reason, failed) ↦ absurd (ground arith)
      ]

  pub remove_collateral-IsInStep :
      (from to : String) (share : ℕ) (s t : BigBang W)
      → remove_collateral o c from to share s ≡ ok t
      → IsInStep s.market t.market
  unfolding remove_collateral
  remove_collateral-IsInStep from to share s t e =
      elim (Result-cases (open_removal o c from to share s)) [
        | inl (p, opened) ↦
            SameBooks-IsInStep s.market p.market t.market
              (open_removal_books o c from to share s p opened)
              (take_collateral-IsInStep from to share p t (ground arith))
        | inr (reason, failed) ↦ absurd (ground arith)
      ]
