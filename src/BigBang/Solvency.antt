-- ===== src/BigBang/Solvency.antt =====
-- Borrowing and taking collateral leave the borrower solvent and the market under its cap.
use tapioca_bar.Prelude.{
  ℕ, String, Result-cases, Zero-cases, inl, inr, ok, ◌≡◌, ◌≤◌, ◌<◌, ◌⊎◌, arith,
}
use tapioca_bar.Market.Outside.{Outside, Call}
use tapioca_bar.Market.Covering.{Covered, solvent-Covered}
use tapioca_bar.BigBang.{BigBang}
use tapioca_bar.BigBang.Lending.{lend}
use tapioca_bar.BigBang.Operations.{borrow, remove_collateral, require_solvent, refresh, open_loan}

module _ {W : Type 0} (o : Outside W) where
  require_solvent-Covered :
      (c : Call) (user : String) (s : BigBang W) (e : require_solvent o c user s ≡ ok tt)
      → Covered o s.market s.outside user s.market.exchange_rate
  unfolding require_solvent
  require_solvent-Covered c user s e =
      solvent-Covered o s.market s.outside user s.market.exchange_rate (ground arith)

  cap_respected :
      (c : Call) (from to : String) (amount fee : ℕ) (s : BigBang W) (r : (ℕ × ℕ) × BigBang W)
      → lend o c from to amount fee s ≡ ok r
      → 0 < r.1.market.total_borrow_cap
      → r.1.market.total_borrow.elastic ≤ r.1.market.total_borrow_cap
  unfolding lend
  cap_respected c from to amount fee s r e capped = ground arith

  -- After a loan that does not revert the borrower is covered at the exchange rate that the loan
  -- stored, and the total debt is at most the market's cap, where there is one.
  pub borrow-Covered :
      (c : Call) (from to : String) (amount : ℕ) (s : BigBang W) (r : (ℕ × ℕ) × BigBang W)
      → borrow o c from to amount s ≡ ok r
      → Covered o r.1.market r.1.outside from r.1.market.exchange_rate
        × ((r.1.market.total_borrow_cap ≡ 0)
            ⊎ (r.1.market.total_borrow.elastic ≤ r.1.market.total_borrow_cap))
  unfolding borrow
  borrow-Covered c from to amount s r e = elim (Result-cases (refresh o c s)) [
    | inl (t, done) ↦ elim (Result-cases (open_loan o c from amount t)) [
      | inl (p, opened) ↦ (
        require_solvent-Covered c from r.1 (ground arith),
        elim (Zero-cases r.1.market.total_borrow_cap) [
          | inl empty ↦ inl empty
          | inr capped ↦ inr (cap_respected c from to amount p.0 p.1 r (ground arith) capped)
        ],
      )
      | inr (reason, failed) ↦ absurd (ground arith)
    ]
    | inr (reason, failed) ↦ absurd (ground arith)
  ]

  -- After a removal of collateral that does not revert the borrower is covered at the exchange rate
  -- that the removal stored.
  remove_collateral-Covered :
      (c : Call) (from to : String) (share : ℕ) (s t : BigBang W)
      → remove_collateral o c from to share s ≡ ok t
      → Covered o t.market t.outside from t.market.exchange_rate
  unfolding remove_collateral
  remove_collateral-Covered c from to share s t e = require_solvent-Covered c from t (ground arith)
