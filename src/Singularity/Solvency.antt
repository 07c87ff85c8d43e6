-- ===== src/Singularity/Solvency.antt =====
-- Borrowing and taking collateral leave the borrower of a Singularity market covered.
use tapioca_bar.Prelude.{
  ℕ, String, Result-cases, Zero-cases, inl, inr, ok, ◌≡◌, ◌≤◌, ◌<◌, ◌⊎◌, arith,
}
use tapioca_bar.Market.Outside.{Outside, Call}
use tapioca_bar.Market.Covering.{Covered, solvent-Covered}
use tapioca_bar.Singularity.{Singularity}
use tapioca_bar.Singularity.Lending.{draw, credit_fee, lend}
use tapioca_bar.Singularity.Operations.{
  borrow, remove_collateral, require_solvent, refresh, open_loan,
}

module _ {W : Type 0} (o : Outside W) (c : Call) where
  require_solvent-Covered :
      (user : String) (s : Singularity W) (e : require_solvent o c user s ≡ ok tt)
      → Covered o s.market s.outside user s.market.exchange_rate
  unfolding require_solvent
  require_solvent-Covered user s e =
      solvent-Covered o s.market s.outside user s.market.exchange_rate (ground arith)

  cap_respected :
      (from to : String) (amount : ℕ) (s : Singularity W) (r : (ℕ × ℕ) × Singularity W)
      → lend o c from to amount s ≡ ok r
      → 0 < r.1.market.total_borrow_cap
      → r.1.market.total_borrow.elastic ≤ r.1.market.total_borrow_cap
  unfolding lend draw credit_fee
  cap_respected from to amount s r e capped = ground arith

  floor_respected :
      (from to : String) (amount : ℕ) (s : Singularity W) (r : (ℕ × ℕ) × Singularity W)
      → lend o c from to amount s ≡ ok r
      → 1000 ≤ r.1.total_asset.base
  unfolding lend draw credit_fee
  floor_respected from to amount s r e = ground arith

  -- After a loan that does not revert the borrower is covered at the exchange rate that the loan
  -- stored, the total debt is at most the market's cap, where there is one, and the fractions of the
  -- assets, those of the fees that Penrose has earned included, are at least 1000.
  pub borrow_safe :
      (from to : String) (amount : ℕ) (s : Singularity W) (r : (ℕ × ℕ) × Singularity W)
      → borrow o c from to amount s ≡ ok r
      → Covered o r.1.market r.1.outside from r.1.market.exchange_rate
        × ((r.1.market.total_borrow_cap ≡ 0)
            ⊎ (r.1.market.total_borrow.elastic ≤ r.1.market.total_borrow_cap))
        × (1000 ≤ r.1.total_asset.base)
  unfolding borrow
  borrow_safe from to amount s r e = elim (Result-cases (refresh o c s)) [
    | inl (t, done) ↦ elim (Result-cases (open_loan o c from amount t)) [
      | inl (u, opened) ↦ (
        require_solvent-Covered from r.1 (ground arith),
        elim (Zero-cases r.1.market.total_borrow_cap) [
          | inl empty ↦ inl empty
          | inr capped ↦ inr (cap_respected from to amount u r (ground arith) capped)
        ],
        floor_respected from to amount u r (ground arith),
      )
      | inr (reason, failed) ↦ absurd (ground arith)
    ]
    | inr (reason, failed) ↦ absurd (ground arith)
  ]

  -- After a removal of collateral that does not revert the borrower is covered at the exchange rate
  -- that the removal stored.
  pub removal-Covered :
      (from to : String) (share : ℕ) (s t : Singularity W)
      → remove_collateral o c from to share s ≡ ok t
      → Covered o t.market t.outside from t.market.exchange_rate
  unfolding remove_collateral
  removal-Covered from to share s t e = require_solvent-Covered from t (ground arith)
