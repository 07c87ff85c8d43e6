-- ===== src/Market/Covering.antt =====
-- What `_isSolvent` of contracts/markets/Market.sol means for a user, and when a repaid amount covers
-- what was owed.
use tapioca_bar.Prelude.{
  ℕ, String, true, false, Result-cases, Zero-cases, inl, inr, ok, ◌≡◌, ◌≤◌, ◌<◌, ◌*◌, ◌/◌, ◌⊎◌,
  arith, get, ◌+◌,
}
use native.Mathlib.Nat.{le_of_mul-le-mul_right}
use tapioca_bar.Market.{Market, fee_precision}
use tapioca_bar.Market.Outside.{Outside}
use tapioca_bar.Market.Views.{is_solvent}

-- The debt of a user, in collateral at an exchange rate, is within the collateralization rate of
-- the collateral's amount; or the user owes nothing.
abbrev pub Covered : {W : Type 0} → Outside W → Market → W → String → ℕ → Type 0
Covered o s w user rate =
    (get s.user_borrow_part user ≡ 0)
    ⊎ ((amount : ℕ) × (o.to_amount w s.collateral_id (get s.user_collateral_share user) false
          ≡ ok amount)
        × (get s.user_borrow_part user * s.total_borrow.elastic * rate / s.total_borrow.base
            ≤ amount * (s.exchange_rate_precision / fee_precision) * s.collateralization_rate))

module _ {W : Type 0} (o : Outside W) where
  amount_covers :
      (s : Market) (w : W) (user : String) (rate amount : ℕ)
      → is_solvent o s w user rate false ≡ ok true
      → o.to_amount w s.collateral_id (get s.user_collateral_share user) false ≡ ok amount
      → 0 < get s.user_borrow_part user
      → get s.user_borrow_part user * s.total_borrow.elastic * rate / s.total_borrow.base
        ≤ amount * (s.exchange_rate_precision / fee_precision) * s.collateralization_rate
  unfolding is_solvent
  amount_covers s w user rate amount e h positive = ground arith

  pub solvent-Covered :
      (s : Market) (w : W) (user : String) (rate : ℕ)
      → is_solvent o s w user rate false ≡ ok true
      → Covered o s w user rate
  unfolding is_solvent
  solvent-Covered s w user rate e = elim (Zero-cases (get s.user_borrow_part user)) [
    | inl empty ↦ inl empty
    | inr owes ↦
        elim (Result-cases
          (o.to_amount w s.collateral_id (get s.user_collateral_share user) false)) [
            | inl (amount, h) ↦ inr (amount, h, amount_covers s w user rate amount e h owes)
            | inr (reason, failed) ↦ absurd (ground arith)
          ]
  ]

-- Where a part covers what is owed, the amount that covers the part repays it.
pub repaid-covers :
    (owed part repaid elastic base : ℕ)
    → owed * base ≤ part * elastic
    → part * (elastic + owed) ≤ repaid * (base + part)
    → 0 < base + part
    → owed ≤ repaid
repaid-covers owed part repaid elastic base h k positive =
    le_of_mul-le-mul_right {k = base + part} (omega (arith, h, k)) positive
