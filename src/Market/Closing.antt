-- ===== src/Market/Closing.antt =====
-- The closing factor of a liquidation: how much of a debt it may take.
use tapioca_bar.Prelude.{ℕ, ok, IsOk, ◌≡◌, ◌≤◌, ◌⊎◌, arith, ◌*◌, ◌/◌, ◌^◌}
use tapioca_bar.Market.{Rebase}
use tapioca_bar.Market.Views.{compute_closing_factor, factor_of}

factor_of-le :
    (owed numerator precision diff factor : ℕ)
    → factor_of owed numerator precision diff ≡ ok factor
    → factor ≤ owed
unfolding factor_of
factor_of-le owed numerator precision diff factor e = ground arith

-- The closing factor is at most what the user owes, and 0 where that is worth less than the
-- collateral at the liquidation rate.
pub compute_closing_factor_bounds :
    (part collateral precision rate multiplier factor : ℕ) (r : Rebase)
    → compute_closing_factor part collateral precision rate multiplier r ≡ ok factor
    → (factor ≤ part * r.elastic / r.base)
      × ((factor ≡ 0) ⊎ (collateral * rate / 10 ^ precision ≤ part * r.elastic / r.base))
unfolding compute_closing_factor
compute_closing_factor_bounds part collateral precision rate multiplier factor r e =
    (grind (arith, factor_of-le), ground arith)

-- With the default multiplier and a liquidation rate of 89286, the denominator of the closing
-- factor is 0: it reverts for whoever may be liquidated.
pub compute_closing_factor_stuck :
    (part collateral : ℕ) (r : Rebase)
    → collateral * 89286 / 100000 ≤ part * r.elastic / r.base
    → ¬ IsOk (compute_closing_factor part collateral 5 89286 12000 r)
unfolding compute_closing_factor factor_of
compute_closing_factor_stuck part collateral r over done = ground arith
