-- ===== src/BigBang/Seizures.antt =====
-- Whom a liquidation spares.
use tapioca_bar.Prelude.{ℕ, true, List, [], ◌∷◌, ok, err, rejected, ◌≡◌, arith, All}
use tapioca_bar.Market.Outside.{Outside, Call}
use tapioca_bar.Market.Views.{is_solvent}
use tapioca_bar.BigBang.{BigBang}
use tapioca_bar.Market.Seizure.{Request}
use tapioca_bar.BigBang.Liquidation.{liquidate_all, closed_liquidation}

module _ {W : Type 0} (o : Outside W) (c : Call) where
  none_liquidated :
      (entries : List Request) (rate : ℕ) (s : BigBang W)
      → All (λ (q : Request). is_solvent o s.market s.outside q.user rate true ≡ ok true) entries
      → liquidate_all o c entries rate s ≡ ok (0, s)
  unfolding liquidate_all
  none_liquidated [] rate s all = ground arith
  none_liquidated (q ∷ rest) rate s all = ground (arith, all.0, none_liquidated rest rate s all.1)

  -- A liquidation of users who are all solvent at the liquidation rate reverts.
  pub closed_liquidation_solvent :
      (entries : List Request) (rate : ℕ) (s : BigBang W)
      → All (λ (q : Request). is_solvent o s.market s.outside q.user rate true ≡ ok true) entries
      → closed_liquidation o c entries rate s ≡ err (rejected "BB: no users found")
  unfolding closed_liquidation
  closed_liquidation_solvent entries rate s all = ground (arith, none_liquidated entries rate s all)
