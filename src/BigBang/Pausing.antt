-- ===== src/BigBang/Pausing.antt =====
-- What a pause stops.
use tapioca_bar.Prelude.{ℕ, String, Bool, true, List, ok, IsOk, ◌≡◌, arith}
use tapioca_bar.Market.Outside.{Outside, Call}
use tapioca_bar.BigBang.{BigBang, accrue_external}
use tapioca_bar.BigBang.Operations.{borrow, repay, add_collateral, remove_collateral, open_removal}
use tapioca_bar.BigBang.Liquidation.{liquidate}
use tapioca_bar.BigBang.Owner.{update_pause_all}

module _ {W : Type 0} (o : Outside W) where
  -- Right after a pause of everything that does not revert, no sender can borrow, repay, add or
  -- remove collateral, liquidate or accrue from outside: each reverts.
  pub update_pause_all_stops :
      (c d : Call) (s t : BigBang W) (from to : String) (skim : Bool) (amount share : ℕ)
      (users : List String) (parts bonuses : List ℕ) (receivers bytes : List String)
      → update_pause_all o c true s ≡ ok t
      → (¬ IsOk (borrow o d from to amount t))
        × (¬ IsOk (repay o d from to amount t))
        × (¬ IsOk (add_collateral o d from to skim amount share t))
        × (¬ IsOk (remove_collateral o d from to share t))
        × (¬ IsOk (liquidate o d users parts bonuses receivers bytes t))
        × (¬ IsOk (accrue_external o d t))
  unfolding update_pause_all borrow repay add_collateral remove_collateral open_removal liquidate
      accrue_external
  update_pause_all_stops c d s t from to skim amount share users parts bonuses receivers bytes e = (
    (λ h. ground arith),
    (λ h. ground arith),
    (λ h. ground arith),
    (λ h. ground arith),
    (λ h. ground arith),
    (λ h. ground arith),
  )
