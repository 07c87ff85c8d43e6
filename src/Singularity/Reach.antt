-- ===== src/Singularity/Reach.antt =====
-- The books and the fractions of a Singularity market in every state that its calls reach, in any
-- order and from any senders.
use tapioca_bar.Prelude.{
  ℕ, String, Bool, List, refl, ok, ◌≡◌, arith, get, total-put, Result-cases, inl, inr,
  if◌then◌else◌, ◌===◌,
}
use tapioca_bar.Penrose.{zero_address}
use tapioca_bar.Market.{PauseType, same_kind}
use tapioca_bar.Market.Outside.{Outside, Call, IsRebaseLibrary}
use tapioca_bar.Market.Configuration.{MarketConfig}
use tapioca_bar.Market.Books.{set_market_config_books}
use tapioca_bar.Singularity.{Singularity, accrue, accrue_external}
use tapioca_bar.Singularity.Operations.{borrow, repay, add_collateral, remove_collateral}
use tapioca_bar.Singularity.Assets.{
  add_asset, remove_asset, transfer, transfer_from, approve, approve_borrow,
}
use tapioca_bar.Singularity.Liquidation.{liquidate, liquidate_bad_debt}
use tapioca_bar.Singularity.Owner.{
  SingularityConfig, configure, reset_accrual, update_pause, collect_fees, refresh_penrose_fees,
  write_config, set_singularity_config,
}
use tapioca_bar.Singularity.Funds.{Keeps, accrue-Accrues}
use tapioca_bar.Singularity.Steps.{
  accrue_external-Accrues, borrow-Keeps, repay-Keeps, add_collateral-Keeps, remove_collateral-Keeps,
  add_asset-Keeps, remove_asset-Keeps, take_asset-Keeps, transfer-Keeps, transfer_from-Keeps,
}
use tapioca_bar.Singularity.Books.{
  IsBacked, Keeps-IsBacked, Accrues-IsBacked, liquidate-IsBacked, liquidate_bad_debt-Keeps,
}

-- A call of the owner or of a pauser.
pub data OwnerStep {W : Type 0} (o : Outside W) (s t : Singularity W) : Type 0 where
  configuration : (c : Call) (a : MarketConfig) → configure o c a s ≡ ok t → OwnerStep o s t
  pause :
      (c : Call) (kind : PauseType) (value reset : Bool)
      → update_pause o c kind value reset s ≡ ok t
      → OwnerStep o s t
  fees : (c : Call) (n : ℕ) → refresh_penrose_fees o c s ≡ ok (n, t) → OwnerStep o s t
  settings :
      (c : Call) (a : SingularityConfig) → set_singularity_config o c a s ≡ ok t → OwnerStep o s t

-- A call of a lender, on the assets or on the token of their fractions.
pub data LenderStep {W : Type 0} (o : Outside W) (s t : Singularity W) : Type 0 where
  supply :
      (c : Call) (from to : String) (skim : Bool) (share n : ℕ)
      → add_asset o c from to skim share s ≡ ok (n, t)
      → LenderStep o s t
  withdrawal :
      (c : Call) (from to : String) (fraction n : ℕ)
      → remove_asset o c from to fraction s ≡ ok (n, t)
      → LenderStep o s t
  send : (c : Call) (to : String) (amount : ℕ) → transfer o c to amount s ≡ ok t → LenderStep o s t
  send_from :
      (c : Call) (from to : String) (amount : ℕ)
      → transfer_from o c from to amount s ≡ ok t
      → LenderStep o s t
  approval :
      (c : Call) (spender : String) (amount : ℕ)
      → t ≡ approve o c spender amount s
      → LenderStep o s t
  borrow_approval :
      (c : Call) (spender : String) (amount : ℕ)
      → t ≡ approve_borrow o c spender amount s
      → LenderStep o s t

-- A call that does not revert.
pub data Step {W : Type 0} (o : Outside W) (s t : Singularity W) : Type 0 where
  accrual : (c : Call) → accrue_external o c s ≡ ok t → Step o s t
  loan :
      (c : Call) (from to : String) (amount : ℕ) (r : ℕ × ℕ)
      → borrow o c from to amount s ≡ ok (r, t)
      → Step o s t
  repayment :
      (c : Call) (from to : String) (skim : Bool) (part amount : ℕ)
      → repay o c from to skim part s ≡ ok (amount, t)
      → Step o s t
  deposit :
      (c : Call) (from to : String) (skim : Bool) (amount share : ℕ)
      → add_collateral o c from to skim amount share s ≡ ok t
      → Step o s t
  removal :
      (c : Call) (from to : String) (share : ℕ)
      → remove_collateral o c from to share s ≡ ok t
      → Step o s t
  liquidation :
      (c : Call) (users : List String) (parts bonuses : List ℕ) (receivers bytes : List String)
      → liquidate o c users parts bonuses receivers bytes s ≡ ok t
      → Step o s t
  bad_debt :
      (c : Call) (user from receiver liquidator bytes : String) (swap : Bool)
      → liquidate_bad_debt o c user from receiver liquidator bytes swap s ≡ ok t
      → Step o s t
  lender : LenderStep o s t → Step o s t
  owner : OwnerStep o s t → Step o s t

pub data Reaches {W : Type 0} (o : Outside W) (s : Singularity W) : Singularity W → Type 0 where
  here : Reaches o s s
  after : {t u : Singularity W} → Reaches o s t → Step o t u → Reaches o s u

module _ {W : Type 0} (o : Outside W) (c : Call) where
  configure-IsBacked :
      (a : MarketConfig) (s t : Singularity W) → configure o c a s ≡ ok t → IsBacked s → IsBacked t
  unfolding configure
  configure-IsBacked a s t e v = (
    (grind (arith, set_market_config_books, v.0.0), grind (arith, set_market_config_books, v.0.1)),
    ground (arith, v.1),
  )

  pause-IsBacked :
      (kind : PauseType) (value reset : Bool) (s t : Singularity W)
      → update_pause o c kind value reset s ≡ ok t
      → IsBacked s
      → IsBacked t
  unfolding update_pause reset_accrual
  pause-IsBacked kind value reset s t e v =
      elim (Result-cases (
        accrue o c (record s {
          market = record s.market {
            pause_options =
                λ other. if same_kind kind other then value else s.market.pause_options other;
          };
        }))) [
          | inl (u, accrued) ↦
              let a = accrue-Accrues o c _ u accrued in
              ((grind (arith, a.0, v.0), grind (arith, a.0, v.0)), grind (arith, a.1, v.1))
          | inr (reason, failed) ↦ ((ground (arith, v.0), ground (arith, v.0)), ground (arith, v.1))
        ]

  collect_fees-IsBacked :
      (s t : Singularity W) → collect_fees o c s ≡ ok t → IsBacked s → IsBacked t
  unfolding collect_fees
  collect_fees-IsBacked s t e v = elim (Result-cases (accrue o c s)) [
    | inl (u, accrued) ↦
        let w = Accrues-IsBacked s u (accrue-Accrues o c s u accrued) v in
        ((ground (arith, v.0, w.0), ground (arith, v.0, w.0)), grind (arith, total-put, v.1, w.1))
    | inr (reason, failed) ↦ ((ground (arith, v.0), ground (arith, v.0)), ground (arith, v.1))
  ]

  fees-IsBacked :
      (s : Singularity W) (r : ℕ × Singularity W)
      → refresh_penrose_fees o c s ≡ ok r
      → IsBacked s
      → IsBacked r.1
  unfolding refresh_penrose_fees
  fees-IsBacked s r e v = elim (Result-cases (collect_fees o c s)) [
    | inl (t, collected) ↦
        Keeps-IsBacked t r.1
          (take_asset-Keeps o c t.penrose c.sender (get t.balance_of t.penrose) t r (ground arith))
          (collect_fees-IsBacked s t collected v)
    | inr (reason, failed) ↦ absurd (ground arith)
  ]

  settings-IsBacked :
      (a : SingularityConfig) (s t : Singularity W)
      → set_singularity_config o c a s ≡ ok t
      → IsBacked s
      → IsBacked t
  unfolding set_singularity_config write_config
  settings-IsBacked a s t e v =
      let x : Singularity W = record s {
        interest_helper =
            if a.interest_helper === zero_address then s.interest_helper else a.interest_helper;
      } in
      elim (Result-cases (accrue o c x)) [
        | inl (u, accrued) ↦
            let w = Accrues-IsBacked x u (accrue-Accrues o c x u accrued) v in
            ((ground (arith, w.0), ground (arith, w.0)), ground (arith, w.1))
        | inr (reason, failed) ↦ absurd (ground arith)
      ]

module _ {W : Type 0} (o : Outside W) (s t : Singularity W) where
  OwnerStep-IsBacked : OwnerStep o s t → IsBacked s → IsBacked t
  OwnerStep-IsBacked (configuration c a e) v = configure-IsBacked o c a s t e v
  OwnerStep-IsBacked (pause c kind value reset e) v = pause-IsBacked o c kind value reset s t e v
  OwnerStep-IsBacked (fees c n e) v = fees-IsBacked o c s (n, t) e v
  OwnerStep-IsBacked (settings c a e) v = settings-IsBacked o c a s t e v

  LenderStep-Keeps : IsRebaseLibrary o → LenderStep o s t → Keeps s t
  unfolding approve approve_borrow
  LenderStep-Keeps laws (supply c from to skim share n e) =
      add_asset-Keeps o c laws from to skim share s (n, t) e
  LenderStep-Keeps laws (withdrawal c from to fraction n e) =
      remove_asset-Keeps o c from to fraction s (n, t) e
  LenderStep-Keeps laws (send c to amount e) = transfer-Keeps o c to amount s t e
  LenderStep-Keeps laws (send_from c from to amount e) =
      transfer_from-Keeps o c from to amount s t e
  LenderStep-Keeps laws (approval c spender amount e) = rw e ((refl, refl), refl)
  LenderStep-Keeps laws (borrow_approval c spender amount e) = rw e ((refl, refl), refl)

  Step-IsBacked : IsRebaseLibrary o → Step o s t → IsBacked s → IsBacked t
  Step-IsBacked laws (accrual c e) v = Accrues-IsBacked s t (accrue_external-Accrues o c s t e) v
  Step-IsBacked laws (loan c from to amount r e) v =
      Keeps-IsBacked s t (borrow-Keeps o c laws from to amount s (r, t) e) v
  Step-IsBacked laws (repayment c from to skim part amount e) v =
      Keeps-IsBacked s t (repay-Keeps o c laws from to skim part s (amount, t) e) v
  Step-IsBacked laws (deposit c from to skim amount share e) v =
      Keeps-IsBacked s t (add_collateral-Keeps o c from to skim amount share s t e) v
  Step-IsBacked laws (removal c from to share e) v =
      Keeps-IsBacked s t (remove_collateral-Keeps o c from to share s t e) v
  Step-IsBacked laws (liquidation c users parts bonuses receivers bytes e) v =
      liquidate-IsBacked o c users parts bonuses receivers bytes s t e v
  Step-IsBacked laws (bad_debt c user from receiver liquidator bytes swap e) v =
      Keeps-IsBacked s t
        (liquidate_bad_debt-Keeps o c user from receiver liquidator bytes swap s t e) v
  Step-IsBacked laws (lender step) v = Keeps-IsBacked s t (LenderStep-Keeps laws step) v
  Step-IsBacked laws (owner step) v = OwnerStep-IsBacked step v

-- Where the rebase library adds and subtracts as documented, in every state that calls of a market,
-- leverage and permits aside, reach from a backed one, in any order and from any senders, the borrow
-- parts of the users add
-- up to the parts of the total debt, their collateral shares to the total collateral, and the
-- fractions of the lenders with the fees earned for Penrose to all the fractions of the assets.
pub Reaches-IsBacked :
    {W : Type 0} {o : Outside W} {s t : Singularity W}
    → IsRebaseLibrary o
    → IsBacked s
    → Reaches o s t
    → IsBacked t
Reaches-IsBacked laws v here = v
Reaches-IsBacked laws v (after r step) = Step-IsBacked _ _ _ laws step (Reaches-IsBacked laws v r)
