-- ===== src/Singularity/Funds.antt =====
-- What the borrower's operations of a Singularity market do to its books and to the fractions of its
-- lenders.
use tapioca_bar.Prelude.{
  ℕ, String, Bool, ok, ◌≡◌, ◌+◌, true, arith, total, total-put, bind-ok, Result-cases, inl, inr,
}
use tapioca_bar.Market.{Market}
use tapioca_bar.Market.Outside.{Outside, Call, IsRebaseLibrary}
use tapioca_bar.Market.Views.{update_exchange_rate, try_update_exchange_rate}
use tapioca_bar.Market.Allowances.{allowed_borrow}
use tapioca_bar.Market.Books.{
  IsInStep, IsInStep-trans, IsInStep-SameBooks, SameBooks, SameBooks-trans, SameBooks-IsInStep,
  update_books, try_update_books, allowed_lend_books, allowed_borrow_books,
}
use tapioca_bar.Singularity.{
  Singularity, InterestRateCall, InterestRate, add_interest, charge, interest_rate,
  get_interest_rate, accrue,
}
use tapioca_bar.Singularity.Lending.{
  put_collateral, take_collateral, credit_fee, draw, lend, spend_allowance, settle,
}
use tapioca_bar.Singularity.Operations.{refresh, try_refresh, open_loan, open_deposit, open_removal}

-- The fractions that are held or earned grow as the total of them does.
abbrev pub FundsInStep : {W : Type 0} → Singularity W → Singularity W → Type 0
FundsInStep s t =
    total t.balance_of + t.accrue_info.fees_earned_fraction + s.total_asset.base
    ≡ total s.balance_of + s.accrue_info.fees_earned_fraction + t.total_asset.base

-- Nobody's parts, shares or fractions change, but for fees that are earned.
abbrev pub Accrues : {W : Type 0} → Singularity W → Singularity W → Type 0
Accrues s t = SameBooks s.market t.market × FundsInStep s t

-- The parts, the shares and the fractions change in step with their totals.
abbrev pub Keeps : {W : Type 0} → Singularity W → Singularity W → Type 0
Keeps s t = IsInStep s.market t.market × FundsInStep s t

pub Accrues-Keeps : {W : Type 0} (s t u : Singularity W) → Accrues s t → Keeps t u → Keeps s u
Accrues-Keeps s t u a k =
    (SameBooks-IsInStep s.market t.market u.market a.0 k.0, omega (arith, a.1, k.1))

-- An update of the market's storage before an accrual.
pub Accrues-after :
    {W : Type 0} (s t : Singularity W) (m : Market) (w : W)
    → SameBooks s.market m
    → Accrues (record s { market = m; outside = w }) t
    → Accrues s t
Accrues-after s t m w same a = (SameBooks-trans s.market m t.market same a.0, a.1)

-- An update of the market's storage after an accrual.
Accrues-then :
    {W : Type 0} (s u t : Singularity W) (m : Market)
    → Accrues s u
    → SameBooks u.market m
    → t ≡ record u { market = m }
    → Accrues s t
Accrues-then s u t m a same e = rw e (SameBooks-trans s.market u.market m a.0 same, a.1)

pub Keeps-trans : {W : Type 0} (s t u : Singularity W) → Keeps s t → Keeps t u → Keeps s u
Keeps-trans s t u a b = (IsInStep-trans s.market t.market u.market a.0 b.0, omega (arith, a.1, b.1))

-- A change of the allowances after a step.
pub Keeps-same :
    {W : Type 0} (s t u : Singularity W) (m : Market)
    → Keeps s t
    → SameBooks t.market m
    → u ≡ record t { market = m }
    → Keeps s u
Keeps-same s t u m a same e = rw e (IsInStep-SameBooks s.market t.market m a.0 same, a.1)

-- A change of the contracts outside alone.
pub Keeps-outside :
    {W : Type 0} (s t u : Singularity W) (w : W)
    → Keeps s t
    → u ≡ record t { outside = w }
    → Keeps s u
Keeps-outside s t u w a e = rw e a

module _ {W : Type 0} (o : Outside W) (c : Call) where
  charge_lem :
      (a : InterestRateCall) (elapsed last : ℕ) (w : W) (r : InterestRate)
      → charge o c a elapsed last w ≡ ok r
      → (r.total_borrow.base ≡ a.total_borrow.base)
        × (r.accrue_info.fees_earned_fraction + a.total_asset.base
            ≡ a.accrue_info.fees_earned_fraction + r.total_asset.base)
  unfolding charge add_interest
  charge_lem a elapsed last w r e = (ground arith, ground arith)

  pub interest_rate_lem :
      (a : InterestRateCall) (w : W) (r : InterestRate)
      → interest_rate o c a w ≡ ok r
      → (r.total_borrow.base ≡ a.total_borrow.base)
        × (r.accrue_info.fees_earned_fraction + a.total_asset.base
            ≡ a.accrue_info.fees_earned_fraction + r.total_asset.base)
  unfolding interest_rate
  interest_rate_lem a w r e = (grind (arith, charge_lem), grind (arith, charge_lem))

  pub accrue-Accrues : (s t : Singularity W) → accrue o c s ≡ ok t → Accrues s t
  unfolding accrue get_interest_rate
  accrue-Accrues s t e = (
    (ground arith, grind (arith, interest_rate_lem), ground arith, ground arith),
    grind (arith, interest_rate_lem),
  )

  pub refresh-Accrues : (s t : Singularity W) → refresh o c s ≡ ok t → Accrues s t
  unfolding refresh
  refresh-Accrues s t e =
      let (x, updated, rest) = bind-ok (update_exchange_rate o c s.market s.outside) _ t e in
      Accrues-after s t x.0 x.1 (update_books o c s.market s.outside x updated)
        (accrue-Accrues (record s { market = x.0; outside = x.1 }) t rest)

  pub try_refresh-Accrues : (s t : Singularity W) → try_refresh o c s ≡ ok t → Accrues s t
  unfolding try_refresh
  try_refresh-Accrues s t e =
      let (x, updated, rest) = bind-ok (try_update_exchange_rate o c s.market s.outside) _ t e in
      Accrues-after s t x.0 x.1 (try_update_books o c s.market s.outside x updated)
        (accrue-Accrues (record s { market = x.0; outside = x.1 }) t rest)

  -- Only the allowances change.
  abbrev SameFunds : Singularity W → Singularity W → Type 0
  SameFunds s t =
      (t.balance_of ≡ s.balance_of)
      × (t.accrue_info ≡ s.accrue_info)
      × (t.total_asset ≡ s.total_asset)

  spend_allowance_books :
      (from to : String) (part : ℕ) (s t : Singularity W)
      → spend_allowance o c from to part s ≡ ok t
      → SameBooks s.market t.market
  unfolding spend_allowance
  spend_allowance_books from to part s t e = grind (arith, allowed_lend_books)

  spend_allowance_funds :
      (from to : String) (part : ℕ) (s t : Singularity W)
      → spend_allowance o c from to part s ≡ ok t
      → SameFunds s t
  unfolding spend_allowance
  spend_allowance_funds from to part s t e = (ground arith, ground arith, ground arith)

  pub open_loan-Accrues :
      (from : String) (amount : ℕ) (s t : Singularity W)
      → open_loan o c from amount s ≡ ok t
      → Accrues s t
  unfolding open_loan
  open_loan-Accrues from amount s t e = grind (arith, allowed_borrow_books)

  pub open_deposit-Accrues :
      (from : String) (amount share : ℕ) (s : Singularity W) (r : (ℕ × ℕ) × Singularity W)
      → open_deposit o c from amount share s ≡ ok r
      → Accrues s r.1
  unfolding open_deposit
  open_deposit-Accrues from amount share s r e = grind (arith, allowed_borrow_books)

  pub open_removal-Accrues :
      (from to : String) (share : ℕ) (s t : Singularity W)
      → open_removal o c from to share s ≡ ok t
      → Accrues s t
  unfolding open_removal
  open_removal-Accrues from to share s t e = elim (Result-cases (refresh o c s)) [
    | inl (u, done) ↦ elim (Result-cases (allowed_borrow o c from share u.market u.outside)) [
      | inl (m, allowed) ↦
          Accrues-then s u t m (refresh-Accrues s u done)
            (allowed_borrow_books o c from share u.market m u.outside allowed) (ground arith)
      | inr (reason, failed) ↦ absurd (ground arith)
    ]
    | inr (reason, failed) ↦ absurd (ground arith)
  ]

  credit_fee-Keeps :
      (fee full : ℕ) (s t : Singularity W) → credit_fee o c fee full s ≡ ok t → Keeps s t
  unfolding credit_fee
  credit_fee-Keeps fee full s t e = ((ground arith, ground arith), grind (arith, total-put))

  pub put_collateral-Keeps :
      (from to : String) (skim : Bool) (amount share : ℕ) (tokens : Bool) (s t : Singularity W)
      → put_collateral o c from to skim amount share tokens s ≡ ok t
      → Keeps s t
  unfolding put_collateral
  put_collateral-Keeps from to skim amount share tokens s t e =
      ((ground arith, grind (arith, total-put)), ground arith)

  pub take_collateral-Keeps :
      (from to : String) (share : ℕ) (s t : Singularity W)
      → take_collateral o c from to share s ≡ ok t
      → Keeps s t
  unfolding take_collateral
  take_collateral-Keeps from to share s t e =
      ((ground arith, grind (arith, total-put)), ground arith)

  module _ (laws : IsRebaseLibrary o) where
    draw-Keeps :
        (from : String) (amount share : ℕ) (s : Singularity W) (r : (ℕ × ℕ × ℕ) × Singularity W)
        → draw o c from amount share s ≡ ok r
        → Keeps s r.1
    unfolding draw
    draw-Keeps from amount share s r e =
        ((grind (arith, laws.added, total-put), ground arith), ground arith)

    pub lend-Keeps :
        (from to : String) (amount : ℕ) (s : Singularity W) (r : (ℕ × ℕ) × Singularity W)
        → lend o c from to amount s ≡ ok r
        → Keeps s r.1
    unfolding lend
    lend-Keeps from to amount s r e =
        let (share, priced, e1) =
          bind-ok (o.to_share s.outside s.market.asset_id amount true) _ r e in
        let (x, drawn, e2) = bind-ok (draw o c from amount share s) _ r e1 in
        let (t, fee, e3) = bind-ok (credit_fee o c x.0.1 x.0.2 x.1) _ r e2 in
        Keeps-outside s t r.1 r.1.outside
          (Keeps-trans s x.1 t (draw-Keeps from amount share s x drawn)
            (credit_fee-Keeps x.0.1 x.0.2 x.1 t fee))
          (ground arith)

    pub settle-Keeps :
        (from to : String) (skim : Bool) (part : ℕ) (check : Bool) (s : Singularity W)
        (r : ℕ × Singularity W)
        → settle o c from to skim part check s ≡ ok r
        → Keeps s r.1
    unfolding settle
    settle-Keeps from to skim part check s r e = (
      (
        grind (arith, laws.subtracted, total-put, spend_allowance_books),
        grind (arith, spend_allowance_books),
      ),
      grind (arith, spend_allowance_funds),
    )
