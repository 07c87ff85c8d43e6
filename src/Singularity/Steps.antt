-- ===== src/Singularity/Steps.antt =====
-- The operations of borrowers and lenders change the parts, the shares and the fractions in step
-- with their totals.
use tapioca_bar.Prelude.{
  ℕ, String, Bool, true, ok, ◌≡◌, ◌+◌, ◌-◌, ◌≤◌, arith, get, put, total, total-put, bind-ok,
  Result-cases, inl, inr,
}
use tapioca_bar.Market.Outside.{Outside, Call, IsRebaseLibrary}
use tapioca_bar.Market.Allowances.{allowed_lend}
use tapioca_bar.Market.Books.{SameBooks, allowed_lend_books}
use tapioca_bar.Singularity.{Singularity, accrue, accrue_external}
use tapioca_bar.Singularity.Operations.{
  refresh, try_refresh, open_loan, open_deposit, open_removal, borrow, repay, add_collateral,
  remove_collateral,
}
use tapioca_bar.Singularity.Assets.{
  put_asset, take_asset, add_asset, remove_asset, move, transfer, spend_token_allowance,
  transfer_from,
}
use tapioca_bar.Singularity.Funds.{
  Accrues, Keeps, Accrues-Keeps, Accrues-after, Keeps-same, accrue-Accrues, refresh-Accrues,
  try_refresh-Accrues, open_loan-Accrues, open_deposit-Accrues, open_removal-Accrues,
  put_collateral-Keeps, take_collateral-Keeps, lend-Keeps, settle-Keeps,
}

module _ {W : Type 0} (o : Outside W) (c : Call) where
  pub accrue_external-Accrues : (s t : Singularity W) → accrue_external o c s ≡ ok t → Accrues s t
  unfolding accrue_external
  accrue_external-Accrues s t e = accrue-Accrues o c s t (ground arith)

  pub add_collateral-Keeps :
      (from to : String) (skim : Bool) (amount share : ℕ) (s t : Singularity W)
      → add_collateral o c from to skim amount share s ≡ ok t
      → Keeps s t
  unfolding add_collateral
  add_collateral-Keeps from to skim amount share s t e =
      elim (Result-cases (open_deposit o c from amount share s)) [
        | inl (p, opened) ↦
            Accrues-Keeps s p.1 t (open_deposit-Accrues o c from amount share s p opened)
              (put_collateral-Keeps o c from to skim p.0.0 p.0.1 true p.1 t (ground arith))
        | inr (reason, failed) ↦ absurd (ground arith)
      ]

  pub remove_collateral-Keeps :
      (from to : String) (share : ℕ) (s t : Singularity W)
      → remove_collateral o c from to share s ≡ ok t
      → Keeps s t
  unfolding remove_collateral
  remove_collateral-Keeps from to share s t e =
      let (u, opened, rest) = bind-ok (open_removal o c from to share s) _ t e in
      Accrues-Keeps s u t (open_removal-Accrues o c from to share s u opened)
        (take_collateral-Keeps o c from to share u t (ground arith))

  put_asset-Keeps :
      (laws : IsRebaseLibrary o) (from to : String) (skim : Bool) (share : ℕ) (s : Singularity W)
      (r : ℕ × Singularity W)
      → put_asset o c from to skim share s ≡ ok r
      → Keeps s r.1
  unfolding put_asset
  put_asset-Keeps laws from to skim share s r e =
      ((ground arith, ground arith), grind (arith, total-put, laws.added_both))

  pub take_asset-Keeps :
      (from to : String) (fraction : ℕ) (s : Singularity W) (r : ℕ × Singularity W)
      → take_asset o c from to fraction s ≡ ok r
      → Keeps s r.1
  unfolding take_asset
  take_asset-Keeps from to fraction s r e = (
    (ground arith, ground arith),
    ground (arith, total-put s.balance_of from (get s.balance_of from - fraction)),
  )

  pub add_asset-Keeps :
      (laws : IsRebaseLibrary o) (from to : String) (skim : Bool) (share : ℕ) (s : Singularity W)
      (r : ℕ × Singularity W)
      → add_asset o c from to skim share s ≡ ok r
      → Keeps s r.1
  unfolding add_asset
  add_asset-Keeps laws from to skim share s r e =
      elim (Result-cases (allowed_lend o c from share s.market s.outside)) [
        | inl (m, allowed) ↦ elim (Result-cases (accrue o c (record s { market = m }))) [
          | inl (t, accrued) ↦
              Accrues-Keeps s t r.1
                (Accrues-after s t m s.outside
                  (allowed_lend_books o c from share s.market m s.outside allowed)
                  (accrue-Accrues o c (record s { market = m }) t accrued))
                (put_asset-Keeps laws from to skim share t r (ground arith))
          | inr (reason, failed) ↦ absurd (ground arith)
        ]
        | inr (reason, failed) ↦ absurd (ground arith)
      ]

  pub remove_asset-Keeps :
      (from to : String) (fraction : ℕ) (s : Singularity W) (r : ℕ × Singularity W)
      → remove_asset o c from to fraction s ≡ ok r
      → Keeps s r.1
  unfolding remove_asset
  remove_asset-Keeps from to fraction s r e = elim (Result-cases (accrue o c s)) [
    | inl (t, accrued) ↦ elim (Result-cases (take_asset o c from to fraction t)) [
      | inl (x, taken) ↦ elim (Result-cases (allowed_lend o c from x.0 x.1.market x.1.outside)) [
        | inl (m, allowed) ↦ Accrues-Keeps s t r.1 (accrue-Accrues o c s t accrued) (
            Keeps-same t x.1 r.1 m (take_asset-Keeps from to fraction t x taken)
              (allowed_lend_books o c from x.0 x.1.market m x.1.outside allowed) (ground arith))
        | inr (reason, failed) ↦ absurd (ground arith)
      ]
      | inr (reason, failed) ↦ absurd (ground arith)
    ]
    | inr (reason, failed) ↦ absurd (ground arith)
  ]

  move_lem :
      (from to : String) (amount : ℕ) (s t : Singularity W)
      → amount ≤ get s.balance_of from
      → move o c from to amount s ≡ ok t
      → (t.market ≡ s.market)
        × (t.accrue_info ≡ s.accrue_info)
        × (t.total_asset ≡ s.total_asset)
        × (total t.balance_of ≡ total s.balance_of)
  unfolding move
  move_lem from to amount s t enough e =
      let reduced = put s.balance_of from (get s.balance_of from - amount) in
      (
        ground arith,
        ground arith,
        ground arith,
        ground (
          arith,
          total-put s.balance_of from (get s.balance_of from - amount),
          total-put reduced to (get reduced to + amount),
        ),
      )

  pub transfer-Keeps :
      (to : String) (amount : ℕ) (s t : Singularity W) → transfer o c to amount s ≡ ok t → Keeps s t
  unfolding transfer
  transfer-Keeps to amount s t e = (
    (
      ground (arith, move_lem c.sender to amount s t),
      ground (arith, move_lem c.sender to amount s t),
    ),
    ground (arith, move_lem c.sender to amount s t),
  )

  spend_token_allowance_lem :
      (from : String) (amount : ℕ) (s t : Singularity W)
      → spend_token_allowance o c from amount s ≡ ok t
      → SameBooks s.market t.market
        × (t.balance_of ≡ s.balance_of)
        × (t.accrue_info ≡ s.accrue_info)
        × (t.total_asset ≡ s.total_asset)
  unfolding spend_token_allowance
  spend_token_allowance_lem from amount s t e = (
    (ground arith, ground arith, ground arith, ground arith),
    ground arith,
    ground arith,
    ground arith,
  )

  pub transfer_from-Keeps :
      (from to : String) (amount : ℕ) (s t : Singularity W)
      → transfer_from o c from to amount s ≡ ok t
      → Keeps s t
  unfolding transfer_from
  transfer_from-Keeps from to amount s t e =
      elim (Result-cases (spend_token_allowance o c from amount s)) [
        | inl (u, spent) ↦
            let same = spend_token_allowance_lem from amount s u spent in
            (
              (
                ground (arith, same, move_lem from to amount u t),
                ground (arith, same, move_lem from to amount u t),
              ),
              ground (arith, same, move_lem from to amount u t),
            )
        | inr (reason, failed) ↦ ((ground arith, ground arith), ground arith)
      ]

  module _ (laws : IsRebaseLibrary o) where
    pub borrow-Keeps :
        (from to : String) (amount : ℕ) (s : Singularity W) (r : (ℕ × ℕ) × Singularity W)
        → borrow o c from to amount s ≡ ok r
        → Keeps s r.1
    unfolding borrow
    borrow-Keeps from to amount s r e = elim (Result-cases (refresh o c s)) [
      | inl (t, done) ↦ elim (Result-cases (open_loan o c from amount t)) [
        | inl (u, opened) ↦ Accrues-Keeps s t r.1 (refresh-Accrues o c s t done) (
            Accrues-Keeps t u r.1 (open_loan-Accrues o c from amount t u opened)
              (lend-Keeps o c laws from to amount u r (ground arith)))
        | inr (reason, failed) ↦ absurd (ground arith)
      ]
      | inr (reason, failed) ↦ absurd (ground arith)
    ]

    pub repay-Keeps :
        (from to : String) (skim : Bool) (part : ℕ) (s : Singularity W) (r : ℕ × Singularity W)
        → repay o c from to skim part s ≡ ok r
        → Keeps s r.1
    unfolding repay
    repay-Keeps from to skim part s r e = elim (Result-cases (try_refresh o c s)) [
      | inl (t, done) ↦
          Accrues-Keeps s t r.1 (try_refresh-Accrues o c s t done)
            (settle-Keeps o c laws from to skim part true t r (ground arith))
      | inr (reason, failed) ↦ absurd (ground arith)
    ]
