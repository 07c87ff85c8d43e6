-- ===== src/Singularity/Books.antt =====
-- The books of a Singularity market through liquidations.
use tapioca_bar.Prelude.{
  ℕ, String, Bool, true, false, List, [], ◌∷◌, Result-cases, inl, inr, ok, ◌≡◌, ◌+◌, ◌-◌, arith,
  total, total-put, bind-ok, ltb, if◌then◌else◌,
}
use tapioca_bar.Market.{Market}
use tapioca_bar.Market.Outside.{Outside, Call}
use tapioca_bar.Market.Views.{get_caller_reward, is_solvent, try_update_exchange_rate}
use tapioca_bar.Market.Seizure.{
  Seizure, Request, requests, swap_collateral_with_asset, update_borrow_and_collateral_share,
  write_totals,
}
use tapioca_bar.Market.Books.{
  AreBalanced, IsInStep-AreBalanced, SameBooks-AreBalanced, try_update_books, seize-AreBalanced,
}
use tapioca_bar.Singularity.{Singularity}
use tapioca_bar.Singularity.Operations.{try_refresh}
use tapioca_bar.Singularity.Liquidation.{
  credit_surplus, extract_liquidation_fees, return_debt, distribute, liquidate_user, liquidate_all,
  closed_liquidation, liquidate, refresh_bad_debt, write_off, liquidate_bad_debt,
}
use tapioca_bar.Singularity.Funds.{
  FundsInStep, Accrues, Keeps, Accrues-after, Accrues-Keeps, Keeps-outside, accrue-Accrues,
  try_refresh-Accrues,
}

-- The users' borrow parts add up to the parts of the debt, their collateral shares to the collateral
-- of the market, and the balances with the fees that were earned to the fractions of the assets.
abbrev pub IsBacked : {W : Type 0} → Singularity W → Type 0
IsBacked s =
    AreBalanced s.market
    × (total s.balance_of + s.accrue_info.fees_earned_fraction ≡ s.total_asset.base)

pub Keeps-IsBacked : {W : Type 0} (s t : Singularity W) → Keeps s t → IsBacked s → IsBacked t
Keeps-IsBacked s t k v = (IsInStep-AreBalanced s.market t.market k.0 v.0, omega (arith, k.1, v.1))

pub Accrues-IsBacked : {W : Type 0} (s t : Singularity W) → Accrues s t → IsBacked s → IsBacked t
Accrues-IsBacked s t a v =
    (SameBooks-AreBalanced s.market t.market a.0 v.0, omega (arith, a.1, v.1))

-- A step that moves the fractions in step, on a market whose books balance again.
funded :
    {W : Type 0} (s t : Singularity W)
    → AreBalanced t.market
    → FundsInStep s t
    → IsBacked s
    → IsBacked t
funded s t balanced step v = (balanced, omega (arith, step, v.1))

module _ {W : Type 0} (o : Outside W) (c : Call) where
  credit_surplus_market :
      (fee : ℕ) (s t : Singularity W) → credit_surplus o c fee s ≡ ok t → t.market ≡ s.market
  unfolding credit_surplus
  credit_surplus_market fee s t e = ground arith

  credit_surplus_funds :
      (fee : ℕ) (s t : Singularity W) → credit_surplus o c fee s ≡ ok t → FundsInStep s t
  unfolding credit_surplus
  credit_surplus_funds fee s t e = grind (arith, total-put)

  extract_market :
      (extra reward : ℕ) (s : Singularity W) (r : (ℕ × ℕ) × Singularity W)
      → extract_liquidation_fees o c extra reward s ≡ ok r
      → r.1.market ≡ s.market
  unfolding extract_liquidation_fees
  extract_market extra reward s r e = grind (arith, credit_surplus_market)

  extract_funds :
      (extra reward : ℕ) (s : Singularity W) (r : (ℕ × ℕ) × Singularity W)
      → extract_liquidation_fees o c extra reward s ≡ ok r
      → FundsInStep s r.1
  unfolding extract_liquidation_fees
  extract_funds extra reward s r e = grind (arith, credit_surplus_funds)

  return_debt_market :
      (share : ℕ) (s t : Singularity W) → return_debt o c share s ≡ ok t → t.market ≡ s.market
  unfolding return_debt
  return_debt_market share s t e = ground arith

  return_debt_funds :
      (share : ℕ) (s t : Singularity W) → return_debt o c share s ≡ ok t → FundsInStep s t
  unfolding return_debt
  return_debt_funds share s t e = ground arith

  distribute_market :
      (returned owed reward : ℕ) (s t : Singularity W)
      → distribute o c returned owed reward s ≡ ok t
      → t.market ≡ s.market
  unfolding distribute
  distribute_market returned owed reward s t e = grind (arith, extract_market, return_debt_market)

  distribute_funds :
      (returned owed reward : ℕ) (s t : Singularity W)
      → distribute o c returned owed reward s ≡ ok t
      → FundsInStep s t
  unfolding distribute
  distribute_funds returned owed reward s t e =
      let extra = if ltb owed returned then returned - owed else 0 in
      let (u, paid, rest) = bind-ok (return_debt o c (returned - extra) s) _ t e in
      let (x, taken, last) = bind-ok (extract_liquidation_fees o c extra reward u) _ t rest in
      ground
        (arith, return_debt_funds (returned - extra) s u paid, extract_funds extra reward u x taken)

  kept :
      (q : Request) (rate : ℕ) (s t : Singularity W) (m : Market) (r : Seizure × Market)
      → update_borrow_and_collateral_share o c q.user q.max_borrow_part q.min_liquidation_bonus rate
          s.market s.outside
        ≡ ok r
      → write_totals r.0 r.1 ≡ ok m
      → liquidate_user o c q rate s ≡ ok t
      → (t.market ≡ m) × FundsInStep s t
  unfolding liquidate_user
  kept q rate s t m r taken written e =
      elim (Result-cases (get_caller_reward o s.market s.outside q.user rate)) [
        | inl (reward, rewarded) ↦
            elim (Result-cases
              (o.to_share s.outside s.market.asset_id r.0.liquidated_amount true)) [
                | inl (owed, priced) ↦
                    elim (Result-cases (
                      swap_collateral_with_asset o c r.0.collateral_share q.liquidator_receiver
                        q.liquidator_receiver_data rate true m s.outside)) [
                          | inl (x, swapped) ↦
                              let u : Singularity W = record s { market = m; outside = x.1 } in
                              let done : distribute o c x.0.0 owed reward u ≡ ok t = ground arith in
                              (
                                distribute_market x.0.0 owed reward u t done,
                                distribute_funds x.0.0 owed reward u t done,
                              )
                          | inr (reason, failed) ↦ absurd (ground arith)
                        ]
                | inr (reason, failed) ↦ absurd (ground arith)
              ]
        | inr (reason, failed) ↦ absurd (ground arith)
      ]

  liquidate_user-IsBacked :
      (q : Request) (rate : ℕ) (s t : Singularity W)
      → liquidate_user o c q rate s ≡ ok t
      → IsBacked s
      → IsBacked t
  unfolding liquidate_user
  liquidate_user-IsBacked q rate s t e v =
      elim (Result-cases (
        update_borrow_and_collateral_share o c q.user q.max_borrow_part q.min_liquidation_bonus rate
          s.market s.outside)) [
            | inl (r, taken) ↦ elim (Result-cases (write_totals r.0 r.1)) [
              | inl (m, written) ↦
                  let k = kept q rate s t m r taken written e in
                  funded s t
                    (rw (k.0) (
                      seize-AreBalanced o c q.user q.max_borrow_part q.min_liquidation_bonus rate
                        s.market m s.outside r taken written v.0))
                    k.1 v
              | inr (reason, failed) ↦ absurd (ground arith)
            ]
            | inr (reason, failed) ↦ absurd (ground arith)
          ]

  liquidate_all-IsBacked :
      (entries : List Request) (rate : ℕ) (s : Singularity W) (r : ℕ × Singularity W)
      → liquidate_all o c entries rate s ≡ ok r
      → IsBacked s
      → IsBacked r.1
  unfolding liquidate_all
  liquidate_all-IsBacked [] rate s r e v = let same : r ≡ (0, s) = ground arith in rw same v
  liquidate_all-IsBacked (q ∷ rest) rate s r e v =
      elim (Result-cases (is_solvent o s.market s.outside q.user rate true)) [
        | inl (true, solvent) ↦ liquidate_all-IsBacked rest rate s r (ground arith) v
        | inl (false, insolvent) ↦ elim (Result-cases (liquidate_user o c q rate s)) [
          | inl (t, taken) ↦ elim (Result-cases (liquidate_all o c rest rate t)) [
            | inl (u, done) ↦
                let same : r.1 ≡ u.1 = ground arith in
                rw same (
                  liquidate_all-IsBacked rest rate t u done
                    (liquidate_user-IsBacked q rate s t taken v))
            | inr (reason, failed) ↦ absurd (ground arith)
          ]
          | inr (reason, failed) ↦ absurd (ground arith)
        ]
        | inr (reason, failed) ↦ absurd (ground arith)
      ]

  pub liquidate-IsBacked :
      (users : List String) (parts bonuses : List ℕ) (receivers bytes : List String)
      (s t : Singularity W)
      → liquidate o c users parts bonuses receivers bytes s ≡ ok t
      → IsBacked s
      → IsBacked t
  unfolding liquidate closed_liquidation
  liquidate-IsBacked users parts bonuses receivers bytes s t e v =
      elim (Result-cases (try_refresh o c s)) [
        | inl (u, done) ↦ elim (Result-cases (requests users parts bonuses receivers bytes)) [
          | inl (entries, read) ↦
              elim (Result-cases (liquidate_all o c entries u.market.exchange_rate u)) [
                | inl (r, taken) ↦
                    let same : t ≡ r.1 = ground arith in
                    rw same (
                      liquidate_all-IsBacked entries u.market.exchange_rate u r taken
                        (Accrues-IsBacked s u (try_refresh-Accrues o c s u done) v))
                | inr (reason, failed) ↦ absurd (ground arith)
              ]
          | inr (reason, failed) ↦ absurd (ground arith)
        ]
        | inr (reason, failed) ↦ absurd (ground arith)
      ]

  refresh_bad_debt-Accrues :
      (from : String) (s t : Singularity W) → refresh_bad_debt o c from s ≡ ok t → Accrues s t
  unfolding refresh_bad_debt
  refresh_bad_debt-Accrues from s t e =
      elim (Result-cases (try_update_exchange_rate o c s.market s.outside)) [
        | inl (x, updated) ↦
            Accrues-after s t x.0 x.1 (try_update_books o c s.market s.outside x updated)
              (accrue-Accrues o c (record s { market = x.0; outside = x.1 }) t (ground arith))
        | inr (reason, failed) ↦ absurd (ground arith)
      ]

  write_off-Keeps :
      (user from : String) (s t : Singularity W) → write_off o c user from s ≡ ok t → Keeps s t
  unfolding write_off
  write_off-Keeps user from s t e =
      ((grind (arith, total-put), grind (arith, total-put)), ground arith)

  pub liquidate_bad_debt-Keeps :
      (user from receiver liquidator bytes : String) (swap : Bool) (s t : Singularity W)
      → liquidate_bad_debt o c user from receiver liquidator bytes swap s ≡ ok t
      → Keeps s t
  unfolding liquidate_bad_debt
  liquidate_bad_debt-Keeps user from receiver liquidator bytes swap s t e =
      elim (Result-cases (refresh_bad_debt o c from s)) [
        | inl (u, opened) ↦ elim (Result-cases (write_off o c user from u)) [
          | inl (x, written) ↦
              Accrues-Keeps s u t (refresh_bad_debt-Accrues from s u opened) (
                Keeps-outside u x t t.outside (write_off-Keeps user from u x written)
                  (ground arith))
          | inr (reason, failed) ↦ absurd (ground arith)
        ]
        | inr (reason, failed) ↦ absurd (ground arith)
      ]
