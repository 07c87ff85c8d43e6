-- ===== src/BigBang/Books.antt =====
-- The books of a BigBang market in every state that its calls reach, liquidations included.
use tapioca_bar.Prelude.{
  ℕ, String, Bool, true, false, List, [], ◌∷◌, Result-cases, inl, inr, ok, ◌≡◌, arith, get,
  total-put,
}
use tapioca_bar.Market.{Market}
use tapioca_bar.Market.Outside.{Outside, Call}
use tapioca_bar.Market.Views.{is_solvent}
use tapioca_bar.Market.Seizure.{
  Seizure, Request, requests, update_borrow_and_collateral_share, write_totals,
}
use tapioca_bar.Market.Books.{
  AreBalanced, SameBooks, IsInStep, SameBooks-IsInStep, IsInStep-same, SameBooks-AreBalanced,
  try_update_books, seize-AreBalanced,
}
use tapioca_bar.BigBang.{BigBang}
use tapioca_bar.BigBang.Frame.{accrue_books, try_refresh_books}
use tapioca_bar.BigBang.Operations.{try_refresh}
use tapioca_bar.BigBang.Liquidation.{
  extract_liquidation_fees, liquidate_user, liquidate_all, closed_liquidation, liquidate,
  refresh_bad_debt, write_off, hand_over, liquidate_bad_debt,
}
use tapioca_bar.BigBang.Balance.{IsBalanced}

module _ {W : Type 0} (o : Outside W) (c : Call) where
  extract_market :
      (returned owed reward : ℕ) (s : BigBang W) (r : (ℕ × ℕ) × BigBang W)
      → extract_liquidation_fees o c returned owed reward s ≡ ok r
      → r.1.market ≡ s.market
  unfolding extract_liquidation_fees
  extract_market returned owed reward s r e = ground arith

  kept :
      (q : Request) (rate : ℕ) (s t : BigBang W) (m : Market) (r : Seizure × Market)
      → update_borrow_and_collateral_share o c q.user q.max_borrow_part q.min_liquidation_bonus rate
          s.market s.outside
        ≡ ok r
      → write_totals r.0 r.1 ≡ ok m
      → liquidate_user o c q rate s ≡ ok t
      → AreBalanced m
      → IsBalanced t
  unfolding liquidate_user
  kept q rate s t m r taken written e v =
      (grind (arith, extract_market, v.0), grind (arith, extract_market, v.1))

  liquidate_user-IsBalanced :
      (q : Request) (rate : ℕ) (s t : BigBang W)
      → liquidate_user o c q rate s ≡ ok t
      → IsBalanced s
      → IsBalanced t
  unfolding liquidate_user
  liquidate_user-IsBalanced q rate s t e v =
      elim (Result-cases (
        update_borrow_and_collateral_share o c q.user q.max_borrow_part q.min_liquidation_bonus rate
          s.market s.outside)) [
            | inl (r, taken) ↦ elim (Result-cases (write_totals r.0 r.1)) [
              | inl (m, written) ↦ kept q rate s t m r taken written e (
                  seize-AreBalanced o c q.user q.max_borrow_part q.min_liquidation_bonus rate
                    s.market m s.outside r taken written v)
              | inr (reason, failed) ↦ absurd (ground arith)
            ]
            | inr (reason, failed) ↦ absurd (ground arith)
          ]

  last_state : (u r : ℕ × BigBang W) → r.1 ≡ u.1 → IsBalanced u.1 → IsBalanced r.1
  last_state u r same v = (ground (arith, same, v.0), ground (arith, same, v.1))

  liquidate_all-IsBalanced :
      (entries : List Request) (rate : ℕ) (s : BigBang W) (r : ℕ × BigBang W)
      → liquidate_all o c entries rate s ≡ ok r
      → IsBalanced s
      → IsBalanced r.1
  unfolding liquidate_all
  liquidate_all-IsBalanced [] rate s r e v = (ground (arith, v.0), ground (arith, v.1))
  liquidate_all-IsBalanced (q ∷ rest) rate s r e v =
      elim (Result-cases (is_solvent o s.market s.outside q.user rate true)) [
        | inl (true, solvent) ↦ liquidate_all-IsBalanced rest rate s r (ground arith) v
        | inl (false, insolvent) ↦ elim (Result-cases (liquidate_user o c q rate s)) [
          | inl (t, taken) ↦ elim (Result-cases (liquidate_all o c rest rate t)) [
            | inl (u, done) ↦ last_state u r (ground arith) (
                liquidate_all-IsBalanced rest rate t u done
                  (liquidate_user-IsBalanced q rate s t taken v))
            | inr (reason, failed) ↦ absurd (ground arith)
          ]
          | inr (reason, failed) ↦ absurd (ground arith)
        ]
        | inr (reason, failed) ↦ absurd (ground arith)
      ]

  refresh_bad_debt_books :
      (from : String) (s t : BigBang W)
      → refresh_bad_debt o c from s ≡ ok t
      → SameBooks s.market t.market
  unfolding refresh_bad_debt
  refresh_bad_debt_books from s t e = grind (arith, try_update_books, accrue_books)

  write_off-IsInStep :
      (user from : String) (s t : BigBang W)
      → write_off o c user from s ≡ ok t
      → IsInStep s.market t.market
  unfolding write_off
  write_off-IsInStep user from s t e = (grind (arith, total-put), grind (arith, total-put))

  hand_over_market :
      (share : ℕ) (receiver liquidator bytes : String) (swap : Bool) (s t : BigBang W)
      → hand_over o c share receiver liquidator bytes swap s ≡ ok t
      → t.market ≡ s.market
  unfolding hand_over
  hand_over_market share receiver liquidator bytes swap s t e = ground arith

  pub liquidate_bad_debt-IsInStep :
      (user from receiver liquidator bytes : String) (swap : Bool) (s t : BigBang W)
      → liquidate_bad_debt o c user from receiver liquidator bytes swap s ≡ ok t
      → IsInStep s.market t.market
  unfolding liquidate_bad_debt
  liquidate_bad_debt-IsInStep user from receiver liquidator bytes swap s t e =
      elim (Result-cases (refresh_bad_debt o c from s)) [
        | inl (u, opened) ↦ elim (Result-cases (write_off o c user from u)) [
          | inl (x, written) ↦
              SameBooks-IsInStep s.market u.market t.market (refresh_bad_debt_books from s u opened)
                (IsInStep-same u.market x.market t.market (write_off-IsInStep user from u x written)
                  (hand_over_market (get u.market.user_collateral_share user) receiver liquidator
                    bytes swap x t (ground arith)))
          | inr (reason, failed) ↦ absurd (ground arith)
        ]
        | inr (reason, failed) ↦ absurd (ground arith)
      ]

  pub liquidate-IsBalanced :
      (users : List String) (parts bonuses : List ℕ) (receivers bytes : List String)
      (s t : BigBang W)
      → liquidate o c users parts bonuses receivers bytes s ≡ ok t
      → IsBalanced s
      → IsBalanced t
  unfolding liquidate closed_liquidation
  liquidate-IsBalanced users parts bonuses receivers bytes s t e v =
      elim (Result-cases (try_refresh o c s)) [
        | inl (u, done) ↦ elim (Result-cases (requests users parts bonuses receivers bytes)) [
          | inl (entries, read) ↦
              elim (Result-cases (liquidate_all o c entries u.market.exchange_rate u)) [
                | inl (r, taken) ↦
                    last_state r (r.0, t) (ground arith)
                      (liquidate_all-IsBalanced entries u.market.exchange_rate u r taken (
                        SameBooks-AreBalanced s.market u.market (try_refresh_books o c s u done) v))
                | inr (reason, failed) ↦ absurd (ground arith)
              ]
          | inr (reason, failed) ↦ absurd (ground arith)
        ]
        | inr (reason, failed) ↦ absurd (ground arith)
      ]
