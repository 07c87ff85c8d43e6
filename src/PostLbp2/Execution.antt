-- ===== src/PostLbp2/Execution.antt =====
-- Calls of a multicall to an Origins market, to a token and to the YieldBox.
use tapioca_bar.Prelude.{
  ℕ, String, Bool, List, [], ◌∷◌, arith, ◌≡◌, ◌===◌, ◌&&◌, if◌then◌else◌, Result, ok, err, rejected,
  ◌>>=◌, Result-cases, inl, inr,
}
use package.text.Mathlib.TextPositions.{eq_refl}
use tapioca_bar.Sdk.{Arg, Call as Sent, text, num, flag}
use tapioca_bar.Market.Outside.{Outside, Call}
use tapioca_bar.Market.Messages.{Approvals, Addresses, send}
use tapioca_bar.Origins.{Origins}
use tapioca_bar.Origins.Operations.{add_collateral, borrow}

module _ {W : Type 0} (o : Outside W) (approvals : Approvals W) (p : Addresses) (c : Call) where
  -- A call to another contract leaves the market as it is.
  abbrev elsewhere : Result W → Origins W → Result (Origins W)
  elsewhere sent s = do w ← sent; ok (record s { outside = w })

  -- A call of the multicall, which reverts where the contract has no such function.
  unfoldable pub execute_on_origins : String → String → List Arg → Origins W → Result (Origins W)
  execute_on_origins target fn (num amount ∷ num share ∷ []) s =
      if fn === "addCollateral" && target === p.market
      then add_collateral o c amount share s
      else err (rejected "no such function")
  execute_on_origins target fn (num amount ∷ []) s =
      if fn === "borrow" && target === p.market
      then (borrow o c amount s >>= λ r. ok r.1)
      else err (rejected "no such function")
  execute_on_origins target fn args s = elsewhere (send o approvals p target fn args s.outside) s

  unfoldable pub run_mint : List Sent → Origins W → Result (Origins W)
  run_mint [] s = ok s
  run_mint (x ∷ xs) s =
      execute_on_origins x.target x.call_data.fn x.call_data.args s >>= run_mint xs

  pub borrow-step :
      (amount : ℕ) (s t : Origins W)
      → execute_on_origins p.market "borrow" (num amount ∷ []) s ≡ ok t
      → (r : ℕ × ℕ) × (borrow o c amount s ≡ ok (r, t))
  unfolding execute_on_origins
  borrow-step amount s t e = elim (Result-cases (borrow o c amount s)) [
    | inl (r, done) ↦ (r.0, ground (arith, eq_refl p.market))
    | inr (reason, failed) ↦ absurd (ground (arith, eq_refl p.market))
  ]

  pub add-step :
      (amount share : ℕ) (s t : Origins W)
      → execute_on_origins p.market "addCollateral" (num amount ∷ num share ∷ []) s ≡ ok t
      → add_collateral o c amount share s ≡ ok t
  unfolding execute_on_origins
  add-step amount share s t e = ground (arith, eq_refl p.market)

  pub deposit-step :
      (id amount share : ℕ) (to : String) (s t : Origins W)
      → execute_on_origins p.yield_box "depositAsset"
          (num id ∷ text p.account ∷ text to ∷ num amount ∷ num share ∷ [])
          s
        ≡ ok t
      → (n : ℕ) × (o.deposit_asset id p.account to amount share s.outside ≡ ok (n, t.outside))
        × (t.market ≡ s.market)
        × (t.allowed_participants ≡ s.allowed_participants)
  unfolding execute_on_origins send
  deposit-step id amount share to s t e =
      elim (Result-cases (o.deposit_asset id p.account to amount share s.outside)) [
        | inl (x, done) ↦ (
          x.0,
          ground (arith, eq_refl p.yield_box, eq_refl p.account),
          ground (arith, eq_refl p.yield_box, eq_refl p.account),
          ground (arith, eq_refl p.yield_box, eq_refl p.account),
        )
        | inr (reason, failed) ↦ absurd (ground (arith, eq_refl p.yield_box, eq_refl p.account))
      ]

  pub withdraw-step :
      (id amount share : ℕ) (to : String) (s t : Origins W)
      → execute_on_origins p.yield_box "withdraw"
          (num id ∷ text p.account ∷ text to ∷ num amount ∷ num share ∷ [])
          s
        ≡ ok t
      → (n : ℕ) × (o.withdraw id p.account to amount share s.outside ≡ ok (n, t.outside))
        × (t.market ≡ s.market)
  unfolding execute_on_origins send
  withdraw-step id amount share to s t e =
      elim (Result-cases (o.withdraw id p.account to amount share s.outside)) [
        | inl (x, done) ↦ (
          x.0,
          ground (arith, eq_refl p.yield_box, eq_refl p.account),
          ground (arith, eq_refl p.yield_box, eq_refl p.account),
        )
        | inr (reason, failed) ↦ absurd (ground (arith, eq_refl p.yield_box, eq_refl p.account))
      ]

  pub approve-step :
      (spender : String) (amount : ℕ) (s t : Origins W)
      → execute_on_origins p.token "approve" (text spender ∷ num amount ∷ []) s ≡ ok t
      → (approvals.approve p.token p.account spender amount s.outside ≡ ok t.outside)
        × (t.market ≡ s.market)
        × (t.allowed_participants ≡ s.allowed_participants)
  unfolding execute_on_origins send
  approve-step spender amount s t e = (
    ground (arith, eq_refl p.token),
    ground (arith, eq_refl p.token),
    ground (arith, eq_refl p.token),
  )

  pub approval-step :
      (operator : String) (id : ℕ) (b : Bool) (s t : Origins W)
      → execute_on_origins p.yield_box "setApprovalForAsset"
          (text operator ∷ num id ∷ flag b ∷ [])
          s
        ≡ ok t
      → (approvals.set_approval_for_asset p.account operator id b s.outside ≡ ok t.outside)
        × (t.market ≡ s.market)
        × (t.allowed_participants ≡ s.allowed_participants)
  unfolding execute_on_origins send
  approval-step operator id b s t e = (
    ground (arith, eq_refl p.yield_box),
    ground (arith, eq_refl p.yield_box),
    ground (arith, eq_refl p.yield_box),
  )
