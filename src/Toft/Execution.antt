-- ===== src/Toft/Execution.antt =====
-- Calls of a multicall to a Singularity market, to a token, to the YieldBox and to Pearlmit.
use tapioca_bar.Prelude.{
  ℕ, String, Bool, List, [], ◌∷◌, arith, ◌≡◌, ◌===◌, ◌&&◌, if◌then◌else◌, Result, ok, err, rejected,
  ◌>>=◌, Result-cases, inl, inr,
}
use package.text.Mathlib.TextPositions.{eq_refl}
use tapioca_bar.Sdk.{Arg, Call as Sent, text, num, flag}
use tapioca_bar.Market.Outside.{Outside, Call}
use tapioca_bar.Market.Messages.{Approvals, Addresses, send}
use tapioca_bar.Singularity.{Singularity}
use tapioca_bar.Singularity.Assets.{add_asset}

module _ {W : Type 0} (o : Outside W) (approvals : Approvals W) (p : Addresses) (c : Call) where
  -- A call to another contract leaves the market as it is.
  abbrev elsewhere : Result W → Singularity W → Result (Singularity W)
  elsewhere sent s = do w ← sent; ok (record s { outside = w })

  -- A call of the multicall, which reverts where the contract has no such function.
  unfoldable pub execute_on_singularity :
      String → String → List Arg → Singularity W → Result (Singularity W)
  execute_on_singularity target fn (text from ∷ text to ∷ flag skim ∷ num share ∷ []) s =
      if fn === "addAsset" && target === p.market
      then (add_asset o c from to skim share s >>= λ r. ok r.1)
      else err (rejected "no such function")
  execute_on_singularity target fn args s =
      elsewhere (send o approvals p target fn args s.outside) s

  unfoldable pub run_lending : List Sent → Singularity W → Result (Singularity W)
  run_lending [] s = ok s
  run_lending (x ∷ xs) s =
      execute_on_singularity x.target x.call_data.fn x.call_data.args s >>= run_lending xs

  elsewhere-step :
      (sent : Result W) (s t : Singularity W)
      → elsewhere sent s ≡ ok t
      → (sent ≡ ok t.outside) × (t ≡ record s { outside = t.outside })
  elsewhere-step sent s t e = (ground arith, ground arith)

  pub approve-step :
      (spender : String) (amount : ℕ) (s t : Singularity W)
      → execute_on_singularity p.token "approve" (text spender ∷ num amount ∷ []) s ≡ ok t
      → (approvals.approve p.token p.account spender amount s.outside ≡ ok t.outside)
        × (t ≡ record s { outside = t.outside })
  unfolding execute_on_singularity send
  approve-step spender amount s t e =
      elsewhere-step (approvals.approve p.token p.account spender amount s.outside) s t
        (ground (arith, eq_refl p.token))

  pub deposit-step :
      (id amount share : ℕ) (to : String) (s t : Singularity W)
      → execute_on_singularity p.yield_box "depositAsset"
          (num id ∷ text p.account ∷ text to ∷ num amount ∷ num share ∷ [])
          s
        ≡ ok t
      → (n : ℕ) × (o.deposit_asset id p.account to amount share s.outside ≡ ok (n, t.outside))
        × (t ≡ record s { outside = t.outside })
  unfolding execute_on_singularity send
  deposit-step id amount share to s t e =
      elim (Result-cases (o.deposit_asset id p.account to amount share s.outside)) [
        | inl (x, done) ↦ (
          x.0,
          ground (arith, eq_refl p.yield_box, eq_refl p.account),
          ground (arith, eq_refl p.yield_box, eq_refl p.account),
        )
        | inr (reason, failed) ↦ absurd (ground (arith, eq_refl p.yield_box, eq_refl p.account))
      ]

  pub approval-step :
      (operator : String) (id : ℕ) (b : Bool) (s t : Singularity W)
      → execute_on_singularity p.yield_box "setApprovalForAsset"
          (text operator ∷ num id ∷ flag b ∷ [])
          s
        ≡ ok t
      → (approvals.set_approval_for_asset p.account operator id b s.outside ≡ ok t.outside)
        × (t ≡ record s { outside = t.outside })
  unfolding execute_on_singularity send
  approval-step operator id b s t e =
      elsewhere-step (approvals.set_approval_for_asset p.account operator id b s.outside) s t
        (ground (arith, eq_refl p.yield_box))

  pub approval_for_all-step :
      (operator : String) (b : Bool) (s t : Singularity W)
      → execute_on_singularity p.yield_box "setApprovalForAll" (text operator ∷ flag b ∷ []) s
        ≡ ok t
      → (approvals.set_approval_for_all p.account operator b s.outside ≡ ok t.outside)
        × (t ≡ record s { outside = t.outside })
  unfolding execute_on_singularity send
  approval_for_all-step operator b s t e =
      elsewhere-step (approvals.set_approval_for_all p.account operator b s.outside) s t
        (ground (arith, eq_refl p.yield_box))

  pub permit-step :
      (kind id amount expiration : ℕ) (token operator : String) (s t : Singularity W)
      → execute_on_singularity p.pearlmit "approve"
          (num kind ∷ text token ∷ num id ∷ text operator ∷ num amount ∷ num expiration ∷ [])
          s
        ≡ ok t
      → (approvals.approve_operator p.account kind token id operator amount expiration s.outside
          ≡ ok t.outside)
        × (t ≡ record s { outside = t.outside })
  unfolding execute_on_singularity send
  permit-step kind id amount expiration token operator s t e =
      elsewhere-step
        (approvals.approve_operator p.account kind token id operator amount expiration s.outside) s
        t (ground (arith, eq_refl p.pearlmit))

  pub add-step :
      (from to : String) (skim : Bool) (share : ℕ) (s t : Singularity W)
      → execute_on_singularity p.market "addAsset"
          (text from ∷ text to ∷ flag skim ∷ num share ∷ [])
          s
        ≡ ok t
      → (fraction : ℕ) × (add_asset o c from to skim share s ≡ ok (fraction, t))
  unfolding execute_on_singularity
  add-step from to skim share s t e = elim (Result-cases (add_asset o c from to skim share s)) [
    | inl (r, done) ↦ (r.0, ground (arith, eq_refl p.market))
    | inr (reason, failed) ↦ absurd (ground (arith, eq_refl p.market))
  ]
