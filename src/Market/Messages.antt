-- ===== src/Market/Messages.antt =====
-- The calls of the deployment tasks that reach a token, the YieldBox and Pearlmit, sent by one
-- account. What those contracts do is a parameter: their transfers are those of `Outside`, and
-- their approvals are `Approvals`.
use tapioca_bar.Prelude.{
  ℕ, String, Bool, List, [], ◌∷◌, Result, ok, err, rejected, ◌>>=◌, ◌>>◌, if◌then◌else◌, ◌===◌,
  ◌&&◌,
}
use tapioca_bar.Sdk.{Arg, text, num, flag}
use tapioca_bar.Penrose.{require}
use tapioca_bar.Market.Outside.{Outside}

pub record Approvals (W : Type 0) : Type 0 where
  -- `token.approve(spender, amount)`, by an owner
  pub approve : String → String → String → ℕ → W → Result W
  -- `yieldBox.setApprovalForAsset(operator, id, approved)` and `setApprovalForAll`, by an owner
  pub set_approval_for_asset : String → String → ℕ → Bool → W → Result W
  pub set_approval_for_all : String → String → Bool → W → Result W
  -- `pearlmit.approve(tokenType, token, id, operator, amount, expiration)`, by an owner
  pub approve_operator : String → ℕ → String → ℕ → String → ℕ → ℕ → W → Result W

pub record Addresses : Type 0 where
  pub token : String
  pub yield_box : String
  pub pearlmit : String
  pub market : String
  pub account : String

module _ {W : Type 0} (o : Outside W) (approvals : Approvals W) (p : Addresses) where
  -- A call of the account to a contract that is not the market. It moves its own tokens only.
  unfoldable pub send : String → String → List Arg → W → Result W
  send target fn (text spender ∷ num amount ∷ []) w = do
    require (fn === "approve" && target === p.token) "no such function"
    approvals.approve target p.account spender amount w
  send target fn (num id ∷ text from ∷ text to ∷ num amount ∷ num share ∷ []) w = do
    require (target === p.yield_box && from === p.account) "not allowed"
    if fn === "depositAsset"
        then (o.deposit_asset id from to amount share w >>= λ x. ok x.1)
        else if fn === "withdraw"
        then (o.withdraw id from to amount share w >>= λ x. ok x.1)
        else err (rejected "no such function")
  send target fn (text operator ∷ num id ∷ flag approved ∷ []) w = do
    require (fn === "setApprovalForAsset" && target === p.yield_box) "no such function"
    approvals.set_approval_for_asset p.account operator id approved w
  send target fn (text operator ∷ flag approved ∷ []) w = do
    require (fn === "setApprovalForAll" && target === p.yield_box) "no such function"
    approvals.set_approval_for_all p.account operator approved w
  send target fn (num kind ∷ text token ∷ num id ∷ text operator ∷ num amount ∷ num expiration ∷ [])
        w =
      do
        require (fn === "approve" && target === p.pearlmit) "no such function"
        approvals.approve_operator p.account kind token id operator amount expiration w
  send target fn args w = err (rejected "no such function")
