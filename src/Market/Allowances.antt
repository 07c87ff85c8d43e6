-- ===== src/Market/Allowances.antt =====
-- `_allowedLend` and `_allowedBorrow` of contracts/markets/Market.sol: what a caller may do with
-- another account, from the allowances the account gave and from Pearlmit.
use tapioca_bar.Prelude.{
  ℕ, String, ◌^◌, ◌-◌, Result, ok, err, rejected, ◌>>=◌, ◌>>◌, leb, if◌then◌else◌, ◌==◌, ◌===◌,
  ◌||◌,
}
use tapioca_bar.Penrose.{require, update}
use tapioca_bar.Market.{Market}
use tapioca_bar.Market.Outside.{Outside, Call}

-- `allowance[from][spender] = value`
abbrev pub write : (String → String → ℕ) → String → String → ℕ → String → String → ℕ
write f from spender value a b = if a === from then update (f from) spender value b else f a b

-- What Pearlmit allows a whitelisted sender.
abbrev pearlmit_allowed : {W : Type 0} → Outside W → Call → W → String → ℕ → ℕ → Result ℕ
pearlmit_allowed o c w from kind id = do
  whitelisted ← o.is_whitelisted w c.sender
  if whitelisted then o.pearlmit_allowance w from c.sender kind id else ok 0

module _ {W : Type 0} (o : Outside W) (c : Call) where
  unfoldable pub allowed_lend : String → ℕ → Market → W → Result Market
  allowed_lend from share s w =
      if from === c.sender
      then ok s
      else if share == 0
      then err (rejected "AllowanceNotValid")
      else do
        by_pearlmit ← pearlmit_allowed o c w from 20 0
        require (leb share (s.allowance from c.sender) || leb share by_pearlmit)
            "Market: not approved"
        ok (
            if leb share by_pearlmit
            then s
            else if s.allowance from c.sender == 2 ^ 256 - 1
            then s
            else record s {
              allowance = write s.allowance from c.sender (s.allowance from c.sender - share);
            })

  unfoldable pub allowed_borrow : String → ℕ → Market → W → Result Market
  allowed_borrow from share s w =
      if from === c.sender
      then ok s
      else if share == 0
      then err (rejected "AllowanceNotValid")
      else do
        by_pearlmit ← pearlmit_allowed o c w from 1155 s.collateral_id
        require (leb share (s.allowance_borrow from c.sender) || leb share by_pearlmit)
            "Market: not approved"
        ok (
            if leb share by_pearlmit
            then s
            else if s.allowance_borrow from c.sender == 2 ^ 256 - 1
            then s
            else record s {
              allowance_borrow =
                  write s.allowance_borrow from c.sender (s.allowance_borrow from c.sender - share);
            })
