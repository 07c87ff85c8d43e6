-- ===== src/Market/Outside.antt =====
-- What a market calls outside itself: the YieldBox, Pearlmit, the cluster, Penrose, the other
-- markets, the oracles, the USDO token, a liquidator's receiver and BoringSolidity's rebase
-- library. `W` is the state of all those contracts; a call that is not a view yields the next one.
-- None of them changes the storage of the calling market within the call.
use tapioca_bar.Prelude.{ℕ, String, Bool, true, false, Result, ok, ◌≡◌, ◌+◌, ◌*◌, ◌≤◌, ◌<◌, ◌⊎◌}
use tapioca_bar.Market.{Rebase}

pub record Outside (W : Type 0) : Type 0 where
  -- `totalBorrow.toBase(amount, roundUp)` and `totalBorrow.toElastic(part, roundUp)`
  pub to_base : Rebase → ℕ → Bool → Result ℕ
  pub to_elastic : Rebase → ℕ → Bool → Result ℕ
  -- `totalBorrow.add(amount, roundUp)` and `totalBorrow.sub(part, roundUp)`
  pub rebase_add : Rebase → ℕ → Bool → Result (Rebase × ℕ)
  pub rebase_sub : Rebase → ℕ → Bool → Result (Rebase × ℕ)
  -- `totalAsset.add(elastic, base)`
  pub rebase_add_both : Rebase → ℕ → ℕ → Result Rebase
  -- `yieldBox.toShare(id, amount, roundUp)` and its kin
  pub to_share : W → ℕ → ℕ → Bool → Result ℕ
  pub to_amount : W → ℕ → ℕ → Bool → Result ℕ
  pub balance_of : W → String → ℕ → Result ℕ
  -- `transfer(from, to, id, share)`
  pub transfer : String → String → ℕ → ℕ → W → Result W
  -- The share of `depositAsset(id, from, to, amount, share)`, and the approvals around it
  pub deposit_asset : ℕ → String → String → ℕ → ℕ → W → Result (ℕ × W)
  -- The amount of `withdraw(id, from, to, amount, share)`
  pub withdraw : ℕ → String → String → ℕ → ℕ → W → Result (ℕ × W)
  -- `pearlmit.transferFromERC1155(from, to, yieldBox, id, share)` and `pearlmit.allowance` of a
  -- kind of token and an id
  pub transfer_from_erc1155 : String → String → ℕ → ℕ → W → Result (Bool × W)
  pub pearlmit_allowance : W → String → String → ℕ → ℕ → Result ℕ
  pub is_whitelisted : W → String → Result Bool
  pub has_role : W → String → String → Result Bool
  -- `oracle.get(data)` of the market's oracle and of the asset's
  pub oracle_get : String → String → W → Result ((Bool × ℕ) × W)
  pub asset_oracle_get : String → W → Result ((Bool × ℕ) × W)
  pub main_asset_id : W → Result ℕ
  pub big_bang_eth_market : W → Result String
  pub big_bang_eth_debt_rate : W → Result ℕ
  pub get_total_debt : W → String → Result ℕ
  -- `accrue` of another market, and Penrose's `reAccrueBigBangMarkets`
  pub accrue_market : String → W → Result W
  pub re_accrue_big_bang_markets : W → Result W
  pub mint : String → ℕ → W → Result W
  pub burn : String → ℕ → W → Result W
  pub asset_balance_of : W → String → Result ℕ
  pub asset_transfer : String → ℕ → W → Result W
  -- `asset.safeTransferFrom(from, to, amount)`
  pub asset_transfer_from : String → String → ℕ → W → Result W
  pub asset_decimals : W → Result ℕ
  -- `onCollateralReceiver(initiator, amount, data)` of a receiver
  pub on_collateral_receiver : String → String → ℕ → String → W → Result W

-- The message that calls, and the block it is in.
pub record Call : Type 0 where
  pub sender : String
  pub address_this : String
  pub timestamp : ℕ

-- BoringRebase documents `add` as adding to both numbers and `sub` as taking from both; an amount
-- that is rounded up is worth at least what it stands for, where it is not a first amount.
pub record IsRebaseLibrary {W : Type 0} (o : Outside W) : Type 0 where
  pub added :
      (r : Rebase) (amount : ℕ) (up : Bool) (x : Rebase × ℕ)
      → o.rebase_add r amount up ≡ ok x
      → (x.0.elastic ≡ r.elastic + amount) × (x.0.base ≡ r.base + x.1)
  pub subtracted :
      (r : Rebase) (part : ℕ) (up : Bool) (x : Rebase × ℕ)
      → o.rebase_sub r part up ≡ ok x
      → (x.0.elastic + x.1 ≡ r.elastic) × (x.0.base + part ≡ r.base)
  pub added_both :
      (r : Rebase) (elastic base : ℕ) (x : Rebase)
      → o.rebase_add_both r elastic base ≡ ok x
      → (x.elastic ≡ r.elastic + elastic) × (x.base ≡ r.base + base)
  pub part_rounded_up :
      (r : Rebase) (amount : ℕ) (x : Rebase × ℕ)
      → (r.base ≡ 0) ⊎ (0 < r.elastic)
      → o.rebase_add r amount true ≡ ok x
      → amount * r.base ≤ x.1 * r.elastic
  pub amount_rounded_up :
      (r : Rebase) (part : ℕ) (x : Rebase × ℕ)
      → o.rebase_sub r part true ≡ ok x
      → part * r.elastic ≤ x.1 * r.base

-- The YieldBox rounds a share up to at least the share it rounds down to, and a transfer of shares
-- between accounts leaves the value of a share as it was.
pub record IsYieldBox {W : Type 0} (o : Outside W) : Type 0 where
  pub rounded :
      (w : W) (id amount down up : ℕ)
      → o.to_share w id amount false ≡ ok down
      → o.to_share w id amount true ≡ ok up
      → down ≤ up
  pub kept :
      (from to : String) (id share other amount : ℕ) (up : Bool) (w : W) (x : Bool × W)
      → o.transfer_from_erc1155 from to id share w ≡ ok x
      → o.to_share x.1 other amount up ≡ o.to_share w other amount up
