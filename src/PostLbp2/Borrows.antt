-- ===== src/PostLbp2/Borrows.antt =====
-- What addCollateral by amount and borrow of contracts/markets/origins/Origins.sol change.
use tapioca_bar.Prelude.{ℕ, ◌+◌, false, arith, ◌≡◌, ok, Result-cases, inl, inr, get, get-put}
use tapioca_bar.Market.Outside.{Outside, Call, IsRebaseLibrary}
use tapioca_bar.Origins.{Origins}
use tapioca_bar.Origins.Operations.{add_collateral, borrow, put_collateral, refresh, lend}
use tapioca_bar.Market.Views.{update_exchange_rate}

module _ {W : Type 0} (o : Outside W) (c : Call) where
  -- What stays of a market while collateral is added and USDO borrowed.
  abbrev SameTerms : Origins W → Origins W → Type 0
  SameTerms s t =
      (t.market.collateral_id ≡ s.market.collateral_id)
      × (t.market.asset_id ≡ s.market.asset_id)
      × (t.market.min_borrow_amount ≡ s.market.min_borrow_amount)

  -- Collateral that is added by its amount is worth the shares that the YieldBox gives for it.
  abbrev pub Added : ℕ → Origins W → Origins W → Type 0
  Added amount s t =
      (share : ℕ) × (o.to_share s.outside s.market.collateral_id amount false ≡ ok share)
      × (get t.market.user_collateral_share c.sender
          ≡ get s.market.user_collateral_share c.sender + share)
      × (t.market.total_collateral_share ≡ s.market.total_collateral_share + share)
      × (t.market.total_borrow ≡ s.market.total_borrow)
      × SameTerms s t

  pub add_collateral-Added :
      (amount : ℕ) (s t : Origins W) → add_collateral o c amount 0 s ≡ ok t → Added amount s t
  unfolding add_collateral put_collateral
  add_collateral-Added amount s t e =
      elim (Result-cases (o.to_share s.outside s.market.collateral_id amount false)) [
        | inl (share, found) ↦ (
          share,
          found,
          grind (arith, get-put),
          ground arith,
          ground arith,
          (ground arith, ground arith, ground arith),
        )
        | inr (reason, failed) ↦ absurd (ground arith)
      ]

  abbrev pub Borrowed : ℕ → Origins W → Origins W → Type 0
  Borrowed amount s t =
      (t.market.total_borrow.elastic ≡ s.market.total_borrow.elastic + amount)
      × (t.market.user_collateral_share ≡ s.market.user_collateral_share)
      × (t.market.total_collateral_share ≡ s.market.total_collateral_share)
      × SameTerms s t

  pub borrow-Borrowed :
      (laws : IsRebaseLibrary o) (amount : ℕ) (s : Origins W) (r : (ℕ × ℕ) × Origins W)
      → borrow o c amount s ≡ ok r
      → Borrowed amount s r.1
  unfolding borrow refresh update_exchange_rate lend
  borrow-Borrowed laws amount s r e = (
    grind (arith, laws.added),
    ground arith,
    ground arith,
    (ground arith, ground arith, ground arith),
  )
