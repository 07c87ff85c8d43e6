-- ===== src/Toft/Lends.antt =====
-- What a call of addAsset of contracts/markets/singularity/Singularity.sol does, by a lender of its
-- own shares.
use tapioca_bar.Prelude.{
  ℕ, ◌+◌, ◌<◌, ◌⊎◌, String, true, false, arith, ◌≡◌, ◌==◌, if◌then◌else◌, ok, Result-cases,
  Bool-cases, inl, inr, get, get-put, ltb, mul_div,
}
use package.text.Mathlib.TextPositions.{eq_refl}
use tapioca_bar.Market.Outside.{Outside, Call, IsRebaseLibrary}
use tapioca_bar.Market.Allowances.{allowed_lend}
use tapioca_bar.Singularity.{Singularity, accrue}
use tapioca_bar.Singularity.Assets.{put_asset, add_asset}

module _ {W : Type 0} (o : Outside W) (c : Call) where
  -- What lending of shares does after the accrual: nothing in a market of less than 1000 fractions,
  -- or the assets grow by the shares, and the lender gets the fractions that they buy.
  abbrev Grown : String → ℕ → ℕ → Singularity W → Singularity W → Type 0
  Grown account share fraction s t =
      ((t ≡ s) × (s.total_asset.base < 1000))
      ⊎ ((up : ℕ) × (o.to_share s.outside s.market.asset_id s.market.total_borrow.elastic true
            ≡ ok up)
          × ((if s.total_asset.elastic + up == 0
                then ok share
                else mul_div share s.total_asset.base (s.total_asset.elastic + up))
              ≡ ok fraction)
          × (t.total_asset.elastic ≡ s.total_asset.elastic + share)
          × (t.total_asset.base ≡ s.total_asset.base + fraction)
          × (get t.balance_of account ≡ get s.balance_of account + fraction))

  put_asset-Grown :
      (laws : IsRebaseLibrary o) (from to : String) (share : ℕ) (s : Singularity W)
      (r : ℕ × Singularity W)
      → put_asset o c from to false share s ≡ ok r
      → Grown to share r.0 s r.1
  unfolding put_asset
  put_asset-Grown laws from to share s r e =
      elim (Result-cases
        (o.to_share s.outside s.market.asset_id s.market.total_borrow.elastic true)) [
          | inl (up, priced) ↦
              elim (Result-cases (
                if s.total_asset.elastic + up == 0
                then ok share
                else mul_div share s.total_asset.base (s.total_asset.elastic + up))) [
                  | inl (fraction, bought) ↦
                      elim (Bool-cases (ltb (s.total_asset.base + fraction) 1000)) [
                        | inl few ↦ inl (ground arith, ground arith)
                        | inr enough ↦ inr (
                          up,
                          priced,
                          ground arith,
                          grind (arith, laws.added_both),
                          grind (arith, laws.added_both),
                          grind (arith, get-put),
                        )
                      ]
                  | inr (reason, failed) ↦ absurd (ground arith)
                ]
          | inr (reason, failed) ↦ absurd (ground arith)
        ]

  -- A lender's own call of `addAsset`.
  abbrev pub Lends : String → ℕ → Singularity W → Singularity W → Type 0
  Lends account share s t =
      (worth : ℕ) × (o.to_amount s.outside s.market.asset_id share false ≡ ok worth)
      × (s.min_lend_amount < worth)
      × ((accrued : Singularity W) × (accrue o c s ≡ ok accrued)
          × ((fraction : ℕ) × Grown account share fraction accrued t))

  pub add_asset-Lends :
      (laws : IsRebaseLibrary o) (account : String) (share : ℕ) (s : Singularity W)
      (r : ℕ × Singularity W)
      → c.sender ≡ account
      → add_asset o c account account false share s ≡ ok r
      → Lends account share s r.1
  unfolding add_asset allowed_lend
  add_asset-Lends laws account share s r sender e =
      elim (Result-cases (o.to_amount s.outside s.market.asset_id share false)) [
        | inl (worth, valued) ↦ elim (Result-cases (accrue o c s)) [
          | inl (accrued, done) ↦
              let made : put_asset o c account account false share accrued ≡ ok r =
                ground (arith, eq_refl account) in
              (
                worth,
                valued,
                ground (arith, eq_refl account),
                (accrued, done, (r.0, put_asset-Grown laws account account share accrued r made)),
              )
          | inr (reason, failed) ↦ absurd (ground (arith, eq_refl account))
        ]
        | inr (reason, failed) ↦ absurd (ground (arith, eq_refl account))
      ]
