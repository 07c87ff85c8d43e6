-- ===== src/Singularity/Shares.antt =====
-- What a lender adds and takes back.
use tapioca_bar.Prelude.{
  ℕ, String, Bool, true, false, ok, ◌≡◌, ◌≤◌, ◌*◌, ◌+◌, ◌/◌, arith, Result-cases, inl, inr,
  Bool-cases, ltb, ◌==◌, ◌⊎◌, if◌then◌else◌, mul_div,
}
use native.Mathlib.Nat.{div-le_of_le-mul, div-mul-le_self, mul-le-mul}
use tapioca_bar.Market.Outside.{Outside, Call, IsRebaseLibrary, IsYieldBox}
use tapioca_bar.Singularity.{Singularity, add_tokens}
use tapioca_bar.Singularity.Assets.{put_asset, take_asset}

-- `fraction` is worth at most `share` of `all`, and it is taken back at a price that is no better.
returned-le :
    (share fraction base all now : ℕ)
    → fraction * all ≤ share * base
    → now ≤ all + share
    → fraction * now / (base + fraction) ≤ share
returned-le share fraction base all now bought priced =
    let step : fraction * now ≤ fraction * (all + share) =
      mul-le-mul {n₁ = fraction} {n₂ = fraction} (omega arith) priced in
    div-le_of_le-mul (base + fraction) (omega (arith, bought, step))

-- The fraction that `_addAsset` gives.
bought-le :
    (share base all fraction : ℕ)
    → (if all == 0 then ok share else mul_div share base all) ≡ ok fraction
    → fraction * all ≤ share * base
bought-le share base all fraction e = grind (arith, div-mul-le_self (share * base) all)

module _ {W : Type 0} (o : Outside W) (c : Call) (laws : IsRebaseLibrary o)
    (box : IsYieldBox o) where
  -- What was added, where it was not below the least amount of fractions.
  abbrev Put : ℕ → Singularity W → ℕ × Singularity W → Type 0
  Put share s r =
      (up : ℕ) × (o.to_share s.outside s.market.asset_id s.market.total_borrow.elastic true ≡ ok up)
      × (r.0 * (s.total_asset.elastic + up) ≤ share * s.total_asset.base)
      × (r.1.total_asset.elastic ≡ s.total_asset.elastic + share)
      × (r.1.total_asset.base ≡ s.total_asset.base + r.0)
      × (r.1.market ≡ s.market)

  put_asset-Put :
      (from to : String) (skim : Bool) (share : ℕ) (s : Singularity W) (r : ℕ × Singularity W)
      → put_asset o c from to skim share s ≡ ok r
      → (r ≡ (0, s)) ⊎ Put share s r
  unfolding put_asset
  put_asset-Put from to skim share s r e =
      elim (Result-cases
        (o.to_share s.outside s.market.asset_id s.market.total_borrow.elastic true)) [
          | inl (up, priced) ↦
              elim (Result-cases (
                if s.total_asset.elastic + up == 0
                then ok share
                else mul_div share s.total_asset.base (s.total_asset.elastic + up))) [
                  | inl (fraction, bought) ↦
                      elim (Bool-cases (ltb (s.total_asset.base + fraction) 1000)) [
                        | inl few ↦ inl (ground arith)
                        | inr enough ↦ inr (
                          up,
                          priced,
                          ground (
                            arith,
                            bought-le share s.total_asset.base (s.total_asset.elastic + up) fraction
                                bought,
                          ),
                          grind (arith, laws.added_both),
                          grind (arith, laws.added_both),
                          ground arith,
                        )
                      ]
                  | inr (reason, failed) ↦ absurd (ground arith)
                ]
          | inr (reason, failed) ↦ absurd (ground arith)
        ]

  add_tokens-price :
      (from : String) (id share all : ℕ) (skim : Bool) (w x : W) (other amount : ℕ) (up : Bool)
      → add_tokens o c from id share all skim w ≡ ok x
      → o.to_share x other amount up ≡ o.to_share w other amount up
  unfolding add_tokens
  add_tokens-price from id share all true w x other amount up e = ground arith
  add_tokens-price from id share all false w x other amount up e =
      elim (Result-cases (o.transfer_from_erc1155 from c.address_this id share w)) [
        | inl (sent, moved) ↦
            ground (arith, box.kept from c.address_this id share other amount up w sent moved)
        | inr (reason, failed) ↦ absurd (ground arith)
      ]

  put_asset-price :
      (from to : String) (skim : Bool) (share : ℕ) (s : Singularity W) (r : ℕ × Singularity W)
      (other amount : ℕ) (up : Bool)
      → put_asset o c from to skim share s ≡ ok r
      → o.to_share r.1.outside other amount up ≡ o.to_share s.outside other amount up
  unfolding put_asset
  put_asset-price from to skim share s r other amount up e =
      elim (Result-cases
        (add_tokens o c from s.market.asset_id share s.total_asset.elastic skim s.outside)) [
          | inl (w, moved) ↦ ground (
            arith,
            add_tokens-price from s.market.asset_id share s.total_asset.elastic skim s.outside w
                other amount up moved,
          )
          | inr (reason, failed) ↦ ground arith
        ]

  -- What `_removeAsset` pays for a fraction.
  take_asset-le :
      (from to : String) (fraction share all base : ℕ) (s : Singularity W) (q : ℕ × Singularity W)
      (down : ℕ)
      → take_asset o c from to fraction s ≡ ok q
      → o.to_share s.outside s.market.asset_id s.market.total_borrow.elastic false ≡ ok down
      → s.total_asset.base ≡ base + fraction
      → fraction * all ≤ share * base
      → s.total_asset.elastic + down ≤ all + share
      → q.0 ≤ share
  unfolding take_asset
  take_asset-le from to fraction share all base s q down e priced whole bought cheap =
      ground
        (arith, returned-le share fraction base all (s.total_asset.elastic + down) bought cheap)

  take_none :
      (from to : String) (s : Singularity W) (q : ℕ × Singularity W)
      → take_asset o c from to 0 s ≡ ok q
      → q.0 ≡ 0
  unfolding take_asset
  take_none from to s q e = ground arith

  -- `_removeAsset` pays nothing, or reads what the debt is worth.
  take_asset-priced :
      (from to : String) (fraction : ℕ) (s : Singularity W) (q : ℕ × Singularity W)
      → take_asset o c from to fraction s ≡ ok q
      → (q.0 ≡ 0)
        ⊎ ((down : ℕ) × (o.to_share s.outside s.market.asset_id s.market.total_borrow.elastic false
              ≡ ok down))
  unfolding take_asset
  take_asset-priced from to fraction s q e =
      elim (Result-cases
        (o.to_share s.outside s.market.asset_id s.market.total_borrow.elastic false)) [
          | inl (down, priced) ↦ inr (down, priced)
          | inr (reason, failed) ↦ inl (ground arith)
        ]

  -- The fraction of a deposit that was made is worth at most its shares.
  Put-returned :
      (from to receiver : String) (skim : Bool) (share down : ℕ) (s : Singularity W)
      (r q : ℕ × Singularity W)
      → put_asset o c from to skim share s ≡ ok r
      → take_asset o c to receiver r.0 r.1 ≡ ok q
      → o.to_share r.1.outside r.1.market.asset_id r.1.market.total_borrow.elastic false ≡ ok down
      → Put share s r
      → q.0 ≤ share
  Put-returned from to receiver skim share down s r q e f priced
        (up, rounded, bought, held, base, same) =
      let id = s.market.asset_id in
      let debt = s.market.total_borrow.elastic in
      let before : o.to_share s.outside id debt false ≡ ok down =
        ground (arith, priced, same, put_asset-price from to skim share s r id debt false e) in
      let cheap = box.rounded s.outside id debt down up before rounded in
      take_asset-le to receiver r.0 share (s.total_asset.elastic + up) s.total_asset.base r.1 q down
        f priced base bought (omega (arith, held, cheap))

  -- Where the rebase library adds as documented and the YieldBox rounds and moves shares as
  -- documented, assets that are added and whose fraction is taken back at once, by the same or
  -- another account, pay back at most the shares that were added.
  pub put_asset-take_asset :
      (from to receiver : String) (skim : Bool) (share : ℕ) (s : Singularity W)
      (r q : ℕ × Singularity W)
      → put_asset o c from to skim share s ≡ ok r
      → take_asset o c to receiver r.0 r.1 ≡ ok q
      → q.0 ≤ share
  put_asset-take_asset from to receiver skim share s r q e f =
      elim (put_asset-Put from to skim share s r e) [
        | inl unused ↦
            let nothing = take_none to receiver s q (ground (arith, unused, f)) in
            omega (arith, nothing)
        | inr put ↦ elim (take_asset-priced to receiver r.0 r.1 q f) [
          | inl nothing ↦ omega (arith, nothing)
          | inr (down, priced) ↦ Put-returned from to receiver skim share down s r q e f priced put
        ]
      ]
