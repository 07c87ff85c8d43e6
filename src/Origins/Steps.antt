-- ===== src/Origins/Steps.antt =====
-- What each operation of Origins.sol does to the books and to the USDO that the market has issued.
use tapioca_bar.Prelude.{
  ℕ, String, Bool, ok, ◌≡◌, ◌+◌, arith, total-put, Result-cases, Zero-cases, inl, inr, false,
}
use tapioca_bar.Market.{PauseType}
use tapioca_bar.Market.Outside.{Outside, Call, IsRebaseLibrary}
use tapioca_bar.Market.Views.{update_exchange_rate}
use tapioca_bar.Market.Configuration.{MarketConfig, set_market_config}
use tapioca_bar.Market.Books.{IsInStep}
use tapioca_bar.Origins.{
  Origins, configure, update_allowed_participants, update_pause, update_pause_all,
}
use tapioca_bar.Origins.Operations.{
  put_collateral, take_collateral, lend, settle, refresh, add_collateral, remove_collateral, borrow,
  repay,
}

-- What a market has minted less what it has burnt: USDO counts both, and the calls of the oracle and
-- of the YieldBox leave it as it is.
pub record IsIssuance {W : Type 0} (o : Outside W) (issued : W → ℕ) : Type 0 where
  pub minted :
      (to : String) (amount : ℕ) (w v : W)
      → o.mint to amount w ≡ ok v
      → issued v ≡ issued w + amount
  pub burnt :
      (from : String) (amount : ℕ) (w v : W)
      → o.burn from amount w ≡ ok v
      → issued v + amount ≡ issued w
  pub asked :
      (oracle bytes : String) (w : W) (x : (Bool × ℕ) × W)
      → o.oracle_get oracle bytes w ≡ ok x
      → issued x.1 ≡ issued w
  pub transferred :
      (from to : String) (id share : ℕ) (w v : W)
      → o.transfer from to id share w ≡ ok v
      → issued v ≡ issued w
  pub deposited :
      (id : ℕ) (from to : String) (amount share : ℕ) (w : W) (x : ℕ × W)
      → o.deposit_asset id from to amount share w ≡ ok x
      → issued x.1 ≡ issued w
  pub withdrawn :
      (id : ℕ) (from to : String) (amount share : ℕ) (w : W) (x : ℕ × W)
      → o.withdraw id from to amount share w ≡ ok x
      → issued x.1 ≡ issued w

module _ {W : Type 0} (o : Outside W) (issued : W → ℕ) where
  -- The parts and the shares change in step with their totals, and the debt with what is issued.
  abbrev pub Keeps : Origins W → Origins W → Type 0
  Keeps s t =
      IsInStep s.market t.market
      × (issued t.outside + s.market.total_borrow.elastic
          ≡ issued s.outside + t.market.total_borrow.elastic)

  module _ (laws : IsRebaseLibrary o) (counts : IsIssuance o issued) (c : Call) where
    put_collateral-Keeps :
        (from to : String) (amount share : ℕ) (s t : Origins W)
        → put_collateral o c from to amount share s ≡ ok t
        → Keeps s t
    unfolding put_collateral
    put_collateral-Keeps from to amount share s t e =
        ((grind (arith, total-put), grind (arith, total-put)), grind (arith, counts.transferred))

    take_collateral-Keeps :
        (from to : String) (share : ℕ) (s t : Origins W)
        → take_collateral o c from to share s ≡ ok t
        → Keeps s t
    unfolding take_collateral
    take_collateral-Keeps from to share s t e =
        ((grind (arith, total-put), grind (arith, total-put)), grind (arith, counts.transferred))

    lend-issued :
        (from to : String) (amount : ℕ) (s : Origins W) (r : (ℕ × ℕ) × Origins W)
        → lend o c from to amount s ≡ ok r
        → issued r.1.outside ≡ issued s.outside + amount
    unfolding lend
    lend-issued from to amount s r e =
        elim (Result-cases (o.mint c.address_this amount s.outside)) [
          | inl (v, minted) ↦
              elim (Result-cases (o.deposit_asset s.market.asset_id c.address_this to amount 0 v)) [
                | inl (x, deposited) ↦ ground (
                  arith,
                  counts.minted c.address_this amount s.outside v minted,
                  counts.deposited s.market.asset_id c.address_this to amount 0 v x deposited,
                )
                | inr (reason, failed) ↦ absurd (ground arith)
              ]
          | inr (reason, failed) ↦ absurd (ground arith)
        ]

    lend-Keeps :
        (from to : String) (amount : ℕ) (s : Origins W) (r : (ℕ × ℕ) × Origins W)
        → lend o c from to amount s ≡ ok r
        → Keeps s r.1
    unfolding lend
    lend-Keeps from to amount s r e = (
      (grind (arith, total-put, laws.added), grind (arith, total-put)),
      grind (arith, laws.added, lend-issued from to amount s r e),
    )

    settle-issued :
        (from to : String) (part : ℕ) (s : Origins W) (r : ℕ × Origins W)
        → settle o c from to part s ≡ ok r
        → issued r.1.outside + r.0 ≡ issued s.outside
    unfolding settle
    settle-issued from to part s r e =
        elim (Result-cases (o.withdraw s.market.asset_id from c.address_this r.0 0 s.outside)) [
          | inl (x, withdrawn) ↦ elim (Result-cases (o.burn c.address_this r.0 x.1)) [
            | inl (v, burnt) ↦ ground (
              arith,
              counts.burnt c.address_this r.0 x.1 v burnt,
              counts.withdrawn s.market.asset_id from c.address_this r.0 0 s.outside x withdrawn,
            )
            | inr (reason, failed) ↦ absurd (ground arith)
          ]
          | inr (reason, failed) ↦ absurd (ground arith)
        ]

    settle-Keeps :
        (from to : String) (part : ℕ) (s : Origins W) (r : ℕ × Origins W)
        → settle o c from to part s ≡ ok r
        → Keeps s r.1
    unfolding settle
    settle-Keeps from to part s r e = (
      (grind (arith, total-put, laws.subtracted), grind (arith, total-put)),
      grind (arith, laws.subtracted, settle-issued from to part s r e),
    )

    refresh-Keeps : (s t : Origins W) → refresh o c s ≡ ok t → Keeps s t
    unfolding refresh update_exchange_rate
    refresh-Keeps s t e = ((ground arith, ground arith), grind (arith, counts.asked))

    Keeps-trans : (s t u : Origins W) → Keeps s t → Keeps t u → Keeps s u
    Keeps-trans s t u a b =
        ((omega (arith, a.0.0, b.0.0), omega (arith, a.0.1, b.0.1)), omega (arith, a.1, b.1))

    pub add_collateral-Keeps :
        (amount share : ℕ) (s t : Origins W) → add_collateral o c amount share s ≡ ok t → Keeps s t
    unfolding add_collateral
    add_collateral-Keeps amount share s t e = elim (Zero-cases share) [
      | inl none_given ↦
          elim (Result-cases (o.to_share s.outside s.market.collateral_id amount false)) [
            | inl (computed, found) ↦
                put_collateral-Keeps c.sender c.sender amount computed s t (ground arith)
            | inr (reason, failed) ↦ absurd (ground arith)
          ]
      | inr given ↦ put_collateral-Keeps c.sender c.sender amount share s t (ground arith)
    ]

    pub remove_collateral-Keeps :
        (share : ℕ) (s t : Origins W) → remove_collateral o c share s ≡ ok t → Keeps s t
    unfolding remove_collateral
    remove_collateral-Keeps share s t e = elim (Result-cases (refresh o c s)) [
      | inl (u, refreshed) ↦
          Keeps-trans s u t (refresh-Keeps s u refreshed)
            (take_collateral-Keeps c.sender c.sender share u t (ground arith))
      | inr (reason, failed) ↦ absurd (ground arith)
    ]

    pub borrow-Keeps :
        (amount : ℕ) (s : Origins W) (r : (ℕ × ℕ) × Origins W)
        → borrow o c amount s ≡ ok r
        → Keeps s r.1
    unfolding borrow
    borrow-Keeps amount s r e = elim (Result-cases (refresh o c s)) [
      | inl (u, refreshed) ↦
          Keeps-trans s u r.1 (refresh-Keeps s u refreshed)
            (lend-Keeps c.sender c.sender amount u r (ground arith))
      | inr (reason, failed) ↦ absurd (ground arith)
    ]

    pub repay-Keeps :
        (part : ℕ) (s : Origins W) (r : ℕ × Origins W) → repay o c part s ≡ ok r → Keeps s r.1
    unfolding repay
    repay-Keeps part s r e = elim (Result-cases (refresh o c s)) [
      | inl (u, refreshed) ↦
          Keeps-trans s u r.1 (refresh-Keeps s u refreshed)
            (settle-Keeps c.sender c.sender part u r (ground arith))
      | inr (reason, failed) ↦ absurd (ground arith)
    ]

    pub configure-Keeps :
        (a : MarketConfig) (s t : Origins W) → configure o c a s ≡ ok t → Keeps s t
    unfolding configure set_market_config
    configure-Keeps a s t e = ((ground arith, ground arith), ground arith)

    pub update_pause-Keeps :
        (kind : PauseType) (value : Bool) (s t : Origins W)
        → update_pause o c kind value s ≡ ok t
        → Keeps s t
    unfolding update_pause
    update_pause-Keeps kind value s t e = ((ground arith, ground arith), ground arith)

    pub update_pause_all-Keeps :
        (value : Bool) (s t : Origins W) → update_pause_all o c value s ≡ ok t → Keeps s t
    unfolding update_pause_all
    update_pause_all-Keeps value s t e = ((ground arith, ground arith), ground arith)

    pub update_allowed_participants-Keeps :
        (user : String) (value : Bool) (s t : Origins W)
        → update_allowed_participants o c user value s ≡ ok t
        → Keeps s t
    unfolding update_allowed_participants
    update_allowed_participants-Keeps user value s t e =
        ((ground arith, ground arith), ground arith)
