-- ===== src/BigBang/Initialise.antt =====
-- The initialisation of a BigBang market in contracts/markets/bigBang/BigBang.sol. The addresses of
-- the modules, the tokens, the YieldBox and Pearlmit are the outside's; `rateValidDuration`, which the
-- market only shows, is left out.
use tapioca_bar.Prelude.{
  ℕ, String, Bool, true, false, Result, ok, err, rejected, ◌>>=◌, bind-ok, ◌>>◌, leb, ltb,
  if◌then◌else◌, ◌==◌, ◌===◌, not, ◌&&◌, ◌≡◌, ◌^◌, arith, refl,
}
use tapioca_bar.Penrose.{require, zero_address}
use tapioca_bar.Market.{fee_precision}
use tapioca_bar.Market.Outside.{Outside, Call}
use tapioca_bar.Market.Views.{update_exchange_rate}
use tapioca_bar.Market.Configuration.{IsConfigured}
use tapioca_bar.BigBang.{BigBang}

-- The decoded `initData`, and what Penrose answers.
pub record InitData : Type 0 where
  pub penrose : String
  pub usdo_token : String
  pub usdo_asset_id : ℕ
  pub collateral : String
  pub collateral_id : ℕ
  pub oracle : String
  pub exchange_rate_precision : ℕ
  pub collateralization_rate : ℕ
  pub liquidation_collateralization_rate : ℕ
  pub debt_rate_against_eth : ℕ
  pub debt_rate_min : ℕ
  pub debt_rate_max : ℕ

abbrev pub or_default : ℕ → ℕ → ℕ
or_default value default = if ltb 0 value then value else default

module _ {W : Type 0} (o : Outside W) (c : Call) where
  unfoldable pub init_core_storage : InitData → BigBang W → Result (BigBang W)
  init_core_storage a s = do
    require (not (a.collateral === zero_address)) "BadPair"
    require (not (a.usdo_token === zero_address)) "BadPair"
    require (not (a.oracle === zero_address)) "BadPair"
    require (leb a.collateralization_rate fee_precision) "NotValid"
    require (leb a.liquidation_collateralization_rate fee_precision) "NotValid"
    updated ←
        update_exchange_rate o c
          (record s.market {
            asset_id = a.usdo_asset_id;
            collateral_id = a.collateral_id;
            oracle = a.oracle;
          })
          s.outside
    let rate = or_default a.collateralization_rate 75000
    let liquidation_rate = or_default a.liquidation_collateralization_rate 80000
    require (leb rate liquidation_rate) "NotValid"
    ok (record s {
      market = record updated.0 {
        owner = a.penrose;
        protocol_fee = 10000;
        collateralization_rate = rate;
        liquidation_collateralization_rate = liquidation_rate;
        exchange_rate_precision = or_default a.exchange_rate_precision (10 ^ 18);
        min_liquidator_reward = 88000;
        max_liquidator_reward = 92500;
        liquidation_bonus_amount = 3000;
        liquidation_multiplier = 12000;
        min_borrow_amount = 10 ^ 15;
        min_collateral_amount = 10 ^ 15;
      };
      min_mint_fee = 0;
      max_mint_fee = 1000;
      max_mint_fee_start = 980000000000000000;
      min_mint_fee_start = 1000000000000000000;
      outside = updated.1;
    })

  unfoldable pub init_debt_storage : InitData → BigBang W → Result (BigBang W)
  init_debt_storage a s = do
    main ← o.main_asset_id s.outside
    let t = record s { is_main_market = s.market.collateral_id == main }
    if t.is_main_market then ok t else do
      (if not (a.debt_rate_min == 0) && not (a.debt_rate_max == 0)
          then (do
            require (ltb a.debt_rate_min a.debt_rate_max) "DebtRatesNotValid"
            require (leb a.debt_rate_max (10 ^ 18)) "MaxDebtRateNotValid")
          else ok tt)
      ok (record t {
        debt_rate_against_eth_market = a.debt_rate_against_eth;
        max_debt_rate = a.debt_rate_max;
        min_debt_rate = a.debt_rate_min;
      })

  -- `init`, with the flag of `onlyOnce` before and after
  unfoldable pub init : InitData → Bool → BigBang W → Result (BigBang W × Bool)
  init a initialized s = do
    require (not initialized) "Market: initialized"
    t ← init_core_storage a s
    u ← init_debt_storage a t
    ok (u, true)

  init_core_storage_lem :
      (a : InitData) (s t : BigBang W)
      → init_core_storage a s ≡ ok t
      → IsConfigured t.market × (t.market.owner ≡ a.penrose)
  unfolding init_core_storage
  init_core_storage_lem a s t e = (
    record {
      rates_ordered = ground arith;
      rate_bounded = ground arith;
      rewards_ordered = ground arith;
      reward_bounded = ground arith;
      fee_bounded = ground arith;
      bonus_bounded = ground arith;
    },
    ground arith,
  )

  init_debt_storage-market :
      (a : InitData) (s t : BigBang W) → init_debt_storage a s ≡ ok t → t.market ≡ s.market
  unfolding init_debt_storage
  init_debt_storage-market a s t e = ground arith

  -- An initialisation that does not revert establishes the order of rates and rewards that
  -- `setMarketConfig` keeps, hands the market to Penrose, and no further one succeeds on any market
  -- with the flag it leaves.
  pub init_once :
      (a b : InitData) (initialized after : Bool) (s t u : BigBang W)
      → init a initialized s ≡ ok (t, after)
      → IsConfigured t.market
        × (t.market.owner ≡ a.penrose)
        × (init b after u ≡ err (rejected "Market: initialized"))
  unfolding init
  init_once a b true after s t u e = absurd (cc)
  init_once a b false after s t u e =
      let (x, core, rest) = bind-ok (init_core_storage a s) _ (t, after) e in
      let (y, debt, last) = bind-ok (init_debt_storage a x) _ (t, after) rest in
      let (configured, owned) = init_core_storage_lem a s x core in
      let same = init_debt_storage-market a x y debt in
      let kept : t.market ≡ x.market = cc in
      let flagged : after ≡ true = cc in (rw kept configured, cc, rw flagged refl)
