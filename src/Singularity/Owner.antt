-- ===== src/Singularity/Owner.antt =====
-- contracts/markets/singularity/Singularity.sol: what the owner and the pausers call.
use tapioca_bar.Prelude.{
  ℕ, String, Bool, ◌^◌, Result, ok, ◌>>=◌, ◌>>◌, leb, ltb, if◌then◌else◌, ◌==◌, ◌===◌, not, ◌||◌,
  ◌&&◌, get, put, add, to_uint_64,
}
use tapioca_bar.Penrose.{require, zero_address}
use tapioca_bar.Market.{PauseType, fee_precision, same_kind, same_flag}
use tapioca_bar.Market.Outside.{Outside, Call}
use tapioca_bar.Market.Configuration.{MarketConfig, set_market_config}
use tapioca_bar.Singularity.{Singularity, accrue}
use tapioca_bar.Singularity.Assets.{take_asset}

-- The arguments of `setSingularityConfig`.
pub record SingularityConfig : Type 0 where
  pub borrow_opening_fee : ℕ
  pub liquidation_multiplier : ℕ
  pub minimum_target_utilization : ℕ
  pub maximum_target_utilization : ℕ
  pub minimum_interest_per_second : ℕ
  pub maximum_interest_per_second : ℕ
  pub interest_elasticity : ℕ
  pub interest_helper : String
  pub min_lend_amount : ℕ

-- The value that is given, if it is above 0.
abbrev pub or_old : ℕ → ℕ → ℕ
or_old value old = if ltb 0 value then value else old

abbrev is_collateral_option : PauseType → Bool
is_collateral_option kind =
    same_kind kind PauseType.add_collateral || same_kind kind PauseType.remove_collateral

module _ {W : Type 0} (o : Outside W) (c : Call) where
  -- `onlyOwner`
  abbrev only_owner : Singularity W → Result (Unit {0})
  only_owner s = require (c.sender === s.market.owner) "Ownable: caller is not the owner"

  unfoldable pub configure : MarketConfig → Singularity W → Result (Singularity W)
  configure a s = do market ← set_market_config c a s.market; ok (record s { market = market })

  -- `lastAccrued` where `updatePause` resets it.
  unfoldable pub reset_accrual : PauseType → Bool → Bool → Singularity W → Result (Singularity W)
  reset_accrual kind value reset s =
      if not value && not (is_collateral_option kind) && reset
      then (do
        now ← to_uint_64 c.timestamp
        ok (record s { accrue_info = record s.accrue_info { last_accrued = now } }))
      else ok s

  unfoldable pub update_pause : PauseType → Bool → Bool → Singularity W → Result (Singularity W)
  update_pause kind value reset s = do
    is_pauser ← o.has_role s.outside c.sender "PAUSABLE"
    require (is_pauser || c.sender === s.market.owner) "NotAuthorized"
    require (not (same_flag value (s.market.pause_options kind))) "SameState"
    let t = record s {
      market = record s.market {
        pause_options =
            (λ other. if same_kind kind other then value else s.market.pause_options other);
      };
    }
    u ← (if value then accrue o c t else ok t)
    reset_accrual kind value reset u

  -- The fees that were earned, on Penrose's balance.
  unfoldable pub collect_fees : Singularity W → Result (Singularity W)
  collect_fees s =
      if ltb 0 s.accrue_info.fees_earned_fraction
      then (do
        t ← accrue o c s
        balance ← add (get t.balance_of t.penrose) t.accrue_info.fees_earned_fraction
        ok (record t {
          balance_of = put t.balance_of t.penrose balance;
          accrue_info = record t.accrue_info { fees_earned_fraction = 0 };
        }))
      else ok s

  unfoldable pub refresh_penrose_fees : Singularity W → Result (ℕ × Singularity W)
  refresh_penrose_fees s = do
    only_owner s
    t ← collect_fees s
    take_asset o c t.penrose c.sender (get t.balance_of t.penrose) t

  -- The settings after the accrual.
  unfoldable pub write_config : SingularityConfig → Singularity W → Result (Singularity W)
  write_config a s = do
    require (leb a.borrow_opening_fee fee_precision) "NotValid"
    require (ltb a.maximum_target_utilization (10 ^ 18)) "NotValid"
    require
        (a.minimum_interest_per_second == 0
          || ltb a.minimum_interest_per_second s.maximum_interest_per_second)
        "NotValid"
    let minimum = or_old a.minimum_interest_per_second s.minimum_interest_per_second
    require (a.maximum_interest_per_second == 0 || ltb minimum a.maximum_interest_per_second)
        "NotValid"
    require (leb a.liquidation_multiplier fee_precision) "NotValid"
    ok (record s {
      market = record s.market {
        liquidation_multiplier = or_old a.liquidation_multiplier s.market.liquidation_multiplier;
      };
      borrow_opening_fee = a.borrow_opening_fee;
      minimum_target_utilization = or_old a.minimum_target_utilization s.minimum_target_utilization;
      maximum_target_utilization = or_old a.maximum_target_utilization s.maximum_target_utilization;
      minimum_interest_per_second = minimum;
      maximum_interest_per_second =
          or_old a.maximum_interest_per_second s.maximum_interest_per_second;
      interest_elasticity = or_old a.interest_elasticity s.interest_elasticity;
      min_lend_amount = or_old a.min_lend_amount s.min_lend_amount;
    })

  unfoldable pub set_singularity_config : SingularityConfig → Singularity W → Result (Singularity W)
  set_singularity_config a s = do
    only_owner s
    t ← accrue o c (record s {
      interest_helper =
          if a.interest_helper === zero_address then s.interest_helper else a.interest_helper;
    })
    write_config a t
