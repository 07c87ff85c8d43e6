-- ===== src/Origins.antt =====
-- contracts/markets/origins/Origins.sol: the market of the initial USDO, its constructor and what
-- its owner and the holders of a role call. It charges no interest and no fee, and nobody can be
-- liquidated in it. The addresses of the tokens, the YieldBox and Penrose are the outside's;
-- `rateValidDuration`, which the market only shows, is left out.
pub mod Operations
pub mod Steps
pub mod Reach
pub mod Loans
pub mod Examples
use tapioca_bar.Prelude.{
  ℕ, String, Bool, true, false, List, [], Result, ok, ◌>>=◌, ◌>>◌, leb, ltb, if◌then◌else◌, ◌===◌,
  not, ◌||◌, ◌*◌, ◌^◌,
}
use tapioca_bar.Penrose.{require, update, zero_address}
use tapioca_bar.Market.{Market, PauseType, fee_precision, same_kind, same_flag}
use tapioca_bar.Market.Outside.{Outside, Call}
use tapioca_bar.Market.Views.{update_exchange_rate}
use tapioca_bar.Market.Configuration.{MarketConfig, set_market_config}

pub record Origins (W : Type 0) : Type 0 where
  pub market : Market
  pub allowed_participants : String → Bool
  pub outside : W

-- The arguments of the constructor that the market stores or checks.
pub record OriginsData : Type 0 where
  pub owner : String
  pub asset : String
  pub asset_id : ℕ
  pub collateral : String
  pub collateral_id : ℕ
  pub oracle : String
  pub exchange_rate_precision : ℕ
  pub collateralization_rate : ℕ

-- The storage before the constructor's body, with the initial values that Market.sol declares.
abbrev pub unset : Market
unset = record {
  owner = zero_address;
  pause_options = λ kind. false;
  collateral_id = 0;
  asset_id = 0;
  oracle = zero_address;
  oracle_data = "";
  exchange_rate = 0;
  rate_timestamp = 0;
  total_borrow = record { elastic = 0; base = 0 };
  total_collateral_share = 0;
  total_borrow_cap = 0;
  user_borrow_part = [];
  user_collateral_share = [];
  allowance = λ from spender. 0;
  allowance_borrow = λ from spender. 0;
  protocol_fee = 0;
  min_liquidator_reward = 88000;
  max_liquidator_reward = 92500;
  liquidation_bonus_amount = 3000;
  collateralization_rate = 0;
  liquidation_collateralization_rate = 0;
  liquidation_multiplier = 12000;
  max_liquidation_slippage = 1000;
  min_borrow_amount = 0;
  min_collateral_amount = 0;
  exchange_rate_precision = 0;
}

-- What `updatePauseAll` leaves alone.
abbrev is_asset_option : PauseType → Bool
is_asset_option PauseType.add_asset = true
is_asset_option PauseType.remove_asset = true
is_asset_option kind = false

module _ {W : Type 0} (o : Outside W) (c : Call) where
  unfoldable pub construct : OriginsData → W → Result (Origins W)
  construct a w = do
    require (not (a.collateral === zero_address)) "BadPair"
    require (not (a.asset === zero_address)) "BadPair"
    require (not (a.oracle === zero_address)) "BadPair"
    require (leb a.collateralization_rate fee_precision) "NotValid"
    updated ←
        update_exchange_rate o c
          (record unset {
            asset_id = a.asset_id;
            collateral_id = a.collateral_id;
            oracle = a.oracle;
          })
          w
    ok (record {
      market = record updated.0 {
        exchange_rate_precision =
            (if ltb 0 a.exchange_rate_precision then a.exchange_rate_precision else 10 ^ 18);
        collateralization_rate = a.collateralization_rate;
        liquidation_collateralization_rate = 100000;
        min_borrow_amount = 10 ^ 15;
        owner = a.owner;
      };
      allowed_participants = update (λ user. false) a.owner true;
      outside = updated.1;
    })

  unfoldable pub configure : MarketConfig → Origins W → Result (Origins W)
  configure a s = do market ← set_market_config c a s.market; ok (record s { market = market })

  unfoldable pub update_allowed_participants : String → Bool → Origins W → Result (Origins W)
  update_allowed_participants participant value s = do
    require (c.sender === s.market.owner) "Ownable: caller is not the owner"
    ok (record s { allowed_participants = update s.allowed_participants participant value })

  abbrev only_pauser : Origins W → Result (Unit {0})
  only_pauser s = do
    is_pauser ← o.has_role s.outside c.sender "PAUSABLE"
    require (is_pauser || c.sender === s.market.owner) "Market: unauthorized"

  unfoldable pub update_pause : PauseType → Bool → Origins W → Result (Origins W)
  update_pause kind value s = do
    only_pauser s
    require (not (same_flag value (s.market.pause_options kind))) "Market: same state"
    ok (record s {
      market = record s.market {
        pause_options =
            (λ other. if same_kind kind other then value else s.market.pause_options other);
      };
    })

  unfoldable pub update_pause_all : Bool → Origins W → Result (Origins W)
  update_pause_all value s = do
    only_pauser s
    ok (record s {
      market = record s.market {
        pause_options =
            (λ other. if is_asset_option other then s.market.pause_options other else value);
      };
    })
