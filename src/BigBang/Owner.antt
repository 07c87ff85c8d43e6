-- ===== src/BigBang/Owner.antt =====
-- contracts/markets/bigBang/BigBang.sol: what the owner and the holders of a role call.
use tapioca_bar.Prelude.{
  String, ℕ, Bool, true, false, Result, ok, ◌>>=◌, ◌>>◌, leb, ltb, if◌then◌else◌, ◌==◌, ◌===◌, not,
  ◌||◌,
}
use tapioca_bar.Penrose.{require, zero_address}
use tapioca_bar.Market.{PauseType, fee_precision, same_kind, same_flag}
use tapioca_bar.Market.Outside.{Outside, Call}
use tapioca_bar.Market.Configuration.{MarketConfig, set_market_config}
use tapioca_bar.BigBang.{BigBang, accrue}

-- What `updatePauseAll` leaves alone.
abbrev is_asset_option : PauseType → Bool
is_asset_option PauseType.add_asset = true
is_asset_option PauseType.remove_asset = true
is_asset_option kind = false

module _ {W : Type 0} (o : Outside W) (c : Call) where
  -- `onlyOwner`
  abbrev pub only_owner : BigBang W → Result (Unit {0})
  only_owner s = require (c.sender === s.market.owner) "Ownable: caller is not the owner"

  abbrev only_pauser : BigBang W → Result (Unit {0})
  only_pauser s = do
    is_pauser ← o.has_role s.outside c.sender "PAUSABLE"
    require (is_pauser || c.sender === s.market.owner) "Market: unauthorized"

  unfoldable pub configure : MarketConfig → BigBang W → Result (BigBang W)
  configure a s = do market ← set_market_config c a s.market; ok (record s { market = market })

  unfoldable pub update_pause : PauseType → Bool → BigBang W → Result (BigBang W)
  update_pause kind value s = do
    only_pauser s
    require (not (same_flag value (s.market.pause_options kind))) "Market: same state"
    ok (record s {
      market = record s.market {
        pause_options =
            (λ other. if same_kind kind other then value else s.market.pause_options other);
      };
    })

  unfoldable pub update_pause_all : Bool → BigBang W → Result (BigBang W)
  update_pause_all value s = do
    only_pauser s
    ok (record s {
      market = record s.market {
        pause_options =
            (λ other. if is_asset_option other then s.market.pause_options other else value);
      };
    })

  -- The debt, and the state once it is reset.
  unfoldable pub consume_mintable_open_interest_debt : BigBang W → Result (ℕ × BigBang W)
  consume_mintable_open_interest_debt s = do
    only_owner s
    ok (s.open_interest_debt, record s { open_interest_debt = 0 })

  unfoldable pub set_min_and_max_mint_range : ℕ → ℕ → BigBang W → Result (BigBang W)
  set_min_and_max_mint_range min max s = do
    only_owner s
    require (ltb max min) "NotValid"
    ok (record s { min_mint_fee_start = min; max_mint_fee_start = max })

  unfoldable pub set_min_and_max_mint_fee : ℕ → ℕ → BigBang W → Result (BigBang W)
  set_min_and_max_mint_fee min max s = do
    only_owner s
    require (ltb min max) "NotValid"
    ok (record s { min_mint_fee = min; max_mint_fee = max })

  unfoldable pub refresh_penrose_fees : BigBang W → Result (ℕ × BigBang W)
  refresh_penrose_fees s = do
    only_owner s
    fees ← o.asset_balance_of s.outside c.address_this
    fee_shares ← o.to_share s.outside s.market.asset_id fees false
    if ltb 0 fee_shares
        then (do
          deposited ←
              o.deposit_asset s.market.asset_id c.address_this c.sender 0 fee_shares s.outside
          ok (fee_shares, record s { outside = deposited.1 }))
        else ok (fee_shares, s)

  unfoldable pub set_debt_rate_helper : String → BigBang W → Result (BigBang W)
  set_debt_rate_helper helper s = do
    only_owner s
    require (not (helper === zero_address)) "NotValid"
    ok (record s { debt_rate_helper = helper })

  -- The debt rates of `setBigBangConfig`.
  unfoldable pub set_debt_rates : ℕ → ℕ → ℕ → BigBang W → Result (BigBang W)
  set_debt_rates min max against s0 = do
    s1 ←
        (if ltb 0 min
          then (do
            require (ltb min s0.max_debt_rate) "DebtRatesNotValid"
            ok (record s0 { min_debt_rate = min }))
          else ok s0)
    s2 ←
        (if ltb 0 max
          then (do
            require (ltb s1.min_debt_rate max) "DebtRatesNotValid"
            require (leb max 1000000000000000000) "DebtRatesNotValid"
            ok (record s1 { max_debt_rate = max }))
          else ok s1)
    ok (if ltb 0 against then record s2 { debt_rate_against_eth_market = against } else s2)

  unfoldable pub set_big_bang_config : ℕ → ℕ → ℕ → ℕ → BigBang W → Result (BigBang W)
  set_big_bang_config min max against multiplier s = do
    only_owner s
    main ← o.main_asset_id s.outside
    let s0 = record s { is_main_market = s.market.collateral_id == main }
    s1 ←
        (if ltb 0 multiplier
          then (do
            require (ltb multiplier fee_precision) "NotValid"
            ok (record s0 { market = record s0.market { liquidation_multiplier = multiplier } }))
          else ok s0)
    if s1.is_main_market then ok s1 else do s2 ← accrue o c s1; set_debt_rates min max against s2
