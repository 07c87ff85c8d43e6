-- ===== src/BigBang/Sample.antt =====
-- Concrete contracts outside a market, on which the theorems are tried: a YieldBox of one share per
-- unit, oracles at a price of 1, and rebase functions that round as documented.
use tapioca_bar.Prelude.{
  ℕ, zero, suc, String, Bool, true, false, [], Result, ok, ◌>>=◌, ◌≡◌, ◌≤◌, ◌<◌, ◌⊎◌, ◌+◌, ◌*◌, ◌/◌,
  ◌-◌, ◌^◌, arith, Zero-cases, inl, inr, if◌then◌else◌, ◌==◌, sub,
}
use native.Mathlib.Nat.{div-mul-le_self, lt-div-mul-add}
use tapioca_bar.Market.{Rebase}
use tapioca_bar.Market.Outside.{Outside, Call, IsRebaseLibrary}
use tapioca_bar.BigBang.{BigBang}

-- `a / b`, rounded up where it is asked for.
abbrev quotient : ℕ → ℕ → Bool → ℕ
quotient a b up = if up then (if a / b * b == a then a / b else suc (a / b)) else a / b

unfoldable pub quotient_of : Bool → ℕ → ℕ → ℕ → ℕ
quotient_of up n a b = if b == 0 then n else quotient (n * a) b up

rounded_up : (n a b : ℕ) → (a ≡ 0) ⊎ (0 < b) → n * a ≤ quotient_of true n a b * b
unfolding quotient_of
rounded_up n zero b positive = ground arith
rounded_up n (suc a) b positive =
    grind (arith, lt-div-mul-add {a = n * suc a} {b = b}, div-mul-le_self (n * suc a) b)

abbrev add_rebase : Rebase → ℕ → Bool → Result (Rebase × ℕ)
add_rebase r amount up =
    let part = quotient_of up amount r.base r.elastic in
    ok (record { elastic = r.elastic + amount; base = r.base + part }, part)

abbrev sub_rebase : Rebase → ℕ → Bool → Result (Rebase × ℕ)
sub_rebase r part up = do
  let amount = quotient_of up part r.elastic r.base
  elastic ← sub r.elastic amount
  base ← sub r.base part
  ok (record { elastic = elastic; base = base }, amount)

-- The state outside is the market's balance of USDO.
abbrev pub sample : Outside ℕ
sample = record {
  to_base = λ r amount up. ok (quotient_of up amount r.base r.elastic);
  to_elastic = λ r part up. ok (quotient_of up part r.elastic r.base);
  rebase_add = add_rebase;
  rebase_sub = sub_rebase;
  rebase_add_both =
      λ r elastic base. ok (record { elastic = r.elastic + elastic; base = r.base + base });
  to_share = λ w id amount up. ok amount;
  to_amount = λ w id share up. ok share;
  balance_of = λ w owner id. ok (10 ^ 30);
  transfer = λ from to id share w. ok w;
  deposit_asset = λ id from to amount share w. ok (amount, w);
  withdraw = λ id from to amount share w. ok (share, w);
  transfer_from_erc1155 = λ from to id share w. ok (false, w);
  pearlmit_allowance = λ w from spender kind id. ok 0;
  is_whitelisted = λ w account. ok true;
  has_role = λ w account role. ok true;
  oracle_get = λ oracle bytes w. ok ((true, 10 ^ 18), w);
  asset_oracle_get = λ bytes w. ok ((true, 99 * 10 ^ 16), w);
  main_asset_id = λ w. ok 1;
  big_bang_eth_market = λ w. ok "0xE7";
  big_bang_eth_debt_rate = λ w. ok (5 * 10 ^ 15);
  get_total_debt = λ w market. ok (10 ^ 24);
  accrue_market = λ market w. ok w;
  re_accrue_big_bang_markets = λ w. ok w;
  mint = λ to amount w. ok (w + amount);
  burn = λ from amount w. ok (w - amount);
  asset_balance_of = λ w owner. ok w;
  asset_transfer = λ to amount w. ok (w - amount);
  asset_transfer_from = λ from to amount w. ok (w + amount);
  asset_decimals = λ w. ok 18;
  on_collateral_receiver = λ receiver sender amount bytes w. ok (w + amount);
}

part_covers :
    (r : Rebase) (amount : ℕ) (x : Rebase × ℕ)
    → (r.base ≡ 0) ⊎ (0 < r.elastic)
    → add_rebase r amount true ≡ ok x
    → amount * r.base ≤ x.1 * r.elastic
part_covers r amount x positive e = ground (arith, rounded_up amount r.base r.elastic positive)

amount_covers :
    (r : Rebase) (part : ℕ) (x : Rebase × ℕ)
    → sub_rebase r part true ≡ ok x
    → part * r.elastic ≤ x.1 * r.base
amount_covers r part x e = elim (Zero-cases r.base) [
  | inl empty ↦ ground arith
  | inr positive ↦ ground (arith, rounded_up part r.elastic r.base (inr positive))
]

pub sample-IsRebaseLibrary : IsRebaseLibrary sample
sample-IsRebaseLibrary = record {
  added = λ r amount up x e. ground arith;
  subtracted = λ r part up x e. ground arith;
  added_both = λ r elastic base x e. ground arith;
  part_rounded_up = part_covers;
  amount_rounded_up = amount_covers;
}

-- A market that is a side market, where nothing was done yet.
abbrev pub fresh : BigBang ℕ
fresh = record {
  market = record {
    owner = "0xA1";
    pause_options = (λ kind. false);
    collateral_id = 2;
    asset_id = 3;
    oracle = "0x0C";
    oracle_data = "";
    exchange_rate = 10 ^ 18;
    rate_timestamp = 1;
    total_borrow = record { elastic = 0; base = 0 };
    total_collateral_share = 0;
    total_borrow_cap = 10 ^ 24;
    user_borrow_part = [];
    user_collateral_share = [];
    allowance = (λ from spender. 0);
    allowance_borrow = (λ from spender. 0);
    protocol_fee = 10000;
    min_liquidator_reward = 88000;
    max_liquidator_reward = 92500;
    liquidation_bonus_amount = 3000;
    collateralization_rate = 75000;
    liquidation_collateralization_rate = 80000;
    liquidation_multiplier = 12000;
    max_liquidation_slippage = 1000;
    min_borrow_amount = 10 ^ 15;
    min_collateral_amount = 10 ^ 15;
    exchange_rate_precision = 10 ^ 18;
  };
  accrue_info = record { debt_rate = 0; last_accrued = 1 };
  is_main_market = false;
  max_debt_rate = 5 * 10 ^ 16;
  min_debt_rate = 5 * 10 ^ 15;
  debt_rate_against_eth_market = 2 * 10 ^ 17;
  debt_rate_helper = "0x1D";
  asset_oracle_data = "";
  min_mint_fee = 0;
  max_mint_fee = 1000;
  max_mint_fee_start = 98 * 10 ^ 16;
  min_mint_fee_start = 10 ^ 18;
  open_interest_debt = 0;
  outside = 0;
}

abbrev pub by : String → ℕ → Call
by sender timestamp = record { sender = sender; address_this = "0xBB"; timestamp = timestamp }
