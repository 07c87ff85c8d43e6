-- ===== src/Penrose.antt =====
-- The registry of contracts/Penrose.sol: master contracts, markets and the owner's settings. A
-- revert is a `rejected` result. Clones deployed by `deploy`, calls of markets, fees and pausing
-- are not modelled.
pub mod Multicall
pub mod MasterContracts
pub mod Registration
pub mod Registry
pub mod Authorised
pub mod Debt
pub mod Minting
pub mod DebtExamples
pub mod Examples
use tapioca_bar.Prelude.{
  ℕ, zero, suc, String, Bool, true, false, List, [], ◌∷◌, ◌++◌, ◌===◌, ◌==◌, not, if◌then◌else◌,
  Result, ok, err, rejected, ◌>>=◌, ◌>>◌,
}

-- `IPenrose.MasterContract`
pub record MasterContract : Type 0 where
  pub location : String
  pub risk : ℕ

pub record Penrose : Type 0 where
  pub owner : String
  pub usdo_token : String
  pub usdo_asset_id : ℕ
  pub main_token : String
  pub main_asset_id : ℕ
  pub tap_token : String
  pub tap_asset_id : ℕ
  pub singularity_master_contracts : List MasterContract
  pub bigbang_master_contracts : List MasterContract
  pub is_singularity_master_contract_registered : String → Bool
  pub is_big_bang_master_contract_registered : String → Bool
  pub is_market_registered : String → Bool
  pub big_bang_eth_market : String
  pub all_big_bang_markets : List String
  pub is_origin_registered : String → Bool
  pub all_origins_markets : List String
  pub master_contract_of : String → String
  pub clones_of : String → List String

-- A write to a mapping.
abbrev pub update {ℓ} : {A : Type ℓ} → (String → A) → String → A → String → A
update f key value k = if k === key then value else f k

abbrev pub zero_address : String
zero_address = "0x0000000000000000000000000000000000000000"

abbrev pub require : Bool → String → Result (Unit {0})
require true reason = ok tt
require false reason = err (rejected reason)

-- `onlyOwner`
abbrev pub only_owner : String → Penrose → Result (Unit {0})
only_owner sender s = require (sender === s.owner) "Ownable: caller is not the owner"

unfoldable pub register_singularity_master_contract : String → String → ℕ → Penrose → Result Penrose
register_singularity_master_contract sender mc risk s = do
  only_owner sender s
  require (not (s.is_singularity_master_contract_registered mc)) "Registered"
  ok (record s {
    singularity_master_contracts =
        s.singularity_master_contracts ++ record { location = mc; risk = risk } ∷ [];
    is_singularity_master_contract_registered =
        update s.is_singularity_master_contract_registered mc true;
  })

unfoldable pub register_big_bang_master_contract : String → String → ℕ → Penrose → Result Penrose
register_big_bang_master_contract sender mc risk s = do
  only_owner sender s
  require (not (s.is_big_bang_master_contract_registered mc)) "Registered"
  ok (record s {
    bigbang_master_contracts =
        s.bigbang_master_contracts ++ record { location = mc; risk = risk } ∷ [];
    is_big_bang_master_contract_registered =
        update s.is_big_bang_master_contract_registered mc true;
  })

unfoldable pub add_singularity : String → String → String → Penrose → Result Penrose
add_singularity sender mc market s = do
  only_owner sender s
  require (s.is_singularity_master_contract_registered mc) "NotRegistered"
  require (not (s.is_market_registered market)) "AlreadyAdded"
  ok (record s {
    is_market_registered = update s.is_market_registered market true;
    clones_of = update s.clones_of mc (s.clones_of mc ++ market ∷ []);
    master_contract_of = update s.master_contract_of market mc;
  })

unfoldable pub add_big_bang : String → String → String → Penrose → Result Penrose
add_big_bang sender mc market s = do
  only_owner sender s
  require (s.is_big_bang_master_contract_registered mc) "NotRegistered"
  require (not (s.is_market_registered market)) "AlreadyAdded"
  ok (record s {
    is_market_registered = update s.is_market_registered market true;
    clones_of = update s.clones_of mc (s.clones_of mc ++ market ∷ []);
    master_contract_of = update s.master_contract_of market mc;
    all_big_bang_markets = s.all_big_bang_markets ++ market ∷ [];
  })

unfoldable pub add_origins_market : String → String → Penrose → Result Penrose
add_origins_market sender market s = do
  only_owner sender s
  require (not (s.is_origin_registered market)) "AlreadyAdded"
  ok (record s {
    is_origin_registered = update s.is_origin_registered market true;
    all_origins_markets = s.all_origins_markets ++ market ∷ [];
  })

unfoldable pub set_usdo_token : String → String → ℕ → Penrose → Result Penrose
set_usdo_token sender token asset_id s = do
  only_owner sender s
  require (not (token === zero_address)) "ZeroAddress"
  require (not (asset_id == 0)) "NotValid"
  ok (record s { usdo_token = token; usdo_asset_id = asset_id })

unfoldable pub set_main_tokens : String → String → ℕ → String → ℕ → Penrose → Result Penrose
set_main_tokens sender main main_id tap tap_id s = do
  only_owner sender s
  ok (record s {
    main_token = (if main === zero_address then s.main_token else main);
    main_asset_id = (if main_id == 0 then s.main_asset_id else main_id);
    tap_token = (if tap === zero_address then s.tap_token else tap);
    tap_asset_id = (if tap_id == 0 then s.tap_asset_id else tap_id);
  })

-- `_findBigBangIndex`, which reverts where the address is not there.
unfoldable pub find_index : List String → String → Result ℕ
find_index [] address = err (rejected "AddressNotValid")
find_index (x ∷ xs) address =
    let rest = find_index xs address in if x === address then ok 0 else do i ← rest; ok (suc i)

last : String → List String → String
last x [] = x
last x (y ∷ ys) = last y ys

set_at : List String → ℕ → String → List String
set_at [] i x = []
set_at (y ∷ ys) zero x = x ∷ ys
set_at (y ∷ ys) (suc i) x = y ∷ set_at ys i x

pop : List String → List String
pop [] = []
pop (x ∷ []) = []
pop (x ∷ y ∷ ys) = x ∷ pop (y ∷ ys)

-- The last entry is written over the one at the index, and the list is shortened.
unfoldable pub remove : List String → String → Result (List String)
unfolding last set_at pop
remove xs address = do i ← find_index xs address; ok (pop (set_at xs i (last "" xs)))

unfoldable pub unregister_contract : String → String → ℕ → Penrose → Result Penrose
unregister_contract sender market market_type s = do
  only_owner sender s
  let mc = s.master_contract_of market
  let s1 = record s {
    is_market_registered = update s.is_market_registered market false;
    master_contract_of = update s.master_contract_of market zero_address;
  }
  s2 ←
      (if market_type == 1
        then (do
          all ← remove s1.all_big_bang_markets market
          ok (record s1 { all_big_bang_markets = all }))
        else if market_type == 2
        then (do
          all ← remove s1.all_origins_markets market
          ok (record s1 {
            all_origins_markets = all;
            is_origin_registered = update s1.is_origin_registered market false;
          }))
        else ok s1)
  if market_type == 2 then ok s2 else do
    clones ← remove (s2.clones_of mc) market
    ok (record s2 { clones_of = update s2.clones_of mc clones })
