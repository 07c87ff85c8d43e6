-- ===== src/Market/Books.antt =====
-- The books of a market: the users' parts and shares, and their totals.
use tapioca_bar.Prelude.{ℕ, String, ok, ◌≡◌, ◌+◌, arith, total, total-put}
use tapioca_bar.Market.{Market}
use tapioca_bar.Market.Outside.{Outside, Call}
use tapioca_bar.Market.Views.{update_exchange_rate, try_update_exchange_rate}
use tapioca_bar.Market.Allowances.{allowed_borrow, allowed_lend}
use tapioca_bar.Market.Configuration.{MarketConfig, set_market_config}
use tapioca_bar.Market.Seizure.{Seizure, update_borrow_and_collateral_share, write_totals}

-- The users' borrow parts add up to the parts of the debt, and their collateral shares to the
-- collateral of the market.
abbrev pub AreBalanced : Market → Type 0
AreBalanced s =
    (total s.user_borrow_part ≡ s.total_borrow.base)
    × (total s.user_collateral_share ≡ s.total_collateral_share)

-- The parts, the shares and their totals are the same.
abbrev pub SameBooks : Market → Market → Type 0
SameBooks s t =
    (t.user_borrow_part ≡ s.user_borrow_part)
    × (t.total_borrow.base ≡ s.total_borrow.base)
    × (t.user_collateral_share ≡ s.user_collateral_share)
    × (t.total_collateral_share ≡ s.total_collateral_share)

-- What a step adds to the sum of the parts it adds to the total, and so for the shares.
abbrev pub IsInStep : Market → Market → Type 0
IsInStep s t =
    (total t.user_borrow_part + s.total_borrow.base
      ≡ total s.user_borrow_part + t.total_borrow.base)
    × (total t.user_collateral_share + s.total_collateral_share
        ≡ total s.user_collateral_share + t.total_collateral_share)

pub SameBooks-trans : (s t u : Market) → SameBooks s t → SameBooks t u → SameBooks s u
SameBooks-trans s t u a b = (
  ground (arith, a.0, b.0),
  ground (arith, a.1, b.1),
  ground (arith, a.2, b.2),
  ground (arith, a.3, b.3),
)

pub IsInStep-trans : (s t u : Market) → IsInStep s t → IsInStep t u → IsInStep s u
IsInStep-trans s t u a b = (omega (arith, a.0, b.0), omega (arith, a.1, b.1))

pub SameBooks-IsInStep : (s t u : Market) → SameBooks s t → IsInStep t u → IsInStep s u
SameBooks-IsInStep s t u same step =
    (grind (arith, same.0, same.1, step.0), grind (arith, same.2, same.3, step.1))

pub IsInStep-SameBooks : (s t u : Market) → IsInStep s t → SameBooks t u → IsInStep s u
IsInStep-SameBooks s t u step same =
    (grind (arith, step.0, same.0, same.1), grind (arith, step.1, same.2, same.3))

pub IsInStep-same : (s t u : Market) → IsInStep s t → u ≡ t → IsInStep s u
IsInStep-same s t u step same = (grind (arith, step.0), grind (arith, step.1))

pub IsInStep-AreBalanced : (s t : Market) → IsInStep s t → AreBalanced s → AreBalanced t
IsInStep-AreBalanced s t step v = (ground (arith, step.0, v.0), ground (arith, step.1, v.1))

pub SameBooks-AreBalanced : (s t : Market) → SameBooks s t → AreBalanced s → AreBalanced t
SameBooks-AreBalanced s t same v =
    (grind (arith, same.0, same.1, v.0), grind (arith, same.2, same.3, v.1))

module _ {W : Type 0} (o : Outside W) (c : Call) where
  pub update_books :
      (s : Market) (w : W) (r : Market × W) → update_exchange_rate o c s w ≡ ok r → SameBooks s r.0
  unfolding update_exchange_rate
  update_books s w r e = ground arith

  pub try_update_books :
      (s : Market) (w : W) (r : Market × W)
      → try_update_exchange_rate o c s w ≡ ok r
      → SameBooks s r.0
  unfolding try_update_exchange_rate
  try_update_books s w r e = ground arith

  pub allowed_lend_books :
      (from : String) (share : ℕ) (s t : Market) (w : W)
      → allowed_lend o c from share s w ≡ ok t
      → SameBooks s t
  unfolding allowed_lend
  allowed_lend_books from share s t w e = ground arith

  pub allowed_borrow_books :
      (from : String) (share : ℕ) (s t : Market) (w : W)
      → allowed_borrow o c from share s w ≡ ok t
      → SameBooks s t
  unfolding allowed_borrow
  allowed_borrow_books from share s t w e = ground arith

  -- What the update takes from the user.
  abbrev Taken : Market → Seizure × Market → Type 0
  Taken s r =
      (r.1.total_borrow ≡ s.total_borrow)
      × (r.1.total_collateral_share ≡ s.total_collateral_share)
      × (total r.1.user_borrow_part + r.0.borrow_part ≡ total s.user_borrow_part)
      × (total r.1.user_collateral_share + r.0.collateral_share ≡ total s.user_collateral_share)

  update-Taken :
      (user : String) (max bonus rate : ℕ) (s : Market) (w : W) (r : Seizure × Market)
      → update_borrow_and_collateral_share o c user max bonus rate s w ≡ ok r
      → Taken s r
  unfolding update_borrow_and_collateral_share
  update-Taken user max bonus rate s w r e =
      (ground arith, ground arith, grind (arith, total-put), grind (arith, total-put))

  write_totals-AreBalanced :
      (s t : Market) (r : Seizure × Market)
      → Taken s r
      → write_totals r.0 r.1 ≡ ok t
      → AreBalanced s
      → AreBalanced t
  unfolding write_totals
  write_totals-AreBalanced s t r taken e v =
      (grind (arith, taken.0, taken.2, v.0), grind (arith, taken.1, taken.3, v.1))

  -- What a liquidation takes from a user it takes from the totals.
  pub seize-AreBalanced :
      (user : String) (max bonus rate : ℕ) (s t : Market) (w : W) (r : Seizure × Market)
      → update_borrow_and_collateral_share o c user max bonus rate s w ≡ ok r
      → write_totals r.0 r.1 ≡ ok t
      → AreBalanced s
      → AreBalanced t
  seize-AreBalanced user max bonus rate s t w r taken written v =
      write_totals-AreBalanced s t r (update-Taken user max bonus rate s w r taken) written v

pub set_market_config_books :
    (c : Call) (a : MarketConfig) (s t : Market) → set_market_config c a s ≡ ok t → SameBooks s t
unfolding set_market_config
set_market_config_books c a s t e = (ground arith, ground arith, ground arith, ground arith)
