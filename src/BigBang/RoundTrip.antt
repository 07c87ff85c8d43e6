-- ===== src/BigBang/RoundTrip.antt =====
-- What is borrowed and repaid, or added and taken back, leaves the user's account as it was.
use tapioca_bar.Prelude.{
  ℕ, String, Bool, false, ok, ◌≡◌, ◌≤◌, ◌<◌, ◌+◌, ◌*◌, ◌⊎◌, arith, get, get-put,
}
use tapioca_bar.Market.Outside.{Outside, Call, IsRebaseLibrary}
use tapioca_bar.Market.Covering.{repaid-covers}
use tapioca_bar.BigBang.{BigBang}
use tapioca_bar.BigBang.Frame.{collect_market, add_tokens_market}
use tapioca_bar.BigBang.Lending.{lend, settle, put_collateral, take_collateral}

module _ {W : Type 0} (o : Outside W) (c : Call) (laws : IsRebaseLibrary o) where
  -- What a loan writes.
  abbrev Lent : ℕ → String → BigBang W → (ℕ × ℕ) × BigBang W → Type 0
  Lent owed from s r =
      (get r.1.market.user_borrow_part from ≡ get s.market.user_borrow_part from + r.0.0)
      × (r.1.market.total_borrow.elastic ≡ s.market.total_borrow.elastic + owed)
      × (r.1.market.total_borrow.base ≡ s.market.total_borrow.base + r.0.0)
      × (owed * s.market.total_borrow.base ≤ r.0.0 * s.market.total_borrow.elastic)

  lend-Lent :
      (from to : String) (amount fee : ℕ) (s : BigBang W) (r : (ℕ × ℕ) × BigBang W)
      → (s.market.total_borrow.base ≡ 0) ⊎ (0 < s.market.total_borrow.elastic)
      → lend o c from to amount fee s ≡ ok r
      → Lent (amount + fee) from s r
  unfolding lend
  lend-Lent from to amount fee s r debt e = (
    grind (arith, get-put),
    grind (arith, laws.added),
    grind (arith, laws.added),
    grind (arith, laws.part_rounded_up s.market.total_borrow (amount + fee), debt),
  )

  -- What a repayment of at most the user's part writes.
  abbrev Settled : ℕ → String → BigBang W → ℕ × BigBang W → Type 0
  Settled part to s r =
      (get r.1.market.user_borrow_part to + part ≡ get s.market.user_borrow_part to)
      × (r.1.market.total_borrow.elastic + r.0 ≡ s.market.total_borrow.elastic)
      × (r.1.market.total_borrow.base + part ≡ s.market.total_borrow.base)
      × (part * s.market.total_borrow.elastic ≤ r.0 * s.market.total_borrow.base)
      × (0 < part)

  settle-Settled :
      (from to : String) (part : ℕ) (s : BigBang W) (r : ℕ × BigBang W)
      → part ≤ get s.market.user_borrow_part to
      → settle o c from to part false s ≡ ok r
      → Settled part to s r
  unfolding settle
  settle-Settled from to part s r enough e = (
    grind (arith, get-put, collect_market),
    grind (arith, laws.subtracted, collect_market),
    grind (arith, laws.subtracted, collect_market),
    grind (arith, laws.amount_rounded_up, collect_market),
    ground arith,
  )

  -- In a market whose debt is not 0 while there are parts of it, a loan that is settled at once by
  -- the part that it gave, without an allowance, gives back at least the amount and the fee. The
  -- user's part and the parts of the market are then as they were before the loan, and the total
  -- debt is no greater.
  pub lend-settle :
      (from to payer : String) (amount fee : ℕ) (s : BigBang W) (r : (ℕ × ℕ) × BigBang W)
      (q : ℕ × BigBang W)
      → (s.market.total_borrow.base ≡ 0) ⊎ (0 < s.market.total_borrow.elastic)
      → lend o c from to amount fee s ≡ ok r
      → settle o c payer from r.0.0 false r.1 ≡ ok q
      → (amount + fee ≤ q.0)
        × (get q.1.market.user_borrow_part from ≡ get s.market.user_borrow_part from)
        × (q.1.market.total_borrow.base ≡ s.market.total_borrow.base)
        × (q.1.market.total_borrow.elastic ≤ s.market.total_borrow.elastic)
  lend-settle from to payer amount fee s r q debt e f =
      let lent = lend-Lent from to amount fee s r debt e in
      let settled = settle-Settled payer from r.0.0 r.1 q (omega (arith, lent.0)) f in
      let covers =
        repaid-covers (amount + fee) r.0.0 q.0 s.market.total_borrow.elastic
          s.market.total_borrow.base lent.3 (grind (arith, lent.1, lent.2, settled.3))
          (omega (arith, settled.4)) in
      (
        covers,
        omega (arith, lent.0, settled.0),
        omega (arith, lent.2, settled.2),
        omega (arith, lent.1, settled.1, covers),
      )

  put_share :
      (from to : String) (skim : Bool) (amount share : ℕ) (tokens : Bool) (s t : BigBang W)
      → put_collateral o c from to skim amount share tokens s ≡ ok t
      → 0 < share
      → (get t.market.user_collateral_share to ≡ get s.market.user_collateral_share to + share)
        × (t.market.total_collateral_share ≡ s.market.total_collateral_share + share)
  unfolding put_collateral
  put_share from to skim amount share tokens s t e positive =
      (grind (arith, get-put, add_tokens_market), grind (arith, add_tokens_market))

  take_share :
      (from to : String) (share : ℕ) (s t : BigBang W)
      → take_collateral o c from to share s ≡ ok t
      → (get t.market.user_collateral_share from + share ≡ get s.market.user_collateral_share from)
        × (t.market.total_collateral_share + share ≡ s.market.total_collateral_share)
  unfolding take_collateral
  take_share from to share s t e = (grind (arith, get-put), ground arith)

  -- Collateral that is added for a user by its share and taken back leaves the user's share and the
  -- total as they were.
  pub put_collateral-take_collateral :
      (from user to : String) (skim : Bool) (amount share : ℕ) (tokens : Bool) (s t u : BigBang W)
      → 0 < share
      → put_collateral o c from user skim amount share tokens s ≡ ok t
      → take_collateral o c user to share t ≡ ok u
      → (get u.market.user_collateral_share user ≡ get s.market.user_collateral_share user)
        × (u.market.total_collateral_share ≡ s.market.total_collateral_share)
  put_collateral-take_collateral from user to skim amount share tokens s t u positive e f =
      let added = put_share from user skim amount share tokens s t e positive in
      let taken = take_share user to share t u f in
      (omega (arith, added.0, taken.0), omega (arith, added.1, taken.1))
