-- ===== src/Origins/Loans.antt =====
-- The loans of an Origins market: what they leave behind, and their repayment.
use tapioca_bar.Prelude.{
  ℕ, String, true, Result-cases, Zero-cases, inl, inr, ok, ◌≡◌, ◌≤◌, ◌<◌, ◌+◌, ◌*◌, ◌⊎◌, arith, get,
  get-put,
}
use tapioca_bar.Market.Outside.{Outside, Call, IsRebaseLibrary}
use tapioca_bar.Market.Views.{update_exchange_rate}
use tapioca_bar.Market.Covering.{Covered, solvent-Covered, repaid-covers}
use tapioca_bar.Origins.{Origins}
use tapioca_bar.Origins.Operations.{
  lend, settle, refresh, require_solvent, remove_collateral, borrow, repay,
}

module _ {W : Type 0} (o : Outside W) (c : Call) where
  require_solvent-Covered :
      (s : Origins W)
      → require_solvent o c s ≡ ok tt
      → Covered o s.market s.outside c.sender s.market.exchange_rate
  unfolding require_solvent
  require_solvent-Covered s e =
      solvent-Covered o s.market s.outside c.sender s.market.exchange_rate (ground arith)

  cap_respected :
      (from to : String) (amount : ℕ) (s : Origins W) (r : (ℕ × ℕ) × Origins W)
      → lend o c from to amount s ≡ ok r
      → (r.1.market.total_borrow_cap ≡ 0)
        ⊎ (r.1.market.total_borrow.elastic ≤ r.1.market.total_borrow_cap)
  unfolding lend
  cap_respected from to amount s r e = elim (Zero-cases r.1.market.total_borrow_cap) [
    | inl empty ↦ inl empty
    | inr capped ↦ inr (ground arith)
  ]

  -- A loan that does not revert is a participant's, above the minimum. The borrower is then covered
  -- at the exchange rate that the loan stored, and the total debt is at most the market's cap, where
  -- there is one.
  pub borrow_allowed :
      (amount : ℕ) (s : Origins W) (r : (ℕ × ℕ) × Origins W)
      → borrow o c amount s ≡ ok r
      → (s.allowed_participants c.sender ≡ true)
        × (s.market.min_borrow_amount < amount)
        × Covered o r.1.market r.1.outside c.sender r.1.market.exchange_rate
        × ((r.1.market.total_borrow_cap ≡ 0)
            ⊎ (r.1.market.total_borrow.elastic ≤ r.1.market.total_borrow_cap))
  unfolding borrow refresh update_exchange_rate
  borrow_allowed amount s r e = elim (Result-cases (refresh o c s)) [
    | inl (t, done) ↦ (
      ground arith,
      ground arith,
      require_solvent-Covered r.1 (ground arith),
      cap_respected c.sender c.sender amount t r (ground arith),
    )
    | inr (reason, failed) ↦ absurd (ground arith)
  ]

  -- After a removal of collateral that does not revert the participant is covered at the exchange
  -- rate that the removal stored.
  remove_collateral-Covered :
      (share : ℕ) (s t : Origins W)
      → remove_collateral o c share s ≡ ok t
      → Covered o t.market t.outside c.sender t.market.exchange_rate
  unfolding remove_collateral
  remove_collateral-Covered share s t e = require_solvent-Covered t (ground arith)

module _ {W : Type 0} (o : Outside W) (laws : IsRebaseLibrary o) where
  -- What a loan writes.
  abbrev Lent : ℕ → String → Origins W → (ℕ × ℕ) × Origins W → Type 0
  Lent amount from s r =
      (get r.1.market.user_borrow_part from ≡ get s.market.user_borrow_part from + r.0.0)
      × (r.1.market.total_borrow.elastic ≡ s.market.total_borrow.elastic + amount)
      × (r.1.market.total_borrow.base ≡ s.market.total_borrow.base + r.0.0)
      × (amount * s.market.total_borrow.base ≤ r.0.0 * s.market.total_borrow.elastic)

  lend-Lent :
      (c : Call) (from to : String) (amount : ℕ) (s : Origins W) (r : (ℕ × ℕ) × Origins W)
      → (s.market.total_borrow.base ≡ 0) ⊎ (0 < s.market.total_borrow.elastic)
      → lend o c from to amount s ≡ ok r
      → Lent amount from s r
  unfolding lend
  lend-Lent c from to amount s r debt e = (
    grind (arith, get-put),
    grind (arith, laws.added),
    grind (arith, laws.added),
    grind (arith, laws.part_rounded_up s.market.total_borrow amount, debt),
  )

  -- What a repayment of at most the user's part writes.
  abbrev Settled : ℕ → String → Origins W → ℕ × Origins W → Type 0
  Settled part to s r =
      (get r.1.market.user_borrow_part to + part ≡ get s.market.user_borrow_part to)
      × (r.1.market.total_borrow.elastic + r.0 ≡ s.market.total_borrow.elastic)
      × (r.1.market.total_borrow.base + part ≡ s.market.total_borrow.base)
      × (part * s.market.total_borrow.elastic ≤ r.0 * s.market.total_borrow.base)
      × (0 < part)

  settle-Settled :
      (c : Call) (from to : String) (part : ℕ) (s : Origins W) (r : ℕ × Origins W)
      → part ≤ get s.market.user_borrow_part to
      → settle o c from to part s ≡ ok r
      → Settled part to s r
  unfolding settle
  settle-Settled c from to part s r enough e = (
    grind (arith, get-put),
    grind (arith, laws.subtracted),
    grind (arith, laws.subtracted),
    grind (arith, laws.amount_rounded_up),
    ground arith,
  )

  -- The debt and the parts are the same.
  abbrev SameDebt : Origins W → Origins W → Type 0
  SameDebt s t =
      (t.market.total_borrow ≡ s.market.total_borrow)
      × (t.market.user_borrow_part ≡ s.market.user_borrow_part)

  refresh-SameDebt : (c : Call) (s t : Origins W) → refresh o c s ≡ ok t → SameDebt s t
  unfolding refresh update_exchange_rate
  refresh-SameDebt c s t e = (ground arith, ground arith)

  borrow-Lent :
      (c : Call) (amount : ℕ) (s : Origins W) (r : (ℕ × ℕ) × Origins W)
      → (s.market.total_borrow.base ≡ 0) ⊎ (0 < s.market.total_borrow.elastic)
      → borrow o c amount s ≡ ok r
      → Lent amount c.sender s r
  unfolding borrow
  borrow-Lent c amount s r debt e = elim (Result-cases (refresh o c s)) [
    | inl (t, done) ↦
        let same = refresh-SameDebt c s t done in
        let lent =
          lend-Lent c c.sender c.sender amount t r (grind (arith, same.0, debt)) (ground arith) in
        (
          grind (arith, lent.0, same.1),
          grind (arith, lent.1, same.0),
          grind (arith, lent.2, same.0),
          grind (arith, lent.3, same.0),
        )
    | inr (reason, failed) ↦ absurd (ground arith)
  ]

  repay-Settled :
      (c : Call) (part : ℕ) (s : Origins W) (r : ℕ × Origins W)
      → part ≤ get s.market.user_borrow_part c.sender
      → repay o c part s ≡ ok r
      → Settled part c.sender s r
  unfolding repay
  repay-Settled c part s r enough e = elim (Result-cases (refresh o c s)) [
    | inl (t, done) ↦
        let same = refresh-SameDebt c s t done in
        let settled =
          settle-Settled c c.sender c.sender part t r (grind (arith, same.1, enough))
            (ground arith) in
        (
          grind (arith, settled.0, same.1),
          grind (arith, settled.1, same.0),
          grind (arith, settled.2, same.0),
          grind (arith, settled.3, same.0),
          settled.4,
        )
    | inr (reason, failed) ↦ absurd (ground arith)
  ]

  -- In a market whose debt is not 0 while there are parts of it, a participant who borrows and then
  -- repays the part of the loan pays back at least the amount; the participant's part and the parts
  -- of the market are then as they were before the loan, and the total debt is no greater.
  pub borrow-repay :
      (c d : Call) (amount : ℕ) (s : Origins W) (r : (ℕ × ℕ) × Origins W) (q : ℕ × Origins W)
      → (s.market.total_borrow.base ≡ 0) ⊎ (0 < s.market.total_borrow.elastic)
      → d.sender ≡ c.sender
      → borrow o c amount s ≡ ok r
      → repay o d r.0.0 r.1 ≡ ok q
      → (amount ≤ q.0)
        × (get q.1.market.user_borrow_part c.sender ≡ get s.market.user_borrow_part c.sender)
        × (q.1.market.total_borrow.base ≡ s.market.total_borrow.base)
        × (q.1.market.total_borrow.elastic ≤ s.market.total_borrow.elastic)
  borrow-repay c d amount s r q debt same e f =
      let lent = borrow-Lent c amount s r debt e in
      let settled = repay-Settled d r.0.0 r.1 q (grind (arith, lent.0, same)) f in
      let covers =
        repaid-covers amount r.0.0 q.0 s.market.total_borrow.elastic s.market.total_borrow.base
          lent.3 (grind (arith, lent.1, lent.2, settled.3)) (omega (arith, settled.4)) in
      (
        covers,
        grind (arith, lent.0, settled.0, same),
        omega (arith, lent.2, settled.2),
        omega (arith, lent.1, settled.1, covers),
      )
