-- ===== src/Penrose/Minting.antt =====
-- What Penrose mints against the open interest of its markets.
use tapioca_bar.Prelude.{
  ℕ, String, Bool, true, false, List, [], ◌∷◌, ok, ◌===◌, ◌≡◌, refl, arith, add, contains, distinct,
  Bool-cases, Result-cases, inl, inr,
}
use package.text.Mathlib.TextPositions.{eq_refl}
use tapioca_bar.Penrose.{Penrose, update}
use tapioca_bar.Penrose.Debt.{
  DebtMarket, IsDebtMarket, RewardToken, view_debts, consume_debts, view_total_debt, pay_out,
  mint_open_interest_debt,
}

module _ {M : Type 0} (d : DebtMarket M) (laws : IsDebtMarket d)
    (is_registered : String → Bool) where
  -- What a market becomes does not matter to the view of others.
  view_debts-update :
      (sum : ℕ) (ms : List String) (markets : String → M) (m : String) (next : M)
      → contains m ms ≡ false
      → view_debts d is_registered sum ms (update markets m next)
        ≡ view_debts d is_registered sum ms markets
  unfolding view_debts
  view_debts-update sum [] markets m next other = refl
  view_debts-update sum (x ∷ ms) markets m next other =
      elim (Result-cases (add sum (d.open_interest_debt (markets x)))) [
        | inl (more, added) ↦ ground (
          arith,
          view_debts-update sum ms markets m next (ground arith),
          view_debts-update more ms markets m next (ground arith),
        )
        | inr (reason, failed) ↦
            ground (arith, view_debts-update sum ms markets m next (ground arith))
      ]

  -- What one turn of the loop leaves of a market.
  update-zero :
      (markets : String → M) (x m : String) (consumed : ℕ × M)
      → d.consume (markets x) ≡ ok consumed
      → d.open_interest_debt (markets m) ≡ 0
      → d.open_interest_debt (update markets x consumed.1 m) ≡ 0
  update-zero markets x m consumed e none_left = elim (Bool-cases (m === x)) [
    | inl same ↦ grind (arith, (laws.consumed (markets x) consumed e).1, same)
    | inr other ↦ grind (arith, none_left, other)
  ]

  -- A debt that is consumed stays so.
  consume_debts-zero :
      (sum : ℕ) (ms : List String) (markets : String → M) (m : String) (r : ℕ × (String → M))
      → d.open_interest_debt (markets m) ≡ 0
      → consume_debts d is_registered sum ms markets ≡ ok r
      → d.open_interest_debt (r.1 m) ≡ 0
  unfolding consume_debts
  consume_debts-zero sum [] markets m r none_left e = ground arith
  consume_debts-zero sum (x ∷ ms) markets m r none_left e = elim (Bool-cases (is_registered x)) [
    | inl listed ↦ elim (Result-cases (d.consume (markets x))) [
      | inl (consumed, taken) ↦ elim (Result-cases (add sum consumed.0)) [
        | inl (more, added) ↦
            consume_debts-zero more ms (update markets x consumed.1) m r
              (update-zero markets x m consumed taken none_left) (ground arith)
        | inr (reason, failed) ↦ absurd (ground arith)
      ]
      | inr (reason, failed) ↦ absurd (ground arith)
    ]
    | inr missing ↦ consume_debts-zero sum ms markets m r none_left (ground arith)
  ]

  -- Every market of the list that is registered has no debt.
  AllClear : List String → (String → M) → Type 0
  AllClear [] markets = Unit {0}
  AllClear (m ∷ ms) markets =
      (is_registered m ≡ true → d.open_interest_debt (markets m) ≡ 0) × AllClear ms markets

  consume_debts-AllClear :
      (sum : ℕ) (ms : List String) (markets : String → M) (r : ℕ × (String → M))
      → consume_debts d is_registered sum ms markets ≡ ok r
      → AllClear ms r.1
  unfolding consume_debts AllClear
  consume_debts-AllClear sum [] markets r e = tt
  consume_debts-AllClear sum (x ∷ ms) markets r e = elim (Bool-cases (is_registered x)) [
    | inl listed ↦ elim (Result-cases (d.consume (markets x))) [
      | inl (consumed, taken) ↦ elim (Result-cases (add sum consumed.0)) [
        | inl (more, added) ↦ (
          λ registered.
              consume_debts-zero more ms (update markets x consumed.1) x r
                (ground (arith, eq_refl x, (laws.consumed (markets x) consumed taken).1))
                (ground arith),
          consume_debts-AllClear more ms (update markets x consumed.1) r (ground arith),
        )
        | inr (reason, failed) ↦ absurd (ground arith)
      ]
      | inr (reason, failed) ↦ absurd (ground arith)
    ]
    | inr missing ↦ (
      λ registered. absurd (ground arith),
      consume_debts-AllClear sum ms markets r (ground arith),
    )
  ]

  AllClear-view :
      (ms : List String) (markets : String → M)
      → AllClear ms markets
      → view_debts d is_registered 0 ms markets ≡ ok 0
  unfolding AllClear view_debts
  AllClear-view [] markets clear = refl
  AllClear-view (m ∷ ms) markets clear = elim (Bool-cases (is_registered m)) [
    | inl listed ↦ ground (arith, clear.0 listed, AllClear-view ms markets clear.1)
    | inr missing ↦ ground (arith, AllClear-view ms markets clear.1)
  ]

  -- What the loop adds up is what the view shows, where no market is listed twice.
  consume_debts-viewed :
      (sum : ℕ) (ms : List String) (markets : String → M) (r : ℕ × (String → M))
      → distinct ms ≡ true
      → consume_debts d is_registered sum ms markets ≡ ok r
      → view_debts d is_registered sum ms markets ≡ ok r.0
  unfolding consume_debts view_debts
  consume_debts-viewed sum [] markets r once e = ground arith
  consume_debts-viewed sum (x ∷ ms) markets r once e = elim (Bool-cases (is_registered x)) [
    | inl listed ↦ elim (Result-cases (d.consume (markets x))) [
      | inl (consumed, taken) ↦ elim (Result-cases (add sum consumed.0)) [
        | inl (more, added) ↦ ground (
          arith,
          (laws.consumed (markets x) consumed taken).0,
          view_debts-update more ms markets x consumed.1 (ground arith),
          consume_debts-viewed more ms (update markets x consumed.1) r (ground arith)
              (ground arith),
        )
        | inr (reason, failed) ↦ absurd (ground arith)
      ]
      | inr (reason, failed) ↦ absurd (ground arith)
    ]
    | inr missing ↦
        ground (arith, consume_debts-viewed sum ms markets r (ground arith) (ground arith))
  ]

module _ {M : Type 0} (d : DebtMarket M) (laws : IsDebtMarket d) {W : Type 0}
    (reward : RewardToken W) where
  -- Where every market yields its debt and keeps none, as a BigBang market does, and no market is
  -- listed twice: a mint of the open interest that does not revert was the owner's, and pays out
  -- exactly the total debt that Penrose showed before; afterwards Penrose shows none.
  pub mint_open_interest_debt_lem :
      (this sender tw_tap : String) (s : Penrose) (x y : (String → M) × W)
      → mint_open_interest_debt d reward this sender tw_tap s x ≡ ok y
      → distinct s.all_big_bang_markets ≡ true
      → (debt : ℕ) × (view_total_debt d s x.0 ≡ ok debt)
        × (pay_out d reward this tw_tap debt x.1 ≡ ok y.1)
        × (view_total_debt d s y.0 ≡ ok 0)
        × ((sender === s.owner) ≡ true)
  unfolding mint_open_interest_debt view_total_debt
  mint_open_interest_debt_lem this sender tw_tap s x y e once =
      elim (Result-cases (consume_debts d s.is_market_registered 0 s.all_big_bang_markets x.0)) [
        | inl (r, consumed) ↦ (
          r.0,
          consume_debts-viewed d laws s.is_market_registered 0 s.all_big_bang_markets x.0 r once
              consumed,
          ground arith,
          ground (
            arith,
            AllClear-view d laws s.is_market_registered s.all_big_bang_markets r.1 (
                consume_debts-AllClear d laws s.is_market_registered 0 s.all_big_bang_markets x.0 r
                  consumed),
          ),
          ground arith,
        )
        | inr (reason, failed) ↦ absurd (ground arith)
      ]
