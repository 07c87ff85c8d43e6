-- ===== src/Origins/Reach.antt =====
-- The states that calls of an Origins market reach from its construction, in any order and from any
-- senders, while the rest of the chain goes on.
use tapioca_bar.Prelude.{ℕ, String, Bool, ok, ◌≡◌, ◌+◌, arith, total}
use tapioca_bar.Market.{PauseType}
use tapioca_bar.Market.Outside.{Outside, Call, IsRebaseLibrary}
use tapioca_bar.Market.Views.{update_exchange_rate}
use tapioca_bar.Market.Configuration.{MarketConfig}
use tapioca_bar.Market.Books.{AreBalanced}
use tapioca_bar.Origins.{
  Origins, OriginsData, construct, configure, update_allowed_participants, update_pause,
  update_pause_all,
}
use tapioca_bar.Origins.Operations.{add_collateral, remove_collateral, borrow, repay}
use tapioca_bar.Origins.Steps.{
  IsIssuance, Keeps, add_collateral-Keeps, remove_collateral-Keeps, borrow-Keeps, repay-Keeps,
  configure-Keeps, update_pause-Keeps, update_pause_all-Keeps, update_allowed_participants-Keeps,
}

-- A call that does not revert, or what happens elsewhere and issues no USDO for the market.
pub data Step {W : Type 0} (o : Outside W) (issued : W → ℕ) (s t : Origins W) : Type 0 where
  deposit :
      (c : Call) (amount share : ℕ) → add_collateral o c amount share s ≡ ok t → Step o issued s t
  removal : (c : Call) (share : ℕ) → remove_collateral o c share s ≡ ok t → Step o issued s t
  loan : (c : Call) (amount : ℕ) (r : ℕ × ℕ) → borrow o c amount s ≡ ok (r, t) → Step o issued s t
  repayment : (c : Call) (part amount : ℕ) → repay o c part s ≡ ok (amount, t) → Step o issued s t
  configuration : (c : Call) (a : MarketConfig) → configure o c a s ≡ ok t → Step o issued s t
  participant :
      (c : Call) (user : String) (b : Bool)
      → update_allowed_participants o c user b s ≡ ok t
      → Step o issued s t
  pause : (c : Call) (k : PauseType) (b : Bool) → update_pause o c k b s ≡ ok t → Step o issued s t
  pause_all : (c : Call) (b : Bool) → update_pause_all o c b s ≡ ok t → Step o issued s t
  elsewhere :
      (w : W) → issued w ≡ issued s.outside → t ≡ record s { outside = w } → Step o issued s t

pub data Reaches {W : Type 0} (o : Outside W) (issued : W → ℕ) (s : Origins W)
    : Origins W → Type 0 where
  here : Reaches o issued s s
  after : {t u : Origins W} → Reaches o issued s t → Step o issued t u → Reaches o issued s u

-- The books balance, and all that the market has issued since `start` is owed to it.
abbrev pub IsOwed : {W : Type 0} → (W → ℕ) → ℕ → Origins W → Type 0
IsOwed issued start s =
    AreBalanced s.market × (issued s.outside ≡ start + s.market.total_borrow.elastic)

module _ {W : Type 0} (o : Outside W) (issued : W → ℕ) where
  Keeps-IsOwed :
      (start : ℕ) (s t : Origins W)
      → Keeps o issued s t
      → IsOwed issued start s
      → IsOwed issued start t
  Keeps-IsOwed start s t k v =
      ((omega (arith, k.0.0, v.0.0), omega (arith, k.0.1, v.0.1)), omega (arith, k.1, v.1))

  Step-Keeps :
      (s t : Origins W)
      → IsRebaseLibrary o
      → IsIssuance o issued
      → Step o issued s t
      → Keeps o issued s t
  Step-Keeps s t laws counts (deposit c amount share e) =
      add_collateral-Keeps o issued laws counts c amount share s t e
  Step-Keeps s t laws counts (removal c share e) =
      remove_collateral-Keeps o issued laws counts c share s t e
  Step-Keeps s t laws counts (loan c amount r e) =
      borrow-Keeps o issued laws counts c amount s (r, t) e
  Step-Keeps s t laws counts (repayment c part amount e) =
      repay-Keeps o issued laws counts c part s (amount, t) e
  Step-Keeps s t laws counts (configuration c a e) = configure-Keeps o issued laws counts c a s t e
  Step-Keeps s t laws counts (participant c user b e) =
      update_allowed_participants-Keeps o issued laws counts c user b s t e
  Step-Keeps s t laws counts (pause c k b e) = update_pause-Keeps o issued laws counts c k b s t e
  Step-Keeps s t laws counts (pause_all c b e) =
      update_pause_all-Keeps o issued laws counts c b s t e
  Step-Keeps s t laws counts (elsewhere w same e) =
      ((ground arith, ground arith), ground (arith, same, e))

  construct-IsOwed :
      (c : Call) (a : OriginsData) (w : W) (s : Origins W)
      → IsIssuance o issued
      → construct o c a w ≡ ok s
      → IsOwed issued (issued w) s
  unfolding construct update_exchange_rate total
  construct-IsOwed c a w s counts e = ((ground arith, ground arith), grind (arith, counts.asked))

-- Where the rebase library adds and subtracts as documented, and USDO counts what the market mints
-- and burns: in every state that calls of the market reach from its construction, in any order and
-- from any senders, while nothing elsewhere issues USDO for the market, the borrow parts of the users
-- add up to the parts of the debt, their collateral shares to the total collateral, and the USDO that
-- the market has issued since its construction is exactly the debt that is owed to it.
pub Reaches-IsOwed :
    {W : Type 0} (o : Outside W) (issued : W → ℕ) (c : Call) (a : OriginsData) (w : W)
    {s t : Origins W}
    → IsRebaseLibrary o
    → IsIssuance o issued
    → construct o c a w ≡ ok s
    → Reaches o issued s t
    → IsOwed issued (issued w) t
Reaches-IsOwed o issued c a w {s = s} laws counts made here =
    construct-IsOwed o issued c a w s counts made
Reaches-IsOwed o issued c a w laws counts made (after {t = t} {u = u} r step) =
    Keeps-IsOwed o issued (issued w) t u (Step-Keeps o issued t u laws counts step)
      (Reaches-IsOwed o issued c a w laws counts made r)
