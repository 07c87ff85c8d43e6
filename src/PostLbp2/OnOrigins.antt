-- ===== src/PostLbp2/OnOrigins.antt =====
-- The calls of the mint of phase 2, executed on the model of contracts/markets/origins/Origins.sol.
use tapioca_bar.Prelude.{
  ℕ, ◌+◌, ◌<◌, String, true, false, List, [], ◌∷◌, arith, ◌≡◌, ok, pos, get, bind-ok, sym, refl,
}
use tapioca_bar.Sdk.{Hre, World, Call as Sent, text, num, flag, call_value}
use tapioca_bar.Market.{Market}
use tapioca_bar.Market.Outside.{Outside, Call, IsRebaseLibrary}
use tapioca_bar.Market.Messages.{Approvals, Addresses}
use tapioca_bar.Origins.{Origins}
use tapioca_bar.Origins.Loans.{borrow_allowed}
use tapioca_bar.Market.Covering.{Covered}
use tapioca_bar.PostLbp2.Borrows.{add_collateral-Added, borrow-Borrowed}
use tapioca_bar.PostLbp2.Execution.{
  execute_on_origins, run_mint, borrow-step, add-step, deposit-step, withdraw-step, approve-step,
  approval-step,
}
use tapioca_bar.PostLbp2.Contracts.{Contracts, load_contracts}
use tapioca_bar.PostLbp2.MintUsdo.{mint_origin_usdo}

-- What a mint leaves: the YieldBox was given the collateral, Origins holds its shares for the
-- account, the debt is greater by the loan, which was a participant's and above the minimum, and
-- left it covered; the whole loan was withdrawn, and last the approval of Origins taken back.
pub record Minted {W : Type 0} (o : Outside W) (approvals : Approvals W) (p : Addresses)
    (collateral amount : ℕ) (s t : Origins W) : Type 0 where
  pub allowed : W
  pub approves : approvals.approve p.token p.account p.yield_box collateral s.outside ≡ ok allowed
  pub deposited : ℕ × W
  pub deposits :
      o.deposit_asset s.market.collateral_id p.account p.account collateral 0 allowed ≡ ok deposited
  pub approved : W
  pub approves_market :
      approvals.set_approval_for_asset p.account p.market s.market.collateral_id true deposited.1
      ≡ ok approved
  pub share : ℕ
  pub shares : o.to_share approved s.market.collateral_id collateral false ≡ ok share
  pub user_share :
      get t.market.user_collateral_share p.account
      ≡ get s.market.user_collateral_share p.account + share
  pub total_share : t.market.total_collateral_share ≡ s.market.total_collateral_share + share
  pub debt : t.market.total_borrow.elastic ≡ s.market.total_borrow.elastic + amount
  pub above_minimum : s.market.min_borrow_amount < amount
  pub lent : W
  pub covered : Covered o t.market lent p.account t.market.exchange_rate
  pub withdrawn : ℕ × W
  pub withdraws : o.withdraw s.market.asset_id p.account p.account amount 0 lent ≡ ok withdrawn
  pub takes_back :
      approvals.set_approval_for_asset p.account p.market s.market.collateral_id false withdrawn.1
      ≡ ok t.outside

abbrev pub parties_of : Contracts → String → Addresses
parties_of x multicall = record {
  token = x.t_eth;
  yield_box = x.yield_box;
  pearlmit = "";
  market = x.origins;
  account = multicall;
}

abbrev pub from_multicall : Contracts → String → ℕ → Call
from_multicall x multicall now = record {
  sender = multicall;
  address_this = x.origins;
  timestamp = now;
}

-- The calls of a mint.
abbrev minting : Addresses → ℕ → ℕ → ℕ → ℕ → List Sent
minting p id asset_id collateral amount =
    call_value p.token "approve" (text p.yield_box ∷ num collateral ∷ []) 0
    ∷ call_value p.yield_box "depositAsset"
        (num id ∷ text p.account ∷ text p.account ∷ num collateral ∷ num 0 ∷ []) 0
    ∷ call_value p.yield_box "setApprovalForAsset" (text p.market ∷ num id ∷ flag true ∷ []) 0
    ∷ call_value p.market "addCollateral" (num collateral ∷ num 0 ∷ []) 0
    ∷ call_value p.market "borrow" (num amount ∷ []) 0
    ∷ call_value p.yield_box "withdraw"
        (num asset_id ∷ text p.account ∷ text p.account ∷ num amount ∷ num 0 ∷ []) 0
    ∷ call_value p.yield_box "setApprovalForAsset" (text p.market ∷ num id ∷ flag false ∷ []) 0
    ∷ []

Covered-same :
    {W : Type 0} (o : Outside W) (m n : Market) (w : W) (user account : String)
    → n ≡ m
    → user ≡ account
    → Covered o m w user m.exchange_rate
    → Covered o n w account n.exchange_rate
Covered-same o m n w user account same who covered = rw (same, sym who) covered

module _ {W : Type 0} (o : Outside W) (approvals : Approvals W) (p : Addresses) (c : Call) where
  run_minting :
      (laws : IsRebaseLibrary o) (collateral amount : ℕ) (s t : Origins W)
      → c.sender ≡ p.account
      → run_mint o approvals p c
          (minting p s.market.collateral_id s.market.asset_id collateral amount)
          s
        ≡ ok t
      → Minted o approvals p collateral amount s t
  unfolding run_mint
  run_minting laws collateral amount s t sender e =
      let id = s.market.collateral_id in
      let (s1, r1, e1) =
        bind-ok
          (execute_on_origins o approvals p c p.token "approve"
            (text p.yield_box ∷ num collateral ∷ []) s)
          _ t e in
      let (s2, r2, e2) =
        bind-ok
          (execute_on_origins o approvals p c p.yield_box "depositAsset"
            (num id ∷ text p.account ∷ text p.account ∷ num collateral ∷ num 0 ∷ []) s1)
          _ t e1 in
      let (s3, r3, e3) =
        bind-ok
          (execute_on_origins o approvals p c p.yield_box "setApprovalForAsset"
            (text p.market ∷ num id ∷ flag true ∷ []) s2)
          _ t e2 in
      let (s4, r4, e4) =
        bind-ok
          (execute_on_origins o approvals p c p.market "addCollateral" (num collateral ∷ num 0 ∷ [])
            s3)
          _ t e3 in
      let (s5, r5, e5) =
        bind-ok (execute_on_origins o approvals p c p.market "borrow" (num amount ∷ []) s4) _ t
          e4 in
      let (s6, r6, e6) =
        bind-ok
          (execute_on_origins o approvals p c p.yield_box "withdraw"
            (num s.market.asset_id ∷ text p.account ∷ text p.account ∷ num amount ∷ num 0 ∷ []) s5)
          _ t e5 in
      let (approved, m1, k) = approve-step o approvals p c p.yield_box collateral s s1 r1 in
      let (n2, deposited, m2, k) =
        deposit-step o approvals p c id collateral 0 p.account s1 s2 r2 in
      let (permitted, m3, k) = approval-step o approvals p c p.market id true s2 s3 r3 in
      let added =
        add_collateral-Added o c collateral s3 s4
          (add-step o approvals p c collateral 0 s3 s4 r4) in
      let (r, loan) = borrow-step o approvals p c amount s4 s5 r5 in
      let lent = borrow-Borrowed o c laws amount s4 (r, s5) loan in
      let safe = borrow_allowed o c amount s4 (r, s5) loan in
      let (n6, withdrawn, m6) =
        withdraw-step o approvals p c s.market.asset_id amount 0 p.account s5 s6 r6 in
      let (s7, r7, e7) =
        bind-ok
          (execute_on_origins o approvals p c p.yield_box "setApprovalForAsset"
            (text p.market ∷ num id ∷ flag false ∷ []) s6)
          _ t e6 in
      let (back, m7, k) = approval-step o approvals p c p.market id false s6 s7 r7 in
      let same : s7 ≡ t = cc in
      let before : s3.market ≡ s.market = cc in
      let final : t.market ≡ s5.market = cc in
      let shares = added.1 in
      let share_user = added.2 in
      let share_total = added.3 in
      let same_debt = added.4 in
      let terms = added.5 in
      let owed = lent.0 in
      let kept_user = lent.1 in
      let kept_total = lent.2 in
      let minimum = safe.1 in
      let covered = safe.2 in
      record {
        allowed = s1.outside;
        approves = approved;
        deposited = (n2, s2.outside);
        deposits = deposited;
        approved = s3.outside;
        approves_market = permitted;
        share = added.0;
        shares = cc;
        user_share = cc;
        total_share = cc;
        debt = grind (arith, owed, same_debt, before, final);
        above_minimum = grind (arith, minimum, terms.2, before);
        lent = s5.outside;
        covered =
            Covered-same o s5.market t.market s5.outside c.sender p.account final sender covered;
        withdrawn = (n6, s6.outside);
        withdraws = withdrawn;
        takes_back = cc;
      }

mint_origin_usdo-eq :
    (hre : Hre) (tag multicall : String) (w : World) (collateral amount : ℕ) (x : Contracts)
    → load_contracts hre tag w ≡ ok x
    → mint_origin_usdo hre tag multicall w collateral (pos amount)
      ≡ ok (
          minting
            (parties_of x multicall)
            (w.chain.collateral_id x.origins)
            (w.chain.asset_id x.origins)
            collateral
            amount)
unfolding mint_origin_usdo
mint_origin_usdo-eq hre tag multicall w collateral amount x loaded = ground arith

-- Where the contracts are found, the chain answers the ids of the Origins market, and the rebase
-- library adds as documented: if the multicall executes the calls of a mint on Origins and none
-- reverts, then Origins holds for the multicall the shares that the YieldBox gives for exactly the
-- collateral that was deposited, the debt is greater by exactly the loan, which is above the
-- minimum and leaves the multicall covered, and the whole loan is withdrawn, before the approval of
-- Origins is taken back last.
pub run_mint-mint_origin_usdo :
    {W : Type 0} (o : Outside W) (approvals : Approvals W) (hre : Hre) (tag multicall : String)
    (w : World) (collateral amount now : ℕ) (x : Contracts) (calls : List Sent) (s t : Origins W)
    → IsRebaseLibrary o
    → load_contracts hre tag w ≡ ok x
    → w.chain.collateral_id x.origins ≡ s.market.collateral_id
    → w.chain.asset_id x.origins ≡ s.market.asset_id
    → mint_origin_usdo hre tag multicall w collateral (pos amount) ≡ ok calls
    → run_mint o approvals (parties_of x multicall) (from_multicall x multicall now) calls s ≡ ok t
    → Minted o approvals (parties_of x multicall) collateral amount s t
run_mint-mint_origin_usdo o approvals hre tag multicall w collateral amount now x calls s t laws
      loaded collateral_id asset_id made e =
    let expected = mint_origin_usdo-eq hre tag multicall w collateral amount x loaded in
    let run : run_mint o approvals (parties_of x multicall) (from_multicall x multicall now)
          (minting (parties_of x multicall) s.market.collateral_id s.market.asset_id collateral
            amount)
          s
        ≡ ok t =
      cc in
    run_minting o approvals (parties_of x multicall) (from_multicall x multicall now) laws
      collateral amount s t refl run
