-- ===== src/Toft/OnSingularity.antt =====
-- The calls that lend USDO to a market, executed on the model of
-- contracts/markets/singularity/Singularity.sol.
use tapioca_bar.Prelude.{
  ℕ, ◌+◌, String, true, false, some, List, [], ◌∷◌, arith, ◌≡◌, ok, bind-ok, refl, ◌∙◌, ap,
}
use tapioca_bar.Config.Names
use tapioca_bar.Sdk.{World, Call as Sent, Contract, text, num, flag, call, load_local_contract}
use tapioca_bar.Market.Outside.{Outside, Call, IsRebaseLibrary}
use tapioca_bar.Market.Messages.{Approvals, Addresses}
use tapioca_bar.Singularity.{Singularity}
use tapioca_bar.Toft.Lends.{Lends, add_asset-Lends}
use tapioca_bar.Toft.{DepositParams, deposit_usdo_yb_and_add_sgl}
use tapioca_bar.Toft.Execution.{
  execute_on_singularity, run_lending, approve-step, deposit-step, approval-step,
  approval_for_all-step, permit-step, add-step,
}
use tapioca_bar.PostLbp1.Loading.{Generic, load_generic}

-- What YieldBox documents: a deposit by its amount gives the shares of that amount, and the
-- approval of a token does not change what an amount is worth.
pub record IsDepositing {W : Type 0} (o : Outside W) (approvals : Approvals W) : Type 0 where
  pub priced :
      (id amount : ℕ) (from to : String) (w : W) (x : ℕ × W)
      → o.deposit_asset id from to amount 0 w ≡ ok x
      → o.to_share w id amount false ≡ ok x.0
  pub kept :
      (token owner spender : String) (allowance id amount : ℕ) (w x : W)
      → approvals.approve token owner spender allowance w ≡ ok x
      → o.to_share x id amount false ≡ o.to_share w id amount false

-- What the calls that lend leave: the YieldBox was given the whole amount for exactly the shares
-- that are lent; the market and Pearlmit were approved, Pearlmit lets the market take exactly those
-- shares before the deadline, and they were lent.
pub record Lent {W : Type 0} (o : Outside W) (approvals : Approvals W) (p : Addresses) (c : Call)
    (id amount shares deadline : ℕ) (s t : Singularity W) : Type 0 where
  pub allowed : W
  pub approves : approvals.approve p.token p.account p.yield_box amount s.outside ≡ ok allowed
  pub deposited : ℕ × W
  pub deposits : o.deposit_asset id p.account p.account amount 0 allowed ≡ ok deposited
  pub all_received : deposited.0 ≡ shares
  pub approved : W
  pub approves_market :
      approvals.set_approval_for_asset p.account p.market id true deposited.1 ≡ ok approved
  pub for_all : W
  pub approves_pearlmit :
      approvals.set_approval_for_all p.account p.pearlmit true approved ≡ ok for_all
  pub permitted : W
  pub permits :
      approvals.approve_operator p.account 1155 p.yield_box id p.market shares deadline for_all
      ≡ ok permitted
  pub lends : Lends o c p.account shares (record s { outside = permitted }) t

abbrev pub parties_of : DepositParams → Generic → Contract → Contract → Addresses
parties_of p g usdo market = record {
  token = usdo.address;
  yield_box = g.yield_box;
  pearlmit = g.pearlmit;
  market = market.address;
  account = p.tapioca_multicall_addr;
}

abbrev pub from_multicall : Addresses → ℕ → Call
from_multicall p now = record { sender = p.account; address_this = p.market; timestamp = now }

-- The calls of a loan.
abbrev lending : Addresses → ℕ → ℕ → ℕ → ℕ → List Sent
lending p id amount shares deadline =
    call p.token "approve" (text p.yield_box ∷ num amount ∷ [])
    ∷ call p.yield_box "depositAsset"
        (num id ∷ text p.account ∷ text p.account ∷ num amount ∷ num 0 ∷ [])
    ∷ call p.yield_box "setApprovalForAsset" (text p.market ∷ num id ∷ flag true ∷ [])
    ∷ call p.yield_box "setApprovalForAll" (text p.pearlmit ∷ flag true ∷ [])
    ∷ call p.pearlmit "approve"
        (num 1155 ∷ text p.yield_box ∷ num id ∷ text p.market ∷ num shares ∷ num deadline ∷ [])
    ∷ call p.market "addAsset" (text p.account ∷ text p.account ∷ flag false ∷ num shares ∷ [])
    ∷ []

-- A state that differs in the contracts outside only.
abbrev IsElsewhere : {W : Type 0} → Singularity W → Singularity W → Type 0
IsElsewhere s t = t ≡ record s { outside = t.outside }

abbrev moved : {W : Type 0} → W → Singularity W → Singularity W
moved w s = record s { outside = w }

IsElsewhere-trans :
    {W : Type 0} (s t u : Singularity W) → IsElsewhere s t → IsElsewhere t u → IsElsewhere s u
IsElsewhere-trans s t u e f = f ∙ ap (moved u.outside) e

module _ {W : Type 0} (o : Outside W) (approvals : Approvals W) (p : Addresses) (c : Call) where
  lent-Lends :
      (laws : IsRebaseLibrary o) (shares : ℕ) (w : W) (s before t u : Singularity W)
      → c.sender ≡ p.account
      → before ≡ record s { outside = w }
      → execute_on_singularity o approvals p c p.market "addAsset"
          (text p.account ∷ text p.account ∷ flag false ∷ num shares ∷ [])
          before
        ≡ ok u
      → u ≡ t
      → Lends o c p.account shares (record s { outside = w }) t
  lent-Lends laws shares w s before t u sender same e last =
      let (fraction, added) =
        add-step o approvals p c p.account p.account false shares (record s { outside = w }) t cc in
      add_asset-Lends o c laws p.account shares (record s { outside = w }) (fraction, t) sender
        added

  run_lending-Lent :
      (laws : IsRebaseLibrary o) (box : IsDepositing o approvals) (id amount shares deadline : ℕ)
      (s t : Singularity W)
      → c.sender ≡ p.account
      → o.to_share s.outside id amount false ≡ ok shares
      → run_lending o approvals p c (lending p id amount shares deadline) s ≡ ok t
      → Lent o approvals p c id amount shares deadline s t
  unfolding run_lending
  run_lending-Lent laws box id amount shares deadline s t sender priced e =
      let (s1, r1, e1) =
        bind-ok
          (execute_on_singularity o approvals p c p.token "approve"
            (text p.yield_box ∷ num amount ∷ []) s)
          _ t e in
      let (s2, r2, e2) =
        bind-ok
          (execute_on_singularity o approvals p c p.yield_box "depositAsset"
            (num id ∷ text p.account ∷ text p.account ∷ num amount ∷ num 0 ∷ []) s1)
          _ t e1 in
      let (s3, r3, e3) =
        bind-ok
          (execute_on_singularity o approvals p c p.yield_box "setApprovalForAsset"
            (text p.market ∷ num id ∷ flag true ∷ []) s2)
          _ t e2 in
      let (s4, r4, e4) =
        bind-ok
          (execute_on_singularity o approvals p c p.yield_box "setApprovalForAll"
            (text p.pearlmit ∷ flag true ∷ []) s3)
          _ t e3 in
      let (s5, r5, e5) =
        bind-ok
          (execute_on_singularity o approvals p c p.pearlmit "approve"
            (num 1155 ∷ text p.yield_box ∷ num id ∷ text p.market ∷ num shares ∷ num deadline ∷ [])
            s4)
          _ t e4 in
      let (s6, r6, e6) =
        bind-ok
          (execute_on_singularity o approvals p c p.market "addAsset"
            (text p.account ∷ text p.account ∷ flag false ∷ num shares ∷ []) s5)
          _ t e5 in
      let (approved, m1) = approve-step o approvals p c p.yield_box amount s s1 r1 in
      let (n, deposited, m2) = deposit-step o approvals p c id amount 0 p.account s1 s2 r2 in
      let (market, m3) = approval-step o approvals p c p.market id true s2 s3 r3 in
      let (pearlmit, m4) = approval_for_all-step o approvals p c p.pearlmit true s3 s4 r4 in
      let (permit, m5) =
        permit-step o approvals p c 1155 id shares deadline p.yield_box p.market s4 s5 r5 in
      let k2 = IsElsewhere-trans s s1 s2 m1 m2 in
      let k3 = IsElsewhere-trans s s2 s3 k2 m3 in
      let k4 = IsElsewhere-trans s s3 s4 k3 m4 in
      let k5 = IsElsewhere-trans s s4 s5 k4 m5 in
      let worth = box.priced id amount p.account p.account s1.outside (n, s2.outside) deposited in
      let kept =
        box.kept p.token p.account p.yield_box amount id amount s.outside s1.outside approved in
      record {
        allowed = s1.outside;
        approves = approved;
        deposited = (n, s2.outside);
        deposits = deposited;
        all_received = ground arith;
        approved = s3.outside;
        approves_market = market;
        for_all = s4.outside;
        approves_pearlmit = pearlmit;
        permitted = s5.outside;
        permits = permit;
        lends = lent-Lends laws shares s5.outside s s5 t s6 sender k5 r6 (ground arith);
      }

lending-eq :
    (p : DepositParams) (w : World) (market_name : String) (g : Generic)
    (strategy usdo market : Contract) (id : ℕ)
    → load_local_contract w p.hre.chain_info.chain_id Names.yb_usdo_asset_without_strategy p.tag
      ≡ ok strategy
    → load_local_contract w p.hre.chain_info.chain_id Names.usdo p.tag ≡ ok usdo
    → load_local_contract w p.hre.chain_info.chain_id market_name p.tag ≡ ok market
    → load_generic p.hre p.tag p.is_testnet ≡ ok g
    → w.chain.ids g.yield_box 1 (some usdo.address) strategy.address 0 ≡ ok id
    → deposit_usdo_yb_and_add_sgl p w market_name
      ≡ ok (
          lending
            (parties_of p g usdo market)
            id
            p.amount
            (w.chain.to_share g.yield_box id p.amount false)
            (w.chain.timestamp + 1800))
unfolding deposit_usdo_yb_and_add_sgl
lending-eq p w market_name g strategy usdo market id e1 e2 e3 e4 e5 = ground arith

-- Where the contracts and the id of USDO are found, the chain answers what the YieldBox gives for
-- the amount, the rebase library adds and the YieldBox deposits as documented: if the multicall
-- executes the calls that lend USDO on the market and none reverts, then the YieldBox got the whole
-- amount, for exactly the shares that Pearlmit was told to let the market take before half an hour
-- is over, and as many were lent, worth more than the market's minimum: after the accrual its
-- assets grow by them and the multicall gets the fractions they buy, or the accrual leaves less
-- than 1000 fractions and nothing else changes.
pub run_lending-deposit_usdo_yb_and_add_sgl :
    {W : Type 0} (o : Outside W) (approvals : Approvals W) (p : DepositParams) (w : World)
    (market_name : String) (g : Generic) (strategy usdo market : Contract) (id now : ℕ)
    (calls : List Sent) (s t : Singularity W)
    → IsRebaseLibrary o
    → IsDepositing o approvals
    → load_local_contract w p.hre.chain_info.chain_id Names.yb_usdo_asset_without_strategy p.tag
      ≡ ok strategy
    → load_local_contract w p.hre.chain_info.chain_id Names.usdo p.tag ≡ ok usdo
    → load_local_contract w p.hre.chain_info.chain_id market_name p.tag ≡ ok market
    → load_generic p.hre p.tag p.is_testnet ≡ ok g
    → w.chain.ids g.yield_box 1 (some usdo.address) strategy.address 0 ≡ ok id
    → o.to_share s.outside id p.amount false ≡ ok (w.chain.to_share g.yield_box id p.amount false)
    → deposit_usdo_yb_and_add_sgl p w market_name ≡ ok calls
    → run_lending o approvals
        (parties_of p g usdo market)
        (from_multicall (parties_of p g usdo market) now)
        calls
        s
      ≡ ok t
    → Lent o approvals
        (parties_of p g usdo market)
        (from_multicall (parties_of p g usdo market) now)
        id
        p.amount
        (w.chain.to_share g.yield_box id p.amount false)
        (w.chain.timestamp + 1800)
        s
        t
run_lending-deposit_usdo_yb_and_add_sgl o approvals p w market_name g strategy usdo market id now
      calls s t laws box e1 e2 e3 e4 e5 priced made e =
    let expected = lending-eq p w market_name g strategy usdo market id e1 e2 e3 e4 e5 in
    let x = parties_of p g usdo market in
    let shares = w.chain.to_share g.yield_box id p.amount false in
    let run : run_lending o approvals (parties_of p g usdo market)
          (from_multicall (parties_of p g usdo market) now)
          (lending (parties_of p g usdo market) id p.amount
            (w.chain.to_share g.yield_box id p.amount false) (w.chain.timestamp + 1800))
          s
        ≡ ok t =
      cc in
    run_lending-Lent o approvals x (from_multicall x now) laws box id p.amount shares
      (w.chain.timestamp + 1800) s t refl priced run
