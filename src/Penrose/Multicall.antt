-- ===== src/Penrose/Multicall.antt =====
-- What the registration steps of tasks/deploy/postDepSetup do to the registry of Penrose, when the
-- multicall contract runs their calls in order.
use tapioca_bar.Prelude.{
  String, Bool, true, List, [], ◌∷◌, map, ◌∙◌, ◌++◌, ◌===◌, arith, ◌≡◌, refl, if◌then◌else◌,
  contains, distinct, Result, ok, err, rejected, ◌>>=◌, All,
}
use package.text.Mathlib.TextEquality.{eq_iff}
use package.text.Mathlib.TextPositions.{eq_refl}
use tapioca_bar.Sdk.{Arg, World, Chain, Call, text, num, ◌followed_by◌, followed_by-eq-ok}
use tapioca_bar.Penrose.{
  Penrose, update, register_singularity_master_contract, register_big_bang_master_contract,
  add_singularity, add_big_bang,
}
use tapioca_bar.PostLbp1.Setup.Penrose.{MarketType, bb, sgl, register_market}

-- A call of a registration function by `sender`, decoded.
unfoldable pub dispatch : String → String → List Arg → Penrose → Result Penrose
dispatch sender fn (text mc ∷ num risk ∷ []) s =
    if fn === "registerSingularityMasterContract"
    then register_singularity_master_contract sender mc risk s
    else if fn === "registerBigBangMasterContract"
    then register_big_bang_master_contract sender mc risk s
    else err (rejected "no such function")
dispatch sender fn (text mc ∷ text market ∷ []) s =
    if fn === "addBigBang"
    then add_big_bang sender mc market s
    else if fn === "addSingularity"
    then add_singularity sender mc market s
    else err (rejected "no such function")
dispatch sender fn args s = err (rejected "no such function")

-- The multicall reverts as a whole where one call fails.
unfoldable pub run : String → String → List Call → Penrose → Result Penrose
run sender penrose [] s = ok s
run sender penrose (c ∷ cs) s =
    if c.target === penrose
    then dispatch sender c.call_data.fn c.call_data.args s >>= run sender penrose cs
    else err (rejected "another contract")

-- The view functions of Penrose at `penrose` answer from the state `s`.
pub record Answers (penrose : String) (chain : Chain) (s : Penrose) : Type 0 where
  pub sgl_mc :
      (mc : String)
      → chain.is_singularity_master_contract_registered penrose mc
        ≡ s.is_singularity_master_contract_registered mc
  pub bb_mc :
      (mc : String)
      → chain.is_big_bang_master_contract_registered penrose mc
        ≡ s.is_big_bang_master_contract_registered mc
  pub market : (m : String) → chain.is_market_registered penrose m ≡ s.is_market_registered m

module _ (sender penrose : String) where
  pub run-append :
      (xs ys : List Call) (s : Penrose)
      → run sender penrose (xs ++ ys) s ≡ (run sender penrose xs s >>= run sender penrose ys)
  unfolding run
  run-append [] ys s = refl
  run-append (c ∷ xs) ys s = grind (arith, run-append xs ys)

-- The registration of one market: its kind, master contract and address.
pub record Entry : Type 0 where
  pub kind : MarketType
  pub mc : String
  pub market : String

unfoldable pub register_list : World → String → List Entry → Result (List Call)
register_list w penrose [] = ok []
register_list w penrose (e ∷ es) =
    register_market w penrose e.kind e.mc e.market followed_by register_list w penrose es

abbrev pub mc_registered : Penrose → Entry → Bool
mc_registered s e = elim e.kind [
  | bb ↦ s.is_big_bang_master_contract_registered e.mc
  | sgl ↦ s.is_singularity_master_contract_registered e.mc
]

abbrev pub markets_of : List Entry → List String
markets_of = map (λ e. e.market)

-- What a run leaves: the markets of `es` are registered and no other change of that kind is made;
-- the master contracts and the owner stay.
pub record Registers (es : List Entry) (s t : Penrose) : Type 0 where
  pub owner : t.owner ≡ s.owner
  pub sgl_mc :
      (mc : String)
      → t.is_singularity_master_contract_registered mc
        ≡ s.is_singularity_master_contract_registered mc
  pub bb_mc :
      (mc : String)
      → t.is_big_bang_master_contract_registered mc ≡ s.is_big_bang_master_contract_registered mc
  pub market :
      (m : String)
      → t.is_market_registered m
        ≡ (if contains m (markets_of es) then true else s.is_market_registered m)

-- The state after the call for one entry, if it is made.
after : MarketType → String → String → Penrose → Penrose
after bb mc m s = if s.is_market_registered m then s else record s {
  is_market_registered = update s.is_market_registered m true;
  clones_of = update s.clones_of mc (s.clones_of mc ++ m ∷ []);
  master_contract_of = update s.master_contract_of m mc;
  all_big_bang_markets = s.all_big_bang_markets ++ m ∷ [];
}
after sgl mc m s = if s.is_market_registered m then s else record s {
  is_market_registered = update s.is_market_registered m true;
  clones_of = update s.clones_of mc (s.clones_of mc ++ m ∷ []);
  master_contract_of = update s.master_contract_of m mc;
}

module _ (sender penrose : String) (w : World) where
  module _ (mc m : String) (s : Penrose) (own : (sender === s.owner) ≡ true) where
    -- One entry, whose market the chain reported as it still is.
    run-register_market :
        (kind : MarketType) {calls : List Call}
        → mc_registered s (record { kind = kind; mc = mc; market = m }) ≡ true
        → w.chain.is_market_registered penrose m ≡ s.is_market_registered m
        → register_market w penrose kind mc m ≡ ok calls
        → run sender penrose calls s ≡ ok (after kind mc m s)
    unfolding register_market run dispatch add_singularity add_big_bang after
    run-register_market bb reg read e = ground (arith, eq_refl penrose)
    run-register_market sgl reg read e = ground (arith, eq_refl penrose)

after-Registers :
    (kind : MarketType) (mc m : String) (s : Penrose)
    → Registers (record { kind = kind; mc = mc; market = m } ∷ []) s (after kind mc m s)
unfolding after
after-Registers bb mc m s = record {
  owner = ground arith;
  sgl_mc = λ x. ground arith;
  bb_mc = λ x. ground arith;
  market = λ x. ground (arith, eq_iff m x, eq_iff x m);
}
after-Registers sgl mc m s = record {
  owner = ground arith;
  sgl_mc = λ x. ground arith;
  bb_mc = λ x. ground arith;
  market = λ x. ground (arith, eq_iff m x, eq_iff x m);
}

pub after_list : List Entry → Penrose → Penrose
after_list [] s = s
after_list (e ∷ es) s = after_list es (after e.kind e.mc e.market s)

mc_registered-Registers :
    (es : List Entry) (s t : Penrose) (kind : MarketType) (mc m : String)
    → Registers es s t
    → mc_registered t (record { kind = kind; mc = mc; market = m })
      ≡ mc_registered s (record { kind = kind; mc = mc; market = m })
mc_registered-Registers es s t bb mc m r = r.bb_mc mc
mc_registered-Registers es s t sgl mc m r = r.sgl_mc mc

All-mc_registered :
    (es ds : List Entry) (s t : Penrose)
    → Registers ds s t
    → All (λ e. mc_registered s e ≡ true) es
    → All (λ e. mc_registered t e ≡ true) es
All-mc_registered [] ds s t r h = tt
All-mc_registered (e ∷ es) ds s t r h =
    (mc_registered-Registers ds s t e.kind e.mc e.market r ∙ h.0, All-mc_registered es ds s t r h.1)

Registers-cons :
    (e : Entry) (es : List Entry) (s t u : Penrose)
    → Registers (e ∷ []) s t
    → Registers es t u
    → Registers (e ∷ es) s u
Registers-cons e es s t u first rest = record {
  owner = rest.owner ∙ first.owner;
  sgl_mc = λ mc. rest.sgl_mc mc ∙ first.sgl_mc mc;
  bb_mc = λ mc. rest.bb_mc mc ∙ first.bb_mc mc;
  market = λ m. ground (arith, rest.market m, first.market m);
}

pub after_list-Registers : (es : List Entry) (s : Penrose) → Registers es s (after_list es s)
unfolding after_list
after_list-Registers [] s = record {
  owner = refl;
  sgl_mc = λ mc. refl;
  bb_mc = λ mc. refl;
  market = λ m. refl;
}
after_list-Registers (e ∷ es) s =
    Registers-cons e es s (after e.kind e.mc e.market s) _ (after-Registers e.kind e.mc e.market s)
      (after_list-Registers es (after e.kind e.mc e.market s))

module _ (sender penrose : String) (w : World) where
  pub run-register_list :
      (es : List Entry) (s : Penrose) {calls : List Call}
      → (sender === s.owner) ≡ true
      → All (λ e. mc_registered s e ≡ true) es
      → ((m : String)
          → contains m (markets_of es) ≡ true
          → w.chain.is_market_registered penrose m ≡ s.is_market_registered m)
      → distinct (markets_of es) ≡ true
      → register_list w penrose es ≡ ok calls
      → run sender penrose calls s ≡ ok (after_list es s)
  unfolding register_list after_list run
  run-register_list [] s own mcs read d h = ground arith
  run-register_list (e ∷ es) s own mcs read d h =
      let (xs, ys, x_eq, y_eq, c_eq) = followed_by-eq-ok _ _ h in
      let s' = after e.kind e.mc e.market s in
      let r : Registers (e ∷ []) s s' = after-Registers e.kind e.mc e.market s in
      rw
        (
          c_eq,
          run-append sender penrose xs ys s,
          run-register_market sender penrose w e.mc e.market s own e.kind mcs.0
              (read e.market (ground (arith, eq_refl e.market))) x_eq,
        )
        (run-register_list es s' (rw r.owner own) (All-mc_registered es (e ∷ []) s s' r mcs.1)
          (λ m member. ground (arith, read m, r.market m, eq_iff e.market m)) (ground arith) y_eq)
