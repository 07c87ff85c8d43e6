-- ===== src/Penrose/Registry.antt =====
-- What holds of the registry in every state that the owner's calls reach.
use tapioca_bar.Prelude.{
  ℕ, String, Bool, true, false, List, [], ◌∷◌, ◌++◌, ◌===◌, ◌||◌, arith, ◌≡◌, contains, distinct,
  ok, Bool-cases, inl, inr,
}
use package.text.Mathlib.TextEquality.{eq_iff}
use package.text.Mathlib.TextPositions.{eq_refl}
use tapioca_bar.Penrose.{
  Penrose, register_singularity_master_contract, register_big_bang_master_contract, add_singularity,
  add_big_bang, add_origins_market, set_usdo_token, set_main_tokens, unregister_contract,
}

-- A call that does not revert.
pub data Step (s t : Penrose) : Type 0 where
  singularity_mc :
      (sender mc : String) (risk : ℕ)
      → register_singularity_master_contract sender mc risk s ≡ ok t
      → Step s t
  big_bang_mc :
      (sender mc : String) (risk : ℕ)
      → register_big_bang_master_contract sender mc risk s ≡ ok t
      → Step s t
  singularity : (sender mc m : String) → add_singularity sender mc m s ≡ ok t → Step s t
  big_bang : (sender mc m : String) → add_big_bang sender mc m s ≡ ok t → Step s t
  origins : (sender m : String) → add_origins_market sender m s ≡ ok t → Step s t
  usdo_token : (sender token : String) (id : ℕ) → set_usdo_token sender token id s ≡ ok t → Step s t
  main_tokens :
      (sender main : String) (main_id : ℕ) (tap : String) (tap_id : ℕ)
      → set_main_tokens sender main main_id tap tap_id s ≡ ok t
      → Step s t
  unregister :
      (sender m : String) (kind : ℕ) → unregister_contract sender m kind s ≡ ok t → Step s t

-- The states that are reached from `s`.
pub data Reaches (s : Penrose) : Penrose → Type 0 where
  here : Reaches s s
  after : {t u : Penrose} → Reaches s t → Step t u → Reaches s u

-- What `executeMarketFn` asks of a market: its master contract is registered.
abbrev pub is_authorised : Penrose → String → Bool
is_authorised s m =
    s.is_singularity_master_contract_registered (s.master_contract_of m)
    || s.is_big_bang_master_contract_registered (s.master_contract_of m)

-- Every registered market is authorised.
pub record IsConsistent (s : Penrose) : Type 0 where
  pub authorised : (m : String) → s.is_market_registered m ≡ true → is_authorised s m ≡ true

module _ (s t : Penrose) (v : IsConsistent s) where
  register_singularity_master_contract-IsConsistent :
      (sender mc : String) (risk : ℕ)
      → register_singularity_master_contract sender mc risk s ≡ ok t
      → IsConsistent t
  unfolding register_singularity_master_contract
  register_singularity_master_contract-IsConsistent sender mc risk e = record {
    authorised = λ m h. grind (arith, v.authorised m);
  }

  register_big_bang_master_contract-IsConsistent :
      (sender mc : String) (risk : ℕ)
      → register_big_bang_master_contract sender mc risk s ≡ ok t
      → IsConsistent t
  unfolding register_big_bang_master_contract
  register_big_bang_master_contract-IsConsistent sender mc risk e = record {
    authorised = λ m h. grind (arith, v.authorised m);
  }

  add_singularity-IsConsistent :
      (sender mc x : String) → add_singularity sender mc x s ≡ ok t → IsConsistent t
  unfolding add_singularity
  add_singularity-IsConsistent sender mc x e = record {
    authorised = λ m h. grind (arith, v.authorised m);
  }

  add_big_bang-IsConsistent :
      (sender mc x : String) → add_big_bang sender mc x s ≡ ok t → IsConsistent t
  unfolding add_big_bang
  add_big_bang-IsConsistent sender mc x e = record {
    authorised = λ m h. grind (arith, v.authorised m);
  }

  add_origins_market-IsConsistent :
      (sender x : String) → add_origins_market sender x s ≡ ok t → IsConsistent t
  unfolding add_origins_market
  add_origins_market-IsConsistent sender x e = record {
    authorised = λ m h. grind (arith, v.authorised m);
  }

  set_usdo_token-IsConsistent :
      (sender token : String) (id : ℕ) → set_usdo_token sender token id s ≡ ok t → IsConsistent t
  unfolding set_usdo_token
  set_usdo_token-IsConsistent sender token id e = record {
    authorised = λ m h. grind (arith, v.authorised m);
  }

  set_main_tokens-IsConsistent :
      (sender main : String) (main_id : ℕ) (tap : String) (tap_id : ℕ)
      → set_main_tokens sender main main_id tap tap_id s ≡ ok t
      → IsConsistent t
  unfolding set_main_tokens
  set_main_tokens-IsConsistent sender main main_id tap tap_id e = record {
    authorised = λ m h. grind (arith, v.authorised m);
  }

  unregister_contract-IsConsistent :
      (sender x : String) (kind : ℕ) → unregister_contract sender x kind s ≡ ok t → IsConsistent t
  unfolding unregister_contract
  unregister_contract-IsConsistent sender x kind e = record {
    authorised = λ m h. grind (arith, v.authorised m);
  }

  Step-IsConsistent : Step s t → IsConsistent t
  Step-IsConsistent (singularity_mc sender mc risk e) =
      register_singularity_master_contract-IsConsistent sender mc risk e
  Step-IsConsistent (big_bang_mc sender mc risk e) =
      register_big_bang_master_contract-IsConsistent sender mc risk e
  Step-IsConsistent (singularity sender mc m e) = add_singularity-IsConsistent sender mc m e
  Step-IsConsistent (big_bang sender mc m e) = add_big_bang-IsConsistent sender mc m e
  Step-IsConsistent (origins sender m e) = add_origins_market-IsConsistent sender m e
  Step-IsConsistent (usdo_token sender token id e) = set_usdo_token-IsConsistent sender token id e
  Step-IsConsistent (main_tokens sender main main_id tap tap_id e) =
      set_main_tokens-IsConsistent sender main main_id tap tap_id e
  Step-IsConsistent (unregister sender m kind e) = unregister_contract-IsConsistent sender m kind e

-- From a registry where every registered market has a registered master contract, as
-- `executeMarketFn` asks, the modelled calls reach only registries of that kind.
pub Reaches-IsConsistent : {s t : Penrose} → IsConsistent s → Reaches s t → IsConsistent t
Reaches-IsConsistent v here = v
Reaches-IsConsistent v (after r step) = Step-IsConsistent _ _ (Reaches-IsConsistent v r) step

contains-append : (m : String) (xs : List String) → contains m (xs ++ m ∷ []) ≡ true
contains-append m [] = ground (arith, eq_refl m)
contains-append m (x ∷ xs) = ground (arith, contains-append m xs)

distinct-append :
    (m : String) (xs : List String) → contains m xs ≡ true → distinct (xs ++ m ∷ []) ≡ false
distinct-append m [] h = absurd (cc)
distinct-append m (x ∷ xs) h = elim (Bool-cases (x === m)) [
  | inl same ↦ ground (arith, (eq_iff x m).0 same, contains-append m xs)
  | inr other ↦ ground (arith, distinct-append m xs)
]

-- A BigBang market that is unregistered as a market of type 0 and added again stands twice in
-- the list of BigBang markets.
pub add_big_bang_twice :
    (sender mc m : String) (s t u : Penrose)
    → contains m s.all_big_bang_markets ≡ true
    → unregister_contract sender m 0 s ≡ ok t
    → add_big_bang sender mc m t ≡ ok u
    → distinct u.all_big_bang_markets ≡ false
unfolding unregister_contract add_big_bang
add_big_bang_twice sender mc m s t u listed e f =
    grind (arith, distinct-append m s.all_big_bang_markets)
