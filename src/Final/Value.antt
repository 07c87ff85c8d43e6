-- ===== src/Final/Value.antt =====
-- The native currency that goes with the second multicall of a side chain, and the recipient
-- chain that it needs.
use tapioca_bar.Prelude.{
  ℕ, ◌+◌, ◌≤◌, String, true, false, none, some, List, [], ◌∷◌, ◌++◌, arith, ◌≡◌, ◌≢◌, refl, ok,
  Result-cases, inl, inr, ◌==◌, All, All-append,
}
use tapioca_bar.Sdk.{
  World, Call, Contract, ChainInfo, SdkTasks, generic, tapioca_periph, load_global_contract,
}
use tapioca_bar.PostLbp1.Params.{VmPass}
use tapioca_bar.Toft.{wrap_toft}
use tapioca_bar.Final.{
  send_oft_token, with_value_0, side_calls_2, side_task, post_deploy_task_final,
}
use tapioca_bar.Final.Address.{is_prefixed, size, size-bytes32_of}

abbrev pub value_of : Call → ℕ
value_of c = elim c.value [ none ↦ 0 | some v ↦ v ]

-- The value that the calls of a multicall pass on together.
abbrev pub total_value : List Call → ℕ
total_value [] = 0
total_value (c ∷ cs) = value_of c + total_value cs

-- Every call says its value, as `CallValueStruct` asks for.
abbrev pub HaveValues : List Call → Type 0
HaveValues = All (λ c. c.value ≢ none)

total_value-append : (xs ys : List Call) → total_value (xs ++ ys) ≡ total_value xs + total_value ys
total_value-append [] ys = omega arith
total_value-append (x ∷ xs) ys = omega (arith, total_value-append xs ys)

total_value-with_value_0 : (cs : List Call) → total_value (with_value_0 cs) ≡ 0
unfolding with_value_0
total_value-with_value_0 [] = refl
total_value-with_value_0 (c ∷ cs) = omega (arith, total_value-with_value_0 cs)

HaveValues-with_value_0 : (cs : List Call) → HaveValues (with_value_0 cs)
unfolding with_value_0
HaveValues-with_value_0 [] = tt
HaveValues-with_value_0 (c ∷ cs) = (λ h. cc, HaveValues-with_value_0 cs)

module _ (p : VmPass) (transfer_to : String) (w : World) where
  send_oft_token_value :
      (toft : String) (amount : ℕ) (dst : ChainInfo) (target : Contract)
      → p.hre.chain_by_name transfer_to ≡ some dst
      → load_global_contract p.hre generic dst.chain_id p.hre.names.tapioca_multicall p.tag
        ≡ ok target
      → is_prefixed target.address ≡ true
      → size target.address ≤ 66
      → (send : List Call) × (fee : ℕ) × (send_oft_token p transfer_to w toft amount
          ≡ ok (send, fee))
        × (total_value send ≡ fee)
        × HaveValues send
  unfolding send_oft_token
  send_oft_token_value toft amount dst target known loaded prefixed short =
      let (to, to_eq, to_size, to_prefixed) = size-bytes32_of target.address prefixed short in
      elim (Result-cases (send_oft_token p transfer_to w toft amount)) [
        | inl ((send, fee), sent) ↦ (send, fee, sent, ground arith, ground arith)
        | inr (failure, thrown) ↦ absurd (ground arith)
      ]

  wrap_toft-IsOk :
      (toft : String) (amount : ℕ) (pearlmit : Contract)
      → load_global_contract p.hre tapioca_periph p.hre.e_chain_id p.hre.names.pearlmit p.tag
        ≡ ok pearlmit
      → (w.chain.balance_of (w.chain.erc20 toft) p.tapioca_multicall_addr == 0) ≡ false
      → (calls : List Call) × (wrap_toft p.hre p.tag p.tapioca_multicall_addr w toft amount false
          ≡ ok calls)
  unfolding wrap_toft
  wrap_toft-IsOk toft amount pearlmit loaded balance =
      elim (Result-cases (wrap_toft p.hre p.tag p.tapioca_multicall_addr w toft amount false)) [
        | inl done ↦ done
        | inr (failure, thrown) ↦ absurd (ground arith)
      ]

  -- With a known destination whose multicall contract is saved under an address of at most 66
  -- characters that starts with `0x`, a saved Pearlmit and tokens to wrap, the second multicall of
  -- a side chain is made; every call of it has a value, and the value that is sent along is what
  -- the calls pass on together.
  pub side_calls_2_value :
      (toft : String) (dst : ChainInfo) (target pearlmit : Contract)
      → p.hre.chain_by_name transfer_to ≡ some dst
      → load_global_contract p.hre generic dst.chain_id p.hre.names.tapioca_multicall p.tag
        ≡ ok target
      → is_prefixed target.address ≡ true
      → size target.address ≤ 66
      → load_global_contract p.hre tapioca_periph p.hre.e_chain_id p.hre.names.pearlmit p.tag
        ≡ ok pearlmit
      → (w.chain.balance_of (w.chain.erc20 toft) p.tapioca_multicall_addr == 0) ≡ false
      → (calls : List Call) × (fee : ℕ) × (side_calls_2 p transfer_to w toft ≡ ok (calls, fee))
        × (total_value calls ≡ fee)
        × HaveValues calls
  unfolding side_calls_2
  side_calls_2_value toft dst target pearlmit known loaded prefixed short loaded_pearlmit balance =
      let (wrap, wrapped) =
        wrap_toft-IsOk toft (10_000_000_000_000_000) pearlmit loaded_pearlmit balance in
      let (send, fee, sent, total, values) =
        send_oft_token_value toft (10_000_000_000_000_000) dst target known loaded prefixed short in
      (
        with_value_0 wrap ++ send,
        fee,
        rw (wrapped, sent) refl,
        omega (
          arith,
          total_value-append (with_value_0 wrap) send,
          total_value-with_value_0 wrap,
          total,
        ),
        All-append _ (with_value_0 wrap) send (HaveValues-with_value_0 wrap) values,
      )

-- On a side chain the last phase never ends well where the destination is not a known chain.
pub post_deploy_task_final_unknown :
    (sdk : SdkTasks) (p : VmPass) (transfer_to : String) (w w' : World)
    → p.is_side_chain ≡ true
    → p.hre.chain_by_name transfer_to ≡ none
    → post_deploy_task_final sdk p transfer_to w ≢ ok w'
unfolding post_deploy_task_final side_task side_calls_2 send_oft_token
post_deploy_task_final_unknown sdk p transfer_to w w' side unknown h = ground arith
