-- ===== src/Singularity/Limits.antt =====
-- The settings of a Singularity market, from its initialisation on.
use tapioca_bar.Prelude.{
  Bool, true, false, ok, err, rejected, ◌≡◌, ◌≤◌, ◌<◌, ◌^◌, arith, Result-cases, inl, inr,
  if◌then◌else◌, ◌===◌, refl,
}
use tapioca_bar.Penrose.{zero_address}
use tapioca_bar.Market.Views.{update_exchange_rate}
use tapioca_bar.Market.{fee_precision}
use tapioca_bar.Market.Outside.{Outside, Call}
use tapioca_bar.Singularity.{Singularity, accrue}
use tapioca_bar.Singularity.Owner.{SingularityConfig, write_config, set_singularity_config}
use tapioca_bar.Singularity.Initialise.{InitData, init_default_values, init_storage, init}
use tapioca_bar.Singularity.Interest.{IsRated}

-- The limits of the rate are in order, the upper target leaves room for a utilization over it, and
-- fee and multiplier are at most the whole.
pub record IsLimited {W : Type 0} (s : Singularity W) : Type 0 where
  pub rates_ordered : s.minimum_interest_per_second < s.maximum_interest_per_second
  pub target_bounded : s.maximum_target_utilization < 10 ^ 18
  pub fee_bounded : s.borrow_opening_fee ≤ fee_precision
  pub multiplier_bounded : s.market.liquidation_multiplier ≤ fee_precision

module _ {W : Type 0} (o : Outside W) (c : Call) where
  write_config-IsLimited :
      (a : SingularityConfig) (s t : Singularity W)
      → write_config o c a s ≡ ok t
      → IsLimited s
      → IsLimited t
  unfolding write_config
  write_config-IsLimited a s t e v = record {
    rates_ordered = ground (arith, v.rates_ordered);
    target_bounded = ground (arith, v.target_bounded);
    fee_bounded = ground arith;
    multiplier_bounded = ground (arith, v.multiplier_bounded);
  }

  accrue-IsLimited : (s t : Singularity W) → accrue o c s ≡ ok t → IsLimited s → IsLimited t
  unfolding accrue
  accrue-IsLimited s t e v = record {
    rates_ordered = ground (arith, v.rates_ordered);
    target_bounded = ground (arith, v.target_bounded);
    fee_bounded = ground (arith, v.fee_bounded);
    multiplier_bounded = ground (arith, v.multiplier_bounded);
  }

  -- Settings that the owner writes, whichever are given, keep the limits in order.
  pub set_singularity_config-IsLimited :
      (a : SingularityConfig) (s t : Singularity W)
      → set_singularity_config o c a s ≡ ok t
      → IsLimited s
      → IsLimited t
  unfolding set_singularity_config
  set_singularity_config-IsLimited a s t e v =
      let x : Singularity W = record s {
        interest_helper =
            if a.interest_helper === zero_address then s.interest_helper else a.interest_helper;
      } in
      let limited : IsLimited x = record {
        rates_ordered = v.rates_ordered;
        target_bounded = v.target_bounded;
        fee_bounded = v.fee_bounded;
        multiplier_bounded = v.multiplier_bounded;
      } in
      elim (Result-cases (accrue o c x)) [
        | inl (u, accrued) ↦
            write_config-IsLimited a u t (ground arith) (accrue-IsLimited x u accrued limited)
        | inr (reason, failed) ↦ absurd (ground arith)
      ]

  init_default_values_lem :
      (a : InitData) (s t : Singularity W)
      → init_default_values o c a s ≡ ok t
      → IsLimited t × IsRated t × (t.market.owner ≡ s.market.owner)
  unfolding init_default_values update_exchange_rate
  init_default_values_lem a s t e = (
    record {
      rates_ordered = ground arith;
      target_bounded = ground arith;
      fee_bounded = ground arith;
      multiplier_bounded = ground arith;
    },
    (ground arith, ground arith, ground arith, ground arith),
    ground arith,
  )

  init_storage_lem :
      (a : InitData) (s t : Singularity W)
      → init_storage o c a s ≡ ok t
      → IsLimited t × IsRated t × (t.market.owner ≡ a.penrose)
  unfolding init_storage
  init_storage_lem a s t e =
      let x : Singularity W = record s {
        penrose = a.penrose;
        market = record s.market {
          owner = a.penrose;
          asset_id = a.asset_id;
          collateral_id = a.collateral_id;
          oracle = a.oracle;
        };
      } in
      init_default_values_lem a x t (ground arith)

  -- An initialisation that does not revert leaves limits in order and a rate between them, hands
  -- the market to Penrose, and no further one succeeds on any market with the flag it leaves.
  pub init_once-IsLimited :
      (a b : InitData) (initialized after : Bool) (s t u : Singularity W)
      → init o c a initialized s ≡ ok (t, after)
      → IsLimited t
        × IsRated t
        × (t.market.owner ≡ a.penrose)
        × (init o c b after u ≡ err (rejected "Market: initialized"))
  unfolding init
  init_once-IsLimited a b true after s t u e = absurd (cc)
  init_once-IsLimited a b false after s t u e = elim (Result-cases (init_storage o c a s)) [
    | inl (x, stored) ↦
        let same : t ≡ x = ground arith in
        let flagged : after ≡ true = ground arith in
        let (limited, rated, owned) = init_storage_lem a s x stored in
        (rw same limited, rw same rated, rw same owned, rw flagged refl)
    | inr (reason, failed) ↦ absurd (ground arith)
  ]
