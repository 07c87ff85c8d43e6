-- ===== src/Penrose/MasterContracts.antt =====
-- The registry after the registration of the two master contracts of the markets.
use tapioca_bar.Prelude.{String, true, [], ◌∷◌, ◌++◌, arith, ◌≡◌, if◌then◌else◌}
use package.text.Mathlib.TextPositions.{eq_refl}
use tapioca_bar.Penrose.{Penrose, update}

-- The registry after the registration of one master contract, if it is made.
unfoldable pub after_sgl_mc : String → Penrose → Penrose
after_sgl_mc mc s = if s.is_singularity_master_contract_registered mc then s else record s {
  singularity_master_contracts =
      s.singularity_master_contracts ++ record { location = mc; risk = 1 } ∷ [];
  is_singularity_master_contract_registered =
      update s.is_singularity_master_contract_registered mc true;
}

unfoldable pub after_bb_mc : String → Penrose → Penrose
after_bb_mc mc s = if s.is_big_bang_master_contract_registered mc then s else record s {
  bigbang_master_contracts = s.bigbang_master_contracts ++ record { location = mc; risk = 1 } ∷ [];
  is_big_bang_master_contract_registered = update s.is_big_bang_master_contract_registered mc true;
}

abbrev pub after_mcs : String → String → Penrose → Penrose
after_mcs bb_mc sgl_mc s = after_bb_mc bb_mc (after_sgl_mc sgl_mc s)

pub after_mcs-keeps :
    (bb_mc sgl_mc : String) (s : Penrose)
    → ((after_mcs bb_mc sgl_mc s).owner ≡ s.owner)
      × ((after_mcs bb_mc sgl_mc s).is_market_registered ≡ s.is_market_registered)
unfolding after_sgl_mc after_bb_mc
after_mcs-keeps bb_mc sgl_mc s = (ground arith, ground arith)

pub after_mcs-registers :
    (bb_mc sgl_mc : String) (s : Penrose)
    → ((after_mcs bb_mc sgl_mc s).is_big_bang_master_contract_registered bb_mc ≡ true)
      × ((after_mcs bb_mc sgl_mc s).is_singularity_master_contract_registered sgl_mc ≡ true)
unfolding after_sgl_mc after_bb_mc
after_mcs-registers bb_mc sgl_mc s = (ground (arith, eq_refl bb_mc), ground (arith, eq_refl sgl_mc))
