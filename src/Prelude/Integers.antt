-- ===== src/Prelude/Integers.antt =====
-- Signed results of ethers' `BigNumber`, which has no bound.
use Prim.Native.Nat.{ℕ, ◌-◌}
use tapioca_bar.Prelude.Results.{ltb, if◌then◌else◌}

-- `negsuc n` is -(n + 1).
pub data ℤ : Type 0 where
  pos : ℕ → ℤ
  negsuc : ℕ → ℤ

-- `a.sub(b)` of two numbers that are not negative.
abbrev pub sub_ℕ : ℕ → ℕ → ℤ
sub_ℕ a b = if ltb a b then negsuc (b - a - 1) else pos (a - b)
