-- ===== src/Prelude/Words.antt =====
-- The checked arithmetic of Solidity 0.8 on `uint256`, `uint128`, `uint64` and `int256`: an overflow,
-- an underflow and a division by zero revert.
use Prim.Native.Nat.{ℕ, zero, suc, ◌+◌, ◌-◌, ◌*◌, ◌/◌, ◌^◌}
use mathlib.Core.Bool.{Bool, true, false}
use tapioca_bar.Prelude.Results.{Result, ok, err, rejected, ltb, ◌==◌, if◌then◌else◌, ◌>>=◌}
use tapioca_bar.Prelude.Integers.{ℤ, pos, negsuc}

-- A value of `bits` bits.
abbrev pub fit : ℕ → ℕ → Result ℕ
fit bits n = if ltb n (2 ^ bits) then ok n else err (rejected "Panic(0x11)")

abbrev pub add : ℕ → ℕ → Result ℕ
add a b = fit 256 (a + b)

abbrev pub sub : ℕ → ℕ → Result ℕ
sub a b = if ltb a b then err (rejected "Panic(0x11)") else ok (a - b)

abbrev pub mul : ℕ → ℕ → Result ℕ
mul a b = fit 256 (a * b)

abbrev pub div : ℕ → ℕ → Result ℕ
div a b = if b == 0 then err (rejected "Panic(0x12)") else ok (a / b)

-- `a * b / c`
abbrev pub mul_div : ℕ → ℕ → ℕ → Result ℕ
mul_div a b c = do product ← mul a b; div product c

-- OpenZeppelin's `SafeCast`, as its name says, reverts where the value does not fit.
abbrev pub to_uint_128 : ℕ → Result ℕ
to_uint_128 n = fit 128 n

abbrev pub to_uint_64 : ℕ → Result ℕ
to_uint_64 n = fit 64 n

-- The conversion `int256(n)` keeps the bits.
abbrev pub to_int : ℕ → ℤ
to_int n = if ltb n (2 ^ 255) then pos n else negsuc (2 ^ 256 - n - 1)

-- The conversion `uint256(x)` does too.
abbrev pub to_uint : ℤ → ℕ
to_uint (pos n) = n
to_uint (negsuc n) = 2 ^ 256 - n - 1

abbrev fit_int : ℤ → Result ℤ
fit_int (pos n) = if ltb n (2 ^ 255) then ok (pos n) else err (rejected "Panic(0x11)")
fit_int (negsuc n) = if ltb n (2 ^ 255) then ok (negsuc n) else err (rejected "Panic(0x11)")

-- `- n`
abbrev opposite : ℕ → ℤ
opposite zero = pos 0
opposite (suc n) = negsuc n

abbrev difference : ℕ → ℕ → ℤ
difference a b = if ltb a b then opposite (b - a) else pos (a - b)

abbrev sum : ℤ → ℤ → ℤ
sum (pos a) (pos b) = pos (a + b)
sum (pos a) (negsuc b) = difference a (suc b)
sum (negsuc a) (pos b) = difference b (suc a)
sum (negsuc a) (negsuc b) = negsuc (suc (a + b))

abbrev negated : ℤ → ℤ
negated (pos a) = opposite a
negated (negsuc a) = pos (suc a)

abbrev product : ℤ → ℤ → ℤ
product (pos a) (pos b) = pos (a * b)
product (pos a) (negsuc b) = opposite (a * suc b)
product (negsuc a) (pos b) = opposite (suc a * b)
product (negsuc a) (negsuc b) = pos (suc a * suc b)

-- Solidity's division rounds toward zero.
abbrev quotient : ℤ → ℤ → ℤ
quotient (pos a) (pos b) = pos (a / b)
quotient (pos a) (negsuc b) = opposite (a / suc b)
quotient (negsuc a) (pos b) = opposite (suc a / b)
quotient (negsuc a) (negsuc b) = pos (suc a / suc b)

abbrev pub add_int : ℤ → ℤ → Result ℤ
add_int a b = fit_int (sum a b)

abbrev pub sub_int : ℤ → ℤ → Result ℤ
sub_int a b = fit_int (sum a (negated b))

abbrev pub mul_int : ℤ → ℤ → Result ℤ
mul_int a b = fit_int (product a b)

abbrev pub div_int : ℤ → ℤ → Result ℤ
div_int a (pos zero) = err (rejected "Panic(0x12)")
div_int a (pos (suc b)) = fit_int (quotient a (pos (suc b)))
div_int a (negsuc b) = fit_int (quotient a (negsuc b))

-- `a < b`
abbrev pub less_int : ℤ → ℤ → Bool
less_int (pos a) (pos b) = ltb a b
less_int (pos a) (negsuc b) = false
less_int (negsuc a) (pos b) = true
less_int (negsuc a) (negsuc b) = ltb b a

-- `uint256(x < 0 ? -x : x)`, where `- x` of the least value overflows.
abbrev pub abs_int : ℤ → Result ℕ
abs_int (pos a) = ok a
abs_int (negsuc a) = if ltb (suc a) (2 ^ 255) then ok (suc a) else err (rejected "Panic(0x11)")
