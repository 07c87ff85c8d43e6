-- ===== src/Prelude/Ledger.antt =====
-- A Solidity mapping from addresses to numbers, as the list of the entries that were written; an
-- address that was not written has 0. The list allows the sum of all the entries.
use Prim.Native.Nat.{ℕ, ◌+◌, ◌≤◌}
use Prim.Native.String.{String}
use mathlib.Core.Path.{◌≡◌}
use mathlib.Core.List.{List, [], ◌∷◌}
use native.Mathlib.Omega.{arith}
use package.text.Mathlib.TextPositions.{eq_refl}
use tapioca_bar.Prelude.Results.{if◌then◌else◌}
use tapioca_bar.Prelude.Texts.{◌===◌}

unfoldable pub get : List (String × ℕ) → String → ℕ
get [] user = 0
get ((name, n) ∷ rest) user = if name === user then n else get rest user

unfoldable pub put : List (String × ℕ) → String → ℕ → List (String × ℕ)
put [] user m = (user, m) ∷ []
put ((name, n) ∷ rest) user m =
    let others = put rest user m in if name === user then (name, m) ∷ rest else (name, n) ∷ others

-- The sum of the entries.
unfoldable pub total : List (String × ℕ) → ℕ
total [] = 0
total ((name, n) ∷ rest) = n + total rest

pub total-put :
    (entries : List (String × ℕ)) (user : String) (m : ℕ)
    → total (put entries user m) + get entries user ≡ total entries + m
unfolding get put total
total-put [] user m = ground arith
total-put ((name, n) ∷ rest) user m = ground (arith, total-put rest user m)

pub get-total : (entries : List (String × ℕ)) (user : String) → get entries user ≤ total entries
unfolding get total
get-total [] user = ground arith
get-total ((name, n) ∷ rest) user = ground (arith, get-total rest user)

pub get-put :
    (entries : List (String × ℕ)) (user : String) (m : ℕ) → get (put entries user m) user ≡ m
unfolding get put
get-put [] user m = ground (arith, eq_refl user)
get-put ((name, n) ∷ rest) user m = ground (arith, eq_refl user, get-put rest user m)
