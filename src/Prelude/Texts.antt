-- ===== src/Prelude/Texts.antt =====
-- Names are texts, compared as they stand; addresses are compared in lower case.
use Prim.Native.Nat.{ℕ, ◌+◌}
use Prim.Native.Char.{code}
use Prim.Native.String.{String}
use mathlib.Core.Path.{◌≡◌, refl}
use mathlib.Core.Bool.{Bool, true, false, ◌&&◌}
use mathlib.Core.List.{List, [], ◌∷◌}
use native.Mathlib.Omega.{arith}
use text.Mathlib.Text
use tapioca_bar.Prelude.Results.{◌==◌, ltb, if◌then◌else◌}

infix 50 ◌===◌
-- `===` between strings.
abbrev pub ◌===◌ : String → String → Bool
s === t = Text.◌==◌ s t

-- The code points of `s.toLowerCase()` for an ASCII text.
lower : ℕ → ℕ
lower c = if ltb 64 c && ltb c 91 then c + 32 else c

lower_codes : String → List ℕ
lower_codes String.[] = []
lower_codes (String.◌∷◌ c s) = lower (code c) ∷ lower_codes s

same_codes : List ℕ → List ℕ → Bool
same_codes [] [] = true
same_codes [] (y ∷ ys) = false
same_codes (x ∷ xs) [] = false
same_codes (x ∷ xs) (y ∷ ys) = (x == y) && same_codes xs ys

-- `a.toLowerCase() === b.toLowerCase()`
unfoldable pub same_address : String → String → Bool
unfolding lower lower_codes same_codes
same_address a b = same_codes (lower_codes a) (lower_codes b)

same_codes_refl : (xs : List ℕ) → same_codes xs xs ≡ true
unfolding same_codes
same_codes_refl [] = refl
same_codes_refl (x ∷ xs) = ground (arith, same_codes_refl xs)

pub same_address_refl : (a : String) → same_address a a ≡ true
unfolding same_address
same_address_refl a = same_codes_refl (lower_codes a)

abbrev pub contains : String → List String → Bool
contains s [] = false
contains s (t ∷ ts) = if t === s then true else contains s ts

-- No text is listed twice.
abbrev pub distinct : List String → Bool
distinct [] = true
distinct (t ∷ ts) = if contains t ts then false else distinct ts
