-- ===== src/Final/Address.antt =====
-- The recipient of a transfer, as utils_sendOftToken.ts writes it:
-- `'0x'.concat(address.split('0x')[1].padStart(64, '0'))`.
use Prim.Native.Char.{code}
use tapioca_bar.Prelude.{
  ℕ, zero, suc, ◌+◌, ◌-◌, ◌≤◌, String, Bool, true, false, Option, none, some, arith, ◌≡◌, refl,
  ◌==◌, ◌&&◌, if◌then◌else◌, Result, ok, present, ◌>>=◌,
}

-- The text starts with `0x`.
unfoldable pub is_prefixed : String → Bool
is_prefixed String.[] = false
is_prefixed (String.◌∷◌ c String.[]) = false
is_prefixed (String.◌∷◌ c (String.◌∷◌ d s)) = (code c == 48) && (code d == 120)

-- `s.length`, for texts of the basic plane.
unfoldable pub size : String → ℕ
size String.[] = 0
size (String.◌∷◌ c s) = suc (size s)

drop_1 : String → String
drop_1 String.[] = ""
drop_1 (String.◌∷◌ c s) = s

-- What stands after the first `0x`.
after_0x : String → Option String
unfolding is_prefixed drop_1
after_0x String.[] = none
after_0x (String.◌∷◌ c s) =
    let rest = after_0x s in if is_prefixed (String.◌∷◌ c s) then some (drop_1 s) else rest

-- What stands before the next `0x`.
until_0x : String → String
unfolding is_prefixed
until_0x String.[] = ""
until_0x (String.◌∷◌ c s) =
    let rest = until_0x s in if is_prefixed (String.◌∷◌ c s) then "" else String.◌∷◌ c rest

-- `s` after `n` zeros.
zeros : ℕ → String → String
zeros zero s = s
zeros (suc n) s = String.◌∷◌ "0" (zeros n s)

unfoldable pub bytes32_of : String → Result String
unfolding after_0x until_0x zeros size
bytes32_of address = do
  rest ← present (after_0x address)
  let hex = until_0x rest
  ok (String.◌∷◌ "0" (String.◌∷◌ "x" (zeros (64 - size hex) hex)))

size-zeros : (n : ℕ) (s : String) → size (zeros n s) ≡ n + size s
unfolding size zeros
size-zeros zero s = omega arith
size-zeros (suc n) s = omega (arith, size-zeros n s)

size-if : (b : Bool) (s t : String) → size (if b then s else t) ≡ (if b then size s else size t)
size-if true s t = refl
size-if false s t = refl

size-until_0x : (s : String) → size (until_0x s) ≤ size s
unfolding size until_0x
size-until_0x String.[] = omega arith
size-until_0x (String.◌∷◌ c s) = rw size-if (ground (arith, size-until_0x s))

after_0x-prefixed :
    (s : String)
    → is_prefixed s ≡ true
    → (t : String) × (after_0x s ≡ some t) × (size t + 2 ≡ size s)
unfolding size after_0x is_prefixed drop_1
after_0x-prefixed String.[] h = absurd (cc)
after_0x-prefixed (String.◌∷◌ c String.[]) h = absurd (cc)
after_0x-prefixed (String.◌∷◌ c (String.◌∷◌ d s)) h = (s, ground arith, ground arith)

-- An address that starts with `0x` and has at most 66 characters is written as a text of 66, which
-- starts with `0x` too.
pub size-bytes32_of :
    (a : String)
    → is_prefixed a ≡ true
    → size a ≤ 66
    → (r : String) × (bytes32_of a ≡ ok r) × (size r ≡ 66) × (is_prefixed r ≡ true)
unfolding bytes32_of size is_prefixed
size-bytes32_of a h k =
    let (t, e, l) = after_0x-prefixed a h in
    let hex = until_0x t in
    (
      String.◌∷◌ "0" (String.◌∷◌ "x" (zeros (64 - size hex) hex)),
      ground (arith, e),
      omega (arith, size-zeros (64 - size hex) hex, size-until_0x t),
      refl,
    )
