-- ===== src/Sdk/Calls.antt =====
-- Arguments of contract functions, encoded calls and the entries of a multicall. An encoding by
-- ethers is kept as what it encodes.
use tapioca_bar.Prelude.{ℕ, String, Bool, true, false, Option, none, some, List, [], ◌∷◌, ◌++◌}
use tapioca_bar.Prelude.{append-nil, ◌≡◌, refl, Result, ok, err, rejected, ◌>>=◌, ℤ, pos, negsuc}

mutual
  pub data Arg : Type 0 where
    undefined : Arg
    text : String → Arg
    num : ℕ → Arg
    flag : Bool → Arg
    array : Items → Arg
    struct : Fields → Arg
    encoded : String → Items → Arg
    abi_encoded : List String → Items → Arg

  pub data Items : Type 0 where
    nil : Items
    cons : Arg → Items → Items

  pub data Fields : Type 0 where
    end : Fields
    field : String → Arg → Fields → Fields

abbrev pub items : List Arg → Items
items [] = nil
items (a ∷ as') = cons a (items as')

abbrev pub fields : List (String × Arg) → Fields
fields [] = end
fields ((k, a) ∷ fs) = field k a (fields fs)

-- A property that may be missing, passed on as it is.
abbrev pub text? : Option String → Arg
text? none = undefined
text? (some s) = text s

-- `interface.encodeFunctionData(fn, args)`
pub record CallData : Type 0 where
  pub fn : String
  pub args : List Arg

-- Call data as the `bytes` argument of another call.
abbrev pub bytes : CallData → Arg
bytes c = encoded c.fn (items c.args)

-- `TapiocaMulticall.CallStruct`, and `CallValueStruct` where `value` is set.
pub record Call : Type 0 where
  pub target : String
  pub call_data : CallData
  pub allow_failure : Bool
  pub value : Option ℕ

-- The entry that every task pushes: `allowFailure` is false.
abbrev pub call : String → String → List Arg → Call
call target fn args = record {
  target = target;
  call_data = record { fn = fn; args = args };
  allow_failure = false;
  value = none;
}

abbrev pub call_value : String → String → List Arg → ℕ → Call
call_value target fn args value = record (call target fn args) { value = some value }

-- A step that pushes to the array of calls returns what it pushes, or the exception that it ends
-- by. One step after another pushes the calls of both.
infixr 20 ◌followed_by◌
abbrev pub ◌followed_by◌ : Result (List Call) → Result (List Call) → Result (List Call)
m followed_by k = do first ← m; second ← k; ok (first ++ second)

-- `if (b) { ... }`
abbrev pub when : Bool → Result (List Call) → Result (List Call)
when true m = m
when false m = ok []

-- A number passed as a `uint256`: ethers refuses to encode a negative one.
abbrev pub uint : ℤ → Result Arg
uint (pos n) = ok (num n)
uint (negsuc n) = err (rejected "value out-of-bounds")

-- A sequence that ends well has pushed the calls of its two parts, one after the other.
pub followed_by-eq-ok :
    (m k : Result (List Call)) {calls : List Call}
    → (m followed_by k) ≡ ok calls
    → (xs : List Call) × (ys : List Call) × (m ≡ ok xs) × (k ≡ ok ys) × (calls ≡ xs ++ ys)
followed_by-eq-ok (ok xs) (ok ys) h = (xs, ys, refl, refl, cc)
followed_by-eq-ok (ok xs) (err e) h = absurd (cc)
followed_by-eq-ok (err e) k h = absurd (cc)

pub followed_by_nil : (m : Result (List Call)) → (m followed_by ok []) ≡ m
followed_by_nil (ok xs) = rw append-nil
followed_by_nil (err e) = refl
