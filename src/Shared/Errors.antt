-- ===== src/Shared/Errors.antt =====
-- Errors made by `fmt.Errorf`: the format and the texts that it quotes, in order.
use Prim.Native.String.{String}
use mathlib.Core.Path.{◌≡◌, refl}
use mathlib.Core.List.{List}
use mathlib.Core.Logic.{◌↔◌}
use mathlib.Core.Bool.{Bool, true, false}

pub data Error : Type 0 where
  errorf : String → List String → Error

-- A value, or the error that a function returned in its place.
pub data Result {ℓ} (A : Type ℓ) : Type ℓ where
  ok : A → Result A
  err : Error → Result A

-- `if err != nil { return err }` after a call.
abbrev pub ◌>>=◌ {ℓ κ} : {A : Type ℓ} {B : Type κ} → Result A → (A → Result B) → Result B
err e >>= next = err e
ok a >>= next = next a

infixl 5 ◌>>=◌ ◌>>◌
-- `if b { return fmt.Errorf(f, args) }`
abbrev pub fail_if : Bool → String → List String → Result (Unit {0})
fail_if true f args = err (errorf f args)
fail_if false f args = ok tt

-- A check whose value is not used.
abbrev pub ◌>>◌ {κ} : {B : Type κ} → Result (Unit {0}) → Result B → Result B
err e >> rest = err e
ok _ >> rest = rest

-- What a chain that succeeds has gone through.
pub >>=-eq-ok {ℓ κ} :
    {A : Type ℓ} {B : Type κ} (first : Result A) (next : A → Result B) {b : B}
    → (first >>= next) ≡ ok b
    → (a : A) × (first ≡ ok a) × (next a ≡ ok b)
>>=-eq-ok (err e) next done = cc
>>=-eq-ok (ok a) next done = (a, refl, done)

pub ok_injective : {A : Type 0} (x y : A) → ok x ≡ ok y → x ≡ y
ok_injective x y h = cc

-- When a chain of checks succeeds.
pub fail_if-ok :
    (b : Bool) (f : String) (args : List String) (rest : Result (Unit {0}))
    → ((fail_if b f args >> rest) ≡ ok tt) ↔ ((b ≡ false) × (rest ≡ ok tt))
fail_if-ok true f args rest = ((λ h. cc), (λ h. cc))
fail_if-ok false f args rest = ((λ h. (refl, h)), (λ h. h.1))

pub >>-ok :
    (first rest : Result (Unit {0}))
    → ((first >> rest) ≡ ok tt) ↔ ((first ≡ ok tt) × (rest ≡ ok tt))
>>-ok (ok tt) rest = ((λ h. (refl, h)), (λ h. h.1))
>>-ok (err e) rest = ((λ h. cc), (λ h. cc))
