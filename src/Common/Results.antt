-- ===== src/Common/Results.antt =====
-- Rust's `Result`, with `?` as the chain of a do block.
use mathlib.Core.Path.{◌≡◌, refl}
use mathlib.Core.Bool.{Bool, true, false}

pub data Result {ℓ κ} (Fault : Type ℓ) (Value : Type κ) : Type (ℓ ⊔ κ) where
  err : Fault → Result Fault Value
  ok : Value → Result Fault Value

-- `if !condition { return Err(e) }`
abbrev pub guard {ℓ} : {Fault : Type ℓ} → Bool → Fault → Result Fault (Unit {0})
guard false fault = err fault
guard true fault = ok tt

-- `map_err`
abbrev pub map_err {ℓ κ μ} :
    {Fault : Type ℓ} {Other : Type μ} {Value : Type κ}
    → (Fault → Other)
    → Result Fault Value
    → Result Other Value
map_err change (err fault) = err (change fault)
map_err change (ok value) = ok value

infixl 5 ◌>>=◌ ◌>>◌
abbrev pub ◌>>=◌ {ℓ κ μ} :
    {Fault : Type ℓ} {Value : Type κ} {Next : Type μ}
    → Result Fault Value
    → (Value → Result Fault Next)
    → Result Fault Next
err fault >>= rest = err fault
ok value >>= rest = rest value

abbrev pub ◌>>◌ {ℓ μ} :
    {Fault : Type ℓ} {Next : Type μ}
    → Result Fault (Unit {0})
    → Result Fault Next
    → Result Fault Next
check >> rest = check >>= λ done. rest

-- A chain succeeds only if its first part does.
pub >>=-eq-ok {ℓ κ μ} :
    {Fault : Type ℓ} {Value : Type κ} {Next : Type μ} (first : Result Fault Value)
    (rest : Value → Result Fault Next) {result : Next}
    → (first >>= rest) ≡ ok result
    → (value : Value) × (first ≡ ok value) × (rest value ≡ ok result)
>>=-eq-ok (err fault) rest h = cc
>>=-eq-ok (ok value) rest h = (value, refl, h)

pub ok-injective {ℓ κ} :
    {Fault : Type ℓ} {Value : Type κ} {x y : Value}
    → ◌≡◌ {A = Result Fault Value} (ok x) (ok y)
    → x ≡ y
ok-injective h = cc

-- A guard that lets a chain go on has found its condition true.
pub guard-true {ℓ} : {Fault : Type ℓ} (b : Bool) (fault : Fault) → guard b fault ≡ ok tt → b ≡ true
guard-true true fault h = refl
guard-true false fault h = cc
