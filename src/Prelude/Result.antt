-- ===== src/Prelude/Result.antt =====
-- A Go result of type (T, error): a value or an error, with early return on the error.
use mathlib.Core.Path.{◌≡◌, refl}
use mathlib.Core.Bool.{Bool, true, false}
use mathlib.Core.Logic.{◌↔◌}

pub data Result {ℓ κ} (E : Type ℓ) (T : Type κ) : Type (ℓ ⊔ κ) where
  err : E → Result E T
  ok : T → Result E T

-- `x, err := r; if err != nil { return err }; next(x)`
infixl 5 ◌>>=◌ ◌>>◌
abbrev pub ◌>>=◌ {ℓ κ μ} :
    {E : Type ℓ} {T : Type κ} {U : Type μ} (r : Result E T) → (T → Result E U) → Result E U
◌>>=◌ r next = elim r [ err e ↦ err e | ok x ↦ next x ]

abbrev pub ◌>>◌ {ℓ κ} : {E : Type ℓ} {U : Type κ} → Result E (Unit {0}) → Result E U → Result E U
◌>>◌ r after = elim r [ err e ↦ err e | ok _ ↦ after ]

-- `if bad { return ..., e }`
abbrev pub fail_if {ℓ} : {E : Type ℓ} → Bool → E → Result E (Unit {0})
fail_if false e = ok tt
fail_if true e = err e

-- A chain that succeeds had a first value and went on from it.
pub >>=-ok {ℓ κ μ} :
    {E : Type ℓ} {T : Type κ} {U : Type μ} {u : U} (r : Result E T) (next : T → Result E U)
    → (r >>= next) ≡ ok u
    → (x : T) × (r ≡ ok x) × (next x ≡ ok u)
>>=-ok (err e) next p = cc
>>=-ok (ok x) next p = (x, refl, p)

pub fail_if_iff {ℓ} :
    {E : Type ℓ} (bad : Bool) (e : E) (rest : Result E (Unit {0}))
    → ((fail_if bad e >> rest) ≡ ok tt) ↔ ((bad ≡ false) × (rest ≡ ok tt))
fail_if_iff false e rest = (λ p. (refl, p), λ p. p.1)
fail_if_iff true e rest = (λ p. cc, λ p. cc)
