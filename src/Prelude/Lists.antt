-- ===== src/Prelude/Lists.antt =====
-- Lists measured by native numbers, and predicates on the members of a list.
use Prim.Native.Nat.{ℕ, suc, ◌+◌}
use mathlib.Core.Path.{◌≡◌}
use mathlib.Core.List.{List, [], ◌∷◌, ◌++◌}
use native.Mathlib.Omega.{arith}

module _ {ℓ} {A : Type ℓ} where
  abbrev pub length : List A → ℕ
  length [] = 0
  length (x ∷ xs) = suc (length xs)

  pub length-append : (xs ys : List A) → length (xs ++ ys) ≡ length xs + length ys
  length-append [] ys = omega arith
  length-append (x ∷ xs) ys = omega (arith, length-append xs ys)

-- Every member has the property.
abbrev pub All {ℓ κ} : {A : Type ℓ} → (A → Type κ) → List A → Type κ
All P [] = Unit
All P (x ∷ xs) = P x × All P xs

-- `x` stands in the list.
pub data In {ℓ} {A : Type ℓ} (x : A) : List A → Type ℓ where
  here : {xs : List A} → In x (x ∷ xs)
  there : {y : A} {xs : List A} → In x xs → In x (y ∷ xs)

pub All-In {ℓ κ} : {A : Type ℓ} (P : A → Type κ) {x : A} {xs : List A} → All P xs → In x xs → P x
All-In P h here = h.0
All-In P h (there m) = All-In P h.1 m

All-widen {ℓ} :
    {A : Type ℓ} (y : A) (ys xs : List A) → All (λ x. In x ys) xs → All (λ x. In x (y ∷ ys)) xs
All-widen y ys [] h = tt
All-widen y ys (x ∷ xs) h = (there h.0, All-widen y ys xs h.1)

-- Every member of a list stands in it.
pub members {ℓ} : {A : Type ℓ} (xs : List A) → All (λ x. In x xs) xs
members [] = tt
members (x ∷ xs) = (here, All-widen x xs xs (members xs))
