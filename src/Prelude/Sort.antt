-- ===== src/Prelude/Sort.antt =====
-- `sort.SliceStable` as insertion sort: the result is ordered, holds the same members, and equal
-- members keep their order.
use mathlib.Core.Path.{◌≡◌}
use mathlib.Core.Logic.{inl, inr}
use mathlib.Core.Bool.{Bool, true, false}
use mathlib.Core.List.{List, [], ◌∷◌}
use meta_pulse.Prelude.Tests.{if◌then◌else◌, Bool-cases}
use meta_pulse.Prelude.Lists.{All, In, here, there}

-- What Go asks of the function `less`.
pub record IsStrictWeak {ℓ} {A : Type ℓ} (less : A → A → Bool) : Type ℓ where
  pub asym : (x y : A) → less x y ≡ true → less y x ≡ false
  pub neg_trans : (x y z : A) → less x y ≡ false → less y z ≡ false → less x z ≡ false

module _ {ℓ} {A : Type ℓ} (less : A → A → Bool) where
  pub insert : A → List A → List A
  insert x [] = x ∷ []
  insert x (y ∷ ys) = if less y x then y ∷ insert x ys else x ∷ y ∷ ys

  unfoldable pub sort_stable : List A → List A
  unfolding insert
  sort_stable [] = []
  sort_stable (x ∷ xs) = insert x (sort_stable xs)

  -- No later member is less than an earlier one.
  abbrev pub IsOrdered : List A → Type ℓ
  IsOrdered [] = Unit
  IsOrdered (x ∷ xs) = All (λ y. less y x ≡ false) xs × IsOrdered xs

  All-insert {κ} : (P : A → Type κ) (x : A) (xs : List A) → P x → All P xs → All P (insert x xs)
  unfolding insert
  All-insert P x [] p h = (p, tt)
  All-insert P x (y ∷ ys) p h = elim (Bool-cases (less y x)) [
    | inl e ↦ rw e (h.0, All-insert P x ys p h.1)
    | inr e ↦ rw e (p, h)
  ]

  pub All-sort {κ} : (P : A → Type κ) (xs : List A) → All P xs → All P (sort_stable xs)
  unfolding sort_stable
  All-sort P [] h = tt
  All-sort P (x ∷ xs) h = All-insert P x (sort_stable xs) h.0 (All-sort P xs h.1)

  In-insert_self : (x : A) (xs : List A) → In x (insert x xs)
  unfolding insert
  In-insert_self x [] = here
  In-insert_self x (y ∷ ys) = elim (Bool-cases (less y x)) [
    | inl e ↦ rw e (there (In-insert_self x ys))
    | inr e ↦ rw e here
  ]

  In-insert : (x z : A) (xs : List A) → In z xs → In z (insert x xs)
  unfolding insert
  In-insert x z [] m = elim m [ ]
  In-insert x z (y ∷ ys) here = elim (Bool-cases (less z x)) [
    | inl e ↦ rw e here
    | inr e ↦ rw e (there here)
  ]
  In-insert x z (y ∷ ys) (there m) = elim (Bool-cases (less y x)) [
    | inl e ↦ rw e (there (In-insert x z ys m))
    | inr e ↦ rw e (there (there m))
  ]

  -- Every member stays.
  pub In-sort : (z : A) (xs : List A) → In z xs → In z (sort_stable xs)
  unfolding sort_stable
  In-sort z [] m = elim m [ ]
  In-sort z (x ∷ xs) here = In-insert_self z (sort_stable xs)
  In-sort z (x ∷ xs) (there m) = In-insert x z (sort_stable xs) (In-sort z xs m)

  All-after :
      (w : IsStrictWeak less) (x y : A) (ys : List A)
      → less y x ≡ false
      → All (λ z. less z y ≡ false) ys
      → All (λ z. less z x ≡ false) ys
  All-after w x y [] e h = tt
  All-after w x y (z ∷ zs) e h = (w.neg_trans z y x h.0 e, All-after w x y zs e h.1)

  insert-IsOrdered :
      IsStrictWeak less → (x : A) (xs : List A) → IsOrdered xs → IsOrdered (insert x xs)
  unfolding insert
  insert-IsOrdered w x [] h = (tt, tt)
  insert-IsOrdered w x (y ∷ ys) h = elim (Bool-cases (less y x)) [
    | inl e ↦
        rw e
          (All-insert (λ z. less z y ≡ false) x ys (w.asym y x e) h.0, insert-IsOrdered w x ys h.1)
    | inr e ↦ rw e ((e, All-after w x y ys e h.0), h)
  ]

  pub sort-IsOrdered : IsStrictWeak less → (xs : List A) → IsOrdered (sort_stable xs)
  unfolding sort_stable
  sort-IsOrdered w [] = tt
  sort-IsOrdered w (x ∷ xs) = insert-IsOrdered w x (sort_stable xs) (sort-IsOrdered w xs)
