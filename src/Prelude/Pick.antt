-- ===== src/Prelude/Pick.antt =====
-- The cumulative walk over weights that the weighted draws share: the first member whose running
-- total passes the target.
use Prim.Native.Nat.{ℕ, ◌+◌, ◌%◌, ◌≤◌, ◌<◌}
use mathlib.Core.Path.{◌≡◌, refl, ◌∙◌}
use mathlib.Core.Bool.{false}
use mathlib.Core.Option.{Option, none, some}
use mathlib.Core.List.{List, [], ◌∷◌}
use native.Mathlib.Omega.{arith}
use native.Mathlib.Decide.{dec_lt}
use native.Mathlib.Nat.{mod-eq_of_lt}
use meta_pulse.Prelude.Lists.{In, here, there}
use meta_pulse.Prelude.Tests.{ltb, if◌then◌else◌}

module _ {ℓ} {A : Type ℓ} (weight : A → ℕ) where
  abbrev pub weights : List A → ℕ
  weights [] = 0
  weights (x ∷ xs) = weight x + weights xs

  -- `for … { cumulative += weight; if target < cumulative { return } }` on words below `word`.
  unfoldable pub pick : ℕ → ℕ → ℕ → List A → Option A
  pick word target cumulative [] = none
  pick word target cumulative (x ∷ xs) =
      let rest = pick word target ((cumulative + weight x) % word) xs in
      if ltb target ((cumulative + weight x) % word) then some x else rest

  -- The member whose share of the line `[0, weights)` holds the target.
  pub data Picks (target : ℕ) : ℕ → List A → A → Type ℓ where
    hit : {c : ℕ} {x : A} {xs : List A} → target < c + weight x → Picks target c (x ∷ xs) x
    next :
        {c : ℕ} {x y : A} {xs : List A}
        → c + weight x ≤ target
        → Picks target (c + weight x) xs y
        → Picks target c (x ∷ xs) y

  pick-hit :
      (word target c : ℕ) (x : A) (xs : List A)
      → c + weight x < word
      → target < c + weight x
      → pick word target c (x ∷ xs) ≡ some x
  unfolding pick
  pick-hit word target c x xs h t = ground (arith, mod-eq_of_lt h)

  pick-skip :
      (word target c : ℕ) (x : A) (xs : List A)
      → c + weight x < word
      → c + weight x ≤ target
      → pick word target c (x ∷ xs) ≡ pick word target (c + weight x) xs
  unfolding pick
  pick-skip word target c x xs h t =
      let exact : (c + weight x) % word ≡ c + weight x = mod-eq_of_lt h in
      let later : ltb target (c + weight x) ≡ false = ground arith in rw (exact, later)

  -- While the total stays below the word size the walk finds that member.
  pub pick-Picks :
      (word target c : ℕ) (xs : List A)
      → c + weights xs < word
      → c ≤ target
      → target < c + weights xs
      → (x : A) × (pick word target c xs ≡ some x) × Picks target c xs x
  pick-Picks word target c [] h l t = absurd (omega arith)
  pick-Picks word target c (x ∷ xs) h l t = elim (dec_lt target (c + weight x)) [
    | yes p ↦ (x, pick-hit word target c x xs (omega arith) p, hit p)
    | no p ↦
        let (y, q, k) =
          pick-Picks word target (c + weight x) xs (omega arith) (omega arith) (omega arith) in
        (y, pick-skip word target c x xs (omega arith) (omega arith) ∙ q, next (omega arith) k)
  ]

  -- Past the total it finds none.
  pub pick-none :
      (word target c : ℕ) (xs : List A)
      → c + weights xs < word
      → c + weights xs ≤ target
      → pick word target c xs ≡ none
  unfolding pick
  pick-none word target c [] h t = refl
  pick-none word target c (x ∷ xs) h t =
      pick-skip word target c x xs (omega arith) (omega arith)
      ∙ pick-none word target (c + weight x) xs (omega arith) (omega arith)

  -- A picked member stands in the list.
  pub Picks-In : {target c : ℕ} {xs : List A} {x : A} → Picks target c xs x → In x xs
  Picks-In (hit h) = here
  Picks-In (next h k) = there (Picks-In k)
