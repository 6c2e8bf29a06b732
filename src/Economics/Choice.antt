-- ===== src/Economics/Choice.antt =====
-- `Select` returns the first matching rule of a strict order.
use meta_pulse.Prelude.{
  ℕ, ◌≡◌, ◌<◌, ◌⊎◌, inl, inr, refl, true, false, Bool-cases, String, Bool, Option, none, some, List,
  [], ◌∷◌, All, In, All-In, members, here, there, arith,
}
use meta_pulse.Prelude.Int.{◌<ℤ◌}
use meta_pulse.Prelude.Text.{text_lt, text_lt-asym, text_lt-neg_trans}
use meta_pulse.Prelude.Sort.{
  IsStrictWeak, sort_stable, IsOrdered, sort-IsOrdered, All-sort, In-sort,
}
use meta_pulse.Economics.{Rule, specificity, before, head_rule, matches, matching, select}

before-IsStrictWeak : IsStrictWeak before
unfolding before
before-IsStrictWeak = record {
  asym = λ x y h. ground (arith, text_lt-asym x.key y.key);
  neg_trans = λ x y z h k. ground (arith, text_lt-neg_trans x.key y.key z.key);
}

-- `a` outranks `b`: a higher priority, then more specific, then the smaller key.
pub data Outranks (a b : Rule) : Type 0 where
  by_priority : b.priority <ℤ a.priority → Outranks a b
  by_specificity : a.priority ≡ b.priority → specificity b < specificity a → Outranks a b
  by_key :
      a.priority ≡ b.priority
      → specificity a ≡ specificity b
      → text_lt a.key b.key ≡ true
      → Outranks a b

before_of_Outranks : (a b : Rule) → Outranks a b → before a b ≡ true
unfolding before
before_of_Outranks a b (by_priority h) = ground arith
before_of_Outranks a b (by_specificity e h) = ground arith
before_of_Outranks a b (by_key e s h) = ground arith

In-tail : (r x : Rule) (xs ys : List Rule) → (In r xs → In r ys) → In r (x ∷ xs) → In r (x ∷ ys)
In-tail r x xs ys f here = here
In-tail r x xs ys f (there m) = there (f m)

-- Nothing in an ordered list outranks its head.
head_first :
    (r : Rule) (xs : List Rule)
    → IsOrdered before (r ∷ xs)
    → (x : Rule) → In x (r ∷ xs)
    → ¬ Outranks x r
head_first r xs o x here k =
    cc (
      IsStrictWeak.asym before-IsStrictWeak r r (before_of_Outranks r r k),
      before_of_Outranks r r k,
    )
head_first r xs o x (there m) k =
    cc (All-In (λ y. before y r ≡ false) o.0 m, before_of_Outranks x r k)

module _ (path_match : String → String → Option Bool) (model : String) (channel : ℕ) where
  abbrev pub Fits : Rule → Type 0
  Fits r = matches path_match r model channel ≡ true

  matching-Fits : (rs : List Rule) → All Fits (matching path_match rs model channel)
  unfolding matching
  matching-Fits [] = tt
  matching-Fits (r ∷ rs) = elim (Bool-cases (matches path_match r model channel)) [
    | inl e ↦ rw e (e, matching-Fits rs)
    | inr e ↦ rw e (matching-Fits rs)
  ]

  matching-In : (r : Rule) (rs : List Rule) → In r (matching path_match rs model channel) → In r rs
  unfolding matching
  matching-In r [] m = elim m [ ]
  matching-In r (x ∷ rs) m = elim (Bool-cases (matches path_match x model channel)) [
    | inl e ↦ In-tail r x (matching path_match rs model channel) rs (matching-In r rs) (rw e at m)
    | inr e ↦ there (matching-In r rs (rw e at m))
  ]

  In-matching :
      (r : Rule) (rs : List Rule) → In r rs → Fits r → In r (matching path_match rs model channel)
  unfolding matching
  In-matching r [] m f = elim m [ ]
  In-matching r (x ∷ rs) here f = rw f here
  In-matching r (x ∷ rs) (there m) f = elim (Bool-cases (matches path_match x model channel)) [
    | inl e ↦ rw e (there (In-matching r rs m f))
    | inr e ↦ rw e (In-matching r rs m f)
  ]

  -- The rule chosen: it is listed, it matches, and no listed rule that matches outranks it.
  pub record Chosen (rs : List Rule) (r : Rule) : Type 0 where
    pub listed : In r rs
    pub fits : Fits r
    pub first : (x : Rule) → In x rs → Fits x → ¬ Outranks x r

  sorted_head :
      (rs sorted : List Rule)
      → IsOrdered before sorted
      → ((x : Rule) → In x sorted → In x rs × Fits x)
      → ((x : Rule) → In x rs → Fits x → In x sorted)
      → ((r : Rule) × (head_rule sorted ≡ some r) × Chosen rs r)
        ⊎ (((x : Rule) → In x rs → ¬ Fits x) × (head_rule sorted ≡ none))
  sorted_head rs [] o back to = inr (λ x m f. absurd (no_member x (to x m f)), refl)
    where
      no_member : (x : Rule) → ¬ In x []
      no_member x m = elim m [ ]
  sorted_head rs (r ∷ xs) o back to = inl (
    r,
    refl,
    record {
      listed = (back r here).0;
      fits = (back r here).1;
      first = λ x m f. head_first r xs o x (to x m f);
    },
  )

  -- `Select` returns a listed rule that matches and that no listed matching rule outranks, by
  -- priority, then specificity, then key; it returns none exactly when no listed rule matches.
  pub select-Chosen :
      (rs : List Rule)
      → ((r : Rule) × (select path_match rs model channel ≡ some r) × Chosen rs r)
        ⊎ (((x : Rule) → In x rs → ¬ Fits x) × (select path_match rs model channel ≡ none))
  unfolding select
  select-Chosen rs =
      let ms = matching path_match rs model channel in
      sorted_head rs (sort_stable before ms) (sort-IsOrdered before before-IsStrictWeak ms)
        (λ x m.
          let back = All-In (λ y. In y ms) (All-sort before (λ y. In y ms) ms (members ms)) m in
          (matching-In x rs back, All-In Fits (matching-Fits rs) back))
        (λ x m f. In-sort before x ms (In-matching x rs m f))
