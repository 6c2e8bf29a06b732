-- ===== src/Level/Reached.antt =====
-- The level is the highest threshold reached.
use meta_pulse.Prelude.{
  ◌≡◌, ◌⊎◌, inl, inr, refl, false, Bool-cases, List, [], ◌∷◌, All, In, All-In, members, here, there,
  ap, arith,
}
use meta_pulse.Prelude.Int.{ℤ, ◌≤ℤ◌, ◌<ℤ◌, leb_ℤ}
use meta_pulse.Prelude.Sort.{
  IsStrictWeak, sort_stable, IsOrdered, sort-IsOrdered, All-sort, In-sort,
}
use meta_pulse.Level.{Definition, Level, lower, climb, unranked, calculate}

lower-IsStrictWeak : IsStrictWeak lower
lower-IsStrictWeak = record { asym = λ x y h. ground arith; neg_trans = λ x y z h k. ground arith }

-- `l` is the level of the definition `d`: `d` is reached, and every other reached definition of the
-- list has a threshold no higher.
pub record IsTop (lifetime : ℤ) (ds : List Definition) (l : Level) (d : Definition) : Type 0 where
  pub listed : In d ds
  pub key : l.key ≡ d.key
  pub name : l.name ≡ d.name
  pub reached : d.min_contribution_milli ≤ℤ lifetime
  pub highest :
      All
        (λ e.
          e.min_contribution_milli ≤ℤ lifetime
          → e.min_contribution_milli ≤ℤ d.min_contribution_milli)
        ds

climb-nothing :
    (lifetime : ℤ) (r : Level) (ds : List Definition)
    → All (λ e. lifetime <ℤ e.min_contribution_milli) ds
    → climb lifetime r ds ≡ r
unfolding climb
climb-nothing lifetime r [] h = refl
climb-nothing lifetime r (d ∷ ds) h =
    let out : leb_ℤ d.min_contribution_milli lifetime ≡ false = ground arith in
    rw out (climb-nothing lifetime r ds h.1)

above_unreached :
    (lifetime : ℤ) (d : Definition) (ds : List Definition)
    → lifetime <ℤ d.min_contribution_milli
    → All (λ e. lower e d ≡ false) ds
    → All (λ e. lifetime <ℤ e.min_contribution_milli) ds
above_unreached lifetime d [] h k = tt
above_unreached lifetime d (e ∷ ds) h k = (ground arith, above_unreached lifetime d ds h k.1)

IsTop-later :
    (lifetime : ℤ) (d e : Definition) (ds : List Definition) (l : Level)
    → All (λ x. lower x d ≡ false) ds
    → IsTop lifetime ds l e
    → IsTop lifetime (d ∷ ds) l e
IsTop-later lifetime d e ds l o t = record {
  listed = there t.listed;
  key = t.key;
  name = t.name;
  reached = t.reached;
  highest = (λ _. ground (arith, All-In (λ x. lower x d ≡ false) o t.listed), t.highest);
}

unreached_highest :
    (lifetime : ℤ) (d : Definition) (ds : List Definition)
    → All (λ e. lifetime <ℤ e.min_contribution_milli) ds
    → All
        (λ e.
          e.min_contribution_milli ≤ℤ lifetime
          → e.min_contribution_milli ≤ℤ d.min_contribution_milli)
        ds
unreached_highest lifetime d [] h = tt
unreached_highest lifetime d (e ∷ ds) h =
    (λ k. absurd (omega (arith, h.0)), unreached_highest lifetime d ds h.1)

-- What the loop establishes from any level `r`.
Climbed : ℤ → Level → List Definition → Level → Type 0
Climbed lifetime r ds l =
    ((d : Definition) × IsTop lifetime ds l d)
    ⊎ (All (λ e. lifetime <ℤ e.min_contribution_milli) ds × (l ≡ r))

climb-Climbed :
    (lifetime : ℤ) (r : Level) (ds : List Definition)
    → IsOrdered lower ds
    → Climbed lifetime r ds (climb lifetime r ds)
unfolding climb Climbed
climb-Climbed lifetime r [] o = inr (tt, refl)
climb-Climbed lifetime r (d ∷ ds) o = elim (Bool-cases (leb_ℤ d.min_contribution_milli lifetime)) [
  | inl e ↦
      let r' : Level = record r { key = d.key; name = d.name } in
      rw e (elim (climb-Climbed lifetime r' ds o.1) [
        | inl (t, top) ↦ inl (t, IsTop-later lifetime d t ds (climb lifetime r' ds) o.0 top)
        | inr (rest, same) ↦ inl (
          d,
          record {
            listed = here;
            key = ap (λ (l : Level). l.key) same;
            name = ap (λ (l : Level). l.name) same;
            reached = ground arith;
            highest = (λ _. omega arith, unreached_highest lifetime d ds rest);
          },
        )
      ])
  | inr e ↦
      let rest = above_unreached lifetime d ds (ground arith) o.0 in
      rw e (inr ((ground arith, rest), climb-nothing lifetime r ds rest))
]

climb-lifetime :
    (lifetime : ℤ) (r : Level) (ds : List Definition)
    → (climb lifetime r ds).lifetime_contribution ≡ r.lifetime_contribution
unfolding climb
climb-lifetime lifetime r [] = refl
climb-lifetime lifetime r (d ∷ ds) = ground (
  arith,
  climb-lifetime lifetime r ds,
  climb-lifetime lifetime (record r { key = d.key; name = d.name }) ds,
)

-- Every list that holds the same members as the sorted one is spoken for by it.
All-unsorted {κ} :
    (P : Definition → Type κ) (ds all : List Definition)
    → All P (sort_stable lower all)
    → ((d : Definition) → In d ds → In d all)
    → All P ds
All-unsorted P [] all h m = tt
All-unsorted P (d ∷ ds) all h m =
    (All-In P h (In-sort lower d all (m d here)), All-unsorted P ds all h (λ e i. m e (there i)))

-- `Calculate` reports the lifetime contribution, and either the key and name of a listed
-- definition that is reached and whose threshold no other reached definition passes, or, exactly
-- when no definition is reached, an empty key and name. The order of the list does not matter.
pub calculate_lem :
    (lifetime : ℤ) (ds : List Definition)
    → ((calculate lifetime ds).lifetime_contribution ≡ lifetime)
      × (((d : Definition) × IsTop lifetime ds (calculate lifetime ds) d)
          ⊎ (All (λ e. lifetime <ℤ e.min_contribution_milli) ds
              × (calculate lifetime ds ≡ unranked lifetime)))
unfolding calculate Climbed
calculate_lem lifetime [] = (refl, inr (tt, refl))
calculate_lem lifetime (x ∷ xs) =
    let all : List Definition = x ∷ xs in
    let sorted = sort_stable lower all in
    (
      climb-lifetime lifetime (unranked lifetime) sorted,
      elim (climb-Climbed lifetime (unranked lifetime) sorted
          (sort-IsOrdered lower lower-IsStrictWeak all)) [
            | inl (d, top) ↦ inl (
              d,
              record {
                listed =
                    All-In (λ e. In e all) (All-sort lower (λ e. In e all) all (members all))
                      top.listed;
                key = top.key;
                name = top.name;
                reached = top.reached;
                highest =
                    All-unsorted
                      (λ e.
                        e.min_contribution_milli ≤ℤ lifetime
                        → e.min_contribution_milli ≤ℤ d.min_contribution_milli)
                      all all top.highest (λ e i. i);
              },
            )
            | inr (none_reached, same) ↦ inr (
              All-unsorted (λ e. lifetime <ℤ e.min_contribution_milli) all all none_reached
                  (λ e i. i),
              same,
            )
          ],
    )
