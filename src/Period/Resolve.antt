-- ===== src/Period/Resolve.antt =====
-- `ResolveActive`: the latest continuous period, and otherwise the only match.
use meta_pulse.Prelude.{
  ℕ, ◌≡◌, ◌≢◌, ◌≤◌, ◌<◌, ◌⊎◌, inl, inr, refl, sym, subst, true, false, Bool-cases, List, [], ◌∷◌,
  All, In, here, there, arith, ◌==◌, ==_iff, if◌then◌else◌, ap,
}
use meta_pulse.Prelude.Result.{Result, ok, err}
use meta_pulse.Period.{
  Period, PeriodError, no_active_period, overlapping, no_period, contains, supersedes,
  latest_continuous, only_match, resolve_active,
}

-- A continuous period whose window holds the instant.
abbrev pub Covers : ℕ → Period → Type 0
Covers at p = (p.continuous ≡ true) × (contains p at ≡ true)

-- `q` starts before `p`, or with it and has no larger identity.
abbrev pub NotAfter : Period → Period → Type 0
NotAfter q p = (q.starts_at < p.starts_at) ⊎ ((q.starts_at ≡ p.starts_at) × (q.id ≤ p.id))

-- Identities are auto-increment keys: none is zero.
abbrev pub Stored : List Period → Type 0
Stored = All (λ p. p.id ≢ 0)

record Latest (at : ℕ) (l : Period) (ps : List Period) (r : Period) : Type 0 where
  origin : (r ≡ l) ⊎ (In r ps × Covers at r)
  keeps : l.id ≢ 0 → (r.id ≢ 0) × NotAfter l r
  newest : All (λ q. Covers at q → (r.id ≢ 0) × NotAfter q r) ps

NotAfter-refl : (p : Period) → NotAfter p p
NotAfter-refl p = omega arith

NotAfter-trans : (p q r : Period) → NotAfter p q → NotAfter q r → NotAfter p r
NotAfter-trans p q r h k = omega arith

takes : (at : ℕ) (p l : Period) → supersedes at p l ≡ true → Covers at p × (l.id ≢ 0 → NotAfter l p)
takes at p l h = ground arith

leaves :
    (at : ℕ) (p l : Period) → supersedes at p l ≡ false → Covers at p → (l.id ≢ 0) × NotAfter p l
leaves at p l h c = ground arith

Latest-take :
    (at : ℕ) (l p : Period) (ps : List Period) (r : Period)
    → p.id ≢ 0
    → supersedes at p l ≡ true
    → Latest at p ps r
    → Latest at l (p ∷ ps) r
Latest-take at l p ps r n e h =
    let (covers, newer) = takes at p l e in
    record {
      origin = elim h.origin [
        | inl s ↦ inr (subst (λ x. In x (p ∷ ps)) (sym s) here, subst (Covers at) (sym s) covers)
        | inr (m, c) ↦ inr (there m, c)
      ];
      keeps = λ z. ((h.keeps n).0, NotAfter-trans l p r (newer z) (h.keeps n).1);
      newest = (λ _. h.keeps n, h.newest);
    }

Latest-leave :
    (at : ℕ) (l p : Period) (ps : List Period) (r : Period)
    → supersedes at p l ≡ false
    → Latest at l ps r
    → Latest at l (p ∷ ps) r
Latest-leave at l p ps r e h = record {
  origin = elim h.origin [ inl s ↦ inl s | inr (m, c) ↦ inr (there m, c) ];
  keeps = h.keeps;
  newest = (
    λ c.
        let (n, older) = leaves at p l e c in
        ((h.keeps n).0, NotAfter-trans p l r older (h.keeps n).1),
    h.newest,
  );
}

latest_continuous-Latest :
    (at : ℕ) (l : Period) (ps : List Period)
    → Stored ps
    → Latest at l ps (latest_continuous at l ps)
unfolding latest_continuous
latest_continuous-Latest at l [] s = record {
  origin = inl refl;
  keeps = λ n. (n, NotAfter-refl l);
  newest = tt;
}
latest_continuous-Latest at l (p ∷ ps) s = elim (Bool-cases (supersedes at p l)) [
  | inl e ↦ rw e (
      Latest-take at l p ps (latest_continuous at p ps) s.0 e
        (latest_continuous-Latest at p ps s.1))
  | inr e ↦
      rw e (
        Latest-leave at l p ps (latest_continuous at l ps) e (latest_continuous-Latest at l ps s.1))
]

-- The periods whose window holds the instant.
abbrev pub containing : ℕ → List Period → List Period
containing at [] = []
containing at (p ∷ ps) = let rest = containing at ps in if contains p at then p ∷ rest else rest

-- The only member of a list, or why there is none.
abbrev pub sole : List Period → Result PeriodError Period
sole [] = err no_active_period
sole (p ∷ []) = ok p
sole (p ∷ q ∷ _) = err overlapping

only_match_found :
    (at : ℕ) (m : Period) (ps : List Period)
    → m.id ≢ 0
    → only_match at m ps ≡ sole (m ∷ containing at ps)
unfolding only_match
only_match_found at m [] n = ground arith
only_match_found at m (p ∷ ps) n = ground (arith, only_match_found at m ps n)

only_match_none :
    (at : ℕ) (m : Period) (ps : List Period)
    → m.id ≡ 0
    → Stored ps
    → only_match at m ps ≡ sole (containing at ps)
unfolding only_match
only_match_none at m [] n s = ground arith
only_match_none at m (p ∷ ps) n s =
    ground (arith, only_match_none at m ps n s.1, only_match_found at p ps s.0)

no_cover :
    (at : ℕ) (r : Period) (ps : List Period)
    → r.id ≡ 0
    → All (λ q. Covers at q → (r.id ≢ 0) × NotAfter q r) ps
    → All (λ q. ¬ Covers at q) ps
no_cover at r [] z h = tt
no_cover at r (p ∷ ps) z h = (λ c. (h.0 c).0 z, no_cover at r ps z h.1)

newest_cover :
    (at : ℕ) (r : Period) (ps : List Period)
    → All (λ q. Covers at q → (r.id ≢ 0) × NotAfter q r) ps
    → All (λ q. Covers at q → NotAfter q r) ps
newest_cover at r [] h = tt
newest_cover at r (p ∷ ps) h = (λ c. (h.0 c).1, newest_cover at r ps h.1)

-- The first case of `ResolveActive`: the latest of the continuous periods that cover the instant.
pub record Newest (at : ℕ) (ps : List Period) (p : Period) : Type 0 where
  pub stored : In p ps
  pub covers : Covers at p
  pub newest : All (λ q. Covers at q → NotAfter q p) ps

-- For stored periods, `ResolveActive` returns the latest continuous period whose window holds the
-- instant, by start and then by identity; if no continuous period covers it, it returns the only
-- period whose window holds it, `ErrNoActivePeriod` if there is none and the overlap error if there
-- are several.
pub resolve_active_lem :
    (ps : List Period) (at : ℕ)
    → Stored ps
    → ((p : Period) × (resolve_active ps at ≡ ok p) × Newest at ps p)
      ⊎ (All (λ q. ¬ Covers at q) ps × (resolve_active ps at ≡ sole (containing at ps)))
unfolding resolve_active
resolve_active_lem ps at s =
    let r = latest_continuous at no_period ps in
    let found = latest_continuous-Latest at no_period ps s in
    elim (Bool-cases (r.id == 0)) [
      | inl z ↦ inr (
        no_cover at r ps ((==_iff r.id 0).0 z) found.newest,
        rw z (only_match_none at no_period ps refl s),
      )
      | inr n ↦ inl (
        r,
        rw n,
        elim found.origin [
          | inl e ↦ let z : r.id ≡ 0 = ap (λ (x : Period). x.id) e in absurd (ground arith)
          | inr (m, c) ↦ record {
            stored = m;
            covers = c;
            newest = newest_cover at r ps found.newest;
          }
        ],
      )
    ]
