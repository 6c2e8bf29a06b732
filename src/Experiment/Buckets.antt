-- ===== src/Experiment/Buckets.antt =====
-- Which bucket falls to which cohort.
use native.Mathlib.Decide.{dec_lt}
use meta_pulse.Prelude.{
  ℕ, ◌+◌, ◌%◌, ◌≡◌, ◌≤◌, ◌<◌, ◌⊎◌, inl, inr, refl, String, List, [], ◌∷◌, arith, All, false, ◌≢◌,
}
use meta_pulse.Prelude.Text.{is_blank}
use meta_pulse.Prelude.Pick.{weights, pick, Picks, pick-Picks, pick-none}
use meta_pulse.Prelude.Result.{ok}
use meta_pulse.Experiment.{Variant, share, Assignment, check_variants, cohort_of, bucket, assign}

-- What the first loop accepts.
abbrev pub IsNamed : Variant → Type 0
IsNamed v = (is_blank v.name ≡ false) × (0 < v.percentage)

pub check_variants-ok :
    (total : ℕ) (vs : List Variant)
    → total ≤ 10000
    → All (λ v. share v < 65536) vs
    → check_variants total vs ≡ ok tt
    → All IsNamed vs × (total + weights share vs ≤ 10000)
unfolding check_variants
check_variants-ok total [] t w h = (tt, omega arith)
check_variants-ok total (v ∷ vs) t w h = ground (arith, check_variants-ok (total + v.percentage) vs)

pub check_variants_total :
    (total : ℕ) (vs : List Variant)
    → All IsNamed vs
    → total + weights share vs ≤ 10000
    → check_variants total vs ≡ ok tt
unfolding check_variants
check_variants_total total [] n h = refl
check_variants_total total (v ∷ vs) n h =
    ground (arith, check_variants_total (total + v.percentage) vs n.1)

-- The cohort of a bucket: the variant whose share of the line holds it, and the holdout past the
-- last share.
abbrev pub InCohort : ℕ → List Variant → String → Type 0
InCohort b vs c =
    ((v : Variant) × Picks share b 0 vs v × (c ≡ v.name))
    ⊎ ((weights share vs ≤ b) × (c ≡ "holdout"))

cohort-InCohort :
    (b : ℕ) (vs : List Variant)
    → weights share vs ≤ 10000
    → InCohort b vs (cohort_of (pick share 65536 b 0 vs))
cohort-InCohort b vs h = elim (dec_lt b (weights share vs)) [
  | yes l ↦
      let (v, e, p) = pick-Picks share 65536 b 0 vs (omega arith) (omega arith) (omega arith) in
      inl (v, p, rw e)
  | no l ↦ inr (omega arith, rw (pick-none share 65536 b 0 vs (omega arith) (omega arith)))
]

module _ (digest16 : List ℕ → String → ℕ → ℕ) where
  assign-parts :
      (secret : List ℕ) (experiment : String) (user : ℕ) (vs : List Variant) {a : Assignment}
      → assign digest16 secret experiment user vs ≡ ok a
      → (a.experiment_id ≡ experiment)
        × (a.user_id ≡ user)
        × (check_variants 0 vs ≡ ok tt)
        × (a.bucket_bps ≡ bucket digest16 secret experiment user)
        × (a.cohort ≡ cohort_of (pick share 65536 (bucket digest16 secret experiment user) 0 vs))
  unfolding assign
  assign-parts secret experiment user vs h = ground arith

  -- An assignment keeps the experiment and the user, its bucket is below 10000, every variant is
  -- named and the shares sum to at most 10000; its cohort is the variant whose share of the line
  -- holds the bucket, or the holdout past the last share.
  pub assign-InCohort :
      (secret : List ℕ) (experiment : String) (user : ℕ) (vs : List Variant) {a : Assignment}
      → All (λ v. share v < 65536) vs
      → assign digest16 secret experiment user vs ≡ ok a
      → (a.experiment_id ≡ experiment)
        × (a.user_id ≡ user)
        × (a.bucket_bps < 10000)
        × All IsNamed vs
        × (weights share vs ≤ 10000)
        × InCohort a.bucket_bps vs a.cohort
  unfolding bucket
  assign-InCohort secret experiment user vs {a} w h =
      let (e, u, c, b, k) = assign-parts secret experiment user vs h in
      let (named, total) = check_variants-ok 0 vs (omega arith) w c in
      let low : weights share vs ≤ 10000 = omega arith in
      (
        e,
        u,
        rw b (omega arith),
        named,
        low,
        rw (b, k) (cohort-InCohort (digest16 secret experiment user % 10000) vs low),
      )

  -- Every well formed request is assigned.
  pub assign_total :
      (secret : List ℕ) (experiment : String) (user : ℕ) (vs : List Variant)
      → secret ≢ []
      → is_blank experiment ≡ false
      → user ≢ 0
      → vs ≢ []
      → All IsNamed vs
      → weights share vs ≤ 10000
      → (a : Assignment) × (assign digest16 secret experiment user vs ≡ ok a)
  unfolding assign
  assign_total secret experiment user vs s e u v n h =
      let checked = check_variants_total 0 vs n (omega arith) in
      let b = bucket digest16 secret experiment user in
      (
        record {
          experiment_id = experiment;
          user_id = user;
          cohort = cohort_of (pick share 65536 b 0 vs);
          bucket_bps = b;
        },
        ground arith,
      )
